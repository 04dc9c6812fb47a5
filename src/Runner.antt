-- ===== src/Runner.antt =====
-- internal/engine/engine_windows.go: the state of the engine, and what it uses of the packet driver.
-- The loops run beside each other in the source; here each packet or event of a loop is one step, in
-- any order. Times are in seconds.
pub mod Fragments
pub mod Route
pub mod Discover
pub mod Outbound
pub mod NoLeak
pub mod Settled
pub mod Inbound
pub mod Sending
pub mod Upkeep
pub mod Fairness
use split_wire.Prelude.{Bool, Bytes, List, Option, ℕ, ◌%◌, ◌+◌, ◌^◌}
use split_wire.Flow.{Index}
use split_wire.Tracker.{Tracker}
use split_wire.Discovery.{Discovery}
use split_wire.Policy.{Engine}
use split_wire.Routes.{FlowTable, ProxyTable}
use split_wire.Mapper.{Mapper, Meta}
use split_wire.Reassembly.Ipv4.{Table as Table4}
use split_wire.Reassembly.Ipv6.{Table as Table6}
use split_wire.Text.{Platform}

-- The counters of `Runner` that its loops add to, modulo 2 ^ 64.
pub record Stats : Type 0 where
  pub captured : ℕ
  pub tunneled : ℕ
  pub bypassed : ℕ
  pub dropped : ℕ
  pub proc_resolved : ℕ
  pub proc_missed : ℕ
  pub discovery_packets : ℕ
  pub domain_matches : ℕ
  pub sni_learned : ℕ
  pub quic_suppressed : ℕ
  pub reconnects : ℕ
  pub inbound_injected : ℕ
  pub inbound_errors : ℕ
  pub inbound_other : ℕ
  pub reverse_nat_miss : ℕ
  pub oversize_segmented : ℕ
  pub oversize_dropped : ℕ
  pub send_queue_high : ℕ
  pub sticky_unknown_direct : ℕ
  pub preexisting_tcp_reset : ℕ
  pub frag_reassembled : ℕ
  pub frag_refragmented : ℕ
  pub frag_errors : ℕ
  pub frag_timeouts : ℕ
  pub wg_write_ok : ℕ
  pub wg_write_errors : ℕ

-- The tables of fragments of one direction.
pub record Tables : Type 0 where
  pub four : Table4
  pub six : Table6

-- `mtu` is of the configuration, and `frag_id` the counter of identifications of internal/packet. The
-- queues are the channels to the loop that sends.
pub record Runner : Type 0 where
  pub mtu : ℕ
  pub aggressive : Bool
  pub flows : Index
  pub domains : Tracker
  pub discovery : Discovery
  pub policy : Engine
  pub proxies : ProxyTable
  pub routes : FlowTable
  pub nat : Mapper
  pub out : Tables
  pub inward : Tables
  pub frag_id : ℕ
  pub urgent : List Bytes
  pub bulk : List Bytes
  pub stats : Stats

-- What the engine uses of the driver: whether `Send` succeeds on a packet, and `CalcChecksums`, which
-- writes the checksums into a packet or fails. `os` and `lower` are the case mapping and paths.
pub record Driver : Type 0 where
  pub sends : Bytes → Bool
  pub checksums : Bytes → Option Bytes
  pub os : Platform
  pub lower : Bytes → Bytes

-- A packet that the driver sends on: outbound as it was captured, or inbound to an interface.
pub data Output : Type 0 where
  direct : Bytes → Output
  inbound : Meta → Bool → Bytes → Output

abbrev pub no_stats : Stats
no_stats = record {
  captured = 0;
  tunneled = 0;
  bypassed = 0;
  dropped = 0;
  proc_resolved = 0;
  proc_missed = 0;
  discovery_packets = 0;
  domain_matches = 0;
  sni_learned = 0;
  quic_suppressed = 0;
  reconnects = 0;
  inbound_injected = 0;
  inbound_errors = 0;
  inbound_other = 0;
  reverse_nat_miss = 0;
  oversize_segmented = 0;
  oversize_dropped = 0;
  send_queue_high = 0;
  sticky_unknown_direct = 0;
  preexisting_tcp_reset = 0;
  frag_reassembled = 0;
  frag_refragmented = 0;
  frag_errors = 0;
  frag_timeouts = 0;
  wg_write_ok = 0;
  wg_write_errors = 0;
}

abbrev pub plus : ℕ → ℕ → ℕ
plus a n = (a + n) % 2 ^ 64

abbrev pub tick : (Stats → Stats) → Runner → Runner
tick f r = record r { stats = f r.stats }

-- The counters that several places add to.
abbrev pub drop_one : Runner → Runner
drop_one = tick (λ s. record s { dropped = plus s.dropped 1 })

abbrev pub bypass_one : Runner → Runner
bypass_one = tick (λ s. record s { bypassed = plus s.bypassed 1 })

abbrev pub frag_error : Runner → Runner
frag_error = tick (λ s. record s { frag_errors = plus s.frag_errors 1 })

abbrev pub inbound_error : Runner → Runner
inbound_error r = drop_one (tick (λ s. record s { inbound_errors = plus s.inbound_errors 1 }) r)
