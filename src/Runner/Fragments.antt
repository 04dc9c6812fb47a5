-- ===== src/Runner/Fragments.antt =====
-- internal/engine/engine_windows.go: fragments on their way in and out of the engine.
use split_wire.Prelude.{
  Bool, Bytes, List, Option, Outcome, [], byte_at, err, false, if◌then◌else◌, leb, length, none,
  not, ok, out_of_fuel, panic, shr, some, true, ℕ, ◌%◌, ◌+◌, ◌==◌, ◌^◌, ◌||◌, ◌∷◌,
}
use split_wire.Packet.Parse.{Packet, Error as PacketError, proto_tcp}
use split_wire.Packet.Fragment6.{is_fragment, fragment_for_mtu}
use split_wire.Packet.Split.{split_for_mtu}
use split_wire.Reassembly.{Result, passed, Failure}
use split_wire.Reassembly.Ipv4.{push_info as push_info4, take_expired as take_expired4}
use split_wire.Reassembly.Ipv6.{push_info as push_info6, take_expired as take_expired6}
use split_wire.Runner.{Runner, Driver, Tables, Stats, tick, plus, bypass_one}

-- `noteFragmentTimeouts`.
unfoldable pub note_timeouts : ℕ → Stats → Stats
note_timeouts n s = if n == 0 then s else record s {
  frag_timeouts = plus s.frag_timeouts n;
  frag_errors = plus s.frag_errors n;
  dropped = plus s.dropped n;
}

-- `takeFragmentTimeouts`.
unfoldable pub take_timeouts : Tables → Stats → Tables × Stats
take_timeouts t s =
    let (four, n4) = take_expired4 t.four in
    let (six, n6) = take_expired6 t.six in
    (record { four = four; six = six }, note_timeouts ((n4 + n6) % 2 ^ 64) s)

pub data FragmentError : Type 0 where
  not_ip_fragment : FragmentError
  table_error : Failure → FragmentError

abbrev pub from_table : Outcome Failure Result → Outcome FragmentError Result
from_table (ok x) = ok x
from_table (err e) = err (table_error e)
from_table panic = panic
from_table out_of_fuel = out_of_fuel

-- `reassembleOutbound` and `reassembleInbound`, which differ in the tables only. An empty buffer is no
-- fragment, so that the source's test for one is never met.
unfoldable pub reassemble :
    Bytes → ℕ → Tables → Stats → Tables × Stats × Outcome FragmentError Result
reassemble raw now t s = elim (is_fragment raw) [
  | err e ↦ (t, s, ok (passed raw))
  | panic ↦ (t, s, panic)
  | out_of_fuel ↦ (t, s, out_of_fuel)
  | ok false ↦ (t, s, ok (passed raw))
  | ok true ↦
      if shr (byte_at raw 0) 4 == 4
      then (let (four, res) = push_info4 raw now t.four in
          let (t', s') = take_timeouts (record t { four = four }) s in (t', s', from_table res))
      else if shr (byte_at raw 0) 4 == 6
      then (let (six, res) = push_info6 raw now t.six in
          let (t', s') = take_timeouts (record t { six = six }) s in (t', s', from_table res))
      else (let (t', s') = take_timeouts t s in (t', s', err not_ip_fragment))
]

-- The loop that sends the parts of a packet, up to the first that the driver does not take.
unfoldable pub send_parts : Driver → List Bytes → Runner → Runner × List Bytes × Bool
send_parts w [] r = (r, [], true)
send_parts w (part ∷ parts) r =
    let (r', sent, done) = send_parts w parts (bypass_one r) in
    if w.sends part then (r', part ∷ sent, done) else (r, [], false)

pub data Trouble : Type 0 where
  no_checksum not_sent : Trouble
  packet_trouble : PacketError → Trouble

abbrev pub sent_all : Runner × List Bytes × Bool → Runner × List Bytes × Outcome Trouble (Unit {0})
sent_all (r, sent, true) = (r, sent, ok tt)
sent_all (r, sent, false) = (r, sent, err not_sent)

-- The counter of packets that were fragmented again.
abbrev pub refragmented : Bool → Runner → Runner
refragmented true r = tick (λ s. record s { frag_refragmented = plus s.frag_refragmented 1 }) r
refragmented false r = r

-- `reinjectDirect`: the engine, the packets sent, and whether all of it went.
unfoldable pub reinject_direct :
    Driver → Bytes → Result → Runner → Runner × List Bytes × Outcome Trouble (Unit {0})
reinject_direct w raw frag r =
    if not frag.fragmented then sent_all (send_parts w (raw ∷ []) r) else elim (w.checksums raw) [
      | none ↦ (r, [], err no_checksum)
      | some cp ↦
          if (frag.fragment_mtu == 0) || leb (length cp) frag.fragment_mtu
          then sent_all (send_parts w (cp ∷ []) r)
          else elim (fragment_for_mtu cp frag.fragment_mtu r.frag_id) [
            | err e ↦ (r, [], err (packet_trouble e))
            | panic ↦ (r, [], panic)
            | out_of_fuel ↦ (r, [], out_of_fuel)
            | ok (parts, split, id) ↦
                sent_all (send_parts w parts (refragmented split (record r { frag_id = id })))
          ]
    ]

unfoldable pub checksum_all : Driver → List Bytes → Option (List Bytes)
checksum_all w [] = some []
checksum_all w (seg ∷ segs) = elim (w.checksums seg) [
  | none ↦ none
  | some c ↦ elim (checksum_all w segs) [ none ↦ none | some cs ↦ some (c ∷ cs) ]
]

-- `prepareTunnelPackets`: the packets for the tunnel, and whether there are several.
unfoldable pub prepare_tunnel_packets :
    Driver → Bytes → Packet → Runner → Runner × Outcome Trouble (List Bytes × Bool)
prepare_tunnel_packets w cp p r =
    if leb (length cp) r.mtu
    then elim (w.checksums cp) [ none ↦ (r, err no_checksum) | some c ↦ (r, ok (c ∷ [], false)) ]
    else if p.protocol == proto_tcp
    then elim (split_for_mtu cp r.mtu) [
      | err e ↦ (r, err (packet_trouble e))
      | panic ↦ (r, panic)
      | out_of_fuel ↦ (r, out_of_fuel)
      | ok (segs, split) ↦ elim (checksum_all w segs) [
        | none ↦ (r, err no_checksum)
        | some cs ↦ (r, ok (cs, split))
      ]
    ]
    else elim (w.checksums cp) [
      | none ↦ (r, err no_checksum)
      | some c ↦ elim (fragment_for_mtu c r.mtu r.frag_id) [
        | err e ↦ (r, err (packet_trouble e))
        | panic ↦ (r, panic)
        | out_of_fuel ↦ (r, out_of_fuel)
        | ok (parts, split, id) ↦
            (refragmented split (record r { frag_id = id }), ok (parts, split))
      ]
    ]
