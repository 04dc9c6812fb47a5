-- ===== src/Runner/Route.antt =====
-- internal/engine/engine_windows.go: the decision for a packet in `captureLoop`.
use split_wire.Prelude.{
  Bool, Bytes, List, Option, Outcome, [], false, if◌then◌else◌, none, not, ok, some, true, ℕ, ◌&&◌,
  ◌>>=◌, ◌∷◌,
}
use split_wire.Flow.{Key, Index, Process, owner, wait_owner}
use split_wire.Packet.Parse.{Packet}
use split_wire.Policy.{Decision, no_tunnel, decide, is_internal, could_tunnel_without_process}
use split_wire.Routes.{touch_route, set_route, touch_proxy}
use split_wire.Runner.{Runner, Driver, tick, plus}
use split_wire.Ip.{unmap}
use split_wire.Mapper.{Meta}

-- What comes with a captured packet: its time and interface, the index of flows at each notification
-- that `WaitLookup` gets in time, and what `ResolveSocketOwner` finds.
pub record Capture : Type 0 where
  pub raw : Bytes
  pub meta : Meta
  pub now : ℕ
  pub notified : List Index
  pub resolve : Index → Key → Index × Option Process

abbrev pub flow_key : Packet → Key
flow_key p = record {
  proto = p.protocol;
  local = unmap p.src;
  remote = unmap p.dst;
  local_port = p.src_port;
  remote_port = p.dst_port;
}

-- The decision with `proc`, `ok` and `first` of the source, and whether the proxy chose it.
pub record Route : Type 0 where
  pub tunnel : Bool
  pub proc : Process
  pub known : Bool
  pub first : Bool
  pub by_proxy : Bool

abbrev pub no_process : Process
no_process = record { pid = 0; name = []; path = [] }

-- The index that the wait leaves: the last that it saw.
abbrev pub last_index : Index → List Index → Index
last_index i [] = i
last_index i (j ∷ later) = last_index j later

-- The process of a flow: by the index at once, after a wait, or asked of the system. The last two only
-- where the decision needs it.
unfoldable pub find_process : Capture → Key → Bool → Index → Index × Option Process
find_process c key needed i = elim (owner key i) [
  | some p ↦ (i, some p)
  | none ↦ if not needed then (i, none) else elim (wait_owner key i c.notified) [
    | some p ↦ (last_index i c.notified, some p)
    | none ↦ c.resolve (last_index i c.notified) key
  ]
]

abbrev pub count_process : Option Process → Runner → Runner
count_process none r = tick (λ s. record s { proc_missed = plus s.proc_missed 1 }) r
count_process (some p) r = tick (λ s. record s { proc_resolved = plus s.proc_resolved 1 }) r

abbrev pub process_or_none : Option Process → Process
process_or_none none = no_process
process_or_none (some p) = p

abbrev pub is_some : Option Process → Bool
is_some none = false
is_some (some p) = true

-- A flow whose process is unknown, and which goes direct for good.
abbrev pub count_sticky : Bool → Runner → Runner
count_sticky true r =
    tick (λ s. record s { sticky_unknown_direct = plus s.sticky_unknown_direct 1 }) r
count_sticky false r = r

-- The decision of the policy.
unfoldable pub decide_packet :
    Driver → Runner → Option Process → Packet → ℕ → Outcome (Unit {0}) Decision
decide_packet w r found p now =
    if is_some found && is_internal w.os r.policy (process_or_none found)
    then ok no_tunnel
    else decide w.os r.policy (some r.domains) now (process_or_none found) p.dst

-- The first packet of a flow.
unfoldable pub route_first :
    Driver → Capture → Packet → Runner → Outcome (Unit {0}) (Runner × Route)
route_first w c p r = do
  let key = flow_key p
  could ← could_tunnel_without_process r.policy (some r.domains) c.now p.dst
  let (flows, found) = find_process c key (not could) r.flows
  let r1 = count_process found (record r { flows = flows })
  d ← decide_packet w r1 found p c.now
  let r2 = record r1 {
    routes = set_route key d.tunnel (process_or_none found) (is_some found) c.now r1.routes;
  }
  ok (
    count_sticky (not (is_some found) && not d.tunnel) r2,
    record {
      tunnel = d.tunnel;
      proc = process_or_none found;
      known = is_some found;
      first = true;
      by_proxy = false;
    },
  )

-- The `switch` of `captureLoop`: the proxy's decision, that of the flow, or a new one.
unfoldable pub route_packet :
    Driver → Capture → Packet → Runner → Outcome (Unit {0}) (Runner × Route)
route_packet w c p r =
    let key = flow_key p in
    let (proxies, by_proxy) = touch_proxy key c.now r.proxies in
    let (routes, sticky) = touch_route key c.now r.routes in
    let r1 = record r { proxies = proxies; routes = routes } in
    elim by_proxy [
      | some tunnel ↦ ok (
        record r1 { routes = set_route key tunnel no_process true c.now routes },
        record {
          tunnel = tunnel;
          proc = no_process;
          known = false;
          first = false;
          by_proxy = true;
        },
      )
      | none ↦ elim sticky [
        | some e ↦ ok (
          r1,
          record {
            tunnel = e.tunnel;
            proc = e.proc;
            known = e.known;
            first = false;
            by_proxy = false;
          },
        )
        | none ↦ route_first w c p r1
      ]
    ]
