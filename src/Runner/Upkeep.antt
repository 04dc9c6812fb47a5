-- ===== src/Runner/Upkeep.antt =====
-- internal/engine/engine_windows.go: the loops that keep the tables of the engine up to date,
-- `flowLoop`, `socketLoop`, `dnsLoop` and `maintenanceLoop`.
use split_wire.Prelude.{
  Bool, Bytes, List, Outcome, [], err, false, if◌then◌else◌, length, ltb, not, ok, out_of_fuel,
  panic, slice, ℕ, ◌+◌, ◌==◌, ◌>>=◌, ◌||◌, ◌∷◌,
}
use split_wire.Ip.{Addr}
use split_wire.Text.{Platform}
use split_wire.Flow.{
  Key, Process, add, delete_flow, add_socket, delete_socket, sweep as sweep_flows,
}
use split_wire.Packet.Parse.{parse, proto_udp}
use split_wire.Dns.{DnsResult, parse_dns_response}
use split_wire.Tracker.{Tracker, add_groups, name_groups, name_matches, sweep as sweep_domains}
use split_wire.Discovery.{delete_flow_state, sweep_discovery}
use split_wire.Routes.{delete_route, sweep_routes, delete_proxy_flow, sweep_proxies}
use split_wire.Mapper.{sweep as sweep_nat}
use split_wire.Reassembly.Ipv4.{sweep as sweep4}
use split_wire.Reassembly.Ipv6.{sweep as sweep6}
use split_wire.Runner.{Runner, Driver, Tables}
use split_wire.Runner.Fragments.{take_timeouts}

pub data FlowEvent : Type 0 where
  established : Key → Process → FlowEvent
  deleted : Key → FlowEvent

-- A round of `flowLoop`.
unfoldable pub flow_event : Platform → FlowEvent → ℕ → Runner → Runner
flow_event os (established k p) now r = record r { flows = add os k p now r.flows }
flow_event os (deleted k) now r = record r {
  flows = delete_flow k r.flows;
  routes = delete_route k r.routes;
  discovery = delete_flow_state k r.discovery;
  proxies = delete_proxy_flow k r.proxies;
}

-- `opened` is any of the events bind, connect, listen and accept.
pub data SocketEvent : Type 0 where
  opened : ℕ → Key → Process → SocketEvent
  closed : ℕ → SocketEvent

-- A round of `socketLoop`.
unfoldable pub socket_event : Platform → SocketEvent → ℕ → Runner → Runner
socket_event os (opened id k p) now r = record r {
  flows = add_socket os id k.proto k.local k.local_port p now r.flows;
}
socket_event os (closed id) now r = record r { flows = delete_socket id r.flows }

-- The groups of any of the names, each once. The source gives them in any order.
abbrev pub add_new : List ℕ → List ℕ → List ℕ
add_new [] seen = seen
add_new (i ∷ more) seen = add_new more (if is_member i seen then seen else i ∷ seen)
  where
    is_member : ℕ → List ℕ → Bool
    is_member j [] = false
    is_member j (k ∷ ks) = (j == k) || is_member j ks

unfoldable pub groups_for_names : Platform → Tracker → List Bytes → List ℕ → List ℕ
groups_for_names os t [] seen = seen
groups_for_names os t (name ∷ names) seen =
    groups_for_names os t names (add_new (name_groups os name t) seen)

-- The loop over the addresses of a response.
unfoldable pub learn_addresses : List Addr → List ℕ → ℕ → ℕ → Tracker → Tracker
learn_addresses [] groups ttl now t = t
learn_addresses (ip ∷ ips) groups ttl now t =
    learn_addresses ips groups ttl now (add_groups ip groups ttl now t)

unfoldable pub learn_response : Platform → DnsResult → ℕ → Tracker → Tracker
learn_response os res now t =
    learn_addresses res.ips (groups_for_names os t res.names []) res.ttl now t

-- A round of `dnsLoop`.
unfoldable pub dns_packet : Driver → Bytes → ℕ → Runner → Outcome (Unit {0}) Runner
dns_packet w raw now r = elim (parse raw) [
  | panic ↦ panic
  | out_of_fuel ↦ out_of_fuel
  | err e ↦ ok r
  | ok p ↦ if not (p.protocol == proto_udp) || ltb (length raw) (p.l4 + 8) then ok r else (do
    msg ← slice raw (p.l4 + 8) p.total
    elim (parse_dns_response msg (λ name. name_matches w.os name r.domains)) [
      | panic ↦ panic
      | out_of_fuel ↦ out_of_fuel
      | err e ↦ ok r
      | ok res ↦ ok (record r { domains = learn_response w.os res now r.domains })
    ])
]

abbrev pub sweep_tables : ℕ → Tables → Tables
sweep_tables now t = record { four = sweep4 now t.four; six = sweep6 now t.six }

-- A tick of `maintenanceLoop`.
unfoldable pub maintain : ℕ → Runner → Runner
maintain now r =
    let (out, stats) = take_timeouts (sweep_tables now r.out) r.stats in
    let (inward, stats') = take_timeouts (sweep_tables now r.inward) stats in
    record r {
      flows = sweep_flows 1800 now r.flows;
      routes = sweep_routes 1800 now r.routes;
      nat = sweep_nat r.nat 900 now;
      domains = sweep_domains now r.domains;
      discovery = sweep_discovery now r.discovery;
      proxies = sweep_proxies 1800 now r.proxies;
      out = out;
      inward = inward;
      stats = stats';
    }
