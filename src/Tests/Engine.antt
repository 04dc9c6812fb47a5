-- ===== src/Tests/Engine.antt =====
-- internal/engine/engine_windows.go: a packet of a flow that has its route, and packets that wait.
use split_wire.Routes.Sticky.{done}
use split_wire.Runner.Settled.{Follows, route_packet-Follows}
use split_wire.Prelude.{
  Bytes, Ensures, List, [], arith, false, insert, length, lookup, lookup-insert_self, none, ok,
  refl, some, true, ◌++◌, ◌∷◌, ◌≡◌, ◌≤◌,
}
use split_wire.Ip.{invalid}
use split_wire.Flow.{new_index, Key-discrete}
use split_wire.Tracker.{new_tracker}
use split_wire.Discovery.{new_discovery}
use split_wire.Policy.{new_engine}
use split_wire.Routes.{FlowRoute, find_route, touch_route, touch_proxy}
use split_wire.Mapper.{new_mapper}
use split_wire.Reassembly.{passed}
use split_wire.Reassembly.Ipv4.{new_table as new_table4}
use split_wire.Reassembly.Ipv6.{new_table as new_table6}
use split_wire.Runner.{Runner, Driver, no_stats}
use split_wire.Runner.Route.{Capture, Route, flow_key, no_process, route_packet}
use split_wire.Runner.Outbound.{capture_packet}
use split_wire.Runner.NoLeak.{IsSeparate, capture_packet-IsSeparate}
use split_wire.Runner.Sending.{send_rounds}
use split_wire.Runner.Fairness.{send_rounds-bulk}
use split_wire.Text.{Platform}
use split_wire.Tests.Packets.{client_packet, client_view, tunnel_addr}

abbrev plain : Platform
plain = record { lower = λ t. t; base = λ t. t }

abbrev driver : Driver
driver = record { sends = λ b. true; checksums = λ b. some b; os = plain; lower = λ t. t }

abbrev captured : Capture
captured = record {
  raw = client_packet;
  meta = record { if_idx = 7; sub_if_idx = 1 };
  now = 50;
  notified = [];
  resolve = λ i k. (i, none);
}

abbrev to_tunnel : FlowRoute
to_tunnel = record { tunnel = true; proc = no_process; known = true; seen = 20 }

abbrev engine : Runner
engine = record {
  mtu = 1400;
  aggressive = false;
  flows = new_index;
  domains = new_tracker [];
  discovery = new_discovery;
  policy = new_engine plain [] [];
  proxies = [];
  routes = (flow_key client_view, to_tunnel) ∷ [];
  nat = new_mapper tunnel_addr invalid;
  out = record { four = new_table4; six = new_table6 };
  inward = record { four = new_table4; six = new_table6 };
  frag_id = 0;
  urgent = [];
  bulk = (1 ∷ []) ∷ (2 ∷ []) ∷ [];
  stats = no_stats;
}

abbrev routed : Runner
routed = record engine {
  routes =
      insert Key-discrete (flow_key client_view) (record to_tunnel { seen = 50 }) engine.routes;
}

abbrev sticky : Route
sticky = record { tunnel = true; proc = no_process; known = true; first = false; by_proxy = false }

found : find_route (flow_key client_view) engine.routes ≡ some to_tunnel
unfolding insert
found = lookup-insert_self Key-discrete (flow_key client_view) to_tunnel []

routed_run : route_packet driver captured client_view engine ≡ ok (routed, sticky)
unfolding route_packet touch_route touch_proxy lookup
routed_run = ground (arith, found)

capture_packet-IsSeparate_example :
    Ensures
      (IsSeparate true engine)
      (capture_packet driver captured client_view client_packet (passed client_packet) engine)
capture_packet-IsSeparate_example =
    capture_packet-IsSeparate driver captured client_view client_packet (passed client_packet)
      engine routed_run

-- The proxy knows of none of the engine's flows.
no_proxy :
    (touch_proxy (flow_key client_view) 60 routed.proxies).1
    ≡ (touch_proxy (flow_key client_view) 50 engine.proxies).1
unfolding touch_proxy lookup
no_proxy = refl

route_packet-Follows_example :
    Follows true (route_packet driver (record captured { now = 60 }) client_view routed)
route_packet-Follows_example =
    route_packet-Follows driver driver captured (record captured { now = 60 }) client_view
      client_view engine routed routed_run refl done no_proxy

send_rounds-bulk_example :
    (xs : List Bytes) × (ys : List Bytes) × ((send_rounds
        (λ b. true)
        (true ∷ true ∷ [])
        []
        engine).packets
      ≡ xs ++ (2 ∷ []) ∷ ys)
    × (length xs ≤ 17)
send_rounds-bulk_example =
    send_rounds-bulk (λ b. true) (true ∷ true ∷ []) [] engine ((1 ∷ []) ∷ []) (2 ∷ []) [] refl
      (omega arith)
