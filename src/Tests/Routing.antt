-- ===== src/Tests/Routing.antt =====
-- Routes of flows and of dials.
use split_wire.Prelude.{
  List, Outcome, [], ap, arith, false, if◌then◌else◌, lookup, refl, some, suc, true, ℕ, ◌+◌, ◌==◌,
  ◌∷◌, ◌≡◌,
}
use split_wire.Flow.{Key as FlowKey, Process}
use split_wire.Ip.{v4, unmap}
use split_wire.Routes.{
  FlowRoute, FlowTable, ProxyTable, Network, set_route, touch_route, delete_route, find_route,
  dial_proxy, tcp, bind_failed, connected, DialError, ProxyKey, attempts, delete_proxy_key,
  register, set_proxy, unregister,
}
use split_wire.Routes.Sticky.{decision_stays, touched, stored, deleted, next, done}
use split_wire.Routes.Dials.{dial_proxy-LeavesNothing, LeavesNothing}

abbrev pub flow_to : ℕ → FlowKey
flow_to port = record {
  proto = 6;
  local = v4 (10 ∷ 0 ∷ 0 ∷ 5 ∷ []);
  remote = v4 (9 ∷ 9 ∷ 9 ∷ 9 ∷ []);
  local_port = 1234;
  remote_port = port;
}

abbrev no_process : Process
no_process = record { pid = 0; name = []; path = [] }

-- Two flows; the first is asked for, set again to the other route, and the second deleted.
abbrev decided : FlowTable
decided = set_route (flow_to 443) true no_process true 10 []

abbrev later : FlowTable
later =
    delete_route (flow_to 80)
      (set_route (flow_to 443) false no_process false 12 (touch_route (flow_to 443) 11 decided).0)

another_flow : ¬ (flow_to 80 ≡ flow_to 443)
another_flow e = ground (arith, ap (λ k. k.remote_port) e)

decision_stays_example :
    (e : FlowRoute) × (find_route (flow_to 443) later ≡ some e)
    × (e.tunnel ≡ true)
    × (e.proc ≡ no_process)
    × (e.known ≡ true)
decision_stays_example =
    decision_stays (flow_to 443) true no_process true 10 [] later (unfold lookup in refl) (
      next (touched (flow_to 443) 11) (
        next (stored (flow_to 443) false no_process false 12)
          (next (deleted (flow_to 80) another_flow) done)))

-- The first attempt finds its port taken.
abbrev busy_once : Network ℕ
busy_once = record {
  reserve = λ s. (suc s, some (50000 + s));
  attempt = λ port s. record {
    state = s;
    calls = (v4 (9 ∷ 9 ∷ 9 ∷ 9 ∷ []), 443) ∷ [];
    ended = if s == 1 then bind_failed else connected;
    late = [];
  };
}

abbrev dialled : ℕ × ProxyTable × Outcome DialError (List ProxyKey)
dialled = dial_proxy busy_once tcp true 10 0 []

dialled_ends : dialled.0 ≡ 2
unfolding dial_proxy attempts register set_proxy unregister delete_proxy_key unmap
dialled_ends = refl

dial_proxy-LeavesNothing_example : LeavesNothing [] dialled.1 dialled.2
dial_proxy-LeavesNothing_example =
    dial_proxy-LeavesNothing busy_once (λ port s. refl) tcp true 10 0 []
