-- ===== src/Runner/Settled.antt =====
-- internal/engine/engine_windows.go: that the packets of a flow take one way.
use split_wire.Prelude.{
  Bool, Ensures, Ensures-bind, Ensures-ok, Option, Option-cases, Outcome, ap, arith, false, inl,
  inr, lookup-insert_self, none, ok, refl, some, subst, sym, ℕ, ◌∙◌, ◌≡◌,
}
use split_wire.Flow.{Key, Key-discrete, Process}
use split_wire.Packet.Parse.{Packet}
use split_wire.Routes.{FlowRoute, FlowTable, find_route, set_route, touch_route, touch_proxy}
use split_wire.Runner.{Runner, Driver}
use split_wire.Runner.Route.{Capture, Route, flow_key, route_packet, route_first, decide_packet}
use split_wire.Policy.{could_tunnel_without_process}
use split_wire.Routes.Sticky.{Run, Run-Decided}

abbrev decided : Option FlowRoute → Option Bool
decided none = none
decided (some e) = some e.tunnel

-- What a decision leaves: that of the proxy, where there is one, and a route in the table otherwise.
abbrev IsSettled : Option Bool → Key → Runner × Route → Type 0
IsSettled (some tunnel) k (r, d) = d.tunnel ≡ tunnel
IsSettled none k (r, d) = decided (find_route k r.routes) ≡ some d.tunnel

touch_route-decided :
    (k : Key) (now : ℕ) (t : FlowTable)
    → (decided (find_route k (touch_route k now t).0) ≡ decided (find_route k t))
      × (decided (touch_route k now t).1 ≡ decided (find_route k t))
unfolding touch_route
touch_route-decided k now t = elim (Option-cases (find_route k t)) [
  | inl e ↦ ground arith
  | inr (x, e) ↦ ground (arith, lookup-insert_self Key-discrete k (record x { seen = now }) t)
]

set_route-decided :
    (k : Key) (tunnel : Bool) (proc : Process) (known : Bool) (now : ℕ) (t : FlowTable)
    → find_route k t ≡ none
    → decided (find_route k (set_route k tunnel proc known now t)) ≡ some tunnel
unfolding set_route
set_route-decided k tunnel proc known now t e = ground (
  arith,
  lookup-insert_self Key-discrete k
      (record { tunnel = tunnel; proc = proc; known = known; seen = now }) t,
)

route_first-IsSettled :
    (w : Driver) (c : Capture) (p : Packet) (r : Runner)
    → find_route (flow_key p) r.routes ≡ none
    → Ensures (IsSettled none (flow_key p)) (route_first w c p r)
unfolding route_first
route_first-IsSettled w c p r e =
    Ensures-bind (IsSettled none (flow_key p))
      (could_tunnel_without_process r.policy (some r.domains) c.now p.dst) _
      (λ could e1.
        Ensures-bind (IsSettled none (flow_key p)) (decide_packet w _ _ p c.now) _
          (λ d e2. grind (arith, set_route-decided)))

route_packet-IsSettled :
    (w : Driver) (c : Capture) (p : Packet) (r : Runner)
    → Ensures
        (IsSettled (touch_proxy (flow_key p) c.now r.proxies).1 (flow_key p))
        (route_packet w c p r)
unfolding route_packet
route_packet-IsSettled w c p r = grind (arith, route_first-IsSettled, touch_route-decided)

-- The packet gets the decision, and is not the first of its flow.
abbrev pub Follows : Bool → Outcome (Unit {0}) (Runner × Route) → Type 0
Follows tunnel (ok (r, d)) = (d.tunnel ≡ tunnel) × (d.first ≡ false)
Follows tunnel _ = ⊥

by_proxy-Follows :
    (w : Driver) (c : Capture) (p : Packet) (r : Runner) (tunnel : Bool)
    → (touch_proxy (flow_key p) c.now r.proxies).1 ≡ some tunnel
    → Follows tunnel (route_packet w c p r)
unfolding route_packet
by_proxy-Follows w c p r tunnel e = ground arith

by_table-Follows :
    (w : Driver) (c : Capture) (p : Packet) (r : Runner) (tunnel : Bool)
    → (touch_proxy (flow_key p) c.now r.proxies).1 ≡ none
    → decided (find_route (flow_key p) r.routes) ≡ some tunnel
    → Follows tunnel (route_packet w c p r)
unfolding route_packet
by_table-Follows w c p r tunnel e f =
    ground (arith, touch_route-decided (flow_key p) c.now r.routes)

-- Once a packet of a flow has its decision, every later packet of the flow gets the same one, and gets
-- it without asking the policy again: whatever the engine does to its table of routes meanwhile, short
-- of deleting this flow or sweeping it when it is too old, while the proxy's answer for it stays.
pub route_packet-Follows :
    (w w' : Driver) (c c' : Capture) (p p' : Packet) (r r' : Runner) {r1 : Runner} {d : Route}
    → route_packet w c p r ≡ ok (r1, d)
    → flow_key p' ≡ flow_key p
    → Run (flow_key p) r1.routes r'.routes
    → (touch_proxy (flow_key p') c'.now r'.proxies).1 ≡ (touch_proxy (flow_key p) c.now r.proxies).1
    → Follows d.tunnel (route_packet w' c' p' r')
route_packet-Follows w w' c c' p p' r r' {r1} {d} e same run kept =
    settled (touch_proxy (flow_key p) c.now r.proxies).1 kept (
      Ensures-ok (IsSettled (touch_proxy (flow_key p) c.now r.proxies).1 (flow_key p))
        (route_packet w c p r) (route_packet-IsSettled w c p r) e)
  where
    settled :
        (answer : Option Bool)
        → (touch_proxy (flow_key p') c'.now r'.proxies).1 ≡ answer
        → IsSettled answer (flow_key p) (r1, d)
        → Follows d.tunnel (route_packet w' c' p' r')
    settled (some tunnel) a h =
        subst (λ t. Follows t (route_packet w' c' p' r')) (sym h)
          (by_proxy-Follows w' c' p' r' tunnel a)
    settled none a h = elim (Option-cases (find_route (flow_key p) r1.routes)) [
      | inl gone ↦ absurd (ground arith)
      | inr (x, found) ↦
          let (x', found', t, q, n) = Run-Decided (flow_key p) x run (x, found, refl, refl, refl) in
          by_table-Follows w' c' p' r' d.tunnel a
            (ap (λ k. decided (find_route k r'.routes)) same ∙ ground arith)
    ]
