-- ===== src/Runner/NoLeak.antt =====
-- internal/engine/engine_windows.go: what a decision lets out of the engine.
use split_wire.Prelude.{
  Bool, Bytes, Ensures, Ensures-after, Ensures-bind, Ensures-ok, List, [], arith, false,
  if◌then◌else◌, ok, refl, some, true, ◌||◌, ◌∙◌, ◌∷◌, ◌≡◌,
}
use split_wire.Packet.Parse.{Packet}
use split_wire.Runner.{Runner, Driver, Output, direct, inbound, bypass_one, plus, tick}
use split_wire.Runner.Route.{Capture, Route, route_first, route_packet, decide_packet}
use split_wire.Runner.Outbound.{capture_packet, pass_direct, pass_tunnel}
use split_wire.Runner.Discover.{
  Verdict, go_on, finished, reset_tcp, discover, discover_tls, Discoverable, count_discovery,
  suppress_quic, reconnect, discoverable,
}
use split_wire.Reassembly.{Result}
use split_wire.Runner.Fragments.{reinject_direct, send_parts}
use split_wire.Policy.{could_tunnel_without_process}

-- Whether a packet goes out past the tunnel.
abbrev pub goes_direct : Output → Bool
goes_direct (direct b) = true
goes_direct (inbound m v b) = false

abbrev pub any_direct : List Output → Bool
any_direct [] = false
any_direct (o ∷ os) = goes_direct o || any_direct os

-- The queues of the tunnel are as they were.
abbrev pub SameQueues : Runner → Runner → Type 0
SameQueues r r' = (r'.urgent ≡ r.urgent) × (r'.bulk ≡ r.bulk)

-- What a packet for the tunnel lets out, and what one that goes direct leaves alone.
abbrev pub IsSeparate : Bool → Runner → Runner × List Output → Type 0
IsSeparate true r (r', sent) = any_direct sent ≡ false
IsSeparate false r (r', sent) = SameQueues r r'

reset_tcp-inbound :
    (w : Driver) (c : Capture) (p : Packet) (raw : Bytes) (r : Runner)
    → Ensures (λ x. (any_direct x.1 ≡ false) × SameQueues r x.0) (reset_tcp w c p raw r)
unfolding reset_tcp
reset_tcp-inbound w c p raw r = ground arith

pass_tunnel-inbound :
    (w : Driver) (c : Capture) (p : Packet) (raw : Bytes) (d : Route) (r : Runner)
    → Ensures (λ x. any_direct x.1 ≡ false) (pass_tunnel w c p raw d r)
unfolding pass_tunnel
pass_tunnel-inbound w c p raw d r = ground (arith, reset_tcp-inbound w c p raw r)

send_parts-SameQueues :
    (w : Driver) (parts : List Bytes) (r : Runner) → SameQueues r (send_parts w parts r).0
unfolding send_parts
send_parts-SameQueues w [] r = (refl, refl)
send_parts-SameQueues w (part ∷ parts) r =
    ground (arith, send_parts-SameQueues w parts (bypass_one r))

reinject_direct-SameQueues :
    (w : Driver) (raw : Bytes) (frag : Result) (r : Runner)
    → SameQueues r (reinject_direct w raw frag r).0
unfolding reinject_direct
reinject_direct-SameQueues w raw frag r = grind (arith, send_parts-SameQueues)

pass_direct-SameQueues :
    (w : Driver) (raw : Bytes) (frag : Result) (r : Runner)
    → Ensures (λ x. SameQueues r x.0) (pass_direct w raw frag r)
unfolding pass_direct
pass_direct-SameQueues w raw frag r = ground (arith, reinject_direct-SameQueues w raw frag r)

-- What discovery does with a packet.
abbrev IsQuiet : Bool → Runner → Verdict → Type 0
IsQuiet true r (go_on r') = Unit {0}
IsQuiet true r (finished r' sent) = ⊥
IsQuiet false r (go_on r') = SameQueues r r'
IsQuiet false r (finished r' sent) = SameQueues r r'

reconnect-SameQueues :
    (w : Driver) (c : Capture) (p : Packet) (raw : Bytes) (r : Runner)
    → Ensures (IsQuiet false r) (reconnect w c p raw r)
unfolding reconnect
reconnect-SameQueues w c p raw r = ground (
  arith,
  reset_tcp-inbound w c p raw (tick (λ s. record s { sni_learned = plus s.sni_learned 1 }) r),
)

discover_tls-SameQueues :
    (w : Driver) (c : Capture) (p : Packet) (raw : Bytes) (d : Route) (r : Runner)
    → Ensures (IsQuiet false r) (discover_tls w c p raw d r)
unfolding discover_tls
discover_tls-SameQueues w c p raw d r = grind (arith, reconnect-SameQueues)

count_discovery-SameQueues :
    (w : Driver) (c : Capture) (p : Packet) (d : Route) (k : Discoverable) (r : Runner)
    → Ensures (SameQueues r) (count_discovery w c p d k r)
unfolding count_discovery
count_discovery-SameQueues w c p d k r = ground arith

suppress_quic-SameQueues :
    (c : Capture) (p : Packet) (r : Runner) → IsQuiet false r (suppress_quic c p r)
unfolding suppress_quic
suppress_quic-SameQueues c p r = ground arith

SameQueues-trans : (r s t : Runner) → SameQueues r s → SameQueues s t → SameQueues r t
SameQueues-trans r s t (a, b) (a', b') = (a' ∙ a, b' ∙ b)

-- The rest of `discover`, from the counters on.
after_count :
    (w : Driver) (c : Capture) (p : Packet) (raw : Bytes) (d : Route) (k : Discoverable)
    (r r1 : Runner)
    → SameQueues r r1
    → Ensures (IsQuiet d.tunnel r) (
        if d.tunnel
        then ok (go_on r1)
        else if k.by_quic
        then elim (suppress_quic c p r1) [
          | finished r2 sent ↦ ok (finished r2 sent)
          | go_on r2 ↦ if k.by_tls then discover_tls w c p raw d r2 else ok (go_on r2)
        ]
        else if k.by_tls
        then discover_tls w c p raw d r1
        else ok (go_on r1))
after_count w c p raw d k r r1 h = grind (arith, discover_tls-SameQueues, suppress_quic-SameQueues)

discover-IsQuiet :
    (w : Driver) (c : Capture) (p : Packet) (raw : Bytes) (d : Route) (r : Runner)
    → Ensures (IsQuiet d.tunnel r) (discover w c p raw d r)
unfolding discover
discover-IsQuiet w c p raw d r = Ensures-bind (IsQuiet d.tunnel r) (discoverable w p d r) _ (λ k e.
    Ensures-bind (IsQuiet d.tunnel r) (count_discovery w c p d k r) _ (λ r1 e1.
      after_count w c p raw d k r r1 (
        Ensures-ok (SameQueues r) (count_discovery w c p d k r)
          (count_discovery-SameQueues w c p d k r) e1)))

route_first-SameQueues :
    (w : Driver) (c : Capture) (p : Packet) (r : Runner)
    → Ensures (λ x. SameQueues r x.0) (route_first w c p r)
unfolding route_first
route_first-SameQueues w c p r =
    Ensures-bind (λ x. SameQueues r x.0)
      (could_tunnel_without_process r.policy (some r.domains) c.now p.dst) _
      (λ could e.
        Ensures-bind (λ x. SameQueues r x.0) (decide_packet w _ _ p c.now) _ (λ d e1. ground arith))

route_packet-SameQueues :
    (w : Driver) (c : Capture) (p : Packet) (r : Runner)
    → Ensures (λ x. SameQueues r x.0) (route_packet w c p r)
unfolding route_packet
route_packet-SameQueues w c p r = grind (arith, route_first-SameQueues)

-- The rest of `capture_packet`, from the verdict on.
after_verdict :
    (w : Driver) (c : Capture) (p : Packet) (raw : Bytes) (frag : Result) (d : Route)
    (r r1 : Runner) (v : Verdict)
    → SameQueues r r1
    → IsQuiet d.tunnel r1 v
    → Ensures (IsSeparate d.tunnel r) (elim v [
      | finished r2 sent ↦ ok (r2, sent)
      | go_on r2 ↦ if d.tunnel then pass_tunnel w c p raw d r2 else pass_direct w raw frag r2
    ])
after_verdict w c p raw frag d r r1 (go_on r2) h q =
    ground (arith, pass_tunnel-inbound w c p raw d r2, pass_direct-SameQueues w raw frag r2)
after_verdict w c p raw frag d r r1 (finished r2 sent) h q = ground arith

-- A packet that the route sends to the tunnel never leaves the engine as a direct packet, whatever
-- becomes of it; and one that the route sends direct puts nothing into the queues of the tunnel.
pub capture_packet-IsSeparate :
    (w : Driver) (c : Capture) (p : Packet) (raw : Bytes) (frag : Result) (r : Runner) {r1 : Runner}
    {d : Route}
    → route_packet w c p r ≡ ok (r1, d)
    → Ensures (IsSeparate d.tunnel r) (capture_packet w c p raw frag r)
unfolding capture_packet
capture_packet-IsSeparate w c p raw frag r {r1} {d} e =
    let same =
      Ensures-ok (λ x. SameQueues r x.0) (route_packet w c p r) (route_packet-SameQueues w c p r)
        e in
    Ensures-after (IsSeparate d.tunnel r) (route_packet w c p r) _ e (
      Ensures-bind (IsSeparate d.tunnel r) (discover w c p raw d r1) _ (λ v e1.
        after_verdict w c p raw frag d r r1 v same (
          Ensures-ok (IsQuiet d.tunnel r1) (discover w c p raw d r1)
            (discover-IsQuiet w c p raw d r1) e1)))
