-- ===== src/Runner/Discover.antt =====
-- internal/engine/engine_windows.go: what `captureLoop` learns from a packet, and the resets by which it
-- makes a flow start again.
use split_wire.Prelude.{
  Bool, Bytes, List, Outcome, [], err, false, if◌then◌else◌, length, none, not, ok, out_of_fuel,
  panic, some, true, ◌&&◌, ◌==◌, ◌>>=◌, ◌||◌, ◌∷◌,
}
use split_wire.Packet.Parse.{Packet, proto_tcp, proto_udp}
use split_wire.Packet.Tcp.{build_tcp_reset_reply}
use split_wire.Discovery.{
  feed_tls, suppress_unknown_quic, tls_client_hello, tls_need_more, tls_not_client_hello,
}
use split_wire.Tracker.{add_for_name}
use split_wire.Policy.{
  decide_host, is_internal, needs_tls_discovery, should_suppress_quic, is_domain_ip_for_process,
  no_tunnel,
}
use split_wire.Routes.{delete_route}
use split_wire.Runner.{Runner, Driver, Output, inbound, tick, plus, drop_one}
use split_wire.Runner.Route.{Capture, Route, flow_key}

-- What the loop does with a packet: it goes on, or it is done with it and has sent some packets.
pub data Verdict : Type 0 where
  go_on : Runner → Verdict
  finished : Runner → List Output → Verdict

-- `resetBrowserTCP`: the packet sent back, and whether it went.
unfoldable pub reset_tcp :
    Driver → Capture → Packet → Bytes → Runner → Outcome (Unit {0}) (Runner × List Output × Bool)
reset_tcp w c p raw r = elim (build_tcp_reset_reply raw) [
  | panic ↦ panic
  | out_of_fuel ↦ out_of_fuel
  | err e ↦ ok (drop_one r, [], false)
  | ok rst ↦ elim (w.checksums rst) [
    | none ↦ ok (drop_one r, [], false)
    | some sum ↦
        if w.sends sum
        then ok (r, inbound c.meta (p.version == 6) sum ∷ [], true)
        else ok (drop_one r, [], false)
  ]
]

-- Which discovery the packet is subject to: of the name in a TLS hello, and by a block of QUIC.
pub record Discoverable : Type 0 where
  pub by_tls : Bool
  pub by_quic : Bool

abbrev pub when_needed : Bool → Outcome (Unit {0}) Bool → Outcome (Unit {0}) Bool
when_needed false m = ok false
when_needed true m = m

unfoldable pub discoverable : Driver → Packet → Route → Runner → Outcome (Unit {0}) Discoverable
discoverable w p d r = do
  let owned = d.known && not (is_internal w.os r.policy d.proc)
  needs ← when_needed (not d.by_proxy && owned) (needs_tls_discovery w.os r.policy d.proc)
  quiet ← when_needed r.aggressive (should_suppress_quic w.os r.policy d.proc)
  ok (record {
    by_tls = needs && (p.protocol == proto_tcp) && (p.dst_port == 443);
    by_quic = quiet && not d.by_proxy && owned && (p.protocol == proto_udp) && (p.dst_port == 443);
  })

-- The counters of discovery.
unfoldable pub count_discovery :
    Driver → Capture → Packet → Route → Discoverable → Runner → Outcome (Unit {0}) Runner
count_discovery w c p d k r = do
  let r1 =
      if k.by_tls || k.by_quic
      then tick (λ s. record s { discovery_packets = plus s.discovery_packets 1 }) r
      else r
  hit ←
      when_needed k.by_tls
        (is_domain_ip_for_process w.os r.policy (some r.domains) c.now d.proc p.dst)
  ok (if hit then tick (λ s. record s { domain_matches = plus s.domain_matches 1 }) r1 else r1)

-- A matching name was learnt for the address of a flow that goes direct: the flow is reset.
unfoldable pub reconnect : Driver → Capture → Packet → Bytes → Runner → Outcome (Unit {0}) Verdict
reconnect w c p raw r0 = do
  let r = tick (λ s. record s { sni_learned = plus s.sni_learned 1 }) r0
  (r1, sent, done) ← reset_tcp w c p raw r
  let r2 = if done then tick (λ s. record s { reconnects = plus s.reconnects 1 }) r1 else r1
  ok (finished (record r2 { routes = delete_route (flow_key p) r2.routes }) sent)

-- The name of a TLS hello in a flow that goes direct.
unfoldable pub discover_tls :
    Driver → Capture → Packet → Bytes → Route → Runner → Outcome (Unit {0}) Verdict
discover_tls w c p raw d r = do
  let (discovery, answer) = feed_tls w.lower (flow_key p) raw c.now r.discovery
  let r1 = record r { discovery = discovery }
  (name, res) ← answer
  elim res [
    | tls_need_more ↦ ok (go_on r1)
    | tls_not_client_hello ↦ ok (go_on r1)
    | tls_client_hello ↦
        if length name == 0
        then ok (go_on r1)
        else (let (domains, groups) = add_for_name w.os name p.dst 1800 c.now r1.domains in
            let r2 = record r1 { domains = domains } in
            do
              by_host ←
                  (if length groups == 0
                    then ok no_tunnel
                    else decide_host w.os r2.policy d.proc name)
              if by_host.tunnel then reconnect w c p raw r2 else ok (go_on r2))
  ]

unfoldable pub suppress_quic : Capture → Packet → Runner → Verdict
suppress_quic c p r =
    let (discovery, suppressed) = suppress_unknown_quic p.dst c.now r.discovery in
    let r1 = record r { discovery = discovery } in
    if suppressed
    then finished
        (drop_one (tick (λ s. record s { quic_suppressed = plus s.quic_suppressed 1 }) r1)) []
    else go_on r1

-- What discovery does with a packet that goes direct; a packet for the tunnel it leaves alone.
unfoldable pub discover :
    Driver → Capture → Packet → Bytes → Route → Runner → Outcome (Unit {0}) Verdict
discover w c p raw d r = do
  k ← discoverable w p d r
  r1 ← count_discovery w c p d k r
  if d.tunnel
      then ok (go_on r1)
      else if k.by_quic
      then elim (suppress_quic c p r1) [
        | finished r2 sent ↦ ok (finished r2 sent)
        | go_on r2 ↦ if k.by_tls then discover_tls w c p raw d r2 else ok (go_on r2)
      ]
      else if k.by_tls
      then discover_tls w c p raw d r1
      else ok (go_on r1)
