-- ===== src/Runner/Outbound.antt =====
-- internal/engine/engine_windows.go: a round of `captureLoop` for one captured packet.
use split_wire.Runner.Discover.{go_on, finished, reset_tcp, discover}
use split_wire.Prelude.{
  Bool, Bytes, List, Outcome, [], err, false, if◌then◌else◌, length, ltb, max, not, ok, out_of_fuel,
  panic, true, ℕ, ◌&&◌, ◌++◌, ◌+◌, ◌-◌, ◌==◌, ◌>>=◌, ◌||◌, ◌∷◌,
}
use split_wire.Packet.Parse.{Packet, Error as PacketError, parse, fragment, proto_tcp, proto_udp}
use split_wire.Packet.Tcp.{clamp_tcp_mss, is_tcp_syn}
use split_wire.Mapper.{prepare_outbound}
use split_wire.Reassembly.{Result}
use split_wire.Routes.{delete_route}
use split_wire.Runner.{Runner, Driver, Output, direct, tick, plus, drop_one, bypass_one, frag_error}
use split_wire.Runner.Fragments.{reassemble, reinject_direct, prepare_tunnel_packets}
use split_wire.Runner.Route.{Capture, Route, flow_key, route_packet}

abbrev pub outgoing : List Bytes → List Output
outgoing [] = []
outgoing (b ∷ bs) = direct b ∷ outgoing bs

-- The packet goes on as it was captured.
unfoldable pub pass_direct :
    Driver → Bytes → Result → Runner → Outcome (Unit {0}) (Runner × List Output)
pass_direct w raw frag r =
    let (r1, sent, res) = reinject_direct w raw frag r in
    elim res [
      | ok done ↦ ok (r1, outgoing sent)
      | err e ↦
          let r2 = drop_one r1 in ok (if frag.fragmented then frag_error r2 else r2, outgoing sent)
      | panic ↦ panic
      | out_of_fuel ↦ out_of_fuel
    ]

-- `max(q, len(queue))` of the counter, and a packet at the end of its queue, if that has room.
unfoldable pub enqueue : Bool → Bytes → Runner → Runner
enqueue is_urgent seg r =
    let q = if is_urgent then r.urgent else r.bulk in
    let room = if is_urgent then 4096 else 8192 in
    if ltb (length q) room
    then (let r1 =
          tick
            (λ s. record s {
              tunneled = plus s.tunneled 1;
              send_queue_high = max s.send_queue_high (length q + 1);
            })
            r in
        if is_urgent
        then record r1 { urgent = r.urgent ++ seg ∷ [] }
        else record r1 { bulk = r.bulk ++ seg ∷ [] })
    else drop_one r

unfoldable pub enqueue_all : Bool → List Bytes → Runner → Runner
enqueue_all is_urgent [] r = r
enqueue_all is_urgent (seg ∷ segs) r = enqueue_all is_urgent segs (enqueue is_urgent seg r)

-- The largest segment that the MTU leaves room for.
abbrev pub mss_room : ℕ → ℕ → ℕ
mss_room mtu version = if version == 6 then mtu - 60 else mtu - 40

-- The error of `ClampTCPMSS` is ignored, and leaves the packet as it was.
unfoldable pub clamp_packet : ℕ → ℕ → Bytes → Outcome (Unit {0}) Bytes
clamp_packet mtu version cp =
    if ltb 500 (mss_room mtu version) && ltb (mss_room mtu version) 65536
    then elim (clamp_tcp_mss cp (mss_room mtu version)) [
      | ok (changed, cp') ↦ ok cp'
      | err e ↦ ok cp
      | panic ↦ panic
      | out_of_fuel ↦ out_of_fuel
    ]
    else ok cp

-- A packet that has its tunnel address: cut to the MTU and put into its queue.
unfoldable pub queue_packet : Driver → Packet → Bytes → Runner → Outcome (Unit {0}) Runner
queue_packet w p cp0 r = do
  cp ← clamp_packet r.mtu p.version cp0
  let (r1, prepared) = prepare_tunnel_packets w cp p r
  elim prepared [
    | panic ↦ panic
    | out_of_fuel ↦ out_of_fuel
    | err e ↦
        ok (drop_one (tick (λ s. record s { oversize_dropped = plus s.oversize_dropped 1 }) r1))
    | ok (segs, split) ↦
        let r2 =
          if split
          then tick (λ s. record s { oversize_segmented = plus s.oversize_segmented 1 }) r1
          else r1 in
        ok (enqueue_all (p.protocol == proto_udp) segs r2)
  ]

-- A packet for the tunnel. The first packet of a flow that TCP has set up already is answered by a
-- reset, so that the flow starts again.
unfoldable pub pass_tunnel :
    Driver → Capture → Packet → Bytes → Route → Runner → Outcome (Unit {0}) (Runner × List Output)
pass_tunnel w c p raw d r = elim (is_tcp_syn raw) [
  | panic ↦ panic
  | out_of_fuel ↦ out_of_fuel
  | err e ↦ panic
  | ok syn ↦
      if d.first && (p.protocol == proto_tcp) && not syn
      then (do
        (r1, sent, done) ← reset_tcp w c p raw r
        let r2 =
            if done
            then tick (λ s. record s { preexisting_tcp_reset = plus s.preexisting_tcp_reset 1 }) r1
            else r1
        ok (record r2 { routes = delete_route (flow_key p) r2.routes }, sent))
      else (let (nat, cp, mapped) = prepare_outbound r.nat raw c.meta c.now in
          let r1 = record r { nat = nat } in
          elim mapped [
            | panic ↦ panic
            | out_of_fuel ↦ out_of_fuel
            | err e ↦ ok (drop_one r1, [])
            | ok m ↦ do r2 ← queue_packet w p cp r1; ok (r2, [])
          ])
]

-- A parsed packet.
unfoldable pub capture_packet :
    Driver → Capture → Packet → Bytes → Result → Runner → Outcome (Unit {0}) (Runner × List Output)
capture_packet w c p raw frag r = do
  (r1, d) ← route_packet w c p r
  verdict ← discover w c p raw d r1
  elim verdict [
    | finished r2 sent ↦ ok (r2, sent)
    | go_on r2 ↦ if d.tunnel then pass_tunnel w c p raw d r2 else pass_direct w raw frag r2
  ]

abbrev pub is_fragment_error : PacketError → Bool
is_fragment_error e = elim e [ fragment ↦ true | _ ↦ false ]

-- A packet that is whole: reassembled, or no fragment.
unfoldable pub capture_whole :
    Driver → Capture → Result → Runner → Outcome (Unit {0}) (Runner × List Output)
capture_whole w c frag r =
    let raw = if frag.fragmented then frag.packet else c.raw in
    elim (parse raw) [
      | panic ↦ panic
      | out_of_fuel ↦ out_of_fuel
      | ok p ↦ capture_packet w c p raw frag r
      | err e ↦
          if is_fragment_error e || frag.fragmented
          then ok (drop_one (frag_error r), [])
          else if w.sends raw
          then ok (bypass_one r, direct raw ∷ [])
          else ok (drop_one r, [])
    ]

-- A round of `captureLoop`: the engine, and the packets that it sends.
unfoldable pub capture : Driver → Capture → Runner → Outcome (Unit {0}) (Runner × List Output)
capture w c r0 =
    let r = tick (λ s. record s { captured = plus s.captured 1 }) r0 in
    let (out, stats, res) = reassemble c.raw c.now r.out r.stats in
    let r1 = record r { out = out; stats = stats } in
    elim res [
      | panic ↦ panic
      | out_of_fuel ↦ out_of_fuel
      | err e ↦ ok (drop_one (frag_error r1), [])
      | ok frag ↦
          if not frag.ready
          then ok (r1, [])
          else capture_whole w c frag (
              if frag.fragmented
              then tick (λ s. record s { frag_reassembled = plus s.frag_reassembled 1 }) r1
              else r1)
    ]
