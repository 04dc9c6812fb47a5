-- ===== src/Runner/Inbound.antt =====
-- internal/engine/engine_windows.go: a packet from the tunnel in `wgReceiveLoop`.
use split_wire.Prelude.{
  Bool, Bytes, List, Outcome, [], err, if◌then◌else◌, length, ltb, none, not, ok, out_of_fuel,
  panic, some, ℕ, ◌&&◌, ◌==◌, ◌>>=◌, ◌||◌, ◌∷◌,
}
use split_wire.Packet.Parse.{parse, proto_tcp, proto_udp}
use split_wire.Packet.Fragment6.{fragment_for_mtu}
use split_wire.Mapper.{Meta, restore_inbound}
use split_wire.Reassembly.{Result}
use split_wire.Runner.{
  Runner, Driver, Output, inbound, tick, plus, drop_one, frag_error, inbound_error,
}
use split_wire.Runner.Fragments.{reassemble, refragmented}
use split_wire.Runner.Outbound.{clamp_packet, is_fragment_error}

-- The loop that injects the parts of a packet, up to the first that the driver does not take.
unfoldable pub inject_parts : Driver → Meta → Bool → List Bytes → Runner → Runner × List Output
inject_parts w m six [] r = (r, [])
inject_parts w m six (part ∷ parts) r =
    let (r', sent) =
      inject_parts w m six parts
        (tick (λ s. record s { inbound_injected = plus s.inbound_injected 1 }) r) in
    if w.sends part then (r', inbound m six part ∷ sent) else (inbound_error r, [])

-- A packet with its checksums, in the shape in which it came.
unfoldable pub inject_whole :
    Driver → Meta → Bool → Bytes → Result → Runner → Outcome (Unit {0}) (Runner × List Output)
inject_whole w m six cp frag r =
    if frag.fragmented && ltb 0 frag.fragment_mtu && ltb frag.fragment_mtu (length cp)
    then elim (fragment_for_mtu cp frag.fragment_mtu r.frag_id) [
      | panic ↦ panic
      | out_of_fuel ↦ out_of_fuel
      | err e ↦ ok (inbound_error (frag_error r), [])
      | ok (parts, split, id) ↦
          ok (inject_parts w m six parts (refragmented split (record r { frag_id = id })))
    ]
    else ok (inject_parts w m six (cp ∷ []) r)

-- A packet that has its own address again.
unfoldable pub inject_restored :
    Driver → Meta → Bytes → Result → Runner → Outcome (Unit {0}) (Runner × List Output)
inject_restored w m cp0 frag r = elim (parse cp0) [
  | panic ↦ panic
  | out_of_fuel ↦ out_of_fuel
  | err e ↦
      let r1 = inbound_error r in
      ok (if is_fragment_error e || frag.fragmented then frag_error r1 else r1, [])
  | ok p ↦ do
    cp ← clamp_packet r.mtu p.version cp0
    elim (w.checksums cp) [
      | none ↦ ok (inbound_error r, [])
      | some sum ↦ inject_whole w m (p.version == 6) sum frag r
    ]
]

-- The counter of packets that are neither of TCP nor of UDP.
unfoldable pub count_other : Bytes → Runner → Outcome (Unit {0}) Runner
count_other raw r = elim (parse raw) [
  | panic ↦ panic
  | out_of_fuel ↦ out_of_fuel
  | err e ↦ ok r
  | ok p ↦ ok (
      if (p.protocol == proto_tcp) || (p.protocol == proto_udp)
      then r
      else tick (λ s. record s { inbound_other = plus s.inbound_other 1 }) r)
]

-- A packet that is whole.
unfoldable pub receive_whole :
    Driver → ℕ → Result → Runner → Outcome (Unit {0}) (Runner × List Output)
receive_whole w now frag r0 = do
  r ← count_other frag.packet r0
  let (nat, cp, restored) = restore_inbound r.nat frag.packet now
  let r1 = record r { nat = nat }
  elim restored [
    | panic ↦ panic
    | out_of_fuel ↦ out_of_fuel
    | err e ↦ ok (inbound_error r1, [])
    | ok (m, known) ↦
        if known
        then inject_restored w m cp frag r1
        else ok (
          drop_one (tick (λ s. record s { reverse_nat_miss = plus s.reverse_nat_miss 1 }) r1),
          [],
        )
  ]

-- A round of `wgReceiveLoop`: the engine, and the packets that it injects.
unfoldable pub receive : Driver → Bytes → ℕ → Runner → Outcome (Unit {0}) (Runner × List Output)
receive w [] now r = ok (r, [])
receive w (b ∷ raw) now r =
    let (inward, stats, res) = reassemble (b ∷ raw) now r.inward r.stats in
    let r1 = record r { inward = inward; stats = stats } in
    elim res [
      | panic ↦ panic
      | out_of_fuel ↦ out_of_fuel
      | err e ↦ ok (inbound_error (frag_error r1), [])
      | ok frag ↦
          if not frag.ready
          then ok (r1, [])
          else receive_whole w now frag (
              if frag.fragmented
              then tick (λ s. record s { frag_reassembled = plus s.frag_reassembled 1 }) r1
              else r1)
    ]
