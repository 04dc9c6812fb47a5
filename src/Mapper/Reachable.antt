-- ===== src/Mapper/Reachable.antt =====
-- internal/nat/nat.go: the mappers that calls of the methods, in any order, lead to.
use split_wire.Prelude.{Bytes, IsBytes, ap, arith, some, sym, ℕ, ◌∙◌, ◌≡◌}
use split_wire.Mapper.{
  Mapper, sweep, Meta, OutboundKey, find_out, find_reply, new_mapper, prepare_outbound, reply_key,
  restore_inbound,
}
use split_wire.Mapper.Methods.{sweep-Inv, new_mapper-Inv, prepare_outbound-Inv, restore_inbound-Inv}
use split_wire.Mapper.Invariant.{Inv}
use split_wire.Ip.{Addr}

pub data Reachable (a4 a6 : Addr) : Mapper → Type 0 where
  start : Reachable a4 a6 (new_mapper a4 a6)
  prepared :
      (m : Mapper) (raw : Bytes) (meta : Meta) (now : ℕ)
      → IsBytes raw
      → Reachable a4 a6 m
      → Reachable a4 a6 (prepare_outbound m raw meta now).0
  restored :
      (m : Mapper) (raw : Bytes) (now : ℕ)
      → Reachable a4 a6 m
      → Reachable a4 a6 (restore_inbound m raw now).0
  swept : (m : Mapper) (age now : ℕ) → Reachable a4 a6 m → Reachable a4 a6 (sweep m age now)

Reachable-Inv : (a4 a6 : Addr) (m : Mapper) → Reachable a4 a6 m → Inv m
Reachable-Inv a4 a6 _ start = new_mapper-Inv a4 a6
Reachable-Inv a4 a6 _ (prepared m raw meta now bytes r) =
    prepare_outbound-Inv m raw meta now bytes (Reachable-Inv a4 a6 m r)
Reachable-Inv a4 a6 _ (restored m raw now r) =
    restore_inbound-Inv m raw now (Reachable-Inv a4 a6 m r)
Reachable-Inv a4 a6 _ (swept m age now r) = sweep-Inv m age now (Reachable-Inv a4 a6 m r)

-- Whatever calls came before, two flows that the mapper holds under the same reply key, that is, with
-- the same protocol, remote end, tunnel address and tunnel port, are one flow: no reply can be
-- taken for another flow's.
pub reply_key_unique :
    (a4 a6 : Addr) (m : Mapper) (k k' : OutboundKey) (i j : ℕ)
    → Reachable a4 a6 m
    → find_out k m.by_out ≡ some i
    → find_out k' m.by_out ≡ some j
    → reply_key m k (m.objects i).tunnel_port ≡ reply_key m k' (m.objects j).tunnel_port
    → k ≡ k'
reply_key_unique a4 a6 m k k' i j r e f same =
    let v = Reachable-Inv a4 a6 m r in
    let mine = (v.out_known k i e).3 in
    let other = (v.out_known k' j f).3 in
    let one : some i ≡ some j = sym mine ∙ ap (λ key. find_reply key m.by_reply) same ∙ other in
    v.out_unique k k' i e (ground arith)
