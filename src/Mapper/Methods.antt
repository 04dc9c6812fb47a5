-- ===== src/Mapper/Methods.antt =====
-- internal/nat/nat.go: the methods of the mapper and the invariant of its maps.
use split_wire.Prelude.{
  Bool, Bool-cases, Bytes, IsBytes, List, Option, Outcome, [], ap, ap₂, arith, delete, err, false,
  if◌then◌else◌, inl, inr, lookup, lookup-delete, lookup-delete_ne, lookup-delete_self, ltb, map,
  none, not, ok, out_of_fuel, panic, refl, some, subst, sym, true, ℕ, ◌+◌, ◌||◌, ◌∙◌, ◌∷◌, ◌≡◌,
}
use split_wire.Mapper.{
  Mapper, prepare_outbound, restore_inbound, Meta, OutboundKey, OutboundKey-discrete,
  ReplyKey-discrete, find_out, new_mapper, reply_key, assign, find_reply, incoming_key,
  outbound_key, sweep, sweep_keys, tunnel_for,
}
use split_wire.Mapper.Invariant.{Inv, touch, touch-Inv}
use split_wire.Ip.{Addr, is_valid}
use split_wire.Mapper.Assign.{assign-Inv}
use split_wire.Packet.Parse.{Error, Packet, is_tcp_udp, parse}
use split_wire.Packet.Parse.Families.{parse_small_ports}

pub new_mapper-Inv : (a4 a6 : Addr) → Inv (new_mapper a4 a6)
unfolding new_mapper lookup
new_mapper-Inv a4 a6 = record {
  next_low = omega arith;
  next_high = omega arith;
  out_known = λ k i e. cc;
  out_unique = λ k k' i e f. cc;
  reply_known = λ r i e. cc;
}

Inv-if : (c : Bool) (m n : Mapper) → Inv m → Inv n → Inv (if c then m else n)
Inv-if true m n v w = v
Inv-if false m n v w = w

-- The mapper that `PrepareOutbound` leaves.
prepare_outbound_state :
    (m : Mapper) (raw : Bytes) (meta : Meta) (now : ℕ) (p : Packet)
    → parse raw ≡ ok p
    → (prepare_outbound m raw meta now).0 ≡ (
        if not (is_tcp_udp p.protocol) || not (is_valid (tunnel_for m p.src))
        then m
        else (assign m (outbound_key p) meta now).0)
unfolding prepare_outbound
prepare_outbound_state m raw meta now p e = ground arith

-- `PrepareOutbound` on any packet, with any outcome, keeps the maps of the mapper in agreement.
pub prepare_outbound-Inv :
    (m : Mapper) (raw : Bytes) (meta : Meta) (now : ℕ)
    → IsBytes raw
    → Inv m
    → Inv (prepare_outbound m raw meta now).0
unfolding prepare_outbound
prepare_outbound-Inv m raw meta now h v = go (parse raw) refl
  where
    go : (o : Outcome Error Packet) → parse raw ≡ o → Inv (prepare_outbound m raw meta now).0
    go (ok p) e =
        subst Inv (sym (prepare_outbound_state m raw meta now p e)) (
          Inv-if _ _ _ v (assign-Inv m (outbound_key p) meta now (parse_small_ports raw p h e).0 v))
    go (err x) e = rw (e, prepare_outbound) v
    go panic e = rw (e, prepare_outbound) v
    go out_of_fuel e = rw (e, prepare_outbound) v

restore_inbound_state :
    (m : Mapper) (raw : Bytes) (now : ℕ) (p : Packet) (i : ℕ)
    → parse raw ≡ ok p
    → is_tcp_udp p.protocol ≡ true
    → find_reply (incoming_key p) m.by_reply ≡ some i
    → (restore_inbound m raw now).0 ≡ touch m i (m.objects i).meta now
unfolding restore_inbound
restore_inbound_state m raw now p i e t f = ground arith

restore_inbound_other :
    (m : Mapper) (raw : Bytes) (now : ℕ) (p : Packet)
    → parse raw ≡ ok p
    → is_tcp_udp p.protocol ≡ false
    → (restore_inbound m raw now).0 ≡ m
unfolding restore_inbound
restore_inbound_other m raw now p e t = ground arith

-- `RestoreInbound` on any packet, with any outcome, keeps the maps of the mapper in agreement.
pub restore_inbound-Inv :
    (m : Mapper) (raw : Bytes) (now : ℕ) → Inv m → Inv (restore_inbound m raw now).0
unfolding restore_inbound
restore_inbound-Inv m raw now v = go (parse raw) refl
  where
    found :
        (p : Packet)
        → parse raw ≡ ok p
        → is_tcp_udp p.protocol ≡ true
        → (o : Option ℕ) → find_reply (incoming_key p) m.by_reply ≡ o
        → Inv (restore_inbound m raw now).0
    found p e t none f = rw (e, t, f, restore_inbound) v
    found p e t (some i) f =
        subst Inv (sym (restore_inbound_state m raw now p i e t f))
          (touch-Inv m i (m.objects i).meta now v)

    go : (o : Outcome Error Packet) → parse raw ≡ o → Inv (restore_inbound m raw now).0
    go (ok p) e = elim (Bool-cases (is_tcp_udp p.protocol)) [
      | inl t ↦ found p e t (find_reply (incoming_key p) m.by_reply) refl
      | inr t ↦ subst Inv (sym (restore_inbound_other m raw now p e t)) v
    ]
    go (err x) e = rw (e, restore_inbound) v
    go panic e = rw (e, restore_inbound) v
    go out_of_fuel e = rw (e, restore_inbound) v

-- One entry removed from both maps.
abbrev forget : Mapper → OutboundKey → ℕ → Mapper
forget m k i = record m {
  by_out = delete OutboundKey-discrete k m.by_out;
  by_reply = delete ReplyKey-discrete (reply_key m k (m.objects i).tunnel_port) m.by_reply;
}

forget-Inv :
    (m : Mapper) (k : OutboundKey) (i : ℕ)
    → Inv m
    → find_out k m.by_out ≡ some i
    → Inv (forget m k i)
forget-Inv m k i v e = record {
  next_low = v.next_low;
  next_high = v.next_high;
  out_known = λ k0 j f.
      let (ne, g) = kept k0 j f in
      let old = v.out_known k0 j g in
      let gone = reply_key m k (m.objects i).tunnel_port in
      let r0 = reply_key m k0 (m.objects j).tunnel_port in
      let apart : ¬ (gone ≡ r0) = λ same.
        let i_j : i ≡ j =
          ground (arith, old.3, (v.out_known k i e).3, ap (λ r. find_reply r m.by_reply) same) in
        ne (v.out_unique k k0 j (e ∙ ap some i_j) g) in
      (
        old.0,
        old.1,
        old.2,
        lookup-delete_ne ReplyKey-discrete gone r0 m.by_reply apart ∙ old.3,
        old.4,
        old.5,
      );
  out_unique = λ k0 k1 j f g. v.out_unique k0 k1 j (kept k0 j f).1 (kept k1 j g).1;
  reply_known = λ r j f.
      let gone = reply_key m k (m.objects i).tunnel_port in
      let g : find_reply r m.by_reply ≡ some j =
        ground (arith, lookup-delete ReplyKey-discrete gone r m.by_reply) in
      let (k0, q, w) = v.reply_known r j g in
      let apart : ¬ (k ≡ k0) = λ same.
        let i_j : i ≡ j = ground (arith, ap (λ x. find_out x m.by_out) same) in
        let gone_r : gone ≡ r =
          ap₂ (λ x (n : ℕ). reply_key m x (m.objects n).tunnel_port) same i_j ∙ sym w in
        cc (lookup-delete_self ReplyKey-discrete gone m.by_reply, gone_r, f) in
      (k0, lookup-delete_ne OutboundKey-discrete k k0 m.by_out apart ∙ q, w);
}
  where
    kept :
        (k0 : OutboundKey) (j : ℕ)
        → find_out k0 (delete OutboundKey-discrete k m.by_out) ≡ some j
        → (¬ (k ≡ k0)) × (find_out k0 m.by_out ≡ some j)
    kept k0 j f = (
      λ same. cc (
        lookup-delete_self OutboundKey-discrete k m.by_out,
        ap (λ x. find_out x (delete OutboundKey-discrete k m.by_out)) same,
        f,
      ),
      ground (arith, lookup-delete OutboundKey-discrete k k0 m.by_out),
    )

sweep_keys-Inv :
    (keys : List OutboundKey) (m : Mapper) (age now : ℕ) → Inv m → Inv (sweep_keys keys m age now)
unfolding sweep_keys
sweep_keys-Inv [] m age now v = v
sweep_keys-Inv (k ∷ keys) m age now v =
    sweep_keys-Inv keys _ age now (go (find_out k m.by_out) refl)
  where
    go :
        (o : Option ℕ)
        → find_out k m.by_out ≡ o
        → Inv (elim o [
          | none ↦ m
          | some i ↦ if ltb ((m.objects i).seen + age) now then forget m k i else m
        ])
    go none e = v
    go (some i) e = Inv-if _ _ _ (forget-Inv m k i v e) v

-- `Sweep`, for any age and time, keeps the maps of the mapper in agreement.
pub sweep-Inv : (m : Mapper) (age now : ℕ) → Inv m → Inv (sweep m age now)
unfolding sweep
sweep-Inv m age now v = sweep_keys-Inv (map (λ e. e.0) m.by_out) m age now v
