-- ===== src/Mapper/Invariant.antt =====
-- internal/nat/nat.go: the invariant of the two maps of a mapper.
use split_wire.Prelude.{
  ap, arith, lookup-insert, lookup-insert_ne, lookup-insert_self, none, some, sym, ℕ, ◌<◌, ◌∙◌, ◌≡◌,
  ◌≤◌,
}
use split_wire.Mapper.{
  Mapper, Meta, OutboundKey, OutboundKey-discrete, ReplyKey, add_mapping, find_out, find_reply,
  reply_key, store_object, ReplyKey-discrete,
}

-- Each entry of `byOut` has its mapping under the reply key in `byReply`, and the other way round;
-- no two flows share a mapping; ports are 16-bit numbers, and the next candidate lies in the
-- searched range.
pub record Inv (m : Mapper) : Type 0 where
  pub next_low : 40000 ≤ m.next
  pub next_high : m.next ≤ 60999
  pub out_known :
      (k : OutboundKey) (i : ℕ)
      → find_out k m.by_out ≡ some i
      → (i < m.allocated)
        × ((m.objects i).original_local ≡ k.local)
        × ((m.objects i).original_port ≡ k.local_port)
        × (find_reply (reply_key m k (m.objects i).tunnel_port) m.by_reply ≡ some i)
        × ((m.objects i).tunnel_port < 65536)
        × (k.local_port < 65536)
  pub out_unique :
      (k k' : OutboundKey) (i : ℕ)
      → find_out k m.by_out ≡ some i
      → find_out k' m.by_out ≡ some i
      → k ≡ k'
  pub reply_known :
      (r : ReplyKey) (i : ℕ)
      → find_reply r m.by_reply ≡ some i
      → (k : OutboundKey) × (find_out k m.by_out ≡ some i)
        × (r ≡ reply_key m k (m.objects i).tunnel_port)

-- A change of an object's metadata and time.
abbrev pub touch : Mapper → ℕ → Meta → ℕ → Mapper
touch m i meta now = record m {
  objects = store_object m.objects i (record (m.objects i) { meta = meta; seen = now });
}

pub touch-Inv : (m : Mapper) (i : ℕ) (meta : Meta) (now : ℕ) → Inv m → Inv (touch m i meta now)
touch-Inv m i meta now v = record {
  next_low = v.next_low;
  next_high = v.next_high;
  out_known = λ k j e. ground (arith, v.out_known k j e);
  out_unique = v.out_unique;
  reply_known = λ r j e. let (k, f, g) = v.reply_known r j e in (k, f, ground arith);
}

module _ (m : Mapper) (k : OutboundKey) (meta : Meta) (now port next : ℕ) (v : Inv m)
    (new : find_out k m.by_out ≡ none) (free : find_reply (reply_key m k port) m.by_reply ≡ none)
    (small : k.local_port < 65536) (small_port : port < 65536) where
  add_out_known :
      (k0 : OutboundKey) (i : ℕ)
      → let n = add_mapping m k meta now port next in
        find_out k0 n.by_out ≡ some i
        → (i < n.allocated)
          × ((n.objects i).original_local ≡ k0.local)
          × ((n.objects i).original_port ≡ k0.local_port)
          × (find_reply (reply_key n k0 (n.objects i).tunnel_port) n.by_reply ≡ some i)
          × ((n.objects i).tunnel_port < 65536)
          × (k0.local_port < 65536)
  add_out_known k0 i e = elim (OutboundKey-discrete k k0) [
    | yes same ↦ ground (
      arith,
      lookup-insert OutboundKey-discrete k k0 m.allocated m.by_out,
      lookup-insert_self ReplyKey-discrete (reply_key m k port) m.allocated m.by_reply,
    )
    | no ne ↦
        let old =
          v.out_known k0 i
            (sym (lookup-insert_ne OutboundKey-discrete k k0 m.allocated m.by_out ne) ∙ e) in
        let r0 = reply_key m k0 (m.objects i).tunnel_port in
        let apart : ¬ (reply_key m k port ≡ r0) =
          λ same. cc (old.3, ap (λ r. find_reply r m.by_reply) same, free) in
        ground (
          arith,
          old,
          lookup-insert_ne ReplyKey-discrete (reply_key m k port) r0 m.allocated m.by_reply apart,
        )
  ]

  add_out_unique :
      (k0 k1 : OutboundKey) (i : ℕ)
      → let n = add_mapping m k meta now port next in
        find_out k0 n.by_out ≡ some i → find_out k1 n.by_out ≡ some i → k0 ≡ k1
  add_out_unique k0 k1 i e f = ground (
    arith,
    lookup-insert OutboundKey-discrete k k0 m.allocated m.by_out,
    lookup-insert OutboundKey-discrete k k1 m.allocated m.by_out,
    v.out_known k0 i,
    v.out_known k1 i,
    v.out_unique k0 k1 i,
  )

  add_reply_known :
      (r : ReplyKey) (i : ℕ)
      → let n = add_mapping m k meta now port next in
        find_reply r n.by_reply ≡ some i
        → (k0 : OutboundKey) × (find_out k0 n.by_out ≡ some i)
          × (r ≡ reply_key n k0 (n.objects i).tunnel_port)
  add_reply_known r i e = elim (ReplyKey-discrete (reply_key m k port) r) [
    | yes same ↦
        let here : i ≡ m.allocated =
          ground (
            arith,
            lookup-insert ReplyKey-discrete (reply_key m k port) r m.allocated m.by_reply,
          ) in
        (
          k,
          lookup-insert_self OutboundKey-discrete k m.allocated m.by_out ∙ ap some (sym here),
          ground arith,
        )
    | no ne ↦
        let (k0, f, g) = v.reply_known r i (
          sym (lookup-insert_ne ReplyKey-discrete (reply_key m k port) r m.allocated m.by_reply ne)
          ∙ e) in
        let apart : ¬ (k ≡ k0) = λ same. cc (f, ap (λ x. find_out x m.by_out) same, new) in
        (
          k0,
          lookup-insert_ne OutboundKey-discrete k k0 m.allocated m.by_out apart ∙ f,
          ground (arith, v.out_known k0 i f),
        )
  ]

  pub add_mapping-Inv : 40000 ≤ next → next ≤ 60999 → Inv (add_mapping m k meta now port next)
  add_mapping-Inv low high = record {
    next_low = low;
    next_high = high;
    out_known = add_out_known;
    out_unique = add_out_unique;
    reply_known = add_reply_known;
  }

pub next-Inv :
    (m : Mapper) (next : ℕ) → 40000 ≤ next → next ≤ 60999 → Inv m → Inv (record m { next = next })
next-Inv m next low high v = record {
  next_low = low;
  next_high = high;
  out_known = v.out_known;
  out_unique = v.out_unique;
  reply_known = v.reply_known;
}
