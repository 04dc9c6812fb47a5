-- ===== src/Mapper/Assign.antt =====
-- internal/nat/nat.go: the part of `PrepareOutbound` under the lock: its three branches, the
-- invariant, and what it leaves in the maps.
use split_wire.Prelude.{
  Option, Option-cases, ap, arith, inl, inr, lookup-insert_self, none, refl, some, subst, sym, ℕ,
  ◌<◌, ◌∙◌, ◌≡◌, ◌≤◌, ◌⊎◌,
}
use split_wire.Mapper.{
  Mapper, assign, pick_port, Meta, OutboundKey, add_mapping, find_out, find_reply, reply_key,
  ReplyKey-discrete,
}
use split_wire.Mapper.Invariant.{Inv, touch, add_mapping-Inv, next-Inv, touch-Inv}
use split_wire.Mapper.Search.{IsFree, IsPick, pick_port-IsPick, pick_port_taken}

-- How `assign` ends: with the mapping that the flow has, with a new one under a free port, or, with
-- no free port, with no mapping.
pub data Assigned (m : Mapper) (k : OutboundKey) (meta : Meta) (now : ℕ)
    : Mapper × Option ℕ → Type 0 where
  known :
      (i : ℕ)
      → find_out k m.by_out ≡ some i
      → Assigned m k meta now (touch m i meta now, some (m.objects i).tunnel_port)
  added :
      (port next : ℕ)
      → find_out k m.by_out ≡ none
      → IsFree m k port
      → port < 65536
      → 40000 ≤ next
      → next ≤ 60999
      → Assigned m k meta now (add_mapping m k meta now port next, some port)
  full :
      (next : ℕ)
      → find_out k m.by_out ≡ none
      → (pick_port m k).0 ≡ none
      → 40000 ≤ next
      → next ≤ 60999
      → Assigned m k meta now (record m { next = next }, none)

-- The flow's mapping in `n`, under the port that it was given.
abbrev pub IsMapped : Mapper → OutboundKey → Meta → Mapper → ℕ → Type 0
IsMapped m k meta n port =
    (i : ℕ) × (find_reply (reply_key m k port) n.by_reply ≡ some i)
    × ((n.objects i).original_local ≡ k.local)
    × ((n.objects i).original_port ≡ k.local_port)
    × ((n.objects i).meta ≡ meta)
    × (port < 65536)

-- The two outcomes of `assign`: a port, or none, with the candidate `t` taken.
abbrev pub IsAssigned : Mapper → OutboundKey → Meta → ℕ → Mapper × Option ℕ → Type 0
IsAssigned m k meta t (n, none) = (find_out k m.by_out ≡ none) × (¬ IsFree m k t)
IsAssigned m k meta t (n, some port) = IsMapped m k meta n port

module _ (m : Mapper) (k : OutboundKey) (meta : Meta) (now : ℕ) (small : k.local_port < 65536) where
  assign_known :
      (i : ℕ)
      → find_out k m.by_out ≡ some i
      → assign m k meta now ≡ (touch m i meta now, some (m.objects i).tunnel_port)
  unfolding assign
  assign_known i e = rw (e, assign)

  assign_added :
      (port next : ℕ)
      → find_out k m.by_out ≡ none
      → pick_port m k ≡ (some port, next)
      → assign m k meta now ≡ (add_mapping m k meta now port next, some port)
  unfolding assign
  assign_added port next e f = ground arith

  assign_full :
      (next : ℕ)
      → find_out k m.by_out ≡ none
      → pick_port m k ≡ (none, next)
      → assign m k meta now ≡ (record m { next = next }, none)
  unfolding assign
  assign_full next e f = ground arith

  pub assign-Assigned : Inv m → Assigned m k meta now (assign m k meta now)
  assign-Assigned v = elim (Option-cases (find_out k m.by_out)) [
    | inr (i, e) ↦ subst (Assigned m k meta now) (sym (assign_known i e)) (known i e)
    | inl e ↦ pick (pick_port m k) refl (pick_port-IsPick m k v.next_low v.next_high) e
  ]
    where
      pick :
          (r : Option ℕ × ℕ)
          → pick_port m k ≡ r
          → IsPick m k r
          → find_out k m.by_out ≡ none
          → Assigned m k meta now (assign m k meta now)
      pick (none, next) f (low, high) e =
          subst (Assigned m k meta now) (sym (assign_full next e f))
            (full next e (ap (λ (r : Option ℕ × ℕ). r.0) f) low high)
      pick (some port, next) f (low, high, free, fits) e =
          subst (Assigned m k meta now) (sym (assign_added port next e f))
            (added port next e free (omega (arith, fits)) low high)

  Assigned-Inv : {r : Mapper × Option ℕ} → Inv m → Assigned m k meta now r → Inv r.0
  Assigned-Inv v (known i e) = touch-Inv m i meta now v
  Assigned-Inv v (added port next e free fits low high) =
      add_mapping-Inv m k meta now port next v e free small fits low high
  Assigned-Inv v (full next e f low high) = next-Inv m next low high v

  pub assign-Inv : Inv m → Inv (assign m k meta now).0
  assign-Inv v = Assigned-Inv v (assign-Assigned v)

  Assigned-IsMapped :
      {r : Mapper × Option ℕ} (port : ℕ)
      → Inv m
      → Assigned m k meta now r
      → r.1 ≡ some port
      → IsMapped m k meta r.0 port
  Assigned-IsMapped port v (known i e) q =
      let old = v.out_known k i e in
      let same : (m.objects i).tunnel_port ≡ port = ground arith in
      (
        i,
        ap (λ (t : ℕ). find_reply (reply_key m k t) m.by_reply) (sym same) ∙ old.3,
        ground arith,
        ground arith,
        ground arith,
        omega arith,
      )
  Assigned-IsMapped port v (added port' next e free fits low high) q =
      let same : port' ≡ port = ground arith in
      (
        m.allocated,
        ap (λ (t : ℕ). find_reply (reply_key m k t) (add_mapping m k meta now port' next).by_reply)
              (sym same)
            ∙ lookup-insert_self ReplyKey-discrete (reply_key m k port') m.allocated m.by_reply,
        ground arith,
        ground arith,
        ground arith,
        omega arith,
      )
  Assigned-IsMapped port v (full next e f low high) q = cc

  -- What `assign` leaves in the maps, where it gives a port.
  pub assign-IsMapped :
      (port : ℕ)
      → Inv m
      → (assign m k meta now).1 ≡ some port
      → IsMapped m k meta (assign m k meta now).0 port
  assign-IsMapped port v e = Assigned-IsMapped port v (assign-Assigned v) e

  Assigned-kept :
      {r : Mapper × Option ℕ}
      → Assigned m k meta now r
      → ((r.0).own4 ≡ m.own4) × ((r.0).own6 ≡ m.own6)
  Assigned-kept (known i e) = (refl, refl)
  Assigned-kept (added port next e free fits low high) = (refl, refl)
  Assigned-kept (full next e f low high) = (refl, refl)

  pub assign_own :
      Inv m → ((assign m k meta now).0.own4 ≡ m.own4) × ((assign m k meta now).0.own6 ≡ m.own6)
  assign_own v = Assigned-kept (assign-Assigned v)

  -- No port is given exactly where the flow is new, and its own port and all of 40000 to 60999 are
  -- taken by other flows to the same remote end.
  Assigned-taken :
      {r : Mapper × Option ℕ} (t : ℕ)
      → Inv m
      → Assigned m k meta now r
      → r.1 ≡ none
      → (t ≡ k.local_port) ⊎ ((40000 ≤ t) × (t ≤ 60999))
      → (find_out k m.by_out ≡ none) × (¬ IsFree m k t)
  Assigned-taken t v (known i e) q h = cc
  Assigned-taken t v (added port next e free fits low high) q h = cc
  Assigned-taken t v (full next e f low high) q h =
      (e, pick_port_taken m k t v.next_low v.next_high f h)

  Assigned-IsAssigned :
      {r : Mapper × Option ℕ} (t : ℕ)
      → Inv m
      → (t ≡ k.local_port) ⊎ ((40000 ≤ t) × (t ≤ 60999))
      → Assigned m k meta now r
      → IsAssigned m k meta t r
  Assigned-IsAssigned t v h (known i e) = Assigned-IsMapped _ v (known i e) refl
  Assigned-IsAssigned t v h (added port next e free fits low high) =
      Assigned-IsMapped port v (added port next e free fits low high) refl
  Assigned-IsAssigned t v h (full next e f low high) =
      Assigned-taken t v (full next e f low high) refl h

  -- `PrepareOutbound` under the lock. With the maps in agreement and a 16-bit local port: where a
  -- tunnel port is given, the mapper leads the flow's replies under that port to the flow's local
  -- address and port and to this packet's interface; where none is given, the flow was new, and
  -- each candidate, the flow's own port and all of 40000 to 60999, was taken for this remote end.
  pub assign_lem :
      (t : ℕ)
      → Inv m
      → (t ≡ k.local_port) ⊎ ((40000 ≤ t) × (t ≤ 60999))
      → IsAssigned m k meta t (assign m k meta now)
  assign_lem t v h = Assigned-IsAssigned t v h (assign-Assigned v)
