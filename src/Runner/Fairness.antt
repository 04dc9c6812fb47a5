-- ===== src/Runner/Fairness.antt =====
-- internal/engine/engine_windows.go: that `sendLoop` comes to every packet of the bulk queue.
use split_wire.Prelude.{
  Bool, Bytes, List, [], ap, arith, length, length-append, refl, subst, suc, sym, zero, ℕ, ◌*◌,
  ◌++◌, ◌+◌, ◌<◌, ◌∙◌, ◌∷◌, ◌≡◌, ◌≤◌,
}
use split_wire.Runner.{Runner}
use split_wire.Runner.Sending.{
  Batch, arrive, send_one, drain_urgent, Sent, later, send_round, send_rounds, urgent_burst,
}

send_one-bulk : (takes : Bytes → Bool) (p : Bytes) (r : Runner) → (send_one takes p r).bulk ≡ r.bulk
unfolding send_one
send_one-bulk takes p r = ground arith

-- Packets only join the queue at its end.
abbrev Grows : List Bytes → List Bytes → Type 0
Grows xs ys = (more : List Bytes) × (ys ≡ xs ++ more)

append_nil : (xs : List Bytes) → xs ++ [] ≡ xs
append_nil [] = refl
append_nil (x ∷ xs) = ap (λ t. x ∷ t) (append_nil xs)

append_assoc : (xs ys zs : List Bytes) → (xs ++ ys) ++ zs ≡ xs ++ (ys ++ zs)
append_assoc [] ys zs = refl
append_assoc (x ∷ xs) ys zs = ap (λ t. x ∷ t) (append_assoc xs ys zs)

Grows-refl : (xs : List Bytes) → Grows xs xs
Grows-refl xs = ([], sym (append_nil xs))

Grows-trans : (xs ys zs : List Bytes) → Grows xs ys → Grows ys zs → Grows xs zs
Grows-trans xs ys zs (m, e) (m', e') = (m ++ m', e' ∙ ap (λ t. t ++ m') e ∙ append_assoc xs m m')

arrive-Grows : (bs : List Batch) (r : Runner) → Grows r.bulk (arrive bs r).bulk
arrive-Grows [] r = Grows-refl r.bulk
arrive-Grows (b ∷ bs) r = (b.bulk, refl)

-- At most so many packets were sent, and none of the bulk queue.
abbrev IsDrained : ℕ → Runner → Sent → Type 0
IsDrained n r s = Grows r.bulk s.engine.bulk × (length s.packets ≤ n)

drain_urgent-IsDrained :
    (takes : Bytes → Bool) (n : ℕ) (bs : List Batch) (r : Runner)
    → IsDrained n r (drain_urgent takes n bs r)
unfolding drain_urgent
drain_urgent-IsDrained takes zero bs r = (Grows-refl r.bulk, omega arith)
drain_urgent-IsDrained takes (suc n) bs r =
    next (drain_urgent-IsDrained takes n (later bs)) (arrive bs r).urgent
  where
    next :
        ((q : Runner) → IsDrained n q (drain_urgent takes n (later bs) q))
        → (us : List Bytes)
        → IsDrained (suc n) r (elim us [
          | [] ↦ record { engine = arrive bs r; rest = later bs; packets = [] }
          | p ∷ ps ↦
              let s =
                drain_urgent takes n
                  (later bs)
                  (send_one takes p (record (arrive bs r) { urgent = ps })) in
              record s { packets = p ∷ s.packets }
        ])
    next drained [] = (arrive-Grows bs r, omega arith)
    next drained (p ∷ ps) =
        let q1 : Runner = record (arrive bs r) { urgent = ps } in
        let q = send_one takes p q1 in
        let (g, l) = drained q in
        let g1 =
          subst (λ t. Grows t (drain_urgent takes n (later bs) q).engine.bulk)
            (send_one-bulk takes p q1) g in
        (Grows-trans r.bulk (arrive bs r).bulk _ (arrive-Grows bs r) g1, omega arith)

-- A round sends the first packet of the bulk queue behind at most eight urgent packets.
abbrev TakesBulk : Bytes → List Bytes → Sent → Type 0
TakesBulk p ps s =
    (us : List Bytes) × (s.packets ≡ us ++ p ∷ []) × (length us ≤ 8) × Grows ps s.engine.bulk

send_round-TakesBulk :
    (takes : Bytes → Bool) (pick : Bool) (bs : List Batch) (r : Runner) (p : Bytes)
    (ps : List Bytes)
    → r.bulk ≡ p ∷ ps
    → TakesBulk p ps (send_round takes pick bs r)
unfolding send_round
send_round-TakesBulk takes pick bs r p ps e =
    let s = drain_urgent takes urgent_burst bs r in
    let (g, few) = drain_urgent-IsDrained takes urgent_burst bs r in
    let (more, kept) = Grows-trans r.bulk s.engine.bulk _ g (arrive-Grows s.rest s.engine) in
    let ready : (arrive s.rest s.engine).bulk ≡ p ∷ (ps ++ more) = kept ∙ ap (λ t. t ++ more) e in
    let kept_bulk = send_one-bulk takes p (record (arrive s.rest s.engine) { bulk = ps ++ more }) in
    rw (ready, send_round) (s.packets, refl, few, (more, kept_bulk))

-- A packet of the bulk queue is sent, whatever comes into the queues meanwhile: with `k` packets before
-- it, within `k + 1` rounds of the loop, and behind at most `9 * k + 8` other packets.
pub send_rounds-bulk :
    (takes : Bytes → Bool) (picks : List Bool) (bs : List Batch) (r : Runner) (before : List Bytes)
    (p : Bytes) (after : List Bytes)
    → r.bulk ≡ before ++ p ∷ after
    → length before < length picks
    → (xs : List Bytes) × (ys : List Bytes) × ((send_rounds takes picks bs r).packets
        ≡ xs ++ p ∷ ys)
      × (length xs ≤ 9 * length before + 8)
unfolding send_rounds
send_rounds-bulk takes [] bs r before p after e l = absurd (omega arith)
send_rounds-bulk takes (pick ∷ picks) bs r [] p after e l =
    let (us, same, few, g) = send_round-TakesBulk takes pick bs r p after e in
    let s = send_round takes pick bs r in
    let ys = (send_rounds takes picks s.rest s.engine).packets in
    (us, ys, ap (λ t. t ++ ys) same ∙ append_assoc us (p ∷ []) ys, few)
send_rounds-bulk takes (pick ∷ picks) bs r (b ∷ before) p after e l =
    let s = send_round takes pick bs r in
    let (us, same, few, (more, g)) =
      send_round-TakesBulk takes pick bs r b (before ++ p ∷ after) e in
    let (xs, ys, rest, few') =
      send_rounds-bulk takes picks s.rest s.engine before p (after ++ more)
        (g ∙ append_assoc before (p ∷ after) more) (omega arith) in
    let whole =
      ap (λ t. t ++ (send_rounds takes picks s.rest s.engine).packets) same
      ∙ ap (λ t. (us ++ b ∷ []) ++ t) rest
      ∙ append_assoc us (b ∷ []) (xs ++ p ∷ ys)
      ∙ sym (append_assoc us (b ∷ xs) (p ∷ ys)) in
    let size = length-append us (b ∷ xs) in (us ++ b ∷ xs, ys, whole, omega (arith, size))
