-- ===== src/Reassembly/Pieces.antt =====
-- internal/reassembly: pieces that share no byte, and the bytes that they hold.
use split_wire.Prelude.{List, [], arith, false, length, refl, ℕ, ◌++◌, ◌+◌, ◌∷◌, ◌≡◌, ◌≤◌, ◌⊎◌}
use split_wire.Reassembly.{Piece, held, overlaps}

-- No two pieces share a byte.
abbrev pub Disjoint : List Piece → Type 0
Disjoint [] = Unit {0}
Disjoint (q ∷ qs) = (overlaps q.off (q.off + length q.content) qs ≡ false) × Disjoint qs

pub held-append : (xs ys : List Piece) → held (xs ++ ys) ≡ held xs + held ys
unfolding held
held-append [] ys = omega arith
held-append (q ∷ qs) ys = omega (arith, held-append qs ys)

overlaps-append :
    (off stop : ℕ) (qs : List Piece) (p : Piece)
    → overlaps off stop qs ≡ false
    → (stop ≤ p.off) ⊎ (p.off + length p.content ≤ off)
    → overlaps off stop (qs ++ p ∷ []) ≡ false
unfolding overlaps
overlaps-append off stop [] p e h = ground arith
overlaps-append off stop (q ∷ qs) p e h = ground (arith, overlaps-append off stop qs p)

pub Disjoint-append :
    (qs : List Piece) (p : Piece)
    → Disjoint qs
    → overlaps p.off (p.off + length p.content) qs ≡ false
    → Disjoint (qs ++ p ∷ [])
unfolding overlaps
Disjoint-append [] p h e = (refl, tt)
Disjoint-append (q ∷ qs) p h e = (
  unfold overlaps in overlaps-append q.off (q.off + length q.content) qs p h.0 (ground arith),
  Disjoint-append qs p h.1 (ground arith),
)

pub held_one : (p : Piece) → held (p ∷ []) ≡ length p.content
unfolding held
held_one p = omega arith
