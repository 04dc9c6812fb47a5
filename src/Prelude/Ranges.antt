-- ===== src/Prelude/Ranges.antt =====
-- Part of a slice, after a write into the slice.
use Prim.Native.Nat.{ℕ, suc, ◌+◌, ◌-◌, ◌≤◌, ◌<◌}
use mathlib.Core.Path.{◌≡◌, ◌∙◌}
use mathlib.Core.Logic.{◌⊎◌, inl, inr}
use mathlib.Core.List.{List, [], ◌∷◌}
use native.Mathlib.Omega.{arith}
use native.Mathlib.Decide.{dec_lt}
use split_wire.Prelude.Lists.{
  length, get_or, set, drop, write, get_or_ext, length-take, length-drop, length-write, get_or-take,
  get_or-drop, get_or-write_below, get_or-write_above, get_or-set_self, length-set,
}
use split_wire.Prelude.Results.{Bytes, range}

le_cases : (i j : ℕ) → i ≤ j → (j ≡ i) ⊎ ((m : ℕ) × (j ≡ suc (i + m)))
le_cases i j h = elim (dec_lt i j) [
  | yes p ↦ inr (j - i - 1, omega arith)
  | no p ↦ inl (omega arith)
]

module _ {ℓ} {A : Type ℓ} where
  pub get_or-write_inside :
      (xs : List A) (i : ℕ) (ys : List A) (j : ℕ) (d : A)
      → i + length ys ≤ length xs
      → i ≤ j
      → j < i + length ys
      → get_or (write xs i ys) j d ≡ get_or ys (j - i) d
  get_or-write_inside xs i [] j d h p q = absurd (omega arith)
  get_or-write_inside xs i (y ∷ ys) j d h p q = elim (le_cases i j p) [
    | inl e ↦
        ground (arith, get_or-write_below (set xs i y) (suc i) ys i d, get_or-set_self xs i y d)
    | inr (m, e) ↦
        ground (arith, length-set xs i y, get_or-write_inside (set xs i y) (suc i) ys j d)
  ]

pub length-range : (b : Bytes) (i j : ℕ) → j ≤ length b → length (range b i j) ≡ j - i
length-range b i j h = omega (arith, length-take (j - i) (drop i b), length-drop i b)

pub get_or-range :
    (b : Bytes) (i j k : ℕ) → k < j - i → get_or (range b i j) k 0 ≡ get_or b (i + k) 0
get_or-range b i j k h = get_or-take (j - i) (drop i b) k 0 h ∙ get_or-drop i b k 0

pub range-write_self :
    (b : Bytes) (k : ℕ) (ys : Bytes) (j : ℕ)
    → j ≡ k + length ys
    → j ≤ length b
    → range (write b k ys) k j ≡ ys
range-write_self b k ys j e h =
    get_or_ext 0 _ ys (omega (arith, length-range (write b k ys) k j, length-write b k ys)) λ m p.
      ground (
        arith,
        length-range (write b k ys) k j,
        length-write b k ys,
        get_or-range (write b k ys) k j m,
        get_or-write_inside b k ys (k + m) 0,
      )

pub range-write_ne :
    (b : Bytes) (k : ℕ) (ys : Bytes) (i j : ℕ)
    → (k + length ys ≤ i) ⊎ (j ≤ k)
    → j ≤ length b
    → range (write b k ys) i j ≡ range b i j
range-write_ne b k ys i j h l =
    get_or_ext 0 _ _
      (omega (arith, length-range (write b k ys) i j, length-range b i j, length-write b k ys))
      λ m p. ground (
        arith,
        length-range (write b k ys) i j,
        length-write b k ys,
        get_or-range (write b k ys) i j m,
        get_or-range b i j m,
        get_or-write_below b k ys (i + m) 0,
        get_or-write_above b k ys (i + m) 0,
      )
