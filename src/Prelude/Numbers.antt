-- ===== src/Prelude/Numbers.antt =====
-- 16- and 32-bit numbers in a slice of bytes, and the end of a slice, after a write.
use Prim.Native.Nat.{ℕ, zero, suc, ◌+◌, ◌≤◌, ◌<◌, ◌^◌}
use mathlib.Core.Path.{◌≡◌, refl, ◌∙◌, ap, sym}
use mathlib.Core.Logic.{◌⊎◌}
use mathlib.Core.List.{List, [], ◌∷◌, ◌++◌}
use native.Mathlib.Omega.{arith}
use split_wire.Prelude.Lists.{
  length, get_or, set, take, drop, write, replicate, get_or-write_below, get_or-write_above,
}
use split_wire.Prelude.Results.{Bytes, be16, be32, bytes16, bytes32}
use split_wire.Prelude.Ranges.{get_or-write_inside}

-- What the type `[]byte` promises of its elements.
abbrev pub IsBytes : Bytes → Type 0
IsBytes [] = Unit {0}
IsBytes (x ∷ b) = (x < 256) × IsBytes b

pub IsBytes-append : (xs ys : Bytes) → IsBytes xs → IsBytes ys → IsBytes (xs ++ ys)
IsBytes-append [] ys h g = g
IsBytes-append (x ∷ xs) ys h g = (h.0, IsBytes-append xs ys h.1 g)

pub IsBytes-replicate : (n x : ℕ) → x < 256 → IsBytes (replicate n x)
IsBytes-replicate zero x h = tt
IsBytes-replicate (suc n) x h = (h, IsBytes-replicate n x h)

pub byte_at-lt : (b : Bytes) (i : ℕ) → IsBytes b → get_or b i 0 < 256
byte_at-lt [] i h = omega arith
byte_at-lt (x ∷ b) zero h = h.0
byte_at-lt (x ∷ b) (suc i) h = byte_at-lt b i h.1

pub be16-write :
    (b : Bytes) (k n : ℕ) → k + 2 ≤ length b → n < 2 ^ 16 → be16 (write b k (bytes16 n)) k ≡ n
be16-write b k n h s =
    ground (
      arith,
      get_or-write_inside b k (bytes16 n) k 0,
      get_or-write_inside b k (bytes16 n) (k + 1) 0,
    )

pub be32-write :
    (b : Bytes) (k n : ℕ) → k + 4 ≤ length b → n < 2 ^ 32 → be32 (write b k (bytes32 n)) k ≡ n
be32-write b k n h s = ground (
  arith,
  get_or-write_inside b k (bytes32 n) k 0,
  get_or-write_inside b k (bytes32 n) (k + 1) 0,
  get_or-write_inside b k (bytes32 n) (k + 2) 0,
  get_or-write_inside b k (bytes32 n) (k + 2 + 1) 0,
)

pub be16-write_ne :
    (b : Bytes) (k : ℕ) (ys : Bytes) (i : ℕ)
    → (k + length ys ≤ i) ⊎ (i + 2 ≤ k)
    → be16 (write b k ys) i ≡ be16 b i
be16-write_ne b k ys i h = ground (
  arith,
  get_or-write_above b k ys i 0,
  get_or-write_above b k ys (i + 1) 0,
  get_or-write_below b k ys i 0,
  get_or-write_below b k ys (i + 1) 0,
)

pub get_or-write_ne :
    (b : Bytes) (k : ℕ) (ys : Bytes) (i : ℕ)
    → (k + length ys ≤ i) ⊎ (i < k)
    → get_or (write b k ys) i 0 ≡ get_or b i 0
get_or-write_ne b k ys i h =
    ground (arith, get_or-write_above b k ys i 0, get_or-write_below b k ys i 0)

-- A number that stands clear of a write.
pub be32-write_ne :
    (b : Bytes) (k : ℕ) (ys : Bytes) (i : ℕ) → k + length ys ≤ i → be32 (write b k ys) i ≡ be32 b i
be32-write_ne b k ys i h = ground (
  arith,
  get_or-write_above b k ys i 0,
  get_or-write_above b k ys (i + 1) 0,
  get_or-write_above b k ys (i + 2) 0,
  get_or-write_above b k ys (i + 2 + 1) 0,
)

pub be32-write_before :
    (b : Bytes) (k : ℕ) (ys : Bytes) (i : ℕ) → i + 4 ≤ k → be32 (write b k ys) i ≡ be32 b i
be32-write_before b k ys i h = ground (
  arith,
  get_or-write_below b k ys i 0,
  get_or-write_below b k ys (i + 1) 0,
  get_or-write_below b k ys (i + 2) 0,
  get_or-write_below b k ys (i + 2 + 1) 0,
)

module _ {ℓ} {A : Type ℓ} where
  drop-set : (n : ℕ) (xs : List A) (i : ℕ) (v : A) → i < n → drop n (set xs i v) ≡ drop n xs
  drop-set zero xs i v h = elim h [ ]
  drop-set (suc n) [] i v h = refl
  drop-set (suc n) (x ∷ xs) zero v h = refl
  drop-set (suc n) (x ∷ xs) (suc i) v h = drop-set n xs i v (omega arith)

  pub drop-write :
      (n : ℕ) (xs : List A) (i : ℕ) (ys : List A)
      → i + length ys ≤ n
      → drop n (write xs i ys) ≡ drop n xs
  drop-write n xs i [] h = refl
  drop-write n xs i (y ∷ ys) h =
      drop-write n (set xs i y) (suc i) ys (omega arith) ∙ drop-set n xs i y (omega arith)

  pub drop-append : (xs ys : List A) → drop (length xs) (xs ++ ys) ≡ ys
  drop-append [] ys = refl
  drop-append (x ∷ xs) ys = drop-append xs ys

  pub drop-length : (xs : List A) → drop (length xs) xs ≡ []
  drop-length [] = refl
  drop-length (x ∷ xs) = drop-length xs

  pub take-append : (n : ℕ) (xs ys : List A) → n ≡ length xs → take n (xs ++ ys) ≡ xs
  take-append zero [] ys e = refl
  take-append zero (x ∷ xs) ys e = absurd (omega arith)
  take-append (suc n) [] ys e = absurd (omega arith)
  take-append (suc n) (x ∷ xs) ys e = ap (◌∷◌ x) (take-append n xs ys (omega arith))

  pub get_or-append_left :
      (xs ys : List A) (i : ℕ) (d : A) → i < length xs → get_or (xs ++ ys) i d ≡ get_or xs i d
  get_or-append_left [] ys i d h = absurd (omega arith)
  get_or-append_left (x ∷ xs) ys zero d h = refl
  get_or-append_left (x ∷ xs) ys (suc i) d h = get_or-append_left xs ys i d (omega arith)

  take-nil : (n : ℕ) → ◌≡◌ {A = List A} (take n []) []
  take-nil zero = refl
  take-nil (suc n) = refl

  drop-nil : (n : ℕ) → ◌≡◌ {A = List A} (drop n []) []
  drop-nil zero = refl
  drop-nil (suc n) = refl

  -- Two neighbouring ranges are one.
  pub take-drop_split : (n m : ℕ) (xs : List A) → take n xs ++ take m (drop n xs) ≡ take (n + m) xs
  take-drop_split zero m xs = let e : m ≡ zero + m = omega arith in ap (λ (k : ℕ). take k xs) e
  take-drop_split (suc n) m [] = take-nil m ∙ sym (take-nil (suc n + m))
  take-drop_split (suc n) m (x ∷ xs) =
      let e : suc (n + m) ≡ suc n + m = omega arith in
      ap (◌∷◌ x) (take-drop_split n m xs) ∙ ap (λ (k : ℕ). take k (x ∷ xs)) e

  pub drop-drop : (n m : ℕ) (xs : List A) → drop m (drop n xs) ≡ drop (n + m) xs
  drop-drop zero m xs = let e : m ≡ zero + m = omega arith in ap (λ (k : ℕ). drop k xs) e
  drop-drop (suc n) m [] = drop-nil m ∙ sym (drop-nil (suc n + m))
  drop-drop (suc n) m (x ∷ xs) =
      let e : suc (n + m) ≡ suc n + m = omega arith in
      drop-drop n m xs ∙ ap (λ (k : ℕ). drop k (x ∷ xs)) e

pub length_zero : (b : Bytes) → length b ≡ 0 → b ≡ []
length_zero [] h = refl
length_zero (x ∷ b) h = absurd (omega arith)
