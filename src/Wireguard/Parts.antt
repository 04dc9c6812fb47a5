-- ===== src/Wireguard/Parts.antt =====
-- internal/wireguard/client.go: the parts that a message is put together from, at their places.
use split_wire.Prelude.{
  Bytes, [], ap, ap₂, arith, drop, length, range, refl, suc, take, zero, ℕ, ◌++◌, ◌-◌, ◌∙◌, ◌∷◌,
  ◌≡◌, ◌≤◌,
}

pub append_assoc : (xs ys zs : Bytes) → (xs ++ ys) ++ zs ≡ xs ++ (ys ++ zs)
append_assoc [] ys zs = refl
append_assoc (x ∷ xs) ys zs = ap (λ (t : Bytes). x ∷ t) (append_assoc xs ys zs)

drop-append : (xs ys : Bytes) (i : ℕ) → length xs ≤ i → drop i (xs ++ ys) ≡ drop (i - length xs) ys
drop-append [] ys i h = ap (λ (k : ℕ). drop k ys) (omega arith)
drop-append (x ∷ xs) ys zero h = absurd (omega arith)
drop-append (x ∷ xs) ys (suc i) h =
    drop-append xs ys i (omega arith) ∙ ap (λ (k : ℕ). drop k ys) (omega arith)

take-append : (xs ys : Bytes) → take (length xs) (xs ++ ys) ≡ xs
take-append [] ys = refl
take-append (x ∷ xs) ys = ap (λ (t : Bytes). x ∷ t) (take-append xs ys)

-- A range behind the first part, and the first part itself.
pub range-append_next :
    (xs ys : Bytes) (n i j : ℕ)
    → length xs ≡ n
    → n ≤ i
    → range (xs ++ ys) i j ≡ range ys (i - n) (j - n)
range-append_next xs ys n i j e h =
    ap (λ (b : Bytes). take (j - i) b)
      (drop-append xs ys i (omega arith) ∙ ap (λ (k : ℕ). drop k ys) (omega arith))
    ∙ ap (λ (k : ℕ). take k (drop (i - n) ys)) (omega arith)

pub range-append_here : (xs ys : Bytes) (j : ℕ) → length xs ≡ j → range (xs ++ ys) 0 j ≡ xs
range-append_here xs ys j e = ap (λ (k : ℕ). take k (xs ++ ys)) (omega arith) ∙ take-append xs ys

-- The first of three parts behind a header of `n` bytes, the second and the third.
module _ (header a b c : Bytes) (n : ℕ) (size : length header ≡ n) where
  pub range-part_1 : (j : ℕ) → length a ≡ j - n → n ≤ j → range (header ++ (a ++ (b ++ c))) n j ≡ a
  range-part_1 j h l =
      range-append_next header (a ++ (b ++ c)) n n j size (omega arith)
      ∙ ap (λ (k : ℕ). range (a ++ (b ++ c)) k (j - n)) (omega arith)
      ∙ range-append_here a (b ++ c) (j - n) h

  pub range-part_2 :
      (i j : ℕ)
      → length a ≡ i - n
      → n ≤ i
      → length b ≡ j - i
      → i ≤ j
      → range (header ++ (a ++ (b ++ c))) i j ≡ b
  range-part_2 i j h l g m =
      range-append_next header (a ++ (b ++ c)) n i j size l
      ∙ range-append_next a (b ++ c) (i - n) (i - n) (j - n) h (omega arith)
      ∙ ap₂ (λ (k l : ℕ). range (b ++ c) k l) (omega arith) (omega arith)
      ∙ range-append_here b c (j - i) g

  pub range-part_3 :
      (c' : Bytes) (i j k : ℕ)
      → length a ≡ i - n
      → n ≤ i
      → length b ≡ j - i
      → i ≤ j
      → length c' ≡ k - j
      → j ≤ k
      → range (header ++ (a ++ (b ++ (c' ++ c)))) j k ≡ c'
  range-part_3 c' i j k h l g m q o =
      range-append_next header (a ++ (b ++ (c' ++ c))) n j k size (omega arith)
      ∙ range-append_next a (b ++ (c' ++ c)) (i - n) (j - n) (k - n) h (omega arith)
      ∙ range-append_next b (c' ++ c) (j - i) (j - n - (i - n)) (k - n - (i - n)) g (omega arith)
      ∙ ap₂ (λ (x y : ℕ). range (c' ++ c) x y) (omega arith) (omega arith)
      ∙ range-append_here c' c (k - j) q
