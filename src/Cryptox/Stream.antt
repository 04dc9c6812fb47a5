-- ===== src/Cryptox/Stream.antt =====
-- internal/cryptox/chacha_core.go: the key stream, put over a text twice.
use split_wire.Prelude.{
  Bytes, List, [], ap, ap₂, arith, drop, length, length-append, length-drop, length-set,
  length-take, length_zero, min, ok, refl, suc, take, take-append-drop, u32, zero, ℕ, ◌*◌, ◌++◌,
  ◌+◌, ◌<◌, ◌>>=◌, ◌∙◌, ◌∷◌, ◌≡◌, ◌≤◌,
}
use split_wire.Cryptox.Chacha.{
  constants, xor_bytes, xor_rounds, rounds, qr, double_round, add_words, cha_cha_block,
}
use split_wire.Cryptox.Words.{bit_xor_twice, words_at, words_bytes}

length-qr : (a b c d : ℕ) (x : List ℕ) → length (qr a b c d x) ≡ length x
unfolding qr
length-qr a b c d x = simp length-set

length-double_round : (x : List ℕ) → length (double_round x) ≡ length x
unfolding double_round
length-double_round x = simp length-qr

length-rounds : (n : ℕ) (x : List ℕ) → length (rounds n x) ≡ length x
unfolding rounds
length-rounds zero x = refl
length-rounds (suc n) x = length-rounds n (double_round x) ∙ length-double_round x

pub length-words_bytes : (xs : List ℕ) → length (words_bytes xs) ≡ 4 * length xs
length-words_bytes [] = refl
length-words_bytes (x ∷ xs) = omega (arith, length-words_bytes xs)

length-add_words : (xs ys : List ℕ) → length xs ≡ length ys → length (add_words xs ys) ≡ length xs
length-add_words [] ys h = refl
length-add_words (x ∷ xs) [] h = absurd (omega arith)
length-add_words (x ∷ xs) (y ∷ ys) h = omega (arith, length-add_words xs ys)

length-words_at : (n : ℕ) (b : Bytes) (i : ℕ) → length (words_at n b i) ≡ n
length-words_at zero b i = refl
length-words_at (suc n) b i = omega (arith, length-words_at n b (i + 4))

length-cha_cha_block :
    (key : Bytes) (counter : ℕ) (nonce : Bytes) → length (cha_cha_block key counter nonce) ≡ 64
unfolding cha_cha_block
length-cha_cha_block key counter nonce =
    let tail = counter ∷ words_at 3 nonce 0 in
    let s = constants ++ (words_at 8 key 0 ++ tail) in
    omega (
      arith,
      length-words_bytes (add_words (rounds 10 s) s),
      length-add_words (rounds 10 s) s (length-rounds 10 s),
      length-rounds 10 s,
      length-append (words_at 8 key 0) tail,
      length-words_at 8 key 0,
      length-words_at 3 nonce 0,
    )

-- A list is cut again where it was put together.
pub take-append_rest :
    (n : ℕ) (xs rest : Bytes)
    → length xs ≤ n
    → (length xs < n → rest ≡ [])
    → (take n (xs ++ rest) ≡ xs) × (drop n (xs ++ rest) ≡ rest)
take-append_rest zero [] rest h e = (refl, refl)
take-append_rest zero (x ∷ xs) rest h e = absurd (omega arith)
take-append_rest (suc n) [] rest h e =
    let none_left = e (omega arith) in (rw none_left refl, rw none_left refl)
take-append_rest (suc n) (x ∷ xs) rest h e =
    let (f, g) = take-append_rest n xs rest (omega arith) (λ l. e (omega arith)) in
    (ap (λ (t : Bytes). x ∷ t) f, g)

xor_bytes_twice : (xs b : Bytes) → length xs ≤ length b → xor_bytes (xor_bytes xs b) b ≡ xs
xor_bytes_twice [] b h = refl
xor_bytes_twice (x ∷ xs) [] h = absurd (omega arith)
xor_bytes_twice (x ∷ xs) (y ∷ b) h =
    ap₂ (λ (z : ℕ) (t : Bytes). z ∷ t) (bit_xor_twice x y) (xor_bytes_twice xs b (omega arith))

length-xor_bytes : (xs b : Bytes) → length xs ≤ length b → length (xor_bytes xs b) ≡ length xs
length-xor_bytes [] b h = refl
length-xor_bytes (x ∷ xs) [] h = absurd (omega arith)
length-xor_bytes (x ∷ xs) (y ∷ b) h = omega (arith, length-xor_bytes xs b)

module _ {E : Type 0} (key nonce : Bytes) where
  xor_rounds_step :
      (fuel counter : ℕ) (src : Bytes)
      → 0 < length src
      → xor_rounds {E = E} (suc fuel) key counter nonce src ≡ (
          xor_rounds {E = E} fuel key (u32 (counter + 1)) nonce (drop 64 src) >>= λ rest.
          ok (xor_bytes (take 64 src) (cha_cha_block key counter nonce) ++ rest))
  unfolding xor_rounds
  xor_rounds_step fuel counter [] h = absurd (omega arith)
  xor_rounds_step fuel counter (x ∷ src) h = refl

  xor_rounds_nil : (fuel counter : ℕ) → xor_rounds {E = E} fuel key counter nonce [] ≡ ok []
  unfolding xor_rounds
  xor_rounds_nil zero counter = refl
  xor_rounds_nil (suc fuel) counter = refl

  -- With a round for each byte, or more, the stream ends, keeps the length, and is its own inverse.
  pub xor_rounds_twice :
      (fuel counter : ℕ) (src : Bytes)
      → length src ≤ fuel
      → (c : Bytes) × (xor_rounds {E = E} fuel key counter nonce src ≡ ok c)
        × (length c ≡ length src)
        × (xor_rounds {E = E} fuel key counter nonce c ≡ ok src)
  xor_rounds_twice fuel counter [] h =
      ([], xor_rounds_nil fuel counter, refl, xor_rounds_nil fuel counter)
  xor_rounds_twice zero counter (x ∷ src) h = absurd (omega arith)
  xor_rounds_twice (suc fuel) counter (x ∷ src) h =
      let all = x ∷ src in
      let block = cha_cha_block key counter nonce in
      let full = length-cha_cha_block key counter nonce in
      let head = xor_bytes (take 64 all) block in
      let short : length (take 64 all) ≤ 64 = omega (arith, length-take 64 all) in
      let len : length head ≡ min 64 (length all) =
        omega (arith, length-xor_bytes (take 64 all) block, length-take 64 all) in
      let (rest, e, l, back) =
        xor_rounds_twice fuel (u32 (counter + 1)) (drop 64 all)
          (omega (arith, length-drop 64 all)) in
      let gone : length head < 64 → rest ≡ [] =
        λ lt. length_zero rest (omega (arith, l, len, length-drop 64 all)) in
      let (front, behind) = take-append_rest 64 head rest (omega arith) gone in
      let c = head ++ rest in
      let first : xor_rounds (suc fuel) key counter nonce all ≡ ok c =
        xor_rounds_step fuel counter all (omega arith) ∙ ap (λ o. o >>= λ t. ok (head ++ t)) e in
      let again : xor_rounds (suc fuel) key counter nonce c ≡ ok all =
        xor_rounds_step fuel counter c (omega (arith, len, length-append head rest))
        ∙ ap
            (λ b. xor_rounds fuel key (u32 (counter + 1)) nonce b >>= λ t.
              ok (xor_bytes (take 64 c) block ++ t))
            behind
        ∙ ap (λ o. o >>= λ t. ok (xor_bytes (take 64 c) block ++ t)) back
        ∙ ap (λ b. ok (xor_bytes b block ++ drop 64 all)) front
        ∙ ap (λ b. ok (b ++ drop 64 all))
            (xor_bytes_twice (take 64 all) block (omega (arith, full, short)))
        ∙ ap ok (take-append-drop 64 all) in
      (c, first, omega (arith, len, l, length-append head rest, length-drop 64 all), again)
