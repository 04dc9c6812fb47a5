-- ===== src/Cryptox/Digest.antt =====
-- internal/cryptox/blake2s.go: the outcomes of `Blake2s`.
use split_wire.Prelude.{
  Bool, Bool-cases, Bytes, List, Outcome, [], arith, drop, err, false, inl, inr, length,
  length-append, length-drop, length-set, length-take, ltb, ok, out_of_fuel, panic, refl, replicate,
  suc, take, true, write, zero, ℕ, ◌%◌, ◌+◌, ◌<◌, ◌^◌, ◌||◌, ◌∙◌, ◌∷◌, ◌≡◌, ◌≤◌, ◌⊎◌,
}
use split_wire.Cryptox.Blake2s.{
  g, sigma, compress, blake2s, start_words, first_words, keyed_message, HashError, bad_size,
  blake_blocks, blake_iv, blake_round, blake_rounds, fold_words, key_too_long,
}
use split_wire.Cryptox.Stream.{length-words_bytes}
use split_wire.Cryptox.Words.{words_at, words_bytes}

length-g : (a b c d x y : ℕ) (v : List ℕ) → length (g a b c d x y v) ≡ length v
unfolding g
length-g a b c d x y v = simp length-set

length-blake_round : (m s v : List ℕ) → length (blake_round m s v) ≡ length v
unfolding blake_round
length-blake_round m s v = simp length-g

length-blake_rounds :
    (m : List ℕ) (rows : List (List ℕ)) (v : List ℕ) → length (blake_rounds m rows v) ≡ length v
unfolding blake_rounds
length-blake_rounds m [] v = refl
length-blake_rounds m (s ∷ rows) v =
    length-blake_rounds m rows (blake_round m s v) ∙ length-blake_round m s v

length-start_words :
    (h : List ℕ) (t : ℕ) (final : Bool) → length (start_words h t final) ≡ length h + 8
length-start_words h t true = simp length-set (omega (arith, length-append h blake_iv))
length-start_words h t false = simp length-set (omega (arith, length-append h blake_iv))

length-fold_words :
    (h v w : List ℕ)
    → length h ≤ length v
    → length h ≤ length w
    → length (fold_words h v w) ≡ length h
length-fold_words [] v w p q = refl
length-fold_words (x ∷ h) [] w p q = absurd (omega arith)
length-fold_words (x ∷ h) (y ∷ v) [] p q = absurd (omega arith)
length-fold_words (x ∷ h) (y ∷ v) (z ∷ w) p q =
    omega (arith, length-fold_words h v w (omega arith) (omega arith))

length-compress :
    (h : List ℕ) (block : Bytes) (t : ℕ) (final : Bool)
    → length h ≡ 8
    → length (compress h block t final) ≡ 8
unfolding compress
length-compress h block t final e =
    let s = start_words h t final in
    let v = blake_rounds (words_at 16 block 0) sigma s in
    let wide : length v ≡ 16 =
      omega
        (arith, length-blake_rounds (words_at 16 block 0) sigma s, length-start_words h t final) in
    length-fold_words h v (drop 8 v) (omega arith) (omega (arith, length-drop 8 v)) ∙ e

module _ (fuel : ℕ) (h : List ℕ) (total : ℕ) (msg : Bytes) where
  blake_blocks_more :
      ltb 64 (length msg) ≡ true
      → let total' = (total + 64) % 2 ^ 64 in
        blake_blocks (suc fuel) h total msg
        ≡ blake_blocks fuel (compress h (take 64 msg) total' false) total' (drop 64 msg)
  unfolding blake_blocks
  blake_blocks_more e = rw (e, blake_blocks) refl

  blake_blocks_done :
      ltb 64 (length msg) ≡ false
      → blake_blocks (suc fuel) h total msg
        ≡ ok (compress h (write (replicate 64 0) 0 msg) ((total + length msg) % 2 ^ 64) true)
  unfolding blake_blocks
  blake_blocks_done e = rw (e, blake_blocks) refl

-- The loop ends with eight words, given a round for each byte and one more.
blake_blocks_words :
    (fuel : ℕ) (h : List ℕ) (total : ℕ) (msg : Bytes)
    → length msg < fuel
    → length h ≡ 8
    → (h' : List ℕ) × (blake_blocks fuel h total msg ≡ ok h') × (length h' ≡ 8)
blake_blocks_words zero h total msg e l = absurd (omega arith)
blake_blocks_words (suc fuel) h total msg e l = elim (Bool-cases (ltb 64 (length msg))) [
  | inl more ↦
      let total' = (total + 64) % 2 ^ 64 in
      let next = compress h (take 64 msg) total' false in
      let long : 64 < length msg = ground (arith, more) in
      let (h', f, k) =
        blake_blocks_words fuel next total' (drop 64 msg) (omega (arith, length-drop 64 msg))
          (length-compress h (take 64 msg) total' false l) in
      (h', blake_blocks_more fuel h total msg more ∙ f, k)
  | inr done ↦
      let block = write (replicate 64 0) 0 msg in
      let t = (total + length msg) % 2 ^ 64 in
      (
        compress h block t true,
        blake_blocks_done fuel h total msg done,
        length-compress h block t true l,
      )
]

-- How the hash ends, by the length of the key and the size asked for.
abbrev pub IsDigest : ℕ → ℕ → Outcome HashError Bytes → Type 0
IsDigest key_len out_len (ok x) =
    (1 ≤ out_len) × (out_len ≤ 32) × (key_len ≤ 32) × (length x ≡ out_len)
IsDigest key_len out_len (err bad_size) = (out_len < 1) ⊎ (32 < out_len)
IsDigest key_len out_len (err key_too_long) = (1 ≤ out_len) × (out_len ≤ 32) × (32 < key_len)
IsDigest key_len out_len panic = ⊥
IsDigest key_len out_len out_of_fuel = ⊥

-- What is taken of the words, where the arguments pass the checks.
blake2s_words :
    (key msg : Bytes) (out_len : ℕ)
    → (h : List ℕ) × (blake_blocks
          (suc (length (keyed_message key msg)))
          (first_words (length key) out_len)
          0
          (keyed_message key msg)
        ≡ ok h)
      × (length h ≡ 8)
blake2s_words key msg out_len =
    let whole = keyed_message key msg in
    blake_blocks_words (suc (length whole)) (first_words (length key) out_len) 0 whole (omega arith)
      refl

size_refused : (n : ℕ) → (ltb n 1 || ltb 32 n) ≡ true → (n < 1) ⊎ (32 < n)
size_refused n h = ground arith

size_accepted : (n : ℕ) → (ltb n 1 || ltb 32 n) ≡ false → (1 ≤ n) × (n ≤ 32)
size_accepted n h = ground arith

key_refused : (n : ℕ) → ltb 32 n ≡ true → 32 < n
key_refused n h = ground arith

key_accepted : (n : ℕ) → ltb 32 n ≡ false → n ≤ 32
key_accepted n h = ground arith

taken_words : (n : ℕ) (h : List ℕ) → n ≤ 32 → length h ≡ 8 → length (take n (words_bytes h)) ≡ n
taken_words n h small l = omega (arith, length-take n (words_bytes h), length-words_bytes h)

-- `Blake2s` ends on every message, key and size: with as many bytes as were asked for, where these are
-- 1 to 32 and the key has at most 32; with the error about the size, where it is another; and with
-- the error about the key, where only that is too long.
pub blake2s-IsDigest :
    (msg key : Bytes) (out_len : ℕ) → IsDigest (length key) out_len (blake2s msg key out_len)
unfolding blake2s
blake2s-IsDigest msg key out_len =
    let (h, e, l) = blake2s_words key msg out_len in
    elim (Bool-cases (ltb out_len 1 || ltb 32 out_len)) [
      | inl bad ↦ rw bad (size_refused out_len bad)
      | inr sized ↦
          let (low, high) = size_accepted out_len sized in
          elim (Bool-cases (ltb 32 (length key))) [
            | inl long ↦ rw (sized, long) (low, high, key_refused (length key) long)
            | inr short ↦
                rw (sized, short, e)
                  (low, high, key_accepted (length key) short, taken_words out_len h high l)
          ]
    ]
