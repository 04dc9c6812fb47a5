-- ===== src/Cryptox/Blake2s.antt =====
-- internal/cryptox/blake2s.go: BLAKE2s, HMAC over it and the key derivation of WireGuard.
use split_wire.Prelude.{
  Bool, Bytes, List, Outcome, [], bit_xor, drop, err, fail_if, false, get_or, if◌then◌else◌, length,
  ltb, map, ok, out_of_fuel, panic, replicate, set, suc, take, true, u32, write, zero, ℕ, ◌%◌, ◌*◌,
  ◌++◌, ◌+◌, ◌-◌, ◌/◌, ◌>>=◌, ◌>>◌, ◌^◌, ◌||◌, ◌∷◌,
}
use split_wire.Cryptox.Words.{ror, words_at, words_bytes}

pub data HashError : Type 0 where
  bad_size key_too_long : HashError

abbrev pub blake_iv : List ℕ
blake_iv =
    0x6A09E667 ∷ 0xBB67AE85 ∷ 0x3C6EF372 ∷ 0xA54FF53A ∷ 0x510E527F ∷ 0x9B05688C ∷ 0x1F83D9AB
    ∷ 0x5BE0CD19 ∷ []

abbrev pub sigma : List (List ℕ)
sigma =
    (0 ∷ 1 ∷ 2 ∷ 3 ∷ 4 ∷ 5 ∷ 6 ∷ 7 ∷ 8 ∷ 9 ∷ 10 ∷ 11 ∷ 12 ∷ 13 ∷ 14 ∷ 15 ∷ [])
    ∷ (14 ∷ 10 ∷ 4 ∷ 8 ∷ 9 ∷ 15 ∷ 13 ∷ 6 ∷ 1 ∷ 12 ∷ 0 ∷ 2 ∷ 11 ∷ 7 ∷ 5 ∷ 3 ∷ [])
    ∷ (11 ∷ 8 ∷ 12 ∷ 0 ∷ 5 ∷ 2 ∷ 15 ∷ 13 ∷ 10 ∷ 14 ∷ 3 ∷ 6 ∷ 7 ∷ 1 ∷ 9 ∷ 4 ∷ [])
    ∷ (7 ∷ 9 ∷ 3 ∷ 1 ∷ 13 ∷ 12 ∷ 11 ∷ 14 ∷ 2 ∷ 6 ∷ 5 ∷ 10 ∷ 4 ∷ 0 ∷ 15 ∷ 8 ∷ [])
    ∷ (9 ∷ 0 ∷ 5 ∷ 7 ∷ 2 ∷ 4 ∷ 10 ∷ 15 ∷ 14 ∷ 1 ∷ 11 ∷ 12 ∷ 6 ∷ 8 ∷ 3 ∷ 13 ∷ [])
    ∷ (2 ∷ 12 ∷ 6 ∷ 10 ∷ 0 ∷ 11 ∷ 8 ∷ 3 ∷ 4 ∷ 13 ∷ 7 ∷ 5 ∷ 15 ∷ 14 ∷ 1 ∷ 9 ∷ [])
    ∷ (12 ∷ 5 ∷ 1 ∷ 15 ∷ 14 ∷ 13 ∷ 4 ∷ 10 ∷ 0 ∷ 7 ∷ 6 ∷ 3 ∷ 9 ∷ 2 ∷ 8 ∷ 11 ∷ [])
    ∷ (13 ∷ 11 ∷ 7 ∷ 14 ∷ 12 ∷ 1 ∷ 3 ∷ 9 ∷ 5 ∷ 0 ∷ 15 ∷ 4 ∷ 8 ∷ 6 ∷ 2 ∷ 10 ∷ [])
    ∷ (6 ∷ 15 ∷ 14 ∷ 9 ∷ 11 ∷ 3 ∷ 0 ∷ 8 ∷ 12 ∷ 2 ∷ 13 ∷ 7 ∷ 1 ∷ 4 ∷ 10 ∷ 5 ∷ [])
    ∷ (10 ∷ 2 ∷ 8 ∷ 4 ∷ 7 ∷ 6 ∷ 1 ∷ 5 ∷ 15 ∷ 11 ∷ 9 ∷ 14 ∷ 3 ∷ 12 ∷ 13 ∷ 0 ∷ [])
    ∷ []

-- `v[i] = v[i] + v[j] + x`, and `v[i] = ror(v[i] ^ v[j], n)`.
abbrev sum_word : ℕ → ℕ → ℕ → List ℕ → List ℕ
sum_word i j x v = set v i (u32 (u32 (get_or v i 0 + get_or v j 0) + x))

abbrev turn_word : ℕ → ℕ → ℕ → List ℕ → List ℕ
turn_word i j n v = set v i (ror (bit_xor (get_or v i 0) (get_or v j 0)) n)

unfoldable pub g : ℕ → ℕ → ℕ → ℕ → ℕ → ℕ → List ℕ → List ℕ
g a b c d x y v =
    let v1 = turn_word d a 16 (sum_word a b x v) in
    let v2 = turn_word b c 12 (sum_word c d 0 v1) in
    let v3 = turn_word d a 8 (sum_word a b y v2) in turn_word b c 7 (sum_word c d 0 v3)

-- One round, with the row of `sigma` that orders the words of the block.
unfoldable pub blake_round : List ℕ → List ℕ → List ℕ → List ℕ
unfolding g
blake_round m s v =
    let w = λ (i : ℕ). get_or m (get_or s i 0) 0 in
    let v1 = g 1 5 9 13 (w 2) (w 3) (g 0 4 8 12 (w 0) (w 1) v) in
    let v2 = g 3 7 11 15 (w 6) (w 7) (g 2 6 10 14 (w 4) (w 5) v1) in
    let v3 = g 1 6 11 12 (w 10) (w 11) (g 0 5 10 15 (w 8) (w 9) v2) in
    g 3 4 9 14 (w 14) (w 15) (g 2 7 8 13 (w 12) (w 13) v3)

unfoldable pub blake_rounds : List ℕ → List (List ℕ) → List ℕ → List ℕ
unfolding blake_round
blake_rounds m [] v = v
blake_rounds m (s ∷ rows) v = blake_rounds m rows (blake_round m s v)

-- `h[i] ^= v[i] ^ v[i+8]`, with the two halves of `v`.
abbrev pub fold_words : List ℕ → List ℕ → List ℕ → List ℕ
fold_words [] v w = []
fold_words (h ∷ hs) [] w = []
fold_words (h ∷ hs) (x ∷ v) [] = []
fold_words (h ∷ hs) (x ∷ v) (y ∷ w) = bit_xor h (bit_xor x y) ∷ fold_words hs v w

-- The words that a block starts from.
abbrev pub start_words : List ℕ → ℕ → Bool → List ℕ
start_words h t final =
    let v = h ++ blake_iv in
    let v1 = set v 12 (bit_xor (get_or v 12 0) (u32 t)) in
    let v2 = set v1 13 (bit_xor (get_or v1 13 0) (u32 (t / 2 ^ 32))) in
    if final then set v2 14 (2 ^ 32 - 1 - get_or v2 14 0) else v2

unfoldable pub compress : List ℕ → Bytes → ℕ → Bool → List ℕ
unfolding blake_rounds
compress h block t final =
    let v = blake_rounds (words_at 16 block 0) sigma (start_words h t final) in
    fold_words h v (drop 8 v)

-- The loop over the blocks, and the last one, filled up with zeros. `total` counts modulo 2 ^ 64.
unfoldable pub blake_blocks : ℕ → List ℕ → ℕ → Bytes → Outcome HashError (List ℕ)
unfolding compress
blake_blocks zero h total msg = out_of_fuel
blake_blocks (suc fuel) h total msg = elim (ltb 64 (length msg)) [
  | true ↦
      let total' = (total + 64) % 2 ^ 64 in
      blake_blocks fuel (compress h (take 64 msg) total' false) total' (drop 64 msg)
  | false ↦
      let block = write (replicate 64 0) 0 msg in
      ok (compress h block ((total + length msg) % 2 ^ 64) true)
]

-- The parameter word goes into the first word of the state.
abbrev pub first_words : ℕ → ℕ → List ℕ
first_words key_len out_len = set blake_iv 0 (
    bit_xor (get_or blake_iv 0 0)
      (bit_xor (bit_xor 0x01010000 (u32 (key_len * 2 ^ 8))) (u32 out_len)))

abbrev pub keyed_message : Bytes → Bytes → Bytes
keyed_message key msg = if ltb 0 (length key) then write (replicate 64 0) 0 key ++ msg else msg

-- For an empty message the source compresses a block of zeros, which is what the loop does too.
unfoldable pub blake2s : Bytes → Bytes → ℕ → Outcome HashError Bytes
unfolding blake_blocks
blake2s msg key out_len = do
  fail_if (ltb out_len 1 || ltb 32 out_len) bad_size
  fail_if (ltb 32 (length key)) key_too_long
  let whole = keyed_message key msg
  h ← blake_blocks (suc (length whole)) (first_words (length key) out_len) 0 whole
  ok (take out_len (words_bytes h))

-- The hash as an array of `n` bytes, which stays zero where there is none.
abbrev pub as_array : ℕ → Outcome HashError Bytes → Bytes
as_array n (ok x) = x
as_array n (err e) = replicate n 0
as_array n panic = replicate n 0
as_array n out_of_fuel = replicate n 0

unfoldable pub blake2s256 : Bytes → Bytes
unfolding blake2s
blake2s256 msg = as_array 32 (blake2s msg [] 32)

unfoldable pub blake2s128_keyed : Bytes → Bytes → Bytes
unfolding blake2s
blake2s128_keyed key msg = as_array 16 (blake2s msg key 16)

abbrev xor_pad : ℕ → Bytes → Bytes
xor_pad pad key = map (λ b. bit_xor pad b) (write (replicate 64 0) 0 key)

abbrev concat : List Bytes → Bytes
concat [] = []
concat (p ∷ parts) = p ++ concat parts

unfoldable pub hmac_blake2s : Bytes → List Bytes → Bytes
unfolding blake2s256
hmac_blake2s key parts =
    let short = if ltb 64 (length key) then blake2s256 key else key in
    let inner = blake2s256 (xor_pad 0x36 short ++ concat parts) in
    blake2s256 (xor_pad 0x5c short ++ inner)

unfoldable pub kdf1 : Bytes → Bytes → Bytes
unfolding hmac_blake2s
kdf1 key input = let prk = hmac_blake2s key (input ∷ []) in hmac_blake2s prk ((1 ∷ []) ∷ [])

unfoldable pub kdf2 : Bytes → Bytes → Bytes × Bytes
unfolding hmac_blake2s
kdf2 key input =
    let prk = hmac_blake2s key (input ∷ []) in
    let t0 = hmac_blake2s prk ((1 ∷ []) ∷ []) in (t0, hmac_blake2s prk (t0 ∷ (2 ∷ []) ∷ []))

unfoldable pub kdf3 : Bytes → Bytes → Bytes × Bytes × Bytes
unfolding hmac_blake2s
kdf3 key input =
    let prk = hmac_blake2s key (input ∷ []) in
    let t0 = hmac_blake2s prk ((1 ∷ []) ∷ []) in
    let t1 = hmac_blake2s prk (t0 ∷ (2 ∷ []) ∷ []) in
    (t0, t1, hmac_blake2s prk (t1 ∷ (3 ∷ []) ∷ []))
