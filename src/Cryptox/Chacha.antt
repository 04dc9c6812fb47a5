-- ===== src/Cryptox/Chacha.antt =====
-- internal/cryptox/chacha_core.go: the block function of ChaCha20, HChaCha20 and the key stream. A
-- key has 32 bytes and a nonce 12, or 16 for `h_cha_cha20`: the callers check it.
use split_wire.Prelude.{
  Bytes, List, Outcome, [], bit_xor, drop, get_or, length, ok, out_of_fuel, set, suc, take, u32,
  zero, ℕ, ◌++◌, ◌+◌, ◌>>=◌, ◌∷◌,
}
use split_wire.Cryptox.Words.{words_at, words_bytes, rol}

-- `"expand 32-byte k"`.
abbrev pub constants : List ℕ
constants = 0x61707865 ∷ 0x3320646e ∷ 0x79622d32 ∷ 0x6b206574 ∷ []

-- `x[i] += x[j]`, and `x[i] = rol(x[i] ^ x[j], n)`.
abbrev add_word : ℕ → ℕ → List ℕ → List ℕ
add_word i j x = set x i (u32 (get_or x i 0 + get_or x j 0))

abbrev mix_word : ℕ → ℕ → ℕ → List ℕ → List ℕ
mix_word i j n x = set x i (rol (bit_xor (get_or x i 0) (get_or x j 0)) n)

unfoldable pub qr : ℕ → ℕ → ℕ → ℕ → List ℕ → List ℕ
qr a b c d x =
    let x1 = mix_word d a 16 (add_word a b x) in
    let x2 = mix_word b c 12 (add_word c d x1) in
    let x3 = mix_word d a 8 (add_word a b x2) in mix_word b c 7 (add_word c d x3)

unfoldable pub double_round : List ℕ → List ℕ
unfolding qr
double_round x =
    let columns = qr 3 7 11 15 (qr 2 6 10 14 (qr 1 5 9 13 (qr 0 4 8 12 x))) in
    qr 3 4 9 14 (qr 2 7 8 13 (qr 1 6 11 12 (qr 0 5 10 15 columns)))

unfoldable pub rounds : ℕ → List ℕ → List ℕ
rounds zero x = x
rounds (suc n) x = rounds n (double_round x)

abbrev pub add_words : List ℕ → List ℕ → List ℕ
add_words [] ys = []
add_words (x ∷ xs) [] = []
add_words (x ∷ xs) (y ∷ ys) = u32 (x + y) ∷ add_words xs ys

unfoldable pub cha_cha_block : Bytes → ℕ → Bytes → Bytes
unfolding rounds double_round qr
cha_cha_block key counter nonce =
    let s = constants ++ (words_at 8 key 0 ++ (counter ∷ words_at 3 nonce 0)) in
    words_bytes (add_words (rounds 10 s) s)

unfoldable pub h_cha_cha20 : Bytes → Bytes → Bytes
unfolding rounds double_round qr
h_cha_cha20 key nonce =
    let x = rounds 10 (constants ++ (words_at 8 key 0 ++ words_at 4 nonce 0)) in
    words_bytes (take 4 x ++ drop 12 x)

-- The bytes of `src` with the key stream, as far as it goes.
abbrev pub xor_bytes : Bytes → Bytes → Bytes
xor_bytes [] b = []
xor_bytes (x ∷ src) [] = []
xor_bytes (x ∷ src) (y ∷ b) = bit_xor x y ∷ xor_bytes src b

-- The loop of `xorStream`: each round takes 64 bytes of `src`, or what is left.
unfoldable pub xor_rounds : {E : Type 0} → ℕ → Bytes → ℕ → Bytes → Bytes → Outcome E Bytes
xor_rounds fuel key counter nonce [] = ok []
xor_rounds zero key counter nonce (x ∷ src) = out_of_fuel
xor_rounds (suc fuel) key counter nonce (x ∷ src) = do
  rest ← xor_rounds fuel key (u32 (counter + 1)) nonce (drop 64 (x ∷ src))
  ok (xor_bytes (take 64 (x ∷ src)) (cha_cha_block key counter nonce) ++ rest)

abbrev pub xor_stream : {E : Type 0} → Bytes → Bytes → ℕ → Bytes → Outcome E Bytes
xor_stream key nonce counter src = xor_rounds (length src) key counter nonce src
