-- ===== src/Cryptox/Aead.antt =====
-- internal/cryptox/aead_other.go and aead.go: ChaCha20-Poly1305 and XChaCha20-Poly1305. `big.Int` is
-- ℕ. On Windows `NewChaCha20Poly1305` asks the operating system instead (aead_windows.go), so the
-- latter stands on an interface.
use split_wire.Prelude.{
  Bytes, List, Option, Outcome, [], drop, err, fail_if, if◌then◌else◌, length, ltb, none, not, ok,
  replicate, some, suc, take, ℕ, ◌%◌, ◌*◌, ◌++◌, ◌+◌, ◌-◌, ◌/◌, ◌==◌, ◌>>=◌, ◌>>◌, ◌^◌, ◌||◌, ◌∷◌,
}
use split_wire.Text.{text_eq}
use split_wire.Cryptox.Chacha.{cha_cha_block, h_cha_cha20, xor_stream}
use split_wire.Cryptox.Words.{le_bytes}

pub data Error : Type 0 where
  bad_nonce auth_failed bad_xnonce no_cipher : Error

-- `leBig`.
unfoldable pub le_big : Bytes → ℕ
le_big [] = 0
le_big (x ∷ b) = x + 2 ^ 8 * le_big b

-- `& 15` on one byte in four, and `& 252` on the next, for the first half of a key.
abbrev clamp_byte : ℕ → ℕ → ℕ
clamp_byte i x =
    if (i == 3) || (i == 7) || (i == 11) || (i == 15)
    then x % 16
    else if (i == 4) || (i == 8) || (i == 12)
    then x / 4 * 4
    else x

abbrev pub clamp_from : ℕ → Bytes → Bytes
clamp_from i [] = []
clamp_from i (x ∷ b) = clamp_byte i x ∷ clamp_from (suc i) b

-- The blocks of 16 bytes that the loop of `poly1305Raw` takes off the message, the last one possibly
-- shorter. `block` is the part of the next one that was read.
unfoldable pub poly_blocks : Bytes → Bytes → List Bytes
poly_blocks block [] = if length block == 0 then [] else block ∷ []
poly_blocks block (x ∷ msg) =
    let next = poly_blocks [] msg in
    let rest = poly_blocks (block ++ x ∷ []) msg in
    if length block == 15 then (block ++ x ∷ []) ∷ next else rest

-- The loop's accumulator after each block.
unfoldable pub poly_rounds : ℕ → ℕ → List Bytes → ℕ
unfolding le_big
poly_rounds r acc [] = acc
poly_rounds r acc (block ∷ blocks) =
    poly_rounds r ((acc + le_big (block ++ 1 ∷ [])) * r % (2 ^ 130 - 5)) blocks

unfoldable pub poly1305_raw : Bytes → Bytes → Bytes
unfolding poly_rounds poly_blocks le_big
poly1305_raw key msg =
    let r = le_big (clamp_from 0 (take 16 key)) in
    let s = le_big (drop 16 key) in
    le_bytes 16 ((poly_rounds r 0 (poly_blocks [] msg) + s) % 2 ^ 128)

-- `for len(msg)%16 != 0 { msg = append(msg, 0) }`.
abbrev pub pad_zeros : Bytes → Bytes
pad_zeros msg = msg ++ replicate ((16 - length msg % 16) % 16) 0

-- The message that `poly1305Big` puts together.
abbrev pub auth_data : Bytes → Bytes → Bytes
auth_data aad ct =
    pad_zeros (pad_zeros aad ++ ct) ++ (le_bytes 8 (length aad) ++ le_bytes 8 (length ct))

unfoldable pub poly1305_big : Bytes → Bytes → Bytes → Bytes
unfolding poly1305_raw
poly1305_big key aad ct = poly1305_raw key (auth_data aad ct)

-- The one-time key of the tag.
abbrev pub poly_key : Bytes → Bytes → Bytes
poly_key key nonce = take 32 (cha_cha_block key 0 nonce)

unfoldable pub seal : Bytes → Bytes → Bytes → Bytes → Outcome Error Bytes
seal key nonce pt aad = do
  fail_if (not (length nonce == 12)) bad_nonce
  ct ← xor_stream key nonce 1 pt
  ok (ct ++ poly1305_big (poly_key key nonce) aad ct)

unfoldable pub open_sealed : Bytes → Bytes → Bytes → Bytes → Outcome Error Bytes
open_sealed key nonce ct aad = do
  fail_if (not (length nonce == 12) || ltb (length ct) 16) auth_failed
  let n = length ct - 16
  let tag = poly1305_big (poly_key key nonce) aad (take n ct)
  fail_if (not (text_eq tag (drop n ct))) auth_failed
  xor_stream key nonce 1 (take n ct)

-- The interface `AEAD`, for one key, and what its users rely on.
pub record Aead : Type 0 where
  pub seal : Bytes → Bytes → Bytes → Outcome Error Bytes
  pub open_sealed : Bytes → Bytes → Bytes → Outcome Error Bytes

-- `pureAEAD`.
abbrev pub pure_aead : Bytes → Aead
pure_aead key = record { seal = seal key; open_sealed = open_sealed key }

-- `xAEAD` over a constructor of ciphers for 12-byte nonces.
abbrev pub xnonce : Bytes → Bytes
xnonce nonce = replicate 4 0 ++ drop 16 nonce

-- What `NewChaCha20Poly1305` gives: a cipher, or none where it fails.
abbrev pub made_cipher : Option Aead → Outcome Error Aead
made_cipher none = err no_cipher
made_cipher (some c) = ok c

unfoldable pub xseal : (Bytes → Option Aead) → Bytes → Bytes → Bytes → Bytes → Outcome Error Bytes
xseal new key nonce pt aad = do
  fail_if (not (length nonce == 24)) bad_xnonce
  c ← made_cipher (new (h_cha_cha20 key (take 16 nonce)))
  c.seal (xnonce nonce) pt aad

unfoldable pub xopen : (Bytes → Option Aead) → Bytes → Bytes → Bytes → Bytes → Outcome Error Bytes
xopen new key nonce ct aad = do
  fail_if (not (length nonce == 24)) bad_xnonce
  c ← made_cipher (new (h_cha_cha20 key (take 16 nonce)))
  c.open_sealed (xnonce nonce) ct aad

abbrev pub xchacha : (Bytes → Option Aead) → Bytes → Aead
xchacha new key = record { seal = xseal new key; open_sealed = xopen new key }
