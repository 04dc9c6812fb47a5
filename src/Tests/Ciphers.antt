-- ===== src/Tests/Ciphers.antt =====
-- internal/cryptox: the test vectors of RFC 8439 and of XChaCha, and runs of the theorems.
use split_wire.Cryptox.Framing.{IsCollision, open_sealed-IsCollision}
use split_wire.Prelude.{
  Bytes, [], arith, length, ok, refl, replicate, take, ◌+◌, ◌-◌, ◌∷◌, ◌≡◌, ◌⊎◌,
}
use split_wire.Cryptox.Aead.{auth_data, poly_key, open_sealed, poly1305_big, seal}
use split_wire.Cryptox.Blake2s.{blake2s, blake2s128_keyed, blake2s256, hmac_blake2s}
use split_wire.Cryptox.Digest.{IsDigest, blake2s-IsDigest}
use split_wire.Cryptox.Chacha.{cha_cha_block, h_cha_cha20, xor_rounds}
use split_wire.Cryptox.Sealing.{open_sealed-seal, seal-open_sealed}
use split_wire.Text.{text_eq}

abbrev key : Bytes
key =
    0 ∷ 1 ∷ 2 ∷ 3 ∷ 4 ∷ 5 ∷ 6 ∷ 7 ∷ 8 ∷ 9 ∷ 10 ∷ 11 ∷ 12 ∷ 13 ∷ 14 ∷ 15 ∷ 16 ∷ 17 ∷ 18 ∷ 19 ∷ 20
    ∷ 21 ∷ 22 ∷ 23 ∷ 24 ∷ 25 ∷ 26 ∷ 27 ∷ 28 ∷ 29 ∷ 30 ∷ 31 ∷ []

block_vector :
    cha_cha_block key 1 (0 ∷ 0 ∷ 0 ∷ 9 ∷ 0 ∷ 0 ∷ 0 ∷ 74 ∷ 0 ∷ 0 ∷ 0 ∷ 0 ∷ [])
    ≡ 16 ∷ 241 ∷ 231 ∷ 228 ∷ 209 ∷ 59 ∷ 89 ∷ 21 ∷ 80 ∷ 15 ∷ 221 ∷ 31 ∷ 163 ∷ 32 ∷ 113 ∷ 196 ∷ 199
      ∷ 209 ∷ 244 ∷ 199 ∷ 51 ∷ 192 ∷ 104 ∷ 3 ∷ 4 ∷ 34 ∷ 170 ∷ 154 ∷ 195 ∷ 212 ∷ 108 ∷ 78 ∷ 210 ∷ 130
      ∷ 100 ∷ 70 ∷ 7 ∷ 159 ∷ 170 ∷ 9 ∷ 20 ∷ 194 ∷ 215 ∷ 5 ∷ 217 ∷ 139 ∷ 2 ∷ 162 ∷ 181 ∷ 18 ∷ 156
      ∷ 209 ∷ 222 ∷ 22 ∷ 78 ∷ 185 ∷ 203 ∷ 208 ∷ 131 ∷ 232 ∷ 162 ∷ 80 ∷ 60 ∷ 78 ∷ []
unfolding cha_cha_block
block_vector = refl

h_cha_cha20_vector :
    h_cha_cha20 key (0 ∷ 0 ∷ 0 ∷ 9 ∷ 0 ∷ 0 ∷ 0 ∷ 74 ∷ 0 ∷ 0 ∷ 0 ∷ 0 ∷ 49 ∷ 65 ∷ 89 ∷ 39 ∷ [])
    ≡ 130 ∷ 65 ∷ 59 ∷ 66 ∷ 39 ∷ 178 ∷ 123 ∷ 254 ∷ 211 ∷ 14 ∷ 66 ∷ 80 ∷ 138 ∷ 135 ∷ 125 ∷ 115 ∷ 160
      ∷ 249 ∷ 228 ∷ 213 ∷ 138 ∷ 116 ∷ 168 ∷ 83 ∷ 193 ∷ 46 ∷ 196 ∷ 19 ∷ 38 ∷ 211 ∷ 236 ∷ 220 ∷ []
unfolding h_cha_cha20
h_cha_cha20_vector = refl

abbrev aead_key : Bytes
aead_key =
    128 ∷ 129 ∷ 130 ∷ 131 ∷ 132 ∷ 133 ∷ 134 ∷ 135 ∷ 136 ∷ 137 ∷ 138 ∷ 139 ∷ 140 ∷ 141 ∷ 142 ∷ 143
    ∷ 144 ∷ 145 ∷ 146 ∷ 147 ∷ 148 ∷ 149 ∷ 150 ∷ 151 ∷ 152 ∷ 153 ∷ 154 ∷ 155 ∷ 156 ∷ 157 ∷ 158 ∷ 159
    ∷ []

abbrev nonce : Bytes
nonce = 7 ∷ 0 ∷ 0 ∷ 0 ∷ 64 ∷ 65 ∷ 66 ∷ 67 ∷ 68 ∷ 69 ∷ 70 ∷ 71 ∷ []

abbrev aad : Bytes
aad = 80 ∷ 81 ∷ 82 ∷ 83 ∷ 192 ∷ 193 ∷ 194 ∷ 195 ∷ 196 ∷ 197 ∷ 198 ∷ 199 ∷ []

abbrev plaintext : Bytes
plaintext =
    76 ∷ 97 ∷ 100 ∷ 105 ∷ 101 ∷ 115 ∷ 32 ∷ 97 ∷ 110 ∷ 100 ∷ 32 ∷ 71 ∷ 101 ∷ 110 ∷ 116 ∷ 108 ∷ 101
    ∷ 109 ∷ 101 ∷ 110 ∷ 32 ∷ 111 ∷ 102 ∷ 32 ∷ 116 ∷ 104 ∷ 101 ∷ 32 ∷ 99 ∷ 108 ∷ 97 ∷ 115 ∷ 115 ∷ 32
    ∷ 111 ∷ 102 ∷ 32 ∷ 39 ∷ 57 ∷ 57 ∷ 58 ∷ 32 ∷ 73 ∷ 102 ∷ 32 ∷ 73 ∷ 32 ∷ 99 ∷ 111 ∷ 117 ∷ 108 ∷ 100
    ∷ 32 ∷ 111 ∷ 102 ∷ 102 ∷ 101 ∷ 114 ∷ 32 ∷ 121 ∷ 111 ∷ 117 ∷ 32 ∷ 111 ∷ 110 ∷ 108 ∷ 121 ∷ 32
    ∷ 111 ∷ 110 ∷ 101 ∷ 32 ∷ 116 ∷ 105 ∷ 112 ∷ 32 ∷ 102 ∷ 111 ∷ 114 ∷ 32 ∷ 116 ∷ 104 ∷ 101 ∷ 32
    ∷ 102 ∷ 117 ∷ 116 ∷ 117 ∷ 114 ∷ 101 ∷ 44 ∷ 32 ∷ 115 ∷ 117 ∷ 110 ∷ 115 ∷ 99 ∷ 114 ∷ 101 ∷ 101
    ∷ 110 ∷ 32 ∷ 119 ∷ 111 ∷ 117 ∷ 108 ∷ 100 ∷ 32 ∷ 98 ∷ 101 ∷ 32 ∷ 105 ∷ 116 ∷ 46 ∷ []

abbrev ciphertext : Bytes
ciphertext =
    211 ∷ 26 ∷ 141 ∷ 52 ∷ 100 ∷ 142 ∷ 96 ∷ 219 ∷ 123 ∷ 134 ∷ 175 ∷ 188 ∷ 83 ∷ 239 ∷ 126 ∷ 194 ∷ 164
    ∷ 173 ∷ 237 ∷ 81 ∷ 41 ∷ 110 ∷ 8 ∷ 254 ∷ 169 ∷ 226 ∷ 181 ∷ 167 ∷ 54 ∷ 238 ∷ 98 ∷ 214 ∷ 61 ∷ 190
    ∷ 164 ∷ 94 ∷ 140 ∷ 169 ∷ 103 ∷ 18 ∷ 130 ∷ 250 ∷ 251 ∷ 105 ∷ 218 ∷ 146 ∷ 114 ∷ 139 ∷ 26 ∷ 113
    ∷ 222 ∷ 10 ∷ 158 ∷ 6 ∷ 11 ∷ 41 ∷ 5 ∷ 214 ∷ 165 ∷ 182 ∷ 126 ∷ 205 ∷ 59 ∷ 54 ∷ 146 ∷ 221 ∷ 189
    ∷ 127 ∷ 45 ∷ 119 ∷ 139 ∷ 140 ∷ 152 ∷ 3 ∷ 174 ∷ 227 ∷ 40 ∷ 9 ∷ 27 ∷ 88 ∷ 250 ∷ 179 ∷ 36 ∷ 228
    ∷ 250 ∷ 214 ∷ 117 ∷ 148 ∷ 85 ∷ 133 ∷ 128 ∷ 139 ∷ 72 ∷ 49 ∷ 215 ∷ 188 ∷ 63 ∷ 244 ∷ 222 ∷ 240
    ∷ 142 ∷ 75 ∷ 122 ∷ 157 ∷ 229 ∷ 118 ∷ 210 ∷ 101 ∷ 134 ∷ 206 ∷ 198 ∷ 75 ∷ 97 ∷ 22 ∷ 26 ∷ 225 ∷ 11
    ∷ 89 ∷ 79 ∷ 9 ∷ 226 ∷ 106 ∷ 126 ∷ 144 ∷ 46 ∷ 203 ∷ 208 ∷ 96 ∷ 6 ∷ 145 ∷ []

seal_vector : seal aead_key nonce plaintext aad ≡ ok ciphertext
unfolding seal cha_cha_block xor_rounds poly1305_big
seal_vector = refl

blake2s256_vector :
    blake2s256 (97 ∷ 98 ∷ 99 ∷ [])
    ≡ 80 ∷ 140 ∷ 94 ∷ 140 ∷ 50 ∷ 124 ∷ 20 ∷ 226 ∷ 225 ∷ 167 ∷ 43 ∷ 163 ∷ 78 ∷ 235 ∷ 69 ∷ 47 ∷ 55
      ∷ 69 ∷ 139 ∷ 32 ∷ 158 ∷ 214 ∷ 58 ∷ 41 ∷ 77 ∷ 153 ∷ 155 ∷ 76 ∷ 134 ∷ 103 ∷ 89 ∷ 130 ∷ []
unfolding blake2s256
blake2s256_vector = refl

blake2s256_empty :
    blake2s256 []
    ≡ 105 ∷ 33 ∷ 122 ∷ 48 ∷ 121 ∷ 144 ∷ 128 ∷ 148 ∷ 225 ∷ 17 ∷ 33 ∷ 208 ∷ 66 ∷ 53 ∷ 74 ∷ 124 ∷ 31
      ∷ 85 ∷ 182 ∷ 72 ∷ 44 ∷ 161 ∷ 165 ∷ 30 ∷ 27 ∷ 37 ∷ 13 ∷ 253 ∷ 30 ∷ 208 ∷ 238 ∷ 249 ∷ []
unfolding blake2s256
blake2s256_empty = refl

-- A key and two blocks of text.
blake2s128_keyed_vector :
    blake2s128_keyed key (replicate 70 120)
    ≡ 76 ∷ 171 ∷ 114 ∷ 232 ∷ 11 ∷ 12 ∷ 149 ∷ 108 ∷ 37 ∷ 27 ∷ 47 ∷ 211 ∷ 129 ∷ 97 ∷ 93 ∷ 6 ∷ []
unfolding blake2s128_keyed
blake2s128_keyed_vector = refl

hmac_blake2s_vector :
    hmac_blake2s (107 ∷ 101 ∷ 121 ∷ []) ((104 ∷ []) ∷ (105 ∷ []) ∷ [])
    ≡ 213 ∷ 227 ∷ 231 ∷ 2 ∷ 186 ∷ 10 ∷ 246 ∷ 232 ∷ 9 ∷ 24 ∷ 158 ∷ 1 ∷ 235 ∷ 165 ∷ 235 ∷ 114 ∷ 130
      ∷ 40 ∷ 251 ∷ 107 ∷ 148 ∷ 79 ∷ 141 ∷ 12 ∷ 234 ∷ 15 ∷ 234 ∷ 105 ∷ 183 ∷ 8 ∷ 6 ∷ 33 ∷ []
unfolding hmac_blake2s
hmac_blake2s_vector = refl

open_vector : open_sealed aead_key nonce ciphertext aad ≡ ok plaintext
unfolding open_sealed cha_cha_block xor_rounds poly1305_big text_eq
open_vector = refl

open_sealed-seal_example :
    (ct : Bytes) × (seal aead_key nonce plaintext aad ≡ ok ct)
    × (length ct ≡ length plaintext + 16)
    × (open_sealed aead_key nonce ct aad ≡ ok plaintext)
open_sealed-seal_example = open_sealed-seal aead_key nonce plaintext aad refl

seal-open_sealed_example : seal aead_key nonce plaintext aad ≡ ok ciphertext
seal-open_sealed_example = seal-open_sealed aead_key nonce ciphertext aad plaintext open_vector

blake2s-IsDigest_example : IsDigest 32 16 (blake2s (replicate 70 120) key 16)
blake2s-IsDigest_example = blake2s-IsDigest (replicate 70 120) key 16

open_sealed-IsCollision_example :
    ((ciphertext ≡ ciphertext) × (aad ≡ aad))
    ⊎ IsCollision
        (poly_key aead_key nonce)
        (auth_data aad (take (length ciphertext - 16) ciphertext))
        (auth_data aad (take (length ciphertext - 16) ciphertext))
open_sealed-IsCollision_example =
    open_sealed-IsCollision aead_key nonce ciphertext aad plaintext ciphertext aad plaintext
      (omega arith) (omega arith) (omega arith) (omega arith) open_vector open_vector refl
