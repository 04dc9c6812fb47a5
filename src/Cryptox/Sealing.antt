-- ===== src/Cryptox/Sealing.antt =====
-- internal/cryptox/aead_other.go and aead.go: `Seal` and `Open` against each other.
use split_wire.Prelude.{
  Bool-cases, Bytes, [], ap, ap₂, arith, drop, inl, inr, length, length-append, ok, refl, suc, sym,
  take, take-append-drop, true, zero, ℕ, ℕ_discrete, ◌%◌, ◌++◌, ◌+◌, ◌-◌, ◌/◌, ◌^◌, ◌∙◌, ◌∷◌, ◌≡◌,
}
use split_wire.Cryptox.Aead.{
  seal, Aead, Error, open_sealed, poly1305_big, poly1305_raw, poly_key, pure_aead, clamp_from,
  le_big, pad_zeros, poly_blocks, poly_rounds,
}
use split_wire.Text.{text_eq, Text}
use split_wire.Cryptox.Chacha.{xor_rounds, xor_stream}
use split_wire.Cryptox.Stream.{take-append_rest, xor_rounds_twice}
use split_wire.Cryptox.Words.{le_bytes}

pub text_eq_same : (s : Text) → text_eq s s ≡ true
unfolding text_eq
text_eq_same [] = refl
text_eq_same (c ∷ s) = ground (arith, text_eq_same s)

pub eq_of_text_eq : (s t : Text) → text_eq s t ≡ true → s ≡ t
unfolding text_eq
eq_of_text_eq [] [] h = refl
eq_of_text_eq [] (d ∷ t) h = cc
eq_of_text_eq (c ∷ s) [] h = cc
eq_of_text_eq (c ∷ s) (d ∷ t) h =
    let same : c ≡ d = ground arith in
    ap₂ (λ (x : ℕ) (xs : Text). x ∷ xs) same (eq_of_text_eq s t (ground arith))

pub length-le_bytes : (n x : ℕ) → length (le_bytes n x) ≡ n
length-le_bytes zero x = refl
length-le_bytes (suc n) x = omega (arith, length-le_bytes n (x / 2 ^ 8))

length-poly1305_raw : (key msg : Bytes) → length (poly1305_raw key msg) ≡ 16
unfolding poly1305_raw
length-poly1305_raw key msg = omega (
  arith,
  length-le_bytes 16 (
      (poly_rounds (le_big (clamp_from 0 (take 16 key))) 0 (poly_blocks [] msg)
        + le_big (drop 16 key))
      % 2 ^ 128),
)

length-poly1305_big : (key aad ct : Bytes) → length (poly1305_big key aad ct) ≡ 16
unfolding poly1305_big
length-poly1305_big key aad ct =
    length-poly1305_raw key
      (pad_zeros (pad_zeros aad ++ ct) ++ (le_bytes 8 (length aad) ++ le_bytes 8 (length ct)))

module _ (key nonce : Bytes) where
  -- The key stream over a text, and over what it gives.
  xor_stream_twice :
      (src : Bytes)
      → (c : Bytes) × (xor_stream {E = Error} key nonce 1 src ≡ ok c)
        × (length c ≡ length src)
        × (xor_stream {E = Error} key nonce 1 c ≡ ok src)
  xor_stream_twice src =
      let (c, e, l, back) =
        xor_rounds_twice {E = Error} key nonce (length src) 1 src (omega arith) in
      (c, e, l, ap (λ fuel. xor_rounds {E = Error} fuel key 1 nonce c) l ∙ back)

  -- With a nonce of 12 bytes `Seal` succeeds for every text and additional data, its result is 16
  -- bytes longer than the text, and `Open` gives the text back.
  pub open_sealed-seal :
      (pt aad : Bytes)
      → length nonce ≡ 12
      → (ct : Bytes) × (seal key nonce pt aad ≡ ok ct)
        × (length ct ≡ length pt + 16)
        × (open_sealed key nonce ct aad ≡ ok pt)
  unfolding seal open_sealed
  open_sealed-seal pt aad h =
      let (c, e, l, back) = xor_stream_twice pt in
      let tag = poly1305_big (poly_key key nonce) aad c in
      let size = length-poly1305_big (poly_key key nonce) aad c in
      let n : length (c ++ tag) - 16 ≡ length c = omega (arith, length-append c tag, size) in
      let (front, behind) =
        take-append_rest (length c) c tag (omega arith) (λ lt. absurd (omega arith)) in
      (
        c ++ tag,
        ground (arith, e),
        omega (arith, length-append c tag, size, l),
        ground (
          arith,
          length-append c tag,
          size,
          ap (λ (k : ℕ). take k (c ++ tag)) n ∙ front,
          ap (λ (k : ℕ). drop k (c ++ tag)) n ∙ behind,
          text_eq_same tag,
          back,
        ),
      )

  -- What `Open` accepts, with the text that it returns, `Seal` makes of that text under the same key,
  -- nonce and additional data.
  pub seal-open_sealed :
      (ct aad pt : Bytes) → open_sealed key nonce ct aad ≡ ok pt → seal key nonce pt aad ≡ ok ct
  unfolding seal open_sealed
  seal-open_sealed ct aad pt h =
      let n = length ct - 16 in
      let c0 = take n ct in
      let tag = poly1305_big (poly_key key nonce) aad c0 in
      let (c, e, l, back) = xor_stream_twice c0 in
      elim (Bool-cases (text_eq tag (drop n ct))) [
        | inl same ↦
            let same_tag : tag ≡ drop n ct = eq_of_text_eq tag (drop n ct) same in
            let joined : c0 ++ tag ≡ ct = ap (λ t. c0 ++ t) same_tag ∙ take-append-drop n ct in
            let shown : pt ≡ c = ground arith in
            ground (arith, joined, ap (λ b. xor_stream {E = Error} key nonce 1 b) shown ∙ back)
        | inr other ↦ absurd (ground arith)
      ]

seal_bad_nonce :
    (key nonce pt aad ct : Bytes) → ¬ (length nonce ≡ 12) → ¬ (seal key nonce pt aad ≡ ok ct)
unfolding seal
seal_bad_nonce key nonce pt aad ct h e = ground arith

-- What the users of a cipher rely on.
pub record IsSound (c : Aead) : Type 0 where
  pub opens_sealed :
      (nonce pt aad ct : Bytes) → c.seal nonce pt aad ≡ ok ct → c.open_sealed nonce ct aad ≡ ok pt
  pub sealed_opens :
      (nonce ct aad pt : Bytes) → c.open_sealed nonce ct aad ≡ ok pt → c.seal nonce pt aad ≡ ok ct

pub pure_aead-IsSound : (key : Bytes) → IsSound (pure_aead key)
pure_aead-IsSound key = record {
  opens_sealed = λ nonce pt aad ct e. elim (ℕ_discrete (length nonce) 12) [
    | yes h ↦
        let (c, f, l, g) = open_sealed-seal key nonce pt aad h in
        let same : c ≡ ct = ground arith in ap (λ b. open_sealed key nonce b aad) (sym same) ∙ g
    | no h ↦ absurd (seal_bad_nonce key nonce pt aad ct h e)
  ];
  sealed_opens = λ nonce ct aad pt e. seal-open_sealed key nonce ct aad pt e;
}
