-- ===== src/Cryptox/Framing.antt =====
-- internal/cryptox/aead_other.go: what the tag of the AEAD is bound to. The message that poly1305Big
-- authenticates has the additional data and the text in it, padded, with both lengths at its end.
use split_wire.Prelude.{
  Bool-cases, Bytes, [], ap, ap₂, arith, drop, inl, inr, length, length-append, length-take, ok,
  refl, replicate, subst, suc, sym, take, take-append-drop, true, zero, ℕ, ◌%◌, ◌++◌, ◌+◌, ◌-◌, ◌/◌,
  ◌<◌, ◌^◌, ◌∙◌, ◌∷◌, ◌≡◌, ◌⊎◌,
}
use split_wire.Cryptox.Aead.{
  poly_key, poly1305_raw, poly1305_big, open_sealed, auth_data, pad_zeros,
}
use split_wire.Cryptox.Sealing.{text_eq_same, eq_of_text_eq, length-le_bytes}
use split_wire.Text.{text_eq}
use split_wire.Cryptox.Words.{le_bytes}

abbrev head_of : ℕ → Bytes → ℕ
head_of d [] = d
head_of d (x ∷ b) = x

abbrev tail_of : Bytes → Bytes
tail_of [] = []
tail_of (x ∷ b) = b

append_parts : (a b x y : Bytes) → length a ≡ length b → a ++ x ≡ b ++ y → (a ≡ b) × (x ≡ y)
append_parts [] [] x y l e = (refl, e)
append_parts [] (d ∷ b) x y l e = absurd (omega (arith, l))
append_parts (c ∷ a) [] x y l e = absurd (omega (arith, l))
append_parts (c ∷ a) (d ∷ b) x y l e =
    let (p, q) = append_parts a b x y (omega (arith, l)) (ap tail_of e) in
    (ground (arith, p, ap (head_of 0) e), q)

le_bytes_same : (n x y : ℕ) → x < 256 ^ n → y < 256 ^ n → le_bytes n x ≡ le_bytes n y → x ≡ y
le_bytes_same zero x y h k e = omega (arith, h, k)
le_bytes_same (suc n) x y h k e =
    let low : x % 256 ≡ y % 256 = ap (head_of 0) e in
    let high : x / 256 ≡ y / 256 =
      le_bytes_same n (x / 256) (y / 256) (omega (arith, h)) (omega (arith, k)) (ap tail_of e) in
    omega (arith, low, high)

length-pad_zeros : (a b : Bytes) → length a ≡ length b → length (pad_zeros a) ≡ length (pad_zeros b)
length-pad_zeros a b l =
    let zeros : ℕ → Bytes = λ n. replicate ((16 - n % 16) % 16) 0 in
    length-append a (zeros (length a))
    ∙ (ap (λ (n : ℕ). n + length (zeros n)) l ∙ sym (length-append b (zeros (length b))))

auth_data_same :
    (aad aad' ct ct' : Bytes)
    → length aad < 2 ^ 64
    → length aad' < 2 ^ 64
    → length ct < 2 ^ 64
    → length ct' < 2 ^ 64
    → auth_data aad ct ≡ auth_data aad' ct'
    → (aad ≡ aad') × (ct ≡ ct')
auth_data_same aad aad' ct ct' ha ha' hc hc' e =
    let a8 = le_bytes 8 (length aad) in
    let b8 = le_bytes 8 (length aad') in
    let a9 = le_bytes 8 (length ct) in
    let b9 = le_bytes 8 (length ct') in
    let la = length-le_bytes 8 (length aad) in
    let lb = length-le_bytes 8 (length aad') in
    let lc = length-le_bytes 8 (length ct) in
    let ld = length-le_bytes 8 (length ct') in
    let p = pad_zeros (pad_zeros aad ++ ct) in
    let q = pad_zeros (pad_zeros aad' ++ ct') in
    let total = ap length e in
    let sides : length p ≡ length q = omega (
      arith,
      total,
      length-append p (a8 ++ a9),
      length-append q (b8 ++ b9),
      length-append a8 a9,
      length-append b8 b9,
      la,
      lb,
      lc,
      ld,
    ) in
    let (front, sizes) = append_parts p q (a8 ++ a9) (b8 ++ b9) sides e in
    let (first, second) = append_parts a8 b8 a9 b9 (la ∙ sym lb) sizes in
    let l1 : length aad ≡ length aad' = le_bytes_same 8 (length aad) (length aad') ha ha' first in
    let l2 : length ct ≡ length ct' = le_bytes_same 8 (length ct) (length ct') hc hc' second in
    let l3 = length-pad_zeros aad aad' l1 in
    let l4 : length (pad_zeros aad ++ ct) ≡ length (pad_zeros aad' ++ ct') =
      omega (arith, l2, l3, length-append (pad_zeros aad) ct, length-append (pad_zeros aad') ct') in
    let (both, _) =
      append_parts (pad_zeros aad ++ ct) (pad_zeros aad' ++ ct')
        (replicate ((16 - length (pad_zeros aad ++ ct) % 16) % 16) 0)
        (replicate ((16 - length (pad_zeros aad' ++ ct') % 16) % 16) 0) l4 front in
    let (padded, texts) = append_parts (pad_zeros aad) (pad_zeros aad') ct ct' l3 both in
    let (same, _) =
      append_parts aad aad' (replicate ((16 - length aad % 16) % 16) 0)
        (replicate ((16 - length aad' % 16) % 16) 0) l1 padded in
    (same, texts)

-- Two different messages with one Poly1305 tag under the key.
pub IsCollision : Bytes → Bytes → Bytes → Type 0
IsCollision key m m' = ¬ (m ≡ m') × (poly1305_raw key m ≡ poly1305_raw key m')

drop-open_sealed :
    (key nonce ct aad pt : Bytes)
    → open_sealed key nonce ct aad ≡ ok pt
    → drop (length ct - 16) ct
      ≡ poly1305_raw (poly_key key nonce) (auth_data aad (take (length ct - 16) ct))
unfolding open_sealed poly1305_big
drop-open_sealed key nonce ct aad pt h =
    let n = length ct - 16 in
    let tag = poly1305_big (poly_key key nonce) aad (take n ct) in
    elim (Bool-cases (text_eq tag (drop n ct))) [
      | inl same ↦ sym (eq_of_text_eq tag (drop n ct) same)
      | inr other ↦ absurd (ground arith)
    ]

-- Let `Open` accept two byte strings with the same tag under one key and nonce, each with its
-- additional data, all shorter than 2 ^ 64. Then they are the same, with the same additional data, or
-- the messages that `poly1305Big` makes of them are two different messages with the same tag: who
-- changes the sealed bytes, the additional data or the border between them, and keeps the tag, has
-- found a collision of Poly1305.
pub open_sealed-IsCollision :
    (key nonce ct aad pt ct' aad' pt' : Bytes)
    → length aad < 2 ^ 64
    → length aad' < 2 ^ 64
    → length ct < 2 ^ 64
    → length ct' < 2 ^ 64
    → open_sealed key nonce ct aad ≡ ok pt
    → open_sealed key nonce ct' aad' ≡ ok pt'
    → drop (length ct - 16) ct ≡ drop (length ct' - 16) ct'
    → ((ct ≡ ct') × (aad ≡ aad'))
      ⊎ IsCollision
          (poly_key key nonce)
          (auth_data aad (take (length ct - 16) ct))
          (auth_data aad' (take (length ct' - 16) ct'))
unfolding IsCollision
open_sealed-IsCollision key nonce ct aad pt ct' aad' pt' ha ha' hc hc' e f same_tag =
    let c0 = take (length ct - 16) ct in
    let c1 = take (length ct' - 16) ct' in
    let s0 : length c0 < 2 ^ 64 = omega (arith, length-take (length ct - 16) ct) in
    let s1 : length c1 < 2 ^ 64 = omega (arith, length-take (length ct' - 16) ct') in
    let m = auth_data aad c0 in
    let m' = auth_data aad' c1 in
    elim (Bool-cases (text_eq m m')) [
      | inl same ↦
          let (a, c) = auth_data_same aad aad' c0 c1 ha ha' s0 s1 (eq_of_text_eq m m' same) in
          inl (
            sym (take-append-drop (length ct - 16) ct)
                ∙ (ap₂ (λ (x y : Bytes). x ++ y) c same_tag
                    ∙ take-append-drop (length ct' - 16) ct'),
            a,
          )
      | inr other ↦ inr (
        (λ e. ground (arith, subst (λ x. text_eq m x ≡ true) e (text_eq_same m))),
        sym (drop-open_sealed key nonce ct aad pt e)
            ∙ (same_tag ∙ drop-open_sealed key nonce ct' aad' pt' f),
      )
    ]
