-- ===== src/Config/Wildcard.antt =====
-- internal/config/config.go: which hosts a pattern `*.base` matches.
use split_wire.Prelude.{
  Bool-cases, [], ap, ap₂, arith, false, inl, inr, length, length-append, refl, reverse, sym, true,
  ℕ, ◌++◌, ◌↔◌, ◌∙◌, ◌∷◌, ◌≡◌,
}
use mathlib.Core.List.{reverse-append, reverse-reverse}
use split_wire.Text.{has_prefix, has_suffix, text_eq, Text}
use split_wire.Config.{match_normalized}

has_prefix-append : (p r : Text) → has_prefix p (p ++ r) ≡ true
unfolding has_prefix
has_prefix-append [] r = refl
has_prefix-append (c ∷ p) r = ground (arith, has_prefix-append p r)

has_prefix_rest : (p s : Text) → has_prefix p s ≡ true → (r : Text) × (s ≡ p ++ r)
unfolding has_prefix
has_prefix_rest [] s h = (s, refl)
has_prefix_rest (c ∷ p) [] h = cc
has_prefix_rest (c ∷ p) (d ∷ s) h =
    let (r, e) = has_prefix_rest p s (ground arith) in
    let same : d ≡ c = ground arith in (r, ap₂ (λ (x : ℕ) (xs : Text). x ∷ xs) same e)

text_eq-length : (s t : Text) → text_eq s t ≡ true → length s ≡ length t
unfolding text_eq
text_eq-length [] [] h = refl
text_eq-length [] (d ∷ t) h = cc
text_eq-length (c ∷ s) [] h = cc
text_eq-length (c ∷ s) (d ∷ t) h = ground (arith, text_eq-length s t)

has_suffix-append : (x s : Text) → has_suffix s (x ++ s) ≡ true
unfolding has_suffix
has_suffix-append x s =
    ap (has_prefix (reverse s)) (reverse-append x s) ∙ has_prefix-append (reverse s) (reverse x)

has_suffix_rest : (s h : Text) → has_suffix s h ≡ true → (x : Text) × (h ≡ x ++ s)
unfolding has_suffix
has_suffix_rest s h e =
    let (r, f) = has_prefix_rest (reverse s) (reverse h) e in
    (
      reverse r,
      sym (reverse-reverse h)
          ∙ ap reverse f
          ∙ reverse-append (reverse s) r
          ∙ ap (λ (t : Text). reverse r ++ t) (reverse-reverse s),
    )

longer_base : (base x : Text) → text_eq (x ++ b'.' ∷ base) base ≡ false
longer_base base x = elim (Bool-cases (text_eq (x ++ b'.' ∷ base) base)) [
  | inl e ↦
      absurd
        (omega (arith, text_eq-length (x ++ b'.' ∷ base) base e, length-append x (b'.' ∷ base)))
  | inr e ↦ e
]

-- On normalized names, the pattern `*.base` matches exactly the hosts that end in `.base`: the
-- subdomains of `base`, at any depth, and not `base` itself or a name that merely ends like it.
pub match_wildcard :
    (base h : Text)
    → (match_normalized (b'*' ∷ b'.' ∷ base) h ≡ true) ↔ ((x : Text) × (h ≡ x ++ b'.' ∷ base))
unfolding match_normalized has_prefix text_eq
match_wildcard base h =
    let from : match_normalized (b'*' ∷ b'.' ∷ base) h ≡ true
        → (x : Text) × (h ≡ x ++ b'.' ∷ base) =
      λ e. has_suffix_rest (b'.' ∷ base) h (ground arith) in
    let to : (x : Text) × (h ≡ x ++ b'.' ∷ base) → match_normalized (b'*' ∷ b'.' ∷ base) h ≡ true =
      λ (x, e). rw e (ground (arith, longer_base base x, has_suffix-append x (b'.' ∷ base))) in
    (from, to)
