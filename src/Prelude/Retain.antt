-- ===== src/Prelude/Retain.antt =====
-- Go's loop that deletes from a map the entries that a test rejects.
use mathlib.Core.Path.{◌≡◌, refl, ap, sym, ◌∙◌}
use mathlib.Core.Logic.{ite, ◌⊎◌, inl, inr}
use mathlib.Core.Bool.{Bool}
use mathlib.Core.List.{List, [], ◌∷◌, map}
use mathlib.Core.Option.{Option, none, some}
use native.Mathlib.Omega.{arith}
use split_wire.Prelude.Tests.{if◌then◌else◌}
use split_wire.Prelude.Maps.{Dict, lookup, delete, lookup-delete}

abbrev pub if_kept : {V : Type 0} → (V → Bool) → Option V → Option V
if_kept keep none = none
if_kept keep (some v) = if keep v then some v else none

module _ {K V : Type 0} (same : Discrete K) (keep : V → Bool) where
  -- One round, for the key `k`.
  unfoldable pub retain_key : K → Dict K V → Dict K V
  retain_key k m = elim (lookup same k m) [
    | none ↦ m
    | some v ↦ if keep v then m else delete same k m
  ]

  unfoldable pub retain_keys : List K → Dict K V → Dict K V
  retain_keys [] m = m
  retain_keys (k ∷ keys) m = retain_keys keys (retain_key k m)

  unfoldable pub retain : Dict K V → Dict K V
  retain m = retain_keys (map (λ e. e.0) m) m

  lookup-retain_key :
      (j k : K) (m : Dict K V)
      → lookup same k (retain_key j m)
        ≡ ite (same j k) (if_kept keep (lookup same k m)) (lookup same k m)
  unfolding retain_key
  lookup-retain_key j k m = ground (arith, lookup-delete same j k m)

  abbrev Listed : K → List K → Type 0
  Listed k [] = ⊥
  Listed k (j ∷ keys) = (j ≡ k) ⊎ Listed k keys

  lookup-Listed :
      (k : K) (m : Dict K V) {v : V} → lookup same k m ≡ some v → Listed k (map (λ e. e.0) m)
  unfolding lookup
  lookup-Listed k [] {v} e = cc
  lookup-Listed k ((j, w) ∷ m) {v} e = elim (same j k) [
    | yes p ↦ inl p
    | no ne ↦ inr (lookup-Listed k m {v = v} (ground arith))
  ]

  retain_keys_fixed :
      (keys : List K) (k : K) (m : Dict K V)
      → lookup same k m ≡ if_kept keep (lookup same k m)
      → lookup same k (retain_keys keys m) ≡ lookup same k m
  unfolding retain_keys
  retain_keys_fixed [] k m e = refl
  retain_keys_fixed (j ∷ keys) k m e =
      let l : lookup same k (retain_key j m) ≡ lookup same k m =
        ground (arith, lookup-retain_key j k m) in
      retain_keys_fixed keys k (retain_key j m) (l ∙ e ∙ ap (if_kept keep) (sym l)) ∙ l

  kept_twice : (o : Option V) → if_kept keep o ≡ if_kept keep (if_kept keep o)
  kept_twice none = refl
  kept_twice (some v) = ground arith

  retain_keys-Listed :
      (keys : List K) (k : K) (m : Dict K V)
      → Listed k keys
      → lookup same k (retain_keys keys m) ≡ if_kept keep (lookup same k m)
  unfolding retain_keys
  retain_keys-Listed [] k m h = elim h [ ]
  retain_keys-Listed (j ∷ keys) k m h = elim (same j k) [
    | yes p ↦
        let l : lookup same k (retain_key j m) ≡ if_kept keep (lookup same k m) =
          ground (arith, lookup-retain_key j k m) in
        retain_keys_fixed keys k (retain_key j m)
          (l ∙ kept_twice (lookup same k m) ∙ ap (if_kept keep) (sym l))
        ∙ l
    | no ne ↦ elim h [
      | inl p ↦ absurd (ne p)
      | inr rest ↦
          let l : lookup same k (retain_key j m) ≡ lookup same k m =
            ground (arith, lookup-retain_key j k m) in
          retain_keys-Listed keys k (retain_key j m) rest ∙ ap (if_kept keep) l
    ]
  ]

  pub lookup-retain :
      (k : K) (m : Dict K V) → lookup same k (retain m) ≡ if_kept keep (lookup same k m)
  unfolding retain
  lookup-retain k m = go (lookup same k m) refl
    where
      go :
          (o : Option V)
          → lookup same k m ≡ o
          → lookup same k (retain m) ≡ if_kept keep (lookup same k m)
      go none e =
          let same_value : lookup same k m ≡ if_kept keep (lookup same k m) =
            e ∙ ap (if_kept keep) (sym e) in
          retain_keys_fixed (map (λ e. e.0) m) k m same_value ∙ same_value
      go (some v) e = retain_keys-Listed _ k m (lookup-Listed k m {v = v} e)
