-- ===== src/Prelude/Weights.antt =====
-- Sums over the values of a map whose keys are distinct.
use Prim.Native.Nat.{ℕ, suc, ◌+◌, ◌≤◌}
use mathlib.Core.Path.{◌≡◌, refl}
use mathlib.Core.List.{[], ◌∷◌}
use mathlib.Core.Option.{none, some}
use native.Mathlib.Omega.{arith}
use split_wire.Prelude.Maps.{Dict, lookup, insert, delete, lookup-insert, lookup-delete}
use split_wire.Prelude.Lists.{length}

module _ {K V : Type 0} (same : Discrete K) where
  abbrev pub IsUnique : Dict K V → Type 0
  IsUnique [] = Unit {0}
  IsUnique ((k, v) ∷ m) = (lookup same k m ≡ none) × IsUnique m

  pub insert-IsUnique : (k : K) (v : V) (m : Dict K V) → IsUnique m → IsUnique (insert same k v m)
  unfolding insert lookup
  insert-IsUnique k v [] u = (refl, tt)
  insert-IsUnique k v ((j, w) ∷ m) u = elim (same j k) [
    | yes e ↦ ground arith
    | no ne ↦ ground (arith, lookup-insert same k j v m, insert-IsUnique k v m u.1)
  ]

  pub delete-IsUnique : (k : K) (m : Dict K V) → IsUnique m → IsUnique (delete same k m)
  unfolding delete lookup
  delete-IsUnique k [] u = tt
  delete-IsUnique k ((j, w) ∷ m) u =
      ground (arith, lookup-delete same k j m, delete-IsUnique k m u.1)

  delete_absent : (k : K) (m : Dict K V) → lookup same k m ≡ none → delete same k m ≡ m
  unfolding delete lookup
  delete_absent k [] e = refl
  delete_absent k ((j, w) ∷ m) e = ground (arith, delete_absent k m)

  module _ (w : V → ℕ) where
    unfoldable pub weigh : Dict K V → ℕ
    weigh [] = 0
    weigh ((k, v) ∷ m) = w v + weigh m

    pub weigh-insert_new :
        (k : K) (v : V) (m : Dict K V)
        → lookup same k m ≡ none
        → weigh (insert same k v m) ≡ weigh m + w v
    unfolding weigh insert lookup
    weigh-insert_new k v [] e = omega arith
    weigh-insert_new k v ((j, x) ∷ m) e = ground (arith, weigh-insert_new k v m)

    pub weigh-insert_old :
        (k : K) (v v0 : V) (m : Dict K V)
        → lookup same k m ≡ some v0
        → weigh (insert same k v m) + w v0 ≡ weigh m + w v
    unfolding weigh insert lookup
    weigh-insert_old k v v0 [] e = cc
    weigh-insert_old k v v0 ((j, x) ∷ m) e = ground (arith, weigh-insert_old k v v0 m)

    pub weigh-delete :
        (k : K) (v0 : V) (m : Dict K V)
        → IsUnique m
        → lookup same k m ≡ some v0
        → weigh (delete same k m) + w v0 ≡ weigh m
    unfolding weigh delete lookup
    weigh-delete k v0 [] u e = cc
    weigh-delete k v0 ((j, x) ∷ m) u e = ground (arith, weigh-delete k v0 m u.1, delete_absent k m)

  pub length-insert_new :
      (k : K) (v : V) (m : Dict K V)
      → lookup same k m ≡ none
      → length (insert same k v m) ≡ suc (length m)
  unfolding insert lookup
  length-insert_new k v [] e = refl
  length-insert_new k v ((j, x) ∷ m) e = ground (arith, length-insert_new k v m)

  pub length-insert_old :
      (k : K) (v v0 : V) (m : Dict K V)
      → lookup same k m ≡ some v0
      → length (insert same k v m) ≡ length m
  unfolding insert lookup
  length-insert_old k v v0 [] e = cc
  length-insert_old k v v0 ((j, x) ∷ m) e = ground (arith, length-insert_old k v v0 m)

  pub length-delete-le : (k : K) (m : Dict K V) → length (delete same k m) ≤ length m
  unfolding delete
  length-delete-le k [] = omega arith
  length-delete-le k ((j, x) ∷ m) = ground (arith, length-delete-le k m)
