-- ===== src/Policy/Compiled.antt =====
-- internal/policy/policy.go: the lists that `compileApps` makes, against the groups themselves.
use split_wire.Prelude.{
  Bool, List, [], ap, arith, false, if◌then◌else◌, ite, lookup-insert, not, suc, true, ℕ, ◌&&◌,
  ◌++◌, ◌||◌, ◌∙◌, ◌∷◌, ◌≡◌,
}
use split_wire.Policy.{
  AppIndex, ids_at, Text-discrete, add_id_at, Selectors, add_apps, canon_name, canon_path,
  compile_from, is_path,
}
use split_wire.Config.{Group, apps_all}
use split_wire.Text.{Text, Platform}

-- Whether a group of the list of indices has the property.
abbrev pub any_id : (ℕ → Bool) → List ℕ → Bool
any_id p [] = false
any_id p (i ∷ ids) = p i || any_id p ids

-- Whether a group has the property, the groups being numbered from `i`.
abbrev pub any_group : (ℕ → Group → Bool) → ℕ → List Group → Bool
any_group p i [] = false
any_group p i (g ∷ groups) = p i g || any_group p (suc i) groups

any_id-append :
    (p : ℕ → Bool) (ids : List ℕ) (i : ℕ) → any_id p (ids ++ i ∷ []) ≡ (any_id p ids || p i)
any_id-append p [] i = ground arith
any_id-append p (j ∷ ids) i = ground (arith, any_id-append p ids i)

any_id-add_id_at :
    (p : ℕ → Bool) (k j : Text) (i : ℕ) (m : AppIndex)
    → any_id p (ids_at k (add_id_at j i m))
      ≡ (any_id p (ids_at k m) || (ite (Text-discrete j k) true false && p i))
any_id-add_id_at p k j i m = elim (Text-discrete j k) [
  | yes same ↦
      let here : ids_at k (add_id_at j i m) ≡ ids_at k m ++ i ∷ [] =
        ground (arith, lookup-insert Text-discrete j k (ids_at j m ++ i ∷ []) m) in
      ap (any_id p) here ∙ any_id-append p (ids_at k m) i ∙ ground arith
  | no ne ↦
      let here : ids_at k (add_id_at j i m) ≡ ids_at k m =
        ground (arith, lookup-insert Text-discrete j k (ids_at j m ++ i ∷ []) m) in
      ap (any_id p) here ∙ ground arith
]

abbrev pub same_text : Text → Text → Bool
same_text j k = ite (Text-discrete j k) true false

module _ (os : Platform) where
  -- Whether one of the application selectors is the executable's name, or its path.
  abbrev pub names_app : Text → List Text → Bool
  names_app k [] = false
  names_app k (app ∷ apps) =
      (not (is_path app) && same_text (canon_name os app) k) || names_app k apps

  abbrev pub names_path : Text → List Text → Bool
  names_path k [] = false
  names_path k (app ∷ apps) = (is_path app && same_text (canon_path os app) k) || names_path k apps

  module _ (p : ℕ → Bool) (k : Text) where
    any_id-add_apps :
        (i : ℕ) (apps : List Text) (s : Selectors)
        → (any_id p (ids_at k (add_apps os i apps s).by_name)
            ≡ (any_id p (ids_at k s.by_name) || (names_app k apps && p i)))
          × (any_id p (ids_at k (add_apps os i apps s).by_path)
              ≡ (any_id p (ids_at k s.by_path) || (names_path k apps && p i)))
          × ((add_apps os i apps s).global_groups ≡ s.global_groups)
    unfolding add_apps
    any_id-add_apps i [] s = ground arith
    any_id-add_apps i (app ∷ apps) s =
        let next : Selectors =
          if is_path app
          then record s { by_path = add_id_at (canon_path os app) i s.by_path }
          else record s { by_name = add_id_at (canon_name os app) i s.by_name } in
        ground (
          arith,
          any_id-add_apps i apps next,
          any_id-add_id_at p k (canon_path os app) i s.by_path,
          any_id-add_id_at p k (canon_name os app) i s.by_name,
        )

    -- What the three lists of the index hold, as questions about the groups.
    pub any_id-compile_from :
        (i : ℕ) (groups : List Group) (s : Selectors)
        → let c = compile_from os i groups s in
          (any_id p (ids_at k c.by_name) ≡ (
            any_id p (ids_at k s.by_name)
            || any_group (λ j g. (not (apps_all g) && names_app k g.apps) && p j) i groups))
          × (any_id p (ids_at k c.by_path) ≡ (
              any_id p (ids_at k s.by_path)
              || any_group (λ j g. (not (apps_all g) && names_path k g.apps) && p j) i groups))
          × (any_id p c.global_groups
              ≡ (any_id p s.global_groups || any_group (λ j g. apps_all g && p j) i groups))
    unfolding compile_from
    any_id-compile_from i [] s = ground arith
    any_id-compile_from i (g ∷ groups) s =
        let next : Selectors =
          if apps_all g
          then record s { global_groups = s.global_groups ++ i ∷ [] }
          else add_apps os i g.apps s in
        ground (
          arith,
          any_id-compile_from (suc i) groups next,
          any_id-add_apps i g.apps s,
          any_id-append p s.global_groups i,
        )
