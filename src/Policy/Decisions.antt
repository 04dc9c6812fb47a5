-- ===== src/Policy/Decisions.antt =====
-- internal/policy/policy.go: the decisions of `Engine`, against the groups read one by one.
use split_wire.Prelude.{
  Bool, Bool-cases, List, Option, [], ap, arith, false, inl, inr, leb, length, lookup, none, not,
  ok, refl, some, suc, true, zero, ℕ, ◌&&◌, ◌++◌, ◌+◌, ◌<◌, ◌||◌, ◌∙◌, ◌∷◌, ◌≡◌, ◌≤◌,
}
use split_wire.Policy.{
  Decision, first_hit, first_list, group_at, canon_name, canon_path, no_tunnel, Selectors,
  compile_from, decide, decide_host, group_destination_matches, host_matches, ids_at, new_engine,
}
use split_wire.Policy.Compiled.{any_id, any_group, names_app, names_path, any_id-compile_from}
use split_wire.Config.{Group, apps_all}
use split_wire.Flow.{Process}
use split_wire.Text.{Platform, Text}
use split_wire.Ip.{Addr, unmap}
use split_wire.Tracker.{Tracker}

abbrev Hit : Type 0
Hit = ℕ → Group → Bool

-- Whether the group of an index is hit.
abbrev hits : List Group → Hit → ℕ → Bool
hits groups hit i = elim (group_at groups i) [ none ↦ false | some g ↦ hit i g ]

-- Every index of the list is one of a group.
abbrev InRange : List Group → List ℕ → Type 0
InRange groups ids = any_id (λ i. leb (length groups) i) ids ≡ false

group_at-some :
    (groups : List Group) (i : ℕ) → i < length groups → (g : Group) × (group_at groups i ≡ some g)
unfolding group_at
group_at-some [] i h = absurd (omega arith)
group_at-some (g ∷ groups) zero h = (g, refl)
group_at-some (g ∷ groups) (suc i) h = group_at-some groups i (omega arith)

first_hit_lem :
    (groups : List Group) (hit : Hit) (label : Text) (ids : List ℕ)
    → InRange groups ids
    → (d : Decision) × (first_hit groups hit label ids ≡ ok d)
      × (d.tunnel ≡ any_id (hits groups hit) ids)
unfolding first_hit
first_hit_lem groups hit label [] h = (no_tunnel, refl, refl)
first_hit_lem groups hit label (i ∷ ids) h =
    let (d, e, t) = first_hit_lem groups hit label ids (ground arith) in
    let (g, f) = group_at-some groups i (ground arith) in
    elim (Bool-cases (hit i g)) [
      | inl yes_hit ↦ (
        record { tunnel = true; reason = label ++ g.name; group = g.name },
        ground arith,
        ground arith,
      )
      | inr no_hit ↦ (d, ground arith, ground arith)
    ]

first_list_lem :
    (groups : List Group) (hit : Hit) (label : Text) (global names paths : List ℕ)
    → InRange groups global
    → InRange groups names
    → InRange groups paths
    → (d : Decision) × (first_list groups hit label global names paths ≡ ok d)
      × (d.tunnel ≡ (
          any_id (hits groups hit) global
          || (any_id (hits groups hit) names || any_id (hits groups hit) paths)))
unfolding first_list
first_list_lem groups hit label global names paths h k l =
    let (d, e, t) = first_hit_lem groups hit label global h in
    let (d', e', t') = first_hit_lem groups hit label names k in
    let (d'', e'', t'') = first_hit_lem groups hit label paths l in
    elim (Bool-cases d.tunnel) [
      | inl first ↦ (d, ground arith, ground arith)
      | inr more ↦ elim (Bool-cases d'.tunnel) [
        | inl second ↦ (d', ground arith, ground arith)
        | inr rest ↦ (d'', ground arith, ground arith)
      ]
    ]

any_group_below :
    (c : Group → Bool) (n i : ℕ) (groups : List Group)
    → i + length groups ≤ n
    → any_group (λ j g. c g && leb n j) i groups ≡ false
any_group_below c n i [] h = refl
any_group_below c n i (g ∷ groups) h = ground (arith, any_group_below c n (suc i) groups)

any_group-hits :
    (all : List Group) (hit : Hit) (c : Group → Bool) (i : ℕ) (groups : List Group)
    → ((j : ℕ) → group_at all (i + j) ≡ group_at groups j)
    → any_group (λ j g. c g && hits all hit j) i groups ≡ any_group (λ j g. c g && hit j g) i groups
unfolding group_at
any_group-hits all hit c i [] h = refl
any_group-hits all hit c i (g ∷ groups) h =
    let here : group_at all i ≡ some g = ap (group_at all) (omega arith) ∙ h 0 in
    let rest =
      any_group-hits all hit c (suc i) groups (λ j. ap (group_at all) (omega arith) ∙ h (suc j)) in
    ground (arith, rest)

module _ (os : Platform) where
  -- Whether the group's selectors pick the process: by `*`, by its name or by its path.
  abbrev pub picks : Process → Group → Bool
  picks proc g =
      apps_all g
      || (names_app os (canon_name os proc.name) g.apps
          || names_path os (canon_path os proc.path) g.apps)

  any_group-picks :
      (proc : Process) (hit : Hit) (i : ℕ) (groups : List Group)
      → any_group (λ j g. picks proc g && hit j g) i groups ≡ (
          any_group (λ j g. apps_all g && hit j g) i groups
          || (any_group
                (λ j g.
                  (not (apps_all g) && names_app os (canon_name os proc.name) g.apps) && hit j g)
                i
                groups
              || any_group
                  (λ j g.
                    (not (apps_all g) && names_path os (canon_path os proc.path) g.apps) && hit j g)
                  i
                  groups))
  any_group-picks proc hit i [] = refl
  any_group-picks proc hit i (g ∷ groups) = ground (arith, any_group-picks proc hit (suc i) groups)

  module _ (groups : List Group) (internal : List Text) (proc : Process) where
    abbrev compiled : Selectors
    compiled = compile_from os 0 groups (record { global_groups = []; by_name = []; by_path = [] })

    abbrev names : List ℕ
    names = ids_at (canon_name os proc.name) compiled.by_name

    abbrev paths : List ℕ
    paths = ids_at (canon_path os proc.path) compiled.by_path

    compiled_names :
        (p : ℕ → Bool)
        → any_id p names
          ≡ any_group
              (λ j g. (not (apps_all g) && names_app os (canon_name os proc.name) g.apps) && p j)
              0
              groups
    unfolding lookup
    compiled_names p = ground (
      arith,
      any_id-compile_from os p (canon_name os proc.name) 0 groups
          (record { global_groups = []; by_name = []; by_path = [] }),
    )

    compiled_paths :
        (p : ℕ → Bool)
        → any_id p paths
          ≡ any_group
              (λ j g. (not (apps_all g) && names_path os (canon_path os proc.path) g.apps) && p j)
              0
              groups
    unfolding lookup
    compiled_paths p = ground (
      arith,
      any_id-compile_from os p (canon_path os proc.path) 0 groups
          (record { global_groups = []; by_name = []; by_path = [] }),
    )

    compiled_global :
        (p : ℕ → Bool)
        → any_id p compiled.global_groups ≡ any_group (λ j g. apps_all g && p j) 0 groups
    compiled_global p = ground (
      arith,
      any_id-compile_from os p (canon_path os proc.path) 0 groups
          (record { global_groups = []; by_name = []; by_path = [] }),
    )

    -- The three lists together hold the groups that pick the process, each by its own index.
    any_hits :
        (hit : Hit)
        → (any_id (hits groups hit) compiled.global_groups
            || (any_id (hits groups hit) names || any_id (hits groups hit) paths))
          ≡ any_group (λ j g. picks proc g && hit j g) 0 groups
    any_hits hit =
        let same : (j : ℕ) → group_at groups (0 + j) ≡ group_at groups j =
          λ j. ap (group_at groups) (omega arith) in
        ground (
          arith,
          any_group-picks proc hit 0 groups,
          compiled_global (hits groups hit),
          compiled_names (hits groups hit),
          compiled_paths (hits groups hit),
          any_group-hits groups hit (λ g. apps_all g) 0 groups same,
          any_group-hits groups hit
              (λ g. not (apps_all g) && names_app os (canon_name os proc.name) g.apps) 0 groups
              same,
          any_group-hits groups hit
              (λ g. not (apps_all g) && names_path os (canon_path os proc.path) g.apps) 0 groups
              same,
        )

    in_range : InRange groups compiled.global_groups × InRange groups names × InRange groups paths
    in_range =
        let far = λ (j : ℕ). leb (length groups) j in
        (
          compiled_global far
              ∙ any_group_below (λ g. apps_all g) (length groups) 0 groups (omega arith),
          compiled_names far
              ∙ any_group_below
                  (λ g. not (apps_all g) && names_app os (canon_name os proc.name) g.apps)
                  (length groups) 0 groups (omega arith),
          compiled_paths far
              ∙ any_group_below
                  (λ g. not (apps_all g) && names_path os (canon_path os proc.path) g.apps)
                  (length groups) 0 groups (omega arith),
        )

    -- The decision over the three lists, for any kind of hit.
    compiled_first :
        (hit : Hit) (label : Text)
        → (d : Decision) × (first_list groups hit label compiled.global_groups names paths ≡ ok d)
          × (d.tunnel ≡ any_group (λ j g. picks proc g && hit j g) 0 groups)
    compiled_first hit label =
        let (g, n, p) = in_range in
        let (d, e, t) = first_list_lem groups hit label compiled.global_groups names paths g n p in
        (d, e, t ∙ any_hits hit)

    -- `Decide` always decides, and a connection goes through the tunnel exactly where one of the
    -- groups picks the process, by `*`, its name or its path, and matches the destination. The
    -- lists that are compiled once leave no group out and mix none up.
    pub decide_lem :
        (domains : Option Tracker) (now : ℕ) (dst : Addr)
        → (d : Decision) × (decide os (new_engine os groups internal) domains now proc dst ≡ ok d)
          × (d.tunnel
              ≡ any_group
                  (λ j g. picks proc g && group_destination_matches domains now (unmap dst) j g)
                  0
                  groups)
    unfolding decide new_engine
    decide_lem domains now dst =
        compiled_first (group_destination_matches domains now (unmap dst)) _

    -- `DecideHost` always decides, and a host goes through the tunnel exactly where one of the groups
    -- picks the process and has a pattern, other than a lone `*`, that matches the host.
    pub decide_host_lem :
        (host : Text)
        → (d : Decision) × (decide_host os (new_engine os groups internal) proc host ≡ ok d)
          × (d.tunnel ≡ any_group (λ j g. picks proc g && host_matches os host j g) 0 groups)
    unfolding decide_host new_engine
    decide_host_lem host = compiled_first (host_matches os host) _
