-- ===== src/Policy.antt =====
-- internal/policy/policy.go: which connections go through the tunnel. The groups are the source's
-- `cfg.Groups`; the tracker, which other parts change, and the time are arguments. An index out of
-- range is a panic; a decision has no other failure.
pub mod Compiled
pub mod Decisions
use split_wire.Prelude.{
  Bool, Dict, List, Option, Outcome, [], false, if◌then◌else◌, insert, length, lookup, ltb, none,
  not, ok, panic, some, suc, true, zero, ℕ, ℕ_discrete, ◌&&◌, ◌++◌, ◌>>=◌, ◌||◌, ◌∷◌,
}
use split_wire.Text.{has_char, replace_char, trim_space, Platform, Text}
use split_wire.Config.{Group, apps_all, domains_all, matches_domain}
use split_wire.Flow.{matches, Process}
use split_wire.Ip.{unmap, Addr, Prefix, prefix_contains}
use split_wire.Tracker.{Tracker, contains_group}

pub record Decision : Type 0 where
  pub tunnel : Bool
  pub reason : Text
  pub group : Text

abbrev pub no_tunnel : Decision
no_tunnel = record { tunnel = false; reason = []; group = [] }

-- Go's `Text` keys: maps from a name to group indices.
pub Text-discrete : Discrete Text
Text-discrete = hlevel ℕ_discrete

abbrev pub AppIndex : Type 0
AppIndex = Dict Text (List ℕ)

-- `m[k]`, where a missing key has no indices.
abbrev pub ids_at : Text → AppIndex → List ℕ
ids_at k m = elim (lookup Text-discrete k m) [ none ↦ [] | some ids ↦ ids ]

-- `m[k] = append(m[k], i)`.
abbrev pub add_id_at : Text → ℕ → AppIndex → AppIndex
add_id_at k i m = insert Text-discrete k (ids_at k m ++ i ∷ []) m

pub record Selectors : Type 0 where
  pub global_groups : List ℕ
  pub by_name : AppIndex
  pub by_path : AppIndex

pub record Engine : Type 0 where
  pub groups : List Group
  pub internal : List Text
  pub selectors : Selectors

-- `strings.ContainsAny(app, "\\/")`.
abbrev pub is_path : Text → Bool
is_path app = has_char b'\\' app || has_char b'/' app

unfoldable pub any_network : List Prefix → Addr → Bool
any_network [] dst = false
any_network (n ∷ networks) dst = prefix_contains n dst || any_network networks dst

-- `e.domains != nil && e.domains.ContainsGroup(dst, i)`.
abbrev pub learnt : Option Tracker → ℕ → Addr → ℕ → Bool
learnt none now dst i = false
learnt (some t) now dst i = contains_group dst i now t

abbrev pub group_destination_matches : Option Tracker → ℕ → Addr → ℕ → Group → Bool
group_destination_matches domains now dst i g =
    domains_all g || (any_network g.networks dst || learnt domains now dst i)

unfoldable pub group_at : List Group → ℕ → Option Group
group_at [] i = none
group_at (g ∷ groups) zero = some g
group_at (g ∷ groups) (suc i) = group_at groups i

-- The loop of `decideIDs` and `decideHostIDs`: the first group of the list that is hit.
unfoldable pub first_hit :
    List Group → (ℕ → Group → Bool) → Text → List ℕ → Outcome (Unit {0}) Decision
first_hit groups hit label [] = ok no_tunnel
first_hit groups hit label (i ∷ ids) =
    let rest = first_hit groups hit label ids in
    elim (group_at groups i) [
      | none ↦ panic
      | some g ↦
          if hit i g
          then ok (record { tunnel = true; reason = label ++ g.name; group = g.name })
          else rest
    ]

-- The candidates in their order, until one list decides.
unfoldable pub first_list :
    List Group → (ℕ → Group → Bool) → Text → List ℕ → List ℕ → List ℕ → Outcome (Unit {0}) Decision
first_list groups hit label global names paths = do
  d ← first_hit groups hit label global
  elim d.tunnel [
    | true ↦ ok d
    | false ↦ do
      d' ← first_hit groups hit label names
      elim d'.tunnel [ true ↦ ok d' | false ↦ first_hit groups hit label paths ]
  ]

-- The loops that only ask whether a group of the list is hit.
unfoldable pub any_hit : List Group → (ℕ → Group → Bool) → List ℕ → Outcome (Unit {0}) Bool
any_hit groups hit [] = ok false
any_hit groups hit (i ∷ ids) =
    let rest = any_hit groups hit ids in
    elim (group_at groups i) [ none ↦ panic | some g ↦ if hit i g then ok true else rest ]

-- `a || b`, where `b` is not run after a true `a`.
abbrev pub or_run : Outcome (Unit {0}) Bool → Outcome (Unit {0}) Bool → Outcome (Unit {0}) Bool
or_run a b = do first ← a; elim first [ true ↦ ok true | false ↦ b ]

unfoldable pub could_tunnel_without_process :
    Engine → Option Tracker → ℕ → Addr → Outcome (Unit {0}) Bool
could_tunnel_without_process e domains now dst =
    any_hit e.groups (group_destination_matches domains now (unmap dst)) e.selectors.global_groups

abbrev pub restricts_hosts : ℕ → Group → Bool
restricts_hosts i g = not (domains_all g) && ltb 0 (length g.domains)

abbrev pub learnt_for_domain : Option Tracker → ℕ → Addr → ℕ → Group → Bool
learnt_for_domain domains now dst i g = not (domains_all g) && learnt domains now dst i

module _ (os : Platform) where
  unfoldable pub canon_path : Text → Text
  canon_path s = os.lower (replace_char b'/' b'\\' (trim_space s))

  unfoldable pub canon_name : Text → Text
  canon_name s = os.lower (os.base (replace_char b'\\' b'/' (trim_space s)))

  -- The inner loop of `compileApps`, for the group of index `i`.
  unfoldable pub add_apps : ℕ → List Text → Selectors → Selectors
  add_apps i [] s = s
  add_apps i (app ∷ apps) s = add_apps i apps (
      if is_path app
      then record s { by_path = add_id_at (canon_path app) i s.by_path }
      else record s { by_name = add_id_at (canon_name app) i s.by_name })

  -- The outer loop, from the group of index `i`.
  unfoldable pub compile_from : ℕ → List Group → Selectors → Selectors
  compile_from i [] s = s
  compile_from i (g ∷ groups) s = compile_from (suc i) groups (
      if apps_all g
      then record s { global_groups = s.global_groups ++ i ∷ [] }
      else add_apps i g.apps s)

  -- `NewWithInternal`; `New` is the same with no internal names.
  unfoldable pub new_engine : List Group → List Text → Engine
  new_engine groups internal = record {
    groups = groups;
    internal = internal;
    selectors = compile_from 0 groups (record { global_groups = []; by_name = []; by_path = [] });
  }

  -- The three lists of `candidateSlices`, the second and the third for the process.
  abbrev pub name_ids : Engine → Process → List ℕ
  name_ids e proc = ids_at (canon_name proc.name) e.selectors.by_name

  abbrev pub path_ids : Engine → Process → List ℕ
  path_ids e proc = ids_at (canon_path proc.path) e.selectors.by_path

  unfoldable pub decide : Engine → Option Tracker → ℕ → Process → Addr → Outcome (Unit {0}) Decision
  decide e domains now proc dst =
      first_list e.groups (group_destination_matches domains now (unmap dst))
        (b'g' ∷ b'r' ∷ b'o' ∷ b'u' ∷ b'p' ∷ b':' ∷ []) e.selectors.global_groups (name_ids e proc)
        (path_ids e proc)

  abbrev pub host_matches : Text → ℕ → Group → Bool
  host_matches host i g = not (domains_all g) && matches_domain os g host

  unfoldable pub decide_host : Engine → Process → Text → Outcome (Unit {0}) Decision
  decide_host e proc host =
      first_list e.groups (host_matches host)
        (b'h' ∷ b'o' ∷ b's' ∷ b't' ∷ b'-' ∷ b'g' ∷ b'r' ∷ b'o' ∷ b'u' ∷ b'p' ∷ b':' ∷ [])
        e.selectors.global_groups (name_ids e proc) (path_ids e proc)

  abbrev pub is_internal : Engine → Process → Bool
  is_internal e proc = matches os proc e.internal

  unfoldable pub needs_tls_discovery : Engine → Process → Outcome (Unit {0}) Bool
  needs_tls_discovery e proc = or_run (any_hit e.groups restricts_hosts e.selectors.global_groups) (
      or_run (any_hit e.groups restricts_hosts (name_ids e proc))
        (any_hit e.groups restricts_hosts (path_ids e proc)))

  unfoldable pub should_suppress_quic : Engine → Process → Outcome (Unit {0}) Bool
  should_suppress_quic e proc =
      or_run (any_hit e.groups restricts_hosts (name_ids e proc))
        (any_hit e.groups restricts_hosts (path_ids e proc))

  unfoldable pub is_domain_ip_for_process :
      Engine → Option Tracker → ℕ → Process → Addr → Outcome (Unit {0}) Bool
  is_domain_ip_for_process e domains now proc dst =
      let hit = learnt_for_domain domains now (unmap dst) in
      or_run (any_hit e.groups hit e.selectors.global_groups)
        (or_run (any_hit e.groups hit (name_ids e proc)) (any_hit e.groups hit (path_ids e proc)))
