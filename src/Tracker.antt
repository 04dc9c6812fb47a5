-- ===== src/Tracker.antt =====
-- internal/domain/tracker.go: which groups of rules an address was learnt for, until when. Times are
-- in seconds and the clock is an argument. A call under the lock is one step. `ResolveBootstrap` asks
-- the system's resolver, and is left out.
pub mod Expiry
use split_wire.Prelude.{
  Bool, Dict, List, Option, [], delete, false, if◌then◌else◌, insert, leb, length, lookup, ltb, map,
  none, not, some, suc, ℕ, ℕ_discrete, ◌&&◌, ◌+◌, ◌==◌, ◌||◌, ◌∷◌,
}
use split_wire.Config.{Group, domains_all, matches_domain, normalize_name}
use split_wire.Ip.{Addr, Addr-discrete, is_valid, unmap}
use split_wire.Text.{Platform, Text, is_empty}

-- Group index -> expiry.
abbrev pub Expiries : Type 0
Expiries = Dict ℕ ℕ

pub record Tracker : Type 0 where
  pub ips : Dict Addr Expiries
  pub groups : List Group

abbrev pub new_tracker : List Group → Tracker
new_tracker groups = record { ips = []; groups = groups }

abbrev pub find_ip : Addr → Dict Addr Expiries → Option Expiries
find_ip = lookup Addr-discrete

-- The loop of `NameGroups`, from the group of index `i`.
unfoldable pub groups_from : Platform → Text → ℕ → List Group → List ℕ
groups_from os name i [] = []
groups_from os name i (g ∷ rest) =
    let others = groups_from os name (suc i) rest in
    if not (domains_all g) && matches_domain os g name then i ∷ others else others

abbrev pub name_groups : Platform → Text → Tracker → List ℕ
name_groups os name t =
    let n = normalize_name os name in if is_empty n then [] else groups_from os n 0 t.groups

abbrev pub name_matches : Platform → Text → Tracker → Bool
name_matches os name t = not (length (name_groups os name t) == 0)

-- At least ten seconds, at most a day.
abbrev pub clamp_ttl : ℕ → ℕ
clamp_ttl ttl = if ltb ttl 10 then 10 else if ltb 86400 ttl then 86400 else ttl

-- The loop of `AddGroups` over the group indices; an expiry is never moved backwards.
unfoldable pub extend : ℕ → ℕ → List ℕ → Expiries → Expiries
extend count expiry [] m = m
extend count expiry (i ∷ rest) m = extend count expiry rest (
    if leb count i then m else elim (lookup ℕ_discrete i m) [
      | none ↦ insert ℕ_discrete i expiry m
      | some old ↦ if ltb old expiry then insert ℕ_discrete i expiry m else m
    ])

abbrev pub known : Option Expiries → Expiries
known none = []
known (some m) = m

unfoldable pub add_groups : Addr → List ℕ → ℕ → ℕ → Tracker → Tracker
add_groups ip groups ttl now t = if not (is_valid ip) || (length groups == 0) then t else record t {
  ips =
      insert Addr-discrete (unmap ip)
        (extend (length t.groups) (now + clamp_ttl ttl) groups (known (find_ip (unmap ip) t.ips)))
        t.ips;
}

abbrev pub add_for_name : Platform → Text → Addr → ℕ → ℕ → Tracker → Tracker × List ℕ
add_for_name os name ip ttl now t =
    let groups = name_groups os name t in (add_groups ip groups ttl now t, groups)

-- An expiry that lies in the future.
abbrev pub is_live : ℕ → Option ℕ → Bool
is_live now none = false
is_live now (some expiry) = ltb now expiry

unfoldable pub contains_group : Addr → ℕ → ℕ → Tracker → Bool
contains_group ip group now t =
    is_live now (lookup ℕ_discrete group (known (find_ip (unmap ip) t.ips)))

unfoldable pub any_live : ℕ → Expiries → Bool
any_live now [] = false
any_live now ((i, expiry) ∷ m) = ltb now expiry || any_live now m

abbrev pub contains : Addr → ℕ → Tracker → Bool
contains ip now t = any_live now (known (find_ip (unmap ip) t.ips))

-- The inner loop of `Sweep`.
unfoldable pub sweep_groups : List ℕ → ℕ → Expiries → Expiries
sweep_groups [] now m = m
sweep_groups (i ∷ rest) now m = sweep_groups rest now (elim (lookup ℕ_discrete i m) [
  | none ↦ m
  | some expiry ↦ if ltb now expiry then m else delete ℕ_discrete i m
])

-- What `Sweep` leaves under an address.
abbrev pub put_back : Addr → Expiries → Dict Addr Expiries → Dict Addr Expiries
put_back ip [] ips = delete Addr-discrete ip ips
put_back ip (e ∷ m) ips = insert Addr-discrete ip (e ∷ m) ips

-- The outer loop of `Sweep`.
unfoldable pub sweep_ips : List Addr → ℕ → Dict Addr Expiries → Dict Addr Expiries
sweep_ips [] now ips = ips
sweep_ips (ip ∷ rest) now ips = sweep_ips rest now (elim (find_ip ip ips) [
  | none ↦ ips
  | some m ↦ put_back ip (sweep_groups (map (λ e. e.0) m) now m) ips
])

unfoldable pub sweep : ℕ → Tracker → Tracker
sweep now t = record t { ips = sweep_ips (map (λ e. e.0) t.ips) now t.ips }

abbrev pub count : Tracker → ℕ
count t = length t.ips
