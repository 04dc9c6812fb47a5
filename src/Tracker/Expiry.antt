-- ===== src/Tracker/Expiry.antt =====
-- internal/domain/tracker.go: `AddGroups`, `Sweep` and what `ContainsGroup` answers.
use split_wire.Prelude.{
  Bool, Dict, List, Option, [], ap, arith, false, if◌then◌else◌, insert, ite, leb, length, lookup,
  lookup-delete, lookup-insert, ltb, map, none, refl, some, sym, true, ℕ, ℕ_discrete, ◌&&◌, ◌+◌,
  ◌==◌, ◌||◌, ◌∙◌, ◌∷◌, ◌≡◌, ◌≤◌,
}
use split_wire.Tracker.{
  Expiries, Tracker, sweep_groups, sweep_ips, sweep, is_live, find_ip, known, put_back,
  contains_group, add_groups, clamp_ttl, count, extend,
}
use split_wire.Ip.{Addr, Addr-discrete, unmap, is_valid}

-- A group's expiry under an address.
abbrev expiry_of : Addr → ℕ → Dict Addr Expiries → Option ℕ
expiry_of ip g ips = lookup ℕ_discrete g (known (find_ip ip ips))

sweep_groups_live :
    (keys : List ℕ) (g now later : ℕ) (m : Expiries)
    → now ≤ later
    → is_live later (lookup ℕ_discrete g (sweep_groups keys now m))
      ≡ is_live later (lookup ℕ_discrete g m)
unfolding sweep_groups
sweep_groups_live [] g now later m h = refl
sweep_groups_live (i ∷ keys) g now later m h =
    sweep_groups_live keys g now later _ h ∙ ground (arith, lookup-delete ℕ_discrete i g m)

put_back_live :
    (ip ip' : Addr) (g later : ℕ) (m : Expiries) (ips : Dict Addr Expiries)
    → is_live later (lookup ℕ_discrete g m) ≡ is_live later (expiry_of ip g ips)
    → is_live later (expiry_of ip' g (put_back ip m ips)) ≡ is_live later (expiry_of ip' g ips)
unfolding lookup
put_back_live ip ip' g later [] ips h = ground (arith, lookup-delete Addr-discrete ip ip' ips)
put_back_live ip ip' g later (e ∷ m) ips h =
    ground (arith, lookup-insert Addr-discrete ip ip' (e ∷ m) ips)

sweep_ips_live :
    (keys : List Addr) (ip : Addr) (g now later : ℕ) (ips : Dict Addr Expiries)
    → now ≤ later
    → is_live later (expiry_of ip g (sweep_ips keys now ips)) ≡ is_live later (expiry_of ip g ips)
unfolding sweep_ips
sweep_ips_live [] ip g now later ips h = refl
sweep_ips_live (k ∷ keys) ip g now later ips h =
    sweep_ips_live keys ip g now later _ h ∙ step (find_ip k ips) refl
  where
    step :
        (o : Option Expiries)
        → find_ip k ips ≡ o
        → is_live later (
            expiry_of ip g (elim o [
              | none ↦ ips
              | some m ↦ put_back k (sweep_groups (map (λ e. e.0) m) now m) ips
            ]))
          ≡ is_live later (expiry_of ip g ips)
    step none e = refl
    step (some m) e = put_back_live k ip g later _ ips (
        sweep_groups_live _ g now later m h
        ∙ ap (λ o. is_live later (lookup ℕ_discrete g (known o))) (sym e))

-- Sweeping forgets nothing that counts: from its time on, `ContainsGroup` answers as it would have
-- without the sweep, for every address and group.
pub contains_group-sweep :
    (ip : Addr) (g now later : ℕ) (t : Tracker)
    → now ≤ later
    → contains_group ip g later (sweep now t) ≡ contains_group ip g later t
unfolding contains_group sweep
contains_group-sweep ip g now later t h = sweep_ips_live _ (unmap ip) g now later t.ips h

-- Whether the group is one of the list.
abbrev pub lists : ℕ → List ℕ → Bool
lists g [] = false
lists g (i ∷ groups) = (g == i) || lists g groups

-- One round of `AddGroups`.
abbrev extend_one : ℕ → ℕ → ℕ → Expiries → Expiries
extend_one count expiry i m = if leb count i then m else elim (lookup ℕ_discrete i m) [
  | none ↦ insert ℕ_discrete i expiry m
  | some old ↦ if ltb old expiry then insert ℕ_discrete i expiry m else m
]

extend_one_live :
    (count expiry i g later : ℕ) (m : Expiries)
    → is_live later (lookup ℕ_discrete g (extend_one count expiry i m))
      ≡ (is_live later (lookup ℕ_discrete g m) || ((g == i) && ltb g count && ltb later expiry))
extend_one_live count expiry i g later m = ground (arith, lookup-insert ℕ_discrete i g expiry m)

extend_live :
    (count expiry : ℕ) (groups : List ℕ) (g later : ℕ) (m : Expiries)
    → is_live later (lookup ℕ_discrete g (extend count expiry groups m)) ≡ (
        is_live later (lookup ℕ_discrete g m)
        || (lists g groups && ltb g count && ltb later expiry))
unfolding extend
extend_live count expiry [] g later m = ground arith
extend_live count expiry (i ∷ groups) g later m =
    extend_live count expiry groups g later (extend_one count expiry i m)
    ∙ ground (arith, extend_one_live count expiry i g later m)

-- What `AddGroups` changes: with a valid address, an address and group are contained afterwards
-- exactly where they were before, or where the address is the one that was added, the group is one
-- of those added and of the tracker's, and the clamped time to live is not over.
pub contains_group-add_groups :
    (ip ip' : Addr) (groups : List ℕ) (ttl now g later : ℕ) (t : Tracker)
    → is_valid ip ≡ true
    → contains_group ip' g later (add_groups ip groups ttl now t) ≡ (
        contains_group ip' g later t
        || ite
            (Addr-discrete (unmap ip) (unmap ip'))
            (lists g groups && ltb g (length t.groups) && ltb later (now + clamp_ttl ttl))
            false)
unfolding contains_group add_groups
contains_group-add_groups ip ip' [] ttl now g later t valid = ground arith
contains_group-add_groups ip ip' (i ∷ groups) ttl now g later t valid =
    let m = known (find_ip (unmap ip) t.ips) in
    let m' = extend (length t.groups) (now + clamp_ttl ttl) (i ∷ groups) m in
    ground (
      arith,
      lookup-insert Addr-discrete (unmap ip) (unmap ip') m' t.ips,
      extend_live (length t.groups) (now + clamp_ttl ttl) (i ∷ groups) g later m,
    )
