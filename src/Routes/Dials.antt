-- ===== src/Routes/Dials.antt =====
-- internal/engine/proxydial.go: what a dial leaves in the table of routes.
use split_wire.Prelude.{
  Bool, List, Option, Outcome, [], arith, err, inl, inr, ite, lookup-delete, lookup-insert_ne, none,
  ok, out_of_fuel, panic, refl, some, subst, suc, sym, u16, zero, ℕ, ◌∙◌, ◌∷◌, ◌≡◌, ◌≢◌, ◌⊎◌,
}
use split_wire.Routes.{
  ProxyKey, ProxyTable, ProxyRoute, ProxyKey-discrete, unregister, find_proxy, plain_key, set_proxy,
  delete_proxy_key, DialError, Dialled, Network, attempts, register, Transport, bind_failed,
  conclude, connected, dial_proxy, no_source_port, other_network, refused, tcp, udp,
}
use split_wire.Ip.{Addr, unmap}

-- Each route of `u` stands in `t` already.
abbrev pub AddsNothing : ProxyTable → ProxyTable → Type 0
AddsNothing t u = (k : ProxyKey) → (find_proxy k u ≡ none) ⊎ (find_proxy k u ≡ find_proxy k t)

-- The key is one of the list, as the table spells it.
abbrev Listed : ProxyKey → List ProxyKey → Type 0
Listed k [] = ⊥
Listed k (j ∷ keys) = (plain_key j ≡ k) ⊎ Listed k keys

-- A route of `u` stands in `t` already, or its key is listed.
abbrev Adds : List ProxyKey → ProxyTable → ProxyTable → Type 0
Adds keys t u =
    (k : ProxyKey) → (find_proxy k u ≡ none) ⊎ (find_proxy k u ≡ find_proxy k t) ⊎ Listed k keys

find_proxy-delete_proxy_key :
    (j k : ProxyKey) (t : ProxyTable)
    → find_proxy k (delete_proxy_key j t)
      ≡ ite (ProxyKey-discrete (plain_key j) k) none (find_proxy k t)
unfolding delete_proxy_key
find_proxy-delete_proxy_key j k t = lookup-delete ProxyKey-discrete (plain_key j) k t

find_proxy-set_proxy :
    (j k : ProxyKey) (tunnel : Bool) (now : ℕ) (t : ProxyTable)
    → plain_key j ≢ k
    → find_proxy k (set_proxy j tunnel now t) ≡ find_proxy k t
unfolding set_proxy
find_proxy-set_proxy j k tunnel now t ne =
    let route : ProxyRoute = record { tunnel = tunnel; seen = now } in
    let kept = lookup-insert_ne ProxyKey-discrete (plain_key j) k route t ne in ground (arith, kept)

unregister-AddsNothing :
    (keys : List ProxyKey) (t u : ProxyTable) → Adds keys t u → AddsNothing t (unregister keys u)
unfolding unregister
unregister-AddsNothing [] t u h =
    λ k. elim (h k) [ inl e ↦ inl e | inr (inl e) ↦ inr e | inr (inr l) ↦ elim l [ ] ]
unregister-AddsNothing (j ∷ keys) t u h = unregister-AddsNothing keys t (delete_proxy_key j u) λ k.
    elim (ProxyKey-discrete (plain_key j) k) [
      | yes p ↦ inl (ground (arith, find_proxy-delete_proxy_key j k u))
      | no ne ↦
          let same : find_proxy k (delete_proxy_key j u) ≡ find_proxy k u =
            ground (arith, find_proxy-delete_proxy_key j k u) in
          elim (h k) [
            | inl e ↦ inl (same ∙ e)
            | inr (inl e) ↦ inr (inl (same ∙ e))
            | inr (inr (inl p)) ↦ absurd (ne p)
            | inr (inr (inr l)) ↦ inr (inr l)
          ]
    ]

Adds-step :
    (j : ProxyKey) (tunnel : Bool) (now : ℕ) (keys : List ProxyKey) (t u : ProxyTable)
    → Adds keys (set_proxy j tunnel now t) u
    → Adds (j ∷ keys) t u
Adds-step j tunnel now keys t u h k = elim (ProxyKey-discrete (plain_key j) k) [
  | yes p ↦ inr (inr (inl p))
  | no ne ↦ elim (h k) [
    | inl e ↦ inl e
    | inr (inl e) ↦ inr (inl (e ∙ find_proxy-set_proxy j k tunnel now t ne))
    | inr (inr l) ↦ inr (inr (inr l))
  ]
]

module _ (proto port : ℕ) (tunnel : Bool) (now : ℕ) where
  register-Adds :
      (addresses : List (Addr × ℕ)) (t : ProxyTable)
      → Adds
          (register proto port tunnel now addresses t).1
          t
          (register proto port tunnel now addresses t).0
  unfolding register
  register-Adds [] t = λ k. inr (inl refl)
  register-Adds ((ip, remote_port) ∷ rest) t =
      let j : ProxyKey = record {
        proto = proto;
        local_port = u16 port;
        remote = unmap ip;
        remote_port = remote_port;
      } in
      Adds-step j tunnel now _ t _ (register-Adds rest (set_proxy j tunnel now t))

  abbrev forgotten : List (Addr × ℕ) → ProxyTable → ProxyTable
  forgotten addresses t =
      let (u, keys) = register proto port tunnel now addresses t in unregister keys u

  forgotten-AddsNothing :
      (addresses : List (Addr × ℕ)) (t : ProxyTable) → AddsNothing t (forgotten addresses t)
  forgotten-AddsNothing addresses t = unregister-AddsNothing _ t _ (register-Adds addresses t)

-- After a dial: a failure has added no route, nor has a connection once it is closed.
abbrev pub LeavesNothing : ProxyTable → ProxyTable → Outcome DialError (List ProxyKey) → Type 0
LeavesNothing t u (ok keys) = AddsNothing t (unregister keys u)
LeavesNothing t u (err e) = AddsNothing t u
LeavesNothing t u panic = ⊥
LeavesNothing t u out_of_fuel = ⊥

AddsNothing-trans : (t u v : ProxyTable) → AddsNothing t u → AddsNothing u v → AddsNothing t v
AddsNothing-trans t u v h g = λ k. elim (g k) [
  | inl e ↦ inl e
  | inr e ↦ elim (h k) [ inl f ↦ inl (e ∙ f) | inr f ↦ inr (e ∙ f) ]
]

LeavesNothing-trans :
    (t u v : ProxyTable) (o : Outcome DialError (List ProxyKey))
    → AddsNothing t u
    → LeavesNothing u v o
    → LeavesNothing t v o
LeavesNothing-trans t u v (ok keys) h g = AddsNothing-trans t (u) (unregister keys v) h g
LeavesNothing-trans t u v (err e) h g = AddsNothing-trans t (u) (v) h g
LeavesNothing-trans t u v panic h g = g
LeavesNothing-trans t u v out_of_fuel h g = g

-- No call of `ControlContext` comes after its `DialContext` has returned: the address to dial is one
-- address, so that the dialer does not race two.
abbrev pub HasNoLateCall : {S : Type 0} → Network S → Type 0
HasNoLateCall {S} net = (port : ℕ) (s : S) → (net.attempt port s).late ≡ []

late_nothing :
    (proto port : ℕ) (tunnel : Bool) (now : ℕ) (late : List (Addr × ℕ)) (u : ProxyTable)
    → late ≡ []
    → (register proto port tunnel now late u).0 ≡ u
unfolding register
late_nothing proto port tunnel now late u e = rw e refl

module _ {S : Type 0} (net : Network S) (punctual : HasNoLateCall net) (proto : ℕ) (tunnel : Bool)
    (now : ℕ) where
  conclude-LeavesNothing :
      (d : Dialled) (s : S) (t t1 : ProxyTable) (keys : List ProxyKey)
      (belated : ProxyTable → ProxyTable)
      (retry : ProxyTable → S × ProxyTable × Outcome DialError (List ProxyKey))
      → ((u : ProxyTable) → belated u ≡ u)
      → AddsNothing t (unregister keys t1)
      → ((u : ProxyTable) → LeavesNothing u (retry u).1 (retry u).2)
      → (let r = conclude net proto tunnel now d s t1 keys belated retry in LeavesNothing t r.1 r.2)
  conclude-LeavesNothing connected s t t1 keys belated retry same h g =
      subst (λ u. AddsNothing t (unregister keys u)) (sym (same t1)) h
  conclude-LeavesNothing bind_failed s t t1 keys belated retry same h g =
      let u = belated (unregister keys t1) in
      let kept = subst (AddsNothing t) (sym (same (unregister keys t1))) h in
      LeavesNothing-trans t u (retry u).1 (retry u).2 kept (g u)
  conclude-LeavesNothing refused s t t1 keys belated retry same h g =
      subst (AddsNothing t) (sym (same (unregister keys t1))) h

  attempts-LeavesNothing :
      (n : ℕ) (s : S) (t : ProxyTable)
      → (let r = attempts net proto tunnel now n s t in LeavesNothing t r.1 r.2)
  unfolding attempts
  attempts-LeavesNothing zero s t = λ k. inr refl
  attempts-LeavesNothing (suc n) s t = reserved (net.reserve s).1 (attempts-LeavesNothing n)
    where
      tried : ℕ → S × ProxyTable × Outcome DialError (List ProxyKey)
      tried port =
          let a = net.attempt port (net.reserve s).0 in
          let (t1, keys) = register proto port tunnel now a.calls t in
          conclude net proto tunnel now a.ended a.state t1 keys
            (λ u. (register proto port tunnel now a.late u).0)
            (λ u. attempts net proto tunnel now n a.state u)

      reserved :
          (o : Option ℕ)
          → ((s2 : S) (u : ProxyTable)
              → (let r = attempts net proto tunnel now n s2 u in LeavesNothing u r.1 r.2))
          → (let r : S × ProxyTable × Outcome DialError (List ProxyKey) = elim o [
            | none ↦ ((net.reserve s).0, t, err no_source_port)
            | some port ↦ tried port
          ] in
              LeavesNothing t r.1 r.2)
      reserved none again = λ k. inr refl
      reserved (some port) again =
          let a = net.attempt port (net.reserve s).0 in
          let (t1, keys) = register proto port tunnel now a.calls t in
          conclude-LeavesNothing a.ended a.state t t1 keys _ _
            (λ u. late_nothing proto port tunnel now a.late u (punctual port (net.reserve s).0))
            (forgotten-AddsNothing proto port tunnel now a.calls t) (λ u. again a.state u)

-- Where the dialer makes no call of `ControlContext` after its attempt has returned, a dial that fails
-- has added no route to the table, and one that connects has added none once its connection is closed,
-- whatever else the network does in the attempts.
pub dial_proxy-LeavesNothing :
    {S : Type 0} (net : Network S) (punctual : HasNoLateCall net) (kind : Transport) (tunnel : Bool)
    (now : ℕ) (s : S) (t : ProxyTable)
    → (let r = dial_proxy net kind tunnel now s t in LeavesNothing t r.1 r.2)
unfolding dial_proxy
dial_proxy-LeavesNothing net punctual tcp tunnel now s t =
    attempts-LeavesNothing net punctual 6 tunnel now 4 s t
dial_proxy-LeavesNothing net punctual udp tunnel now s t =
    attempts-LeavesNothing net punctual 17 tunnel now 4 s t
dial_proxy-LeavesNothing net punctual other_network tunnel now s t = λ k. inr refl
