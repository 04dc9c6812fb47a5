-- ===== src/Routes/Sticky.antt =====
-- internal/engine/flowroute.go: the route of a flow from one call to the next.
use split_wire.Prelude.{
  Bool, Option-cases, ap, arith, inl, inr, insert, lookup-delete_ne, lookup-insert,
  lookup-insert_ne, lookup-insert_self, lookup-retain, ltb, none, not, refl, some, subst, sym, ℕ,
  ◌+◌, ◌∙◌, ◌≡◌, ◌≢◌, ◌≤◌,
}
use split_wire.Flow.{Key, Process, Key-discrete}
use split_wire.Routes.{
  FlowRoute, FlowTable, delete_route, find_route, set_route, sweep_routes, touch_route,
}

-- A call on the table that leaves the flow `k` in it: a call of any method, but a delete of another
-- flow only, and a sweep only while the flow is recent.
pub data Step (k : Key) : FlowTable → FlowTable → Type 0 where
  touched : {t : FlowTable} (j : Key) (now : ℕ) → Step k t (touch_route j now t).0
  stored :
      {t : FlowTable} (j : Key) (tunnel : Bool) (proc : Process) (known : Bool) (now : ℕ)
      → Step k t (set_route j tunnel proc known now t)
  deleted : {t : FlowTable} (j : Key) → j ≢ k → Step k t (delete_route j t)
  swept :
      {t : FlowTable} (age now : ℕ)
      → ((e : FlowRoute) → find_route k t ≡ some e → now ≤ e.seen + age)
      → Step k t (sweep_routes age now t)

pub data Run (k : Key) : FlowTable → FlowTable → Type 0 where
  done : {t : FlowTable} → Run k t t
  next : {t u v : FlowTable} → Step k t u → Run k u v → Run k t v

-- The flow has a route with the decision of `e`.
abbrev pub Decided : Key → FlowRoute → FlowTable → Type 0
Decided k e t =
    (e' : FlowRoute) × (find_route k t ≡ some e')
    × (e'.tunnel ≡ e.tunnel)
    × (e'.proc ≡ e.proc)
    × (e'.known ≡ e.known)

abbrev seen_at : ℕ → FlowRoute → FlowRoute
seen_at now e = record e { seen = now }

touch_route_absent :
    (j : Key) (now : ℕ) (t : FlowTable) → find_route j t ≡ none → (touch_route j now t).0 ≡ t
unfolding touch_route
touch_route_absent j now t e = ground arith

touch_route_present :
    (j : Key) (now : ℕ) (t : FlowTable) (x : FlowRoute)
    → find_route j t ≡ some x
    → (touch_route j now t).0 ≡ insert Key-discrete j (seen_at now x) t
unfolding touch_route
touch_route_present j now t x e = ground arith

touch_route-Decided :
    (k j : Key) (now : ℕ) (e : FlowRoute) (t : FlowTable)
    → Decided k e t
    → Decided k e (touch_route j now t).0
touch_route-Decided k j now e t d = elim (Option-cases (find_route j t)) [
  | inl absent ↦ subst (Decided k e) (sym (touch_route_absent j now t absent)) d
  | inr (x, here) ↦ subst (Decided k e) (sym (touch_route_present j now t x here)) (rest x here d)
]
  where
    rest :
        (x : FlowRoute)
        → find_route j t ≡ some x
        → Decided k e t
        → Decided k e (insert Key-discrete j (seen_at now x) t)
    rest x here (e', f, a, b, c) = elim (Key-discrete j k) [
      | yes p ↦
          let same : x ≡ e' = ground arith in
          (
            seen_at now x,
            ground (arith, lookup-insert Key-discrete j k (seen_at now x) t),
            ap (λ y. y.tunnel) same ∙ a,
            ap (λ y. y.proc) same ∙ b,
            ap (λ y. y.known) same ∙ c,
          )
      | no ne ↦ (e', lookup-insert_ne Key-discrete j k (seen_at now x) t ne ∙ f, a, b, c)
    ]

set_route-Decided :
    (k j : Key) (tunnel : Bool) (proc : Process) (known : Bool) (now : ℕ) (e : FlowRoute)
    (t : FlowTable)
    → Decided k e t
    → Decided k e (set_route j tunnel proc known now t)
unfolding set_route
set_route-Decided k j tunnel proc known now e t (e', f, a, b, c) =
    let fresh : FlowRoute = record { tunnel = tunnel; proc = proc; known = known; seen = now } in
    (e', ground (arith, lookup-insert Key-discrete j k fresh t), a, b, c)

step-Decided :
    (k : Key) (e : FlowRoute) {t u : FlowTable} → Step k t u → Decided k e t → Decided k e u
step-Decided k e (touched {t} j now) d = touch_route-Decided k j now e t d
step-Decided k e (stored {t} j tunnel proc known now) d =
    set_route-Decided k j tunnel proc known now e t d
step-Decided k e (deleted {t} j ne) (e', f, a, b, c) =
    (e', unfold delete_route in (lookup-delete_ne Key-discrete j k t ne ∙ f), a, b, c)
step-Decided k e (swept {t} age now recent) (e', f, a, b, c) = (
  e',
  unfold sweep_routes in
      ground
        (arith, lookup-retain Key-discrete (λ x. not (ltb (x.seen + age) now)) k t, recent e' f),
  a,
  b,
  c,
)

pub Run-Decided :
    (k : Key) (e : FlowRoute) {t u : FlowTable} → Run k t u → Decided k e t → Decided k e u
Run-Decided k e done d = d
Run-Decided k e (next s rest) d = Run-Decided k e rest (step-Decided k e s d)

-- A flow keeps the route that was decided for it first: no later Lookup, Set or Sweep, and no Delete
-- of another flow, changes its decision, as long as no sweep finds it too old.
pub decision_stays :
    (k : Key) (tunnel : Bool) (proc : Process) (known : Bool) (now : ℕ) (t u : FlowTable)
    → find_route k t ≡ none
    → Run k (set_route k tunnel proc known now t) u
    → (e : FlowRoute) × (find_route k u ≡ some e)
      × (e.tunnel ≡ tunnel)
      × (e.proc ≡ proc)
      × (e.known ≡ known)
decision_stays k tunnel proc known now t u absent run =
    Run-Decided k fresh run (fresh, set_route_new, refl, refl, refl)
  where
    fresh : FlowRoute
    fresh = record { tunnel = tunnel; proc = proc; known = known; seen = now }

    set_route_new : find_route k (set_route k tunnel proc known now t) ≡ some fresh
    set_route_new = unfold set_route in ground (arith, lookup-insert_self Key-discrete k fresh t)
