-- ===== src/Flow/Buckets.antt =====
-- internal/flow/index.go: the buckets of `socketLocal` after an endpoint was put in or taken out.
use split_wire.Prelude.{
  Dict, Option, Option-cases, [], arith, delete, inl, inr, insert, ite, lookup, lookup-delete,
  lookup-insert, none, refl, some, subst, sym, ℕ, ℕ_discrete, ◌∷◌, ◌≡◌, ◌≢◌,
}
use split_wire.Flow.{
  Index, Bucket, Entry, LocalKey, LocalKey-discrete, drop_from_bucket, find_bucket, put_socket,
}

-- The entry of an endpoint under a local key.
abbrev pub in_bucket : ℕ → Option Bucket → Option Entry
in_bucket id none = none
in_bucket id (some b) = lookup ℕ_discrete id b

abbrev pub owned : ℕ → LocalKey → Dict LocalKey Bucket → Option Entry
owned id lk buckets = in_bucket id (find_bucket lk buckets)

no_entry : (n : ℕ) → lookup {V = Entry} ℕ_discrete n [] ≡ none
unfolding lookup
no_entry n = refl

-- `drop_from_bucket` at each bucket and at what is left of it.
dropped : LocalKey → Dict LocalKey Bucket → Bucket → Dict LocalKey Bucket
dropped lk m [] = delete LocalKey-discrete lk m
dropped lk m (e ∷ rest) = insert LocalKey-discrete lk (e ∷ rest) m

find_bucket-dropped :
    (lk lk' : LocalKey) (m : Dict LocalKey Bucket) (b : Bucket)
    → find_bucket lk' (dropped lk m b)
      ≡ ite
          (LocalKey-discrete lk lk')
          (elim b [ [] ↦ none | e ∷ rest ↦ some (e ∷ rest) ])
          (find_bucket lk' m)
unfolding dropped
find_bucket-dropped lk lk' m [] = lookup-delete LocalKey-discrete lk lk' m
find_bucket-dropped lk lk' m (e ∷ rest) = lookup-insert LocalKey-discrete lk lk' (e ∷ rest) m

drop_from_bucket_present :
    (id : ℕ) (lk : LocalKey) (m : Dict LocalKey Bucket) (b : Bucket)
    → find_bucket lk m ≡ some b
    → drop_from_bucket id lk m ≡ dropped lk m (delete ℕ_discrete id b)
unfolding drop_from_bucket dropped
drop_from_bucket_present id lk m b e = ground arith

drop_from_bucket_absent :
    (id : ℕ) (lk : LocalKey) (m : Dict LocalKey Bucket)
    → find_bucket lk m ≡ none
    → drop_from_bucket id lk m ≡ m
unfolding drop_from_bucket
drop_from_bucket_absent id lk m e = ground arith

-- What the removal of one endpoint leaves under each local key.
pub owned-drop_from_bucket :
    (id id' : ℕ) (lk lk' : LocalKey) (m : Dict LocalKey Bucket)
    → owned id' lk' (drop_from_bucket id lk m)
      ≡ ite
          (LocalKey-discrete lk lk')
          (ite (ℕ_discrete id id') none (owned id' lk' m))
          (owned id' lk' m)
owned-drop_from_bucket id id' lk lk' m = elim (Option-cases (find_bucket lk m)) [
  | inl e ↦ rw (drop_from_bucket_absent id lk m e) (ground arith)
  | inr (b, e) ↦
      rw (drop_from_bucket_present id lk m b e)
        (rest b (delete ℕ_discrete id b) e (lookup-delete ℕ_discrete id id' b))
]
  where
    rest :
        (b c : Bucket)
        → find_bucket lk m ≡ some b
        → lookup ℕ_discrete id' c ≡ ite (ℕ_discrete id id') none (lookup ℕ_discrete id' b)
        → owned id' lk' (dropped lk m c)
          ≡ ite
              (LocalKey-discrete lk lk')
              (ite (ℕ_discrete id id') none (owned id' lk' m))
              (owned id' lk' m)
    rest b [] e f = ground (arith, no_entry id', find_bucket-dropped lk lk' m [])
    rest b (x ∷ c) e f = ground (arith, find_bucket-dropped lk lk' m (x ∷ c))

pub owned-put_socket :
    (id id' : ℕ) (lk lk' : LocalKey) (e : Entry) (i : Index)
    → owned id' lk' (put_socket id lk e i).socket_local
      ≡ ite
          (LocalKey-discrete lk lk')
          (ite (ℕ_discrete id id') (some e) (owned id' lk' i.socket_local))
          (owned id' lk' i.socket_local)
unfolding put_socket
owned-put_socket id id' lk lk' e i = elim (Option-cases (find_bucket lk i.socket_local)) [
  | inl f ↦ ground (
    arith,
    lookup-insert LocalKey-discrete lk lk' (insert ℕ_discrete id e []) i.socket_local,
    lookup-insert ℕ_discrete id id' e [],
    no_entry id',
  )
  | inr (b, f) ↦ ground (
    arith,
    lookup-insert LocalKey-discrete lk lk' (insert ℕ_discrete id e b) i.socket_local,
    lookup-insert ℕ_discrete id id' e b,
  )
]

abbrev pub NoEmpty : Dict LocalKey Bucket → Type 0
NoEmpty m = (lk : LocalKey) (b : Bucket) → find_bucket lk m ≡ some b → b ≢ []

dropped_not_empty :
    (lk : LocalKey) (m : Dict LocalKey Bucket) (c : Bucket) → NoEmpty m → NoEmpty (dropped lk m c)
dropped_not_empty lk m [] h lk' b e = h lk' b (ground (arith, find_bucket-dropped lk lk' m []))
dropped_not_empty lk m (x ∷ c) h lk' b e = elim (LocalKey-discrete lk lk') [
  | yes same ↦ ground (arith, find_bucket-dropped lk lk' m (x ∷ c))
  | no ne ↦ h lk' b (ground (arith, find_bucket-dropped lk lk' m (x ∷ c)))
]

pub drop_from_bucket_not_empty :
    (id : ℕ) (lk : LocalKey) (m : Dict LocalKey Bucket)
    → NoEmpty m
    → NoEmpty (drop_from_bucket id lk m)
drop_from_bucket_not_empty id lk m h = elim (Option-cases (find_bucket lk m)) [
  | inl e ↦ subst NoEmpty (sym (drop_from_bucket_absent id lk m e)) h
  | inr (b, e) ↦
      subst NoEmpty (sym (drop_from_bucket_present id lk m b e))
        (dropped_not_empty lk m (delete ℕ_discrete id b) h)
]

pub insert-ne-nil : (id : ℕ) (e : Entry) (b : Bucket) → insert ℕ_discrete id e b ≢ []
unfolding insert
insert-ne-nil id e [] h = cc
insert-ne-nil id e ((j, x) ∷ b) h = ground arith
