-- ===== src/Flow/Sockets.antt =====
-- internal/flow/index.go: `AddSocket` and `DeleteSocket` on the maps `sockets` and `socketLocal`.
use split_wire.Prelude.{
  Bool, Option-cases, [], ap, arith, false, if◌then◌else◌, inl, inr, insert, ite, lookup,
  lookup-delete, lookup-delete_self, lookup-insert, none, some, subst, sym, true, ℕ, ℕ_discrete,
  ◌<◌, ◌==◌, ◌||◌, ◌∙◌, ◌≡◌, ◌≢◌,
}
use split_wire.Flow.Buckets.{
  owned, drop_from_bucket_not_empty, insert-ne-nil, owned-drop_from_bucket, owned-put_socket,
}
use split_wire.Flow.{
  Index, put_socket, find_bucket, find_socket, Bucket, Entry, LocalKey, LocalKey-discrete,
  SocketEntry, delete_socket_index, drop_socket, Process, add_local, add_socket, delete_socket,
  normalize_local, normalize_process, signal, new_index,
}
use split_wire.Ip.{Addr}
use split_wire.Text.{Platform}

-- Every endpoint has its entry under its own local key and under no other, no other entry is there,
-- and no bucket is empty.
pub record Inv (i : Index) : Type 0 where
  pub has_entry :
      (id : ℕ) (s : SocketEntry)
      → find_socket id i.sockets ≡ some s
      → owned id s.key i.socket_local ≡ some s.entry
  pub has_socket :
      (id : ℕ) (lk : LocalKey) (e : Entry)
      → owned id lk i.socket_local ≡ some e
      → find_socket id i.sockets ≡ some (record { key = lk; entry = e })
  pub not_empty : (lk : LocalKey) (b : Bucket) → find_bucket lk i.socket_local ≡ some b → b ≢ []

-- The removal of an endpoint that the index has.
module _ (id : ℕ) (old : SocketEntry) (i : Index) (v : Inv i)
    (known : find_socket id i.sockets ≡ some old) where
  delete_socket_index-Inv : Inv (delete_socket_index id old.key i)
  unfolding delete_socket_index
  delete_socket_index-Inv = record {
    has_entry = λ id' s e. ground (
      arith,
      lookup-delete ℕ_discrete id id' i.sockets,
      v.has_entry id' s,
      owned-drop_from_bucket id id' old.key s.key i.socket_local,
    );
    has_socket = λ id' lk e f. ground (
      arith,
      lookup-delete ℕ_discrete id id' i.sockets,
      v.has_socket id' lk e,
      owned-drop_from_bucket id id' old.key lk i.socket_local,
    );
    not_empty = drop_from_bucket_not_empty id old.key i.socket_local v.not_empty;
  }

drop_socket-Inv : (id : ℕ) (i : Index) → Inv i → Inv (drop_socket id i)
unfolding drop_socket
drop_socket-Inv id i v = elim (Option-cases (find_socket id i.sockets)) [
  | inl e ↦ rw (e, drop_socket) v
  | inr (old, e) ↦ rw (e, drop_socket) (delete_socket_index-Inv id old i v e)
]

-- No entry is left of an endpoint that was dropped.
drop_socket_gone : (id : ℕ) (i : Index) → find_socket id (drop_socket id i).sockets ≡ none
unfolding drop_socket delete_socket_index
drop_socket_gone id i = ground (arith, lookup-delete_self ℕ_discrete id i.sockets)

put_socket-Inv :
    (id : ℕ) (lk : LocalKey) (e : Entry) (i : Index)
    → Inv i
    → find_socket id i.sockets ≡ none
    → Inv (put_socket id lk e i)
unfolding put_socket
put_socket-Inv id lk e i v new = record {
  has_entry = λ id' s f. ground (
    arith,
    lookup-insert ℕ_discrete id id' (record { key = lk; entry = e }) i.sockets,
    v.has_entry id' s,
    owned-put_socket id id' lk s.key e i,
  );
  has_socket = λ id' lk' e' f. ground (
    arith,
    lookup-insert ℕ_discrete id id' (record { key = lk; entry = e }) i.sockets,
    v.has_socket id' lk' e',
    owned-put_socket id id' lk lk' e i,
  );
  not_empty = λ lk' b f. elim (LocalKey-discrete lk lk') [
    | yes same ↦
        let bucket : Bucket =
          insert ℕ_discrete id e
            (elim (find_bucket lk i.socket_local) [ none ↦ [] | some c ↦ c ]) in
        ground (
          arith,
          lookup-insert LocalKey-discrete lk lk' bucket i.socket_local,
          insert-ne-nil id e (elim (find_bucket lk i.socket_local) [ none ↦ [] | some c ↦ c ]),
        )
    | no ne ↦ v.not_empty lk' b (
        ground (
          arith,
          lookup-insert LocalKey-discrete lk lk'
              (insert ℕ_discrete id e
                (elim (find_bucket lk i.socket_local) [ none ↦ [] | some c ↦ c ]))
              i.socket_local,
        ))
  ];
}

signal-Inv : (i : Index) → Inv i → Inv (signal i)
signal-Inv i v = record {
  has_entry = v.has_entry;
  has_socket = v.has_socket;
  not_empty = v.not_empty;
}

pub add_local_sockets :
    (os : Platform) (proto : ℕ) (local : Addr) (port : ℕ) (p : Process) (now : ℕ) (i : Index)
    → let j = add_local os proto local port p now i in
      (j.sockets ≡ i.sockets) × (j.socket_local ≡ i.socket_local)
unfolding add_local
add_local_sockets os proto local port p now i = ground arith

pub same-Inv :
    (i j : Index) → j.sockets ≡ i.sockets → j.socket_local ≡ i.socket_local → Inv i → Inv j
same-Inv i j s l v = record {
  has_entry = λ id x e. ground (arith, v.has_entry id x);
  has_socket = λ id lk x e. ground (arith, v.has_socket id lk x);
  not_empty = λ lk b e. v.not_empty lk b (ground arith);
}

pub new_index-Inv : Inv new_index
unfolding lookup
new_index-Inv = record {
  has_entry = λ id s e. cc;
  has_socket = λ id lk e f. cc;
  not_empty = λ lk b e. cc;
}

-- `AddSocket` keeps `sockets` and `socketLocal` in agreement, also where the endpoint's number was in
-- use, under another key or the same.
pub add_socket-Inv :
    (os : Platform) (id proto : ℕ) (local : Addr) (port : ℕ) (p : Process) (now : ℕ) (i : Index)
    → Inv i
    → Inv (add_socket os id proto local port p now i)
unfolding add_socket
add_socket-Inv os id proto local port p now i v =
    let lk : LocalKey = record { proto = proto; local = normalize_local local; port = port } in
    let e : Entry = record { process = normalize_process os p; seen = now } in
    let same = add_local_sockets os proto local port p now i in
    either ((id == 0) || (port == 0)) _ _ (same-Inv i _ same.0 same.1 v) (
      signal-Inv _ (
        put_socket-Inv id lk e (drop_socket id i) (drop_socket-Inv id i v) (drop_socket_gone id i)))
  where
    either : (c : Bool) (a b : Index) → Inv a → Inv b → Inv (if c then a else b)
    either true a b x y = x
    either false a b x y = y

delete_socket_given : (id : ℕ) (i : Index) → 0 < id → delete_socket id i ≡ drop_socket id i
unfolding delete_socket
delete_socket_given id i h = ground arith

-- `DeleteSocket` keeps `sockets` and `socketLocal` in agreement, whether the endpoint is known or not.
pub delete_socket-Inv : (id : ℕ) (i : Index) → Inv i → Inv (delete_socket id i)
unfolding delete_socket
delete_socket-Inv id i v = elim (ℕ_discrete id 0) [
  | yes none_given ↦ ground (arith, v)
  | no given ↦ subst Inv (sym (delete_socket_given id i (omega arith))) (drop_socket-Inv id i v)
]

owned_absent :
    (id : ℕ) (lk : LocalKey) (i : Index)
    → Inv i
    → find_socket id i.sockets ≡ none
    → owned id lk i.socket_local ≡ none
owned_absent id lk i v e = elim (Option-cases (owned id lk i.socket_local)) [
  | inl f ↦ f
  | inr (x, f) ↦ absurd (ground (arith, v.has_socket id lk x f))
]

owned_elsewhere :
    (id : ℕ) (lk : LocalKey) (old : SocketEntry) (i : Index)
    → Inv i
    → find_socket id i.sockets ≡ some old
    → ¬ (old.key ≡ lk)
    → owned id lk i.socket_local ≡ none
owned_elsewhere id lk old i v e ne = elim (Option-cases (owned id lk i.socket_local)) [
  | inl f ↦ f
  | inr (x, f) ↦ absurd (ground (arith, v.has_socket id lk x f))
]

-- With the maps in agreement, `DeleteSocket` of an endpoint with a number takes its own entry from
-- every local key and leaves the entry of every other endpoint, also one under the same protocol,
-- address and port.
pub owned-delete_socket :
    (id id' : ℕ) (lk : LocalKey) (i : Index)
    → Inv i
    → 0 < id
    → owned id' lk (delete_socket id i).socket_local
      ≡ ite (ℕ_discrete id id') none (owned id' lk i.socket_local)
unfolding drop_socket delete_socket_index
owned-delete_socket id id' lk i v pos =
    ap (λ (j : Index). owned id' lk j.socket_local) (delete_socket_given id i pos)
    ∙ elim (Option-cases (find_socket id i.sockets)) [
      | inl e ↦ ground (arith, owned_absent id lk i v e)
      | inr (old, e) ↦ ground (
        arith,
        owned-drop_from_bucket id id' old.key lk i.socket_local,
        owned_elsewhere id lk old i v e,
      )
    ]
