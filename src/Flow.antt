-- ===== src/Flow.antt =====
-- internal/flow/index.go: which process owns a flow. The maps are association lists, a bucket of
-- `socketLocal` is a value in its map, the time is an argument, and `notified` says whether the
-- notification channel, which has room for one, is full.
pub mod Buckets
pub mod Sockets
pub mod Histories
use split_wire.Prelude.{
  Bool, Dict, List, Option, [], delete, false, if◌then◌else◌, insert, lookup, ltb, none, not, some,
  true, ℕ, ℕ_discrete, ◌&&◌, ◌+◌, ◌==◌, ◌||◌, ◌∷◌,
}
use split_wire.Ip.{Addr, unmap, is_valid, is_unspecified, invalid, Addr-discrete}
use split_wire.Text.{Text, Platform, trim_space, replace_char, is_empty, has_char, text_eq}

pub record Key : Type 0 where
  pub proto : ℕ
  pub local : Addr
  pub remote : Addr
  pub local_port : ℕ
  pub remote_port : ℕ

-- `local` is invalid for any local address.
pub record LocalKey : Type 0 where
  pub proto : ℕ
  pub local : Addr
  pub port : ℕ

pub record Process : Type 0 where
  pub pid : ℕ
  pub name : Text
  pub path : Text

pub record Entry : Type 0 where
  pub process : Process
  pub seen : ℕ

pub record SocketEntry : Type 0 where
  pub key : LocalKey
  pub entry : Entry

pub Key-discrete : Discrete Key
Key-discrete = hlevel (ℕ_discrete, Addr-discrete)

pub LocalKey-discrete : Discrete LocalKey
LocalKey-discrete = hlevel (ℕ_discrete, Addr-discrete)

abbrev pub Bucket : Type 0
Bucket = Dict ℕ Entry

pub record Index : Type 0 where
  pub live : Dict Key Entry
  pub snapshot_exact : Dict Key Entry
  pub locals : Dict LocalKey Entry
  pub sockets : Dict ℕ SocketEntry
  pub socket_local : Dict LocalKey Bucket
  pub notified : Bool

abbrev pub new_index : Index
new_index = record {
  live = [];
  snapshot_exact = [];
  locals = [];
  sockets = [];
  socket_local = [];
  notified = false;
}

abbrev pub find_flow : Key → Dict Key Entry → Option Entry
find_flow = lookup Key-discrete

abbrev pub find_local : LocalKey → Dict LocalKey Entry → Option Entry
find_local = lookup LocalKey-discrete

abbrev pub find_bucket : LocalKey → Dict LocalKey Bucket → Option Bucket
find_bucket = lookup LocalKey-discrete

abbrev pub find_socket : ℕ → Dict ℕ SocketEntry → Option SocketEntry
find_socket = lookup ℕ_discrete

unfoldable pub normalize_process : Platform → Process → Process
normalize_process os p =
    let name = trim_space p.name in
    record p {
      name =
          if is_empty name && not (is_empty p.path)
          then os.base (replace_char b'\\' b'/' p.path)
          else name;
    }

unfoldable pub normalize_local : Addr → Addr
normalize_local a = if not (is_valid a) || is_unspecified a then invalid else unmap a

abbrev pub signal : Index → Index
signal i = record i { notified = true }

module _ (os : Platform) where
  unfoldable pub add : Key → Process → ℕ → Index → Index
  add k p now i = signal (record i {
    live = insert Key-discrete k (record { process = normalize_process os p; seen = now }) i.live;
  })

  unfoldable pub add_snapshot_exact : Key → Process → ℕ → Index → Index
  add_snapshot_exact k p now i = signal (record i {
    snapshot_exact =
        insert Key-discrete k (record { process = normalize_process os p; seen = now })
          i.snapshot_exact;
  })

  unfoldable pub add_local : ℕ → Addr → ℕ → Process → ℕ → Index → Index
  add_local proto local port p now i =
      if port == 0
      then i
      else signal (record i {
        locals =
            insert LocalKey-discrete
              (record { proto = proto; local = normalize_local local; port = port })
              (record { process = normalize_process os p; seen = now }) i.locals;
      })

-- `socketLocal[lk]` without an endpoint; a bucket that becomes empty goes.
unfoldable pub drop_from_bucket : ℕ → LocalKey → Dict LocalKey Bucket → Dict LocalKey Bucket
drop_from_bucket id lk buckets = elim (find_bucket lk buckets) [
  | none ↦ buckets
  | some bucket ↦ elim (delete ℕ_discrete id bucket) [
    | [] ↦ delete LocalKey-discrete lk buckets
    | e ∷ rest ↦ insert LocalKey-discrete lk (e ∷ rest) buckets
  ]
]

unfoldable pub delete_socket_index : ℕ → LocalKey → Index → Index
delete_socket_index id lk i = record i {
  sockets = delete ℕ_discrete id i.sockets;
  socket_local = drop_from_bucket id lk i.socket_local;
}

-- The entry of an endpoint that is not there.
unfoldable pub put_socket : ℕ → LocalKey → Entry → Index → Index
put_socket id lk e i = record i {
  sockets = insert ℕ_discrete id (record { key = lk; entry = e }) i.sockets;
  socket_local =
      insert LocalKey-discrete lk
        (insert ℕ_discrete id e (elim (find_bucket lk i.socket_local) [ none ↦ [] | some b ↦ b ]))
        i.socket_local;
}

unfoldable pub drop_socket : ℕ → Index → Index
drop_socket id i = elim (find_socket id i.sockets) [
  | none ↦ i
  | some old ↦ delete_socket_index id old.key i
]

unfoldable pub add_socket : Platform → ℕ → ℕ → Addr → ℕ → Process → ℕ → Index → Index
add_socket os id proto local port p now i =
    if (id == 0) || (port == 0)
    then add_local os proto local port p now i
    else signal (
        put_socket id (record { proto = proto; local = normalize_local local; port = port })
          (record { process = normalize_process os p; seen = now }) (drop_socket id i))

unfoldable pub delete_flow : Key → Index → Index
delete_flow k i = record i { live = delete Key-discrete k i.live }

unfoldable pub delete_local : ℕ → Addr → ℕ → Index → Index
delete_local proto local port i =
    let a = normalize_local local in
    let once =
      delete LocalKey-discrete (record { proto = proto; local = a; port = port }) i.locals in
    record i {
      locals =
          if is_valid a
          then delete LocalKey-discrete (record { proto = proto; local = invalid; port = port })
              once
          else once;
    }

unfoldable pub delete_socket : ℕ → Index → Index
delete_socket id i = if id == 0 then i else drop_socket id i

-- The loop of `newest`. Go gives the entries of a map in any order, so that of several entries with
-- the same time any may be the first.
unfoldable pub newest_from : Option Entry → Bucket → Option Entry
newest_from best [] = best
newest_from best ((id, e) ∷ bucket) =
    newest_from
      (elim best [ none ↦ some e | some b ↦ if ltb b.seen e.seen then some e else some b ]) bucket

unfoldable pub newest : Option Bucket → Option Entry
unfolding newest_from
newest none = none
newest (some bucket) = newest_from none bucket

-- The next source where one has no entry.
abbrev pub or_else : Option Entry → Option Entry → Option Entry
or_else none o = o
or_else (some e) o = some e

abbrev pub only_if : Bool → Option Entry → Option Entry
only_if true o = o
only_if false o = none

unfoldable pub find_owner : Key → Index → Option Entry
find_owner k i =
    let local = normalize_local k.local in
    let exact : LocalKey = record { proto = k.proto; local = local; port = k.local_port } in
    let wild : LocalKey = record { proto = k.proto; local = invalid; port = k.local_port } in
    or_else (find_flow k i.live) (
      or_else (newest (find_bucket exact i.socket_local)) (
        or_else (only_if (is_valid local) (newest (find_bucket wild i.socket_local))) (
          or_else (find_flow k i.snapshot_exact) (
            or_else (find_local exact i.locals)
              (only_if (is_valid local) (find_local wild i.locals))))))

-- `Lookup`.
unfoldable pub owner : Key → Index → Option Process
owner k i = elim (find_owner k i) [ none ↦ none | some e ↦ some e.process ]

-- `WaitLookup` up to its deadline: the index at the first look, and as it is at each notification
-- that comes before the deadline.
unfoldable pub wait_owner : Key → Index → List Index → Option Process
wait_owner k i [] = owner k i
wait_owner k i (j ∷ later) =
    let rest = wait_owner k j later in elim (owner k i) [ some p ↦ some p | none ↦ rest ]

-- The entries whose time does not lie before `now - age`.
unfoldable pub keep_recent : {K : Type 0} → ℕ → ℕ → Dict K Entry → Dict K Entry
keep_recent age now [] = []
keep_recent age now ((k, e) ∷ m) =
    let rest = keep_recent age now m in if ltb (e.seen + age) now then rest else (k, e) ∷ rest

unfoldable pub sweep : ℕ → ℕ → Index → Index
sweep age now i = record i {
  live = keep_recent age now i.live;
  snapshot_exact = keep_recent age now i.snapshot_exact;
  locals = keep_recent age now i.locals;
}

-- The loop of `Match`.
unfoldable pub match_names : Platform → Text → Text → List Text → Bool
match_names os name path [] = false
match_names os name path (x ∷ names) =
    let y = os.lower (trim_space x) in
    let hit =
      if has_char b'\\' y
      then text_eq path (replace_char b'/' b'\\' y)
      else text_eq name (os.lower (os.base (replace_char b'\\' b'/' y))) in
    (not (is_empty y) && hit) || match_names os name path names

unfoldable pub matches : Platform → Process → List Text → Bool
matches os p names =
    match_names os (os.lower p.name) (os.lower (replace_char b'/' b'\\' p.path)) names
