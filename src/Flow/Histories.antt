-- ===== src/Flow/Histories.antt =====
-- internal/flow/index.go: the index after any calls of its methods.
use split_wire.Prelude.{arith, refl, ℕ, ◌≡◌}
use split_wire.Ip.{Addr}
use split_wire.Text.{Platform}
use split_wire.Flow.{
  Index, Key, Process, new_index, add, add_snapshot_exact, add_local, add_socket, delete_flow,
  delete_local, delete_socket, sweep,
}
use split_wire.Flow.Sockets.{
  Inv, new_index-Inv, add_socket-Inv, delete_socket-Inv, add_local_sockets, same-Inv,
}

-- What comes of a new index by calls of `Add`, `AddSnapshotExact`, `AddLocal`, `AddSocket`, `Delete`,
-- `DeleteLocal`, `DeleteSocket` and `Sweep`, in any order.
pub data History (os : Platform) : Index → Type 0 where
  created : History os new_index
  added :
      {i : Index} (k : Key) (p : Process) (now : ℕ) → History os i → History os (add os k p now i)
  found :
      {i : Index} (k : Key) (p : Process) (now : ℕ)
      → History os i
      → History os (add_snapshot_exact os k p now i)
  bound :
      {i : Index} (proto : ℕ) (local : Addr) (port : ℕ) (p : Process) (now : ℕ)
      → History os i
      → History os (add_local os proto local port p now i)
  opened :
      {i : Index} (id proto : ℕ) (local : Addr) (port : ℕ) (p : Process) (now : ℕ)
      → History os i
      → History os (add_socket os id proto local port p now i)
  deleted : {i : Index} (k : Key) → History os i → History os (delete_flow k i)
  unbound :
      {i : Index} (proto : ℕ) (local : Addr) (port : ℕ)
      → History os i
      → History os (delete_local proto local port i)
  closed : {i : Index} (id : ℕ) → History os i → History os (delete_socket id i)
  swept : {i : Index} (age now : ℕ) → History os i → History os (sweep age now i)

add-Inv :
    (os : Platform) (k : Key) (p : Process) (now : ℕ) (i : Index) → Inv i → Inv (add os k p now i)
unfolding add
add-Inv os k p now i v = same-Inv i _ refl refl v

add_snapshot_exact-Inv :
    (os : Platform) (k : Key) (p : Process) (now : ℕ) (i : Index)
    → Inv i
    → Inv (add_snapshot_exact os k p now i)
unfolding add_snapshot_exact
add_snapshot_exact-Inv os k p now i v = same-Inv i _ refl refl v

delete_flow-Inv : (k : Key) (i : Index) → Inv i → Inv (delete_flow k i)
unfolding delete_flow
delete_flow-Inv k i v = same-Inv i _ refl refl v

delete_local_sockets :
    (proto : ℕ) (local : Addr) (port : ℕ) (i : Index)
    → let j = delete_local proto local port i in
      (j.sockets ≡ i.sockets) × (j.socket_local ≡ i.socket_local)
unfolding delete_local
delete_local_sockets proto local port i = ground arith

sweep-Inv : (age now : ℕ) (i : Index) → Inv i → Inv (sweep age now i)
unfolding sweep
sweep-Inv age now i v = same-Inv i _ refl refl v

-- After any calls of the index's methods `sockets` and `socketLocal` agree: every endpoint has its
-- entry under its local key, every entry there belongs to an endpoint, and no bucket is left empty.
pub History-Inv : (os : Platform) (i : Index) → History os i → Inv i
History-Inv os _ created = new_index-Inv
History-Inv os _ (added {i} k p now h) = add-Inv os k p now i (History-Inv os i h)
History-Inv os _ (found {i} k p now h) = add_snapshot_exact-Inv os k p now i (History-Inv os i h)
History-Inv os _ (bound {i} proto local port p now h) =
    let same = add_local_sockets os proto local port p now i in
    same-Inv i _ same.0 same.1 (History-Inv os i h)
History-Inv os _ (opened {i} id proto local port p now h) =
    add_socket-Inv os id proto local port p now i (History-Inv os i h)
History-Inv os _ (deleted {i} k h) = delete_flow-Inv k i (History-Inv os i h)
History-Inv os _ (unbound {i} proto local port h) =
    let same = delete_local_sockets proto local port i in
    same-Inv i _ same.0 same.1 (History-Inv os i h)
History-Inv os _ (closed {i} id h) = delete_socket-Inv id i (History-Inv os i h)
History-Inv os _ (swept {i} age now h) = sweep-Inv age now i (History-Inv os i h)
