-- ===== src/Loghub.antt =====
-- internal/loghub/loghub.go: the fan-out of a log record to its sinks, and the bounded history with
-- its pending delta that a consumer reads. A call under the lock is one step. The callback `notify` is
-- a flag that says whether one is set; a method that may call it says whether it does.
pub mod History
pub mod Screen
use split_wire.Prelude.{
  Bool, Bytes, List, Option, [], drop, false, if◌then◌else◌, leb, length, ltb, none, not, some,
  true, ℕ, ◌&&◌, ◌++◌, ◌+◌, ◌-◌, ◌==◌, ◌||◌, ◌∷◌,
}

-- What a sink's `Write` returns: the count, and an error of the sink's own or none. `S` is the state of
-- all sinks.
pub data SinkError (E : Type 0) : Type 0 where
  failed : E → SinkError E
  short_write : SinkError E

abbrev pub Sink : Type 0 → Type 0 → Type 0
Sink S E = Bytes → S → S × ℕ × Option E

module _ {S E : Type 0} where
  -- The loop of `Hub.Write` over the sinks, in the order in which they were added.
  unfoldable pub write_all : List (Sink S E) → Bytes → S → S × List (SinkError E)
  write_all [] p s = (s, [])
  write_all (w ∷ ws) p s =
      let (s1, n, e) = w p s in
      let (s2, errs) = write_all ws p s1 in
      (
        s2,
        elim e [
          | some x ↦ failed x ∷ errs
          | none ↦ if n == length p then errs else short_write ∷ errs
        ],
      )

  -- `Hub.Write`: the count is that of the record, also where sinks fail.
  abbrev pub hub_write : List (Sink S E) → Bytes → S → S × ℕ × List (SinkError E)
  hub_write ws p s = let (s', errs) = write_all ws p s in (s', length p, errs)

pub record Ring : Type 0 where
  pub buf : Bytes
  pub pending : Bytes
  pub max_bytes : ℕ
  pub notify : Bool
  pub notified : Bool
  pub resync : Bool

unfoldable pub new_ring : ℕ → Ring
new_ring max_bytes = record {
  buf = [];
  pending = [];
  max_bytes = if ltb max_bytes 4096 then 4096 else max_bytes;
  notify = false;
  notified = false;
  resync = false;
}

-- `appendHistoryLocked`.
unfoldable pub append_history : Bytes → Ring → Ring
append_history p r =
    if leb r.max_bytes (length p)
    then record r { buf = drop (length p - r.max_bytes) p }
    else record r {
      buf =
          (if ltb r.max_bytes (length r.buf + length p)
            then drop (length r.buf + length p - r.max_bytes) r.buf
            else r.buf)
          ++ p;
    }

unfoldable pub seed : Bytes → Ring → Ring
seed p r = record (append_history p r) { pending = []; resync = true }

-- Whether the callback is called at once is the second result.
unfoldable pub set_notify : Bool → Ring → Ring × Bool
set_notify given r =
    let should = given && (r.resync || not (length r.pending == 0)) && not r.notified in
    (record r { notify = given; notified = r.notified || should }, should)

-- The delta after a write, in a ring that is not to be read whole.
unfoldable pub append_pending : Bytes → Ring → Ring
append_pending p r =
    if leb r.max_bytes (length p) || ltb r.max_bytes (length r.pending + length p)
    then record r { pending = []; resync = true }
    else record r { pending = r.pending ++ p }

-- `Ring.Write`: the ring, and whether the callback is called.
unfoldable pub write_ring : Bytes → Ring → Ring × Bool
write_ring p r =
    let r1 = append_history p r in
    let r2 = if r1.resync then r1 else append_pending p r1 in
    let should = r2.notify && not r2.notified in
    (record r2 { notified = r2.notified || should }, should)

abbrev pub snapshot : Ring → Bytes
snapshot r = r.buf

pub record Drain : Type 0 where
  pub text : Bytes
  pub replace : Bool

unfoldable pub drain_and_ack : Ring → Ring × Drain
drain_and_ack r = (
  record r { pending = []; resync = false; notified = false },
  if r.resync
      then record { text = r.buf; replace = true }
      else record { text = r.pending; replace = false },
)

abbrev pub snapshot_and_ack : Ring → Ring × Bytes
snapshot_and_ack r = let (r', d) = drain_and_ack r in (r', d.text)

unfoldable pub clear : Ring → Ring
clear r = record r { buf = []; pending = []; resync = false; notified = false }
