-- ===== src/Loghub/Screen.antt =====
-- internal/loghub/loghub.go: a ring, the text that its consumer holds, and all that was logged since the
-- ring was cleared. What the window does with the text, its line ends and its limit, is not modelled.
use mathlib.Core.List.{append-nil, append_assoc}
use split_wire.Prelude.{
  Bool, Bool-cases, Bytes, [], ap, arith, false, if◌then◌else◌, inl, inr, length, length-append,
  refl, sym, true, ℕ, ◌++◌, ◌∙◌, ◌≡◌, ◌≤◌,
}
use split_wire.Loghub.{
  Ring, Drain, clear, seed, append_history, drain_and_ack, new_ring, set_notify, write_ring,
  append_pending,
}
use split_wire.Loghub.History.{last, append_history_lem, last-append}

-- What the comment on `Drain` asks of a consumer: Replace means that the text takes the place of all
-- that it holds, and the text is new data otherwise.
abbrev pub consume : Drain → Bytes → Bytes
consume d text = if d.replace then d.text else text ++ d.text

-- The calls in an order that a consumer may make them: the history is read before a callback is set,
-- and the consumer clears its own text with the ring.
pub data Run : Ring → Bytes → Bytes → Type 0 where
  start : (n : ℕ) → Run (new_ring n) [] []
  seeded :
      (r : Ring) (text log p : Bytes)
      → r.notify ≡ false
      → Run r text log
      → Run (seed p r) text (log ++ p)
  notified :
      (r : Ring) (text log : Bytes) (given : Bool)
      → Run r text log
      → Run (set_notify given r).0 text log
  wrote : (r : Ring) (text log p : Bytes) → Run r text log → Run (write_ring p r).0 text (log ++ p)
  drained :
      (r : Ring) (text log : Bytes)
      → Run r text log
      → Run (drain_and_ack r).0 (consume (drain_and_ack r).1 text) log
  cleared : (r : Ring) (text log : Bytes) → Run r text log → Run (clear r) [] []

-- The history is the end of the log; the consumer's text and the delta make up the same end, unless the
-- next drain replaces the text; and where there is something to show, a wake-up is on its way.
pub record Synced (r : Ring) (text log : Bytes) : Type 0 where
  pub history : r.buf ≡ last r.max_bytes log
  pub delta : r.resync ≡ false → last r.max_bytes (text ++ r.pending) ≡ r.buf
  pub bounded : length r.pending ≤ r.max_bytes
  pub awake : r.notify ≡ true → r.notified ≡ false → (r.resync ≡ false) × (length r.pending ≡ 0)

history_written :
    (p : Bytes) (r : Ring) (log : Bytes)
    → r.buf ≡ last r.max_bytes log
    → (append_history p r).buf ≡ last r.max_bytes (log ++ p)
history_written p r log h =
    append_history_lem p r
    ∙ ap (λ (b : Bytes). last r.max_bytes (b ++ p)) h
    ∙ last-append r.max_bytes log p

-- `append_history` changes the history alone.
append_history_rest :
    (p : Bytes) (r : Ring)
    → let r' = append_history p r in
      (r'.pending ≡ r.pending)
      × (r'.max_bytes ≡ r.max_bytes)
      × (r'.notify ≡ r.notify)
      × (r'.notified ≡ r.notified)
      × (r'.resync ≡ r.resync)
unfolding append_history
append_history_rest p r = ground arith

seed-Synced :
    (r : Ring) (text log p : Bytes)
    → r.notify ≡ false
    → Synced r text log
    → Synced (seed p r) text (log ++ p)
unfolding seed
seed-Synced r text log p n v = record {
  history = ground (arith, append_history_rest p r, history_written p r log v.history);
  delta = λ e. cc;
  bounded = omega arith;
  awake = λ e f. ground (arith, append_history_rest p r);
}

append_pending_delta :
    (p : Bytes) (r : Ring) (text : Bytes) (old : Bytes)
    → last r.max_bytes (text ++ r.pending) ≡ old
    → (append_pending p r).resync ≡ false
    → last r.max_bytes (text ++ (append_pending p r).pending) ≡ last r.max_bytes (old ++ p)
unfolding append_pending
append_pending_delta p r text old h e =
    let joined =
      ap (last r.max_bytes) (sym (append_assoc text r.pending p))
      ∙ sym (last-append r.max_bytes (text ++ r.pending) p)
      ∙ ap (λ (b : Bytes). last r.max_bytes (b ++ p)) h in
    ground (arith, joined)

append_pending_rest :
    (p : Bytes) (r : Ring)
    → length r.pending ≤ r.max_bytes
    → let r' = append_pending p r in
      (r'.buf ≡ r.buf)
      × (r'.max_bytes ≡ r.max_bytes)
      × (r'.notify ≡ r.notify)
      × (r'.notified ≡ r.notified)
      × (length r'.pending ≤ r'.max_bytes)
unfolding append_pending
append_pending_rest p r h = ground (arith, length-append r.pending p)

-- The delta of `write_ring`, once the history has been written.
write_ring_parts :
    (p : Bytes) (r : Ring)
    → let r1 = append_history p r in
      let r2 = if r1.resync then r1 else append_pending p r1 in
      let r' = (write_ring p r).0 in
      (r'.buf ≡ r2.buf)
      × (r'.pending ≡ r2.pending)
      × (r'.max_bytes ≡ r2.max_bytes)
      × (r'.notify ≡ r2.notify)
      × (r'.resync ≡ r2.resync)
      × (r2.notify ≡ true → r'.notified ≡ true)
unfolding write_ring
write_ring_parts p r = (refl, refl, refl, refl, refl, λ e. ground arith)

write_ring-Synced :
    (r : Ring) (text log p : Bytes) → Synced r text log → Synced (write_ring p r).0 text (log ++ p)
write_ring-Synced r text log p v =
    let r1 = append_history p r in
    let parts = write_ring_parts p r in
    let same = append_history_rest p r in
    let room : length r1.pending ≤ r1.max_bytes = ground (arith, same, v.bounded) in
    let rest = append_pending_rest p r1 room in
    let written = history_written p r log v.history in
    record {
      history = ground (arith, parts, same, rest, written);
      delta = λ e. ground (
        arith,
        parts,
        same,
        rest,
        written,
        v.delta,
        append_history_lem p r,
        append_pending_delta p r1 text r.buf,
      );
      bounded = ground (arith, parts, same, rest, v.bounded);
      awake = λ e f. ground (arith, parts, same, rest);
    }

drain_and_ack-Synced :
    (r : Ring) (text log : Bytes)
    → Synced r text log
    → let (r', d) = drain_and_ack r in Synced r' (consume d text) log
unfolding drain_and_ack
drain_and_ack-Synced r text log v = record {
  history = v.history;
  delta = λ e. elim (Bool-cases r.resync) [
    | inl whole ↦
        ground (arith, append-nil r.buf, append-nil log, v.history, last-append r.max_bytes log [])
    | inr part ↦ ground (arith, append-nil (text ++ r.pending), v.delta part)
  ];
  bounded = omega arith;
  awake = λ e f. ground arith;
}

Run-Synced : {r : Ring} {text log : Bytes} → Run r text log → Synced r text log
unfolding new_ring set_notify clear
Run-Synced (start n) = record {
  history = ground arith;
  delta = λ e. ground arith;
  bounded = ground arith;
  awake = λ e f. ground arith;
}
Run-Synced (seeded r text log p n c) = seed-Synced r text log p n (Run-Synced c)
Run-Synced (notified r text log given c) =
    let v = Run-Synced c in
    record {
      history = v.history;
      delta = v.delta;
      bounded = v.bounded;
      awake = λ e f. ground arith;
    }
Run-Synced (wrote r text log p c) = write_ring-Synced r text log p (Run-Synced c)
Run-Synced (drained r text log c) = drain_and_ack-Synced r text log (Run-Synced c)
Run-Synced (cleared r text log c) = record {
  history = ground arith;
  delta = λ e. ground arith;
  bounded = omega arith;
  awake = λ e f. ground arith;
}

-- However the calls came before, once its consumer has drained the ring the last bytes of its text, as
-- many as the ring is bounded to, are the last bytes of all that was logged since it was cleared:
-- no text is lost, doubled or out of order, also where the consumer fell behind.
pub drain_and_ack-consume :
    {r : Ring} {text log : Bytes}
    → Run r text log
    → last r.max_bytes (consume (drain_and_ack r).1 text) ≡ last r.max_bytes log
unfolding drain_and_ack
drain_and_ack-consume {r} {text} {log} c =
    let v = Run-Synced c in
    elim (Bool-cases r.resync) [
      | inl whole ↦
          ground
            (arith, append-nil r.buf, append-nil log, v.history, last-append r.max_bytes log [])
      | inr part ↦ ground (arith, v.history, v.delta part)
    ]
