-- ===== src/Loghub/History.antt =====
-- internal/loghub/loghub.go: `appendHistoryLocked` against the last bytes of what was written.
use split_wire.Prelude.{
  Bytes, [], ap, arith, dec_lt, drop, drop-append, drop-drop, length, length-append, length-drop,
  refl, suc, sym, zero, ℕ, ◌++◌, ◌+◌, ◌-◌, ◌∙◌, ◌∷◌, ◌≡◌, ◌≤◌,
}
use split_wire.Loghub.{Ring, append_history}

-- The last `n` bytes of a text.
abbrev pub last : ℕ → Bytes → Bytes
last n xs = drop (length xs - n) xs

drop-append_left : (k : ℕ) (xs ys : Bytes) → k ≤ length xs → drop k (xs ++ ys) ≡ drop k xs ++ ys
drop-append_left zero xs ys h = refl
drop-append_left (suc k) [] ys h = absurd (omega arith)
drop-append_left (suc k) (x ∷ xs) ys h = drop-append_left k xs ys (omega arith)

-- Only the last bytes of a text matter for the last bytes of what it is extended to.
pub last-append : (n : ℕ) (xs ys : Bytes) → last n (last n xs ++ ys) ≡ last n (xs ++ ys)
last-append n xs ys =
    let k = length xs - n in
    let e : last n xs ++ ys ≡ drop k (xs ++ ys) = sym (drop-append_left k xs ys (omega arith)) in
    ap (last n) e
    ∙ drop-drop k (length (drop k (xs ++ ys)) - n) (xs ++ ys)
    ∙ ap (λ (j : ℕ). drop j (xs ++ ys))
        (omega (arith, length-drop k (xs ++ ys), length-append xs ys))

-- The history after a write is the last bytes of the history before it and what was written.
pub append_history_lem :
    (p : Bytes) (r : Ring) → (append_history p r).buf ≡ last r.max_bytes (r.buf ++ p)
unfolding append_history
append_history_lem p r = elim (dec_lt (length p) r.max_bytes) [
  | no long ↦
      let k = length p - r.max_bytes in
      let e : drop (length r.buf + k) (r.buf ++ p) ≡ drop k p =
        sym (drop-drop (length r.buf) k (r.buf ++ p)) ∙ ap (drop k) (drop-append r.buf p) in
      let n : length (r.buf ++ p) - r.max_bytes ≡ length r.buf + k =
        omega (arith, length-append r.buf p) in
      ground (arith, sym e ∙ ap (λ (j : ℕ). drop j (r.buf ++ p)) (sym n))
  | yes short ↦
      let k = length r.buf + length p - r.max_bytes in
      let e : drop k (r.buf ++ p) ≡ drop k r.buf ++ p = drop-append_left k r.buf p (omega arith) in
      ground (arith, e, length-append r.buf p)
]
