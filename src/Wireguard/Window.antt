-- ===== src/Wireguard/Window.antt =====
-- internal/wireguard/client.go: no counter gets through the window twice.
use split_wire.Prelude.{
  Bool, Bool-cases, List, [], ap, arith, dec_lt, false, get_or, get_or-set_ne, get_or-set_self, inl,
  inr, length, length-replicate, length-set, refl, replicate, set, subst, suc, sym, true, zero, ℕ,
  ℕ_discrete, ◌%◌, ◌+◌, ◌-◌, ◌<◌, ◌^◌, ◌∙◌, ◌∷◌, ◌≡◌, ◌≢◌, ◌≤◌, ◌⊎◌,
}
use split_wire.Wireguard.{Replay, window, new_replay, clear_bits, move_up, mark_seen, accept}

-- The states of the window, with the counters that it let through.
pub data Reached : List ℕ → Replay → Type 0 where
  created : Reached [] new_replay
  taken :
      {log : List ℕ} {r : Replay} (n : ℕ)
      → Reached log r
      → (accept n r).1 ≡ true
      → Reached (n ∷ log) (accept n r).0
  dropped :
      {log : List ℕ} {r : Replay} (n : ℕ)
      → Reached log r
      → (accept n r).1 ≡ false
      → Reached log (accept n r).0

abbrev pub Listed : ℕ → List ℕ → Type 0
Listed n [] = ⊥
Listed n (m ∷ log) = (m ≡ n) ⊎ Listed n log

-- What the window remembers of a counter: it is not above the highest, and its bit is set unless it
-- lies below the window.
abbrev Remembers : Replay → ℕ → Type 0
Remembers r n = (n ≤ r.highest) × (r.highest < n + window → get_or r.seen (n % window) false ≡ true)

get_or-clear_bits :
    (count x i : ℕ) (seen : List Bool)
    → ((y : ℕ) → x ≤ y → y < x + count → y % window ≢ i)
    → get_or (clear_bits count x seen) i false ≡ get_or seen i false
unfolding clear_bits
get_or-clear_bits zero x i seen h = refl
get_or-clear_bits (suc count) x i seen h =
    get_or-clear_bits count (suc x) i (set seen (x % window) false)
      (λ y a b. h y (omega arith) (omega arith))
    ∙ get_or-set_ne seen (x % window) i false false (h x (omega arith) (omega arith))

length-clear_bits :
    (count x : ℕ) (seen : List Bool) → length (clear_bits count x seen) ≡ length seen
unfolding clear_bits
length-clear_bits zero x seen = refl
length-clear_bits (suc count) x seen =
    length-clear_bits count (suc x) (set seen (x % window) false)
    ∙ length-set seen (x % window) false

other_place : (n y : ℕ) → n < y → y < n + window → y % window ≢ n % window
other_place n y a b e = omega arith

module _ (n : ℕ) (r : Replay) where
  move_up_low : n ≤ r.highest → move_up n r ≡ r
  unfolding move_up
  move_up_low h = ground arith

  move_up_far :
      r.highest + window ≤ n → move_up n r ≡ record r { seen = replicate window false; highest = n }
  unfolding move_up
  move_up_far h = ground arith

  move_up_near :
      r.highest < n
      → n < r.highest + window
      → move_up n r
        ≡ record r { seen = clear_bits (n - r.highest) (suc r.highest) r.seen; highest = n }
  unfolding move_up
  move_up_near h g = ground arith

  -- A property of each state that the window may move to.
  move_up_cases :
      (P : Replay → Type 0)
      → (n ≤ r.highest → P r)
      → (r.highest + window ≤ n → P (record r { seen = replicate window false; highest = n }))
      → (r.highest < n
          → n < r.highest + window
          → P (record r { seen = clear_bits (n - r.highest) (suc r.highest) r.seen; highest = n }))
      → P (move_up n r)
  move_up_cases P low far near = elim (dec_lt r.highest n) [
    | no h ↦ subst P (sym (move_up_low (omega arith))) (low (omega arith))
    | yes h ↦ elim (dec_lt n (r.highest + window)) [
      | no g ↦ subst P (sym (move_up_far (omega arith))) (far (omega arith))
      | yes g ↦ subst P (sym (move_up_near h g)) (near h g)
    ]
  ]

move_up-Remembers : (m n : ℕ) (r : Replay) → Remembers r m → Remembers (move_up n r) m
move_up-Remembers m n r h =
    move_up_cases n r (λ u. Remembers u m) (λ low. h)
      (λ far. (omega (arith, h.0), λ w. absurd (omega (arith, h.0))))
      (λ high near. (
        omega (arith, h.0),
        λ w.
            get_or-clear_bits (n - r.highest) (suc r.highest) (m % window) r.seen
              (λ y a b. other_place m y (omega (arith, h.0)) (omega arith))
            ∙ h.1 (omega arith),
      ))

length-move_up : (n : ℕ) (r : Replay) → length r.seen ≡ window → length (move_up n r).seen ≡ window
length-move_up n r h =
    move_up_cases n r (λ u. length u.seen ≡ window) (λ low. h)
      (λ far. length-replicate window false)
      (λ high near. length-clear_bits (n - r.highest) (suc r.highest) r.seen ∙ h)

move_up_high : (n : ℕ) (r : Replay) → n ≤ (move_up n r).highest
move_up_high n r =
    move_up_cases n r (λ u. n ≤ u.highest) (λ low. low) (λ far. omega arith)
      (λ high near. omega arith)

in_window : (n : ℕ) → n % window < window
in_window n = omega arith

mark_seen-Remembers :
    (m n : ℕ) (r : Replay) → length r.seen ≡ window → Remembers r m → Remembers (mark_seen n r) m
mark_seen-Remembers m n r l h = (
  h.0,
  λ w. elim (ℕ_discrete (n % window) (m % window)) [
    | yes p ↦
        ap (λ i. get_or (set r.seen (n % window) true) i false) (sym p)
        ∙ get_or-set_self r.seen (n % window) true false (omega (arith, l, in_window n))
    | no ne ↦ get_or-set_ne r.seen (n % window) (m % window) true false ne ∙ h.1 w
  ],
)

mark_seen_self :
    (n : ℕ) (r : Replay) → length r.seen ≡ window → n ≤ r.highest → Remembers (mark_seen n r) n
mark_seen_self n r l h =
    (h, λ w. get_or-set_self r.seen (n % window) true false (omega (arith, l, in_window n)))

-- The books of the window: before its first counter the log is empty, and it remembers every counter
-- of the log.
record Books (log : List ℕ) (r : Replay) : Type 0 where
  fresh : r.init ≡ false → (n : ℕ) → ¬ Listed n log
  size : length r.seen ≡ window
  each : (n : ℕ) → Listed n log → Remembers r n

module _ (n : ℕ) (r : Replay) where
  accept_first :
      r.init ≡ false → accept n r ≡ (mark_seen n (record r { init = true; highest = n }), true)
  unfolding accept
  accept_first e = ground arith

  accept_old : r.init ≡ true → (n + window) % 2 ^ 64 ≤ r.highest → accept n r ≡ (r, false)
  unfolding accept
  accept_old e h = ground arith

  accept_seen :
      r.init ≡ true
      → r.highest < (n + window) % 2 ^ 64
      → get_or (move_up n r).seen (n % window) false ≡ true
      → accept n r ≡ (move_up n r, false)
  unfolding accept
  accept_seen e h g = ground arith

  accept_new :
      r.init ≡ true
      → r.highest < (n + window) % 2 ^ 64
      → get_or (move_up n r).seen (n % window) false ≡ false
      → accept n r ≡ (mark_seen n (move_up n r), true)
  unfolding accept
  accept_new e h g = ground arith

abbrev log_after : ℕ → List ℕ → Bool → List ℕ
log_after n log true = n ∷ log
log_after n log false = log

taken-Books :
    (n : ℕ) (log : List ℕ) (r : Replay)
    → length r.seen ≡ window
    → n ≤ r.highest
    → ¬ (r.init ≡ false)
    → ((m : ℕ) → Listed m log → Remembers r m)
    → Books (n ∷ log) (mark_seen n r)
taken-Books n log r size high started each = record {
  fresh = λ e. absurd (started e);
  size = length-set r.seen (n % window) true ∙ size;
  each = λ m l. elim l [
    | inl p ↦ subst (Remembers (mark_seen n r)) p (mark_seen_self n r size high)
    | inr q ↦ mark_seen-Remembers m n r size (each m q)
  ];
}

move_up_init : (n : ℕ) (r : Replay) → (move_up n r).init ≡ r.init
move_up_init n r =
    move_up_cases n r (λ u. u.init ≡ r.init) (λ low. refl) (λ far. refl) (λ high near. refl)

accept-Books :
    (n : ℕ) (log : List ℕ) (r : Replay)
    → Books log r
    → Books (log_after n log (accept n r).1) (accept n r).0
accept-Books n log r b = elim (Bool-cases r.init) [
  | inr e ↦ subst After (sym (accept_first n r e)) (
      taken-Books n log (record r { init = true; highest = n }) b.size (omega arith) (λ f. cc)
        (λ m l. absurd (b.fresh e m l)))
  | inl e ↦ elim (dec_lt r.highest ((n + window) % 2 ^ 64)) [
    | no old ↦ subst After (sym (accept_old n r e (omega arith))) b
    | yes h ↦ elim (Bool-cases (get_or (move_up n r).seen (n % window) false)) [
      | inl g ↦ subst After (sym (accept_seen n r e h g)) moved
      | inr g ↦ subst After (sym (accept_new n r e h g)) (
          taken-Books n log (move_up n r) moved.size (move_up_high n r)
            (λ f. cc (f, move_up_init n r, e)) moved.each)
    ]
  ]
]
  where
    After : Replay × Bool → Type 0
    After x = Books (log_after n log x.1) x.0

    moved : Books log (move_up n r)
    moved = record {
      fresh = λ f. b.fresh (sym (move_up_init n r) ∙ f);
      size = length-move_up n r b.size;
      each = λ m l. move_up-Remembers m n r (b.each m l);
    }

new_replay-Books : Books [] new_replay
new_replay-Books = record {
  fresh = λ e n l. l;
  size = length-replicate window false;
  each = λ n l. elim l [ ];
}

Reached-Books : {log : List ℕ} {r : Replay} → Reached log r → Books log r
Reached-Books created = new_replay-Books
Reached-Books (taken {log} {r} n h e) =
    subst (λ c. Books (log_after n log c) (accept n r).0) e (accept-Books n log r (Reached-Books h))
Reached-Books (dropped {log} {r} n h e) =
    subst (λ c. Books (log_after n log c) (accept n r).0) e (accept-Books n log r (Reached-Books h))

-- In whatever order datagrams come, a counter that the window has let through is never let through
-- again.
pub accept_once :
    (n : ℕ) (log : List ℕ) (r : Replay) → Reached log r → Listed n log → (accept n r).1 ≡ false
accept_once n log r h l = go (Reached-Books h)
  where
    go : Books log r → (accept n r).1 ≡ false
    go b = elim (Bool-cases r.init) [
      | inr e ↦ absurd (b.fresh e n l)
      | inl e ↦ elim (dec_lt r.highest ((n + window) % 2 ^ 64)) [
        | no old ↦ ap (λ x. x.1) (accept_old n r e (omega arith))
        | yes w ↦
            let held = b.each n l in
            let bit : get_or (move_up n r).seen (n % window) false ≡ true =
              rw (move_up_low n r held.0) (held.1 (omega arith)) in
            ap (λ x. x.1) (accept_seen n r e w bit)
      ]
    ]
