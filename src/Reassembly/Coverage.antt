-- ===== src/Reassembly/Coverage.antt =====
-- internal/reassembly: the check that the pieces cover a datagram, and the copy of the pieces.
use split_wire.Prelude.{
  Bool, Bytes, List, [], arith, byte_at, dec_lt, false, get_or, get_or-write_above,
  get_or-write_below, get_or-write_inside, inl, length, length-replicate, length-write, range,
  range-write_ne, range-write_self, refl, replicate, some, subst, suc, true, write, zero, ℕ, ◌+◌,
  ◌-◌, ◌<◌, ◌∙◌, ◌∷◌, ◌≡◌, ◌≤◌, ◌⊎◌,
}
use split_wire.Reassembly.{overlaps, Piece, mark, paste, all_marked}
use split_wire.Reassembly.Pieces.{Disjoint}

-- Every piece ends by `last`.
abbrev pub Within : ℕ → List Piece → Type 0
Within last [] = Unit {0}
Within last (q ∷ qs) = (q.off + length q.content ≤ last) × Within last qs

-- The bytes from `base` on hold every piece at its offset.
abbrev pub Holds : Bytes → ℕ → List Piece → Type 0
Holds out base [] = Unit {0}
Holds out base (q ∷ qs) =
    (range out (base + q.off) (base + q.off + length q.content) ≡ q.content) × Holds out base qs

pub length-paste :
    (out : Bytes) (base : ℕ) (qs : List Piece) → length (paste out base qs) ≡ length out
unfolding paste
length-paste out base [] = refl
length-paste out base (q ∷ qs) = omega (
  arith,
  length-paste (write out (base + q.off) q.content) base qs,
  length-write out (base + q.off) q.content,
)

pub byte_at-paste :
    (out : Bytes) (base i : ℕ) (qs : List Piece)
    → i < base
    → byte_at (paste out base qs) i ≡ byte_at out i
unfolding paste
byte_at-paste out base i [] h = refl
byte_at-paste out base i (q ∷ qs) h =
    byte_at-paste (write out (base + q.off) q.content) base i qs h
    ∙ get_or-write_below out (base + q.off) q.content i 0 (omega arith)

-- Bytes that no piece has stay.
range-paste :
    (out : Bytes) (base off stop : ℕ) (qs : List Piece)
    → off ≤ stop
    → base + stop ≤ length out
    → overlaps off stop qs ≡ false
    → range (paste out base qs) (base + off) (base + stop) ≡ range out (base + off) (base + stop)
unfolding paste overlaps
range-paste out base off stop [] o l h = refl
range-paste out base off stop (q ∷ qs) o l h =
    range-paste (write out (base + q.off) q.content) base off stop qs o
      (omega (arith, length-write out (base + q.off) q.content)) (ground arith)
    ∙ range-write_ne out (base + q.off) q.content (base + off) (base + stop) (ground arith) l

pub paste-Holds :
    (out : Bytes) (base last : ℕ) (qs : List Piece)
    → base + last ≤ length out
    → Within last qs
    → Disjoint qs
    → Holds (paste out base qs) base qs
unfolding paste
paste-Holds out base last [] l w d = tt
paste-Holds out base last (q ∷ qs) l w d =
    let out' = write out (base + q.off) q.content in
    let l' : length out' ≡ length out = length-write out (base + q.off) q.content in
    (
      subst (λ e. range (paste out' base qs) (base + q.off) e ≡ q.content) (omega arith)
          (range-paste out' base q.off (q.off + length q.content) qs (omega arith)
              (omega (arith, w.0)) d.0
            ∙ range-write_self out (base + q.off) q.content (base + (q.off + length q.content))
                (omega arith) (omega (arith, w.0))),
      paste-Holds out' base last qs (omega arith) w.1 d.1,
    )

pub Holds-write :
    (out : Bytes) (k : ℕ) (ys : Bytes) (base last : ℕ) (qs : List Piece)
    → k + length ys ≤ base
    → base + last ≤ length out
    → Within last qs
    → Holds out base qs
    → Holds (write out k ys) base qs
Holds-write out k ys base last [] h l w d = tt
Holds-write out k ys base last (q ∷ qs) h l w d = (
  range-write_ne out k ys (base + q.off) (base + q.off + length q.content) (inl (omega arith))
        (omega (arith, w.0))
      ∙ d.0,
  Holds-write out k ys base last qs h l w.1 d.1,
)

pub mark-Within :
    (covered : List Bool) (last : ℕ) (qs : List Piece) {c : List Bool}
    → mark covered last qs ≡ some c
    → Within last qs
unfolding mark
mark-Within covered last [] {c} e = tt
mark-Within covered last (q ∷ qs) {c} e = elim (dec_lt last (q.off + length q.content)) [
  | yes past ↦ ground arith
  | no ends ↦ (
    omega arith,
    mark-Within (write covered q.off (replicate (length q.content) true)) last qs {c = c}
        (ground arith),
  )
]

length-mark :
    (covered : List Bool) (last : ℕ) (qs : List Piece) (c : List Bool)
    → mark covered last qs ≡ some c
    → length c ≡ length covered
unfolding mark
length-mark covered last [] c e = ground arith
length-mark covered last (q ∷ qs) c e =
    let covered' = write covered q.off (replicate (length q.content) true) in
    elim (dec_lt last (q.off + length q.content)) [
      | yes past ↦ ground arith
      | no ends ↦ omega (
        arith,
        length-mark covered' last qs c (ground arith),
        length-write covered q.off (replicate (length q.content) true),
      )
    ]

-- A byte that is marked was marked before, or lies in a piece.
mark_sound :
    (covered : List Bool) (last : ℕ) (qs : List Piece) (c : List Bool) (i : ℕ)
    → mark covered last qs ≡ some c
    → get_or c i false ≡ true
    → (get_or covered i false ≡ true) ⊎ (overlaps i (suc i) qs ≡ true)
unfolding mark overlaps
mark_sound covered last [] c i e m = inl (ground arith)
mark_sound covered last (q ∷ qs) c i e m =
    let yes_bytes = replicate (length q.content) true in
    let e' : mark (write covered q.off yes_bytes) last qs ≡ some c = ground arith in
    let n : length yes_bytes ≡ length q.content = length-replicate (length q.content) true in
    ground (
      arith,
      mark_sound (write covered q.off yes_bytes) last qs c i e' m,
      get_or-write_below covered q.off yes_bytes i false,
      get_or-write_above covered q.off yes_bytes i false,
    )

all_marked_each :
    (c : List Bool) (i : ℕ) → all_marked c ≡ true → i < length c → get_or c i false ≡ true
unfolding all_marked
all_marked_each [] i a h = absurd (omega arith)
all_marked_each (v ∷ vs) zero a h = ground arith
all_marked_each (v ∷ vs) (suc i) a h = all_marked_each vs i (ground arith) (omega arith)

get_or-replicate : (n i : ℕ) → get_or (replicate n false) i false ≡ false
get_or-replicate zero i = refl
get_or-replicate (suc n) zero = refl
get_or-replicate (suc n) (suc i) = get_or-replicate n i

-- Each byte up to `last` lies in a piece.
abbrev pub Covers : ℕ → List Piece → Type 0
Covers last qs = (i : ℕ) → i < last → overlaps i (suc i) qs ≡ true

pub mark-Covers :
    (last : ℕ) (qs : List Piece) (c : List Bool)
    → mark (replicate last false) last qs ≡ some c
    → all_marked c ≡ true
    → Covers last qs
mark-Covers last qs c e a i h =
    let n : length c ≡ last =
      length-mark (replicate last false) last qs c e ∙ length-replicate last false in
    ground (
      arith,
      mark_sound (replicate last false) last qs c i e (all_marked_each c i a (omega arith)),
      get_or-replicate last i,
    )

get_or-replicate-true : (n i : ℕ) → i < n → get_or (replicate n true) i false ≡ true
get_or-replicate-true zero i h = absurd (omega arith)
get_or-replicate-true (suc n) zero h = refl
get_or-replicate-true (suc n) (suc i) h = get_or-replicate-true n i (omega arith)

-- The mark of a byte stays, and a byte of the piece gets one.
marked_by :
    (covered : List Bool) (off n i : ℕ)
    → off + n ≤ length covered
    → (get_or covered i false ≡ true) ⊎ ((off ≤ i) × (i < off + n))
    → get_or (write covered off (replicate n true)) i false ≡ true
marked_by covered off n i h m = ground (
  arith,
  length-replicate n true,
  get_or-replicate-true n (i - off),
  get_or-write_below covered off (replicate n true) i false,
  get_or-write_above covered off (replicate n true) i false,
  get_or-write_inside covered off (replicate n true) i false,
)

-- Pieces that end in time are marked, and every byte of theirs with them.
pub mark_complete :
    (covered : List Bool) (last : ℕ) (qs : List Piece)
    → Within last qs
    → length covered ≡ last
    → (c : List Bool) × (mark covered last qs ≡ some c)
      × (length c ≡ last)
      × ((i : ℕ)
          → (get_or covered i false ≡ true) ⊎ (overlaps i (suc i) qs ≡ true)
          → get_or c i false ≡ true)
unfolding mark overlaps
mark_complete covered last [] w n = (covered, refl, n, λ i m. ground arith)
mark_complete covered last (q ∷ qs) (ends, w) n =
    let covered' = write covered q.off (replicate (length q.content) true) in
    let (c, e, l, m) =
      mark_complete covered' last qs w
        (length-write covered q.off (replicate (length q.content) true) ∙ n) in
    (
      c,
      ground arith,
      l,
      λ i h.
          ground
            (arith, h, m i, marked_by covered q.off (length q.content) i (omega (arith, ends, n))),
    )

pub all_marked_of :
    (c : List Bool) → ((i : ℕ) → i < length c → get_or c i false ≡ true) → all_marked c ≡ true
unfolding all_marked
all_marked_of [] h = refl
all_marked_of (v ∷ vs) h =
    ground (arith, h 0 (omega arith), all_marked_of vs (λ i l. h (suc i) (omega arith)))
