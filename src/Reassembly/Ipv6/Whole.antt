-- ===== src/Reassembly/Ipv6/Whole.antt =====
-- internal/reassembly/ipv6.go: the packet that a complete datagram gives.
use split_wire.Prelude.{
  Bool, Bool-cases, Bytes, List, Option-cases, Outcome, ap, arith, byte_at, bytes16, dec_lt, err,
  false, get_or-set_ne, get_or-set_self, get_or-write_above, get_or-write_below,
  get_or-write_inside, inl, inr, length, length-replicate, length-set, length-write, none, ok,
  out_of_fuel, panic, range, range-write_self, refl, replicate, set, some, sym, true, u16, write, ℕ,
  ◌+◌, ◌-◌, ◌<◌, ◌∙◌, ◌≡◌, ◌≢◌, ◌≤◌, ◌⊎◌,
}
use split_wire.Reassembly.Ipv6.{drop_entry, Datagram, assemble, Key, Table, finish}
use split_wire.Reassembly.Ipv6.Books.{IsCounted}
use split_wire.Reassembly.{Failure, paste, Result, all_marked, mark}
use split_wire.Reassembly.Coverage.{
  Covers, mark_complete, all_marked_of, Holds, Holds-write, Within, byte_at-paste, length-paste,
  paste-Holds, mark-Covers, mark-Within,
}

-- The packet has the headers kept, with the field of the next header set, and behind them every
-- piece at its offset; the pieces cover all of it.
pub record Whole (d : Datagram) (out : Bytes) : Type 0 where
  pub size : length out ≡ length d.prefix + d.last
  pub holds : Holds out (length d.prefix) d.pieces
  pub full : Covers d.last d.pieces
  pub length_field : range out 4 6 ≡ bytes16 (u16 (length d.prefix + d.last - 40))
  pub named : byte_at out d.prev_next ≡ d.next
  pub kept :
      (i : ℕ)
      → i < length d.prefix
      → i ≢ d.prev_next
      → (i < 4) ⊎ (6 ≤ i)
      → byte_at out i ≡ byte_at d.prefix i

abbrev headers : Datagram → Bytes
headers d = set (write (replicate (length d.prefix + d.last) 0) 0 d.prefix) d.prev_next d.next

length-headers : (d : Datagram) → length (headers d) ≡ length d.prefix + d.last
length-headers d = omega (
  arith,
  length-set (write (replicate (length d.prefix + d.last) 0) 0 d.prefix) d.prev_next d.next,
  length-write (replicate (length d.prefix + d.last) 0) 0 d.prefix,
  length-replicate {A = ℕ} (length d.prefix + d.last) 0,
)

assemble-Whole :
    (d : Datagram)
    → IsCounted d
    → Within d.last d.pieces
    → Covers d.last d.pieces
    → Whole d (assemble d)
unfolding assemble
assemble-Whole d h w c =
    let base = length d.prefix in
    let zeros : Bytes = replicate (base + d.last) 0 in
    let out1 : Bytes = write zeros 0 d.prefix in
    let out2 = paste (headers d) base d.pieces in
    let field = bytes16 (u16 (length out2 - 40)) in
    let n = length-headers d in
    let n2 : length out2 ≡ base + d.last = length-paste (headers d) base d.pieces ∙ n in
    record {
      size = length-write out2 4 field ∙ n2;
      holds =
          Holds-write out2 4 field base d.last d.pieces (omega (arith, h.2.0)) (omega arith) w
            (paste-Holds (headers d) base d.last d.pieces (omega arith) w h.1);
      full = c;
      length_field =
          range-write_self out2 4 field 6 refl (omega (arith, n2, h.2.0))
          ∙ ap (λ n. bytes16 (u16 (n - 40))) n2;
      named =
          get_or-write_above out2 4 field d.prev_next 0 (omega (arith, h.2.1))
          ∙ byte_at-paste (headers d) base d.prev_next d.pieces (h.2.2)
          ∙ get_or-set_self out1 d.prev_next d.next 0 (
              omega (
                arith,
                h.2.2,
                length-write zeros 0 d.prefix,
                length-replicate {A = ℕ} (base + d.last) 0,
              ));
      kept = λ i l ne o. elim o [
        | inl low ↦ get_or-write_below out2 4 field i 0 low ∙ kept_headers i l ne
        | inr high ↦ get_or-write_above out2 4 field i 0 high ∙ kept_headers i l ne
      ];
    }
  where
    kept_headers :
        (i : ℕ)
        → i < length d.prefix
        → i ≢ d.prev_next
        → byte_at (paste (headers d) (length d.prefix) d.pieces) i ≡ byte_at d.prefix i
    kept_headers i l ne =
        let zeros : Bytes = replicate (length d.prefix + d.last) 0 in
        byte_at-paste (headers d) (length d.prefix) i d.pieces l
        ∙ get_or-set_ne (write zeros 0 d.prefix) d.prev_next i d.next 0 (λ e. ne (sym e))
        ∙ get_or-write_inside zeros 0 d.prefix i 0
            (omega (arith, length-replicate {A = ℕ} (length d.prefix + d.last) 0)) (omega arith)
            (omega arith)
        ∙ ap (λ j. byte_at d.prefix j) (omega arith)

-- All the fragments are there: the last one, and a piece for every byte, and the packet is not too long.
abbrev pub IsComplete : Datagram → Type 0
IsComplete d =
    (d.have_last ≡ true)
    × Within d.last d.pieces
    × Covers d.last d.pieces
    × (length d.prefix + d.last ≤ 65535 + 40)

-- No packet is given out.
abbrev pub IsHeld : Outcome Failure Result → Type 0
IsHeld (ok res) = res.ready ≡ false
IsHeld (err e) = Unit
IsHeld panic = ⊥
IsHeld out_of_fuel = ⊥

abbrev pub given_out : Datagram → Bytes → Result
given_out d out = record {
  packet = out;
  ready = true;
  fragmented = true;
  fragment_mtu = d.max_packet;
}

-- The marks of a datagram that has all its fragments.
complete_marks :
    (d : Datagram)
    → Within d.last d.pieces
    → Covers d.last d.pieces
    → (c : List Bool) × (mark (replicate d.last false) d.last d.pieces ≡ some c)
      × (all_marked c ≡ true)
complete_marks d w h =
    let (c, e, l, m) =
      mark_complete (replicate d.last false) d.last d.pieces w (length-replicate d.last false) in
    (c, e, all_marked_of c (λ i b. m i (inr (h i (omega arith)))))

module _ (k : Key) (d : Datagram) (r : Table) (books : IsCounted d) where
  -- The checks in the order in which `finish` makes them.
  finish_given :
      (c : List Bool)
      → d.have_last ≡ true
      → mark (replicate d.last false) d.last d.pieces ≡ some c
      → all_marked c ≡ true
      → length d.prefix + d.last ≤ 65535 + 40
      → finish k d r ≡ (drop_entry k d r, ok (given_out d (assemble d)))
  unfolding finish
  finish_given c h m a s = ground (arith, books.2.2)

  finish_long : 65535 + 40 < length d.prefix + d.last → IsHeld (finish k d r).1
  unfolding finish
  finish_long s = ground arith

  finish_unmarked :
      (c : List Bool)
      → mark (replicate d.last false) d.last d.pieces ≡ some c
      → all_marked c ≡ false
      → IsHeld (finish k d r).1
  unfolding finish
  finish_unmarked c m a = ground arith

  finish_past : mark (replicate d.last false) d.last d.pieces ≡ none → IsHeld (finish k d r).1
  unfolding finish
  finish_past m = ground arith

  finish_open : d.have_last ≡ false → IsHeld (finish k d r).1
  unfolding finish
  finish_open h = ground arith

  -- A datagram that has all its fragments leaves the table and is given out: the packet has its
  -- headers, with the field of the next header and the payload length set, and every piece at its
  -- place. A datagram that has not, or would be too long, is not given out.
  pub finish-Whole :
      (IsComplete d
        × (out : Bytes) × (finish k d r ≡ (drop_entry k d r, ok (given_out d out)))
        × Whole d out)
      ⊎ ((¬ IsComplete d) × IsHeld (finish k d r).1)
  finish-Whole = elim (Bool-cases d.have_last) [
    | inr h ↦ inr ((λ (h', w, v, s). ground arith), finish_open h)
    | inl h ↦ elim (Option-cases (mark (replicate d.last false) d.last d.pieces)) [
      | inl m ↦
          inr
            ((λ (h', w, v, s). let (c, e, a) = complete_marks d w v in ground arith), finish_past m)
      | inr (c, m) ↦ elim (Bool-cases (all_marked c)) [
        | inr a ↦ inr (
          (λ (h', w, v, s). let (c', e, a') = complete_marks d w v in ground arith),
          finish_unmarked c m a,
        )
        | inl a ↦ elim (dec_lt (65535 + 40) (length d.prefix + d.last)) [
          | yes s ↦ inr ((λ (h', w, v, s'). omega arith), finish_long s)
          | no s ↦
              let w = mark-Within _ _ _ m in
              let v = mark-Covers d.last d.pieces c m a in
              let fits : length d.prefix + d.last ≤ 65535 + 40 = omega arith in
              inl
                ((h, w, v, fits), assemble d, finish_given c h m a fits, assemble-Whole d books w v)
        ]
      ]
    ]
  ]
