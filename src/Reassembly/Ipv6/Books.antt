-- ===== src/Reassembly/Ipv6/Books.antt =====
-- internal/reassembly/ipv6.go: the invariant of the table, and a new piece of a datagram.
use split_wire.Prelude.{
  Bool-cases, Dict, IsUnique, [], arith, dec_lt, delete-IsUnique, false, inl, inr, insert,
  insert-IsUnique, length, length-delete-le, length-insert_old, lookup-delete, lookup-insert,
  lookup-insert_ne, lookup-insert_self, none, not, refl, some, subst, sym, true, weigh,
  weigh-delete, weigh-insert_old, ℕ, ◌+◌, ◌<◌, ◌==◌, ◌||◌, ◌∙◌, ◌∷◌, ◌≡◌, ◌≤◌, ◌⊎◌,
}
use split_wire.Reassembly.{overlaps, Piece, held}
use split_wire.Reassembly.Ipv6.{
  Table, find, finish, Datagram, Incoming, Key, Key-discrete, add_piece, drop_entry, insert_piece,
  no_pieces, push_fragment, sweep,
}
use split_wire.Reassembly.Pieces.{Disjoint, Disjoint-append, held-append, held_one}
use split_wire.Reassembly.Ipv6.Chain.{IsChained}

-- A datagram counts the bytes of its pieces, which are disjoint, and its headers hold the field that
-- names the next one.
abbrev pub IsCounted : Datagram → Type 0
IsCounted d = (d.bytes ≡ held d.pieces) × Disjoint d.pieces × IsChained d.prefix d.prev_next

-- The bytes that the datagrams of a table count.
abbrev pub counted : Dict Key Datagram → ℕ
counted = weigh Key-discrete (λ d. d.bytes)

-- The table counts the bytes of its datagrams, keeps both limits, and holds a key once.
pub record IsSound (r : Table) : Type 0 where
  pub unique : IsUnique Key-discrete r.entries
  pub accounted : r.bytes ≡ counted r.entries
  pub within_bytes : r.bytes ≤ r.max_bytes
  pub within_entries : length r.entries ≤ r.max_entries
  pub each : (k : Key) (d : Datagram) → find k r.entries ≡ some d → IsCounted d

pub drop_entry-IsSound :
    (k : Key) (d : Datagram) (r : Table)
    → IsSound r
    → find k r.entries ≡ some d
    → IsSound (drop_entry k d r)
unfolding drop_entry
drop_entry-IsSound k d r v e = record {
  unique = delete-IsUnique Key-discrete k r.entries v.unique;
  accounted =
      omega (arith, v.accounted, weigh-delete Key-discrete (λ x. x.bytes) k d r.entries v.unique e);
  within_bytes = omega (arith, v.within_bytes);
  within_entries = omega (arith, v.within_entries, length-delete-le Key-discrete k r.entries);
  each = λ k0 d0 f. v.each k0 d0 (ground (arith, lookup-delete Key-discrete k k0 r.entries));
}

-- The state that `finish` leaves: the table, or the table without the datagram.
finish_state :
    (k : Key) (d : Datagram) (r : Table)
    → ((finish k d r).0 ≡ r) ⊎ ((finish k d r).0 ≡ drop_entry k d r)
unfolding finish
finish_state k d r = ground arith

finish-IsSound :
    (k : Key) (d : Datagram) (r : Table)
    → IsSound r
    → find k r.entries ≡ some d
    → IsSound (finish k d r).0
finish-IsSound k d r v e = elim (finish_state k d r) [
  | inl same ↦ subst IsSound (sym same) v
  | inr gone ↦ subst IsSound (sym gone) (drop_entry-IsSound k d r v e)
]

add_piece-IsCounted :
    (f : Incoming) (now : ℕ) (d : Datagram)
    → IsCounted d
    → overlaps f.off (f.off + length f.payload) d.pieces ≡ false
    → IsCounted (add_piece f now d)
unfolding add_piece
add_piece-IsCounted f now d h e =
    let p : Piece = record { off = f.off; content = f.payload } in
    (
      omega (arith, h.0, held-append d.pieces (p ∷ []), held_one p),
      Disjoint-append d.pieces p h.1 e,
      h.2,
    )

store-IsSound :
    (f : Incoming) (now : ℕ) (d : Datagram) (r : Table)
    → IsSound r
    → find f.key r.entries ≡ some d
    → overlaps f.off (f.off + length f.payload) d.pieces ≡ false
    → r.bytes + length f.payload ≤ r.max_bytes
    → IsSound (record r {
      entries = insert Key-discrete f.key (add_piece f now d) r.entries;
      bytes = r.bytes + length f.payload;
    })
store-IsSound f now d r v e clear room =
    let d' = add_piece f now d in
    record {
      unique = insert-IsUnique Key-discrete f.key d' r.entries v.unique;
      accounted =
          let w = weigh-insert_old Key-discrete (λ x. x.bytes) f.key d' d r.entries e in
          let more : d'.bytes ≡ d.bytes + length f.payload = unfold add_piece in refl in
          omega (arith, v.accounted, w, more);
      within_bytes = room;
      within_entries = rw (length-insert_old Key-discrete f.key d' d r.entries e) v.within_entries;
      each = λ k0 d0 g. elim (Key-discrete f.key k0) [
        | yes same ↦
            let here : d' ≡ d0 = ground (arith, lookup-insert Key-discrete f.key k0 d' r.entries) in
            subst IsCounted here (add_piece-IsCounted f now d (v.each f.key d e) clear)
        | no ne ↦ v.each k0 d0 (sym (lookup-insert_ne Key-discrete f.key k0 d' r.entries ne) ∙ g)
      ];
    }

abbrev stored : Incoming → ℕ → Datagram → Table → Table
stored f now d r = record r {
  entries = insert Key-discrete f.key (add_piece f now d) r.entries;
  bytes = r.bytes + length f.payload;
}

-- The branches of `insert_piece` and of `push_fragment`.
module _ (f : Incoming) (now : ℕ) (d : Datagram) (r : Table) where
  insert_piece_clash :
      overlaps f.off (f.off + length f.payload) d.pieces ≡ true
      → (insert_piece f now d r).0 ≡ drop_entry f.key d r
  unfolding insert_piece
  insert_piece_clash e = ground arith

  insert_piece_full :
      overlaps f.off (f.off + length f.payload) d.pieces ≡ false
      → r.max_bytes < r.bytes + length f.payload
      → (insert_piece f now d r).0 ≡ drop_entry f.key d r
  unfolding insert_piece
  insert_piece_full e h = ground arith

  insert_piece_room :
      overlaps f.off (f.off + length f.payload) d.pieces ≡ false
      → r.bytes + length f.payload ≤ r.max_bytes
      → (insert_piece f now d r).0 ≡ (finish f.key (add_piece f now d) (stored f now d r)).0
  unfolding insert_piece
  insert_piece_room e h = ground arith

module _ (f : Incoming) (now : ℕ) (r0 : Table) where
  pub push_fragment_new :
      find f.key (sweep now r0).entries ≡ none
      → length (sweep now r0).entries < (sweep now r0).max_entries
      → (push_fragment f now r0).0
        ≡ (insert_piece f now (no_pieces f now) (record (sweep now r0) {
          entries = insert Key-discrete f.key (no_pieces f now) (sweep now r0).entries;
        })).0
  unfolding push_fragment
  push_fragment_new e h = ground arith

  pub push_fragment_inconsistent :
      (d : Datagram)
      → find f.key (sweep now r0).entries ≡ some d
      → (not (d.prev_next == f.prev_next) || not (length d.prefix == length f.prefix)) ≡ true
      → (push_fragment f now r0).0 ≡ drop_entry f.key d (sweep now r0)
  unfolding push_fragment
  push_fragment_inconsistent d e h = ground arith

  pub push_fragment_same :
      (d : Datagram)
      → find f.key (sweep now r0).entries ≡ some d
      → (not (d.prev_next == f.prev_next) || not (length d.prefix == length f.prefix)) ≡ false
      → (push_fragment f now r0).0 ≡ (insert_piece f now d (sweep now r0)).0
  unfolding push_fragment
  push_fragment_same d e h = ground arith

  pub push_fragment_full :
      find f.key (sweep now r0).entries ≡ none
      → (sweep now r0).max_entries ≤ length (sweep now r0).entries
      → (push_fragment f now r0).0 ≡ sweep now r0
  unfolding push_fragment
  push_fragment_full e h = ground arith

pub insert_piece-IsSound :
    (f : Incoming) (now : ℕ) (d : Datagram) (r : Table)
    → IsSound r
    → find f.key r.entries ≡ some d
    → IsSound (insert_piece f now d r).0
insert_piece-IsSound f now d r v e =
    elim (Bool-cases (overlaps f.off (f.off + length f.payload) d.pieces)) [
      | inl clash ↦
          subst IsSound (sym (insert_piece_clash f now d r clash))
            (drop_entry-IsSound f.key d r v e)
      | inr clear ↦ elim (dec_lt r.max_bytes (r.bytes + length f.payload)) [
        | yes full ↦
            subst IsSound (sym (insert_piece_full f now d r clear full))
              (drop_entry-IsSound f.key d r v e)
        | no room ↦ subst IsSound (sym (insert_piece_room f now d r clear (omega arith))) (
            finish-IsSound f.key (add_piece f now d) (stored f now d r)
              (store-IsSound f now d r v e clear (omega arith))
              (lookup-insert_self Key-discrete f.key (add_piece f now d) r.entries))
      ]
    ]
