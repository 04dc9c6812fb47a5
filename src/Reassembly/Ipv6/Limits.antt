-- ===== src/Reassembly/Ipv6/Limits.antt =====
-- internal/reassembly/ipv6.go: the methods of the table and its invariant.
use split_wire.Prelude.{
  Bool, Bool-cases, Bytes, List, Option, Outcome, Yields, [], arith, dec_lt, err, false,
  if◌then◌else◌, inl, inr, insert, insert-IsUnique, length, length-insert_new, lookup,
  lookup-insert, lookup-insert_ne, lookup-insert_self, ltb, map, none, not, ok, out_of_fuel, panic,
  refl, some, subst, sym, true, weigh, weigh-insert_new, ℕ, ◌%◌, ◌+◌, ◌<◌, ◌==◌, ◌^◌, ◌||◌, ◌∙◌,
  ◌∷◌, ◌≡◌,
}
use split_wire.Reassembly.{held, Failure}
use split_wire.Reassembly.Ipv6.Books.{
  IsSound, IsCounted, drop_entry-IsSound, insert_piece-IsSound, push_fragment_full,
  push_fragment_new, push_fragment_inconsistent, push_fragment_same,
}
use split_wire.Reassembly.Ipv6.{
  Table, Key, Datagram, Key-discrete, find, drop_entry, Incoming, Reading, fragment, new_table,
  no_pieces, pass, push_fragment, push_info, read_packet, sweep, sweep_keys,
}
use split_wire.Reassembly.Ipv6.Chain.{IsFragment, IsReading, read_packet-IsReading}

new_entry-IsSound :
    (k : Key) (f : Incoming) (now : ℕ) (r : Table)
    → IsFragment f
    → IsSound r
    → find k r.entries ≡ none
    → length r.entries < r.max_entries
    → IsSound (record r { entries = insert Key-discrete k (no_pieces f now) r.entries })
new_entry-IsSound k f now r c v e room = record {
  unique = insert-IsUnique Key-discrete k (no_pieces f now) r.entries v.unique;
  accounted = omega (
    arith,
    v.accounted,
    weigh-insert_new Key-discrete (λ x. x.bytes) k (no_pieces f now) r.entries e,
  );
  within_bytes = v.within_bytes;
  within_entries = omega (arith, length-insert_new Key-discrete k (no_pieces f now) r.entries e);
  each = λ k0 d0 g. elim (Key-discrete k k0) [
    | yes same ↦
        let here : no_pieces f now ≡ d0 =
          ground (arith, lookup-insert Key-discrete k k0 (no_pieces f now) r.entries) in
        subst IsCounted here (unfold held in (refl, tt, c.0))
    | no ne ↦
        v.each k0 d0 (sym (lookup-insert_ne Key-discrete k k0 (no_pieces f now) r.entries ne) ∙ g)
  ];
}

sweep_keys-IsSound :
    (keys : List Key) (now : ℕ) (r : Table) → IsSound r → IsSound (sweep_keys keys now r)
unfolding sweep_keys
sweep_keys-IsSound [] now r v = v
sweep_keys-IsSound (k ∷ keys) now r v = sweep_keys-IsSound keys now _ (go (find k r.entries) refl)
  where
    counter : (t : Table) (n : ℕ) → IsSound t → IsSound (record t { expired = n })
    counter t n w = record {
      unique = w.unique;
      accounted = w.accounted;
      within_bytes = w.within_bytes;
      within_entries = w.within_entries;
      each = w.each;
    }

    either : (c : Bool) (t u : Table) → IsSound t → IsSound u → IsSound (if c then t else u)
    either true t u w x = w
    either false t u w x = x

    go :
        (o : Option Datagram)
        → find k r.entries ≡ o
        → IsSound (elim o [
          | none ↦ r
          | some d ↦
              if ltb (d.updated + r.ttl) now
              then (let r' = drop_entry k d r in record r' { expired = (r.expired + 1) % 2 ^ 64 })
              else r
        ])
    go none e = v
    go (some d) e = either _ _ _ (counter _ _ (drop_entry-IsSound k d r v e)) v

pub sweep-IsSound : (now : ℕ) (r : Table) → IsSound r → IsSound (sweep now r)
unfolding sweep
sweep-IsSound now r v = sweep_keys-IsSound (map (λ e. e.0) r.entries) now r v

push_fragment-IsSound :
    (f : Incoming) (now : ℕ) (r : Table)
    → IsFragment f
    → IsSound r
    → IsSound (push_fragment f now r).0
unfolding push_fragment
push_fragment-IsSound f now r0 c v = go (find f.key r.entries) refl
  where
    r : Table
    r = sweep now r0

    w : IsSound r
    w = sweep-IsSound now r0 v

    fresh : Table
    fresh = record r { entries = insert Key-discrete f.key (no_pieces f now) r.entries }

    go : (o : Option Datagram) → find f.key r.entries ≡ o → IsSound (push_fragment f now r0).0
    go (some d) e =
        elim (Bool-cases
          (not (d.prev_next == f.prev_next) || not (length d.prefix == length f.prefix))) [
            | inl bad ↦
                subst IsSound (sym (push_fragment_inconsistent f now r0 d e bad))
                  (drop_entry-IsSound f.key d r w e)
            | inr good ↦
                subst IsSound (sym (push_fragment_same f now r0 d e good))
                  (insert_piece-IsSound f now d r w e)
          ]
    go none e = elim (dec_lt (length r.entries) r.max_entries) [
      | yes room ↦ subst IsSound (sym (push_fragment_new f now r0 e room)) (
          insert_piece-IsSound f now (no_pieces f now) fresh
            (new_entry-IsSound f.key f now r c w e room)
            (lookup-insert_self Key-discrete f.key (no_pieces f now) r.entries))
      | no full ↦ subst IsSound (sym (push_fragment_full f now r0 e (omega arith))) w
    ]

-- Whatever packet comes, the table of IPv6 fragments keeps its limits on datagrams and on bytes and
-- counts those bytes, no two pieces of a datagram overlap, and the field that is to name the next
-- header lies among the headers that it keeps.
pub push_info-IsSound :
    (pkt : Bytes) (now : ℕ) (r : Table) → IsSound r → IsSound (push_info pkt now r).0
unfolding push_info
push_info-IsSound pkt now r v = go (read_packet pkt) refl (read_packet-IsReading pkt)
  where
    go :
        (o : Outcome Failure Reading)
        → read_packet pkt ≡ o
        → Yields IsReading o
        → IsSound (push_info pkt now r).0
    go (ok (pass whole)) e y = rw (e, push_info) v
    go (ok (fragment f)) e y = rw (e, push_info) (push_fragment-IsSound f now r y v)
    go (err x) e y = rw (e, push_info) v
    go panic e y = elim y [ ]
    go out_of_fuel e y = elim y [ ]

pub new_table-IsSound : IsSound new_table
unfolding new_table weigh lookup
new_table-IsSound = record {
  unique = tt;
  accounted = refl;
  within_bytes = omega arith;
  within_entries = omega arith;
  each = λ k d e. cc;
}
