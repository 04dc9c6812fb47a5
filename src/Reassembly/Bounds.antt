-- ===== src/Reassembly/Bounds.antt =====
-- internal/reassembly/ipv4.go: the methods of the table and its invariant.
use split_wire.Prelude.{
  Bool, Bytes, List, Option, Outcome, [], arith, dec_lt, err, false, if◌then◌else◌, insert,
  insert-IsUnique, length, length-insert_new, lookup, lookup-insert, lookup-insert_ne,
  lookup-insert_self, ltb, map, none, ok, out_of_fuel, panic, refl, some, subst, sym, true, weigh,
  weigh-insert_new, ℕ, ◌%◌, ◌+◌, ◌<◌, ◌^◌, ◌∙◌, ◌∷◌, ◌≡◌,
}
use split_wire.Reassembly.{held, Failure}
use split_wire.Reassembly.Invariant.{
  Inv, IsCounted, drop_entry-Inv, insert_piece-Inv, push_fragment_full, push_fragment_new,
}
use split_wire.Reassembly.Ipv4.{
  Table, Key, Datagram, Key-discrete, find, drop_entry, Incoming, Reading, fragment, new_table,
  no_pieces, pass, push_fragment, push_info, read_packet, sweep, sweep_keys,
}

new_entry-Inv :
    (k : Key) (now : ℕ) (r : Table)
    → Inv r
    → find k r.entries ≡ none
    → length r.entries < r.max_entries
    → Inv (record r { entries = insert Key-discrete k (no_pieces now) r.entries })
new_entry-Inv k now r v e room = record {
  unique = insert-IsUnique Key-discrete k (no_pieces now) r.entries v.unique;
  accounted = omega (
    arith,
    v.accounted,
    weigh-insert_new Key-discrete (λ x. x.bytes) k (no_pieces now) r.entries e,
  );
  within_bytes = v.within_bytes;
  within_entries = omega (arith, length-insert_new Key-discrete k (no_pieces now) r.entries e);
  each = λ k0 d0 g. elim (Key-discrete k k0) [
    | yes same ↦
        let here : no_pieces now ≡ d0 =
          ground (arith, lookup-insert Key-discrete k k0 (no_pieces now) r.entries) in
        subst IsCounted here (unfold held in (refl, tt))
    | no ne ↦
        v.each k0 d0 (sym (lookup-insert_ne Key-discrete k k0 (no_pieces now) r.entries ne) ∙ g)
  ];
}

sweep_keys-Inv : (keys : List Key) (now : ℕ) (r : Table) → Inv r → Inv (sweep_keys keys now r)
unfolding sweep_keys
sweep_keys-Inv [] now r v = v
sweep_keys-Inv (k ∷ keys) now r v = sweep_keys-Inv keys now _ (go (find k r.entries) refl)
  where
    counter : (t : Table) (n : ℕ) → Inv t → Inv (record t { expired = n })
    counter t n w = record {
      unique = w.unique;
      accounted = w.accounted;
      within_bytes = w.within_bytes;
      within_entries = w.within_entries;
      each = w.each;
    }

    either : (c : Bool) (t u : Table) → Inv t → Inv u → Inv (if c then t else u)
    either true t u w x = w
    either false t u w x = x

    go :
        (o : Option Datagram)
        → find k r.entries ≡ o
        → Inv (elim o [
          | none ↦ r
          | some d ↦
              if ltb (d.updated + r.ttl) now
              then (let r' = drop_entry k d r in record r' { expired = (r.expired + 1) % 2 ^ 64 })
              else r
        ])
    go none e = v
    go (some d) e = either _ _ _ (counter _ _ (drop_entry-Inv k d r v e)) v

pub sweep-Inv : (now : ℕ) (r : Table) → Inv r → Inv (sweep now r)
unfolding sweep
sweep-Inv now r v = sweep_keys-Inv (map (λ e. e.0) r.entries) now r v

push_fragment-Inv : (f : Incoming) (now : ℕ) (r : Table) → Inv r → Inv (push_fragment f now r).0
unfolding push_fragment
push_fragment-Inv f now r0 v = go (find f.key r.entries) refl
  where
    r : Table
    r = sweep now r0

    w : Inv r
    w = sweep-Inv now r0 v

    fresh : Table
    fresh = record r { entries = insert Key-discrete f.key (no_pieces now) r.entries }

    go : (o : Option Datagram) → find f.key r.entries ≡ o → Inv (push_fragment f now r0).0
    go (some d) e = rw (e, push_fragment) (insert_piece-Inv f now d r w e)
    go none e = elim (dec_lt (length r.entries) r.max_entries) [
      | yes room ↦ subst Inv (sym (push_fragment_new f now r0 e room)) (
          insert_piece-Inv f now (no_pieces now) fresh (new_entry-Inv f.key now r w e room)
            (lookup-insert_self Key-discrete f.key (no_pieces now) r.entries))
      | no full ↦ subst Inv (sym (push_fragment_full f now r0 e (omega arith))) w
    ]

-- Whatever packet comes, the table's books stay right, and its limits on datagrams and on bytes
-- are kept.
pub push_info-Inv : (pkt : Bytes) (now : ℕ) (r : Table) → Inv r → Inv (push_info pkt now r).0
unfolding push_info
push_info-Inv pkt now r v = go (read_packet pkt) refl
  where
    go : (o : Outcome Failure Reading) → read_packet pkt ≡ o → Inv (push_info pkt now r).0
    go (ok (pass whole)) e = rw (e, push_info) v
    go (ok (fragment f)) e = rw (e, push_info) (push_fragment-Inv f now r v)
    go (err x) e = rw (e, push_info) v
    go panic e = rw (e, push_info) v
    go out_of_fuel e = rw (e, push_info) v

pub new_table-Inv : Inv new_table
unfolding new_table weigh lookup
new_table-Inv = record {
  unique = tt;
  accounted = refl;
  within_bytes = omega arith;
  within_entries = omega arith;
  each = λ k d e. cc;
}
