-- ===== src/Tests/Fragments.antt =====
-- Fragments of IPv6 packets.
use split_wire.Reassembly.Ipv6.Whole.{IsComplete, IsHeld, given_out, Whole, finish-Whole}
use split_wire.Prelude.{
  Bytes, Yields, [], arith, delete, insert, length, lookup, ok, refl, replicate, take, true, ℕ,
  ◌++◌, ◌+◌, ◌∷◌, ◌≡◌, ◌⊎◌,
}
use split_wire.Reassembly.Ipv6.Books.{IsSound, IsCounted}
use split_wire.Reassembly.Ipv6.Limits.{push_info-IsSound, new_table-IsSound}
use split_wire.Reassembly.{mark, all_marked, paste, incomplete, overlaps, held}
use split_wire.Reassembly.Ipv6.{
  assemble, finish, new_table, push_info, read_packet, add_piece, drop_entry, find_ipv6_fragment,
  fragment_walk, insert_piece, push_fragment, read_chain, read_fragment, sweep, sweep_keys,
  with_key, with_payload, Datagram, Key,
}
use split_wire.Reassembly.Ipv6.Chain.{IsReading, read_packet-IsReading}

-- The fixed header, with a fragment header next.
abbrev fixed : ℕ → Bytes
fixed payload = 96 ∷ 0 ∷ 0 ∷ 0 ∷ 0 ∷ payload ∷ 44 ∷ 64 ∷ replicate 16 32 ++ replicate 16 33

abbrev fragment_of : ℕ → Bytes → Bytes
fragment_of low content = fixed (8 + length content) ++ 17 ∷ 0 ∷ 0 ∷ low ∷ 0 ∷ 0 ∷ 0 ∷ 7 ∷ content

abbrev first_half : Bytes
first_half = fragment_of 1 (1 ∷ 2 ∷ 3 ∷ 4 ∷ 5 ∷ 6 ∷ 7 ∷ 8 ∷ [])

abbrev second_half : Bytes
second_half = fragment_of 8 (9 ∷ 10 ∷ 11 ∷ [])

after_one : (push_info second_half 5 new_table).1 ≡ ok incomplete
unfolding push_info read_packet read_chain find_ipv6_fragment fragment_walk read_fragment
    with_payload with_key push_fragment insert_piece finish sweep sweep_keys overlaps add_piece mark
    lookup insert delete new_table paste assemble all_marked drop_entry
after_one = refl

push_info-IsSound_example : IsSound (push_info first_half 6 (push_info second_half 5 new_table).0).0
push_info-IsSound_example =
    push_info-IsSound first_half 6 (push_info second_half 5 new_table).0
      (push_info-IsSound second_half 5 new_table new_table-IsSound)

abbrev complete : Datagram
complete = record {
  prefix = take 40 first_half;
  prev_next = 6;
  next = 17;
  pieces =
      record { off = 8; content = 9 ∷ 10 ∷ 11 ∷ [] }
      ∷ record { off = 0; content = 1 ∷ 2 ∷ 3 ∷ 4 ∷ 5 ∷ 6 ∷ 7 ∷ 8 ∷ [] }
      ∷ [];
  last = 11;
  have_last = true;
  updated = 6;
  bytes = 11;
  max_packet = 56;
}

complete-IsCounted : IsCounted complete
unfolding overlaps held
complete-IsCounted = (refl, (refl, (refl, tt)), (omega arith, omega arith, omega arith))

abbrev complete_key : Key
complete_key = record { src = replicate 16 32; dst = replicate 16 33; id = 7; next = 17 }

assembled :
    assemble complete
    ≡ 96 ∷ 0 ∷ 0 ∷ 0 ∷ 0 ∷ 11 ∷ 17 ∷ 64 ∷ replicate 16 32
      ++ replicate 16 33
      ++ 1 ∷ 2 ∷ 3 ∷ 4 ∷ 5 ∷ 6 ∷ 7 ∷ 8 ∷ 9 ∷ 10 ∷ 11 ∷ []
unfolding assemble paste
assembled = refl

finish-Whole_example :
    (IsComplete complete
      × (out : Bytes) × (finish complete_key complete new_table
          ≡ (drop_entry complete_key complete new_table, ok (given_out complete out)))
      × Whole complete out)
    ⊎ ((¬ IsComplete complete) × IsHeld (finish complete_key complete new_table).1)
finish-Whole_example = finish-Whole complete_key complete new_table complete-IsCounted

read_packet-IsReading_example : Yields IsReading (read_packet first_half)
read_packet-IsReading_example = read_packet-IsReading first_half
