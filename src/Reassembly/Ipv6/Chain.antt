-- ===== src/Reassembly/Ipv6/Chain.antt =====
-- internal/reassembly/ipv6.go: what `PushInfo` reads from a packet before it takes the lock.
use split_wire.Prelude.{
  Bool, Bytes, Option, Yields, Yields-bind, arith, be16, be32, byte_at, dec_le, err, if◌then◌else◌,
  length, length-range, ltb, none, ok, range, shr, slice, some, suc, test_bit, zero, ℕ, ◌*◌, ◌+◌,
  ◌<◌, ◌≡◌, ◌≤◌,
}
use split_wire.Reassembly.Ipv6.{
  Incoming, find_ipv6_fragment, fragment_walk, read_fragment, Reading, fragment, pass, read_packet,
  with_key, with_payload, after_walk, read_chain,
}
use split_wire.Reassembly.{short_header}

-- A fragment header after the fixed header, behind the field that names it.
abbrev IsPlace : ℕ → Option (ℕ × ℕ) → Type 0
IsPlace total none = Unit {0}
IsPlace total (some (off, prev_next)) =
    (40 ≤ off) × (6 ≤ prev_next) × (prev_next < off) × (off ≤ total)

fragment_walk-IsPlace :
    (fuel : ℕ) (pkt : Bytes) (total next prev_next off : ℕ)
    → total ≤ length pkt
    → 40 ≤ off
    → 6 ≤ prev_next
    → prev_next < off
    → off ≤ total
    → total < fuel + off
    → Yields (IsPlace total) (fragment_walk fuel pkt total next prev_next off)
unfolding fragment_walk
fragment_walk-IsPlace zero pkt total next prev_next off h a g b c m = absurd (omega arith)
fragment_walk-IsPlace (suc fuel) pkt total next prev_next off h a g b c m = ground (
  arith,
  fragment_walk-IsPlace fuel pkt total (byte_at pkt off) off
      (off + (byte_at pkt (off + 1) + 1) * 8),
  fragment_walk-IsPlace fuel pkt total (byte_at pkt off) off
      (off + (byte_at pkt (off + 1) + 2) * 4),
)

find_ipv6_fragment-IsPlace : (pkt : Bytes) → Yields (IsPlace (length pkt)) (find_ipv6_fragment pkt)
unfolding find_ipv6_fragment
find_ipv6_fragment-IsPlace pkt = ground (
  arith,
  fragment_walk-IsPlace (length pkt + 1) pkt
      (if ltb (length pkt) (40 + be16 pkt 4) then length pkt else 40 + be16 pkt 4) (byte_at pkt 6) 6
      40,
)

-- What a fragment brings: the headers before its fragment header, and the field that names that
-- header among them.
abbrev pub IsChained : Bytes → ℕ → Type 0
IsChained prefix prev_next = (40 ≤ length prefix) × (6 ≤ prev_next) × (prev_next < length prefix)

abbrev pub IsFragment : Incoming → Type 0
IsFragment f = IsChained f.prefix f.prev_next × (f.off + length f.payload ≤ 65535)

abbrev pub IsReading : Reading → Type 0
IsReading (pass whole) = Unit {0}
IsReading (fragment f) = IsFragment f

module _ (pkt : Bytes) (frag_off prev_next next off : ℕ) (more : Bool) (payload : Bytes) (total : ℕ)
    (room : frag_off + 8 ≤ length pkt) (after_header : 40 ≤ frag_off) (behind : 6 ≤ prev_next)
    (before : prev_next < frag_off) where
  with_key_eq :
      with_key pkt frag_off prev_next next off more payload total
      ≡ ok (record {
        key = record {
          src = range pkt 8 24;
          dst = range pkt 24 40;
          id = be32 pkt (frag_off + 4);
          next = next;
        };
        prefix = range pkt 0 frag_off;
        prev_next = prev_next;
        payload = payload;
        off = off;
        more = more;
        total = total;
      })
  unfolding with_key
  with_key_eq = ground arith

  with_key-IsFragment :
      off + length payload ≤ 65535
      → Yields IsFragment (with_key pkt frag_off prev_next next off more payload total)
  with_key-IsFragment fits =
      let n = length-range pkt 0 frag_off in
      rw with_key_eq ((omega (arith, n), behind, omega (arith, n)), fits)

  with_payload-IsFragment :
      Yields IsFragment (with_payload pkt frag_off prev_next next off more payload total)
  unfolding with_payload
  with_payload-IsFragment = ground (arith, with_key-IsFragment)

module _ (pkt : Bytes) (total frag_off prev_next : ℕ) (inside : total ≤ length pkt) where
  read_fragment_short :
      total < frag_off + 8 → read_fragment pkt total frag_off prev_next ≡ err short_header
  unfolding read_fragment
  read_fragment_short h = ground arith

  read_fragment_room :
      frag_off + 8 ≤ total
      → read_fragment pkt total frag_off prev_next ≡ (
          let fv = be16 pkt (frag_off + 2) in
          with_payload pkt frag_off prev_next
            (byte_at pkt frag_off)
            (shr fv 3 * 8)
            (test_bit fv 0)
            (range pkt (frag_off + 8) total)
            total)
  unfolding read_fragment
  read_fragment_room h = ground arith

  pub read_fragment-IsFragment :
      40 ≤ frag_off
      → 6 ≤ prev_next
      → prev_next < frag_off
      → Yields IsFragment (read_fragment pkt total frag_off prev_next)
  read_fragment-IsFragment a g b = elim (dec_le (frag_off + 8) total) [
    | yes room ↦
        rw (read_fragment_room room)
          (with_payload-IsFragment pkt frag_off prev_next _ _ _ _ total (omega arith) a g b)
    | no short ↦ rw (read_fragment_short (omega arith)) tt
  ]

read_chain-IsReading :
    (pkt : Bytes) (total : ℕ) → total ≤ length pkt → Yields IsReading (read_chain pkt total)
unfolding read_chain
read_chain-IsReading pkt total h =
    Yields-bind (λ w. w ≡ range pkt 0 total) IsReading (slice pkt 0 total) _ (ground arith)
      λ w e.
        Yields-bind (IsPlace (length w)) IsReading (find_ipv6_fragment w) (after_walk pkt total w)
          (find_ipv6_fragment-IsPlace w) (λ p. rest w e p)
  where
    rest :
        (w : Bytes)
        → w ≡ range pkt 0 total
        → (p : Option (ℕ × ℕ)) → IsPlace (length w) p
        → Yields IsReading (after_walk pkt total w p)
    rest w e none q = tt
    rest w e (some (frag_off, prev_next)) q =
        Yields-bind IsFragment IsReading (read_fragment pkt total frag_off prev_next)
          (λ f. ok (fragment f))
          (read_fragment-IsFragment pkt total frag_off prev_next h q.0 q.1 q.2) (λ f g. g)

-- Whatever a packet holds, reading it ends without a panic; a fragment that it yields has the
-- headers before it, the field that names its fragment header among them, and fits in 65535 bytes.
pub read_packet-IsReading : (pkt : Bytes) → Yields IsReading (read_packet pkt)
unfolding read_packet
read_packet-IsReading pkt = ground (arith, read_chain-IsReading pkt (40 + be16 pkt 4))
