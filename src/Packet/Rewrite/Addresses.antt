-- ===== src/Packet/Rewrite/Addresses.antt =====
-- internal/packet/packet.go: `RewriteSrc` and `RewriteDst`, and `Parse` afterwards.
use split_wire.Prelude.{
  Bytes, Ensures-ok, ap, arith, be16, byte_at, err, get_or-write_above, get_or-write_below,
  if◌then◌else◌, length, length-write, ok, range-write_ne, range-write_self, suc, write, ℕ, ◌%◌,
  ◌&&◌, ◌*◌, ◌+◌, ◌==◌, ◌∙◌, ◌≡◌, ◌≤◌,
}
use split_wire.Ip.{is_4, is_6, octets, Addr, invalid, v4, v6, IsAddr}
use split_wire.Packet.Parse.{family_mismatch, parse, Packet, ports, parse4, parse6, total6}
use split_wire.Packet.Rewrite.{rewrite_src, rewrite_dst}
use split_wire.Packet.Rewrite.Walk.{skip_headers-write_before}
use split_wire.Packet.Parse.View6.{parse6_inv, parse6_eq, walk6, base6, walk6_within}
use split_wire.Packet.Parse.Bounds.{parse-IsWithin}

parse4-write_src :
    (b o : Bytes) (p : Packet)
    → length o ≡ 4
    → parse4 b ≡ ok p
    → parse4 (write b 12 o) ≡ ok (record p { src = v4 o })
unfolding parse4
parse4-write_src b o p h e = ground (
  arith,
  length-write b 12 o,
  get_or-write_below b 12 o 0 0,
  get_or-write_below b 12 o 2 0,
  get_or-write_below b 12 o 3 0,
  get_or-write_below b 12 o 6 0,
  get_or-write_below b 12 o 7 0,
  get_or-write_below b 12 o 9 0,
  range-write_self b 12 o 16,
  range-write_ne b 12 o 16 20,
  get_or-write_above b 12 o (byte_at b 0 % 16 * 4) 0,
  get_or-write_above b 12 o (byte_at b 0 % 16 * 4 + 1) 0,
  get_or-write_above b 12 o (byte_at b 0 % 16 * 4 + 2) 0,
  get_or-write_above b 12 o (byte_at b 0 % 16 * 4 + 2 + 1) 0,
)

parse4-write_dst :
    (b o : Bytes) (p : Packet)
    → length o ≡ 4
    → parse4 b ≡ ok p
    → parse4 (write b 16 o) ≡ ok (record p { dst = v4 o })
unfolding parse4
parse4-write_dst b o p h e = ground (
  arith,
  length-write b 16 o,
  get_or-write_below b 16 o 0 0,
  get_or-write_below b 16 o 2 0,
  get_or-write_below b 16 o 3 0,
  get_or-write_below b 16 o 6 0,
  get_or-write_below b 16 o 7 0,
  get_or-write_below b 16 o 9 0,
  range-write_self b 16 o 20,
  range-write_ne b 16 o 12 16,
  get_or-write_above b 16 o (byte_at b 0 % 16 * 4) 0,
  get_or-write_above b 16 o (byte_at b 0 % 16 * 4 + 1) 0,
  get_or-write_above b 16 o (byte_at b 0 % 16 * 4 + 2) 0,
  get_or-write_above b 16 o (byte_at b 0 % 16 * 4 + 2 + 1) 0,
)

-- A write into the addresses leaves the ports that `ports` reads alone.
ports6-write :
    (b : Bytes) (k : ℕ) (o : Bytes) (p : Packet)
    → k + length o ≤ p.l4
    → ports (write b k o) p ≡ ports b p
unfolding ports
ports6-write b k o p h = ground (
  arith,
  length-write b k o,
  get_or-write_above b k o p.l4 0,
  get_or-write_above b k o (p.l4 + 1) 0,
  get_or-write_above b k o (p.l4 + 2) 0,
  get_or-write_above b k o (p.l4 + 2 + 1) 0,
)

ports6_src :
    (b : Bytes) (q p : Packet) (a : Addr)
    → ports b q ≡ ok p
    → ports b (record q { src = a }) ≡ ok (record p { src = a })
unfolding ports
ports6_src b q p a e = ground arith

ports6_dst :
    (b : Bytes) (q p : Packet) (a : Addr)
    → ports b q ≡ ok p
    → ports b (record q { dst = a }) ≡ ok (record p { dst = a })
unfolding ports
ports6_dst b q p a e = ground arith

ports_version : (b : Bytes) (q p : Packet) → ports b q ≡ ok p → p.version ≡ q.version
unfolding ports
ports_version b q p e = ground arith

-- The walk of `parse6` after a write into the addresses.
walk6-write :
    (b : Bytes) (k : ℕ) (o : Bytes) → 7 ≤ k → k + length o ≤ 40 → walk6 (write b k o) ≡ walk6 b
walk6-write b k o h l =
    let t = total6 (length b) (be16 b 4) in
    ground (
      arith,
      length-write b k o,
      get_or-write_below b k o 4 0,
      get_or-write_below b k o 5 0,
      get_or-write_below b k o 6 0,
      skip_headers-write_before (suc (length b)) b k o t (byte_at b 6) 40,
    )

base6-write_src :
    (b o : Bytes) (proto off : ℕ)
    → length o ≡ 16
    → 40 ≤ length b
    → base6 (write b 8 o) proto off ≡ record (base6 b proto off) { src = v6 o }
base6-write_src b o proto off h l = ground (
  arith,
  length-write b 8 o,
  get_or-write_below b 8 o 4 0,
  get_or-write_below b 8 o 5 0,
  range-write_self b 8 o 24,
  range-write_ne b 8 o 24 40,
)

base6-write_dst :
    (b o : Bytes) (proto off : ℕ)
    → length o ≡ 16
    → 40 ≤ length b
    → base6 (write b 24 o) proto off ≡ record (base6 b proto off) { dst = v6 o }
base6-write_dst b o proto off h l = ground (
  arith,
  length-write b 24 o,
  get_or-write_below b 24 o 4 0,
  get_or-write_below b 24 o 5 0,
  range-write_self b 24 o 40,
  range-write_ne b 24 o 8 24,
)

parse6-write_src :
    (b o : Bytes) (p : Packet)
    → length o ≡ 16
    → parse6 b ≡ ok p
    → parse6 (write b 8 o) ≡ ok (record p { src = v6 o })
parse6-write_src b o p h e =
    let (long, proto, off, w, q) = parse6_inv b e in
    let far = Ensures-ok _ (walk6 b) (walk6_within b long) w in
    parse6_eq (write b 8 o) proto off (omega (arith, length-write b 8 o))
      (walk6-write b 8 o (omega arith) (omega arith) ∙ w)
    ∙ ports6-write b 8 o _ (omega (arith, far))
    ∙ ap (ports b) (base6-write_src b o proto off h long)
    ∙ ports6_src b _ p (v6 o) q

parse6-write_dst :
    (b o : Bytes) (p : Packet)
    → length o ≡ 16
    → parse6 b ≡ ok p
    → parse6 (write b 24 o) ≡ ok (record p { dst = v6 o })
parse6-write_dst b o p h e =
    let (long, proto, off, w, q) = parse6_inv b e in
    let far = Ensures-ok _ (walk6 b) (walk6_within b long) w in
    parse6_eq (write b 24 o) proto off (omega (arith, length-write b 24 o))
      (walk6-write b 24 o (omega arith) (omega arith) ∙ w)
    ∙ ports6-write b 24 o _ (omega (arith, far))
    ∙ ap (ports b) (base6-write_dst b o proto off h long)
    ∙ ports6_dst b _ p (v6 o) q

parse4_version : (b : Bytes) (p : Packet) → parse4 b ≡ ok p → p.version ≡ 4
unfolding parse4
parse4_version b p e = ground arith

parse6_version : (b : Bytes) (p : Packet) → parse6 b ≡ ok p → p.version ≡ 6
parse6_version b p e = let (long, proto, off, w, q) = parse6_inv b e in ports_version b _ p q

-- Where `RewriteSrc` succeeds on a packet that parses, with an address of 4 or 16 bytes, the result
-- has the same length and parses to the same, but for its source, which is the new address.
pub parse-rewrite_src :
    (b b' : Bytes) (a : Addr) (p : Packet)
    → IsAddr a
    → parse b ≡ ok p
    → rewrite_src b a ≡ ok b'
    → (parse b' ≡ ok (record p { src = a })) × (length b' ≡ length b)
unfolding parse rewrite_src
parse-rewrite_src b b' invalid p h e r = ground arith
parse-rewrite_src b b' (v4 o) p h e r = ground (
  arith,
  parse4_version b p,
  parse6_version b p,
  length-write b 12 o,
  get_or-write_below b 12 o 0 0,
  parse4-write_src b o p,
)
parse-rewrite_src b b' (v6 o) p h e r = ground (
  arith,
  parse4_version b p,
  parse6_version b p,
  length-write b 8 o,
  get_or-write_below b 8 o 0 0,
  parse6-write_src b o p,
)

-- Where `RewriteDst` succeeds on a packet that parses, with an address of 4 or 16 bytes, the result
-- has the same length and parses to the same, but for its destination, which is the new address.
pub parse-rewrite_dst :
    (b b' : Bytes) (a : Addr) (p : Packet)
    → IsAddr a
    → parse b ≡ ok p
    → rewrite_dst b a ≡ ok b'
    → (parse b' ≡ ok (record p { dst = a })) × (length b' ≡ length b)
unfolding parse rewrite_dst
parse-rewrite_dst b b' invalid p h e r = ground arith
parse-rewrite_dst b b' (v4 o) p h e r = ground (
  arith,
  parse4_version b p,
  parse6_version b p,
  length-write b 16 o,
  get_or-write_below b 16 o 0 0,
  parse4-write_dst b o p,
)
parse-rewrite_dst b b' (v6 o) p h e r = ground (
  arith,
  parse4_version b p,
  parse6_version b p,
  length-write b 24 o,
  get_or-write_below b 24 o 0 0,
  parse6-write_dst b o p,
)

-- Which rewrites succeed: those to an address of the packet's own family, and no other. No rewrite
-- panics.
pub rewrite_src_lem :
    (b : Bytes) (a : Addr) (p : Packet)
    → IsAddr a
    → parse b ≡ ok p
    → rewrite_src b a ≡ (
        if (p.version == 4) && is_4 a
        then ok (write b 12 (octets a))
        else if (p.version == 6) && is_6 a
        then ok (write b 8 (octets a))
        else err family_mismatch)
unfolding rewrite_src
rewrite_src_lem b invalid p h e = ground arith
rewrite_src_lem b (v4 o) p h e = ground (arith, parse-IsWithin b p e)
rewrite_src_lem b (v6 o) p h e = ground (arith, parse-IsWithin b p e)

pub rewrite_dst_lem :
    (b : Bytes) (a : Addr) (p : Packet)
    → IsAddr a
    → parse b ≡ ok p
    → rewrite_dst b a ≡ (
        if (p.version == 4) && is_4 a
        then ok (write b 16 (octets a))
        else if (p.version == 6) && is_6 a
        then ok (write b 24 (octets a))
        else err family_mismatch)
unfolding rewrite_dst
rewrite_dst_lem b invalid p h e = ground arith
rewrite_dst_lem b (v4 o) p h e = ground (arith, parse-IsWithin b p e)
rewrite_dst_lem b (v6 o) p h e = ground (arith, parse-IsWithin b p e)
