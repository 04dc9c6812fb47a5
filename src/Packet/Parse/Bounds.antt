-- ===== src/Packet/Parse/Bounds.antt =====
-- internal/packet/packet.go: the reads and the offsets of `Parse`.
use split_wire.Prelude.{
  Bytes, Ensures, Returns, arith, be16, byte_at, length, ok, suc, zero, ℕ, ◌*◌, ◌+◌, ◌<◌, ◌≡◌, ◌≤◌,
  ◌⊎◌,
}
use split_wire.Packet.Parse.{total6, Packet, ports, parse4, parse6, parse, skip_headers}

skip_headers-Returns :
    (fuel : ℕ) (b : Bytes) (total next off : ℕ)
    → total ≤ length b
    → total < fuel + off
    → off ≤ total
    → Returns (skip_headers fuel b total next off)
unfolding skip_headers
skip_headers-Returns zero b total next off h m o = absurd (omega arith)
skip_headers-Returns (suc fuel) b total next off h m o = ground (
  arith,
  skip_headers-Returns fuel b total (byte_at b off) (off + (byte_at b (off + 1) + 1) * 8),
  skip_headers-Returns fuel b total (byte_at b off) (off + (byte_at b (off + 1) + 2) * 4),
)

ports-Returns : (b : Bytes) (p : Packet) → p.total ≤ length b → Returns (ports b p)
unfolding ports
ports-Returns b p h = ground arith

parse4-Returns : (b : Bytes) → Returns (parse4 b)
unfolding parse4
parse4-Returns b = ground arith

pub total6_bounds : (len plen : ℕ) → 40 ≤ len → (40 ≤ total6 len plen) × (total6 len plen ≤ len)
unfolding total6
total6_bounds len plen h = ground arith

parse6-Returns : (b : Bytes) → Returns (parse6 b)
unfolding parse6
parse6-Returns b =
    let t = total6 (length b) (be16 b 4) in
    ground (
      arith,
      total6_bounds (length b) (be16 b 4),
      skip_headers-Returns (suc (length b)) b t (byte_at b 6) 40,
    )

-- `Parse` never reads out of range, whatever the bytes, and its loop ends.
pub parse-Returns : (b : Bytes) → Returns (parse b)
unfolding parse
parse-Returns b = ground (arith, parse4-Returns b, parse6-Returns b)

-- The offsets of a parsed packet: the transport header begins behind the IP header, and within
-- the packet, which ends within the buffer.
pub record IsWithin (b : Bytes) (p : Packet) : Type 0 where
  pub header_end : ((p.version ≡ 4) × (20 ≤ p.l4)) ⊎ ((p.version ≡ 6) × (40 ≤ p.l4))
  pub l4_total : p.l4 ≤ p.total
  pub total_length : p.total ≤ length b

pub skip_headers_within :
    (fuel : ℕ) (b : Bytes) (total next off : ℕ)
    → off ≤ total
    → Ensures (λ r. (off ≤ r.1) × (r.1 ≤ total)) (skip_headers fuel b total next off)
unfolding skip_headers
skip_headers_within zero b total next off h = tt
skip_headers_within (suc fuel) b total next off h = ground (
  arith,
  skip_headers_within fuel b total (byte_at b off) (off + (byte_at b (off + 1) + 1) * 8),
  skip_headers_within fuel b total (byte_at b off) (off + (byte_at b (off + 1) + 2) * 4),
)

parse4-IsWithin : (b : Bytes) (p : Packet) → parse4 b ≡ ok p → IsWithin b p
unfolding parse4
parse4-IsWithin b p e = ground arith

parse6-IsWithin : (b : Bytes) (p : Packet) → parse6 b ≡ ok p → IsWithin b p
unfolding parse6
parse6-IsWithin b p e =
    let t = total6 (length b) (be16 b 4) in
    ground (
      arith,
      total6_bounds (length b) (be16 b 4),
      skip_headers_within (suc (length b)) b t (byte_at b 6) 40,
    )

-- The offsets of a packet that `Parse` accepts are in order: the transport header begins behind
-- the fixed IP header of the packet's version, and within the packet, which ends within the buffer.
pub parse-IsWithin : (b : Bytes) (p : Packet) → parse b ≡ ok p → IsWithin b p
unfolding parse
parse-IsWithin b p e = ground (arith, parse4-IsWithin b p, parse6-IsWithin b p)
