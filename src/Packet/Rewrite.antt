-- ===== src/Packet/Rewrite.antt =====
-- internal/packet/packet.go: `RewriteSrc`, `RewriteDst`, `RewriteSrcPort`, `RewriteDstPort`,
-- `TrimToIPLength` and `Pad16`. A function that writes into its argument returns the buffer as it
-- is afterwards; on an error nothing has been written.
pub mod Walk
pub mod Addresses
pub mod Padding
pub mod Ports
use split_wire.Prelude.{
  Bytes, Outcome, be16, byte_at, bytes16, copy_at, err, fail_if, if◌then◌else◌, leb, length, ltb,
  not, replicate, take, write, ℕ, ◌%◌, ◌&&◌, ◌+◌, ◌-◌, ◌==◌, ◌>>=◌, ◌>>◌,
}
use split_wire.Ip.{Addr, is_4, is_6, octets}
use split_wire.Packet.Parse.{
  Error, family_mismatch, family, header, ipv4, ipv6, is_tcp_udp, not_tcp_udp, other, parse,
  short_l4,
}

unfoldable pub rewrite_src : Bytes → Addr → Outcome Error Bytes
rewrite_src b a = do
  p ← parse b
  if (p.version == 4) && is_4 a
      then copy_at b 12 (octets a)
      else if (p.version == 6) && is_6 a
      then copy_at b 8 (octets a)
      else err family_mismatch

unfoldable pub rewrite_dst : Bytes → Addr → Outcome Error Bytes
rewrite_dst b a = do
  p ← parse b
  if (p.version == 4) && is_4 a
      then copy_at b 16 (octets a)
      else if (p.version == 6) && is_6 a
      then copy_at b 24 (octets a)
      else err family_mismatch

unfoldable pub rewrite_src_port : Bytes → ℕ → Outcome Error Bytes
rewrite_src_port b port = do
  p ← parse b
  fail_if (not (is_tcp_udp p.protocol)) not_tcp_udp
  fail_if (ltb (length b) (p.l4 + 2)) short_l4
  copy_at b p.l4 (bytes16 port)

unfoldable pub rewrite_dst_port : Bytes → ℕ → Outcome Error Bytes
rewrite_dst_port b port = do
  p ← parse b
  fail_if (not (is_tcp_udp p.protocol)) not_tcp_udp
  fail_if (ltb (length b) (p.l4 + 4)) short_l4
  copy_at b (p.l4 + 2) (bytes16 port)

unfoldable pub trim_to : Bytes → ℕ → ℕ → Bytes
trim_to b header n = if leb header n && leb n (length b) then take n b else b

unfoldable pub trim_to_ip_length : Bytes → Bytes
unfolding trim_to
trim_to_ip_length b = if ltb (length b) 1 then b else elim (family (byte_at b 0)) [
  | ipv4 ↦ if leb 4 (length b) then trim_to b 20 (be16 b 2) else b
  | ipv6 ↦ if leb 6 (length b) then trim_to b 40 (40 + be16 b 4) else b
  | other ↦ b
]

unfoldable pub pad16 : Bytes → Bytes
pad16 b =
    let n = (16 - length b % 16) % 16 in
    if n == 0 then b else write (replicate (length b + n) 0) 0 b
