-- ===== src/Packet/Parse.antt =====
-- internal/packet/packet.go: `Packet`, `Parse`, `parse4`, `parse6` and `ports`.
pub mod Bounds
pub mod Families
pub mod View4
pub mod View6
use split_wire.Prelude.{
  Bool, Bytes, Outcome, at, err, fail_if, if◌then◌else◌, leb, length, low_bits, ltb, not, ok,
  out_of_fuel, shr, slice, suc, u16_at, zero, ℕ, ◌&&◌, ◌*◌, ◌+◌, ◌==◌, ◌>>=◌, ◌>>◌, ◌||◌,
}
use split_wire.Ip.{Addr, v4, v6}

abbrev pub proto_tcp : ℕ
proto_tcp = 6

abbrev pub proto_udp : ℕ
proto_udp = 17

-- The errors of the file, by their messages.
pub data Error : Type 0 where
  short_packet not_ip short_ipv4 bad_ihl fragment : Error
  short_ipv6 short_extension bad_extension short_ah bad_ah : Error
  family_mismatch not_tcp_udp short_l4 : Error
  bad_tcp_header short_tcp_option bad_tcp_option not_tcp bad_version : Error
  bad_mtu oversize_not_tcp short_lso mtu_too_small no_payload oversize_syn segment_too_large : Error
  short_fragment not_ipv6 : Error
  already_fragmented dont_fragment jumbogram truncated_ipv6 fragment_too_large : Error

pub record Packet : Type 0 where
  pub version : ℕ
  pub protocol : ℕ
  pub src : Addr
  pub dst : Addr
  pub src_port : ℕ
  pub dst_port : ℕ
  pub l4 : ℕ
  pub total : ℕ

abbrev pub is_tcp_udp : ℕ → Bool
is_tcp_udp proto = (proto == proto_tcp) || (proto == proto_udp)

-- Fills the ports in where the first four bytes of the transport header are there.
unfoldable pub ports : Bytes → Packet → Outcome Error Packet
ports b p =
    if is_tcp_udp p.protocol && leb (p.l4 + 4) p.total
    then (do
      s ← u16_at b p.l4
      d ← u16_at b (p.l4 + 2)
      ok (record p { src_port = s; dst_port = d }))
    else ok p

unfoldable pub parse4 : Bytes → Outcome Error Packet
unfolding ports
parse4 b = do
  fail_if (ltb (length b) 20) short_ipv4
  first ← at b 0
  let ihl = low_bits first 4 * 4
  fail_if (ltb ihl 20 || ltb (length b) ihl) bad_ihl
  frag ← u16_at b 6
  fail_if (not (low_bits frag 14 == 0)) fragment
  written ← u16_at b 2
  let total = if ltb written ihl || ltb (length b) written then length b else written
  protocol ← at b 9
  src ← slice b 12 16
  dst ← slice b 16 20
  ports b (record {
    version = 4;
    protocol = protocol;
    src = v4 src;
    dst = v4 dst;
    src_port = 0;
    dst_port = 0;
    l4 = ihl;
    total = total;
  })

-- What the loop of `parse6` does with a Next Header value.
pub data Header : Type 0 where
  options frag_header auth upper : Header

abbrev pub header : ℕ → Header
header n =
    if (n == 0) || (n == 43) || (n == 60)
    then options
    else if n == 44
    then frag_header
    else if n == 51
    then auth
    else upper

-- The loop: the protocol and the offset of the transport header. Each round but the last
-- moves `off` forwards by eight bytes or more, and `off` stays within `total`.
unfoldable pub skip_headers : ℕ → Bytes → ℕ → ℕ → ℕ → Outcome Error (ℕ × ℕ)
skip_headers zero b total next off = out_of_fuel
skip_headers (suc fuel) b total next off = elim (header next) [
  | options ↦ do
    fail_if (ltb total (off + 2)) short_extension
    next' ← at b off
    len ← at b (off + 1)
    fail_if (ltb total (off + (len + 1) * 8)) bad_extension
    skip_headers fuel b total next' (off + (len + 1) * 8)
  | frag_header ↦ err fragment
  | auth ↦ do
    fail_if (ltb total (off + 2)) short_ah
    next' ← at b off
    len ← at b (off + 1)
    fail_if (ltb total (off + (len + 2) * 4)) bad_ah
    skip_headers fuel b total next' (off + (len + 2) * 4)
  | upper ↦ ok (next, off)
]

-- The length that `parse6` takes for the packet's, from the buffer's and the payload's.
unfoldable pub total6 : ℕ → ℕ → ℕ
total6 len plen =
    if (plen == 0) && ltb 40 len || ltb len (40 + plen) || ltb (40 + plen) 40
    then len
    else 40 + plen

unfoldable pub parse6 : Bytes → Outcome Error Packet
unfolding ports
parse6 b = do
  fail_if (ltb (length b) 40) short_ipv6
  src ← slice b 8 24
  dst ← slice b 24 40
  plen ← u16_at b 4
  let total = total6 (length b) plen
  next ← at b 6
  (protocol, off) ← skip_headers (suc (length b)) b total next 40
  ports b (record {
    version = 6;
    protocol = protocol;
    src = v6 src;
    dst = v6 dst;
    src_port = 0;
    dst_port = 0;
    l4 = off;
    total = total;
  })

-- `b[0] >> 4` in a `switch`.
pub data Family : Type 0 where
  ipv4 ipv6 other : Family

abbrev pub family : ℕ → Family
family first = if shr first 4 == 4 then ipv4 else if shr first 4 == 6 then ipv6 else other

unfoldable pub parse : Bytes → Outcome Error Packet
parse b = do
  fail_if (ltb (length b) 1) short_packet
  first ← at b 0
  elim (family first) [ ipv4 ↦ parse4 b | ipv6 ↦ parse6 b | other ↦ err not_ip ]
