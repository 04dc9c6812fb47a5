-- ===== src/Packet/Parse/View4.antt =====
-- internal/packet/packet.go: `parse4` seen from outside: when it succeeds, and the bytes that each
-- field comes from.
use split_wire.Prelude.{
  Bytes, ap, arith, be16, byte_at, get_or-write_below, if◌then◌else◌, length, length-write, ltb, ok,
  range, range-write_ne, sym, write, ℕ, ◌%◌, ◌*◌, ◌^◌, ◌||◌, ◌∙◌, ◌≡◌, ◌≤◌,
}
use split_wire.Ip.{v4}
use split_wire.Packet.Parse.{Packet, parse4, ports}

abbrev pub ihl4 : Bytes → ℕ
ihl4 b = byte_at b 0 % 16 * 4

pub record IsHeader4 (b : Bytes) : Type 0 where
  pub fixed_part : 20 ≤ length b
  pub ihl_least : 20 ≤ ihl4 b
  pub ihl_length : ihl4 b ≤ length b
  pub whole : be16 b 6 % 2 ^ 14 ≡ 0

-- The packet before its ports are read.
abbrev pub base4 : Bytes → Packet
base4 b = record {
  version = 4;
  protocol = byte_at b 9;
  src = v4 (range b 12 16);
  dst = v4 (range b 16 20);
  src_port = 0;
  dst_port = 0;
  l4 = ihl4 b;
  total = if ltb (be16 b 2) (ihl4 b) || ltb (length b) (be16 b 2) then length b else be16 b 2;
}

pub parse4_eq : (b : Bytes) → IsHeader4 b → parse4 b ≡ ports b (base4 b)
unfolding parse4
parse4_eq b h = ground arith

pub parse4_header : (b : Bytes) (p : Packet) → parse4 b ≡ ok p → IsHeader4 b
unfolding parse4
parse4_header b p e = ground arith

pub parse4_inv :
    (b : Bytes) (p : Packet) → parse4 b ≡ ok p → IsHeader4 b × (ports b (base4 b) ≡ ok p)
parse4_inv b p e = let h = parse4_header b p e in (h, sym (parse4_eq b h) ∙ e)

-- A write behind the header keeps the header and what is read from it.
module _ (b : Bytes) (k : ℕ) (ys : Bytes) (h : IsHeader4 b) (behind : ihl4 b ≤ k) where
  pub IsHeader4-write : IsHeader4 (write b k ys)
  IsHeader4-write = ground (
    arith,
    length-write b k ys,
    get_or-write_below b k ys 0 0,
    get_or-write_below b k ys 6 0,
    get_or-write_below b k ys 7 0,
  )

  pub base4-write : base4 (write b k ys) ≡ base4 b
  base4-write = ground (
    arith,
    length-write b k ys,
    get_or-write_below b k ys 0 0,
    get_or-write_below b k ys 2 0,
    get_or-write_below b k ys 3 0,
    get_or-write_below b k ys 9 0,
    range-write_ne b k ys 12 16,
    range-write_ne b k ys 16 20,
  )

  pub parse4-write : parse4 (write b k ys) ≡ ports (write b k ys) (base4 b)
  parse4-write = parse4_eq (write b k ys) IsHeader4-write ∙ ap (ports (write b k ys)) base4-write
