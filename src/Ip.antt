-- ===== src/Ip.antt =====
-- What the program uses of Go's `net/netip`: addresses as values. The bytes stand in network
-- order. Zones are left out, since addresses taken from packets have none.
use split_wire.Prelude.{
  Bool, Bytes, [], byte_at, drop, false, if◌then◌else◌, leb, length, true, ℕ, ℕ_discrete, ◌&&◌, ◌-◌,
  ◌/◌, ◌==◌, ◌^◌, ◌||◌, ◌∷◌, ◌≡◌,
}

-- `netip.Addr`. `invalid` is its zero value.
pub data Addr : Type 0 where
  invalid : Addr
  v4 : Bytes → Addr
  v6 : Bytes → Addr

pub Addr-discrete : Discrete Addr
Addr-discrete = hlevel ℕ_discrete

abbrev pub is_4 : Addr → Bool
is_4 (v4 b) = true
is_4 _ = false

-- Holds of the addresses of 16 bytes, those that embed an IPv4 address included.
abbrev pub is_6 : Addr → Bool
is_6 (v6 b) = true
is_6 _ = false

abbrev pub is_valid : Addr → Bool
is_valid invalid = false
is_valid _ = true

-- The bytes of `As4` and `As16` on an address of that family.
abbrev pub octets : Addr → Bytes
octets invalid = []
octets (v4 b) = b
octets (v6 b) = b

abbrev all_zero : Bytes → Bool
all_zero [] = true
all_zero (x ∷ xs) = (x == 0) && all_zero xs

-- `::ffff:a.b.c.d`.
abbrev pub is_4in6 : Bytes → Bool
is_4in6 b =
    (byte_at b 0 == 0)
    && (byte_at b 1 == 0)
    && (byte_at b 2 == 0)
    && (byte_at b 3 == 0)
    && (byte_at b 4 == 0)
    && (byte_at b 5 == 0)
    && (byte_at b 6 == 0)
    && (byte_at b 7 == 0)
    && (byte_at b 8 == 0)
    && (byte_at b 9 == 0)
    && (byte_at b 10 == 255)
    && (byte_at b 11 == 255)

unfoldable pub unmap : Addr → Addr
unmap invalid = invalid
unmap (v4 b) = v4 b
unmap (v6 b) = if is_4in6 b then v4 (drop 12 b) else v6 b

-- `0.0.0.0` and `::`.
unfoldable pub is_unspecified : Addr → Bool
is_unspecified invalid = false
is_unspecified (v4 b) = all_zero b
is_unspecified (v6 b) = all_zero b

-- An address has the number of bytes of its family.
abbrev pub IsAddr : Addr → Type 0
IsAddr invalid = Unit
IsAddr (v4 o) = length o ≡ 4
IsAddr (v6 o) = length o ≡ 16

-- `netip.Prefix`.
pub record Prefix : Type 0 where
  pub addr : Addr
  pub bits : ℕ

-- Whether the first `bits` bits of two byte strings agree.
unfoldable pub same_bits : ℕ → Bytes → Bytes → Bool
same_bits bits [] b = true
same_bits bits (x ∷ a) [] = true
same_bits bits (x ∷ a) (y ∷ b) =
    let rest = same_bits (bits - 8) a b in
    if leb bits 8 then x / 2 ^ (8 - bits) == y / 2 ^ (8 - bits) else (x == y) && rest

-- `Prefix.Contains`: the families must be the same.
unfoldable pub prefix_contains : Prefix → Addr → Bool
unfolding same_bits
prefix_contains p a =
    ((is_4 p.addr && is_4 a) || (is_6 p.addr && is_6 a))
    && same_bits p.bits (octets p.addr) (octets a)
