-- ===== src/Packet/Rewrite/Padding.antt =====
-- internal/packet/packet.go: `Pad16` and `TrimToIPLength` together.
use split_wire.Prelude.{
  Bytes, [], ap, arith, be16, byte_at, get_or-take, get_or-write_inside, get_or_ext, length,
  length-replicate, length-take, length-write, refl, replicate, shr, take, write, ◌%◌, ◌+◌, ◌-◌,
  ◌<◌, ◌∷◌, ◌≡◌, ◌≤◌, ◌⊎◌,
}
use split_wire.Packet.Rewrite.{pad16, trim_to_ip_length, trim_to}

take-length : (b : Bytes) → take (length b) b ≡ b
take-length [] = refl
take-length (c ∷ b) = ap (λ (t : Bytes). c ∷ t) (take-length b)

take-write : (xs b : Bytes) → length b ≤ length xs → take (length b) (write xs 0 b) ≡ b
take-write xs b h =
    get_or_ext 0 _ _ (omega (arith, length-take (length b) (write xs 0 b), length-write xs 0 b))
      λ m p. ground (
        arith,
        length-take (length b) (write xs 0 b),
        length-write xs 0 b,
        get_or-take (length b) (write xs 0 b) m 0,
        get_or-write_inside xs 0 b m 0,
      )

-- A buffer that holds one IP packet and nothing behind it, by the packet's own length field.
abbrev pub IsExact : Bytes → Type 0
IsExact b =
    ((shr (byte_at b 0) 4 ≡ 4) × (20 ≤ length b) × (be16 b 2 ≡ length b))
    ⊎ ((shr (byte_at b 0) 4 ≡ 6) × (40 + be16 b 4 ≡ length b))

-- `Pad16` on a buffer that holds exactly one IP packet gives a multiple of 16 bytes, at most 15
-- more than it had, and `TrimToIPLength` gives the packet back.
pub trim_to_ip_length-pad16 :
    (b : Bytes)
    → IsExact b
    → (length (pad16 b) % 16 ≡ 0)
      × (length (pad16 b) < length b + 16)
      × (trim_to_ip_length (pad16 b) ≡ b)
unfolding pad16 trim_to_ip_length trim_to
trim_to_ip_length-pad16 b h =
    let n = (16 - length b % 16) % 16 in
    let blank = replicate (length b + n) 0 in
    let room : length blank ≡ length b + n = length-replicate (length b + n) 0 in
    let back : take (length b) (write blank 0 b) ≡ b = take-write blank b (omega arith) in
    let whole : take (length b) b ≡ b = take-length b in
    ground (
      arith,
      length-write blank 0 b,
      get_or-write_inside blank 0 b 0 0,
      get_or-write_inside blank 0 b 2 0,
      get_or-write_inside blank 0 b 3 0,
      get_or-write_inside blank 0 b 4 0,
      get_or-write_inside blank 0 b 5 0,
    )
