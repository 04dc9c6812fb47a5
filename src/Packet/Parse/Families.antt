-- ===== src/Packet/Parse/Families.antt =====
-- internal/packet/packet.go: the families of the addresses and the widths of the ports of a packet.
use split_wire.Prelude.{
  Bytes, IsBytes, arith, byte_at-lt, false, inl, inr, length-range, ok, refl, true, ℕ, ◌+◌, ◌<◌,
  ◌≡◌, ◌⊎◌,
}
use split_wire.Ip.{Addr, is_4, is_6, IsAddr}
use split_wire.Packet.Parse.{Packet, ports, parse, parse4, parse6}
use split_wire.Packet.Parse.View4.{base4, parse4_inv}
use split_wire.Packet.Parse.View6.{base6, parse6_inv}

-- Both addresses are of one family, which is that of the version.
abbrev pub IsFamily : ℕ → Addr → Type 0
IsFamily version a =
    IsAddr a
    × (((version ≡ 4) × (is_4 a ≡ true) × (is_6 a ≡ false))
        ⊎ ((version ≡ 6) × (is_4 a ≡ false) × (is_6 a ≡ true)))

ports_same :
    (b : Bytes) (q p : Packet)
    → ports b q ≡ ok p
    → (p.version ≡ q.version) × (p.src ≡ q.src) × (p.dst ≡ q.dst)
unfolding ports
ports_same b q p e = ground arith

ports_small :
    (b : Bytes) (q p : Packet)
    → IsBytes b
    → ports b q ≡ ok p
    → q.src_port ≡ 0
    → q.dst_port ≡ 0
    → (p.src_port < 65536) × (p.dst_port < 65536)
unfolding ports
ports_small b q p h e s d = ground (
  arith,
  byte_at-lt b q.l4 h,
  byte_at-lt b (q.l4 + 1) h,
  byte_at-lt b (q.l4 + 2) h,
  byte_at-lt b (q.l4 + 2 + 1) h,
)

parse-cases : (b : Bytes) (p : Packet) → parse b ≡ ok p → (parse4 b ≡ ok p) ⊎ (parse6 b ≡ ok p)
unfolding parse
parse-cases b p e = ground arith

pub parse-IsFamily :
    (b : Bytes) (p : Packet) → parse b ≡ ok p → IsFamily p.version p.src × IsFamily p.version p.dst
parse-IsFamily b p e = elim (parse-cases b p e) [
  | inl e4 ↦
      let (h, q) = parse4_inv b p e4 in
      let same = ports_same b (base4 b) p q in
      rw (same.0, same.1, same.2)
        (
          (omega (arith, length-range b 12 16, h.fixed_part), inl (refl, refl, refl)),
          (omega (arith, length-range b 16 20, h.fixed_part), inl (refl, refl, refl)),
        )
  | inr e6 ↦
      let (long, proto, off, w, q) = parse6_inv b e6 in
      let same = ports_same b (base6 b proto off) p q in
      rw (same.0, same.1, same.2)
        (
          (omega (arith, length-range b 8 24), inr (refl, refl, refl)),
          (omega (arith, length-range b 24 40), inr (refl, refl, refl)),
        )
]

pub parse_small_ports :
    (b : Bytes) (p : Packet)
    → IsBytes b
    → parse b ≡ ok p
    → (p.src_port < 65536) × (p.dst_port < 65536)
parse_small_ports b p h e = elim (parse-cases b p e) [
  | inl e4 ↦ ports_small b (base4 b) p h (parse4_inv b p e4).1 refl refl
  | inr e6 ↦
      let (long, proto, off, w, q) = parse6_inv b e6 in
      ports_small b (base6 b proto off) p h q refl refl
]
