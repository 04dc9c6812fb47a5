-- ===== src/Packet/Parse/View6.antt =====
-- internal/packet/packet.go: `parse6` seen from outside: the bytes that each field comes from.
use split_wire.Packet.Parse.{Packet, Error, parse6, ports, skip_headers, total6}
use split_wire.Prelude.{
  >>=-inv, Bytes, Ensures, Outcome, arith, be16, byte_at, dec_le, length, ok, range, suc, sym, ℕ,
  ◌>>=◌, ◌∙◌, ◌≡◌, ◌≤◌,
}
use split_wire.Ip.{v6}
use split_wire.Packet.Parse.Bounds.{total6_bounds, skip_headers_within}

abbrev pub walk6 : Bytes → Outcome Error (ℕ × ℕ)
walk6 b = skip_headers (suc (length b)) b (total6 (length b) (be16 b 4)) (byte_at b 6) 40

-- The packet before its ports are read.
abbrev pub base6 : Bytes → ℕ → ℕ → Packet
base6 b proto off = record {
  version = 6;
  protocol = proto;
  src = v6 (range b 8 24);
  dst = v6 (range b 24 40);
  src_port = 0;
  dst_port = 0;
  l4 = off;
  total = total6 (length b) (be16 b 4);
}

pub parse6_eq :
    (b : Bytes) (proto off : ℕ)
    → 40 ≤ length b
    → walk6 b ≡ ok (proto, off)
    → parse6 b ≡ ports b (base6 b proto off)
unfolding parse6
parse6_eq b proto off h e = ground arith

parse6_bind : (b : Bytes) → 40 ≤ length b → parse6 b ≡ (walk6 b >>= λ r. ports b (base6 b r.0 r.1))
unfolding parse6
parse6_bind b h = ground arith

parse6_short : (b : Bytes) (p : Packet) → ¬ (40 ≤ length b) → ¬ (parse6 b ≡ ok p)
unfolding parse6
parse6_short b p h e = ground arith

pub parse6_inv :
    (b : Bytes) {p : Packet}
    → parse6 b ≡ ok p
    → (40 ≤ length b)
      × (proto : ℕ) × (off : ℕ) × (walk6 b ≡ ok (proto, off))
      × (ports b (base6 b proto off) ≡ ok p)
parse6_inv b {p} e = elim (dec_le 40 (length b)) [
  | no short ↦ absurd (parse6_short b p short e)
  | yes long ↦
      let ((proto, off), w, q) =
        >>=-inv (walk6 b) (λ r. ports b (base6 b r.0 r.1)) (sym (parse6_bind b long) ∙ e) in
      (long, proto, off, w, q)
]

pub walk6_within : (b : Bytes) → 40 ≤ length b → Ensures (λ r. 40 ≤ r.1) (walk6 b)
walk6_within b h = ground (
  arith,
  total6_bounds (length b) (be16 b 4),
  skip_headers_within (suc (length b)) b (total6 (length b) (be16 b 4)) (byte_at b 6) 40,
)
