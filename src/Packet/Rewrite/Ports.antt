-- ===== src/Packet/Rewrite/Ports.antt =====
-- internal/packet/packet.go: `RewriteSrcPort` and `RewriteDstPort`, and `Parse` afterwards.
use split_wire.Prelude.{
  Bytes, Ensures, Ensures-ok, ap, arith, be16, byte_at, bytes16, get_or-write_above,
  get_or-write_below, get_or-write_inside, inl, inr, length, length-write, ok, range-write_ne, suc,
  true, write, ℕ, ◌+◌, ◌<◌, ◌∙◌, ◌≡◌, ◌≤◌, ◌⊎◌,
}
use split_wire.Packet.Parse.{Packet, parse, parse4, parse6, ports, total6, is_tcp_udp}
use split_wire.Packet.Parse.View4.{base4, parse4_inv, parse4-write}
use split_wire.Packet.Parse.View6.{walk6, base6, walk6_within, parse6_eq, parse6_inv}
use split_wire.Packet.Rewrite.Walk.{skip_headers-write_behind}
use split_wire.Packet.Parse.Bounds.{parse-IsWithin, total6_bounds}
use split_wire.Packet.Rewrite.{rewrite_dst_port, rewrite_src_port}

-- The fields of the packet that `ports` keeps.
ports_keeps : (b : Bytes) (q p : Packet) → ports b q ≡ ok p → (p.l4 ≡ q.l4) × (p.total ≡ q.total)
unfolding ports
ports_keeps b q p e = ground arith

-- A write behind the IP header changes at most the ports of what is parsed.
parse4-write_behind :
    (b : Bytes) (p : Packet) (k : ℕ) (ys : Bytes)
    → parse4 b ≡ ok p
    → p.l4 ≤ k
    → (parse4 (write b k ys) ≡ ports (write b k ys) (base4 b)) × (ports b (base4 b) ≡ ok p)
parse4-write_behind b p k ys e h =
    let (head, q) = parse4_inv b p e in
    (parse4-write b k ys head (omega (arith, ports_keeps b (base4 b) p q)), q)

module _ (b : Bytes) (k : ℕ) (ys : Bytes) (long : 40 ≤ length b) (behind : 40 ≤ k) where
  walk6-write_behind : Ensures (λ r. r.1 ≤ k → walk6 (write b k ys) ≡ ok r) (walk6 b)
  walk6-write_behind =
      let t = total6 (length b) (be16 b 4) in
      ground (
        arith,
        length-write b k ys,
        get_or-write_below b k ys 4 0,
        get_or-write_below b k ys 5 0,
        get_or-write_below b k ys 6 0,
        total6_bounds (length b) (be16 b 4),
        skip_headers-write_behind (suc (length b)) b k ys t (byte_at b 6) 40,
      )

  base6-write_behind : (proto off : ℕ) → base6 (write b k ys) proto off ≡ base6 b proto off
  base6-write_behind proto off = ground (
    arith,
    length-write b k ys,
    get_or-write_below b k ys 4 0,
    get_or-write_below b k ys 5 0,
    range-write_ne b k ys 8 24,
    range-write_ne b k ys 24 40,
  )

parse6-write_behind :
    (b : Bytes) (p : Packet) (k : ℕ) (ys : Bytes)
    → parse6 b ≡ ok p
    → p.l4 ≤ k
    → (q : Packet) × (parse6 (write b k ys) ≡ ports (write b k ys) q) × (ports b q ≡ ok p)
parse6-write_behind b p k ys e h =
    let (long, proto, off, w, q) = parse6_inv b e in
    let keeps = ports_keeps b _ p q in
    let far = Ensures-ok _ (walk6 b) (walk6_within b long) w in
    let behind : 40 ≤ k = omega (arith, far, keeps) in
    let w' =
      Ensures-ok _ (walk6 b) (walk6-write_behind b k ys long behind) w (omega (arith, keeps)) in
    (
      base6 b proto off,
      parse6_eq (write b k ys) proto off (omega (arith, length-write b k ys)) w'
          ∙ ap (ports (write b k ys)) (base6-write_behind b k ys long behind proto off),
      q,
    )

-- `parse` is one of the two parsers, also after a write behind the first byte.
parse-write :
    (b : Bytes) (p : Packet) (k : ℕ) (ys : Bytes)
    → parse b ≡ ok p
    → 1 ≤ k
    → ((parse4 b ≡ ok p) × (parse (write b k ys) ≡ parse4 (write b k ys)))
      ⊎ ((parse6 b ≡ ok p) × (parse (write b k ys) ≡ parse6 (write b k ys)))
unfolding parse
parse-write b p k ys e h = ground (arith, length-write b k ys, get_or-write_below b k ys 0 0)

pub parse-write_behind :
    (b : Bytes) (p : Packet) (k : ℕ) (ys : Bytes)
    → parse b ≡ ok p
    → p.l4 ≤ k
    → (q : Packet) × (parse (write b k ys) ≡ ports (write b k ys) q) × (ports b q ≡ ok p)
parse-write_behind b p k ys e h = elim (parse-write b p k ys e first) [
  | inl (e4, same) ↦ let r = parse4-write_behind b p k ys e4 h in (base4 b, same ∙ r.0, r.1)
  | inr (e6, same) ↦ let (q, r, s) = parse6-write_behind b p k ys e6 h in (q, same ∙ r, s)
]
  where
    first : 1 ≤ k
    first = omega (arith, parse-IsWithin b p e)

ports_src_port :
    (b : Bytes) (q p : Packet) (port : ℕ)
    → p.l4 + 4 ≤ p.total
    → p.total ≤ length b
    → port < 65536
    → is_tcp_udp p.protocol ≡ true
    → ports b q ≡ ok p
    → ports (write b p.l4 (bytes16 port)) q ≡ ok (record p { src_port = port })
unfolding ports
ports_src_port b q p port room within small t e = ground (
  arith,
  length-write b p.l4 (bytes16 port),
  get_or-write_inside b p.l4 (bytes16 port) p.l4 0,
  get_or-write_inside b p.l4 (bytes16 port) (p.l4 + 1) 0,
  get_or-write_above b p.l4 (bytes16 port) (p.l4 + 2) 0,
  get_or-write_above b p.l4 (bytes16 port) (p.l4 + 2 + 1) 0,
)

ports_dst_port :
    (b : Bytes) (q p : Packet) (port : ℕ)
    → p.l4 + 4 ≤ p.total
    → p.total ≤ length b
    → port < 65536
    → is_tcp_udp p.protocol ≡ true
    → ports b q ≡ ok p
    → ports (write b (p.l4 + 2) (bytes16 port)) q ≡ ok (record p { dst_port = port })
unfolding ports
ports_dst_port b q p port room within small t e = ground (
  arith,
  length-write b (p.l4 + 2) (bytes16 port),
  get_or-write_below b (p.l4 + 2) (bytes16 port) p.l4 0,
  get_or-write_below b (p.l4 + 2) (bytes16 port) (p.l4 + 1) 0,
  get_or-write_inside b (p.l4 + 2) (bytes16 port) (p.l4 + 2) 0,
  get_or-write_inside b (p.l4 + 2) (bytes16 port) (p.l4 + 2 + 1) 0,
)

-- On a TCP or UDP packet that parses, with its ports in the buffer, `RewriteSrcPort` succeeds for
-- every 16-bit port; the result has the same length and parses to the same but for its source port,
-- which is the new one.
pub parse-rewrite_src_port :
    (b : Bytes) (p : Packet) (port : ℕ)
    → parse b ≡ ok p
    → is_tcp_udp p.protocol ≡ true
    → p.l4 + 4 ≤ p.total
    → port < 65536
    → (b' : Bytes) × (rewrite_src_port b port ≡ ok b')
      × (parse b' ≡ ok (record p { src_port = port }))
      × (length b' ≡ length b)
unfolding rewrite_src_port
parse-rewrite_src_port b p port e t room small =
    let within = parse-IsWithin b p e in
    let (q, same, r) = parse-write_behind b p p.l4 (bytes16 port) e (omega arith) in
    (
      write b p.l4 (bytes16 port),
      ground arith,
      same ∙ ports_src_port b q p port room (omega arith) small t r,
      length-write b p.l4 (bytes16 port),
    )

-- On a TCP or UDP packet that parses, with its ports in the buffer, `RewriteDstPort` succeeds for
-- every 16-bit port; the result has the same length and parses to the same but for its destination
-- port, which is the new one.
pub parse-rewrite_dst_port :
    (b : Bytes) (p : Packet) (port : ℕ)
    → parse b ≡ ok p
    → is_tcp_udp p.protocol ≡ true
    → p.l4 + 4 ≤ p.total
    → port < 65536
    → (b' : Bytes) × (rewrite_dst_port b port ≡ ok b')
      × (parse b' ≡ ok (record p { dst_port = port }))
      × (length b' ≡ length b)
unfolding rewrite_dst_port
parse-rewrite_dst_port b p port e t room small =
    let within = parse-IsWithin b p e in
    let (q, same, r) = parse-write_behind b p (p.l4 + 2) (bytes16 port) e (omega arith) in
    (
      write b (p.l4 + 2) (bytes16 port),
      ground arith,
      same ∙ ports_dst_port b q p port room (omega arith) small t r,
      length-write b (p.l4 + 2) (bytes16 port),
    )

-- What the two functions write, where they succeed.
pub rewrite_src_port_lem :
    (b : Bytes) (p : Packet) (port : ℕ)
    → parse b ≡ ok p
    → is_tcp_udp p.protocol ≡ true
    → p.l4 + 4 ≤ p.total
    → rewrite_src_port b port ≡ ok (write b p.l4 (bytes16 port))
unfolding rewrite_src_port
rewrite_src_port_lem b p port e t room = let within = parse-IsWithin b p e in ground arith

pub rewrite_dst_port_lem :
    (b : Bytes) (p : Packet) (port : ℕ)
    → parse b ≡ ok p
    → is_tcp_udp p.protocol ≡ true
    → p.l4 + 4 ≤ p.total
    → rewrite_dst_port b port ≡ ok (write b (p.l4 + 2) (bytes16 port))
unfolding rewrite_dst_port
rewrite_dst_port_lem b p port e t room = let within = parse-IsWithin b p e in ground arith
