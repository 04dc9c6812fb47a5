-- ===== src/Mapper/RoundTrip.antt =====
-- internal/nat/nat.go: `PrepareOutbound` and then `RestoreInbound` on a reply.
use split_wire.Packet.Rewrite.Addresses.{
  rewrite_src_lem, parse-rewrite_dst, parse-rewrite_src, rewrite_dst_lem,
}
use split_wire.Packet.Rewrite.Ports.{
  rewrite_dst_port_lem, rewrite_src_port_lem, parse-rewrite_dst_port, parse-rewrite_src_port,
}
use split_wire.Prelude.{
  Bool, Bytes, IsBytes, Option-cases, Outcome, ap, ap₂, arith, bytes16, err, false, if◌then◌else◌,
  inl, inr, ok, out_of_fuel, panic, refl, some, subst, sym, true, write, ℕ, ℕ_discrete, ◌+◌, ◌<◌,
  ◌==◌, ◌∙◌, ◌≡◌, ◌≤◌,
}
use split_wire.Ip.{octets, Addr, IsAddr, is_4, is_6}
use split_wire.Packet.Parse.{Packet, parse, is_tcp_udp, Error}
use split_wire.Packet.Rewrite.{rewrite_src, rewrite_dst}
use split_wire.Mapper.{
  Mapper, Mapping, Meta, readdress_dst, readdress_src, assign, outbound_key, prepare_outbound,
  tunnel_for, Failure, restore_inbound, find_reply, incoming_key, reply_key,
}
use split_wire.Packet.Parse.Families.{IsFamily, parse_small_ports, parse-IsFamily}
use split_wire.Mapper.Assign.{IsMapped, assign-IsMapped}
use split_wire.Mapper.Invariant.{Inv}

-- The tunnel's addresses are of the families that they are for, or absent.
abbrev pub IsOwn : Mapper → Type 0
IsOwn m = (IsAddr m.own4 × (is_6 m.own4 ≡ false)) × (IsAddr m.own6 × (is_4 m.own6 ≡ false))

-- The ports of the packet are in the buffer.
abbrev pub HasPorts : Packet → Type 0
HasPorts p = (is_tcp_udp p.protocol ≡ true) × (p.l4 + 4 ≤ p.total)

-- The packet `q` answers the packet `p`.
abbrev pub Answers : Packet → Packet → Type 0
Answers q p =
    (q.protocol ≡ p.protocol)
    × (q.src ≡ p.dst)
    × (q.dst ≡ p.src)
    × (q.src_port ≡ p.dst_port)
    × (q.dst_port ≡ p.src_port)

abbrev readdressed : Packet → Addr → ℕ → Packet
readdressed p a port = record p { src = a; src_port = port }

-- Where the addresses stand in a packet.
abbrev pub src_at : Packet → ℕ
src_at p = if p.version == 4 then 12 else 8

abbrev pub dst_at : Packet → ℕ
dst_at p = if p.version == 4 then 16 else 24

-- The buffer with an address written at `i` and, unless it is the old one, a port at `j`.
abbrev pub replaced : Bytes → ℕ → Addr → ℕ → ℕ → ℕ → Bytes
replaced b i a j old_port port =
    if port == old_port then write b i (octets a) else write (write b i (octets a)) j (bytes16 port)

readdress_src_lem :
    (raw : Bytes) (p : Packet) (a : Addr) (port : ℕ) (meta : Meta)
    → parse raw ≡ ok p
    → HasPorts p
    → IsAddr a
    → port < 65536
    → (readdress_src raw p a port meta).1 ≡ ok meta
    → (parse (readdress_src raw p a port meta).0 ≡ ok (readdressed p a port))
      × ((readdress_src raw p a port meta).0 ≡ replaced raw (src_at p) a p.l4 p.src_port port)
unfolding readdress_src
readdress_src_lem raw p a port meta e h ad small r = go (rewrite_src raw a) refl
  where
    moved : (raw1 : Bytes) → rewrite_src raw a ≡ ok raw1 → parse raw1 ≡ ok (record p { src = a })
    moved raw1 f = (parse-rewrite_src raw raw1 a p ad e f).0

    written : (raw1 : Bytes) → rewrite_src raw a ≡ ok raw1 → raw1 ≡ write raw (src_at p) (octets a)
    written raw1 f = ground (arith, rewrite_src_lem raw a p ad e)

    go :
        (o : Outcome Error Bytes)
        → rewrite_src raw a ≡ o
        → (parse (readdress_src raw p a port meta).0 ≡ ok (readdressed p a port))
          × ((readdress_src raw p a port meta).0 ≡ replaced raw (src_at p) a p.l4 p.src_port port)
    go (ok raw1) f = elim (ℕ_discrete port p.src_port) [
      | yes same ↦ (ground (arith, moved raw1 f), ground (arith, written raw1 f))
      | no ne ↦
          let p1 = record p { src = a } in
          let (raw2, g, q, _) = parse-rewrite_src_port raw1 p1 port (moved raw1 f) h.0 h.1 small in
          let wrote = rewrite_src_port_lem raw1 p1 port (moved raw1 f) h.0 h.1 in
          (
            ground (arith, q),
            ground arith
                ∙ ap (λ (b : Bytes). write b p.l4 (bytes16 port)) (written raw1 f)
                ∙ ground arith,
          )
    ]
    go (err x) f = ground arith
    go panic f = ground arith
    go out_of_fuel f = ground arith

readdress_dst_lem :
    (raw : Bytes) (q : Packet) (mp : Mapping)
    → parse raw ≡ ok q
    → HasPorts q
    → IsFamily q.version mp.original_local
    → mp.original_port < 65536
    → (raw' : Bytes) × (readdress_dst raw q mp ≡ (raw', ok (mp.meta, true)))
      × (parse raw' ≡ ok (record q { dst = mp.original_local; dst_port = mp.original_port }))
      × (raw' ≡ replaced raw (dst_at q) mp.original_local (q.l4 + 2) q.dst_port mp.original_port)
unfolding readdress_dst
readdress_dst_lem raw q mp e h fam small = go (rewrite_dst raw mp.original_local) refl
  where
    written :
        (raw1 : Bytes)
        → rewrite_dst raw mp.original_local ≡ ok raw1
        → raw1 ≡ write raw (dst_at q) (octets mp.original_local)
    written raw1 f = ground (arith, rewrite_dst_lem raw mp.original_local q fam.0 e)

    go :
        (o : Outcome Error Bytes)
        → rewrite_dst raw mp.original_local ≡ o
        → (raw' : Bytes) × (readdress_dst raw q mp ≡ (raw', ok (mp.meta, true)))
          × (parse raw' ≡ ok (record q { dst = mp.original_local; dst_port = mp.original_port }))
          × (raw'
              ≡ replaced raw (dst_at q) mp.original_local (q.l4 + 2) q.dst_port mp.original_port)
    go (ok raw1) f =
        let moved = (parse-rewrite_dst raw raw1 mp.original_local q fam.0 e f).0 in
        elim (ℕ_discrete q.dst_port mp.original_port) [
          | yes same ↦ (raw1, ground arith, ground (arith, moved), ground (arith, written raw1 f))
          | no ne ↦
              let q1 = record q { dst = mp.original_local } in
              let (raw2, g, r, _) =
                parse-rewrite_dst_port raw1 q1 mp.original_port moved h.0 h.1 small in
              let wrote = rewrite_dst_port_lem raw1 q1 mp.original_port moved h.0 h.1 in
              let shown : raw2 ≡ write raw1 (q.l4 + 2) (bytes16 mp.original_port) = ground arith in
              (
                raw2,
                ground arith,
                r,
                shown
                    ∙ ap (λ (b : Bytes). write b (q.l4 + 2) (bytes16 mp.original_port))
                        (written raw1 f)
                    ∙ ground arith,
              )
        ]
    go (err x) f = absurd (ground (arith, rewrite_dst_lem raw mp.original_local q fam.0 e))
    go panic f = absurd (ground (arith, rewrite_dst_lem raw mp.original_local q fam.0 e))
    go out_of_fuel f = absurd (ground (arith, rewrite_dst_lem raw mp.original_local q fam.0 e))

-- The steps of a successful `PrepareOutbound`.
prepare_outbound_steps :
    (m m' : Mapper) (raw raw' : Bytes) (meta : Meta) (now : ℕ) (p : Packet)
    → parse raw ≡ ok p
    → prepare_outbound m raw meta now ≡ (m', raw', ok meta)
    → let a = assign m (outbound_key p) meta now in
      (port : ℕ) × (a.1 ≡ some port)
      × (a.0 ≡ m')
      × (readdress_src raw p (tunnel_for m p.src) port meta ≡ (raw', ok meta))
unfolding prepare_outbound
prepare_outbound_steps m m' raw raw' meta now p e r =
    let a = assign m (outbound_key p) meta now in
    elim (Option-cases a.1) [
      | inl f ↦ absurd (ground arith)
      | inr (port, f) ↦ (port, f, ground arith, ground arith)
    ]

restore_inbound_steps :
    (m : Mapper) (reply : Bytes) (later : ℕ) (q : Packet) (i : ℕ)
    → parse reply ≡ ok q
    → is_tcp_udp q.protocol ≡ true
    → find_reply (incoming_key q) m.by_reply ≡ some i
    → let r = readdress_dst reply q (record (m.objects i) { seen = later }) in
      ((restore_inbound m reply later).1 ≡ r.0) × ((restore_inbound m reply later).2 ≡ r.1)
unfolding restore_inbound
restore_inbound_steps m reply later q i e t f = ground arith

module _ (m m' : Mapper) (raw raw' : Bytes) (meta : Meta) (now : ℕ) (p : Packet) (v : Inv m)
    (own : IsOwn m) (bytes : IsBytes raw) (parses : parse raw ≡ ok p) (has_ports : HasPorts p)
    (prepared : prepare_outbound m raw meta now ≡ (m', raw', ok meta)) where
  own-IsAddr : IsAddr (tunnel_for m p.src)
  own-IsAddr = ground arith

  -- The port that the flow was given, and the packet that is sent.
  sent_packet :
      (port : ℕ) × IsMapped m (outbound_key p) meta m' port
      × (parse raw' ≡ ok (readdressed p (tunnel_for m p.src) port))
      × (raw' ≡ replaced raw (src_at p) (tunnel_for m p.src) p.l4 p.src_port port)
  sent_packet =
      let small = (parse_small_ports raw p bytes parses).0 in
      let (port, f, g, r) = prepare_outbound_steps m m' raw raw' meta now p parses prepared in
      let mapped = assign-IsMapped m (outbound_key p) meta now small port v f in
      let (i, a, b, c, d, fits) = mapped in
      let sent =
        readdress_src_lem raw p (tunnel_for m p.src) port meta parses has_ports own-IsAddr fits
          (ap (λ (x : Bytes × Outcome Failure Meta). x.1) r) in
      (
        port,
        subst (λ n. IsMapped m (outbound_key p) meta n port) g mapped,
        ap (λ (x : Bytes × Outcome Failure Meta). parse x.0) (sym r) ∙ sent.0,
        ap (λ (x : Bytes × Outcome Failure Meta). x.0) (sym r) ∙ sent.1,
      )

  -- In a mapper whose maps agree and whose addresses are of their families, let `PrepareOutbound`
  -- succeed on a TCP or UDP packet with its ports in the buffer. Then the packet sent has the
  -- tunnel's address for its source and keeps its destination and its destination port. A TCP or UDP
  -- packet that answers it, the next that the mapper sees at whatever time, is restored to the
  -- address and the port that the packet came from, and to its interface. Either packet is the one
  -- that came in, byte for byte, but for the address and, where it changes, the port.
  pub restore-prepare :
      (sent : Packet) (reply : Bytes) (q : Packet) (later : ℕ)
      → parse raw' ≡ ok sent
      → parse reply ≡ ok q
      → HasPorts q
      → Answers q sent
      → (sent.src ≡ tunnel_for m p.src)
        × (sent.dst ≡ p.dst)
        × (sent.dst_port ≡ p.dst_port)
        × (raw3 : Bytes) × ((restore_inbound m' reply later).1 ≡ raw3)
        × ((restore_inbound m' reply later).2 ≡ ok (meta, true))
        × (parse raw3 ≡ ok (record q { dst = p.src; dst_port = p.src_port }))
        × (raw' ≡ replaced raw (src_at p) (tunnel_for m p.src) p.l4 p.src_port sent.src_port)
        × (raw3 ≡ replaced reply (dst_at q) p.src (q.l4 + 2) q.dst_port p.src_port)
  restore-prepare sent reply q later e f h a =
      let (port, (i, found, local, local_port, metas, fits), s, image) = sent_packet in
      let same : sent ≡ readdressed p (tunnel_for m p.src) port = ground arith in
      let key : incoming_key q ≡ reply_key m (outbound_key p) port = ground arith in
      let mp : Mapping = record (m'.objects i) { seen = later } in
      let fam : IsFamily q.version mp.original_local =
        ground (arith, local, parse-IsFamily raw p parses, parse-IsFamily reply q f) in
      let steps =
        restore_inbound_steps m' reply later q i f h.0
          (ap (λ r. find_reply r m'.by_reply) key ∙ found) in
      let (raw3, g, r, image3) =
        readdress_dst_lem reply q mp f h fam
          (omega (arith, local_port, parse_small_ports raw p bytes parses)) in
      (
        ground (arith, same),
        ground (arith, same),
        ground (arith, same),
        raw3,
        steps.0 ∙ ap (λ (x : Bytes × Outcome Failure (Meta × Bool)). x.0) g,
        steps.1 ∙ ap (λ (x : Bytes × Outcome Failure (Meta × Bool)). x.1) g ∙ ground arith,
        r ∙ ground (arith, local, local_port),
        image
            ∙ ap (λ n. replaced raw (src_at p) (tunnel_for m p.src) p.l4 p.src_port n)
                (sym (ap (λ (x : Packet). x.src_port) same)),
        image3
            ∙ ap₂ (λ (a : Addr) (n : ℕ). replaced reply (dst_at q) a (q.l4 + 2) q.dst_port n) local
                local_port,
      )
