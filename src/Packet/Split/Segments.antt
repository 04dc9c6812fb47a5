-- ===== src/Packet/Split/Segments.antt =====
-- internal/packet/packet.go: what the segments of `SplitForMTU` hold.
use split_wire.Prelude.{
  Bool, Bytes, List, Yields, Yields-bind, [], ap, arith, be32, be32-write, be32-write_before,
  be32-write_ne, byte_at, bytes16, bytes32, clear_bit, dec_lt, drop, drop-append, drop-write, false,
  get_or-set_self, get_or-write_above, get_or-write_below, if◌then◌else◌, length, length-append,
  length-range, length-set, length-write, min, ok, range, set, suc, sym, true, u32, write, zero, ℕ,
  ◌++◌, ◌+◌, ◌-◌, ◌<◌, ◌==◌, ◌>>=◌, ◌∙◌, ◌∷◌, ◌≡◌, ◌≤◌, ◌⊎◌,
}
use split_wire.Packet.Split.{segment, segments, split_for_mtu}
use split_wire.Packet.Parse.{Packet, parse}
use split_wire.Packet.Parse.Bounds.{parse-IsWithin}
use split_wire.Packet.Tcp.{header_length}

-- FIN, PSH and CWR stay on the last segment only.
abbrev pub segment_flags : ℕ → Bool → ℕ
segment_flags flags last = if last then flags else clear_bit (clear_bit (clear_bit flags 0) 3) 7

module _ (p : Packet) (head : ℕ) (payload : Bytes) (base flags : ℕ) where
  -- The segments carry `payload[off:]`, each behind a header of `head` bytes, in at most `most`
  -- bytes, with the sequence number and the flags of its place.
  abbrev pub Carries : ℕ → ℕ → List Bytes → Type 0
  Carries most off [] = off ≡ length payload
  Carries most off (s ∷ rest) =
      let stop = off + (length s - head) in
      (length s ≤ most)
      × (off < stop)
      × (stop ≤ length payload)
      × (drop head s ≡ range payload off stop)
      × (be32 s (p.l4 + 4) ≡ u32 (base + off))
      × (byte_at s (p.l4 + 13) ≡ segment_flags flags (stop == length payload))
      × Carries most stop rest

-- Where the header of the segments is well placed, `segment` succeeds on a part that is not empty.
abbrev Placed : Bytes → Packet → ℕ → Type 0
Placed b p head =
    (20 ≤ p.l4) × (p.l4 + 20 ≤ head) × (head ≤ length b) × ((p.version ≡ 4) ⊎ (40 ≤ p.l4))

-- One segment.
abbrev IsSegment : Packet → ℕ → Bytes → ℕ → ℕ → ℕ → ℕ → Bytes → Type 0
IsSegment p head payload base flags off stop s =
    (length s ≡ head + (stop - off))
    × (drop head s ≡ range payload off stop)
    × (be32 s (p.l4 + 4) ≡ u32 (base + off))
    × (byte_at s (p.l4 + 13) ≡ segment_flags flags (stop == length payload))

u32-add : (a b : ℕ) → u32 (a + u32 b) ≡ u32 (a + b)
u32-add a b = omega arith

module _ (p : Packet) (head : ℕ) (payload : Bytes) (base flags off stop : ℕ) where
  IsSegment-write :
      (s : Bytes) (k : ℕ) (ys : Bytes)
      → k + length ys ≤ p.l4
      → p.l4 + 20 ≤ head
      → IsSegment p head payload base flags off stop s
      → IsSegment p head payload base flags off stop (write s k ys)
  IsSegment-write s k ys h room (l, d, n, f) = (
    length-write s k ys ∙ l,
    drop-write head s k ys (omega arith) ∙ d,
    be32-write_ne s k ys (p.l4 + 4) (omega arith) ∙ n,
    get_or-write_above s k ys (p.l4 + 13) 0 (omega arith) ∙ f,
  )

  -- The edits of the TCP header.
  abbrev edited : Bytes → Bytes
  edited s =
      let s1 = write s (p.l4 + 4) (bytes32 (u32 (base + u32 off))) in
      let s2 = set s1 (p.l4 + 13) (segment_flags flags (stop == length payload)) in
      set (set s2 (p.l4 + 16) 0) (p.l4 + 17) 0

  edited-IsSegment :
      (s : Bytes)
      → length s ≡ head + (stop - off)
      → drop head s ≡ range payload off stop
      → p.l4 + 20 ≤ head
      → IsSegment p head payload base flags off stop (edited s)
  edited-IsSegment s l d room =
      let s1 = write s (p.l4 + 4) (bytes32 (u32 (base + u32 off))) in
      let fl = segment_flags flags (stop == length payload) in
      let s2 = set s1 (p.l4 + 13) fl in
      let s3 = set s2 (p.l4 + 16) 0 in
      let l1 : length s1 ≡ length s = length-write s (p.l4 + 4) (bytes32 (u32 (base + u32 off))) in
      let l2 : length s2 ≡ length s = length-set s1 (p.l4 + 13) fl ∙ l1 in
      let l3 : length s3 ≡ length s = length-set s2 (p.l4 + 16) 0 ∙ l2 in
      (
        length-set s3 (p.l4 + 17) 0 ∙ l3 ∙ l,
        drop-write head s3 (p.l4 + 17) (0 ∷ []) (omega arith)
            ∙ drop-write head s2 (p.l4 + 16) (0 ∷ []) (omega arith)
            ∙ drop-write head s1 (p.l4 + 13) (fl ∷ []) (omega arith)
            ∙ drop-write head s (p.l4 + 4) (bytes32 (u32 (base + u32 off))) (omega arith)
            ∙ d,
        be32-write_before s3 (p.l4 + 17) (0 ∷ []) (p.l4 + 4) (omega arith)
            ∙ be32-write_before s2 (p.l4 + 16) (0 ∷ []) (p.l4 + 4) (omega arith)
            ∙ be32-write_before s1 (p.l4 + 13) (fl ∷ []) (p.l4 + 4) (omega arith)
            ∙ be32-write s (p.l4 + 4) (u32 (base + u32 off)) (omega arith) (omega arith)
            ∙ u32-add base off,
        get_or-write_below s3 (p.l4 + 17) (0 ∷ []) (p.l4 + 13) 0 (omega arith)
            ∙ get_or-write_below s2 (p.l4 + 16) (0 ∷ []) (p.l4 + 13) 0 (omega arith)
            ∙ get_or-set_self s1 (p.l4 + 13) fl 0 (omega arith),
      )

segment-IsSegment :
    (b : Bytes) (p : Packet) (head : ℕ) (payload : Bytes) (base flags off stop : ℕ)
    → Placed b p head
    → off ≤ stop
    → stop ≤ length payload
    → Yields
        (IsSegment p head payload base flags off stop)
        (segment b p head payload base flags off stop)
unfolding segment
segment-IsSegment b p head payload base flags off stop h o l =
    let hd = range b 0 head in
    let bd = range payload off stop in
    let s0 = hd ++ bd in
    let len_h : length hd ≡ head = omega (arith, length-range b 0 head) in
    let len_b : length bd ≡ stop - off = length-range payload off stop l in
    let len0 : length s0 ≡ head + (stop - off) = omega (arith, length-append hd bd, len_h, len_b) in
    let num = bytes32 (u32 (base + u32 off)) in
    let fl = segment_flags flags (stop == length payload) in
    let s1 = write s0 (p.l4 + 4) num in
    let s2 = set s1 (p.l4 + 13) fl in
    let s3 = set s2 (p.l4 + 16) 0 in
    let e = set s3 (p.l4 + 17) 0 in
    let behind : drop head s0 ≡ bd = ap (λ (n : ℕ). drop n s0) (sym len_h) ∙ drop-append hd bd in
    let good = edited-IsSegment p head payload base flags off stop s0 len0 behind (omega arith) in
    let keep = IsSegment-write p head payload base flags off stop in
    let f1 = keep e 2 (bytes16 (length e)) (omega arith) (omega arith) good in
    let t1 = write e 2 (bytes16 (length e)) in
    let f2 = keep t1 10 (0 ∷ []) (omega arith) (omega arith) f1 in
    let f3 = keep (set t1 10 0) 11 (0 ∷ []) (omega arith) (omega arith) f2 in
    let g = keep e 4 (bytes16 (length e - 40)) (omega arith) (omega arith) good in
    ground (
      arith,
      length-write s0 (p.l4 + 4) num,
      length-set s1 (p.l4 + 13) fl,
      length-set s2 (p.l4 + 16) 0,
      length-set s3 (p.l4 + 17) 0,
      f3,
      g,
    )

-- A segment before those of the rest of the payload.
Carries-cons :
    (p : Packet) (head : ℕ) (payload : Bytes) (base flags room off : ℕ) (s : Bytes)
    (rest : List Bytes)
    → 0 < room
    → off < length payload
    → IsSegment p head payload base flags off (min (off + room) (length payload)) s
    → Carries p head payload base flags (head + room) (min (off + room) (length payload)) rest
    → Carries p head payload base flags (head + room) (min off (length payload)) (s ∷ rest)
Carries-cons p head payload base flags room off s rest pos more (l, d, n, f) c =
    let stop = min (off + room) (length payload) in
    let start : min off (length payload) ≡ off = omega arith in
    let e : off + (length s - head) ≡ stop = omega arith in
    rw (start, e) (omega arith, omega arith, omega arith, d, n, f, c)

segments_done :
    (fuel : ℕ) (b : Bytes) (p : Packet) (head : ℕ) (payload : Bytes) (base flags room off : ℕ)
    → length payload ≤ off
    → segments (suc fuel) b p head payload base flags room off ≡ ok []
unfolding segments
segments_done fuel b p head payload base flags room off h = ground arith

segments_more :
    (fuel : ℕ) (b : Bytes) (p : Packet) (head : ℕ) (payload : Bytes) (base flags room off : ℕ)
    → off < length payload
    → segments (suc fuel) b p head payload base flags room off ≡ (
        segment b p head payload base flags off (min (off + room) (length payload)) >>= λ s.
        segments fuel b p head payload base flags room (off + room) >>= λ rest. ok (s ∷ rest))
unfolding segments
segments_more fuel b p head payload base flags room off h = ground arith

-- The loop, from an offset that it reaches.
segments-Carries :
    (fuel : ℕ) (b : Bytes) (p : Packet) (head : ℕ) (payload : Bytes) (base flags room off : ℕ)
    → Placed b p head
    → 0 < room
    → 0 < fuel
    → length payload < fuel + off
    → Yields
        (Carries p head payload base flags (head + room) (min off (length payload)))
        (segments fuel b p head payload base flags room off)
segments-Carries zero b p head payload base flags room off h pos some_fuel enough =
    absurd (omega arith)
segments-Carries (suc fuel) b p head payload base flags room off h pos some_fuel enough =
    elim (dec_lt off (length payload)) [
      | no done ↦
          rw (segments_done fuel b p head payload base flags room off (omega arith)) (omega arith)
      | yes more ↦
          let stop = min (off + room) (length payload) in
          rw (segments_more fuel b p head payload base flags room off more) (
            Yields-bind (IsSegment p head payload base flags off stop) _
              (segment b p head payload base flags off stop) _
              (segment-IsSegment b p head payload base flags off stop h (omega arith) (omega arith))
              (λ s good.
                Yields-bind (Carries p head payload base flags (head + room) stop) _
                  (segments fuel b p head payload base flags room (off + room)) _
                  (segments-Carries fuel b p head payload base flags room (off + room) h pos
                    (omega arith) (omega arith))
                  (λ rest c.
                    Carries-cons p head payload base flags room off s rest pos more good c)))
    ]

-- Where the payload of a TCP packet begins.
abbrev pub payload_start : Bytes → Packet → ℕ
payload_start b p = p.l4 + header_length (byte_at b (p.l4 + 12))

-- What `SplitForMTU` promises for the packet `p` that `b` parses to: a buffer that fits is returned
-- as it is; of any other, the segments carry the whole payload in order.
abbrev pub IsSplit : Bytes → ℕ → Packet → List Bytes × Bool → Type 0
IsSplit b mtu p (segs, false) = (segs ≡ b ∷ []) × (length b ≤ mtu)
IsSplit b mtu p (segs, true) =
    let head = payload_start b p in
    (mtu < length b)
    × (head < mtu)
    × Carries p head (range b head (length b)) (be32 b (p.l4 + 4)) (byte_at b (p.l4 + 13)) mtu 0
        segs

-- On a buffer that parses to `p`, `SplitForMTU` returns, never by a panic, and where it gives packets
-- they are as `IsSplit` says: the buffer alone, if it fits, or else segments of at most the MTU that
-- carry the payload without a gap, in order, with the sequence number of their place, and with FIN,
-- PSH and CWR on the last only.
pub split_for_mtu-IsSplit :
    (b : Bytes) (mtu : ℕ) (p : Packet)
    → parse b ≡ ok p
    → Yields (IsSplit b mtu p) (split_for_mtu b mtu)
unfolding split_for_mtu
split_for_mtu-IsSplit b mtu p e =
    let head = payload_start b p in
    let payload = range b head (length b) in
    ground (
      arith,
      parse-IsWithin b p e,
      length-range b head (length b),
      segments-Carries (suc (length payload)) b p head payload (be32 b (p.l4 + 4))
          (byte_at b (p.l4 + 13)) (mtu - head) 0,
    )
