-- ===== src/Packet/Split.antt =====
-- internal/packet/packet.go: `SplitForMTU`.
pub mod Segments
use split_wire.Prelude.{
  Bool, Bytes, List, Outcome, [], at, bytes16, bytes32, clear_bit, copy_at, fail_if, false,
  if◌then◌else◌, leb, length, ltb, min, not, ok, out_of_fuel, put, slice, suc, test_bit, true, u32,
  u32_at, zero, ℕ, ◌++◌, ◌+◌, ◌-◌, ◌==◌, ◌>>=◌, ◌>>◌, ◌||◌, ◌∷◌,
}
use split_wire.Packet.Parse.{
  Packet, Error, parse, proto_tcp, bad_mtu, bad_tcp_header, header, mtu_too_small, no_payload,
  oversize_not_tcp, oversize_syn, segment_too_large, short_lso,
}
use split_wire.Packet.Tcp.{header_length}

-- One round of the loop: the segment of `payload[off:end]`, behind the first `head` bytes of `b`.
unfoldable pub segment : Bytes → Packet → ℕ → Bytes → ℕ → ℕ → ℕ → ℕ → Outcome Error Bytes
segment b p head payload base_seq orig_flags off stop = do
  header ← slice b 0 head
  body ← slice payload off stop
  seg1 ← copy_at (header ++ body) (p.l4 + 4) (bytes32 (u32 (base_seq + u32 off)))
  let flags =
      if stop == length payload
      then orig_flags
      else clear_bit (clear_bit (clear_bit orig_flags 0) 3) 7
  seg2 ← put seg1 (p.l4 + 13) flags
  seg3 ← put seg2 (p.l4 + 16) 0
  seg4 ← put seg3 (p.l4 + 17) 0
  if p.version == 4
      then (do
        fail_if (ltb 65535 (length seg4)) segment_too_large
        seg5 ← copy_at seg4 2 (bytes16 (length seg4))
        seg6 ← put seg5 10 0
        put seg6 11 0)
      else (do
        fail_if (ltb 65535 (length seg4 - 40)) segment_too_large
        copy_at seg4 4 (bytes16 (length seg4 - 40)))

-- The loop: each round moves `off` forwards by `max_payload`, which is positive.
unfoldable pub segments :
    ℕ → Bytes → Packet → ℕ → Bytes → ℕ → ℕ → ℕ → ℕ → Outcome Error (List Bytes)
segments zero b p head payload base_seq orig_flags max_payload off = out_of_fuel
segments (suc fuel) b p head payload base_seq orig_flags max_payload off =
    elim (ltb off (length payload)) [
      | false ↦ ok []
      | true ↦ do
        let stop = min (off + max_payload) (length payload)
        seg ← segment b p head payload base_seq orig_flags off stop
        rest ← segments fuel b p head payload base_seq orig_flags max_payload (off + max_payload)
        ok (seg ∷ rest)
    ]

-- The packets, and whether `b` was split.
unfoldable pub split_for_mtu : Bytes → ℕ → Outcome Error (List Bytes × Bool)
split_for_mtu b mtu = do
  fail_if (ltb mtu 576) bad_mtu
  elim (leb (length b) mtu) [
    | true ↦ ok (b ∷ [], false)
    | false ↦ do
      p ← parse b
      fail_if (not (p.protocol == proto_tcp)) oversize_not_tcp
      fail_if (ltb (length b) (p.l4 + 20)) short_lso
      words ← at b (p.l4 + 12)
      let head = p.l4 + header_length words
      fail_if (ltb (header_length words) 20 || ltb (length b) head) bad_tcp_header
      fail_if (leb mtu head) mtu_too_small
      payload ← slice b head (length b)
      fail_if (length payload == 0) no_payload
      base_seq ← u32_at b (p.l4 + 4)
      orig_flags ← at b (p.l4 + 13)
      fail_if (test_bit orig_flags 1) oversize_syn
      segs ← segments (suc (length payload)) b p head payload base_seq orig_flags (mtu - head) 0
      ok (segs, true)
  ]
