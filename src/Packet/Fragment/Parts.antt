-- ===== src/Packet/Fragment/Parts.antt =====
-- internal/packet/packet.go: the fragments of `fragmentIPv4` as parts of the payload.
use split_wire.Prelude.{
  Bool, Bytes, IsBytes, List, Yields, [], arith, be16, byte_at, byte_at-lt, dec_lt, false,
  if◌then◌else◌, length, length-range, ltb, ok, range, suc, test_bit, true, zero, ℕ, ◌%◌, ◌*◌, ◌+◌,
  ◌-◌, ◌/◌, ◌<◌, ◌==◌, ◌^◌, ◌||◌, ◌∷◌, ◌≡◌, ◌≤◌, ◌⊎◌,
}
use split_wire.Packet.Fragment.{fragment4, fragments4, choose_id, fragment_ipv4}
use split_wire.Packet.Fragment.One.{IsPart, fragment4-IsPart}

-- The fragments are the parts of `payload[off:]`, one behind the other, each of at most `most`
-- bytes of payload and each but the last with the More Fragments flag and an offset of eights.
abbrev pub Parts : Bytes → ℕ → Bytes → ℕ → Bool → ℕ → ℕ → List Bytes → Type 0
Parts b ihl payload id reserved most off [] = off ≡ length payload
Parts b ihl payload id reserved most off (s ∷ rest) =
    let n = length s - ihl in
    let stop = off + n in
    (0 < n)
    × (n ≤ most)
    × (stop ≤ length payload)
    × (off % 8 ≡ 0)
    × IsPart b ihl payload id reserved off n (ltb stop (length payload)) s
    × Parts b ihl payload id reserved most stop rest

module _ (b : Bytes) (ihl : ℕ) (payload : Bytes) (id : ℕ) (reserved : Bool) (most : ℕ) where
  -- The bytes of the next part.
  abbrev part_size : ℕ → ℕ
  part_size off = if ltb most (length payload - off) then most else length payload - off

  fragments4_done :
      (fuel off : ℕ)
      → length payload ≤ off
      → fragments4 (suc fuel) b ihl payload id reserved most off ≡ ok []
  unfolding fragments4
  fragments4_done fuel off h = ground arith

  fragments4_more :
      (fuel off : ℕ) (s : Bytes) (rest : List Bytes)
      → off < length payload
      → fragment4 b ihl payload id reserved off
          (part_size off)
          (ltb (off + part_size off) (length payload))
        ≡ ok s
      → fragments4 fuel b ihl payload id reserved most (off + part_size off) ≡ ok rest
      → fragments4 (suc fuel) b ihl payload id reserved most off ≡ ok (s ∷ rest)
  unfolding fragments4
  fragments4_more fuel off s rest h e r = ground arith

  Parts-cons :
      (off : ℕ) (s : Bytes) (rest : List Bytes)
      → 0 < most
      → off < length payload
      → off % 8 ≡ 0
      → IsPart b ihl payload id reserved off
          (part_size off)
          (ltb (off + part_size off) (length payload))
          s
      → Parts b ihl payload id reserved most (off + part_size off) rest
      → Parts b ihl payload id reserved most off (s ∷ rest)
  Parts-cons off s rest pos h eights part c =
      let e : length s - ihl ≡ part_size off = omega (arith, part.0) in
      rw e (ground arith, ground arith, ground arith, eights, part, c)

  -- The loop succeeds, and gives the parts from where it stands.
  pub fragments4-Parts :
      (fuel off : ℕ)
      → 20 ≤ ihl
      → ihl ≤ length b
      → ihl + length payload < 65536
      → id < 65536
      → 0 < most
      → most % 8 ≡ 0
      → off ≤ length payload
      → (off % 8 ≡ 0) ⊎ (off ≡ length payload)
      → length payload < fuel + off
      → (frags : List Bytes) × (fragments4 fuel b ihl payload id reserved most off ≡ ok frags)
        × Parts b ihl payload id reserved most off frags
  fragments4-Parts zero off least fits small small_id pos eights l place enough =
      absurd (omega arith)
  fragments4-Parts (suc fuel) off least fits small small_id pos eights l place enough =
      elim (dec_lt off (length payload)) [
        | no done ↦ ([], fragments4_done fuel off (omega arith), omega arith)
        | yes more ↦
            let size : (0 < part_size off) × (off + part_size off ≤ length payload) =
              ground arith in
            let (s, e, part) =
              fragment4-IsPart b ihl payload id reserved off (part_size off)
                (ltb (off + part_size off) (length payload)) least fits (omega arith) (omega arith)
                (omega arith) small_id in
            let (rest, r, c) =
              fragments4-Parts fuel (off + part_size off) least fits small small_id pos eights
                (omega arith) (ground arith) (omega arith) in
            (
              s ∷ rest,
              fragments4_more fuel off s rest more e r,
              Parts-cons off s rest pos more (ground arith) part c,
            )
      ]

-- The bytes of the buffer that `fragmentIPv4` takes for the packet.
abbrev pub total4 : Bytes → ℕ
total4 b = if (be16 b 2 == 0) || ltb (length b) (be16 b 2) then length b else be16 b 2

abbrev pub ihl_of : Bytes → ℕ
ihl_of b = byte_at b 0 % 16 * 4

-- The result on the packet in `b`: its bytes, if they fit, or else the parts of its payload, under
-- its identification, or a new one where it has none. The counter moves for a new one only.
abbrev pub IsFragmented : Bytes → ℕ → ℕ → List Bytes × Bool × ℕ → Type 0
IsFragmented b mtu counter (frags, false, counter') =
    (total4 b ≤ mtu) × (frags ≡ range b 0 (total4 b) ∷ []) × (counter' ≡ counter)
IsFragmented b mtu counter (frags, true, counter') =
    (mtu < total4 b)
    × (20 ≤ ihl_of b)
    × (be16 b 6 % 2 ^ 14 ≡ 0)
    × (test_bit (be16 b 6) 14 ≡ false)
    × Parts b (ihl_of b) (range b (ihl_of b) (total4 b)) (choose_id (be16 b 4) counter).0
        (test_bit (be16 b 6) 15) ((mtu - ihl_of b) / 8 * 8) 0 frags
    × (counter' ≡ (choose_id (be16 b 4) counter).1)

choose_id-lt : (id counter : ℕ) → id < 65536 → (choose_id id counter).0 < 65536
unfolding choose_id
choose_id-lt id counter h = ground arith

-- For a buffer of at most 65535 bytes and a MTU of 576 or more, `fragmentIPv4` returns, never by a
-- panic, and where it gives packets they are as `IsFragmented` says: the packet's bytes, if they fit,
-- or else fragments that carry the payload without a gap, in order, with the fields of their place.
pub fragment_ipv4-IsFragmented :
    (b : Bytes) (mtu counter : ℕ)
    → IsBytes b
    → length b < 65536
    → 576 ≤ mtu
    → Yields (IsFragmented b mtu counter) (fragment_ipv4 b mtu counter)
unfolding fragment_ipv4
fragment_ipv4-IsFragmented b mtu counter bytes small room =
    let payload = range b (ihl_of b) (total4 b) in
    ground (
      arith,
      byte_at-lt b 4 bytes,
      byte_at-lt b 5 bytes,
      length-range b (ihl_of b) (total4 b),
      choose_id-lt (be16 b 4) counter,
      fragments4-Parts b (ihl_of b) payload (choose_id (be16 b 4) counter).0
          (test_bit (be16 b 6) 15) ((mtu - ihl_of b) / 8 * 8) (suc (length payload)) 0,
    )
