-- ===== src/Packet/Fragment.antt =====
-- internal/packet/packet.go: `fragmentIPv4` and `ipv4HeaderChecksum`. The counter `fragmentID` is an
-- argument, and part of a successful result; the error paths leave it as it was.
pub mod One
pub mod Parts
use split_wire.Prelude.{
  Bool, Bytes, List, Outcome, [], at, bytes16, copy_at, fail_if, false, if◌then◌else◌, leb, length,
  low_bits, ltb, not, ok, out_of_fuel, put, set_bit, shr, slice, suc, test_bit, true, u16, u16_at,
  u32, zero, ℕ, ◌*◌, ◌++◌, ◌+◌, ◌-◌, ◌/◌, ◌==◌, ◌>>=◌, ◌>>◌, ◌||◌, ◌∷◌,
}
use split_wire.Packet.Parse.{
  Error, already_fragmented, bad_ihl, dont_fragment, header, mtu_too_small, short_ipv4,
}

-- The sum over the 16-bit words of a header, the last byte of an odd one being the upper half.
unfoldable pub sum_words : ℕ → Bytes → ℕ
sum_words sum [] = sum
sum_words sum (x ∷ []) = u32 (sum + u32 (x * 256))
sum_words sum (x ∷ y ∷ h) = sum_words (u32 (sum + (x * 256 + y))) h

-- `for sum>>16 != 0`. Two rounds are enough for a 32-bit sum, so three units of fuel are.
unfoldable pub fold_sum : ℕ → ℕ → ℕ
fold_sum zero sum = sum
fold_sum (suc fuel) sum =
    let rest = fold_sum fuel (u32 (low_bits sum 16 + shr sum 16)) in
    if shr sum 16 == 0 then sum else rest

unfoldable pub ipv4_header_checksum : Bytes → ℕ
unfolding sum_words fold_sum
ipv4_header_checksum h = 65535 - u16 (fold_sum 3 (sum_words 0 h))

-- `atomic.AddUint32(&fragmentID, 1)`, as the new value.
abbrev pub add_id : ℕ → ℕ
add_id counter = u32 (counter + 1)

-- The identification of the fragments of an IPv4 packet, and the counter afterwards.
unfoldable pub choose_id : ℕ → ℕ → ℕ × ℕ
choose_id id counter =
    if not (id == 0)
    then (id, counter)
    else if not (u16 (add_id counter) == 0)
    then (u16 (add_id counter), add_id counter)
    else (u16 (add_id (add_id counter)), add_id (add_id counter))

-- One round of the loop of `fragmentIPv4`, for `payload[off:off+n]`. `reserved` is bit 15.
unfoldable pub fragment4 : Bytes → ℕ → Bytes → ℕ → Bool → ℕ → ℕ → Bool → Outcome Error Bytes
fragment4 b ihl payload id reserved off n more = do
  header ← slice b 0 ihl
  body ← slice payload off (off + n)
  let frag0 = header ++ body
  frag1 ← copy_at frag0 2 (bytes16 (length frag0))
  frag2 ← copy_at frag1 4 (bytes16 id)
  let at_off = if reserved then set_bit (u16 (off / 8)) 15 else u16 (off / 8)
  let flags_off = if more then set_bit at_off 13 else at_off
  frag3 ← copy_at frag2 6 (bytes16 flags_off)
  frag4 ← put frag3 10 0
  frag5 ← put frag4 11 0
  header' ← slice frag5 0 ihl
  copy_at frag5 10 (bytes16 (ipv4_header_checksum header'))

-- The loop: each round moves `off` forwards by the bytes of its fragment.
unfoldable pub fragments4 : ℕ → Bytes → ℕ → Bytes → ℕ → Bool → ℕ → ℕ → Outcome Error (List Bytes)
fragments4 zero b ihl payload id reserved max_payload off = out_of_fuel
fragments4 (suc fuel) b ihl payload id reserved max_payload off = elim (ltb off (length payload)) [
  | false ↦ ok []
  | true ↦ do
    let more = ltb max_payload (length payload - off)
    let n = if more then max_payload else length payload - off
    frag ← fragment4 b ihl payload id reserved off n more
    rest ← fragments4 fuel b ihl payload id reserved max_payload (off + n)
    ok (frag ∷ rest)
]

-- The packets, whether `b` was fragmented, and the counter.
unfoldable pub fragment_ipv4 : Bytes → ℕ → ℕ → Outcome Error (List Bytes × Bool × ℕ)
fragment_ipv4 b mtu counter = do
  fail_if (ltb (length b) 20) short_ipv4
  first ← at b 0
  let ihl = low_bits first 4 * 4
  fail_if (ltb ihl 20 || ltb (length b) ihl) bad_ihl
  written ← u16_at b 2
  let total = if (written == 0) || ltb (length b) written then length b else written
  elim (leb total mtu) [
    | true ↦ do whole ← slice b 0 total; ok (whole ∷ [], false, counter)
    | false ↦ do
      fv ← u16_at b 6
      fail_if (not (low_bits fv 14 == 0)) already_fragmented
      fail_if (test_bit fv 14) dont_fragment
      let max_payload = (mtu - ihl) / 8 * 8
      fail_if (ltb max_payload 8) mtu_too_small
      payload ← slice b ihl total
      written_id ← u16_at b 4
      let (id, counter') = choose_id written_id counter
      frags ← fragments4 (suc (length payload)) b ihl payload id (test_bit fv 15) max_payload 0
      ok (frags, true, counter')
  ]
