-- ===== src/Packet/Fragment6.antt =====
-- internal/packet/packet.go: `ipv6FragmentPoint`, `IsFragment`, `ipv6FragmentInsertPoint`,
-- `fragmentIPv6` and `FragmentForMTU`. The counter `fragmentID` is passed as in `Fragment`.
use split_wire.Prelude.{
  Bool, Bytes, List, Option, Outcome, [], at, bytes16, bytes32, copy_at, err, fail_if, false,
  if◌then◌else◌, leb, length, low_bits, ltb, none, not, ok, out_of_fuel, put, replicate, set_bit,
  shr, slice, some, suc, true, u16, u16_at, zero, ℕ, ◌*◌, ◌++◌, ◌+◌, ◌-◌, ◌/◌, ◌==◌, ◌>>=◌, ◌>>◌,
  ◌||◌, ◌∷◌,
}
use split_wire.Packet.Parse.{
  Error, family, ipv4, ipv6, other, already_fragmented, bad_ah, bad_extension, bad_mtu,
  fragment_too_large, header, jumbogram, mtu_too_small, not_ip, not_ipv6, short_ah, short_extension,
  short_fragment, short_ipv6, short_packet, truncated_ipv6,
}
use split_wire.Packet.Fragment.{fragment_ipv4, add_id}

-- What `ipv6FragmentPoint` returns beside its error.
pub record Point : Type 0 where
  pub insert_at : ℕ
  pub prev_next : ℕ
  pub next : ℕ
  pub found : Bool

abbrev pub no_point : Point
no_point = record { insert_at = 0; prev_next = 0; next = 0; found = false }

-- The headers of the walk: those measured in eight bytes, AH, Fragment, and the rest.
pub data Extension : Type 0 where
  eights fours fragment_ext last : Extension

abbrev pub extension : ℕ → Extension
extension n =
    if (n == 0) || (n == 43) || (n == 60)
    then eights
    else if n == 51
    then fours
    else if n == 44
    then fragment_ext
    else last

unfoldable pub point_walk : ℕ → Bytes → ℕ → ℕ → ℕ → ℕ → Outcome Error (Point × Option Error)
point_walk zero b total next prev off = out_of_fuel
point_walk (suc fuel) b total next prev off =
    let here : Point = record { insert_at = off; prev_next = prev; next = next; found = true } in
    elim (extension next) [
      | eights ↦ elim (ltb total (off + 2)) [
        | true ↦ ok (no_point, some short_extension)
        | false ↦ do
          len ← at b (off + 1)
          let n = (len + 1) * 8
          elim (ltb n 8 || ltb total (off + n)) [
            | true ↦ ok (no_point, some bad_extension)
            | false ↦ do next' ← at b off; point_walk fuel b total next' off (off + n)
          ]
      ]
      | fours ↦ elim (ltb total (off + 2)) [
        | true ↦ ok (no_point, some short_ah)
        | false ↦ do
          len ← at b (off + 1)
          let n = (len + 2) * 4
          elim (ltb n 8 || ltb total (off + n)) [
            | true ↦ ok (no_point, some bad_ah)
            | false ↦ do next' ← at b off; point_walk fuel b total next' off (off + n)
          ]
      ]
      | fragment_ext ↦
          if ltb total (off + 8) then ok (here, some short_fragment) else ok (here, none)
      | last ↦ ok (record { insert_at = off; prev_next = prev; next = next; found = false }, none)
    ]

unfoldable pub ipv6_fragment_point : Bytes → Outcome Error (Point × Option Error)
ipv6_fragment_point b = elim (ltb (length b) 40) [
  | true ↦ ok (no_point, some not_ipv6)
  | false ↦ do
    first ← at b 0
    elim (shr first 4 == 6) [
      | false ↦ ok (no_point, some not_ipv6)
      | true ↦ do
        plen ← u16_at b 4
        let total = if ltb (40 + plen) 40 || ltb (length b) (40 + plen) then length b else 40 + plen
        next ← at b 6
        point_walk (suc (length b)) b total next 6 40
    ]
]

unfoldable pub is_fragment : Bytes → Outcome Error Bool
is_fragment b = elim (ltb (length b) 1) [
  | true ↦ ok false
  | false ↦ do
    first ← at b 0
    elim (family first) [
      | ipv4 ↦
          if ltb (length b) 8
          then ok false
          else (do frag ← u16_at b 6; ok (not (low_bits frag 14 == 0)))
      | ipv6 ↦ do r ← ipv6_fragment_point b; ok (r.0).found
      | other ↦ ok false
    ]
]

-- The headers that `ipv6FragmentInsertPoint` tells apart.
pub data Placement : Type 0 where
  unfragmentable destination present fragmentable : Placement

abbrev pub placement : ℕ → Placement
placement n =
    if (n == 0) || (n == 43)
    then unfragmentable
    else if n == 60
    then destination
    else if n == 44
    then present
    else fragmentable

-- `insert`, `prevNext` and `next`.
unfoldable pub insert_walk : ℕ → Bytes → ℕ → ℕ → ℕ → ℕ → Outcome Error (ℕ × ℕ × ℕ)
insert_walk zero b total next prev off = out_of_fuel
insert_walk (suc fuel) b total next prev off = elim (placement next) [
  | unfragmentable ↦ do
    fail_if (ltb total (off + 2)) short_extension
    len ← at b (off + 1)
    let n = (len + 1) * 8
    fail_if (ltb n 8 || ltb total (off + n)) bad_extension
    next' ← at b off
    insert_walk fuel b total next' off (off + n)
  | destination ↦ do
    fail_if (ltb total (off + 2)) short_extension
    len ← at b (off + 1)
    let n = (len + 1) * 8
    fail_if (ltb n 8 || ltb total (off + n)) bad_extension
    next' ← at b off
    elim (next' == 43) [
      | false ↦ ok (off, prev, next)
      | true ↦ insert_walk fuel b total next' off (off + n)
    ]
  | present ↦ err already_fragmented
  | fragmentable ↦ ok (off, prev, next)
]

unfoldable pub ipv6_fragment_insert_point : Bytes → Outcome Error (ℕ × ℕ × ℕ)
ipv6_fragment_insert_point b = do
  fail_if (ltb (length b) 40) not_ipv6
  first ← at b 0
  fail_if (not (shr first 4 == 6)) not_ipv6
  plen ← u16_at b 4
  fail_if (ltb (40 + plen) 40 || ltb (length b) (40 + plen)) truncated_ipv6
  next ← at b 6
  insert_walk (suc (length b)) b (40 + plen) next 6 40

-- One round of the loop of `fragmentIPv6`, for `payload[off:off+n]`. The Fragment header stands at
-- `at_byte`.
unfoldable pub fragment6 : Bytes → ℕ → ℕ → ℕ → Bytes → ℕ → ℕ → ℕ → Bool → Outcome Error Bytes
fragment6 b at_byte prev next payload id off n more = do
  header ← slice b 0 at_byte
  body ← slice payload off (off + n)
  let frag0 = header ++ (replicate 8 0 ++ body)
  frag1 ← put frag0 prev 44
  frag2 ← put frag1 at_byte next
  let v = u16 (off / 8 * 8)
  frag3 ← copy_at frag2 (at_byte + 2) (bytes16 (if more then set_bit v 0 else v))
  frag4 ← copy_at frag3 (at_byte + 4) (bytes32 id)
  fail_if (ltb 65535 (length frag4 - 40)) fragment_too_large
  copy_at frag4 4 (bytes16 (length frag4 - 40))

unfoldable pub fragments6 : ℕ → Bytes → ℕ → ℕ → ℕ → Bytes → ℕ → ℕ → ℕ → Outcome Error (List Bytes)
fragments6 zero b at_byte prev next payload id max_payload off = out_of_fuel
fragments6 (suc fuel) b at_byte prev next payload id max_payload off =
    elim (ltb off (length payload)) [
      | false ↦ ok []
      | true ↦ do
        let more = ltb max_payload (length payload - off)
        let n = if more then max_payload else length payload - off
        frag ← fragment6 b at_byte prev next payload id off n more
        rest ← fragments6 fuel b at_byte prev next payload id max_payload (off + n)
        ok (frag ∷ rest)
    ]

-- The identification of the fragments of an IPv6 packet, which is also the counter afterwards.
unfoldable pub choose_id6 : ℕ → ℕ
choose_id6 counter = if add_id counter == 0 then add_id (add_id counter) else add_id counter

unfoldable pub fragment_ipv6 : Bytes → ℕ → ℕ → Outcome Error (List Bytes × Bool × ℕ)
fragment_ipv6 b mtu counter = do
  fail_if (ltb (length b) 40) short_ipv6
  plen ← u16_at b 4
  fail_if (plen == 0) jumbogram
  let total = 40 + plen
  fail_if (ltb (length b) total) truncated_ipv6
  whole ← slice b 0 total
  elim (leb total mtu) [
    | true ↦ ok (whole ∷ [], false, counter)
    | false ↦ do
      (point, failed) ← ipv6_fragment_point whole
      elim failed [
        | some e ↦ err e
        | none ↦ do
          fail_if point.found already_fragmented
          (at_byte, prev, next) ← ipv6_fragment_insert_point whole
          let max_payload = (mtu - at_byte - 8) / 8 * 8
          fail_if (ltb max_payload 8) mtu_too_small
          payload ← slice b at_byte total
          let id = choose_id6 counter
          frags ← fragments6 (suc (length payload)) b at_byte prev next payload id max_payload 0
          ok (frags, true, id)
      ]
  ]

-- The packets, whether `b` was fragmented, and the counter.
unfoldable pub fragment_for_mtu : Bytes → ℕ → ℕ → Outcome Error (List Bytes × Bool × ℕ)
fragment_for_mtu b mtu counter = do
  fail_if (ltb mtu 576) bad_mtu
  elim (leb (length b) mtu) [
    | true ↦ ok (b ∷ [], false, counter)
    | false ↦ do
      fail_if (ltb (length b) 1) short_packet
      first ← at b 0
      elim (family first) [
        | ipv4 ↦ fragment_ipv4 b mtu counter
        | ipv6 ↦ fragment_ipv6 b mtu counter
        | other ↦ err not_ip
      ]
  ]
