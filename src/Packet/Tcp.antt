-- ===== src/Packet/Tcp.antt =====
-- internal/packet/packet.go: `ClampTCPMSS`, `ParseTCPInfo`, `BuildTCPResetReply` and `IsTCPSYN`.
pub mod Reads
use split_wire.Prelude.{
  Bool, Bytes, Outcome, at, bytes16, bytes32, copy_at, err, fail_if, false, if◌then◌else◌, leb,
  length, ltb, not, ok, out_of_fuel, panic, replicate, set, set_bit, shr, slice, suc, test_bit,
  true, u16_at, u32, u32_at, write, zero, ℕ, ◌&&◌, ◌*◌, ◌+◌, ◌==◌, ◌>>=◌, ◌>>◌, ◌||◌,
}
use split_wire.Ip.{octets}
use split_wire.Packet.Parse.{
  Packet, Error, parse, proto_tcp, not_tcp, bad_tcp_header, bad_tcp_option, bad_version,
  short_tcp_option,
}

-- `b[p.L4+12]>>4` words of TCP header.
abbrev pub header_length : ℕ → ℕ
header_length x = shr x 4 * 4

-- The loop of `ClampTCPMSS` over the options in `b[off:stop]`. Each round moves `off` forwards.
unfoldable pub clamp_options : ℕ → Bytes → ℕ → ℕ → ℕ → Outcome Error (Bool × Bytes)
clamp_options zero b max_mss off stop = out_of_fuel
clamp_options (suc fuel) b max_mss off stop = elim (ltb off stop) [
  | false ↦ ok (false, b)
  | true ↦ do
    kind ← at b off
    elim (kind == 0) [
      | true ↦ ok (false, b)
      | false ↦ elim (kind == 1) [
        | true ↦ clamp_options fuel b max_mss (off + 1) stop
        | false ↦ do
          fail_if (ltb stop (off + 2)) short_tcp_option
          ln ← at b (off + 1)
          fail_if (ltb ln 2 || ltb stop (off + ln)) bad_tcp_option
          elim ((kind == 2) && (ln == 4)) [
            | true ↦ do
              cur ← u16_at b (off + 2)
              if ltb max_mss cur
                  then (do b' ← copy_at b (off + 2) (bytes16 max_mss); ok (true, b'))
                  else ok (false, b)
            | false ↦ clamp_options fuel b max_mss (off + ln) stop
          ]
      ]
    ]
]

-- Whether the packet was changed, and the buffer afterwards.
unfoldable pub clamp_tcp_mss : Bytes → ℕ → Outcome Error (Bool × Bytes)
clamp_tcp_mss b max_mss = do
  p ← parse b
  elim (not (p.protocol == proto_tcp) || ltb p.total (p.l4 + 20)) [
    | true ↦ ok (false, b)
    | false ↦ do
      flags ← at b (p.l4 + 13)
      elim (test_bit flags 1) [
        | false ↦ ok (false, b)
        | true ↦ do
          words ← at b (p.l4 + 12)
          let hlen = header_length words
          fail_if (ltb hlen 20 || ltb p.total (p.l4 + hlen)) bad_tcp_header
          clamp_options (suc hlen) b max_mss (p.l4 + 20) (p.l4 + hlen)
      ]
  ]

pub record TcpInfo : Type 0 where
  pub header_len : ℕ
  pub seq : ℕ
  pub ack : ℕ
  pub flags : ℕ
  pub payload : Bytes

unfoldable pub parse_tcp_info : Bytes → Outcome Error (Packet × TcpInfo)
parse_tcp_info b = do
  p ← parse b
  fail_if (not (p.protocol == proto_tcp) || ltb p.total (p.l4 + 20)) not_tcp
  words ← at b (p.l4 + 12)
  let hlen = header_length words
  fail_if (ltb hlen 20 || ltb p.total (p.l4 + hlen)) bad_tcp_header
  seq ← u32_at b (p.l4 + 4)
  ack ← u32_at b (p.l4 + 8)
  flags ← at b (p.l4 + 13)
  payload ← slice b (p.l4 + hlen) p.total
  ok (p, record { header_len = hlen; seq = seq; ack = ack; flags = flags; payload = payload })

-- `segLen`: the sequence numbers that the segment takes up.
unfoldable pub seg_len : TcpInfo → ℕ
seg_len ti =
    let n = u32 (length ti.payload) in
    let n' = if test_bit ti.flags 1 then u32 (n + 1) else n in
    if test_bit ti.flags 0 then u32 (n' + 1) else n'

-- `seq`, `ack` and `flags` of the reset.
unfoldable pub reset_numbers : TcpInfo → ℕ × ℕ × ℕ
unfolding seg_len
reset_numbers ti =
    if test_bit ti.flags 4
    then (ti.ack, 0, 0x04)
    else (0, u32 (ti.seq + seg_len ti), set_bit 0x04 4)

-- The TCP header of the reset, written at `l4`.
unfoldable pub write_reset : Bytes → ℕ → Packet → ℕ × ℕ × ℕ → Bytes
write_reset b l4 p (seq, ack, flags) =
    let b1 = write (write b l4 (bytes16 p.dst_port)) (l4 + 2) (bytes16 p.src_port) in
    let b2 = write (write b1 (l4 + 4) (bytes32 seq)) (l4 + 8) (bytes32 ack) in
    set (set b2 (l4 + 12) 80) (l4 + 13) flags

unfoldable pub reset4 : Packet → ℕ × ℕ × ℕ → Bytes
unfolding write_reset
reset4 p nums =
    let b1 = write (set (replicate 40 0) 0 0x45) 2 (bytes16 40) in
    let b2 = set (set b1 8 64) 9 proto_tcp in
    let b3 = write (write b2 12 (octets p.dst)) 16 (octets p.src) in
    write (write_reset b3 20 p nums) 34 (bytes16 0)

unfoldable pub reset6 : Packet → ℕ × ℕ × ℕ → Bytes
unfolding write_reset
reset6 p nums =
    let b1 = write (set (replicate 60 0) 0 0x60) 4 (bytes16 20) in
    let b2 = set (set b1 6 proto_tcp) 7 64 in
    let b3 = write (write b2 8 (octets p.dst)) 24 (octets p.src) in write_reset b3 40 p nums

unfoldable pub build_tcp_reset_reply : Bytes → Outcome Error Bytes
build_tcp_reset_reply outbound = do
  (p, ti) ← parse_tcp_info outbound
  if p.version == 4
      then ok (reset4 p (reset_numbers ti))
      else if p.version == 6
      then ok (reset6 p (reset_numbers ti))
      else err bad_version

-- The result of `Parse` in `err == nil && …`.
unfoldable pub is_tcp_syn : Bytes → Outcome Error Bool
is_tcp_syn b = elim (parse b) [
  | ok p ↦
      if (p.protocol == proto_tcp) && leb (p.l4 + 14) p.total
      then (do flags ← at b (p.l4 + 13); ok (test_bit flags 1))
      else ok false
  | err e ↦ ok false
  | panic ↦ panic
  | out_of_fuel ↦ out_of_fuel
]
