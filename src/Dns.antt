-- ===== src/Dns.antt =====
-- internal/domain/dns.go: names and addresses from a DNS response. A Go string is its bytes. What is
-- returned beside an error is left out: the callers do not read it.
pub mod Safety
use split_wire.Prelude.{
  Bool, Bytes, List, Outcome, [], at, err, fail_if, false, if◌then◌else◌, leb, length, low_bits,
  ltb, not, ok, out_of_fuel, panic, slice, suc, test_bit, true, u16_at, u32_at, zero, ℕ, ◌&&◌, ◌*◌,
  ◌++◌, ◌+◌, ◌==◌, ◌>>=◌, ◌>>◌, ◌^◌, ◌||◌, ◌∷◌,
}
use split_wire.Ip.{Addr, v4, v6}

pub data Error : Type 0 where
  short_dns not_response short_question short_answer short_rdata : Error
  compression_loop name_overflow bad_pointer bad_label : Error

abbrev pub dot : ℕ
dot = b'.'

-- `out` with a label or a suffix behind it.
abbrev pub join_label : Bytes → Bytes → Bytes
join_label [] label = label
join_label (c ∷ out) label = (c ∷ out) ++ dot ∷ label

abbrev pub join_suffix : Bytes → Bytes → Bytes
join_suffix [] suffix = suffix
join_suffix (c ∷ out) [] = c ∷ out
join_suffix (c ∷ out) (d ∷ suffix) = (c ∷ out) ++ dot ∷ d ∷ suffix

-- The loop of `readName`: the name, and the offset behind it. `follow` reads the name that a
-- pointer leads to. Each round but the last moves `off` forwards.
unfoldable pub labels :
    (ℕ → Outcome Error (Bytes × ℕ)) → ℕ → Bytes → ℕ → Bytes → Outcome Error (Bytes × ℕ)
labels follow zero msg off out = out_of_fuel
labels follow (suc fuel) msg off out = do
  fail_if (leb (length msg) off) name_overflow
  l ← at msg off
  elim (l == 0) [
    | true ↦ ok (out, off + 1)
    | false ↦ elim (leb 0xc0 l) [
      | true ↦ do
        fail_if (leb (length msg) (off + 1)) bad_pointer
        low ← at msg (off + 1)
        (suffix, behind) ← follow (low_bits l 6 * 2 ^ 8 + low)
        ok (join_suffix out suffix, off + 2)
      | false ↦ do
        fail_if (ltb 63 l || ltb (length msg) (off + 1 + l)) bad_label
        label ← slice msg (off + 1) (off + 1 + l)
        labels follow fuel msg (off + 1 + l) (join_label out label)
    ]
  ]

-- `readName` where `levels` more pointers may be followed, that is, at depth `17 - levels`.
unfoldable pub read_name : ℕ → Bytes → ℕ → Outcome Error (Bytes × ℕ)
read_name zero msg off = err compression_loop
read_name (suc levels) msg off = labels (read_name levels msg) (suc (length msg)) msg off []

-- `readName(msg, off, 0)`.
abbrev pub name_at : Bytes → ℕ → Outcome Error (Bytes × ℕ)
name_at = read_name 17

pub record Answer : Type 0 where
  pub typ : ℕ
  pub ttl : ℕ
  pub rdata_off : ℕ
  pub rdlen : ℕ

-- What the two loops carry along.
pub record Progress : Type 0 where
  pub off : ℕ
  pub matched : Bool
  pub names : List Bytes
  pub answers : List Answer

unfoldable pub questions : (Bytes → Bool) → Bytes → ℕ → Progress → Outcome Error Progress
questions match msg zero s = ok s
questions match msg (suc left) s = do
  (name, n) ← name_at msg s.off
  fail_if (ltb (length msg) (n + 4)) short_question
  questions match msg left
      (record s { off = n + 4; matched = s.matched || match name; names = s.names ++ name ∷ [] })

-- The name that a CNAME record leads to, if it can be read.
unfoldable pub canonical : (Bytes → Bool) → Bytes → ℕ → Progress → Outcome Error Progress
canonical match msg rdata s = elim (name_at msg rdata) [
  | ok (name, n) ↦ ok (record s { matched = s.matched || match name; names = s.names ++ name ∷ [] })
  | err e ↦ ok s
  | panic ↦ panic
  | out_of_fuel ↦ out_of_fuel
]

unfoldable pub read_answers : (Bytes → Bool) → Bytes → ℕ → Progress → Outcome Error Progress
read_answers match msg zero s = ok s
read_answers match msg (suc left) s = do
  (name, n) ← name_at msg s.off
  fail_if (ltb (length msg) (n + 10)) short_answer
  typ ← u16_at msg n
  ttl ← u32_at msg (n + 4)
  rd ← u16_at msg (n + 8)
  fail_if (ltb (length msg) (n + 10 + rd)) short_rdata
  let a : Answer = record { typ = typ; ttl = ttl; rdata_off = n + 10; rdlen = rd }
  let s' = record s {
    off = n + 10 + rd;
    matched = s.matched || match name;
    answers = s.answers ++ a ∷ [];
  }
  s'' ← (if typ == 5 then canonical match msg (n + 10) s' else ok s')
  read_answers match msg left s''

-- The addresses of the A and AAAA records, and the least of their times to live.
unfoldable pub addresses : Bytes → List Answer → ℕ → Outcome Error (List Addr × ℕ)
addresses msg [] least = ok ([], least)
addresses msg (a ∷ rest) least =
    let smaller = if ltb a.ttl least then a.ttl else least in
    elim ((a.typ == 1) && (a.rdlen == 4)) [
      | true ↦ do
        v ← slice msg a.rdata_off (a.rdata_off + 4)
        (ips, least') ← addresses msg rest smaller
        ok (v4 v ∷ ips, least')
      | false ↦ elim ((a.typ == 28) && (a.rdlen == 16)) [
        | true ↦ do
          v ← slice msg a.rdata_off (a.rdata_off + 16)
          (ips, least') ← addresses msg rest smaller
          ok (v6 v ∷ ips, least')
        | false ↦ addresses msg rest least
      ]
    ]

-- Times are in seconds.
pub record DnsResult : Type 0 where
  pub names : List Bytes
  pub ips : List Addr
  pub ttl : ℕ

-- The end of `ParseDNSResponse`, from the test of `matched` on.
unfoldable pub collect : Bytes → Progress → Outcome Error DnsResult
collect msg t = elim t.matched [
  | false ↦ ok (record { names = t.names; ips = []; ttl = 300 })
  | true ↦ do
    (ips, least) ← addresses msg t.answers 86400
    ok (record { names = t.names; ips = ips; ttl = if least == 86400 then 300 else least })
]

unfoldable pub parse_dns_response : Bytes → (Bytes → Bool) → Outcome Error DnsResult
parse_dns_response msg match = do
  fail_if (ltb (length msg) 12) short_dns
  flags ← u16_at msg 2
  fail_if (not (test_bit flags 15)) not_response
  qd ← u16_at msg 4
  an ← u16_at msg 6
  s ← questions match msg qd (record { off = 12; matched = false; names = []; answers = [] })
  t ← read_answers match msg an s
  collect msg t
