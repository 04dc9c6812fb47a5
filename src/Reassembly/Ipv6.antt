-- ===== src/Reassembly/Ipv6.antt =====
-- internal/reassembly/ipv6.go. A method is one step under its lock, and takes the time as an
-- argument; a datagram that the source changes through its pointer is written back to the table.
pub mod Chain
pub mod Books
pub mod Limits
pub mod Whole
use split_wire.Prelude.{
  Bool, Bytes, Dict, List, Option, Outcome, [], at, byte_at, bytes16, delete, err, fail_if, false,
  if◌then◌else◌, insert, leb, length, lookup, ltb, map, none, not, ok, out_of_fuel, panic,
  replicate, set, shr, slice, some, suc, test_bit, true, u16, u16_at, u32_at, write, zero, ℕ,
  ℕ_discrete, ◌%◌, ◌&&◌, ◌*◌, ◌++◌, ◌+◌, ◌-◌, ◌==◌, ◌>>=◌, ◌>>◌, ◌^◌, ◌||◌, ◌∷◌,
}
use split_wire.Reassembly.{
  Piece, Result, Failure, passed, incomplete, overlaps, mark, all_marked, paste, short_fragment,
  table_full, overlapping, empty_fragment, exceeds_limit, memory_limit, not_aligned, past_end,
  too_large, jumbogram, truncated, short_extension, bad_extension, short_ah, bad_ah, short_header,
  not_ipv6, inconsistent_chain, bad_prev_next,
}

pub record Key : Type 0 where
  pub src : Bytes
  pub dst : Bytes
  pub id : ℕ
  pub next : ℕ

pub Key-discrete : Discrete Key
Key-discrete = hlevel ℕ_discrete

-- `last` is read only where `have_last` holds, so its initial -1 is 0 here.
pub record Datagram : Type 0 where
  pub prefix : Bytes
  pub prev_next : ℕ
  pub next : ℕ
  pub pieces : List Piece
  pub last : ℕ
  pub have_last : Bool
  pub updated : ℕ
  pub bytes : ℕ
  pub max_packet : ℕ

pub record Table : Type 0 where
  pub entries : Dict Key Datagram
  pub max_entries : ℕ
  pub max_bytes : ℕ
  pub bytes : ℕ
  pub ttl : ℕ
  pub expired : ℕ

-- Times are in seconds.
unfoldable pub new_table : Table
new_table = record {
  entries = [];
  max_entries = 1024;
  max_bytes = 16 * 2 ^ 20;
  bytes = 0;
  ttl = 30;
  expired = 0;
}

abbrev pub find : Key → Dict Key Datagram → Option Datagram
find = lookup Key-discrete

-- `dropLocked`; the subtraction stops at 0, as it does here.
unfoldable pub drop_entry : Key → Datagram → Table → Table
drop_entry k d r = record r { entries = delete Key-discrete k r.entries; bytes = r.bytes - d.bytes }

-- The loop of `sweepLocked` over the keys of the table. `expired` counts modulo 2 ^ 64.
unfoldable pub sweep_keys : List Key → ℕ → Table → Table
sweep_keys [] now r = r
sweep_keys (k ∷ keys) now r = sweep_keys keys now (elim (find k r.entries) [
  | none ↦ r
  | some d ↦
      if ltb (d.updated + r.ttl) now
      then (let r' = drop_entry k d r in record r' { expired = (r.expired + 1) % 2 ^ 64 })
      else r
])

unfoldable pub sweep : ℕ → Table → Table
sweep now r = sweep_keys (map (λ e. e.0) r.entries) now r

unfoldable pub take_expired : Table → Table × ℕ
take_expired r = (record r { expired = 0 }, r.expired)

-- What the walk over the extension headers does at a header.
pub data Step : Type 0 where
  options auth found other : Step

abbrev pub step : ℕ → Step
step next =
    if (next == 0) || (next == 43) || (next == 60)
    then options
    else if next == 51
    then auth
    else if next == 44
    then found
    else other

-- The loop of `findIPv6Fragment`: the offsets of the fragment header and of the field that names
-- it, or `none` where there is no such header.
unfoldable pub fragment_walk : ℕ → Bytes → ℕ → ℕ → ℕ → ℕ → Outcome Failure (Option (ℕ × ℕ))
fragment_walk zero pkt total next prev_next off = out_of_fuel
fragment_walk (suc fuel) pkt total next prev_next off = elim (step next) [
  | options ↦ do
    fail_if (ltb total (off + 2)) short_extension
    units ← at pkt (off + 1)
    let n = (units + 1) * 8
    fail_if (ltb n 8 || ltb total (off + n)) bad_extension
    following ← at pkt off
    fragment_walk fuel pkt total following off (off + n)
  | auth ↦ do
    fail_if (ltb total (off + 2)) short_ah
    units ← at pkt (off + 1)
    let n = (units + 2) * 4
    fail_if (ltb n 8 || ltb total (off + n)) bad_ah
    following ← at pkt off
    fragment_walk fuel pkt total following off (off + n)
  | found ↦ ok (some (off, prev_next))
  | other ↦ ok none
]

-- Each round moves the offset forwards by 8 at least, so that this fuel is enough.
unfoldable pub find_ipv6_fragment : Bytes → Outcome Failure (Option (ℕ × ℕ))
find_ipv6_fragment pkt = do
  fail_if (ltb (length pkt) 40 || not (shr (byte_at pkt 0) 4 == 6)) not_ipv6
  plen ← u16_at pkt 4
  let total = if ltb (length pkt) (40 + plen) then length pkt else 40 + plen
  next ← at pkt 6
  fragment_walk (length pkt + 1) pkt total next 6 40

-- A fragment, as `PushInfo` reads it from the packet.
pub record Incoming : Type 0 where
  pub key : Key
  pub prefix : Bytes
  pub prev_next : ℕ
  pub payload : Bytes
  pub off : ℕ
  pub more : Bool
  pub total : ℕ

-- What the packet is: one to pass on as it is, or a fragment.
pub data Reading : Type 0 where
  pass : Bytes → Reading
  fragment : Incoming → Reading

-- The fragment with its key and the headers before it.
unfoldable pub with_key : Bytes → ℕ → ℕ → ℕ → ℕ → Bool → Bytes → ℕ → Outcome Failure Incoming
with_key pkt frag_off prev_next next off more payload total = do
  src ← slice pkt 8 24
  dst ← slice pkt 24 40
  id ← u32_at pkt (frag_off + 4)
  prefix ← slice pkt 0 frag_off
  ok (record {
    key = record { src = src; dst = dst; id = id; next = next };
    prefix = prefix;
    prev_next = prev_next;
    payload = payload;
    off = off;
    more = more;
    total = total;
  })

-- The checks of the payload.
unfoldable pub with_payload : Bytes → ℕ → ℕ → ℕ → ℕ → Bool → Bytes → ℕ → Outcome Failure Incoming
with_payload pkt frag_off prev_next next off more payload total = do
  fail_if ((length payload == 0) && more) empty_fragment
  fail_if (more && not (length payload % 8 == 0)) not_aligned
  fail_if (ltb 65535 (off + length payload)) too_large
  with_key pkt frag_off prev_next next off more payload total

-- `PushInfo` from the fragment header at `frag_off` up to its lock.
unfoldable pub read_fragment : Bytes → ℕ → ℕ → ℕ → Outcome Failure Incoming
read_fragment pkt total frag_off prev_next = do
  fail_if (ltb total (frag_off + 8)) short_header
  next ← at pkt frag_off
  fv ← u16_at pkt (frag_off + 2)
  payload ← slice pkt (frag_off + 8) total
  with_payload pkt frag_off prev_next next (shr fv 3 * 8) (test_bit fv 0) payload total

-- `PushInfo` after the walk over the headers of the packet `whole`.
abbrev pub after_walk : Bytes → ℕ → Bytes → Option (ℕ × ℕ) → Outcome Failure Reading
after_walk pkt total whole none = ok (pass whole)
after_walk pkt total whole (some (frag_off, prev_next)) = do
  f ← read_fragment pkt total frag_off prev_next
  ok (fragment f)

unfoldable pub read_chain : Bytes → ℕ → Outcome Failure Reading
read_chain pkt total = do
  whole ← slice pkt 0 total
  place ← find_ipv6_fragment whole
  after_walk pkt total whole place

-- `PushInfo` up to its lock.
unfoldable pub read_packet : Bytes → Outcome Failure Reading
read_packet pkt = elim (ltb (length pkt) 1 || not (shr (byte_at pkt 0) 4 == 6)) [
  | true ↦ ok (pass pkt)
  | false ↦ do
    fail_if (ltb (length pkt) 40) short_fragment
    plen ← u16_at pkt 4
    fail_if (plen == 0) jumbogram
    fail_if (ltb (length pkt) (40 + plen)) truncated
    read_chain pkt (40 + plen)
]

-- The datagram with a new piece.
unfoldable pub add_piece : Incoming → ℕ → Datagram → Datagram
add_piece f now d = record {
  prefix = d.prefix;
  prev_next = d.prev_next;
  next = d.next;
  pieces = d.pieces ++ record { off = f.off; content = f.payload } ∷ [];
  last = if f.more then d.last else f.off + length f.payload;
  have_last = if f.more then d.have_last else true;
  updated = now;
  bytes = d.bytes + length f.payload;
  max_packet = if ltb d.max_packet f.total then f.total else d.max_packet;
}

-- The packet of a datagram whose pieces are all there: the fragment header is cut out of the chain.
unfoldable pub assemble : Datagram → Bytes
assemble d =
    let out0 = write (replicate (length d.prefix + d.last) 0) 0 d.prefix in
    let out1 = set out0 d.prev_next d.next in
    let out2 = paste out1 (length d.prefix) d.pieces in
    write out2 4 (bytes16 (u16 (length out2 - 40)))

-- `PushInfo` from the test of `d.haveLast` on, for the datagram `d` of key `k`, which has just been
-- stored.
unfoldable pub finish : Key → Datagram → Table → Table × Outcome Failure Result
finish k d r = elim d.have_last [
  | false ↦ (r, ok incomplete)
  | true ↦ elim (mark (replicate d.last false) d.last d.pieces) [
    | none ↦ (drop_entry k d r, err past_end)
    | some covered ↦
        if not (all_marked covered)
        then (r, ok incomplete)
        else if ltb (65535 + 40) (length d.prefix + d.last)
        then (drop_entry k d r, err exceeds_limit)
        else if leb (length d.prefix + d.last) d.prev_next
        then (drop_entry k d r, err bad_prev_next)
        else (
          drop_entry k d r,
          ok (record {
            packet = assemble d;
            ready = true;
            fragmented = true;
            fragment_mtu = d.max_packet;
          }),
        )
  ]
]

-- A new datagram, for its first fragment to come.
abbrev pub no_pieces : Incoming → ℕ → Datagram
no_pieces f now = record {
  prefix = f.prefix;
  prev_next = f.prev_next;
  next = f.key.next;
  pieces = [];
  last = 0;
  have_last = false;
  updated = now;
  bytes = 0;
  max_packet = 0;
}

-- The checks of a piece against its datagram, and its addition.
unfoldable pub insert_piece : Incoming → ℕ → Datagram → Table → Table × Outcome Failure Result
insert_piece f now d r =
    if overlaps f.off (f.off + length f.payload) d.pieces
    then (drop_entry f.key d r, err overlapping)
    else if ltb r.max_bytes (r.bytes + length f.payload)
    then (drop_entry f.key d r, err memory_limit)
    else (let d' = add_piece f now d in
        finish f.key d' (record r {
          entries = insert Key-discrete f.key d' r.entries;
          bytes = r.bytes + length f.payload;
        }))

-- `PushInfo` under its lock.
unfoldable pub push_fragment : Incoming → ℕ → Table → Table × Outcome Failure Result
push_fragment f now r0 =
    let r = sweep now r0 in
    elim (find f.key r.entries) [
      | some d ↦
          if not (d.prev_next == f.prev_next) || not (length d.prefix == length f.prefix)
          then (drop_entry f.key d r, err inconsistent_chain)
          else insert_piece f now d r
      | none ↦
          if leb r.max_entries (length r.entries)
          then (r, err table_full)
          else insert_piece f now (no_pieces f now)
              (record r { entries = insert Key-discrete f.key (no_pieces f now) r.entries })
    ]

unfoldable pub push_info : Bytes → ℕ → Table → Table × Outcome Failure Result
push_info pkt now r = elim (read_packet pkt) [
  | err e ↦ (r, err e)
  | panic ↦ (r, panic)
  | out_of_fuel ↦ (r, out_of_fuel)
  | ok (pass whole) ↦ (r, ok (passed whole))
  | ok (fragment f) ↦ push_fragment f now r
]

-- `Push`: the packet and whether it is complete.
unfoldable pub push : Bytes → ℕ → Table → Table × Outcome Failure (Bytes × Bool)
push pkt now r = let (r', res) = push_info pkt now r in (r', res >>= λ x. ok (x.packet, x.ready))
