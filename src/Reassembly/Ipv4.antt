-- ===== src/Reassembly/Ipv4.antt =====
-- internal/reassembly/ipv4.go. A method is one step under its lock, and takes the time as an
-- argument; a datagram that the source changes through its pointer is written back to the table.
use split_wire.Prelude.{
  Bool, Bytes, Dict, List, Option, Outcome, [], at, be16, byte_at, bytes16, delete, err, fail_if,
  false, if◌then◌else◌, insert, leb, length, lookup, low_bits, ltb, map, none, not, ok, out_of_fuel,
  panic, replicate, set, shr, slice, some, test_bit, true, u16, u16_at, write, ℕ, ℕ_discrete, ◌%◌,
  ◌&&◌, ◌*◌, ◌++◌, ◌+◌, ◌-◌, ◌/◌, ◌==◌, ◌>>=◌, ◌>>◌, ◌^◌, ◌||◌, ◌∷◌,
}
use split_wire.Reassembly.{
  Piece, Result, passed, incomplete, overlaps, mark, all_marked, paste, Failure, short_fragment,
  table_full, overlapping, bad_ihl, bad_length, empty_fragment, exceeds_limit, memory_limit,
  not_aligned, past_end, too_large,
}

pub record Key : Type 0 where
  pub src : Bytes
  pub dst : Bytes
  pub proto : ℕ
  pub id : ℕ

pub Key-discrete : Discrete Key
Key-discrete = hlevel ℕ_discrete

-- `last` is read only where `have_last` holds, so its initial -1 is 0 here.
pub record Datagram : Type 0 where
  pub header : Option Bytes
  pub pieces : List Piece
  pub last : ℕ
  pub have_last : Bool
  pub updated : ℕ
  pub bytes : ℕ
  pub max_packet : ℕ

pub record Table : Type 0 where
  pub entries : Dict Key Datagram
  pub max_entries : ℕ
  pub max_bytes : ℕ
  pub bytes : ℕ
  pub ttl : ℕ
  pub expired : ℕ

-- Times are in seconds.
unfoldable pub new_table : Table
new_table = record {
  entries = [];
  max_entries = 1024;
  max_bytes = 16 * 2 ^ 20;
  bytes = 0;
  ttl = 30;
  expired = 0;
}

abbrev pub find : Key → Dict Key Datagram → Option Datagram
find = lookup Key-discrete

-- `dropLocked`; the subtraction stops at 0, as it does here.
unfoldable pub drop_entry : Key → Datagram → Table → Table
drop_entry k d r = record r { entries = delete Key-discrete k r.entries; bytes = r.bytes - d.bytes }

-- The loop of `sweepLocked` over the keys of the table. `expired` counts modulo 2 ^ 64.
unfoldable pub sweep_keys : List Key → ℕ → Table → Table
sweep_keys [] now r = r
sweep_keys (k ∷ keys) now r = sweep_keys keys now (elim (find k r.entries) [
  | none ↦ r
  | some d ↦
      if ltb (d.updated + r.ttl) now
      then (let r' = drop_entry k d r in record r' { expired = (r.expired + 1) % 2 ^ 64 })
      else r
])

unfoldable pub sweep : ℕ → Table → Table
sweep now r = sweep_keys (map (λ e. e.0) r.entries) now r

unfoldable pub take_expired : Table → Table × ℕ
take_expired r = (record r { expired = 0 }, r.expired)

-- A fragment, as `PushInfo` reads it from the packet.
pub record Incoming : Type 0 where
  pub key : Key
  pub header : Bytes
  pub payload : Bytes
  pub off : ℕ
  pub more : Bool
  pub total : ℕ

-- What the packet is: one to pass on as it is, or a fragment.
pub data Reading : Type 0 where
  pass : Bytes → Reading
  fragment : Incoming → Reading

-- `PushInfo` up to its lock.
unfoldable pub read_packet : Bytes → Outcome Failure Reading
read_packet pkt = elim (ltb (length pkt) 1 || not (shr (byte_at pkt 0) 4 == 4)) [
  | true ↦ ok (pass pkt)
  | false ↦ do
    fail_if (ltb (length pkt) 20) short_fragment
    first ← at pkt 0
    let ihl = low_bits first 4 * 4
    fail_if (ltb ihl 20 || ltb (length pkt) ihl) bad_ihl
    written ← u16_at pkt 2
    let total = if (written == 0) || ltb (length pkt) written then length pkt else written
    fail_if (ltb total ihl) bad_length
    fv ← u16_at pkt 6
    let off = low_bits fv 13 * 8
    let more = test_bit fv 13
    elim ((off == 0) && not more) [
      | true ↦ do whole ← slice pkt 0 total; ok (pass whole)
      | false ↦ do
        payload ← slice pkt ihl total
        fail_if (length payload == 0) empty_fragment
        fail_if (more && not (length payload % 8 == 0)) not_aligned
        fail_if (ltb (65535 - ihl) (off + length payload)) too_large
        src ← slice pkt 12 16
        dst ← slice pkt 16 20
        proto ← at pkt 9
        id ← u16_at pkt 4
        header ← slice pkt 0 ihl
        ok (
            fragment (record {
              key = record { src = src; dst = dst; proto = proto; id = id };
              header = header;
              payload = payload;
              off = off;
              more = more;
              total = total;
            }))
    ]
]

-- The datagram with a new piece.
unfoldable pub add_piece : Incoming → ℕ → Datagram → Datagram
add_piece f now d = record {
  header = if f.off == 0 then some f.header else d.header;
  pieces = d.pieces ++ record { off = f.off; content = f.payload } ∷ [];
  last = if f.more then d.last else f.off + length f.payload;
  have_last = if f.more then d.have_last else true;
  updated = now;
  bytes = d.bytes + length f.payload;
  max_packet = if ltb d.max_packet f.total then f.total else d.max_packet;
}

-- The packet of a datagram whose pieces are all there.
unfoldable pub assemble : Bytes → ℕ → List Piece → Bytes
assemble header last pieces =
    let out0 = write (replicate (length header + last) 0) 0 header in
    let out1 = paste out0 (length header) pieces in
    let flags = be16 out1 6 / 2 ^ 14 * 2 ^ 14 in
    let out2 = write out1 6 (bytes16 flags) in
    let out3 = write out2 2 (bytes16 (u16 (length out2))) in set (set out3 10 0) 11 0

-- `PushInfo` from the test of `d.header` on, for the datagram `d` of key `k`, which has just been
-- stored.
unfoldable pub finish : Key → Datagram → Table → Table × Outcome Failure Result
finish k d r = elim d.header [
  | none ↦ (r, ok incomplete)
  | some header ↦ elim d.have_last [
    | false ↦ (r, ok incomplete)
    | true ↦ elim (mark (replicate d.last false) d.last d.pieces) [
      | none ↦ (drop_entry k d r, err past_end)
      | some covered ↦
          if not (all_marked covered)
          then (r, ok incomplete)
          else if ltb 65535 (length header + d.last)
          then (drop_entry k d r, err exceeds_limit)
          else (
            drop_entry k d r,
            ok (record {
              packet = assemble header d.last d.pieces;
              ready = true;
              fragmented = true;
              fragment_mtu = d.max_packet;
            }),
          )
    ]
  ]
]

abbrev pub no_pieces : ℕ → Datagram
no_pieces now = record {
  header = none;
  pieces = [];
  last = 0;
  have_last = false;
  updated = now;
  bytes = 0;
  max_packet = 0;
}

-- The checks of a piece against its datagram, and its addition.
unfoldable pub insert_piece : Incoming → ℕ → Datagram → Table → Table × Outcome Failure Result
insert_piece f now d r =
    if overlaps f.off (f.off + length f.payload) d.pieces
    then (drop_entry f.key d r, err overlapping)
    else if ltb r.max_bytes (r.bytes + length f.payload)
    then (drop_entry f.key d r, err memory_limit)
    else (let d' = add_piece f now d in
        finish f.key d' (record r {
          entries = insert Key-discrete f.key d' r.entries;
          bytes = r.bytes + length f.payload;
        }))

-- `PushInfo` under its lock.
unfoldable pub push_fragment : Incoming → ℕ → Table → Table × Outcome Failure Result
push_fragment f now r0 =
    let r = sweep now r0 in
    elim (find f.key r.entries) [
      | some d ↦ insert_piece f now d r
      | none ↦
          if leb r.max_entries (length r.entries)
          then (r, err table_full)
          else insert_piece f now (no_pieces now)
              (record r { entries = insert Key-discrete f.key (no_pieces now) r.entries })
    ]

unfoldable pub push_info : Bytes → ℕ → Table → Table × Outcome Failure Result
push_info pkt now r = elim (read_packet pkt) [
  | err e ↦ (r, err e)
  | panic ↦ (r, panic)
  | out_of_fuel ↦ (r, out_of_fuel)
  | ok (pass whole) ↦ (r, ok (passed whole))
  | ok (fragment f) ↦ push_fragment f now r
]

-- `Push`: the packet and whether it is complete.
unfoldable pub push : Bytes → ℕ → Table → Table × Outcome Failure (Bytes × Bool)
push pkt now r = let (r', res) = push_info pkt now r in (r', res >>= λ x. ok (x.packet, x.ready))
