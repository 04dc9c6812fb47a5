-- ===== src/Reassembly.antt =====
-- internal/reassembly: what the reassembly of IPv4 and of IPv6 share: the result, the pieces of a
-- datagram, and the check that they cover it.
pub mod Ipv4
pub mod Ipv6
pub mod Bounds
pub mod Invariant
pub mod Pieces
pub mod Coverage
use split_wire.Prelude.{
  Bool, Bytes, List, Option, [], false, if◌then◌else◌, length, ltb, none, replicate, some, true,
  write, ℕ, ◌&&◌, ◌+◌, ◌||◌, ◌∷◌,
}

pub record Result : Type 0 where
  pub packet : Bytes
  pub ready : Bool
  pub fragmented : Bool
  pub fragment_mtu : ℕ

-- A packet that needs no reassembly, and the result while pieces are missing.
abbrev pub passed : Bytes → Result
passed pkt = record { packet = pkt; ready = true; fragmented = false; fragment_mtu = 0 }

abbrev pub incomplete : Result
incomplete = record { packet = []; ready = false; fragmented = true; fragment_mtu = 0 }

pub record Piece : Type 0 where
  pub off : ℕ
  pub content : Bytes

pub data Failure : Type 0 where
  short_fragment bad_ihl bad_length empty_fragment not_aligned too_large table_full : Failure
  overlapping memory_limit past_end exceeds_limit : Failure
  jumbogram truncated short_extension bad_extension short_ah bad_ah short_header : Failure
  not_ipv6 inconsistent_chain bad_prev_next : Failure

-- Whether a new piece at `off` up to `stop` shares a byte with one of the pieces.
unfoldable pub overlaps : ℕ → ℕ → List Piece → Bool
overlaps off stop [] = false
overlaps off stop (q ∷ qs) =
    ltb off (q.off + length q.content) && ltb q.off stop || overlaps off stop qs

-- The marks of the bytes that the pieces cover; `none` if one reaches past the end.
unfoldable pub mark : List Bool → ℕ → List Piece → Option (List Bool)
mark covered last [] = some covered
mark covered last (q ∷ qs) =
    if ltb last (q.off + length q.content)
    then none
    else mark (write covered q.off (replicate (length q.content) true)) last qs

unfoldable pub all_marked : List Bool → Bool
all_marked [] = true
all_marked (v ∷ vs) = v && all_marked vs

-- `copy(out[base+q.off:], q.data)` for each piece.
unfoldable pub paste : Bytes → ℕ → List Piece → Bytes
paste out base [] = out
paste out base (q ∷ qs) = paste (write out (base + q.off) q.content) base qs

-- The bytes that the pieces hold.
unfoldable pub held : List Piece → ℕ
held [] = 0
held (q ∷ qs) = length q.content + held qs
