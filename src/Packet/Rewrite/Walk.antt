-- ===== src/Packet/Rewrite/Walk.antt =====
-- internal/packet/packet.go: what the header walk of `parse6` returns after a write elsewhere.
use split_wire.Prelude.{
  Bytes, Ensures, arith, byte_at, get_or-write_above, get_or-write_below, length, length-write, ok,
  refl, suc, write, zero, ℕ, ◌*◌, ◌+◌, ◌≡◌, ◌≤◌,
}
use split_wire.Packet.Parse.{skip_headers}
use split_wire.Packet.Parse.Bounds.{skip_headers_within}

-- A write before the walk's start does not change it.
pub skip_headers-write_before :
    (fuel : ℕ) (b : Bytes) (k : ℕ) (ys : Bytes) (total next off : ℕ)
    → k + length ys ≤ off
    → skip_headers fuel (write b k ys) total next off ≡ skip_headers fuel b total next off
unfolding skip_headers
skip_headers-write_before zero b k ys total next off h = refl
skip_headers-write_before (suc fuel) b k ys total next off h =
    let len = byte_at b (off + 1) in
    ground (
      arith,
      length-write b k ys,
      get_or-write_above b k ys off 0,
      get_or-write_above b k ys (off + 1) 0,
      skip_headers-write_before fuel b k ys total (byte_at b off) (off + (len + 1) * 8),
      skip_headers-write_before fuel b k ys total (byte_at b off) (off + (len + 2) * 4),
    )

-- Nor does a write at or behind the transport header.
pub skip_headers-write_behind :
    (fuel : ℕ) (b : Bytes) (k : ℕ) (ys : Bytes) (total next off : ℕ)
    → off ≤ total
    → Ensures
        (λ r. r.1 ≤ k → skip_headers fuel (write b k ys) total next off ≡ ok r)
        (skip_headers fuel b total next off)
unfolding skip_headers
skip_headers-write_behind zero b k ys total next off h = tt
skip_headers-write_behind (suc fuel) b k ys total next off h =
    let len = byte_at b (off + 1) in
    ground (
      arith,
      length-write b k ys,
      get_or-write_below b k ys off 0,
      get_or-write_below b k ys (off + 1) 0,
      skip_headers_within fuel b total (byte_at b off) (off + (len + 1) * 8),
      skip_headers_within fuel b total (byte_at b off) (off + (len + 2) * 4),
      skip_headers-write_behind fuel b k ys total (byte_at b off) (off + (len + 1) * 8),
      skip_headers-write_behind fuel b k ys total (byte_at b off) (off + (len + 2) * 4),
    )
