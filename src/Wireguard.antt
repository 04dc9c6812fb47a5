-- ===== src/Wireguard.antt =====
-- internal/wireguard/client.go: the window that keeps a datagram from being taken twice. The 32 words of `seen` are one list of their 2048 bits, bit `b` of word `w` at `64 * w + b`.
pub mod Window
pub mod Client
pub mod Transport
pub mod Sessions
pub mod Handshake
pub mod Parts
pub mod Agreement
pub mod Attempts
pub mod Responder
use split_wire.Prelude.{
  Bool, List, false, get_or, if◌then◌else◌, leb, ltb, not, replicate, set, suc, true, zero, ℕ, ◌%◌,
  ◌+◌, ◌-◌, ◌^◌,
}

pub record Replay : Type 0 where
  pub highest : ℕ
  pub init : Bool
  pub seen : List Bool

abbrev pub window : ℕ
window = 2048

abbrev pub new_replay : Replay
new_replay = record { highest = 0; init = false; seen = replicate window false }

-- The loop that clears the bits of `count` counters from `x` on.
unfoldable pub clear_bits : ℕ → ℕ → List Bool → List Bool
clear_bits zero x seen = seen
clear_bits (suc count) x seen = clear_bits count (suc x) (set seen (x % window) false)

-- The window after it has moved up to `n`, if `n` is the highest counter so far.
unfoldable pub move_up : ℕ → Replay → Replay
move_up n r =
    if ltb r.highest n
    then record r {
      seen =
          if leb window (n - r.highest)
          then replicate window false
          else clear_bits (n - r.highest) (suc r.highest) r.seen;
      highest = n;
    }
    else r

abbrev pub mark_seen : ℕ → Replay → Replay
mark_seen n r = record r { seen = set r.seen (n % window) true }

-- `Accept`; the sum of counter and window wraps around at 64 bits.
unfoldable pub accept : ℕ → Replay → Replay × Bool
accept n r =
    if not r.init
    then (mark_seen n (record r { init = true; highest = n }), true)
    else if leb ((n + window) % 2 ^ 64) r.highest
    then (r, false)
    else (let r' = move_up n r in
        if get_or r'.seen (n % window) false then (r', false) else (mark_seen n r', true))
