-- ===== src/Mapper/Search.antt =====
-- internal/nat/nat.go: the search of `PrepareOutbound` for a free port of the tunnel.
use split_wire.Prelude.{
  Option, arith, inl, inr, none, some, suc, zero, ℕ, ℕ_discrete, ◌%◌, ◌+◌, ◌-◌, ◌<◌, ◌≡◌, ◌≤◌, ◌⊎◌,
}
use split_wire.Mapper.{
  Mapper, find_port, pick_port, OutboundKey, advance, find_reply, reply_key, search_rounds,
}

-- A port is free for a flow, where no reply to another flow would have the same key.
abbrev pub IsFree : Mapper → OutboundKey → ℕ → Type 0
IsFree m k port = find_reply (reply_key m k port) m.by_reply ≡ none

-- What the search promises: a port that it gives is free, and the next candidate is in range.
abbrev pub IsPick : Mapper → OutboundKey → Option ℕ × ℕ → Type 0
IsPick m k (none, next) = (40000 ≤ next) × (next ≤ 60999)
IsPick m k (some port, next) =
    (40000 ≤ next) × (next ≤ 60999) × IsFree m k port × ((port < 65536) ⊎ (port ≡ k.local_port))

find_port-IsPick :
    (rounds : ℕ) (m : Mapper) (k : OutboundKey) (next : ℕ)
    → 40000 ≤ next
    → next ≤ 60999
    → IsPick m k (find_port rounds m k next)
unfolding find_port
find_port-IsPick zero m k next low high = (low, high)
find_port-IsPick (suc rounds) m k next low high =
    ground (arith, find_port-IsPick rounds m k (advance next))

pub pick_port-IsPick :
    (m : Mapper) (k : OutboundKey) → 40000 ≤ m.next → m.next ≤ 60999 → IsPick m k (pick_port m k)
unfolding pick_port
pick_port-IsPick m k low high = ground (arith, find_port-IsPick search_rounds m k m.next)

-- A failed search has tried every port that lies within so many steps of the first.
find_port_taken :
    (rounds : ℕ) (m : Mapper) (k : OutboundKey) (next t : ℕ)
    → 40000 ≤ next
    → next ≤ 60999
    → 40000 ≤ t
    → t ≤ 60999
    → (t + 21000 - next) % 21000 < rounds
    → (find_port rounds m k next).0 ≡ none
    → ¬ IsFree m k t
unfolding find_port
find_port_taken zero m k next t low high low' high' near e = absurd (omega arith)
find_port_taken (suc rounds) m k next t low high low' high' near e = elim (ℕ_discrete t next) [
  | yes same ↦ ground arith
  | no ne ↦
      let step : (t + 21000 - advance next) % 21000 < rounds = ground arith in
      ground (
        arith,
        step,
        find_port_taken rounds m k (advance next) t (ground arith) (ground arith) low' high' step,
      )
]

-- The search fails only where the flow's own port and the whole range are taken.
pub pick_port_taken :
    (m : Mapper) (k : OutboundKey) (t : ℕ)
    → 40000 ≤ m.next
    → m.next ≤ 60999
    → (pick_port m k).0 ≡ none
    → (t ≡ k.local_port) ⊎ ((40000 ≤ t) × (t ≤ 60999))
    → ¬ IsFree m k t
unfolding pick_port
pick_port_taken m k t low high e (inl same) = ground arith
pick_port_taken m k t low high e (inr (low', high')) =
    ground (arith, find_port_taken search_rounds m k m.next t low high low' high' (omega arith))
