-- ===== src/Discovery/Quic.antt =====
-- internal/browserdisc/discovery.go: how long QUIC to an address is blocked.
use split_wire.Prelude.{
  ap, arith, inl, inr, insert, lookup-insert_self, ltb, none, some, true, ℕ, ◌+◌, ◌<◌, ◌≡◌, ◌≤◌,
  ◌⊎◌,
}
use split_wire.Discovery.{Discovery, QuicState, find_quic, suppress_unknown_quic}
use split_wire.Ip.{Addr, Addr-discrete, unmap}

-- No contact with the address is remembered, or one whose pause is over.
abbrev pub IsUnknown : Addr → ℕ → Discovery → Type 0
IsUnknown ip now d =
    (find_quic (unmap ip) d.quic ≡ none)
    ⊎ ((s : QuicState) × (find_quic (unmap ip) d.quic ≡ some s) × (s.cool_until < now))

abbrev first_contact : ℕ → QuicState
first_contact now = record { block_until = now + 4; cool_until = now + 600 }

first_state :
    (ip : Addr) (now : ℕ) (d : Discovery)
    → IsUnknown ip now d
    → suppress_unknown_quic ip now d
      ≡ (record d { quic = insert Addr-discrete (unmap ip) (first_contact now) d.quic }, true)
unfolding suppress_unknown_quic
first_state ip now d (inl e) = ground arith
first_state ip now d (inr (s, e, h)) = ground arith

known_state :
    (ip : Addr) (now : ℕ) (d : Discovery) (s : QuicState)
    → find_quic (unmap ip) d.quic ≡ some s
    → now ≤ s.cool_until
    → suppress_unknown_quic ip now d ≡ (d, ltb now s.block_until)
unfolding suppress_unknown_quic
known_state ip now d s e h = ground arith

-- The first contact with an unknown address is blocked, and so are those less than four seconds after
-- it; later ones are let through until the pause of ten minutes is over, and change nothing.
pub suppress_unknown_quic_lem :
    (ip : Addr) (now later : ℕ) (d : Discovery)
    → IsUnknown ip now d
    → later ≤ now + 600
    → ((suppress_unknown_quic ip now d).1 ≡ true)
      × (suppress_unknown_quic ip later (suppress_unknown_quic ip now d).0
          ≡ ((suppress_unknown_quic ip now d).0, ltb later (now + 4)))
suppress_unknown_quic_lem ip now later d u h =
    let e = first_state ip now d u in
    (
      ap (λ r. r.1) e,
      rw e (
          known_state ip later
            (record d { quic = insert Addr-discrete (unmap ip) (first_contact now) d.quic })
            (first_contact now)
            (lookup-insert_self Addr-discrete (unmap ip) (first_contact now) d.quic) h),
    )
