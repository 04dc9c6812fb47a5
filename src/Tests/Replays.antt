-- ===== src/Tests/Replays.antt =====
-- Datagrams that come twice, and out of order.
use split_wire.Prelude.{[], false, inl, inr, refl, true, ◌∷◌, ◌≡◌}
use split_wire.Wireguard.{Replay, new_replay, accept, clear_bits, move_up}
use split_wire.Wireguard.Window.{Reached, accept_once, created, taken}

abbrev after_five : Replay
after_five = (accept 5 new_replay).0

abbrev after_seven : Replay
after_seven = (accept 7 after_five).0

-- The counter 6 comes after 7.
abbrev after_six : Replay
after_six = (accept 6 after_seven).0

five : (accept 5 new_replay).1 ≡ true
unfolding accept
five = refl

seven : (accept 7 after_five).1 ≡ true
unfolding accept move_up clear_bits
seven = refl

six : (accept 6 after_seven).1 ≡ true
unfolding accept move_up clear_bits
six = refl

three_taken : Reached (6 ∷ 7 ∷ 5 ∷ []) after_six
three_taken = taken 6 (taken 7 (taken 5 created five) seven) six

accept_once_example : (accept 5 after_six).1 ≡ false
accept_once_example = accept_once 5 (6 ∷ 7 ∷ 5 ∷ []) after_six three_taken (inr (inr (inl refl)))
