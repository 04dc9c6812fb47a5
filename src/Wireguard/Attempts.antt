-- ===== src/Wireguard/Attempts.antt =====
-- internal/wireguard/client.go: the attempts of a handshake. What arrives while the client waits for an
-- answer is a list of events; when it ends, the timer of the attempt fires.
use split_wire.Prelude.{
  Bool, Bytes, List, Option, Outcome, [], err, false, if◌then◌else◌, length, ltb, none, not, ok,
  out_of_fuel, panic, some, take, true, ℕ, ◌&&◌, ◌+◌, ◌-◌, ◌==◌, ◌∷◌,
}
use split_wire.Wireguard.Client.{Client, Session, le_number, install_session, switch_active_path}
use split_wire.Wireguard.Handshake.{
  Suite, Identity, InitState, HandshakeError, make_initiation, consume_response, consume_cookie,
  not_written, timed_out, cancelled, closed,
}

pub data Event : Type 0 where
  response cookie_reply : Bytes → Event
  context_done client_closed : Event

-- One attempt: its random bytes, its time, whether the socket takes the message, and what arrives.
pub record Attempt : Type 0 where
  pub epriv : Bytes
  pub index : ℕ
  pub stamp : Bytes
  pub now : ℕ
  pub written : Bool
  pub events : List Event

-- How an attempt ends.
pub data Waited : Type 0 where
  established : Session → Waited
  answered silent : Waited
  stopped : HandshakeError → Waited
  broken : Waited

-- The cookie that goes into the next message.
abbrev pub fresh_cookie : ℕ → Client → Option Bytes
fresh_cookie now c = elim c.cookie_at [
  | none ↦ none
  | some t ↦ if ltb (now - t) 120 then some c.cookie else none
]

-- Whether a message has the size that its type has, and names the index of the initiator at `i`.
abbrev pub is_addressed : ℕ → ℕ → InitState → Bytes → Bool
is_addressed size i st raw = (length raw == size) && (le_number 4 raw i == st.sender)

module _ (suite : Suite) (me : Identity) where
  -- The loop `wait`.
  unfoldable pub wait_reply : InitState → ℕ → List Event → Client → Client × Waited
  wait_reply st now [] c = (c, silent)
  wait_reply st now (response raw ∷ events) c =
      let rest = wait_reply st now events c in
      if is_addressed 92 8 st raw
      then elim (consume_response suite me st raw now) [
        | ok s ↦ (c, established s)
        | err e ↦ rest
        | panic ↦ (c, broken)
        | out_of_fuel ↦ (c, broken)
      ]
      else rest
  wait_reply st now (cookie_reply raw ∷ events) c =
      let rest = wait_reply st now events c in
      if is_addressed 64 4 st raw
      then elim (consume_cookie suite me st raw now c) [
        | ok (c', true) ↦ (c', answered)
        | ok (c', false) ↦ rest
        | err e ↦ (c, broken)
        | panic ↦ (c, broken)
        | out_of_fuel ↦ (c, broken)
      ]
      else rest
  wait_reply st now (context_done ∷ events) c = (c, stopped cancelled)
  wait_reply st now (client_closed ∷ events) c = (c, stopped closed)

  -- The third timeout in a row on a path switches to the other one.
  unfoldable pub count_timeout : ℕ → Client → Client × ℕ
  count_timeout timeouts c =
      if timeouts + 1 == 3 then ((switch_active_path c).0, 0) else (c, timeouts + 1)

  -- The loop over the attempts, with the timeouts that the path has had in a row. `ref` is a number
  -- that no object has.
  unfoldable pub attempt_rounds :
      ℕ → ℕ → List Attempt → Client → Client × Outcome HandshakeError (ℕ × Session)
  attempt_rounds ref timeouts [] c = (c, err timed_out)
  attempt_rounds ref timeouts (a ∷ attempts) c =
      elim (make_initiation suite me a.epriv a.index a.stamp (fresh_cookie a.now c)) [
        | err e ↦ (c, err e)
        | panic ↦ (c, panic)
        | out_of_fuel ↦ (c, out_of_fuel)
        | ok (st, msg) ↦
            if not a.written
            then (c, err not_written)
            else (let (c1, waited) = wait_reply st a.now a.events c in
                elim waited [
                  | established s ↦ (install_session ref s a.now c1, ok (ref, s))
                  | answered ↦ attempt_rounds ref 0 attempts c1
                  | silent ↦
                      let (c2, timeouts') = count_timeout timeouts c1 in
                      attempt_rounds ref timeouts' attempts c2
                  | stopped e ↦ (c1, err e)
                  | broken ↦ (c1, panic)
                ])
      ]

  -- `handshake`: five attempts at most.
  abbrev pub handshake : ℕ → List Attempt → Client → Client × Outcome HandshakeError (ℕ × Session)
  handshake ref attempts c = attempt_rounds ref 0 (take 5 attempts) c
