-- ===== src/Wireguard/Transport.antt =====
-- internal/wireguard/client.go: a packet that one client sends and another receives.
use split_wire.Cryptox.Sealing.{IsSound}
use split_wire.Wireguard.Window.{Reached, accept_once, taken}
use split_wire.Packet.Rewrite.{pad16, trim_to_ip_length}
use split_wire.Wireguard.{accept}
use split_wire.Cryptox.Aead.{Error}
use split_wire.Prelude.{
  Bool, Bytes, List, Option-cases, Outcome, [], ap, arith, dec_lt, drop, err, false, inl, inr,
  length, lookup-insert_self, none, ok, out_of_fuel, panic, refl, some, true, ℕ, ℕ_discrete, ◌++◌,
  ◌+◌, ◌<◌, ◌^◌, ◌∙◌, ◌∷◌, ◌≡◌, ◌≤◌, ◌⊎◌,
}
use split_wire.Wireguard.Client.{
  le_number, transport, Client, Session, counter_nonce, deliver, find_session, handle_transport,
  is_inner, send_on, session_at, take_opened,
}
use split_wire.Packet.Rewrite.Padding.{IsExact, trim_to_ip_length-pad16}

transport_reads :
    (index counter : ℕ) (sealed : Bytes)
    → index < 2 ^ 32
    → counter < 2 ^ 64
    → (le_number 4 (transport index counter sealed) 4 ≡ index)
      × (le_number 8 (transport index counter sealed) 8 ≡ counter)
      × (drop 16 (transport index counter sealed) ≡ sealed)
      × (length (transport index counter sealed) ≡ 16 + length sealed)
unfolding le_number
transport_reads index counter sealed h g = (omega arith, omega arith, refl, omega arith)

-- The session `s` of one end sends with the cipher by which `t` of the other end receives, and this
-- cipher seals every text, with 16 bytes more.
pub record Channel (s t : Session) : Type 0 where
  pub same : s.send ≡ t.recv
  pub sound : IsSound t.recv
  pub seals :
      (nonce pt : Bytes)
      → length nonce ≡ 12
      → (ct : Bytes) × (t.recv.seal nonce pt [] ≡ ok ct) × (length ct ≡ length pt + 16)

length-counter_nonce : (counter : ℕ) → length (counter_nonce counter) ≡ 12
length-counter_nonce counter = refl

send_on_ok :
    (writes : Bytes → Bool) (ref : ℕ) (s : Session) (raw sealed : Bytes) (c : Client)
    → s.send.seal (counter_nonce s.send_counter) (pad16 raw) [] ≡ ok sealed
    → writes (transport s.remote_index s.send_counter sealed) ≡ true
    → (send_on writes ref s raw c).1 ≡ ok (transport s.remote_index s.send_counter sealed)
unfolding send_on
send_on_ok writes ref s raw sealed c e w = ground arith

handle_transport_opened :
    (raw body : Bytes) (index counter ref : ℕ) (t : Session) (opened : Bytes) (c : Client)
    → le_number 4 raw 4 ≡ index
    → le_number 8 raw 8 ≡ counter
    → drop 16 raw ≡ body
    → 32 ≤ length raw
    → find_session index c ≡ some (ref, t)
    → t.recv.open_sealed (counter_nonce counter) body [] ≡ ok opened
    → handle_transport raw c ≡ ok (take_opened ref t counter raw opened c)
unfolding handle_transport
handle_transport_opened raw body index counter ref t opened c i n d l f o = ground arith

is_inner-IsExact : (raw : Bytes) → IsExact raw → is_inner raw ≡ true
is_inner-IsExact raw h = ground arith

-- The session after a datagram with the counter.
abbrev taken_object : Session → ℕ → Session
taken_object t counter = record t { replay = (accept counter t.replay).0 }

-- The client after a fresh datagram, and after one that comes again.
module _ (ref : ℕ) (t : Session) (counter : ℕ) (out opened : Bytes) (c : Client) where
  take_opened_fresh :
      (accept counter t.replay).1 ≡ true
      → is_inner (trim_to_ip_length opened) ≡ true
      → length c.plain < 8192
      → (take_opened ref t counter out opened c).plain ≡ c.plain ++ trim_to_ip_length opened ∷ []
  unfolding take_opened deliver
  take_opened_fresh f i r = ground arith

  take_opened_seen :
      (accept counter t.replay).1 ≡ false → (take_opened ref t counter out opened c).plain ≡ c.plain
  unfolding take_opened
  take_opened_seen f = ground arith

  take_opened_object :
      session_at ref (take_opened ref t counter out opened c) ≡ some (taken_object t counter)
  unfolding take_opened deliver
  take_opened_object =
      ground (arith, lookup-insert_self ℕ_discrete ref (taken_object t counter) c.objects)

  take_opened_sessions : (take_opened ref t counter out opened c).sessions ≡ c.sessions
  unfolding take_opened deliver
  take_opened_sessions = ground arith

  find_session-take_opened :
      (index : ℕ)
      → find_session index c ≡ some (ref, t)
      → find_session index (take_opened ref t counter out opened c)
        ≡ some (ref, (taken_object t counter))
  find_session-take_opened index f = ground (arith, take_opened_sessions, take_opened_object)

-- A packet that one client sends reaches the other unchanged: `SendPacket` makes one datagram for it,
-- and `handleTransport` takes the packet out of that datagram, if its session is the peer of the
-- sender's, the counter is new to the session's window, and the channel has room. The same datagram
-- gives nothing when it comes again.
pub handle_transport-send_on :
    (writes : Bytes → Bool) (ref ref' : ℕ) (s t : Session) (log : List ℕ) (raw : Bytes)
    (a b : Client)
    → Channel s t
    → ((out : Bytes) → writes out ≡ true)
    → s.remote_index < 2 ^ 32
    → s.send_counter < 2 ^ 64
    → find_session s.remote_index b ≡ some (ref', t)
    → Reached log t.replay
    → (accept s.send_counter t.replay).1 ≡ true
    → IsExact raw
    → length b.plain < 8192
    → (out : Bytes) × (b' : Client) × (b'' : Client) × ((send_on writes ref s raw a).1 ≡ ok out)
      × (handle_transport out b ≡ ok b')
      × (b'.plain ≡ b.plain ++ raw ∷ [])
      × (handle_transport out b' ≡ ok b'')
      × (b''.plain ≡ b'.plain)
handle_transport-send_on writes ref ref' s t log raw a b ch w i n f log_reached fresh exact room =
    let nonce = counter_nonce s.send_counter in
    let (sealed, e, l) = ch.seals nonce (pad16 raw) (length-counter_nonce s.send_counter) in
    let sent = ap (λ x. x.seal nonce (pad16 raw) []) ch.same ∙ e in
    let out = transport s.remote_index s.send_counter sealed in
    let (index, counter, rest, size) = transport_reads s.remote_index s.send_counter sealed i n in
    let opened : t.recv.open_sealed nonce sealed [] ≡ ok (pad16 raw) =
      ch.sound.opens_sealed nonce (pad16 raw) [] sealed e in
    let trimmed : trim_to_ip_length (pad16 raw) ≡ raw = (trim_to_ip_length-pad16 raw exact).2 in
    let b1 = take_opened ref' t s.send_counter out (pad16 raw) b in
    let t1 : Session = taken_object t s.send_counter in
    let again : (accept s.send_counter (accept s.send_counter t.replay).0).1 ≡ false =
      accept_once s.send_counter (s.send_counter ∷ log) _ (taken s.send_counter log_reached fresh)
        (inl refl) in
    let long : 32 ≤ length out = omega (arith, size, l) in
    (
      out,
      b1,
      take_opened ref' t1 s.send_counter out (pad16 raw) b1,
      send_on_ok writes ref s raw sealed a sent (w out),
      handle_transport_opened out sealed s.remote_index s.send_counter ref' t (pad16 raw) b index
          counter rest long f opened,
      take_opened_fresh ref' t s.send_counter out (pad16 raw) b fresh
            (ap is_inner trimmed ∙ is_inner-IsExact raw exact) room
          ∙ ap (λ (x : Bytes). b.plain ++ x ∷ []) trimmed,
      handle_transport_opened out sealed s.remote_index s.send_counter ref' t1 (pad16 raw) b1 index
          counter rest long
          (find_session-take_opened ref' t s.send_counter out (pad16 raw) b s.remote_index f)
          opened,
      take_opened_seen ref' t1 s.send_counter out (pad16 raw) b1 again,
    )

-- What a datagram that is not accepted leaves: everything but the counters of the diagnostics.
abbrev pub Untouched : Client → Client → Type 0
Untouched b b' = b' ≡ record b { counters = b'.counters }

-- The datagram is one that the peer's cipher made, for the session and the counter that it names.
abbrev pub IsSealed : Bytes → Client → Type 0
IsSealed raw b =
    (ref : ℕ) × (t : Session) × (opened : Bytes) × (find_session (le_number 4 raw 4) b
      ≡ some (ref, t))
    × (t.recv.seal (counter_nonce (le_number 8 raw 8)) opened [] ≡ ok (drop 16 raw))

handle_transport_other :
    (raw : Bytes) (b b' : Client)
    → (find_session (le_number 4 raw 4) b ≡ none) ⊎ (length raw < 32)
    → handle_transport raw b ≡ ok b'
    → Untouched b b'
unfolding handle_transport
handle_transport_other raw b b' (inl e) h = ground arith
handle_transport_other raw b b' (inr e) h = ground arith

handle_transport_refused :
    (raw : Bytes) (ref : ℕ) (t : Session) (b b' : Client) (e : Error)
    → find_session (le_number 4 raw 4) b ≡ some (ref, t)
    → t.recv.open_sealed (counter_nonce (le_number 8 raw 8)) (drop 16 raw) [] ≡ err e
    → handle_transport raw b ≡ ok b'
    → Untouched b b'
unfolding handle_transport
handle_transport_refused raw ref t b b' e f o h = ground arith

handle_transport_broken :
    (raw : Bytes) (ref : ℕ) (t : Session) (b b' : Client)
    → find_session (le_number 4 raw 4) b ≡ some (ref, t)
    → 32 ≤ length raw
    → (t.recv.open_sealed (counter_nonce (le_number 8 raw 8)) (drop 16 raw) [] ≡ panic)
      ⊎ (t.recv.open_sealed (counter_nonce (le_number 8 raw 8)) (drop 16 raw) [] ≡ out_of_fuel)
    → ¬ (handle_transport raw b ≡ ok b')
unfolding handle_transport
handle_transport_broken raw ref t b b' f l (inl o) h = ground arith
handle_transport_broken raw ref t b b' f l (inr o) h = ground arith

-- A datagram that no session's cipher has sealed changes nothing of the client but its counters: no
-- packet is passed on, no window moves and no session comes or goes.
pub handle_transport_authentic :
    (raw : Bytes) (b b' : Client)
    → ((index ref : ℕ) (t : Session) → find_session index b ≡ some (ref, t) → IsSound t.recv)
    → handle_transport raw b ≡ ok b'
    → Untouched b b' ⊎ IsSealed raw b
handle_transport_authentic raw b b' sound h = elim (dec_lt (length raw) 32) [
  | yes short ↦ inl (handle_transport_other raw b b' (inr short) h)
  | no long ↦ elim (Option-cases (find_session (le_number 4 raw 4) b)) [
    | inl e ↦ inl (handle_transport_other raw b b' (inl e) h)
    | inr ((ref, t), f) ↦ go ref t f (omega arith) (attempt t) refl
  ]
]
  where
    nonce : Bytes
    nonce = counter_nonce (le_number 8 raw 8)

    attempt : Session → Outcome Error Bytes
    attempt t = t.recv.open_sealed nonce (drop 16 raw) []

    go :
        (ref : ℕ) (t : Session)
        → find_session (le_number 4 raw 4) b ≡ some (ref, t)
        → 32 ≤ length raw
        → (o : Outcome Error Bytes) → attempt t ≡ o
        → Untouched b b' ⊎ IsSealed raw b
    go ref t f long (ok opened) o = inr (
      ref,
      t,
      opened,
      f,
      (sound (le_number 4 raw 4) ref t f).sealed_opens nonce (drop 16 raw) [] opened o,
    )
    go ref t f long (err e) o = inl (handle_transport_refused raw ref t b b' e f o h)
    go ref t f long panic o = absurd (handle_transport_broken raw ref t b b' f long (inl o) h)
    go ref t f long out_of_fuel o = absurd (handle_transport_broken raw ref t b b' f long (inr o) h)
