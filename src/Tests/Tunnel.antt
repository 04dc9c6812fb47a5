-- ===== src/Tests/Tunnel.antt =====
-- internal/wireguard/client.go: two ends of a tunnel, with the ciphers of internal/cryptox and a group
-- whose secrets are sums.
use split_wire.Wireguard.Sessions.{Inv, Life-Inv, reaped, installed, created}
use split_wire.Wireguard.Client.{
  install_session, session_at, reap, Client, Session, find_session, handle_transport, le_number,
  new_client, send_on, transport,
}
use split_wire.Prelude.{
  Bytes, [], ap, arith, byte_at, inl, insert, lookup, none, ok, refl, replicate, some, subst, true,
  ℕ, ℕ_discrete, ◌+◌, ◌∷◌, ◌≡◌, ◌⊎◌,
}
use split_wire.Wireguard.Agreement.Steps.{Laws}
use split_wire.Cryptox.Aead.{pure_aead, open_sealed, poly1305_big}
use split_wire.Cryptox.Sealing.{pure_aead-IsSound, open_sealed-seal, IsSound}
use split_wire.Wireguard.{new_replay, accept}
use split_wire.Wireguard.Window.{created as opened}
use split_wire.Wireguard.Transport.{
  Channel, handle_transport-send_on, IsSealed, Untouched, handle_transport_authentic,
}
use split_wire.Wireguard.Handshake.{
  Curve, Suite, InitState, identity, make_initiation, consume_response,
}
use split_wire.Wireguard.Responder.{Answered, respond}
use split_wire.Wireguard.Agreement.{consume_response-respond}
use split_wire.Tests.Packets.{client_packet}
use split_wire.Cryptox.Chacha.{cha_cha_block}
use split_wire.Text.{text_eq}

abbrev sums : Curve
sums = record {
  public = λ a. replicate 32 (byte_at a 0);
  dh = λ a p. some (replicate 32 (byte_at a 0 + byte_at p 0));
}

abbrev suite : Suite
suite = record { curve = sums; new_cipher = λ key. some (pure_aead key) }

suite-Laws : Laws suite
suite-Laws = record {
  length_public = λ a. refl;
  commutes = λ a b. ap (λ n. some (replicate 32 n)) (omega arith);
  cipher = pure_aead;
  made = λ key. refl;
  sound = pure_aead-IsSound;
  seals = λ key nonce pt aad l.
      let (ct, e, size, opens) = open_sealed-seal key nonce pt aad l in (ct, e, size);
}

abbrev priv : Bytes
priv = replicate 32 3

abbrev rpriv : Bytes
rpriv = replicate 32 4

abbrev epriv : Bytes
epriv = replicate 32 5

abbrev repriv : Bytes
repriv = replicate 32 6

abbrev psk : Bytes
psk = replicate 32 0

abbrev stamp : Bytes
stamp = replicate 12 1

consume_response-respond_example :
    (let me = identity sums priv (sums.public rpriv) psk in
      (st : InitState) × (msg : Bytes) × (a : Answered) × (s : Session) × (make_initiation suite me
          epriv 70 stamp none
        ≡ ok (st, msg))
      × (respond suite rpriv psk repriv 80 msg ≡ some a)
      × (a.peer_pub ≡ sums.public priv)
      × (a.stamp ≡ stamp)
      × (consume_response suite me st a.response 9 ≡ ok s)
      × (some (pure_aead a.recv_key) ≡ some s.send)
      × (some (pure_aead a.send_key) ≡ some s.recv)
      × (s.local_index ≡ a.peer_index)
      × (s.remote_index ≡ 80))
consume_response-respond_example =
    consume_response-respond suite suite-Laws priv rpriv psk epriv repriv stamp (replicate 32 9)
      (replicate 32 7) (replicate 32 11) (replicate 32 9) 70 80 9 none refl (omega arith)
      (omega arith) refl refl refl refl

abbrev near : Session
near = record {
  local_index = 70;
  remote_index = 80;
  send = pure_aead (replicate 32 1);
  recv = pure_aead (replicate 32 2);
  send_counter = 5;
  replay = new_replay;
  created = 0;
  retired_at = none;
}

abbrev far : Session
far = record near {
  local_index = 80;
  remote_index = 70;
  send = pure_aead (replicate 32 2);
  recv = pure_aead (replicate 32 1);
  send_counter = 0;
}

abbrev receiver : Client
receiver = record (new_client 1400) { objects = (1, far) ∷ []; sessions = (80, 1) ∷ [] }

near-Channel : Channel near far
near-Channel = record {
  same = refl;
  sound = pure_aead-IsSound (replicate 32 1);
  seals = λ nonce pt l.
      let (ct, e, size, opens) = open_sealed-seal (replicate 32 1) nonce pt [] l in (ct, e, size);
}

found : find_session 80 receiver ≡ some (1, far)
unfolding lookup ℕ_discrete
found = refl

five : (accept 5 new_replay).1 ≡ true
unfolding accept
five = refl

handle_transport-send_on_example :
    (out : Bytes) × (b' : Client) × (b'' : Client) × ((send_on
        (λ out. true)
        1
        near
        client_packet
        (new_client 1400)).1
      ≡ ok out)
    × (handle_transport out receiver ≡ ok b')
    × (b'.plain ≡ client_packet ∷ [])
    × (handle_transport out b' ≡ ok b'')
    × (b''.plain ≡ b'.plain)
handle_transport-send_on_example =
    handle_transport-send_on (λ out. true) 1 1 near far [] client_packet (new_client 1400) receiver
      near-Channel (λ out. refl) (omega arith) (omega arith) found opened five
      (inl (refl, omega arith, refl)) (omega arith)

-- A datagram with a tag that is none.
abbrev forged : Bytes
forged = transport 80 0 (replicate 16 0)

abbrev undisturbed : Client
undisturbed = record receiver { counters = record receiver.counters { auth_fail = 1 } }

refused : handle_transport forged receiver ≡ ok undisturbed
unfolding handle_transport le_number lookup ℕ_discrete open_sealed cha_cha_block poly1305_big
    text_eq
refused = refl

receiver_ciphers :
    (index ref : ℕ) (t : Session) → find_session index receiver ≡ some (ref, t) → IsSound t.recv
unfolding lookup
receiver_ciphers index ref t e =
    let same : far ≡ t = ground arith in
    subst (λ x. IsSound x.recv) same (pure_aead-IsSound (replicate 32 1))

handle_transport_authentic_example : Untouched receiver undisturbed ⊎ IsSealed forged receiver
handle_transport_authentic_example =
    handle_transport_authentic forged receiver undisturbed receiver_ciphers refused

-- A client that has renewed its session, when the old one goes.
abbrev first_session : Client
first_session = install_session 1 near 100 (new_client 1400)

second_free : session_at 2 first_session ≡ none
unfolding install_session lookup insert ℕ_discrete
second_free = refl

Life-Inv_example : Inv (reap 500 (install_session 2 far 300 first_session))
unfolding lookup
Life-Inv_example =
    Life-Inv (reap 500 (install_session 2 far 300 first_session))
      (reaped 500 (installed 2 far 300 (installed 1 near 100 (created 1400) refl) second_free))
