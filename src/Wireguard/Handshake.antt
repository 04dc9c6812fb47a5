-- ===== src/Wireguard/Handshake.antt =====
-- internal/wireguard/client.go: the handshake of the initiator. The curve X25519 of crypto/ecdh, the
-- random bytes and the timestamp are arguments; so is the constructor of the ciphers, since the
-- operating system's stand beside those of the repository.
use split_wire.Prelude.{
  Bool, Bytes, Option, Outcome, [], err, fail_if, false, if◌then◌else◌, length, none, not, ok,
  out_of_fuel, panic, range, replicate, some, take, true, ℕ, ◌++◌, ◌==◌, ◌>>=◌, ◌>>◌, ◌∷◌,
}
use split_wire.Cryptox.Aead.{Aead, Error, xchacha}
use split_wire.Cryptox.Blake2s.{blake2s256, blake2s128_keyed, kdf1, kdf2, kdf3}
use split_wire.Wireguard.{new_replay}
use split_wire.Wireguard.Client.{Client, Session, le_number}
use split_wire.Cryptox.Words.{le_bytes}
use split_wire.Text.{text_eq}

-- What the client uses of crypto/ecdh: the public key of a private one, and the shared secret, which
-- there is none of where it would be zero. A public key has 32 bytes.
pub record Curve : Type 0 where
  pub public : Bytes → Bytes
  pub dh : Bytes → Bytes → Option Bytes

pub record Suite : Type 0 where
  pub curve : Curve
  pub new_cipher : Bytes → Option Aead

-- The keys of a `Client`.
pub record Identity : Type 0 where
  pub priv : Bytes
  pub public : Bytes
  pub peer_pub : Bytes
  pub psk : Bytes
  pub mac1_key : Bytes
  pub cookie_key : Bytes

-- `mac1----` and `cookie--`.
abbrev pub mac1_label : Bytes
mac1_label = 109 ∷ 97 ∷ 99 ∷ 49 ∷ 45 ∷ 45 ∷ 45 ∷ 45 ∷ []

abbrev pub cookie_label : Bytes
cookie_label = 99 ∷ 111 ∷ 111 ∷ 107 ∷ 105 ∷ 101 ∷ 45 ∷ 45 ∷ []

-- The keys that `New` sets.
unfoldable pub identity : Curve → Bytes → Bytes → Bytes → Identity
identity curve priv peer_pub psk = record {
  priv = priv;
  public = curve.public priv;
  peer_pub = peer_pub;
  psk = psk;
  mac1_key = blake2s256 (mac1_label ++ peer_pub);
  cookie_key = blake2s256 (cookie_label ++ peer_pub);
}

pub data HandshakeError : Type 0 where
  no_secret no_cipher_made not_sealed bad_mac1 bad_authenticator not_written timed_out cancelled
        closed :
      HandshakeError

pub record InitState : Type 0 where
  pub sender : ℕ
  pub epriv : Bytes
  pub chain : Bytes
  pub hash : Bytes
  pub mac1 : Bytes

abbrev pub zero_nonce : Bytes
zero_nonce = replicate 12 0

-- `Noise_IKpsk2_25519_ChaChaPoly_BLAKE2s`.
abbrev pub construction : Bytes
construction =
    78 ∷ 111 ∷ 105 ∷ 115 ∷ 101 ∷ 95 ∷ 73 ∷ 75 ∷ 112 ∷ 115 ∷ 107 ∷ 50 ∷ 95 ∷ 50 ∷ 53 ∷ 53 ∷ 49 ∷ 57
    ∷ 95 ∷ 67 ∷ 104 ∷ 97 ∷ 67 ∷ 104 ∷ 97 ∷ 80 ∷ 111 ∷ 108 ∷ 121 ∷ 95 ∷ 66 ∷ 76 ∷ 65 ∷ 75 ∷ 69 ∷ 50
    ∷ 115 ∷ []

-- `WireGuard v1 zx2c4 Jason@zx2c4.com`.
abbrev pub identifier : Bytes
identifier =
    87 ∷ 105 ∷ 114 ∷ 101 ∷ 71 ∷ 117 ∷ 97 ∷ 114 ∷ 100 ∷ 32 ∷ 118 ∷ 49 ∷ 32 ∷ 122 ∷ 120 ∷ 50 ∷ 99 ∷ 52
    ∷ 32 ∷ 74 ∷ 97 ∷ 115 ∷ 111 ∷ 110 ∷ 64 ∷ 122 ∷ 120 ∷ 50 ∷ 99 ∷ 52 ∷ 46 ∷ 99 ∷ 111 ∷ 109 ∷ []

unfoldable pub mix_hash : Bytes → Bytes → Bytes
mix_hash hash text = blake2s256 (hash ++ text)

abbrev pub secret : Option Bytes → Outcome HandshakeError Bytes
secret none = err no_secret
secret (some s) = ok s

abbrev pub constructed : Option Aead → Outcome HandshakeError Aead
constructed none = err no_cipher_made
constructed (some c) = ok c

abbrev pub sealed : Outcome Error Bytes → Outcome HandshakeError Bytes
sealed (ok ct) = ok ct
sealed (err e) = err not_sealed
sealed panic = panic
sealed out_of_fuel = out_of_fuel

-- The chaining key, the hash of the transcript, and a text of the message.
pub record Mixed : Type 0 where
  pub chain : Bytes
  pub hash : Bytes
  pub text : Bytes

module _ (suite : Suite) where
  -- The shared secret goes into the chaining key; the text is sealed under the key that comes with it.
  unfoldable pub seal_step : Bytes → Bytes → Option Bytes → Bytes → Outcome HandshakeError Mixed
  seal_step chain hash shared text = do
    s ← secret shared
    let (chain', key) = kdf2 chain s
    c ← constructed (suite.new_cipher key)
    ct ← sealed (c.seal zero_nonce text hash)
    ok (record { chain = chain'; hash = mix_hash hash ct; text = ct })

  -- The hash before the first key, for the public key of the responder.
  abbrev pub first_hash : Bytes → Bytes
  first_hash peer_pub = mix_hash (mix_hash (blake2s256 construction) identifier) peer_pub

  -- A random index of zero is replaced.
  abbrev pub sender_index : ℕ → ℕ
  sender_index n = if n == 0 then 1 else n

  abbrev pub initiation_body : ℕ → Bytes → Bytes → Bytes → Bytes
  initiation_body sender epub static stamp =
      le_bytes 4 1 ++ (le_bytes 4 sender ++ (epub ++ (static ++ stamp)))

  -- The second MAC is there while the cookie is less than two minutes old, and zero otherwise.
  abbrev pub mac2 : Option Bytes → Bytes → Bytes
  mac2 none msg = replicate 16 0
  mac2 (some cookie) msg = blake2s128_keyed cookie msg

  -- `makeInitiation`. The parts of the message have the sizes of the places that they are copied to.
  unfoldable pub make_initiation :
      Identity → Bytes → ℕ → Bytes → Option Bytes → Outcome HandshakeError (InitState × Bytes)
  make_initiation me epriv index stamp cookie = do
    let epub = suite.curve.public epriv
    let chain = kdf1 (blake2s256 construction) epub
    let hash = mix_hash (first_hash me.peer_pub) epub
    static ← seal_step chain hash (suite.curve.dh epriv me.peer_pub) me.public
    time ← seal_step static.chain static.hash (suite.curve.dh me.priv me.peer_pub) stamp
    let sender = sender_index index
    let body = initiation_body sender epub static.text time.text
    let mac1 = blake2s128_keyed me.mac1_key body
    ok (
      record { sender = sender; epriv = epriv; chain = time.chain; hash = time.hash; mac1 = mac1 },
      (body ++ mac1) ++ mac2 cookie (body ++ mac1),
    )

  -- The empty text of a response is opened under a key that the secrets and the shared key give.
  unfoldable pub response_key : Bytes → Bytes → Bytes → Bytes × Bytes × Bytes
  response_key chain shared psk = kdf3 (kdf1 chain shared) psk

  abbrev pub authentic : Outcome Error Bytes → Outcome HandshakeError (Unit {0})
  authentic (ok plain) = fail_if (not (length plain == 0)) bad_authenticator
  authentic (err e) = err bad_authenticator
  authentic panic = panic
  authentic out_of_fuel = out_of_fuel

  -- `consumeResponse`, on a message of 92 bytes, at the time `now`.
  unfoldable pub consume_response :
      Identity → InitState → Bytes → ℕ → Outcome HandshakeError Session
  consume_response me st msg now = do
    let k = blake2s256 (mac1_label ++ me.public)
    fail_if (not (text_eq (blake2s128_keyed k (take 60 msg)) (range msg 60 76))) bad_mac1
    let rep = range msg 12 44
    let chain = kdf1 st.chain rep
    let hash = mix_hash st.hash rep
    ee ← secret (suite.curve.dh st.epriv rep)
    se ← secret (suite.curve.dh me.priv rep)
    let (chain', tau, key) = response_key (kdf1 chain ee) se me.psk
    c ← constructed (suite.new_cipher key)
    authentic (c.open_sealed zero_nonce (range msg 44 60) (mix_hash hash tau))
    let (send_key, recv_key) = kdf2 chain' []
    send ← constructed (suite.new_cipher send_key)
    recv ← constructed (suite.new_cipher recv_key)
    ok (record {
      local_index = st.sender;
      remote_index = le_number 4 msg 4;
      send = send;
      recv = recv;
      send_counter = 0;
      replay = new_replay;
      created = now;
      retired_at = none;
    })

  -- `consumeCookie`, on a message of 64 bytes.
  unfoldable pub consume_cookie :
      Identity → InitState → Bytes → ℕ → Client → Outcome Error (Client × Bool)
  consume_cookie me st msg now c =
      elim ((xchacha suite.new_cipher me.cookie_key).open_sealed (range msg 8 32) (range msg 32 64)
        st.mac1) [
          | ok plain ↦
              if length plain == 16
              then ok (record c { cookie = plain; cookie_at = some now }, true)
              else ok (c, false)
          | err e ↦ ok (c, false)
          | panic ↦ panic
          | out_of_fuel ↦ out_of_fuel
        ]
