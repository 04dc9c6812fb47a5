-- ===== src/Wireguard/Agreement/Steps.antt =====
-- internal/wireguard/client.go: the steps of the handshake, each of them with what the other end makes
-- of it.
use split_wire.Cryptox.Digest.{IsDigest, blake2s-IsDigest}
use split_wire.Cryptox.Blake2s.{
  HashError, blake2s, as_array, blake2s128_keyed, kdf2, blake2s256, g, kdf1, kdf3,
}
use split_wire.Wireguard.{new_replay}
use split_wire.Wireguard.Handshake.{
  mac2, response_key, sender_index, initiation_body, mac1_label, construction, identifier, Identity,
  InitState, Mixed, Suite, consume_response, make_initiation, mix_hash, seal_step, zero_nonce,
}
use split_wire.Prelude.{
  Bytes, Option, Outcome, [], arith, err, length, none, ok, out_of_fuel, panic, range, refl,
  replicate, some, take, true, ℕ, ◌++◌, ◌+◌, ◌≡◌,
}
use split_wire.Cryptox.Sealing.{IsSound, text_eq_same}
use split_wire.Wireguard.Responder.{open_step, respond, is_initiation}
use split_wire.Cryptox.Words.{le_bytes}
use split_wire.Wireguard.Client.{le_number}
use split_wire.Cryptox.Aead.{Aead}

-- What the handshake relies on: the size of public keys, that both ends compute the same secret, and
-- ciphers that open what they have sealed.
pub record Laws (suite : Suite) : Type 0 where
  pub length_public : (a : Bytes) → length (suite.curve.public a) ≡ 32
  pub commutes :
      (a b : Bytes)
      → suite.curve.dh a (suite.curve.public b) ≡ suite.curve.dh b (suite.curve.public a)
  pub cipher : Bytes → Aead
  pub made : (key : Bytes) → suite.new_cipher key ≡ some (cipher key)
  pub sound : (key : Bytes) → IsSound (cipher key)
  pub seals :
      (key nonce pt aad : Bytes)
      → length nonce ≡ 12
      → (ct : Bytes) × ((cipher key).seal nonce pt aad ≡ ok ct) × (length ct ≡ length pt + 16)

-- What one end seals in a step the other opens, and both go on with the same keys.
abbrev pub Sealed : Suite → Bytes → Bytes → Bytes → Bytes → Type 0
Sealed suite chain hash s text =
    (m : Mixed) × (seal_step suite chain hash (some s) text ≡ ok m)
    × (length m.text ≡ length text + 16)
    × (open_step suite chain hash (some s) m.text ≡ some (text, m.chain, m.hash))

module _ (suite : Suite) (laws : Laws suite) where
  seal_step_eq :
      (chain hash s text ct : Bytes)
      → (laws.cipher (kdf2 chain s).1).seal zero_nonce text hash ≡ ok ct
      → seal_step suite chain hash (some s) text
        ≡ ok (record { chain = (kdf2 chain s).0; hash = mix_hash hash ct; text = ct })
  unfolding seal_step
  seal_step_eq chain hash s text ct e = ground (arith, laws.made (kdf2 chain s).1)

  open_step_eq :
      (chain hash s text ct : Bytes)
      → (laws.cipher (kdf2 chain s).1).open_sealed zero_nonce ct hash ≡ ok text
      → open_step suite chain hash (some s) ct ≡ some (text, (kdf2 chain s).0, mix_hash hash ct)
  unfolding open_step
  open_step_eq chain hash s text ct e = ground (arith, laws.made (kdf2 chain s).1)

  pub open_step-seal_step : (chain hash s text : Bytes) → Sealed suite chain hash s text
  open_step-seal_step chain hash s text =
      let key = (kdf2 chain s).1 in
      let (ct, e, l) = laws.seals key zero_nonce text hash refl in
      (
        record { chain = (kdf2 chain s).0; hash = mix_hash hash ct; text = ct },
        seal_step_eq chain hash s text ct e,
        l,
        open_step_eq chain hash s text ct ((laws.sound key).opens_sealed zero_nonce text hash ct e),
      )

pub length-blake2s128_keyed : (key msg : Bytes) → length (blake2s128_keyed key msg) ≡ 16
unfolding blake2s128_keyed
length-blake2s128_keyed key msg = go (blake2s msg key 16) (blake2s-IsDigest msg key 16)
  where
    go : (o : Outcome HashError Bytes) → IsDigest (length key) 16 o → length (as_array 16 o) ≡ 16
    go (ok x) h = h.3
    go (err e) h = refl
    go panic h = refl
    go out_of_fuel h = refl

abbrev pub start_chain : Bytes → Bytes
start_chain epub = kdf1 (blake2s256 construction) epub

abbrev pub start_hash : Bytes → Bytes → Bytes
start_hash peer_pub epub =
    mix_hash (mix_hash (mix_hash (blake2s256 construction) identifier) peer_pub) epub

module _ (suite : Suite) where
  pub make_initiation_eq :
      (me : Identity) (epriv stamp : Bytes) (index : ℕ) (cookie : Option Bytes) (m1 m2 : Mixed)
      → seal_step suite
          (start_chain (suite.curve.public epriv))
          (start_hash me.peer_pub (suite.curve.public epriv))
          (suite.curve.dh epriv me.peer_pub)
          me.public
        ≡ ok m1
      → seal_step suite m1.chain m1.hash (suite.curve.dh me.priv me.peer_pub) stamp ≡ ok m2
      → (let body =
            initiation_body suite
              (sender_index suite index)
              (suite.curve.public epriv)
              m1.text
              m2.text in
          let mac1 = blake2s128_keyed me.mac1_key body in
          make_initiation suite me epriv index stamp cookie
          ≡ ok (
            record {
              sender = sender_index suite index;
              epriv = epriv;
              chain = m2.chain;
              hash = m2.hash;
              mac1 = mac1;
            },
            (body ++ mac1) ++ mac2 suite cookie (body ++ mac1),
          ))
  unfolding make_initiation
  make_initiation_eq me epriv stamp index cookie m1 m2 e f = rw (e, f) refl

  -- The end of the handshake, as the responder computes it.
  abbrev pub last_keys : Bytes → Bytes → Bytes → Bytes → Bytes → Bytes × Bytes × Bytes
  last_keys chain epub ee se psk = kdf3 (kdf1 (kdf1 (kdf1 chain epub) ee) se) psk

  pub respond_eq :
      (c : Aead) (priv psk epriv : Bytes) (index : ℕ) (msg peer_epub ct1 ct2 : Bytes)
      (static chain1 hash1 stamp chain2 hash2 ee se empty : Bytes)
      → is_initiation suite (suite.curve.public priv) msg ≡ true
      → range msg 8 40 ≡ peer_epub
      → range msg 40 88 ≡ ct1
      → range msg 88 116 ≡ ct2
      → open_step suite
          (start_chain peer_epub)
          (start_hash (suite.curve.public priv) peer_epub)
          (suite.curve.dh priv peer_epub)
          ct1
        ≡ some (static, chain1, hash1)
      → open_step suite chain1 hash1 (suite.curve.dh priv static) ct2 ≡ some (stamp, chain2, hash2)
      → suite.curve.dh epriv peer_epub ≡ some ee
      → suite.curve.dh epriv static ≡ some se
      → (let epub = suite.curve.public epriv in
          let keys = last_keys chain2 epub ee se psk in suite.new_cipher keys.2 ≡ some c)
      → (let epub = suite.curve.public epriv in
          let keys = last_keys chain2 epub ee se psk in
          c.seal zero_nonce [] (mix_hash (mix_hash hash2 epub) keys.1) ≡ ok empty)
      → (let epub = suite.curve.public epriv in
          let keys = last_keys chain2 epub ee se psk in
          let body =
            le_bytes 4 2
            ++ (le_bytes 4 index ++ (le_bytes 4 (le_number 4 msg 4) ++ (epub ++ empty))) in
          let mac1 = blake2s128_keyed (blake2s256 (mac1_label ++ static)) body in
          respond suite priv psk epriv index msg
          ≡ some (record {
            response = (body ++ mac1) ++ replicate 16 0;
            recv_key = (kdf2 keys.0 []).0;
            send_key = (kdf2 keys.0 []).1;
            peer_index = le_number 4 msg 4;
            peer_pub = static;
            stamp = stamp;
          }))
  unfolding respond
  respond_eq cipher priv psk epriv index msg pe ct1 ct2 static c1 h1 stamp c2 h2 ee se empty i a b c
        d e f g m h =
      rw (i, a, b, c, d, e, f, g, m, h) refl

  pub consume_response_eq :
      (c send recv : Aead) (me : Identity) (st : InitState) (msg : Bytes) (now : ℕ)
      (body rep empty ee se : Bytes)
      → take 60 msg ≡ body
      → range msg 60 76 ≡ blake2s128_keyed (blake2s256 (mac1_label ++ me.public)) body
      → range msg 12 44 ≡ rep
      → range msg 44 60 ≡ empty
      → suite.curve.dh st.epriv rep ≡ some ee
      → suite.curve.dh me.priv rep ≡ some se
      → (let keys = last_keys st.chain rep ee se me.psk in
          c.open_sealed zero_nonce empty (mix_hash (mix_hash st.hash rep) keys.1) ≡ ok [])
      → (let keys = last_keys st.chain rep ee se me.psk in
          (suite.new_cipher keys.2 ≡ some c)
          × (suite.new_cipher (kdf2 keys.0 []).0 ≡ some send)
          × (suite.new_cipher (kdf2 keys.0 []).1 ≡ some recv))
      → (let keys = last_keys st.chain rep ee se me.psk in
          consume_response suite me st msg now
          ≡ ok (record {
            local_index = st.sender;
            remote_index = le_number 4 msg 4;
            send = send;
            recv = recv;
            send_counter = 0;
            replay = new_replay;
            created = now;
            retired_at = none;
          }))
  unfolding consume_response response_key
  consume_response_eq cipher send recv me st msg now body rep empty ee se a b c d e f g
        (m1, m2, m3) =
      rw
        (
          a,
          b,
          c,
          d,
          e,
          f,
          text_eq_same (blake2s128_keyed (blake2s256 (mac1_label ++ me.public)) body),
          m1,
          g,
          m2,
          m3,
        )
        refl
