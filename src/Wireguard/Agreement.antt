-- ===== src/Wireguard/Agreement.antt =====
-- internal/wireguard/client.go: the handshake with a peer that follows the protocol.
pub mod Steps
pub mod Reads
use split_wire.Wireguard.Responder.{is_initiation, Answered, open_step, respond}
use split_wire.Wireguard.Agreement.Reads.{
  initiation_checked, index_read, initiation, initiation_flat, initiation_reads, response,
  response_flat, response_reads,
}
use split_wire.Cryptox.Sealing.{text_eq_same}
use split_wire.Prelude.{
  Bytes, Option, [], ap, arith, length, length-append, none, ok, refl, replicate, some, sym, true,
  ℕ, ◌++◌, ◌<◌, ◌^◌, ◌∙◌, ◌≡◌,
}
use split_wire.Wireguard.Agreement.Steps.{
  Laws, Sealed, open_step-seal_step, length-blake2s128_keyed, start_chain, start_hash,
  make_initiation_eq, last_keys, respond_eq, consume_response_eq,
}
use split_wire.Cryptox.Blake2s.{blake2s128_keyed, kdf2, blake2s256}
use split_wire.Wireguard.{new_replay}
use split_wire.Wireguard.Handshake.{
  mac2, sender_index, initiation_body, mac1_label, Identity, InitState, Suite, consume_response,
  make_initiation, mix_hash, seal_step, zero_nonce, identity,
}
use split_wire.Cryptox.Words.{le_bytes}
use split_wire.Wireguard.Client.{le_number, Session}

module _ (suite : Suite) (laws : Laws suite) (priv rpriv psk epriv repriv stamp es ss ee se : Bytes)
    (index rindex now : ℕ) (cookie : Option Bytes) (lt : length stamp ≡ 12) (li : index < 2 ^ 32)
    (lr : rindex < 2 ^ 32) (hes : suite.curve.dh epriv (suite.curve.public rpriv) ≡ some es)
    (hss : suite.curve.dh priv (suite.curve.public rpriv) ≡ some ss)
    (hee : suite.curve.dh epriv (suite.curve.public repriv) ≡ some ee)
    (hse : suite.curve.dh priv (suite.curve.public repriv) ≡ some se) where
  abbrev me : Identity
  me = identity suite.curve priv (suite.curve.public rpriv) psk

  -- The parts of the initiation.
  abbrev epub : Bytes
  epub = suite.curve.public epriv

  abbrev sender : ℕ
  sender = sender_index suite index

  abbrev chain0 : Bytes
  chain0 = start_chain epub

  abbrev hash0 : Bytes
  hash0 = start_hash (suite.curve.public rpriv) epub

  abbrev first : Sealed suite chain0 hash0 es (suite.curve.public priv)
  first = open_step-seal_step suite laws chain0 hash0 es (suite.curve.public priv)

  abbrev second : Sealed suite first.0.chain first.0.hash ss stamp
  second = open_step-seal_step suite laws first.0.chain first.0.hash ss stamp

  abbrev body : Bytes
  body = initiation_body suite sender epub first.0.text second.0.text

  abbrev mac1 : Bytes
  mac1 = blake2s128_keyed (blake2s256 (mac1_label ++ suite.curve.public rpriv)) body

  abbrev macs : Bytes
  macs = mac1 ++ mac2 suite cookie (body ++ mac1)

  abbrev msg : Bytes
  msg = initiation sender epub first.0.text second.0.text macs

  abbrev st : InitState
  st = record {
    sender = sender;
    epriv = epriv;
    chain = second.0.chain;
    hash = second.0.hash;
    mac1 = mac1;
  }

  initiated : make_initiation suite me epriv index stamp cookie ≡ ok (st, msg)
  unfolding identity
  initiated =
      make_initiation_eq suite me epriv stamp index cookie first.0 second.0
        (ap (λ o. seal_step suite chain0 hash0 o (suite.curve.public priv)) hes ∙ first.1)
        (ap (λ o. seal_step suite first.0.chain first.0.hash o stamp) hss ∙ second.1)
      ∙ ap (λ (m : Bytes). ok (st, m))
          (initiation_flat suite sender epub first.0.text second.0.text mac1
            (mac2 suite cookie (body ++ mac1)))

  sender_read : le_number 4 msg 4 ≡ sender
  sender_read =
      let small : sender < 2 ^ 32 = ground arith in
      index_read 1 sender (epub ++ (first.0.text ++ (second.0.text ++ macs))) small

  -- The parts of the answer.
  abbrev repub : Bytes
  repub = suite.curve.public repriv

  abbrev keys : Bytes × Bytes × Bytes
  keys = last_keys suite second.0.chain repub ee se psk

  abbrev last_hash : Bytes
  last_hash = mix_hash (mix_hash second.0.hash repub) keys.1

  abbrev proof :
      (ct : Bytes) × ((laws.cipher keys.2).seal zero_nonce [] last_hash ≡ ok ct) × (length ct ≡ 16)
  proof = laws.seals keys.2 zero_nonce [] last_hash refl

  abbrev zeros : Bytes
  zeros = replicate 16 0

  abbrev answer_body : ℕ → Bytes
  answer_body n = le_bytes 4 2 ++ (le_bytes 4 rindex ++ (le_bytes 4 n ++ (repub ++ proof.0)))

  abbrev answer_mac : ℕ → Bytes
  answer_mac n =
      blake2s128_keyed (blake2s256 (mac1_label ++ suite.curve.public priv)) (answer_body n)

  abbrev answer : Bytes
  answer = response rindex sender repub proof.0 (answer_mac sender ++ zeros)

  abbrev answered : Answered
  answered = record {
    response = answer;
    recv_key = (kdf2 keys.0 []).0;
    send_key = (kdf2 keys.0 []).1;
    peer_index = sender;
    peer_pub = suite.curve.public priv;
    stamp = stamp;
  }

  -- What the responder gives for the index that it reads.
  abbrev answered_for : ℕ → Answered
  answered_for n = record answered {
    response = (answer_body n ++ answer_mac n) ++ zeros;
    peer_index = n;
  }

  shown : answered_for sender ≡ answered
  shown =
      ap (λ (b : Bytes). record answered { response = b })
        (response_flat rindex sender repub proof.0 (answer_mac sender) zeros)

  length-mac2 : (cookie' : Option Bytes) (b : Bytes) → length (mac2 suite cookie' b) ≡ 16
  length-mac2 none b = refl
  length-mac2 (some c) b = length-blake2s128_keyed c b

  checked : is_initiation suite (suite.curve.public rpriv) msg ≡ true
  unfolding is_initiation le_number
  checked =
      let size : length body ≡ 116 = omega (
        arith,
        first.2,
        second.2,
        lt,
        laws.length_public epriv,
        laws.length_public priv,
        length-append epub (first.0.text ++ second.0.text),
        length-append first.0.text second.0.text,
      ) in
      let nm = length-blake2s128_keyed (blake2s256 (mac1_label ++ suite.curve.public rpriv)) body in
      let tail = mac2 suite cookie (body ++ mac1) in
      let (front, mac) = initiation_checked body mac1 tail size nm in
      let whole : length ((body ++ mac1) ++ tail) ≡ 148 = omega (
        arith,
        length-append (body ++ mac1) tail,
        length-append body mac1,
        size,
        nm,
        length-mac2 cookie (body ++ mac1),
      ) in
      ap (is_initiation suite (suite.curve.public rpriv))
        (sym (initiation_flat suite sender epub first.0.text second.0.text mac1 tail))
      ∙ rw (front, mac, whole, text_eq_same mac1) refl

  responded : respond suite rpriv psk repriv rindex msg ≡ some answered
  responded =
      let (r1, r2, r3) =
        initiation_reads sender epub first.0.text second.0.text macs (laws.length_public epriv)
          (omega (arith, first.2, laws.length_public priv)) (omega (arith, second.2, lt)) in
      respond_eq suite (laws.cipher keys.2) rpriv psk repriv rindex msg epub first.0.text
        second.0.text (suite.curve.public priv) first.0.chain first.0.hash stamp second.0.chain
        second.0.hash ee se proof.0 checked r1 r2 r3
        (ap (λ o. open_step suite chain0 hash0 o first.0.text) (laws.commutes rpriv epriv ∙ hes)
          ∙ first.3)
        (ap (λ o. open_step suite first.0.chain first.0.hash o second.0.text)
            (laws.commutes rpriv priv ∙ hss)
          ∙ second.3)
        (laws.commutes repriv epriv ∙ hee) (laws.commutes repriv priv ∙ hse) (laws.made keys.2)
        proof.1
      ∙ ap (λ n. some (answered_for n)) sender_read
      ∙ ap some shown

  abbrev session : Session
  session = record {
    local_index = sender;
    remote_index = le_number 4 answer 4;
    send = laws.cipher (kdf2 keys.0 []).0;
    recv = laws.cipher (kdf2 keys.0 []).1;
    send_counter = 0;
    replay = new_replay;
    created = now;
    retired_at = none;
  }

  completed : consume_response suite me st answer now ≡ ok session
  unfolding identity
  completed =
      let (s1, s2, s3, s4) =
        response_reads rindex sender repub proof.0 (answer_mac sender) zeros
          (laws.length_public repriv) proof.2
          (length-blake2s128_keyed (blake2s256 (mac1_label ++ suite.curve.public priv))
            (answer_body sender)) in
      consume_response_eq suite (laws.cipher keys.2) (laws.cipher (kdf2 keys.0 []).0)
        (laws.cipher (kdf2 keys.0 []).1) me st answer now (answer_body sender) repub proof.0 ee se
        s1 s2 s3 s4 hee hse
        ((laws.sound keys.2).opens_sealed zero_nonce [] last_hash proof.0 proof.1)
        (laws.made keys.2, laws.made (kdf2 keys.0 []).0, laws.made (kdf2 keys.0 []).1)

  -- With the responder of the interop test as the peer, which checks the size, the type and the first MAC
  -- of the message, the handshake succeeds, and both ends have the same keys: the peer accepts the
  -- message of `makeInitiation` and learns from it the public key and the timestamp, `consumeResponse`
  -- accepts the peer's answer, and the session sends with the key by which the peer receives, receives
  -- with the key by which it sends, and has both indices. Ciphers can be made for every key and open
  -- what they seal, both ends of the curve get the same secret, and no secret of the curve is zero.
  pub consume_response-respond :
      (init : InitState) × (sent : Bytes) × (a : Answered) × (s : Session) × (make_initiation suite
          (identity suite.curve priv (suite.curve.public rpriv) psk)
          epriv
          index
          stamp
          cookie
        ≡ ok (init, sent))
      × (respond suite rpriv psk repriv rindex sent ≡ some a)
      × (a.peer_pub ≡ suite.curve.public priv)
      × (a.stamp ≡ stamp)
      × (consume_response suite
            (identity suite.curve priv (suite.curve.public rpriv) psk)
            init
            a.response
            now
          ≡ ok s)
      × (suite.new_cipher a.recv_key ≡ some s.send)
      × (suite.new_cipher a.send_key ≡ some s.recv)
      × (s.local_index ≡ a.peer_index)
      × (s.remote_index ≡ rindex)
  consume_response-respond = (
    st,
    msg,
    answered,
    session,
    initiated,
    responded,
    refl,
    refl,
    completed,
    laws.made (kdf2 keys.0 []).0,
    laws.made (kdf2 keys.0 []).1,
    refl,
    index_read 2 rindex (le_bytes 4 sender ++ (repub ++ (proof.0 ++ (answer_mac sender ++ zeros))))
        lr,
  )
