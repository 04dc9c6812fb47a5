-- ===== src/Wireguard/Responder.antt =====
-- tests/wg_interop_responder.py, the other end of the handshake in the repository's test of the client:
-- what a responder does with the message of an initiator, and what it answers. Its private keys, the
-- shared key and its index, which are constants there, are arguments, and a failed assertion or a text
-- that does not open is `none`.
use split_wire.Prelude.{
  Bool, Bytes, Option, Outcome, [], if◌then◌else◌, length, none, not, ok, range, replicate, some,
  take, ℕ, ◌&&◌, ◌++◌, ◌==◌,
}
use split_wire.Cryptox.Aead.{Error}
use split_wire.Cryptox.Blake2s.{blake2s256, blake2s128_keyed, kdf1, kdf2, kdf3}
use split_wire.Wireguard.Client.{le_number}
use split_wire.Wireguard.Handshake.{
  Suite, mac1_label, construction, identifier, zero_nonce, mix_hash,
}
use split_wire.Cryptox.Words.{le_bytes}
use split_wire.Text.{text_eq}

-- The keys that the responder has after its answer, with what it learnt of the initiator.
pub record Answered : Type 0 where
  pub response : Bytes
  pub recv_key : Bytes
  pub send_key : Bytes
  pub peer_index : ℕ
  pub peer_pub : Bytes
  pub stamp : Bytes

abbrev pub accepted : Outcome Error Bytes → Option Bytes
accepted (ok x) = some x
accepted _ = none

infixl 4 ◌>>?◌
abbrev pub ◌>>?◌ : {A B : Type 0} → Option A → (A → Option B) → Option B
none >>? f = none
some a >>? f = f a

module _ (suite : Suite) where
  -- The text sealed under the key of a shared secret, the chaining key and the hash that follow.
  unfoldable pub open_step : Bytes → Bytes → Option Bytes → Bytes → Option (Bytes × Bytes × Bytes)
  open_step chain hash shared ct = shared >>? λ s.
      let (chain', key) = kdf2 chain s in
      suite.new_cipher key >>? λ c.
      accepted (c.open_sealed zero_nonce ct hash) >>? λ text. some (text, chain', mix_hash hash ct)

  -- The size, the type and the first MAC of the message, which is keyed by the public key of the
  -- responder.
  unfoldable pub is_initiation : Bytes → Bytes → Bool
  is_initiation pub_key msg =
      (length msg == 148)
      && (le_number 4 msg 0 == 1)
      && text_eq (blake2s128_keyed (blake2s256 (mac1_label ++ pub_key)) (take 116 msg))
          (range msg 116 132)

  -- `psk` is the key that both share; `epriv` and `index` are random.
  unfoldable pub respond : Bytes → Bytes → Bytes → ℕ → Bytes → Option Answered
  respond priv psk epriv index msg =
      let pub_key = suite.curve.public priv in
      let peer_epub = range msg 8 40 in
      let hash0 = mix_hash (mix_hash (blake2s256 construction) identifier) pub_key in
      let chain0 = kdf1 (blake2s256 construction) peer_epub in
      if not (is_initiation pub_key msg)
      then none
      else open_step chain0 (mix_hash hash0 peer_epub) (suite.curve.dh priv peer_epub)
          (range msg 40 88)
        >>? λ (static, chain1, hash1).
            open_step chain1 hash1 (suite.curve.dh priv static) (range msg 88 116)
            >>? λ (stamp, chain2, hash2). suite.curve.dh epriv peer_epub >>? λ ee.
                suite.curve.dh epriv static >>? λ se.
                let epub = suite.curve.public epriv in
                let (chain3, tau, key) = kdf3 (kdf1 (kdf1 (kdf1 chain2 epub) ee) se) psk in
                suite.new_cipher key >>? λ c.
                accepted (c.seal zero_nonce [] (mix_hash (mix_hash hash2 epub) tau)) >>? λ empty.
                let body =
                  le_bytes 4 2
                  ++ (le_bytes 4 index ++ (le_bytes 4 (le_number 4 msg 4) ++ (epub ++ empty))) in
                let mac1 = blake2s128_keyed (blake2s256 (mac1_label ++ static)) body in
                let (recv_key, send_key) = kdf2 chain3 [] in
                some (record {
                  response = (body ++ mac1) ++ replicate 16 0;
                  recv_key = recv_key;
                  send_key = send_key;
                  peer_index = le_number 4 msg 4;
                  peer_pub = static;
                  stamp = stamp;
                })
