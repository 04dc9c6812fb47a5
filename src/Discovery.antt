-- ===== src/Discovery.antt =====
-- internal/browserdisc/discovery.go: the names that TLS hellos of a browser show, and the short block of
-- QUIC to an unknown address. A method is one step under its lock; times are in seconds.
pub mod Quic
pub mod Buffers
use split_wire.Prelude.{
  Bool, Bytes, Dict, Option, Outcome, [], delete, drop, err, false, if◌then◌else◌, insert, leb,
  length, lookup, ltb, none, not, ok, out_of_fuel, panic, retain, some, true, u32, ℕ, ◌*◌, ◌++◌,
  ◌+◌, ◌-◌, ◌==◌,
}
use split_wire.Flow.{Key, Key-discrete}
use split_wire.Packet.Tcp.{parse_tcp_info}
use split_wire.Hello.{server_name}
use split_wire.Ip.{Addr, Addr-discrete, unmap}

pub data TlsResult : Type 0 where
  tls_need_more tls_client_hello tls_not_client_hello : TlsResult

pub record TlsState : Type 0 where
  pub buf : Bytes
  pub next_seq : ℕ
  pub set_seq : Bool
  pub expires : ℕ
  pub done : Bool
  pub result : TlsResult
  pub name : Bytes

pub record QuicState : Type 0 where
  pub block_until : ℕ
  pub cool_until : ℕ

pub record Discovery : Type 0 where
  pub tls : Dict Key TlsState
  pub quic : Dict Addr QuicState

abbrev pub new_discovery : Discovery
new_discovery = record { tls = []; quic = [] }

abbrev pub find_tls : Key → Dict Key TlsState → Option TlsState
find_tls = lookup Key-discrete

abbrev pub find_quic : Addr → Dict Addr QuicState → Option QuicState
find_quic = lookup Addr-discrete

abbrev pub fresh_state : ℕ → TlsState
fresh_state now = record {
  buf = [];
  next_seq = 0;
  set_seq = false;
  expires = now + 30;
  done = false;
  result = tls_need_more;
  name = [];
}

-- The state of a flow at the time `now`.
abbrev pub current : ℕ → Option TlsState → TlsState
current now none = fresh_state now
current now (some s) = if ltb s.expires now then fresh_state now else s

-- What `FeedTLS` returns beside the state; it has no error of its own.
abbrev pub FeedAnswer : Type 0
FeedAnswer = Outcome (Unit {0}) (Bytes × TlsResult)

abbrev pub need_more : FeedAnswer
need_more = ok ([], tls_need_more)

-- The first sequence number of a flow is the one that is expected.
abbrev pub expecting : ℕ → TlsState → TlsState
expecting seq s = if s.set_seq then s else record s { next_seq = seq; set_seq = true }

-- The state after a gap in the sequence numbers.
abbrev pub realign : ℕ → TlsState → TlsState
realign seq s = if seq == s.next_seq then s else record s { buf = []; next_seq = seq }

module _ (lower : Bytes → Bytes) where
  -- How the hello in the buffer reads: no decision yet, not a hello, or its name.
  unfoldable pub conclude_hello : TlsState → TlsState × FeedAnswer
  conclude_hello s = elim (server_name lower s.buf) [
    | ok (name, true) ↦ (
      record s { done = true; result = tls_client_hello; name = name },
      ok (name, tls_client_hello),
    )
    | ok (name, false) ↦ (s, need_more)
    | err e ↦
        (record s { done = true; result = tls_not_client_hello }, ok ([], tls_not_client_hello))
    | panic ↦ (s, panic)
    | out_of_fuel ↦ (s, out_of_fuel)
  ]

  -- `FeedTLS` from the limit of the buffer on.
  unfoldable pub take_payload : Bytes → TlsState → TlsState × FeedAnswer
  take_payload payload s =
      if ltb (64 * 1024) (length s.buf + length payload)
      then (record s { done = true; result = tls_not_client_hello }, ok ([], tls_not_client_hello))
      else conclude_hello
          (record s { buf = s.buf ++ payload; next_seq = u32 (s.next_seq + u32 (length payload)) })

  -- `FeedTLS` for the state of a flow that has no answer yet.
  unfoldable pub feed_state : ℕ → Bytes → TlsState → TlsState × FeedAnswer
  feed_state seq payload s0 =
      let s = expecting seq s0 in
      if ltb seq s.next_seq
      then (let over = s.next_seq - seq in
          if leb (length payload) over then (s, need_more) else take_payload (drop over payload) s)
      else take_payload payload (realign seq s)

  -- `FeedTLS`.
  unfoldable pub feed_tls : Key → Bytes → ℕ → Discovery → Discovery × FeedAnswer
  feed_tls k raw now d = elim (parse_tcp_info raw) [
    | ok (p, ti) ↦
        if length ti.payload == 0
        then (d, need_more)
        else (let s = current now (find_tls k d.tls) in
            let (s', answer) =
              if s.done then (s, ok (s.name, s.result)) else feed_state ti.seq ti.payload s in
            (record d { tls = insert Key-discrete k s' d.tls }, answer))
    | err e ↦ (d, need_more)
    | panic ↦ (d, panic)
    | out_of_fuel ↦ (d, out_of_fuel)
  ]

unfoldable pub delete_flow_state : Key → Discovery → Discovery
delete_flow_state k d = record d { tls = delete Key-discrete k d.tls }

-- `SuppressUnknownQUIC`.
unfoldable pub suppress_unknown_quic : Addr → ℕ → Discovery → Discovery × Bool
suppress_unknown_quic ip now d =
    let a = unmap ip in
    let block : Discovery = record d {
      quic =
          insert Addr-discrete a (record { block_until = now + 4; cool_until = now + 600 }) d.quic;
    } in
    elim (find_quic a d.quic) [
      | none ↦ (block, true)
      | some s ↦ if ltb s.cool_until now then (block, true) else (d, ltb now s.block_until)
    ]

unfoldable pub sweep_discovery : ℕ → Discovery → Discovery
sweep_discovery now d = record {
  tls = retain Key-discrete (λ s. not (ltb s.expires now)) d.tls;
  quic = retain Addr-discrete (λ s. not (ltb s.cool_until now)) d.quic;
}
