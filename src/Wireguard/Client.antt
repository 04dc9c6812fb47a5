-- ===== src/Wireguard/Client.antt =====
-- internal/wireguard/client.go: the state of a client, its sessions, and the datagrams that carry
-- packets. A method is one step under its locks; times are in seconds. A `*session` is the number of
-- its object in `objects`, so that the map of sessions and `current` share objects. The channel of
-- received packets is the list of what waits in it.
use split_wire.Prelude.{
  Bool, Bytes, Dict, List, Option, Outcome, [], byte_at, drop, err, false, if◌then◌else◌, insert,
  leb, length, lookup, ltb, max, none, not, ok, out_of_fuel, panic, replicate, retain, shr, some,
  suc, true, zero, ℕ, ℕ_discrete, ◌%◌, ◌&&◌, ◌*◌, ◌++◌, ◌+◌, ◌-◌, ◌==◌, ◌^◌, ◌||◌, ◌∷◌,
}
use split_wire.Packet.Rewrite.{pad16, trim_to_ip_length}
use split_wire.Wireguard.{Replay, accept, window}
use split_wire.Cryptox.Aead.{Aead, Error}
use split_wire.Cryptox.Words.{le_bytes}

pub record Session : Type 0 where
  pub local_index : ℕ
  pub remote_index : ℕ
  pub send : Aead
  pub recv : Aead
  pub send_counter : ℕ
  pub replay : Replay
  pub created : ℕ
  pub retired_at : Option ℕ

-- The counters of `Diagnostics`, and those of `Stats`.
pub record Counters : Type 0 where
  pub raw_rx : ℕ
  pub wrong_endpoint : ℕ
  pub short_rx : ℕ
  pub unknown_type : ℕ
  pub no_session : ℕ
  pub auth_fail : ℕ
  pub replay_drop : ℕ
  pub invalid_inner : ℕ
  pub plain_q_high : ℕ
  pub plain_drop : ℕ
  pub transport_rx : ℕ
  pub tx_datagrams : ℕ
  pub tx_errors : ℕ
  pub tx_bytes : ℕ
  pub rx_bytes : ℕ

pub record Client : Type 0 where
  pub mtu : ℕ
  pub objects : Dict ℕ Session
  pub sessions : Dict ℕ ℕ
  pub current : Option ℕ
  pub plain : List Bytes
  pub responses : List Bytes
  pub cookies : List Bytes
  pub cookie : Bytes
  pub cookie_at : Option ℕ
  pub active_path : ℕ
  pub rekeying : Bool
  pub counters : Counters

abbrev pub no_counts : Counters
no_counts = record {
  raw_rx = 0;
  wrong_endpoint = 0;
  short_rx = 0;
  unknown_type = 0;
  no_session = 0;
  auth_fail = 0;
  replay_drop = 0;
  invalid_inner = 0;
  plain_q_high = 0;
  plain_drop = 0;
  transport_rx = 0;
  tx_datagrams = 0;
  tx_errors = 0;
  tx_bytes = 0;
  rx_bytes = 0;
}

abbrev pub new_client : ℕ → Client
new_client mtu = record {
  mtu = mtu;
  objects = [];
  sessions = [];
  current = none;
  plain = [];
  responses = [];
  cookies = [];
  cookie = replicate 16 0;
  cookie_at = none;
  active_path = 0;
  rekeying = false;
  counters = no_counts;
}

-- `Add` on a counter of 64 bits.
abbrev pub plus64 : ℕ → ℕ → ℕ
plus64 a n = (a + n) % 2 ^ 64

abbrev pub count : (Counters → Counters) → Client → Client
count f c = record c { counters = f c.counters }

abbrev pub session_at : ℕ → Client → Option Session
session_at ref c = lookup ℕ_discrete ref c.objects

abbrev pub store_session : ℕ → Session → Client → Client
store_session ref s c = record c { objects = insert ℕ_discrete ref s c.objects }

-- `c.sessions[idx]`.
abbrev pub find_session : ℕ → Client → Option (ℕ × Session)
find_session idx c = elim (lookup ℕ_discrete idx c.sessions) [
  | none ↦ none
  | some ref ↦ elim (session_at ref c) [ none ↦ none | some s ↦ some (ref, s) ]
]

-- `sessionUsable`: whether the session may be used, and whether it is due to be renewed.
unfoldable pub session_usable : Option Session → ℕ → Bool × Bool
session_usable none now = (false, false)
session_usable (some s) now =
    if leb (2 ^ 60) s.send_counter || leb 170 (now - s.created)
    then (false, false)
    else (true, leb 110 (now - s.created))

-- `binary.LittleEndian` on the `n` bytes from `i` on.
unfoldable pub le_number : ℕ → Bytes → ℕ → ℕ
le_number zero b i = 0
le_number (suc n) b i = byte_at b i + 2 ^ 8 * le_number n b (i + 1)

-- The nonce of a transport datagram.
abbrev pub counter_nonce : ℕ → Bytes
counter_nonce counter = replicate 4 0 ++ le_bytes 8 counter

pub data SendError : Type 0 where
  too_large no_handshake seal_failed write_failed : SendError

-- A transport datagram.
abbrev pub transport : ℕ → ℕ → Bytes → Bytes
transport remote_index counter sealed =
    le_bytes 4 4 ++ (le_bytes 4 remote_index ++ (le_bytes 8 counter ++ sealed))

-- `SendPacket` from `ioMu` on, on the session that was selected: the client, and the datagram that it
-- writes. `writes` says whether the socket takes it.
unfoldable pub send_on :
    (Bytes → Bool) → ℕ → Session → Bytes → Client → Client × Outcome SendError Bytes
send_on writes ref s raw c =
    let c1 = store_session ref (record s { send_counter = plus64 s.send_counter 1 }) c in
    elim (s.send.seal (counter_nonce s.send_counter) (pad16 raw) []) [
      | err e ↦ (c1, err seal_failed)
      | panic ↦ (c1, panic)
      | out_of_fuel ↦ (c1, out_of_fuel)
      | ok sealed ↦
          let out = transport s.remote_index s.send_counter sealed in
          if writes out
          then (
            count
                (λ k. record k {
                  tx_bytes = plus64 k.tx_bytes (length out);
                  tx_datagrams = plus64 k.tx_datagrams 1;
                })
                c1,
            ok out,
          )
          else (count (λ k. record k { tx_errors = plus64 k.tx_errors 1 }) c1, err write_failed)
    ]

-- What the tunnel passes on: a packet of IPv4 or IPv6.
abbrev pub is_inner : Bytes → Bool
is_inner b = not (length b == 0) && ((shr (byte_at b 0) 4 == 4) || (shr (byte_at b 0) 4 == 6))

-- The packet goes into the channel if there is room, and is counted as dropped if not. The client has
-- not been closed.
unfoldable pub deliver : Bytes → Bytes → Client → Client
deliver raw plain c =
    let c1 =
      count
        (λ k. record k {
          rx_bytes = plus64 k.rx_bytes (length raw);
          transport_rx = plus64 k.transport_rx 1;
          plain_q_high = max k.plain_q_high (length c.plain);
        })
        c in
    if ltb (length c.plain) 8192
    then record c1 { plain = c.plain ++ plain ∷ [] }
    else count (λ k. record k { plain_drop = plus64 k.plain_drop 1 }) c1

-- `handleTransport` after the datagram has been opened.
unfoldable pub take_opened : ℕ → Session → ℕ → Bytes → Bytes → Client → Client
take_opened ref s counter raw opened c =
    let (window, fresh) = accept counter s.replay in
    let c1 = store_session ref (record s { replay = window }) c in
    if not fresh
    then count (λ k. record k { replay_drop = plus64 k.replay_drop 1 }) c1
    else (let plain = trim_to_ip_length opened in
        if is_inner plain
        then deliver raw plain c1
        else count (λ k. record k { invalid_inner = plus64 k.invalid_inner 1 }) c1)

-- `handleTransport`.
unfoldable pub handle_transport : Bytes → Client → Outcome Error Client
handle_transport raw c =
    if ltb (length raw) 32
    then ok (count (λ k. record k { short_rx = plus64 k.short_rx 1 }) c)
    else (let counter = le_number 8 raw 8 in
        elim (find_session (le_number 4 raw 4) c) [
          | none ↦ ok (count (λ k. record k { no_session = plus64 k.no_session 1 }) c)
          | some (ref, s) ↦ elim (s.recv.open_sealed (counter_nonce counter) (drop 16 raw) []) [
            | err e ↦ ok (count (λ k. record k { auth_fail = plus64 k.auth_fail 1 }) c)
            | panic ↦ panic
            | out_of_fuel ↦ out_of_fuel
            | ok opened ↦ ok (take_opened ref s counter raw opened c)
          ]
        ])

-- One round of `reader` for a datagram; `same` is `sameEndpoint` of its sender. A channel has room for
-- eight messages, and a message that finds it full is lost.
abbrev pub put_message : Bytes → List Bytes → List Bytes
put_message raw waiting = if ltb (length waiting) 8 then waiting ++ raw ∷ [] else waiting

pub data Message : Type 0 where
  response_message cookie_message transport_message other_message : Message

abbrev pub message : ℕ → Message
message n =
    if n == 2
    then response_message
    else if n == 3
    then cookie_message
    else if n == 4
    then transport_message
    else other_message

unfoldable pub read_datagram : Bool → Bytes → Client → Outcome Error Client
read_datagram same raw c0 =
    let c = count (λ k. record k { raw_rx = plus64 k.raw_rx 1 }) c0 in
    if not same
    then ok (count (λ k. record k { wrong_endpoint = plus64 k.wrong_endpoint 1 }) c)
    else if ltb (length raw) 4
    then ok (count (λ k. record k { short_rx = plus64 k.short_rx 1 }) c)
    else elim (message (le_number 4 raw 0)) [
      | response_message ↦ ok (record c { responses = put_message raw c.responses })
      | cookie_message ↦ ok (record c { cookies = put_message raw c.cookies })
      | transport_message ↦ handle_transport raw c
      | other_message ↦ ok (count (λ k. record k { unknown_type = plus64 k.unknown_type 1 }) c)
    ]

-- `installSession` for the new object `ref`.
abbrev pub retire : ℕ → Option ℕ → Dict ℕ Session → Dict ℕ Session
retire now none objects = objects
retire now (some ref) objects = elim (lookup ℕ_discrete ref objects) [
  | none ↦ objects
  | some s ↦ elim s.retired_at [
    | none ↦ insert ℕ_discrete ref (record s { retired_at = some now }) objects
    | some t ↦ objects
  ]
]

unfoldable pub install_session : ℕ → Session → ℕ → Client → Client
install_session ref s now c = record c {
  objects = insert ℕ_discrete ref s (retire now c.current c.objects);
  sessions = insert ℕ_discrete s.local_index ref c.sessions;
  current = some ref;
}

-- One round of `reaper`: retired sessions go three minutes after.
unfoldable pub is_kept : ℕ → Client → ℕ → Bool
is_kept now c ref = elim (session_at ref c) [
  | none ↦ true
  | some s ↦ elim s.retired_at [
    | none ↦ true
    | some t ↦ elim c.current [
      | none ↦ not (ltb (t + 180) now)
      | some cur ↦ (ref == cur) || not (ltb (t + 180) now)
    ]
  ]
]

unfoldable pub reap : ℕ → Client → Client
reap now c = record c { sessions = retain ℕ_discrete (is_kept now c) c.sessions }

-- `switchActivePath`: the numbers of the old path and of the new one.
unfoldable pub switch_active_path : Client → Client × ℕ × ℕ
switch_active_path c =
    let old = c.active_path % 2 in
    let next = 1 - old in (record c { active_path = next }, old, next)

-- `c.current` with its object.
abbrev pub current_session : Client → Option (ℕ × Session)
current_session c = elim c.current [
  | none ↦ none
  | some ref ↦ elim (session_at ref c) [ none ↦ none | some s ↦ some (ref, s) ]
]

abbrev pub object : Option (ℕ × Session) → Option Session
object none = none
object (some (ref, s)) = some s

-- The current session, if it may be used, and whether it is due to be renewed.
unfoldable pub usable_session : ℕ → Client → Option (ℕ × Session × Bool)
usable_session now c = elim (current_session c) [
  | none ↦ none
  | some (ref, s) ↦
      let (usable, rekey) = session_usable (some s) now in
      if usable then some (ref, s, rekey) else none
]

-- `startBackgroundRekey` up to its goroutine: the flag, which one caller can set, starts it.
abbrev pub start_rekey : Bool → Client → Client
start_rekey rekey c = record c { rekeying = rekey || c.rekeying }

-- What the client does while a caller waits: what others do until it has `hsMu`, and the handshake,
-- which gives the number of the session that it installs.
pub record Environment : Type 0 where
  pub waiting : Client → Client
  pub handshake : Client → Client × Outcome SendError (ℕ × Session)

-- `ensureSession`, at the time `now`, and at `later` when the lock has been taken.
unfoldable pub ensure_session :
    Environment → ℕ → ℕ → Client → Client × Outcome SendError (ℕ × Session)
ensure_session env now later c = elim (usable_session now c) [
  | some (ref, s, rekey) ↦ (start_rekey rekey c, ok (ref, s))
  | none ↦
      let c1 = env.waiting c in
      elim (usable_session later c1) [
        | some (ref, s, rekey) ↦ (start_rekey rekey c1, ok (ref, s))
        | none ↦ env.handshake c1
      ]
]

-- `SendPacket`.
unfoldable pub send_packet :
    Environment → (Bytes → Bool) → ℕ → ℕ → Bytes → Client → Client × Outcome SendError Bytes
send_packet env writes now later raw c =
    if (ltb 0 (length raw) && ltb 0 c.mtu) && ltb c.mtu (length raw)
    then (count (λ k. record k { tx_errors = plus64 k.tx_errors 1 }) c, err too_large)
    else (let (c1, chosen) = ensure_session env now later c in
        elim chosen [
          | err e ↦ (c1, err e)
          | panic ↦ (c1, panic)
          | out_of_fuel ↦ (c1, out_of_fuel)
          | ok (ref, s) ↦ send_on writes ref s raw c1
        ])
