-- ===== src/Wireguard/Sessions.antt =====
-- internal/wireguard/client.go: that the map of sessions, its objects and `current` agree.
use split_wire.Wireguard.{accept}
use split_wire.Wireguard.Handshake.{Suite, Identity, InitState, consume_cookie}
use split_wire.Wireguard.Client.{
  start_rekey, switch_active_path, new_client, Client, Session, count, deliver, handle_transport,
  install_session, is_kept, plus64, read_datagram, reap, retire, send_on, session_at, store_session,
  take_opened,
}
use split_wire.Prelude.{
  Bool, Bytes, Ensures, Ensures-ok, List, Option, Option-cases, ap, arith, inl, inr, lookup,
  lookup-insert, lookup-insert_self, lookup-retain, none, ok, refl, some, sym, ℕ, ℕ_discrete, ◌∙◌,
  ◌≡◌,
}

abbrev pub local_of : Option Session → Option ℕ
local_of none = none
local_of (some s) = some s.local_index

-- A session is in the map under its own index, and the current session is in the map.
pub record Inv (c : Client) : Type 0 where
  pub own_index :
      (index ref : ℕ)
      → lookup ℕ_discrete index c.sessions ≡ some ref
      → local_of (session_at ref c) ≡ some index
  pub has_current :
      (ref : ℕ)
      → c.current ≡ some ref
      → (index : ℕ) × (local_of (session_at ref c) ≡ some index)
        × (lookup ℕ_discrete index c.sessions ≡ some ref)

-- The sessions are the same, but for their counters and windows; the object `r` shows it.
abbrev SameSessions : ℕ → Client → Client → Type 0
SameSessions r c c' =
    (local_of (session_at r c') ≡ local_of (session_at r c))
    × (c'.sessions ≡ c.sessions)
    × (c'.current ≡ c.current)

SameSessions-Inv : (c c' : Client) → ((r : ℕ) → SameSessions r c c') → Inv c → Inv c'
SameSessions-Inv c c' h v = record {
  own_index = λ index ref e.
      let (l, s, cur) = h ref in
      l ∙ v.own_index index ref (ap (λ m. lookup ℕ_discrete index m) (sym s) ∙ e);
  has_current = λ ref e.
      let (l, s, cur) = h ref in
      let (index, f, g) = v.has_current ref (sym cur ∙ e) in
      (index, l ∙ f, ap (λ m. lookup ℕ_discrete index m) s ∙ g);
}

store_session-local :
    (ref : ℕ) (s s' : Session) (c : Client)
    → session_at ref c ≡ some s
    → s'.local_index ≡ s.local_index
    → (r : ℕ) → local_of (session_at r (store_session ref s' c)) ≡ local_of (session_at r c)
store_session-local ref s s' c e same r =
    ground (arith, lookup-insert ℕ_discrete ref r s' c.objects)

take_opened-SameSessions :
    (ref : ℕ) (s : Session) (counter : ℕ) (raw opened : Bytes) (c : Client) (r : ℕ)
    → session_at ref c ≡ some s
    → SameSessions r c (take_opened ref s counter raw opened c)
unfolding take_opened deliver
take_opened-SameSessions ref s counter raw opened c r e = ground (
  arith,
  store_session-local ref s (record s { replay = (accept counter s.replay).0 }) c e refl r,
)

handle_transport-SameSessions :
    (raw : Bytes) (c : Client) (r : ℕ) → Ensures (SameSessions r c) (handle_transport raw c)
unfolding handle_transport
handle_transport-SameSessions raw c r = grind (arith, take_opened-SameSessions)

read_datagram-SameSessions :
    (same : Bool) (raw : Bytes) (c : Client) (r : ℕ)
    → Ensures (SameSessions r c) (read_datagram same raw c)
unfolding read_datagram
read_datagram-SameSessions same raw c r = ground (
  arith,
  handle_transport-SameSessions raw (count (λ k. record k { raw_rx = plus64 k.raw_rx 1 }) c) r,
)

send_on-SameSessions :
    (writes : Bytes → Bool) (ref : ℕ) (s : Session) (raw : Bytes) (c : Client) (r : ℕ)
    → session_at ref c ≡ some s
    → SameSessions r c (send_on writes ref s raw c).0
unfolding send_on
send_on-SameSessions writes ref s raw c r e = ground (
  arith,
  store_session-local ref s (record s { send_counter = plus64 s.send_counter 1 }) c e refl r,
)

retire-local :
    (now : ℕ) (cur : Option ℕ) (c : Client) (r : ℕ)
    → local_of (lookup ℕ_discrete r (retire now cur c.objects)) ≡ local_of (session_at r c)
retire-local now none c r = refl
retire-local now (some ref) c r = elim (Option-cases (session_at ref c)) [
  | inl e ↦ ground arith
  | inr (s, e) ↦
      ground (arith, lookup-insert ℕ_discrete ref r (record s { retired_at = some now }) c.objects)
]

install_session-Inv :
    (ref : ℕ) (s : Session) (now : ℕ) (c : Client)
    → session_at ref c ≡ none
    → Inv c
    → Inv (install_session ref s now c)
unfolding install_session
install_session-Inv ref s now c fresh v = record {
  own_index = λ index r e. ground (
    arith,
    e,
    lookup-insert ℕ_discrete s.local_index index ref c.sessions,
    lookup-insert ℕ_discrete ref r s (retire now c.current c.objects),
    retire-local now c.current c r,
    v.own_index index r,
  );
  has_current = λ r e. (
    s.local_index,
    ground (arith, e, lookup-insert ℕ_discrete ref r s (retire now c.current c.objects)),
    ground (arith, e, lookup-insert_self ℕ_discrete s.local_index ref c.sessions),
  );
}

reap-Inv : (now : ℕ) (c : Client) → Inv c → Inv (reap now c)
unfolding reap is_kept
reap-Inv now c v = record {
  own_index = λ index ref e.
      v.own_index index ref
        (ground (arith, e, lookup-retain ℕ_discrete (is_kept now c) index c.sessions));
  has_current = λ ref e.
      let (index, f, g) = v.has_current ref e in
      (index, f, ground (arith, e, g, lookup-retain ℕ_discrete (is_kept now c) index c.sessions));
}

-- A client after any calls: datagrams come in, packets are sent on a session that is there, sessions are
-- installed as new objects and reaped, cookies come, paths are switched, and readers take from the
-- channels.
pub data Life : Client → Type 0 where
  created : (mtu : ℕ) → Life (new_client mtu)
  received :
      {c c' : Client} (same : Bool) (raw : Bytes)
      → Life c
      → read_datagram same raw c ≡ ok c'
      → Life c'
  sent :
      {c : Client} (writes : Bytes → Bool) (ref : ℕ) (s : Session) (raw : Bytes)
      → Life c
      → session_at ref c ≡ some s
      → Life (send_on writes ref s raw c).0
  installed :
      {c : Client} (ref : ℕ) (s : Session) (now : ℕ)
      → Life c
      → session_at ref c ≡ none
      → Life (install_session ref s now c)
  reaped : {c : Client} (now : ℕ) → Life c → Life (reap now c)
  given_cookie :
      {c c' : Client} (suite : Suite) (me : Identity) (st : InitState) (msg : Bytes) (now : ℕ)
      (good : Bool)
      → Life c
      → consume_cookie suite me st msg now c ≡ ok (c', good)
      → Life c'
  switched : {c : Client} → Life c → Life (switch_active_path c).0
  renewing : {c : Client} (rekey : Bool) → Life c → Life (start_rekey rekey c)
  drained :
      {c : Client} (plain responses cookies : List Bytes)
      → Life c
      → Life (record c { plain = plain; responses = responses; cookies = cookies })

new_client-Inv : (mtu : ℕ) → Inv (new_client mtu)
unfolding lookup
new_client-Inv mtu = record { own_index = λ index ref e. cc; has_current = λ ref e. absurd cc }

consume_cookie-SameSessions :
    (suite : Suite) (me : Identity) (st : InitState) (msg : Bytes) (now : ℕ) (c : Client) (r : ℕ)
    → Ensures (λ x. SameSessions r c x.0) (consume_cookie suite me st msg now c)
unfolding consume_cookie
consume_cookie-SameSessions suite me st msg now c r = ground arith

switch_active_path-SameSessions : (c : Client) (r : ℕ) → SameSessions r c (switch_active_path c).0
unfolding switch_active_path
switch_active_path-SameSessions c r = (refl, refl, refl)

-- In every client that calls can lead to, each session is in the map under the index that its datagrams
-- name, and the current session is in the map: it is installed there, and no reaper takes it away.
pub Life-Inv : (c : Client) → Life c → Inv c
Life-Inv _ (created mtu) = new_client-Inv mtu
Life-Inv c' (received {c} same raw h e) =
    SameSessions-Inv c c'
      (λ r.
        Ensures-ok (SameSessions r c) (read_datagram same raw c)
          (read_datagram-SameSessions same raw c r) e)
      (Life-Inv c h)
Life-Inv _ (sent {c} writes ref s raw h e) =
    SameSessions-Inv c _ (λ r. send_on-SameSessions writes ref s raw c r e) (Life-Inv c h)
Life-Inv _ (installed {c} ref s now h e) = install_session-Inv ref s now c e (Life-Inv c h)
Life-Inv _ (reaped {c} now h) = reap-Inv now c (Life-Inv c h)
Life-Inv c' (given_cookie {c} suite me st msg now good h e) =
    SameSessions-Inv c c'
      (λ r.
        Ensures-ok (λ x. SameSessions r c x.0) (consume_cookie suite me st msg now c)
          (consume_cookie-SameSessions suite me st msg now c r) e)
      (Life-Inv c h)
Life-Inv _ (switched {c} h) =
    SameSessions-Inv c _ (switch_active_path-SameSessions c) (Life-Inv c h)
Life-Inv _ (renewing {c} rekey h) = SameSessions-Inv c _ (λ r. (refl, refl, refl)) (Life-Inv c h)
Life-Inv _ (drained {c} plain responses cookies h) =
    SameSessions-Inv c _ (λ r. (refl, refl, refl)) (Life-Inv c h)
