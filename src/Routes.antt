-- ===== src/Routes.antt =====
-- internal/engine/flowroute.go, proxyroute.go and proxydial.go: the tables that remember the route of
-- a flow and of the program's own proxy connections, and the dial that registers its route before it
-- sends. A method is one step under its lock; times are in seconds.
use split_wire.Flow.{Key-discrete as FlowKey-discrete, Process, Key as FlowKey}
pub mod Sticky
pub mod Dials
use split_wire.Prelude.{
  Bool, Dict, List, Option, Outcome, [], delete, err, if◌then◌else◌, insert, lookup, ltb, none, not,
  ok, retain, some, suc, u16, zero, ℕ, ℕ_discrete, ◌+◌, ◌==◌, ◌||◌, ◌∷◌,
}
use split_wire.Ip.{Addr, Addr-discrete, is_valid, unmap}

pub record FlowRoute : Type 0 where
  pub tunnel : Bool
  pub proc : Process
  pub known : Bool
  pub seen : ℕ

abbrev pub FlowTable : Type 0
FlowTable = Dict FlowKey FlowRoute

abbrev pub find_route : FlowKey → FlowTable → Option FlowRoute
find_route = lookup FlowKey-discrete

-- `Lookup`: the entry counts as seen.
unfoldable pub touch_route : FlowKey → ℕ → FlowTable → FlowTable × Option FlowRoute
touch_route k now t = elim (find_route k t) [
  | none ↦ (t, none)
  | some e ↦ let e' = record e { seen = now } in (insert FlowKey-discrete k e' t, some e')
]

-- `Set`: the first decision stands.
unfoldable pub set_route : FlowKey → Bool → Process → Bool → ℕ → FlowTable → FlowTable
set_route k tunnel proc known now t = elim (find_route k t) [
  | some e ↦ t
  | none ↦
      insert FlowKey-discrete k (record { tunnel = tunnel; proc = proc; known = known; seen = now })
        t
]

unfoldable pub delete_route : FlowKey → FlowTable → FlowTable
delete_route = delete FlowKey-discrete

-- `Sweep`; `Before` is strict.
unfoldable pub sweep_routes : ℕ → ℕ → FlowTable → FlowTable
sweep_routes age now = retain FlowKey-discrete (λ e. not (ltb (e.seen + age) now))

pub record ProxyKey : Type 0 where
  pub proto : ℕ
  pub local_port : ℕ
  pub remote : Addr
  pub remote_port : ℕ

pub ProxyKey-discrete : Discrete ProxyKey
ProxyKey-discrete = hlevel (ℕ_discrete, Addr-discrete)

pub record ProxyRoute : Type 0 where
  pub tunnel : Bool
  pub seen : ℕ

abbrev pub ProxyTable : Type 0
ProxyTable = Dict ProxyKey ProxyRoute

abbrev pub find_proxy : ProxyKey → ProxyTable → Option ProxyRoute
find_proxy = lookup ProxyKey-discrete

abbrev pub proxy_key_from_flow : FlowKey → ProxyKey
proxy_key_from_flow k = record {
  proto = k.proto;
  local_port = k.local_port;
  remote = unmap k.remote;
  remote_port = k.remote_port;
}

abbrev pub plain_key : ProxyKey → ProxyKey
plain_key k = record k { remote = unmap k.remote }

-- `Set`: a key that names no connection is left out.
unfoldable pub set_proxy : ProxyKey → Bool → ℕ → ProxyTable → ProxyTable
set_proxy k tunnel now t =
    if (k.proto == 0) || (k.local_port == 0) || not (is_valid k.remote) || (k.remote_port == 0)
    then t
    else insert ProxyKey-discrete (plain_key k) (record { tunnel = tunnel; seen = now }) t

-- `Lookup`: the entry counts as seen.
unfoldable pub touch_proxy : FlowKey → ℕ → ProxyTable → ProxyTable × Option Bool
touch_proxy k now t =
    let pk = proxy_key_from_flow k in
    elim (find_proxy pk t) [
      | none ↦ (t, none)
      | some e ↦ (insert ProxyKey-discrete pk (record e { seen = now }) t, some e.tunnel)
    ]

unfoldable pub delete_proxy_flow : FlowKey → ProxyTable → ProxyTable
delete_proxy_flow k = delete ProxyKey-discrete (proxy_key_from_flow k)

unfoldable pub delete_proxy_key : ProxyKey → ProxyTable → ProxyTable
delete_proxy_key k = delete ProxyKey-discrete (plain_key k)

unfoldable pub sweep_proxies : ℕ → ℕ → ProxyTable → ProxyTable
sweep_proxies age now = retain ProxyKey-discrete (λ e. not (ltb (e.seen + age) now))

-- What the dialer of the standard library does in one attempt: the addresses for which it calls
-- `ControlContext`, and how it ends.
pub data Dialled : Type 0 where
  connected bind_failed refused : Dialled

pub data DialError : Type 0 where
  unsupported_network no_source_port last_error : DialError

-- The calls of `ControlContext`, each with an address and a port that it could read. Another call
-- registers nothing.
unfoldable pub register :
    ℕ → ℕ → Bool → ℕ → List (Addr × ℕ) → ProxyTable → ProxyTable × List ProxyKey
register proto port tunnel now [] t = (t, [])
register proto port tunnel now ((ip, remote_port) ∷ rest) t =
    let k : ProxyKey = record {
      proto = proto;
      local_port = u16 port;
      remote = unmap ip;
      remote_port = remote_port;
    } in
    let (t', keys) = register proto port tunnel now rest (set_proxy k tunnel now t) in
    (t', k ∷ keys)

unfoldable pub unregister : List ProxyKey → ProxyTable → ProxyTable
unregister [] t = t
unregister (k ∷ keys) t = unregister keys (delete_proxy_key k t)

-- What an attempt of `net.Dialer` does: the calls of `ControlContext` before `DialContext` returns, how
-- it ends, and the calls after it has returned. A dialer that tries two addresses at once makes calls
-- from two goroutines, and the one that loses may make its call late.
pub record Attempted (S : Type 0) : Type 0 where
  pub state : S
  pub calls : List (Addr × ℕ)
  pub ended : Dialled
  pub late : List (Addr × ℕ)

-- What the dial uses of the network: a free port, and an attempt from that port. `S` is the state of
-- the network.
pub record Network (S : Type 0) : Type 0 where
  pub reserve : S → S × Option ℕ
  pub attempt : ℕ → S → Attempted S

module _ {S : Type 0} (net : Network S) (proto : ℕ) (tunnel : Bool) (now : ℕ) where
  -- How an attempt ends, where `retry` is what the attempts after it give. What the late calls do to
  -- the table, `belated`, comes after the dial has dealt with the keys that it knows of.
  abbrev pub conclude :
      Dialled
      → S
      → ProxyTable
      → List ProxyKey
      → (ProxyTable → ProxyTable)
      → (ProxyTable → S × ProxyTable × Outcome DialError (List ProxyKey))
      → S × ProxyTable × Outcome DialError (List ProxyKey)
  conclude connected s t keys belated retry = (s, belated t, ok keys)
  conclude bind_failed s t keys belated retry = retry (belated (unregister keys t))
  conclude refused s t keys belated retry = (s, belated (unregister keys t), err last_error)

  -- The loop of `dialProxyRegistered`: the keys of the connection, or the last error.
  unfoldable pub attempts : ℕ → S → ProxyTable → S × ProxyTable × Outcome DialError (List ProxyKey)
  attempts zero s t = (s, t, err last_error)
  attempts (suc n) s t = elim (net.reserve s).1 [
    | none ↦ ((net.reserve s).0, t, err no_source_port)
    | some port ↦
        let a = net.attempt port (net.reserve s).0 in
        let (t1, keys) = register proto port tunnel now a.calls t in
        conclude a.ended a.state t1 keys (λ u. (register proto port tunnel now a.late u).0)
          (λ u. attempts n a.state u)
  ]

pub data Transport : Type 0 where
  tcp udp other_network : Transport

-- `dialProxyRegistered`.
unfoldable pub dial_proxy :
    {S : Type 0}
    → Network S
    → Transport
    → Bool
    → ℕ
    → S
    → ProxyTable
    → S × ProxyTable × Outcome DialError (List ProxyKey)
dial_proxy net other_network tunnel now s t = (s, t, err unsupported_network)
dial_proxy net tcp tunnel now s t = attempts net 6 tunnel now 4 s t
dial_proxy net udp tunnel now s t = attempts net 17 tunnel now 4 s t

-- `registeredConn.Close`, before it closes the connection itself.
abbrev pub close_registered : List ProxyKey → ProxyTable → ProxyTable
close_registered = unregister
