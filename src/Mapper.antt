-- ===== src/Mapper.antt =====
-- internal/nat/nat.go: the translation of local addresses and ports to those of the tunnel. The
-- two maps of the source hold pointers to shared mappings: here they hold the number of an
-- object, and `objects` is the store. A call under the lock is one step, and the time is an
-- argument. A method returns the mapper and the packet buffer as they are afterwards, also where it
-- fails.
pub mod Invariant
pub mod Methods
pub mod Reachable
pub mod Assign
pub mod Search
pub mod RoundTrip
use split_wire.Prelude.{
  Bool, Bytes, Dict, List, Option, Outcome, [], delete, err, false, if◌then◌else◌, insert, lookup,
  ltb, map, none, not, ok, out_of_fuel, panic, some, suc, true, u16, zero, ℕ, ℕ_discrete, ◌+◌, ◌==◌,
  ◌∷◌,
}
use split_wire.Ip.{Addr, is_4, is_valid, Addr-discrete, invalid}
use split_wire.Packet.Parse.{Packet, Error, parse, is_tcp_udp}
use split_wire.Packet.Rewrite.{rewrite_dst, rewrite_dst_port, rewrite_src, rewrite_src_port}

-- The interface that a packet was captured on.
pub record Meta : Type 0 where
  pub if_idx : ℕ
  pub sub_if_idx : ℕ

pub record OutboundKey : Type 0 where
  pub proto : ℕ
  pub local : Addr
  pub remote : Addr
  pub local_port : ℕ
  pub remote_port : ℕ

pub record ReplyKey : Type 0 where
  pub proto : ℕ
  pub remote : Addr
  pub tunnel : Addr
  pub remote_port : ℕ
  pub tunnel_port : ℕ

pub record Mapping : Type 0 where
  pub original_local : Addr
  pub original_port : ℕ
  pub tunnel_port : ℕ
  pub meta : Meta
  pub seen : ℕ

pub OutboundKey-discrete : Discrete OutboundKey
OutboundKey-discrete = hlevel (ℕ_discrete, Addr-discrete)

pub ReplyKey-discrete : Discrete ReplyKey
ReplyKey-discrete = hlevel (ℕ_discrete, Addr-discrete)

pub record Mapper : Type 0 where
  pub own4 : Addr
  pub own6 : Addr
  pub by_out : Dict OutboundKey ℕ
  pub by_reply : Dict ReplyKey ℕ
  pub objects : ℕ → Mapping
  pub allocated : ℕ
  pub next : ℕ

-- How a method fails.
pub data Failure : Type 0 where
  packet_error : Error → Failure
  unsupported_protocol no_tunnel_address no_free_port : Failure

unfoldable pub new_mapper : Addr → Addr → Mapper
new_mapper a4 a6 = record {
  own4 = a4;
  own6 = a6;
  by_out = [];
  by_reply = [];
  objects = λ i. record {
    original_local = invalid;
    original_port = 0;
    tunnel_port = 0;
    meta = record { if_idx = 0; sub_if_idx = 0 };
    seen = 0;
  };
  allocated = 0;
  next = 40000;
}

abbrev pub find_reply : ReplyKey → Dict ReplyKey ℕ → Option ℕ
find_reply = lookup ReplyKey-discrete

abbrev pub find_out : OutboundKey → Dict OutboundKey ℕ → Option ℕ
find_out = lookup OutboundKey-discrete

abbrev pub store_object : (ℕ → Mapping) → ℕ → Mapping → ℕ → Mapping
store_object objects i mp j = if j == i then mp else objects j

-- The tunnel's address for packets of this local address.
abbrev pub tunnel_for : Mapper → Addr → Addr
tunnel_for m local = if is_4 local then m.own4 else m.own6

abbrev pub outbound_key : Packet → OutboundKey
outbound_key p = record {
  proto = p.protocol;
  local = p.src;
  remote = p.dst;
  local_port = p.src_port;
  remote_port = p.dst_port;
}

-- The key of the replies to a flow that leaves by the tunnel's port `port`.
abbrev pub reply_key : Mapper → OutboundKey → ℕ → ReplyKey
reply_key m k port = record {
  proto = k.proto;
  remote = k.remote;
  tunnel = tunnel_for m k.local;
  remote_port = k.remote_port;
  tunnel_port = port;
}

abbrev pub advance : ℕ → ℕ
advance next = if ltb 60999 (u16 (next + 1)) then 40000 else u16 (next + 1)

-- The search for a free port: the port, if one was found, and the next candidate.
unfoldable pub find_port : ℕ → Mapper → OutboundKey → ℕ → Option ℕ × ℕ
find_port zero m k next = (none, next)
find_port (suc rounds) m k next = elim (find_reply (reply_key m k next) m.by_reply) [
  | none ↦ (some next, advance next)
  | some i ↦ find_port rounds m k (advance next)
]

abbrev pub search_rounds : ℕ
search_rounds = 21000

unfoldable pub pick_port : Mapper → OutboundKey → Option ℕ × ℕ
pick_port m k = elim (find_reply (reply_key m k k.local_port) m.by_reply) [
  | none ↦ (some k.local_port, m.next)
  | some i ↦ find_port search_rounds m k m.next
]

-- A new mapping, held by both maps.
abbrev pub add_mapping : Mapper → OutboundKey → Meta → ℕ → ℕ → ℕ → Mapper
add_mapping m k meta now port next = record m {
  by_out = insert OutboundKey-discrete k m.allocated m.by_out;
  by_reply = insert ReplyKey-discrete (reply_key m k port) m.allocated m.by_reply;
  objects = store_object m.objects m.allocated (record {
    original_local = k.local;
    original_port = k.local_port;
    tunnel_port = port;
    meta = meta;
    seen = now;
  });
  allocated = suc m.allocated;
  next = next;
}

-- The part of `PrepareOutbound` under the lock: the mapper, and the tunnel's port of the flow.
unfoldable pub assign : Mapper → OutboundKey → Meta → ℕ → Mapper × Option ℕ
assign m k meta now = elim (find_out k m.by_out) [
  | some i ↦ (
    record m {
      objects = store_object m.objects i (record (m.objects i) { meta = meta; seen = now });
    },
    some (m.objects i).tunnel_port,
  )
  | none ↦
      let (port, next) = pick_port m k in
      elim port [
        | none ↦ (record m { next = next }, none)
        | some port ↦ (add_mapping m k meta now port next, some port)
      ]
]

abbrev pub after_packet {ℓ} :
    {A : Type ℓ} → A → Bytes → Outcome Error Bytes → Bytes × Outcome Failure A
after_packet a raw (ok raw') = (raw', ok a)
after_packet a raw (err e) = (raw, err (packet_error e))
after_packet a raw panic = (raw, panic)
after_packet a raw out_of_fuel = (raw, out_of_fuel)

-- The two writes at the end of `PrepareOutbound`.
unfoldable pub readdress_src : Bytes → Packet → Addr → ℕ → Meta → Bytes × Outcome Failure Meta
readdress_src raw p tun port meta = elim (rewrite_src raw tun) [
  | ok raw' ↦
      if port == p.src_port
      then (raw', ok meta)
      else after_packet meta raw' (rewrite_src_port raw' port)
  | failed ↦ after_packet meta raw failed
]

unfoldable pub prepare_outbound : Mapper → Bytes → Meta → ℕ → Mapper × Bytes × Outcome Failure Meta
prepare_outbound m raw meta now = elim (parse raw) [
  | err e ↦ (m, raw, err (packet_error e))
  | panic ↦ (m, raw, panic)
  | out_of_fuel ↦ (m, raw, out_of_fuel)
  | ok p ↦
      if not (is_tcp_udp p.protocol)
      then (m, raw, err unsupported_protocol)
      else if not (is_valid (tunnel_for m p.src))
      then (m, raw, err no_tunnel_address)
      else let (m', port) = assign m (outbound_key p) meta now in
        elim port [
          | none ↦ (m', raw, err no_free_port)
          | some port ↦
              let (raw', r) = readdress_src raw p (tunnel_for m p.src) port meta in (m', raw', r)
        ]
]

-- The two writes at the end of `RestoreInbound`.
unfoldable pub readdress_dst : Bytes → Packet → Mapping → Bytes × Outcome Failure (Meta × Bool)
readdress_dst raw p mp = elim (rewrite_dst raw mp.original_local) [
  | ok raw' ↦
      if p.dst_port == mp.original_port
      then (raw', ok (mp.meta, true))
      else after_packet (mp.meta, true) raw' (rewrite_dst_port raw' mp.original_port)
  | failed ↦ after_packet (mp.meta, true) raw failed
]

abbrev pub incoming_key : Packet → ReplyKey
incoming_key p = record {
  proto = p.protocol;
  remote = p.src;
  tunnel = p.dst;
  remote_port = p.src_port;
  tunnel_port = p.dst_port;
}

abbrev pub no_meta : Meta
no_meta = record { if_idx = 0; sub_if_idx = 0 }

-- The metadata, and whether the packet belongs to a mapping.
unfoldable pub restore_inbound : Mapper → Bytes → ℕ → Mapper × Bytes × Outcome Failure (Meta × Bool)
restore_inbound m raw now = elim (parse raw) [
  | err e ↦ (m, raw, err (packet_error e))
  | panic ↦ (m, raw, panic)
  | out_of_fuel ↦ (m, raw, out_of_fuel)
  | ok p ↦
      if not (is_tcp_udp p.protocol)
      then (m, raw, ok (no_meta, false))
      else elim (find_reply (incoming_key p) m.by_reply) [
        | none ↦ (m, raw, ok (no_meta, false))
        | some i ↦
            let mp : Mapping = record (m.objects i) { seen = now } in
            let (raw', r) = readdress_dst raw p mp in
            (record m { objects = store_object m.objects i mp }, raw', r)
      ]
]

-- The loop of `Sweep` over the keys of `byOut`; a key that is gone when its turn comes is passed
-- over. An entry goes if its `Seen` lies before `now - age`.
unfoldable pub sweep_keys : List OutboundKey → Mapper → ℕ → ℕ → Mapper
sweep_keys [] m age now = m
sweep_keys (k ∷ keys) m age now =
    sweep_keys keys
      (elim (find_out k m.by_out) [
        | none ↦ m
        | some i ↦
            if ltb ((m.objects i).seen + age) now
            then record m {
              by_out = delete OutboundKey-discrete k m.by_out;
              by_reply =
                  delete ReplyKey-discrete (reply_key m k (m.objects i).tunnel_port) m.by_reply;
            }
            else m
      ])
      age now

unfoldable pub sweep : Mapper → ℕ → ℕ → Mapper
sweep m age now = sweep_keys (map (λ e. e.0) m.by_out) m age now
