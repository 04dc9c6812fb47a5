-- ===== src/Runner/Sending.antt =====
-- internal/engine/engine_windows.go: the loop that sends the packets of the tunnel, `sendLoop`. The
-- delay of a packet in its queue is not kept.
use split_wire.Prelude.{Bool, Bytes, List, [], if◌then◌else◌, suc, zero, ℕ, ◌++◌, ◌∷◌}
use split_wire.Runner.{Runner, tick, plus, drop_one}

-- The packets that come into the two queues before one look at them.
pub record Batch : Type 0 where
  pub urgent : List Bytes
  pub bulk : List Bytes

abbrev pub arrive : List Batch → Runner → Runner
arrive [] r = r
arrive (b ∷ bs) r = record r { urgent = r.urgent ++ b.urgent; bulk = r.bulk ++ b.bulk }

abbrev pub later : List Batch → List Batch
later [] = []
later (b ∷ bs) = bs

-- `sendOne`, where the client takes the packet or fails.
unfoldable pub send_one : (Bytes → Bool) → Bytes → Runner → Runner
send_one takes p r =
    if takes p
    then tick (λ s. record s { wg_write_ok = plus s.wg_write_ok 1 }) r
    else drop_one (tick (λ s. record s { wg_write_errors = plus s.wg_write_errors 1 }) r)

abbrev pub urgent_burst : ℕ
urgent_burst = 8

-- The engine after some sends, what is still to come, and the packets handed to the client.
pub record Sent : Type 0 where
  pub engine : Runner
  pub rest : List Batch
  pub packets : List Bytes

-- The inner loop, which sends urgent packets only.
unfoldable pub drain_urgent : (Bytes → Bool) → ℕ → List Batch → Runner → Sent
drain_urgent takes zero bs r = record { engine = r; rest = bs; packets = [] }
drain_urgent takes (suc n) bs r = elim (arrive bs r).urgent [
  | [] ↦ record { engine = arrive bs r; rest = later bs; packets = [] }
  | p ∷ ps ↦
      let s =
        drain_urgent takes n (later bs) (send_one takes p (record (arrive bs r) { urgent = ps })) in
      record s { packets = p ∷ s.packets }
]

abbrev pub take_urgent : (Bytes → Bool) → Runner → Runner × List Bytes
take_urgent takes r = elim r.urgent [
  | [] ↦ (r, [])
  | p ∷ ps ↦ (send_one takes p (record r { urgent = ps }), p ∷ [])
]

abbrev pub take_bulk : (Bytes → Bool) → Runner → Runner × List Bytes
take_bulk takes r = elim r.bulk [
  | [] ↦ (r, [])
  | p ∷ ps ↦ (send_one takes p (record r { bulk = ps }), p ∷ [])
]

-- The last `select`: of two queues that are ready it takes either, as `pick` says. Where neither is
-- it waits, and the round ends without a packet.
unfoldable pub take_either : (Bytes → Bool) → Bool → Runner → Runner × List Bytes
take_either takes pick r = elim r.urgent [
  | [] ↦ take_bulk takes r
  | u ∷ us ↦ elim r.bulk [
    | [] ↦ take_urgent takes r
    | p ∷ ps ↦ if pick then take_urgent takes r else take_bulk takes r
  ]
]

-- A round of `sendLoop`.
unfoldable pub send_round : (Bytes → Bool) → Bool → List Batch → Runner → Sent
send_round takes pick bs r =
    let s = drain_urgent takes urgent_burst bs r in
    let r1 = arrive s.rest s.engine in
    elim r1.bulk [
      | p ∷ ps ↦ record {
        engine = send_one takes p (record r1 { bulk = ps });
        rest = later s.rest;
        packets = s.packets ++ p ∷ [];
      }
      | [] ↦
          let r2 = arrive (later s.rest) r1 in
          record {
            engine = (take_either takes pick r2).0;
            rest = later (later s.rest);
            packets = s.packets ++ (take_either takes pick r2).1;
          }
    ]

-- Some rounds of the loop.
unfoldable pub send_rounds : (Bytes → Bool) → List Bool → List Batch → Runner → Sent
send_rounds takes [] bs r = record { engine = r; rest = bs; packets = [] }
send_rounds takes (pick ∷ picks) bs r =
    let s = send_round takes pick bs r in
    let t = send_rounds takes picks s.rest s.engine in record t { packets = s.packets ++ t.packets }
