-- ===== src/Discovery/Buffers.antt =====
-- internal/browserdisc/discovery.go: what `FeedTLS` keeps of a flow.
use split_wire.Prelude.{
  Bool-cases, Bytes, Option, Outcome, Returns, arith, drop, err, false, inl, inr, insert, length,
  length-append, lookup-insert, lookup-insert_ne, none, ok, out_of_fuel, panic, refl, some, subst,
  sym, true, u32, ℕ, ℕ_discrete, ◌++◌, ◌+◌, ◌-◌, ◌∙◌, ◌≡◌, ◌≢◌, ◌≤◌,
}
use split_wire.Discovery.{
  Discovery, TlsState, find_tls, conclude_hello, take_payload, feed_state, expecting, realign,
  FeedAnswer, current, feed_tls, need_more,
}
use split_wire.Packet.Parse.{Packet, Error}
use split_wire.Flow.{Key, Key-discrete}
use split_wire.Hello.Safety.{server_name-Returns}
use split_wire.Packet.Tcp.{TcpInfo, parse_tcp_info}
use split_wire.Packet.Tcp.Reads.{parse_tcp_info-Returns}

-- The buffer of a flow keeps within 64 KiB.
abbrev pub IsBounded : TlsState → Type 0
IsBounded s = length s.buf ≤ 65536

abbrev pub AreBounded : Discovery → Type 0
AreBounded d = (k : Key) (s : TlsState) → find_tls k d.tls ≡ some s → IsBounded s

module _ (lower : Bytes → Bytes) where
  conclude_hello_buf : (s : TlsState) → (conclude_hello lower s).0.buf ≡ s.buf
  unfolding conclude_hello
  conclude_hello_buf s = ground arith

  take_payload-IsBounded :
      (payload : Bytes) (s : TlsState) → IsBounded s → IsBounded (take_payload lower payload s).0
  unfolding take_payload
  take_payload-IsBounded payload s h =
      let longer : TlsState = record s {
        buf = s.buf ++ payload;
        next_seq = u32 (s.next_seq + u32 (length payload));
      } in
      ground (arith, conclude_hello_buf longer, length-append s.buf payload)

  feed_state-IsBounded :
      (seq : ℕ) (payload : Bytes) (s : TlsState)
      → IsBounded s
      → IsBounded (feed_state lower seq payload s).0
  unfolding feed_state
  feed_state-IsBounded seq payload s h =
      let s1 = expecting seq s in
      ground (
        arith,
        take_payload-IsBounded (drop (s1.next_seq - seq) payload) s1,
        take_payload-IsBounded payload (realign seq s1),
      )

  current-IsBounded :
      (k : Key) (now : ℕ) (d : Discovery)
      → AreBounded d
      → IsBounded (current now (find_tls k d.tls))
  current-IsBounded k now d h = go (find_tls k d.tls) refl
    where
      go : (o : Option TlsState) → find_tls k d.tls ≡ o → IsBounded (current now o)
      go none e = omega arith
      go (some s) e = ground (arith, h k s e)

  store-AreBounded :
      (k : Key) (s : TlsState) (d : Discovery)
      → IsBounded s
      → AreBounded d
      → AreBounded (record d { tls = insert Key-discrete k s d.tls })
  store-AreBounded k s d b h k' s' e = elim (Key-discrete k k') [
    | yes p ↦
        let same : s ≡ s' = ground (arith, lookup-insert Key-discrete k k' s d.tls) in
        subst IsBounded same b
    | no ne ↦ h k' s' (sym (lookup-insert_ne Key-discrete k k' s d.tls ne) ∙ e)
  ]

  conclude_hello-Returns : (s : TlsState) → Returns (conclude_hello lower s).1
  unfolding conclude_hello
  conclude_hello-Returns s = ground (arith, server_name-Returns lower s.buf)

  take_payload-Returns : (payload : Bytes) (s : TlsState) → Returns (take_payload lower payload s).1
  unfolding take_payload
  take_payload-Returns payload s =
      let longer : TlsState = record s {
        buf = s.buf ++ payload;
        next_seq = u32 (s.next_seq + u32 (length payload));
      } in
      ground (arith, conclude_hello-Returns longer)

  feed_state-Returns :
      (seq : ℕ) (payload : Bytes) (s : TlsState) → Returns (feed_state lower seq payload s).1
  unfolding feed_state
  feed_state-Returns seq payload s =
      let s1 = expecting seq s in
      ground (
        arith,
        take_payload-Returns (drop (s1.next_seq - seq) payload) s1,
        take_payload-Returns payload (realign seq s1),
      )

  -- What `FeedTLS` promises: an answer, and buffers within their limit.
  abbrev pub IsFed : Discovery × FeedAnswer → Type 0
  IsFed r = AreBounded r.0 × Returns r.1

  module _ (k : Key) (raw : Bytes) (now : ℕ) (d : Discovery) (p : Packet) (ti : TcpInfo)
      (e : parse_tcp_info raw ≡ ok (p, ti)) where
    flow_state : TlsState
    flow_state = current now (find_tls k d.tls)

    feed_empty : length ti.payload ≡ 0 → feed_tls lower k raw now d ≡ (d, need_more)
    unfolding feed_tls
    feed_empty z = ground arith

    feed_done :
        length ti.payload ≢ 0
        → flow_state.done ≡ true
        → feed_tls lower k raw now d ≡ (
          record d { tls = insert Key-discrete k flow_state d.tls },
          ok (flow_state.name, flow_state.result),
        )
    unfolding feed_tls flow_state
    feed_done z f = ground arith

    feed_next :
        length ti.payload ≢ 0
        → flow_state.done ≡ false
        → feed_tls lower k raw now d ≡ (
            let r = feed_state lower ti.seq ti.payload flow_state in
            (record d { tls = insert Key-discrete k r.0 d.tls }, r.1))
    unfolding feed_tls flow_state
    feed_next z f = ground arith

    feed_parsed : AreBounded d → IsFed (feed_tls lower k raw now d)
    unfolding flow_state
    feed_parsed h =
        let b = current-IsBounded k now d h in
        elim (ℕ_discrete (length ti.payload) 0) [
          | yes z ↦ subst IsFed (sym (feed_empty z)) (h, tt)
          | no z ↦ elim (Bool-cases (current now (find_tls k d.tls)).done) [
            | inl f ↦ subst IsFed (sym (feed_done z f)) (store-AreBounded k flow_state d b h, tt)
            | inr f ↦ subst IsFed (sym (feed_next z f)) (
              store-AreBounded k (feed_state lower ti.seq ti.payload flow_state).0 d
                  (feed_state-IsBounded ti.seq ti.payload flow_state b) h,
              feed_state-Returns ti.seq ti.payload flow_state,
            )
          ]
        ]

  -- Whatever packet a flow brings, `FeedTLS` gives an answer without a panic, and keeps at most 64 KiB
  -- of each flow.
  pub feed_tls-IsFed :
      (k : Key) (raw : Bytes) (now : ℕ) (d : Discovery)
      → AreBounded d
      → IsFed (feed_tls lower k raw now d)
  unfolding feed_tls
  feed_tls-IsFed k raw now d h = go (parse_tcp_info raw) refl (parse_tcp_info-Returns raw)
    where
      go :
          (o : Outcome Error (Packet × TcpInfo))
          → parse_tcp_info raw ≡ o
          → Returns o
          → IsFed (feed_tls lower k raw now d)
      go (ok (p, ti)) e r = feed_parsed k raw now d p ti e h
      go (err x) e r = rw (e, feed_tls) (h, tt)
      go panic e r = elim r [ ]
      go out_of_fuel e r = elim r [ ]
