-- ===== src/Tests/Browsing.antt =====
-- The discovery of the names that a browser asks for.
use split_wire.Prelude.{Bytes, [], arith, inl, lookup, ltb, none, refl, true, ◌+◌, ◌∷◌, ◌≡◌}
use split_wire.Discovery.{new_discovery, feed_tls, suppress_unknown_quic, find_quic}
use split_wire.Discovery.Buffers.{IsFed, AreBounded, feed_tls-IsFed}
use split_wire.Discovery.Quic.{suppress_unknown_quic_lem}
use split_wire.Ip.{Addr, v4, unmap}
use split_wire.Tests.Routing.{flow_to}

-- A TCP segment with the first bytes of a record of a hello.
abbrev hello_start : Bytes
hello_start =
    69 ∷ 0 ∷ 0 ∷ 43 ∷ 0 ∷ 7 ∷ 0 ∷ 0 ∷ 64 ∷ 6 ∷ 0 ∷ 0 ∷ 10 ∷ 0 ∷ 0 ∷ 5 ∷ 9 ∷ 9 ∷ 9 ∷ 9 ∷ 4 ∷ 210 ∷ 1
    ∷ 187 ∷ 0 ∷ 0 ∷ 0 ∷ 77 ∷ 0 ∷ 0 ∷ 0 ∷ 0 ∷ 80 ∷ 24 ∷ 0 ∷ 0 ∷ 0 ∷ 0 ∷ 0 ∷ 0 ∷ 22 ∷ 3 ∷ 1 ∷ []

new_discovery-AreBounded : AreBounded new_discovery
unfolding lookup
new_discovery-AreBounded k s e = cc

feed_tls-IsFed_example :
    IsFed (λ t. t) (feed_tls (λ t. t) (flow_to 443) hello_start 10 new_discovery)
feed_tls-IsFed_example =
    feed_tls-IsFed (λ t. t) (flow_to 443) hello_start 10 new_discovery new_discovery-AreBounded

abbrev site : Addr
site = v4 (9 ∷ 9 ∷ 9 ∷ 9 ∷ [])

no_contact : find_quic (unmap site) new_discovery.quic ≡ none
unfolding lookup
no_contact = refl

suppress_unknown_quic_lem_example :
    ((suppress_unknown_quic site 100 new_discovery).1 ≡ true)
    × (suppress_unknown_quic site 103 (suppress_unknown_quic site 100 new_discovery).0
        ≡ ((suppress_unknown_quic site 100 new_discovery).0, ltb 103 (100 + 4)))
suppress_unknown_quic_lem_example =
    suppress_unknown_quic_lem site 100 103 new_discovery (inl no_contact) (omega arith)
