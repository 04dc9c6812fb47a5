-- ===== src/Tests/Translation.antt =====
-- internal/nat/nat.go: a flow through the mapper of a fresh tunnel.
use split_wire.Prelude.{
  Bytes, IsBytes, [], arith, inr, lookup, lookup-insert_self, ok, refl, some, true, ◌+◌, ◌≡◌,
}
use split_wire.Mapper.Invariant.{Inv}
use split_wire.Mapper.Reachable.{Reachable, start, prepared, reply_key_unique}
use split_wire.Mapper.Methods.{new_mapper-Inv, prepare_outbound-Inv}
use split_wire.Mapper.{
  Meta, assign, Mapper, new_mapper, outbound_key, pick_port, prepare_outbound, readdress_src,
  restore_inbound, tunnel_for, OutboundKey-discrete, find_out,
}
use split_wire.Ip.{invalid}
use split_wire.Mapper.Assign.{IsAssigned, assign_lem}
use split_wire.Mapper.RoundTrip.{IsOwn, src_at, dst_at, replaced, restore-prepare}
use split_wire.Packet.Parse.{parse, parse4, ports}
use split_wire.Packet.Rewrite.{rewrite_src}
use split_wire.Tests.Packets.{
  client_addr, client_packet, client_parses, client_view, reply_packet, reply_parses, reply_view,
  tunnel_addr, tunnel_packet, tunnel_parses, tunnel_view,
}

abbrev capture : Meta
capture = record { if_idx = 7; sub_if_idx = 1 }

abbrev fresh : Mapper
fresh = new_mapper tunnel_addr invalid

-- The mapper after the first packet.
abbrev used : Mapper
used = (prepare_outbound fresh client_packet capture 5).0

client_packet-IsBytes : IsBytes client_packet
client_packet-IsBytes = ground arith

prepared_run : prepare_outbound fresh client_packet capture 5 ≡ (used, tunnel_packet, ok capture)
unfolding prepare_outbound new_mapper parse parse4 ports assign pick_port lookup readdress_src
    rewrite_src
prepared_run = refl

fresh-IsOwn : IsOwn fresh
unfolding new_mapper
fresh-IsOwn = ground arith

restore-prepare_example :
    (tunnel_view.src ≡ tunnel_for fresh client_view.src)
    × (tunnel_view.dst ≡ client_view.dst)
    × (tunnel_view.dst_port ≡ client_view.dst_port)
    × (raw3 : Bytes) × ((restore_inbound used reply_packet 9).1 ≡ raw3)
    × ((restore_inbound used reply_packet 9).2 ≡ ok (capture, true))
    × (parse raw3 ≡ ok (record reply_view { dst = client_addr; dst_port = 1234 }))
    × (tunnel_packet
        ≡ replaced client_packet
            (src_at client_view)
            (tunnel_for fresh client_view.src)
            client_view.l4
            client_view.src_port
            tunnel_view.src_port)
    × (raw3
        ≡ replaced reply_packet
            (dst_at reply_view)
            client_addr
            (reply_view.l4 + 2)
            reply_view.dst_port
            1234)
restore-prepare_example =
    restore-prepare fresh used client_packet tunnel_packet capture 5 client_view
      (new_mapper-Inv tunnel_addr invalid) fresh-IsOwn client_packet-IsBytes client_parses
      (refl, omega arith) prepared_run tunnel_view reply_packet reply_view 9 tunnel_parses
      reply_parses (refl, omega arith) (refl, refl, refl, refl, refl)

prepare_outbound-Inv_example : Inv (prepare_outbound fresh client_packet capture 5).0
prepare_outbound-Inv_example =
    prepare_outbound-Inv fresh client_packet capture 5 client_packet-IsBytes
      (new_mapper-Inv tunnel_addr invalid)

assign_lem_example :
    IsAssigned fresh
      (outbound_key client_view)
      capture
      40000
      (assign fresh (outbound_key client_view) capture 5)
assign_lem_example =
    assign_lem fresh (outbound_key client_view) capture 5 (omega arith) 40000
      (new_mapper-Inv tunnel_addr invalid) (inr (omega arith, omega arith))

used_flow : find_out (outbound_key client_view) used.by_out ≡ some 0
unfolding prepare_outbound new_mapper parse parse4 ports assign pick_port lookup readdress_src
    rewrite_src
used_flow = lookup-insert_self OutboundKey-discrete (outbound_key client_view) 0 []

used-Reachable : Reachable tunnel_addr invalid used
used-Reachable = prepared fresh client_packet capture 5 client_packet-IsBytes start

reply_key_unique_example : outbound_key client_view ≡ outbound_key client_view
reply_key_unique_example =
    reply_key_unique tunnel_addr invalid used (outbound_key client_view) (outbound_key client_view)
      0 0 used-Reachable used_flow used_flow refl
