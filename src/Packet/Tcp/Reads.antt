-- ===== src/Packet/Tcp/Reads.antt =====
-- internal/packet/packet.go: the reads of `ParseTCPInfo`.
use split_wire.Prelude.{Bytes, Outcome, Returns, arith, err, ok, out_of_fuel, panic, refl, ◌≡◌}
use split_wire.Packet.Parse.{Packet, parse, Error}
use split_wire.Packet.Tcp.{parse_tcp_info}
use split_wire.Packet.Parse.Bounds.{IsWithin, parse-IsWithin, parse-Returns}

parsed-Returns :
    (b : Bytes) (p : Packet) → parse b ≡ ok p → IsWithin b p → Returns (parse_tcp_info b)
unfolding parse_tcp_info
parsed-Returns b p e w = ground (arith, w.l4_total, w.total_length)

pub parse_tcp_info-Returns : (b : Bytes) → Returns (parse_tcp_info b)
unfolding parse_tcp_info
parse_tcp_info-Returns b = go (parse b) refl (parse-Returns b)
  where
    go : (o : Outcome Error Packet) → parse b ≡ o → Returns o → Returns (parse_tcp_info b)
    go (ok p) e h = parsed-Returns b p e (parse-IsWithin b p e)
    go (err x) e h = ground arith
    go panic e h = elim h [ ]
    go out_of_fuel e h = elim h [ ]
