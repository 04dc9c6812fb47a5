-- ===== src/Tests/Packets.antt =====
-- Packets for the examples, byte for byte.
use split_wire.Ip.{Addr, v4}
use split_wire.Prelude.{Bytes, [], ok, refl, ◌∷◌, ◌≡◌}
use split_wire.Packet.Parse.{Packet, parse, parse4, ports}

abbrev pub client_addr : Addr
client_addr = v4 (10 ∷ 0 ∷ 0 ∷ 5 ∷ [])

abbrev pub server_addr : Addr
server_addr = v4 (9 ∷ 9 ∷ 9 ∷ 9 ∷ [])

-- The tunnel's own address.
abbrev pub tunnel_addr : Addr
tunnel_addr = v4 (172 ∷ 16 ∷ 0 ∷ 2 ∷ [])

-- A TCP segment with four bytes of payload, from 10.0.0.5:1234 to 9.9.9.9:443.
abbrev pub client_packet : Bytes
client_packet =
    69 ∷ 0 ∷ 0 ∷ 44 ∷ 0 ∷ 7 ∷ 0 ∷ 0 ∷ 64 ∷ 6 ∷ 0 ∷ 0 ∷ 10 ∷ 0 ∷ 0 ∷ 5 ∷ 9 ∷ 9 ∷ 9 ∷ 9 ∷ 4 ∷ 210 ∷ 1
    ∷ 187 ∷ 0 ∷ 0 ∷ 0 ∷ 1 ∷ 0 ∷ 0 ∷ 0 ∷ 2 ∷ 80 ∷ 24 ∷ 255 ∷ 255 ∷ 0 ∷ 0 ∷ 0 ∷ 0 ∷ 71 ∷ 69 ∷ 84 ∷ 32
    ∷ []

abbrev pub client_view : Packet
client_view = record {
  version = 4;
  protocol = 6;
  src = client_addr;
  dst = server_addr;
  src_port = 1234;
  dst_port = 443;
  l4 = 20;
  total = 44;
}

pub client_parses : parse client_packet ≡ ok client_view
unfolding parse parse4 ports
client_parses = refl

-- The packet as the tunnel sends it.
abbrev pub tunnel_packet : Bytes
tunnel_packet =
    69 ∷ 0 ∷ 0 ∷ 44 ∷ 0 ∷ 7 ∷ 0 ∷ 0 ∷ 64 ∷ 6 ∷ 0 ∷ 0 ∷ 172 ∷ 16 ∷ 0 ∷ 2 ∷ 9 ∷ 9 ∷ 9 ∷ 9 ∷ 4 ∷ 210
    ∷ 1 ∷ 187 ∷ 0 ∷ 0 ∷ 0 ∷ 1 ∷ 0 ∷ 0 ∷ 0 ∷ 2 ∷ 80 ∷ 24 ∷ 255 ∷ 255 ∷ 0 ∷ 0 ∷ 0 ∷ 0 ∷ 71 ∷ 69 ∷ 84
    ∷ 32 ∷ []

abbrev pub tunnel_view : Packet
tunnel_view = record client_view { src = tunnel_addr }

pub tunnel_parses : parse tunnel_packet ≡ ok tunnel_view
unfolding parse parse4 ports
tunnel_parses = refl

-- The server's answer to it.
abbrev pub reply_packet : Bytes
reply_packet =
    69 ∷ 0 ∷ 0 ∷ 40 ∷ 0 ∷ 9 ∷ 0 ∷ 0 ∷ 64 ∷ 6 ∷ 0 ∷ 0 ∷ 9 ∷ 9 ∷ 9 ∷ 9 ∷ 172 ∷ 16 ∷ 0 ∷ 2 ∷ 1 ∷ 187
    ∷ 4 ∷ 210 ∷ 0 ∷ 0 ∷ 0 ∷ 2 ∷ 0 ∷ 0 ∷ 0 ∷ 5 ∷ 80 ∷ 16 ∷ 255 ∷ 255 ∷ 0 ∷ 0 ∷ 0 ∷ 0 ∷ []

abbrev pub reply_view : Packet
reply_view = record {
  version = 4;
  protocol = 6;
  src = server_addr;
  dst = tunnel_addr;
  src_port = 443;
  dst_port = 1234;
  l4 = 20;
  total = 40;
}

pub reply_parses : parse reply_packet ≡ ok reply_view
unfolding parse parse4 ports
reply_parses = refl
