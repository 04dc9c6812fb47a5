-- ===== src/Tests/Parsing.antt =====
-- internal/packet/packet.go and internal/domain/dns.go: the parsers and the writers of packets on
-- whole packets.
use split_wire.Prelude.{
  Bytes, IsBytes, IsBytes-append, IsBytes-replicate, Returns, Yields, [], arith, inl, length, ok,
  refl, replicate, true, ◌%◌, ◌++◌, ◌+◌, ◌<◌, ◌∷◌, ◌≡◌,
}
use split_wire.Packet.Parse.{parse, parse4, ports, Packet}
use split_wire.Packet.Fragment.{fragment_ipv4}
use split_wire.Packet.Fragment.Parts.{IsFragmented, fragment_ipv4-IsFragmented}
use split_wire.Packet.Parse.Bounds.{IsWithin, parse-IsWithin, parse-Returns}
use split_wire.Packet.Rewrite.{pad16, trim_to_ip_length}
use split_wire.Packet.Split.{split_for_mtu}
use split_wire.Text.{trim_dot}
use split_wire.Hello.{
  extensions, records, hello_body, hello_tail, parse_client_hello, server_list, server_name,
  server_names, whole_hello,
}
use split_wire.Packet.Split.Segments.{IsSplit, split_for_mtu-IsSplit}
use split_wire.Tests.Packets.{client_packet, client_parses, client_view}
use split_wire.Dns.{parse_dns_response}
use split_wire.Dns.Safety.{parse_dns_response-Returns}
use split_wire.Hello.Safety.{server_name-Returns}
use split_wire.Packet.Rewrite.Padding.{trim_to_ip_length-pad16}

parse-Returns_example : Returns (parse client_packet)
parse-Returns_example = parse-Returns client_packet

parse-IsWithin_example : IsWithin client_packet client_view
parse-IsWithin_example = parse-IsWithin client_packet client_view client_parses

-- A packet like the client's with 1000 bytes of payload, which a MTU of 576 splits.
abbrev large_header : Bytes
large_header =
    69 ∷ 0 ∷ 4 ∷ 16 ∷ 0 ∷ 7 ∷ 0 ∷ 0 ∷ 64 ∷ 6 ∷ 0 ∷ 0 ∷ 10 ∷ 0 ∷ 0 ∷ 5 ∷ 9 ∷ 9 ∷ 9 ∷ 9 ∷ 4 ∷ 210 ∷ 1
    ∷ 187 ∷ 0 ∷ 0 ∷ 0 ∷ 1 ∷ 0 ∷ 0 ∷ 0 ∷ 2 ∷ 80 ∷ 25 ∷ 255 ∷ 255 ∷ 0 ∷ 0 ∷ 0 ∷ 0 ∷ []

abbrev large_packet : Bytes
large_packet = large_header ++ replicate 1000 1

abbrev large_view : Packet
large_view = record client_view { total = 1040 }

large_parses : parse large_packet ≡ ok large_view
unfolding parse parse4 ports
large_parses = refl

large_packet-IsBytes : IsBytes large_packet
large_packet-IsBytes =
    IsBytes-append large_header (replicate 1000 1) (ground arith)
      (IsBytes-replicate 1000 1 (omega arith))

split_for_mtu-IsSplit_example :
    Yields (IsSplit large_packet 576 large_view) (split_for_mtu large_packet 576)
split_for_mtu-IsSplit_example = split_for_mtu-IsSplit large_packet 576 large_view large_parses

fragment_ipv4-IsFragmented_example :
    Yields (IsFragmented large_packet 576 3) (fragment_ipv4 large_packet 576 3)
fragment_ipv4-IsFragmented_example =
    fragment_ipv4-IsFragmented large_packet 576 3 large_packet-IsBytes (omega arith) (omega arith)

-- A response that repeats the question for `a` and has no answer.
abbrev dns_packet : Bytes
dns_packet = 0 ∷ 1 ∷ 129 ∷ 128 ∷ 0 ∷ 1 ∷ 0 ∷ 0 ∷ 0 ∷ 0 ∷ 0 ∷ 0 ∷ 1 ∷ 97 ∷ 0 ∷ 0 ∷ 1 ∷ 0 ∷ 1 ∷ []

parse_dns_response-Returns_example : Returns (parse_dns_response dns_packet (λ name. true))
parse_dns_response-Returns_example = parse_dns_response-Returns dns_packet (λ name. true)

-- A record with a ClientHello that names `ab`.
abbrev hello_packet : Bytes
hello_packet =
    22 ∷ 3 ∷ 1 ∷ 0 ∷ 58 ∷ 1 ∷ 0 ∷ 0 ∷ 54 ∷ replicate 34 7
    ++ 0 ∷ 0 ∷ 2 ∷ 19 ∷ 1 ∷ 1 ∷ 0 ∷ 0 ∷ 11 ∷ 0 ∷ 0 ∷ 0 ∷ 7 ∷ 0 ∷ 5 ∷ 0 ∷ 0 ∷ 2 ∷ 97 ∷ 98 ∷ []

hello_name : server_name (λ name. name) hello_packet ≡ ok (97 ∷ 98 ∷ [], true)
unfolding server_name records whole_hello parse_client_hello hello_body hello_tail extensions
    server_list server_names trim_dot
hello_name = refl

server_name-Returns_example : Returns (server_name (λ name. name) hello_packet)
server_name-Returns_example = server_name-Returns (λ name. name) hello_packet

trim_to_ip_length-pad16_example :
    (length (pad16 client_packet) % 16 ≡ 0)
    × (length (pad16 client_packet) < length client_packet + 16)
    × (trim_to_ip_length (pad16 client_packet) ≡ client_packet)
trim_to_ip_length-pad16_example =
    trim_to_ip_length-pad16 client_packet (inl (refl, omega arith, refl))
