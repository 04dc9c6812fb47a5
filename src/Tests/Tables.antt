-- ===== src/Tests/Tables.antt =====
-- internal/reassembly/ipv4.go and internal/flow/index.go: the tables after an event.
use split_wire.Flow.Histories.{History-Inv, closed, opened, created}
use split_wire.Prelude.{
  Bytes, [], arith, false, ite, ltb, none, refl, true, ℕ_discrete, ◌&&◌, ◌++◌, ◌+◌, ◌||◌, ◌↔◌, ◌∷◌,
  ◌≡◌,
}
use split_wire.Flow.Buckets.{owned}
use split_wire.Flow.Sockets.{Inv, new_index-Inv, add_socket-Inv, owned-delete_socket}
use split_wire.Reassembly.Invariant.{Inv as Table_Inv}
use split_wire.Reassembly.Bounds.{new_table-Inv, push_info-Inv}
use split_wire.Tracker.{sweep, new_tracker, Tracker, add_groups, clamp_ttl, contains_group}
use split_wire.Tracker.Expiry.{lists, contains_group-add_groups, contains_group-sweep}
use split_wire.Flow.{new_index, Index, LocalKey, Process, add_socket, delete_socket}
use split_wire.Reassembly.Ipv4.{new_table, push_info}
use split_wire.Tests.Packets.{client_addr}
use split_wire.Text.{Platform, Text}
use split_wire.Config.{Group, match_normalized}
use split_wire.Config.Wildcard.{match_wildcard}
use split_wire.Ip.{Addr-discrete, unmap}

-- The first of the fragments of a UDP datagram.
abbrev first_fragment : Bytes
first_fragment =
    69 ∷ 0 ∷ 0 ∷ 28 ∷ 0 ∷ 7 ∷ 32 ∷ 0 ∷ 64 ∷ 17 ∷ 0 ∷ 0 ∷ 10 ∷ 0 ∷ 0 ∷ 5 ∷ 9 ∷ 9 ∷ 9 ∷ 9 ∷ 1 ∷ 2 ∷ 3
    ∷ 4 ∷ 5 ∷ 6 ∷ 7 ∷ 8 ∷ []

push_info-Inv_example : Table_Inv (push_info first_fragment 100 new_table).0
push_info-Inv_example = push_info-Inv first_fragment 100 new_table new_table-Inv

abbrev plain : Platform
plain = record { lower = λ t. t; base = λ t. t }

abbrev browser : Process
browser = record { pid = 42; name = 97 ∷ []; path = [] }

-- An index with one endpoint.
abbrev one_socket : Index
one_socket = add_socket plain 5 6 client_addr 1234 browser 100 new_index

abbrev client_key : LocalKey
client_key = record { proto = 6; local = client_addr; port = 1234 }

one_socket-Inv : Inv one_socket
one_socket-Inv = add_socket-Inv plain 5 6 client_addr 1234 browser 100 new_index new_index-Inv

-- Two endpoints that share their address and port.
abbrev two_sockets : Index
two_sockets = add_socket plain 8 6 client_addr 1234 browser 110 one_socket

two_sockets-Inv : Inv two_sockets
two_sockets-Inv = add_socket-Inv plain 8 6 client_addr 1234 browser 110 one_socket one_socket-Inv

History-Inv_example : Inv (delete_socket 5 two_sockets)
History-Inv_example = History-Inv plain (delete_socket 5 two_sockets) (
    closed 5
      (opened 8 6 client_addr 1234 browser 110 (opened 5 6 client_addr 1234 browser 100 created)))

owned-delete_socket_example :
    owned 8 client_key (delete_socket 5 two_sockets).socket_local
    ≡ ite (ℕ_discrete 5 8) none (owned 8 client_key two_sockets.socket_local)
owned-delete_socket_example =
    owned-delete_socket 5 8 client_key two_sockets two_sockets-Inv (omega arith)

-- A tracker with one group, which learns the client's address for 60 seconds.
abbrev search_group : Group
search_group = record {
  name = [];
  apps = [];
  domains = (b'*' ∷ b'.' ∷ b'a' ∷ []) ∷ [];
  networks = [];
}

abbrev learnt : Tracker
learnt = add_groups client_addr (0 ∷ []) 60 100 (new_tracker (search_group ∷ []))

contains_group-sweep_example :
    contains_group client_addr 0 150 (sweep 120 learnt) ≡ contains_group client_addr 0 150 learnt
contains_group-sweep_example = contains_group-sweep client_addr 0 120 150 learnt (omega arith)

contains_group-add_groups_example : contains_group client_addr 0 150 learnt ≡ (
    contains_group client_addr 0 150 (new_tracker (search_group ∷ []))
    || ite
        (Addr-discrete (unmap client_addr) (unmap client_addr))
        (lists 0 (0 ∷ []) && ltb 0 1 && ltb 150 (100 + clamp_ttl 60))
        false)
contains_group-add_groups_example =
    contains_group-add_groups client_addr client_addr (0 ∷ []) 60 100 0 150
      (new_tracker (search_group ∷ [])) refl

match_wildcard_example :
    (match_normalized (b'*' ∷ b'.' ∷ b'a' ∷ []) (b'w' ∷ b'.' ∷ b'a' ∷ []) ≡ true)
    ↔ ((x : Text) × (b'w' ∷ b'.' ∷ b'a' ∷ [] ≡ x ++ b'.' ∷ b'a' ∷ []))
match_wildcard_example = match_wildcard (b'a' ∷ []) (b'w' ∷ b'.' ∷ b'a' ∷ [])
