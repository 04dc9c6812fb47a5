-- ===== src/Tests/Decisions.antt =====
-- internal/policy/policy.go and internal/loghub/loghub.go: a rule for one program, and a consumer
-- that reads the log.
use split_wire.Prelude.{Bytes, [], none, ok, true, ◌&&◌, ◌∷◌, ◌≡◌}
use split_wire.Loghub.Screen.{Run, start, notified, wrote, consume, drain_and_ack-consume}
use split_wire.Loghub.History.{last}
use split_wire.Policy.{
  decide, Decision, decide_host, group_destination_matches, host_matches, new_engine,
}
use split_wire.Policy.Decisions.{picks, decide_host_lem, decide_lem}
use split_wire.Policy.Compiled.{any_group}
use split_wire.Config.{Group}
use split_wire.Flow.{Process}
use split_wire.Ip.{unmap, v4}
use split_wire.Loghub.{Ring, drain_and_ack, new_ring, set_notify, write_ring}
use split_wire.Tests.Packets.{server_addr}
use split_wire.Text.{Platform}

abbrev plain : Platform
plain = record { lower = λ t. t; base = λ t. t }

-- Programs named `a` may reach 9.9.0.0/16 and the hosts below `b`.
abbrev rule : Group
rule = record {
  name = b'r' ∷ [];
  apps = (b'a' ∷ []) ∷ [];
  domains = (b'*' ∷ b'.' ∷ b'b' ∷ []) ∷ [];
  networks = record { addr = v4 (9 ∷ 9 ∷ 0 ∷ 0 ∷ []); bits = 16 } ∷ [];
}

abbrev program : Process
program = record { pid = 42; name = b'a' ∷ []; path = [] }

decide_lem_example :
    (d : Decision) × (decide plain (new_engine plain (rule ∷ []) []) none 100 program server_addr
      ≡ ok d)
    × (d.tunnel
        ≡ any_group
            (λ j g.
              picks plain program g && group_destination_matches none 100 (unmap server_addr) j g)
            0
            (rule ∷ []))
decide_lem_example = decide_lem plain (rule ∷ []) [] program none 100 server_addr

decide_host_lem_example :
    (d : Decision) × (decide_host plain
        (new_engine plain (rule ∷ []) [])
        program
        (b'w' ∷ b'.' ∷ b'b' ∷ [])
      ≡ ok d)
    × (d.tunnel
        ≡ any_group
            (λ j g. picks plain program g && host_matches plain (b'w' ∷ b'.' ∷ b'b' ∷ []) j g)
            0
            (rule ∷ []))
decide_host_lem_example = decide_host_lem plain (rule ∷ []) [] program (b'w' ∷ b'.' ∷ b'b' ∷ [])

-- A consumer is told of the ring, and a record is written and read.
abbrev line : Bytes
line = b'o' ∷ b'k' ∷ []

abbrev watched : Ring
watched = (set_notify true (new_ring 4096)).0

watched-Run : Run (write_ring line watched).0 [] line
watched-Run = wrote watched [] [] line (notified (new_ring 4096) [] [] true (start 4096))

drain_and_ack-consume_example :
    let r = (write_ring line watched).0 in
    last r.max_bytes (consume (drain_and_ack r).1 []) ≡ last r.max_bytes line
drain_and_ack-consume_example = drain_and_ack-consume watched-Run

abbrev read : Ring
read = (drain_and_ack (write_ring line watched).0).0
