-- ===== src/Lib.antt =====
-- SplitWire sends the traffic of chosen programs through a WireGuard tunnel on Windows. This library
-- models the part of it that works on packets and on the tables about them.
--
-- How a packet goes through the program: the driver hands a captured packet to the engine, which parses
-- it (internal/packet/packet.go), looks up the process that owns its flow (internal/flow/index.go),
-- takes the names from DNS responses (internal/domain/dns.go) and TLS hellos (internal/tlshello/sni.go)
-- and notes the addresses learnt for them (internal/domain/tracker.go), gives it the tunnel's address
-- and a port of its own (internal/nat/nat.go), and cuts it to the tunnel's MTU (SplitForMTU and
-- FragmentForMTU of packet.go). What comes back is put together from fragments
-- (internal/reassembly/ipv4.go and ipv6.go) and translated back by the mapper. The loops that do this
-- are those of internal/engine/engine_windows.go; between them and the network the client of
-- internal/wireguard/client.go seals and opens the packets of the tunnel.
--
-- Which file models which part:
--   Prelude       lists, bytes, maps and the outcomes of Go functions (a result, an error value, a
--                 panic on an index out of range, or the model's own fuel used up); the checks that
--                 Go makes on each index and slice are in `at`, `slice`, `put` and `copy_at`
--   Ip, Text      what the program uses of net/netip, strings and path/filepath
--   Packet/Parse  internal/packet/packet.go: Parse, parse4, parse6, ports
--   Packet/Rewrite   RewriteSrc, RewriteDst, RewriteSrcPort, RewriteDstPort, TrimToIPLength, Pad16
--   Packet/Tcp    ClampTCPMSS, ParseTCPInfo, BuildTCPResetReply, IsTCPSYN
--   Packet/Split  SplitForMTU
--   Packet/Fragment  fragmentIPv4 and ipv4HeaderChecksum
--   Packet/Fragment6 IsFragment, FragmentForMTU, ipv6FragmentPoint, fragmentIPv6
--   Mapper        internal/nat/nat.go: Mapper with PrepareOutbound, RestoreInbound and Sweep
--   Flow          internal/flow/index.go: Index with its adds, deletes, lookups and Sweep
--   Dns           internal/domain/dns.go: ParseDNSResponse and readName
--   Config        internal/config/config.go: Group, MatchDomainPattern, MatchesDomain
--   Tracker       internal/domain/tracker.go: Tracker with AddGroups, ContainsGroup and Sweep
--   Policy        internal/policy/policy.go: Engine with Decide, DecideHost and the questions beside them
--   Discovery     internal/browserdisc/discovery.go: Discovery with FeedTLS and SuppressUnknownQUIC
--   Routes        internal/engine/flowroute.go, proxyroute.go and dialProxyRegistered of proxydial.go
--   Loghub        internal/loghub/loghub.go: Hub.Write and Ring; Loghub/Screen adds what
--                 the comment on Drain asks of a consumer of the ring
--   Cryptox       internal/cryptox: blake2s.go, chacha_core.go, aead_other.go and aead.go
--   Wireguard     internal/wireguard/client.go: replay.Accept; Wireguard/Client has the sessions,
--                 SendPacket, handleTransport, reader and reaper, Wireguard/Handshake has
--                 makeInitiation, consumeResponse and consumeCookie, Wireguard/Attempts the loop
--                 handshake; Wireguard/Responder is the other end as
--                 tests/wg_interop_responder.py has it
--   Runner        internal/engine/engine_windows.go: the state of the engine; Runner/Route,
--                 Runner/Discover and Runner/Outbound are captureLoop, Runner/Fragments
--                 reassembly and reinjectDirect, Runner/Sending sendLoop, Runner/Inbound
--                 wgReceiveLoop, Runner/Upkeep flowLoop, socketLoop, dnsLoop and maintenanceLoop
--   Hello         internal/tlshello/sni.go: ServerName and parseClientHello
--   Reassembly    internal/reassembly/ipv4.go: IPv4 with PushInfo, Sweep and TakeExpired;
--                 Reassembly/Ipv6 is the table of ipv6.go, with the same operations
--   Tests         runs of the theorems on whole packets and small tables
--
-- A Go function that fails returns an `Outcome`; a method that changes an object takes it as an
-- argument and returns it. A call under a mutex is one step. The clock, the counter of fragment
-- identifications and random numbers are arguments. Integers are natural numbers with the wrap-around
-- of their width written out (`u16`, `u32`, `% 2 ^ w`).
--
-- Fuel: the loops over the headers of IPv6, over the segments and fragments of a packet, over TCP
-- options and over the labels, records and extensions of a message move their offset forwards in each
-- round, so one more round than the length of the buffer is enough. The chain of pointers of readName is
-- cut off by the source itself after 16 steps, and the search for a port after 21000.
--
-- The curve X25519, the sockets, the random bytes and the packet driver are arguments. What the
-- theorem on the handshake assumes of them is in `Laws`: public keys of 32 bytes, one secret for both
-- ends, and ciphers that can be made for every key and open what they seal. An attempt of net.Dialer
-- may call ControlContext after it has returned; `HasNoLateCall` says of a network that it does not.
-- The engine's loops run beside each other; a round of any loop is one step, so that every order of
-- rounds is a run of the model.
--
-- Not modelled: the driver, the Win32 interface and the calls of the Windows API, among them the ciphers
-- of aead_windows.go and the snapshot of sockets; the start and stop of the engine and of the WireGuard
-- client, the goroutine of its background rekey, the parser of the configuration, the session and the
-- local proxy.
pub mod Prelude
pub mod Config
pub mod Cryptox
pub mod Discovery
pub mod Dns
pub mod Flow
pub mod Hello
pub mod Ip
pub mod Loghub
pub mod Mapper
pub mod Packet
pub mod Policy
pub mod Reassembly
pub mod Routes
pub mod Runner
pub mod Tests
pub mod Text
pub mod Tracker
pub mod Wireguard
