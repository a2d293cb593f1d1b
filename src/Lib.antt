-- ===== src/Lib.antt =====
-- The backend of altair: NAT traversal for peers, with a STUN client, NAT detection, hole punching, a
-- relay client and a signaling server. Paths are from the root of the repository.
--
-- Parts and files:
-- - backend/pkg/stun/message.go: Stun/Message.antt has the types, Stun/Encode.antt `Encode` with its
--   writes at an offset, Stun/Decode.antt `Decode` with its loop and its checks. Stun/Wire.antt is the
--   wire format as one expression, against which both are proved.
-- - backend/pkg/stun/address.go: Stun/Address.antt, the two address attributes.
-- - backend/pkg/stun/client.go: Stun/Client.antt, `Discover` as a function of what the random source
--   and the socket answer (`Exchange`).
-- - Retry.antt: the loop with backoff that `DiscoverWithRetry`, `DetectWithRetry`
--   (backend/pkg/nat/detector.go) and `PunchWithRetry` (backend/pkg/punch/puncher.go) share.
-- - backend/pkg/nat/detector.go: Detector.antt, the NAT types, `Detect` over two rounds of `Discover`,
--   and the table of pairs that can punch holes.
-- - backend/internal/signaling: Signaling/Protocol.antt (protocol.go), Signaling/Peer.antt (peer.go),
--   Signaling/Room.antt and Signaling/Manager.antt (room.go), Signaling/Registry.antt (registry.go),
--   Signaling/Handler.antt (handler.go), Signaling/Server.antt and Signaling/Http.antt (server.go) and
--   Signaling/Mock.antt (mock.go). The handler reads a message, changes rooms and registry, and sends
--   to peers; the server adds connections and clean-ups.
--   Signaling/Socket.antt is one connection from its upgrade to its end (handler.go), and
--   Signaling/Startup.antt the configuration, the loops beside the handlers, and the command
--   (server.go, handler.go, backend/cmd/signaling/main.go). Signaling/Names.antt has the texts of types
--   and codes. Signaling/Spec.antt is the abstract specification: an assignment of rooms to peers that
--   the events alone determine, and the runs in which connections get new pointers and new IDs; the
--   modules below it relate the server's rooms and messages to it.
--   Signaling/Room/Unordered.antt takes a map of peers as a quotient of its orders, and
--   Signaling/Manager/Race.antt lets a clean-up run inside a join.
-- - backend/pkg/netutil/netutil.go: Addresses.antt, the addresses of a host and their kinds, and
--   Scanner.antt, the port scanner; Sockets.antt opens sockets.
-- - backend/pkg/relay/client.go: Relay.antt, the client and its allocation. Relay/Lease.antt is its
--   specification: a lease that is idle, held until a time, or over.
-- - backend/pkg/punch/puncher.go: Punch.antt. `PunchHole` tries the local addresses and then punches,
--   with a sender and a receiver that run at the same time over one socket. Punch/Pair.antt has two
--   punchers and the datagrams between them, as a relation of steps.
-- - backend/examples/chat/main.go: Demo.antt, which puts NAT detection, hole punching and the relay
--   together; its definitions call those of the packages. Demo/Sending.antt is the loop that sends.
-- - backend/cmd/chat/main.go: Chat.antt, the choice of the mode, the commands and the sizes, and
--   Chat/Session.antt, the connection and the loop over the lines, which a signal ends.
-- - backend/pkg/types/types.go: Types.antt. The String methods of the packages are in Stun/Names.antt and
--   Detector/Names.antt, over Format.antt, which has the verbs of fmt that they use.
-- - Prelude.antt, Bytes.antt, Outcome.antt and Net.antt: numbers and lists, byte slices, results with
--   errors and panics, and what is used of Go's package net.
--
-- State: a Go pointer to a peer is a number, and a heap gives the peer behind it, so the registry, the
-- rooms and the handler share peers as the code does. A map is an association list, and its order
-- stands for the order of iteration of a run. Handlers, connections, disconnections and clean-ups run
-- one after the other, each to its end, but for Signaling/Manager/Race.antt; goroutines that a
-- broadcast starts run at once. Whether the deadlines and writes of a connection succeed is fixed for its
-- life: a connection that fails once and works again is left out.
--
-- Numbers: natural numbers, with `% 2 ^ 16` and `% 2 ^ 64` where Go's types wrap around. Times are
-- nanoseconds, and a cutoff before time zero is zero. Fuel: the loop of `Decode` has one more than the
-- stated length of the attributes, and every round takes at least four bytes. The search for a free
-- peer ID goes through a given supply of random IDs, and the search for a free port through the ports
-- of the range. The loops over a socket (`ReceiveFrom`, the two stages of `PunchHole`, the wait of the
-- demo) run over a list of rounds, each with the time of its test and what the read brings; if the
-- rounds end first, the result is `no_fuel`, and termination is proved from a round that starts late.
-- Of the sender and the receiver of the punching, each has its own rounds, and which channel the
-- `select` reads is an argument; Punch/Packets.antt has what is written to the socket. Durations are
-- not negative. A decimal number is written with one more round than its value, which is enough.
--
-- Not modelled: JSON (a client's payload is its text, and the parser of a JOIN payload is a parameter),
-- sockets, the multiplexer of HTTP (a room's name is what it leaves of the path, so a name such as a//b or
-- .. that it cleans away does not reach the handler), signals that come while a line is handled, logging, the WebSocket adapter, the texts of errors beyond what they
-- name, printing and the terminal, the session of pkg/chat, which the repository does not hold, and the
-- user interface.
pub mod Prelude
pub mod Bytes
pub mod Format
pub mod Types
pub mod Sockets
pub mod Outcome
pub mod Net
pub mod Stun
pub mod Retry
pub mod Detector
pub mod Signaling
pub mod Scanner
pub mod Relay
pub mod Punch
pub mod Addresses
pub mod Demo
pub mod Chat
