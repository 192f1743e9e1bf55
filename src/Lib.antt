-- ===== src/Lib.antt =====
-- A model of metalbond, a route reflector for overlay networks: nodes exchange the routes of virtual
-- networks (VNIs) over TCP. Paths are from the root of the repository.
--
-- Parts
--   RouteTable (routetable.go): the table of routes, VNI to destination to next hop to the peers that
--     the route came from, as nested association lists. RouteTable/Effects, Pruned, Listing, Listed,
--     Own and Refinement are about its methods. `find` looks a route up; a peer is a parameter type
--     there.
--   Types (types.go): the data and the messages; Types/Strings has their texts. Wire (types.go, and
--     `sendMessage` and `rxLoop` of peer.go): Wire/Serialize is the protobuf payloads, Wire/Packet the
--     packets and one round of `rxLoop`; Wire/Library holds what is asked of net/netip and of protobuf.
--   Client (client.go): the interface through which routes leave metalbond.
--   Netlink (netlink.go): the client that writes to the Linux kernel; Netlink/KernelRoutes holds what
--     is asked of the kernel, Netlink/Sort models `slices.SortFunc`, Netlink/Cleanup the start of the
--     client.
--   Bond (metalbond.go and peer.go): `MetalBond` and its peers. Bond/Send, Distribute, Received,
--     Announce, Subscriptions, State, Session, Cleanup and Lifecycle hold the methods, Bond/Loops the
--     rounds of a peer's goroutines, Bond/Relay the way from the bytes that are read to `handle`;
--     Bond/Steps is what can happen at a node, and the other files are about them.
--   Http (http.go): the routes that the web pages show, in Http/Order their order, and in
--     Http/Handlers the handlers of the pages.
--   CommandLine (cmd/metalbond/main.go and pb/util.go): the arguments of the program, and in
--     CommandLine/Start what it does to the node. CommandLine/Program chooses the client and composes
--     the commands, CommandLine/Wait is the wait for the peers, CommandLine/Tables the route tables
--     that are named. Base/Text models what it uses of Go's `strings` and `strconv`.
--   ArpSpoofer (extras/arp_spoofer): the program that answers ARP requests; ArpSpoofer/Network models
--     what it uses of Go's `net`, ArpSpoofer/Program is its `main`.
--   Examples: concrete parameters and inputs.
--
-- State. A method takes the state and returns the new one, with its error as a value. Bond.Node is
-- the `MetalBond`, the heap of its peers, the state of its client, and the goroutines that were
-- started. A peer is a pointer, so PeerId is its address and `none` is nil. Go visits a map in any
-- order; the model visits it in the order of the list. Numbers are natural numbers, with `% 2 ^ w`
-- where the code converts to a word of w bits. A crash of the program is a value of its own.
--
-- Bounds. A round of `rxLoop` that read n bytes gets the fuel n + 1: a packet takes at least four
-- bytes. A number is printed with itself as fuel. All other loops run over a list; a loop that waits
-- runs over the list of what happens to it, such as the rounds of the wait for the peers.
--
-- Parameters. net/netip, protobuf and the kernel are records of functions, with the documented
-- behaviour that the code relies on as laws: unmarshalling undoes marshalling, a prefix is made of
-- its parts, a printed address is read back, `RouteReplace` and `RouteDel` change one place, or none
-- if they fail, and a listing has the routes of its table. The pages are made by functions that are
-- arguments, and so are the frames of gopacket and its handles, which are open until they are closed.
--
-- Steps. Bond/Steps lets any method be called and any goroutine go a round at any time, whole calls at
-- a time; the two calls of `processRxUpdate` at an ADD are also steps of their own, the second one
-- only while the peer's own table holds the route. A peer is allocated only at an address that the
-- table of the node has no route of.
--
-- Not modelled. Mutexes, and other interleavings inside a method: where the code takes a lock twice
-- in a method, the model still has one step. The lock that `addSubscriber` returns with is kept, and
-- `addSubscriber` waits for it; the other methods that take `mtxSubscribers` do not. What the
-- goroutines of the peers do while the client cleans up after `Shutdown` is left out. The capacity
-- of channels: a send is made at once. Sockets, logging, and the moment at which a timer runs out;
-- its duration is modelled. `Reset` has two halves around its wait for goroutines; where `handle`
-- itself calls it, in `processRxHello` and `addSubscriber`, it ends at the wait. Of the web view
-- the templates and the marshalling, of types.go `UnmarshalText`, which is encoding/json, of the
-- command line the parsing of flags and the signals; generated code (pb/metalbond.pb.go).
pub mod Base
pub mod RouteTable
pub mod Types
pub mod Wire
pub mod Client
pub mod Netlink
pub mod Bond
pub mod Http
pub mod CommandLine
pub mod ArpSpoofer
mod Examples
