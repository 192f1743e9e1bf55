-- ===== src/Bond.antt =====
-- metalbond.go and peer.go: the state of a `MetalBond` and of its peers. Peers are pointers: `PeerId`
-- names one, and the heap is a function from these to the peers' fields. `nil` is `none`.
pub mod Send
pub mod Distribute
pub mod Received
pub mod Relay
pub mod Reflected
pub mod Wired
pub mod Announce
pub mod State
pub mod Session
pub mod Sends
pub mod Fanout
pub mod Routing
pub mod Frame
pub mod Removal
pub mod Calls
pub mod Updates
pub mod Backed
pub mod Handshake
pub mod Subscribers
pub mod Subscriptions
pub mod Unsubscribed
pub mod Announced
pub mod Cleanup
pub mod Forgotten
pub mod Cleaned
pub mod Lifecycle
pub mod Queues
pub mod Waiting
pub mod Connect
pub mod Kept
pub mod Loops
pub mod CleanupSession
pub mod Replayed
pub mod Restart
pub mod Steps
pub mod Shutdown
use metalbond.Base.{
  true, false, ℕ, Bool, Option, List, Comparable, same, if◌then◌else◌, ℕ_discrete, nat_comparable,
  ◌∷◌,
}
use metalbond.Base.Map.{Map}
use metalbond.RouteTable.{RouteTable}
use metalbond.RouteTable
use metalbond.Types.{Destination, NextHop, ConnectionDirection, ConnectionState}
use metalbond.Client.{Client}
use metalbond.Wire.Library.{Netip, Proto}
use metalbond.Wire.Serialize.{WireError}

abbrev pub PeerId : Type 0
PeerId = ℕ

-- `*metalBondPeer`, which may be nil
abbrev pub PeerRef : Type 0
PeerRef = Option ℕ

unfoldable pub PeerRef-discrete : Discrete PeerRef
PeerRef-discrete = hlevel ℕ_discrete

instance abbrev pub peer_ref_comparable : Comparable PeerRef
peer_ref_comparable = record { equals = PeerRef-discrete }

abbrev pub Routes : Type 0 → Type 0 → Type 0
Routes A P = RouteTable (Destination P) (NextHop A) PeerRef

-- The errors that the methods return; `panicked` and `never_returns` stand for a call that panics and
-- for one that waits for ever.
pub data Error : Type 0 where
  peer_exists no_such_peer : Error
  already_subscribed not_subscribed : Error
  vni_already_subscribed vni_already_unsubscribed peer_does_not_exist : Error
  incoming_connection not_established state_closed : Error
  cannot_listen client_failed : Error
  wire : WireError → Error
  table : RouteTable.Error → Error
  panicked never_returns : Error

-- `metalBondPeer`. Its channels to `txLoop` and of stop signals hold what was sent and not yet read.
pub record Peer (A P : Type 0) : Type 0 where
  pub remote_addr : ℕ
  pub direction : ConnectionDirection
  pub is_server : Bool
  pub state : ConnectionState
  pub received_routes : Routes A P
  pub subscribed_vnis : Map ℕ Bool
  pub keepalive_interval : ℕ
  pub tx_chan : List (List ℕ)
  pub tx_chan_close : ℕ
  pub shutdown : ℕ
  pub keepalive_stop : ℕ

-- `lis`: not set; set to the nil interface, as a failed `net.Listen` leaves it; open; or closed
pub data Listener : Type 0 where
  unset nil_listener listening done_listening : Listener

abbrev pub is_nil : Listener → Bool
is_nil nil_listener = true
is_nil _ = false

-- `(*m.lis).Close()`, where there is a listener
abbrev pub close_listener : Listener → Listener
close_listener listening = done_listening
close_listener l = l

-- `MetalBond`; an address stands for its text. `subscribers_locked` says that a method returned with
-- `mtxSubscribers` locked; `addSubscriber` waits for it.
pub record MetalBond (A P : Type 0) : Type 0 where
  pub route_table : Routes A P
  pub my_announcements : Routes A P
  pub my_subscriptions : Map ℕ Bool
  pub subscribers : Map ℕ (Map PeerId Bool)
  pub subscribers_locked : Bool
  pub peers : Map ℕ PeerId
  pub keepalive_interval : ℕ
  pub is_server : Bool
  pub shutting_down : Bool
  pub lis : Listener

-- what a `go` statement starts
pub data Goroutine : Type 0 where
  handle_loop rx_loop tx_loop reset_loop keepalive_loop : PeerId → Goroutine
  http_server : Goroutine

-- a node: its `MetalBond`, the heap of peers, the state of its client, and the goroutines that were
-- started and have not run, the last one first
pub record Node (A P S : Type 0) : Type 0 where
  pub bond : MetalBond A P
  pub peer : PeerId → Peer A P
  pub client : S
  pub spawned : List Goroutine

-- what the node runs on
pub record Env (A P S : Type 0) : Type 0 where
  pub net : Netip A P
  pub proto : Proto
  pub client : Client A P S

-- a method changes the node and may return an error
abbrev pub Method : (A P S : Type 0) → Type 0
Method A P S = Node A P S → Node A P S × Option Error

module _ {A P S : Type 0} where
  -- a write to the peer's fields
  unfoldable pub set_peer : PeerId → Peer A P → Node A P S → Node A P S
  set_peer p x n = record n { peer = λ q. if same p q then x else n.peer q }

  -- `go f()`
  unfoldable pub start : Goroutine → Node A P S → Node A P S
  start g n = record n { spawned = g ∷ n.spawned }
