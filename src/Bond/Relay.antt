-- ===== src/Bond/Relay.antt =====
-- peer.go and metalbond.go: a route from the bytes that a peer reads to the table, the client and the
-- channels of the other peers.
use mathlib.Core.List.{append-nil}
use metalbond.Base.{
  ℕ, ◌≡◌, ◌<◌, Bool, true, false, not, ◌&&◌, ◌||◌, some, List, [], ◌∷◌, ◌++◌, arith, ◌∙◌, same_refl,
  refl, length, Comparable, same, if◌then◌else◌, contains, IsDistinct, nat_comparable,
}
use metalbond.Base.Map.{keys}
use metalbond.Base.Map.Nested.{at}
use metalbond.Types.{
  Destination, NextHop, MsgUpdate, Message, add, closed, retry, destination_comparable,
  next_hop_comparable, state_comparable,
}
use metalbond.RouteTable.{add_next_hop}
use metalbond.RouteTable.Effects.{find-add_next_hop}
use metalbond.Wire.Serialize.{ok}
use metalbond.Wire.Packet.{packet_of, bytes_read, ReadResult}
use metalbond.Wire.RoundTrip.{IsSendable}
use metalbond.Wire.Stream.{received, MessageIsSendable, rx_round-all_packets, all_packets}
use metalbond.Bond.{PeerId, peer_ref_comparable, Node, Env, set_peer}
use metalbond.Bond.Distribute.{passed_over}
use metalbond.Bond.Received.{
  is_standard, announces, add_received_route, spread_route, client_add, set_route_table,
}
use metalbond.Bond.Session.{handle_message, process_rx_update, receive_add}
use metalbond.Bond.Fanout.{tx, is_up, tx-distribute}
use metalbond.Bond.Routing.{routed, takes, add_received_route_lem}
use metalbond.Bond.Frame.{holds, IsBacked}
use metalbond.Bond.Updates.{own_added}
use metalbond.Bond.Loops.{rx_loop_round, after_read}

module _ {A P S : Type 0} ⦃ca : Comparable A⦄ ⦃cp : Comparable P⦄ (env : Env A P S) where
  -- `handle` on messages, in the order in which they came; each kind has a channel of its own, so that
  -- `handle` keeps this order among the messages of a kind
  unfoldable pub handle_all : PeerId → List (Message A P) → Node A P S → Node A P S
  handle_all p [] n = n
  handle_all p (m ∷ ms) n = handle_all p ms (handle_message env p m n)

  -- a round of `rxLoop`, and `handle` on the messages that the round has put into its channels
  unfoldable pub hear : PeerId → List ℕ → ReadResult → Node A P S → Node A P S
  hear p buf r n = let (m, ms, e) = rx_loop_round env p buf r n in handle_all p ms m

  -- the bytes of one packet are read as its message, over a connection that is open
  pub hear-message :
      (p : PeerId) (m : Message A P) (n : Node A P S) (stale : List ℕ) {pkt : List ℕ}
      → packet_of env.net env.proto m ≡ ok pkt
      → MessageIsSendable env.net env.proto m
      → 0 < length stale
      → (same (n.peer p).state closed || same (n.peer p).state retry) ≡ false
      → hear p (pkt ++ stale) (bytes_read (length pkt)) n ≡ handle_message env p (received m) n
  unfolding hear handle_all rx_loop_round after_read
  hear-message p m n stale {pkt} made s free open_ =
      let one : all_packets env.net env.proto (m ∷ []) ≡ ok pkt =
        unfold all_packets in rw (made, append-nil) refl in
      rw
        (rx_round-all_packets env.net env.proto (n.peer p).state m [] pkt stale open_ (s, tt) one
          free)
        refl

-- the UPDATE that adds the route
abbrev pub added : {A P : Type 0} → ℕ → Destination P → NextHop A → MsgUpdate A P
added vni dest hop = record { action = add; vni = vni; destination = dest; next_hop = hop }

module _ {A P S : Type 0} ⦃ca : Comparable A⦄ ⦃cp : Comparable P⦄ (env : Env A P S) (p : PeerId)
    (vni : ℕ) (dest : Destination P) (hop : NextHop A) where
  receive_add-fresh :
      (n : Node A P S)
      → holds n vni dest hop p ≡ false
      → receive_add env p (added vni dest hop) n
        ≡ (add_received_route env p vni dest hop (own_added env p (added vni dest hop) n)).0
  unfolding receive_add
  receive_add-fresh n fresh =
      let lem =
        find-add_next_hop (n.peer p).received_routes vni vni dest dest hop hop (some p) (some p) in
      ground (arith, lem.0, fresh)

  -- the bytes of one UPDATE are read as this UPDATE
  hear-update :
      (n : Node A P S) (stale : List ℕ) {pkt : List ℕ}
      → packet_of env.net env.proto (Message.update (added vni dest hop)) ≡ ok pkt
      → IsSendable env.net (added vni dest hop)
      → 0 < length stale
      → (same (n.peer p).state closed || same (n.peer p).state retry) ≡ false
      → hear env p (pkt ++ stale) (bytes_read (length pkt)) n
        ≡ receive_add env p (added vni dest hop) n
  unfolding handle_message process_rx_update
  hear-update n stale made s free open_ =
      hear-message env p (Message.update (added vni dest hop)) n stale made s free open_

  tx-add_received_route :
      (q : PeerId) (n : Node A P S) {pkt : List ℕ}
      → packet_of env.net env.proto (Message.update (added vni dest hop)) ≡ ok pkt
      → takes env p vni dest hop n ≡ true
      → IsDistinct (keys (at n.bond.subscribers vni))
      → tx (add_received_route env p vni dest hop n).0 q ≡ (
          if (contains (keys (at n.bond.subscribers vni)) q && not (passed_over env p q n))
            && is_up n q
          then tx n q ++ pkt ∷ []
          else tx n q)
  unfolding add_received_route spread_route client_add set_route_table
  tx-add_received_route q n made taken d =
      let lem = find-add_next_hop n.bond.route_table vni vni dest dest hop hop (some p) (some p) in
      let m = set_route_table (add_next_hop n.bond.route_table vni dest hop (some p)).0 n in
      ground (arith, taken, lem.0, tx-distribute env add vni dest hop p q m made d)

  takes-own_added :
      (n : Node A P S)
      → IsBacked n
      → holds n vni dest hop p ≡ false
      → (is_standard hop.hop_type && announces env n vni dest) ≡ false
      → takes env p vni dest hop (own_added env p (added vni dest hop) n) ≡ true
  unfolding set_peer
  takes-own_added n b fresh wanted = ground (arith, b.backed vni dest hop p, fresh, wanted)

  tx-own_added :
      (q : PeerId) (n : Node A P S) (pkt : List ℕ) (b : Bool)
      → (let m = own_added env p (added vni dest hop) n in
          (if (b && not (passed_over env p q m)) && is_up m q then tx m q ++ pkt ∷ [] else tx m q))
        ≡ (if (b && not (passed_over env p q n)) && is_up n q then tx n q ++ pkt ∷ [] else tx n q)
  unfolding set_peer
  tx-own_added q n pkt b = ground arith

  -- If a node reads from a peer the packet of an UPDATE that adds a route, in a buffer that is longer,
  -- over a connection that is neither CLOSED nor RETRY; and the route is one that the program makes,
  -- does not stand in the peer's own table, and is not a STANDARD one to a destination that the node
  -- announces; then afterwards the node has the route from this peer, and the client was told of it.
  -- The same packet is in the channel of each other subscriber of the VNI that is ESTABLISHED, unless
  -- both peers are servers, and in no other. This holds in each node whose tables are in step and that
  -- has no peer twice under the VNI.
  pub hear_lem :
      (q : PeerId) (n : Node A P S) (stale : List ℕ) {pkt : List ℕ}
      → packet_of env.net env.proto (Message.update (added vni dest hop)) ≡ ok pkt
      → IsSendable env.net (added vni dest hop)
      → 0 < length stale
      → (same (n.peer p).state closed || same (n.peer p).state retry) ≡ false
      → IsBacked n
      → holds n vni dest hop p ≡ false
      → (is_standard hop.hop_type && announces env n vni dest) ≡ false
      → IsDistinct (keys (at n.bond.subscribers vni))
      → (routed (hear env p (pkt ++ stale) (bytes_read (length pkt)) n) vni dest hop p ≡ true)
        × ((hear env p (pkt ++ stale) (bytes_read (length pkt)) n).client
            ≡ (env.client.add_route vni dest hop n.client).0)
        × (tx (hear env p (pkt ++ stale) (bytes_read (length pkt)) n) q ≡ (
            if (contains (keys (at n.bond.subscribers vni)) q && not (passed_over env p q n))
              && is_up n q
            then tx n q ++ pkt ∷ []
            else tx n q))
  unfolding set_peer
  hear_lem q n stale {pkt} made s free open_ b fresh wanted d =
      let m = own_added env p (added vni dest hop) n in
      let heard : hear env p (pkt ++ stale) (bytes_read (length pkt)) n
          ≡ (add_received_route env p vni dest hop m).0 =
        hear-update n stale made s free open_ ∙ receive_add-fresh n fresh in
      let (lem, told) = add_received_route_lem env p vni dest hop m vni dest hop p in
      let taken = takes-own_added n b fresh wanted in
      rw heard (
        ground (arith, lem, taken, same_refl vni, same_refl dest, same_refl hop, same_refl p),
        ground (arith, told, taken),
        tx-add_received_route q m made taken d
            ∙ tx-own_added q n pkt (contains (keys (at n.bond.subscribers vni)) q),
      )
