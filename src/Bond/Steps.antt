-- ===== src/Bond/Steps.antt =====
-- metalbond.go and peer.go: what can happen at a node, one call at a time and in any order, and what
-- holds of the table of the node at any time.
use metalbond.Bond.Updates.{own_added, own_added-IsBacked, add_received_route-IsBacked}
use metalbond.Bond.Received.{add_received_route}
use metalbond.Wire.Packet.{ReadResult}
use metalbond.Bond.Loops.{
  rx_loop_round, after_read-IsBacked, Dial, dial_round, end_tx_loop, end_keepalive_loop,
  dial_round-IsBacked, end_tx_loop-IsBacked, end_keepalive_loop-IsBacked,
}
use metalbond.Base.{
  true, some, ◌≡◌, arith, ℕ, ◌≡◌, Bool, true, false, some, none, List, [], ◌∷◌, ap, arith, refl,
  inl, inr, Comparable, Option-cases, Bool-cases, is_some, nat_comparable, if◌then◌else◌, same,
  same_eq, ◌==◌,
}
use metalbond.Base.Map.{get}
use metalbond.Types.{
  MsgUpdate, Destination, NextHop, Message, destination_comparable, next_hop_comparable,
}
use metalbond.RouteTable.{find, new_route_table}
use metalbond.RouteTable.Own.{new_route_table-IsOwn}
use metalbond.Bond.{
  http_server, PeerId, peer_ref_comparable, Node, Env, handle_loop, reset_loop, start,
}
use metalbond.Bond.State.{remove_peer, reset, reconnect}
use metalbond.Bond.Session.{handle_message}
use metalbond.Bond.Announce.{announce_route, withdraw_route, is_route_announced}
use metalbond.Bond.Subscriptions.{bond_subscribe, bond_unsubscribe}
use metalbond.Bond.Lifecycle.{
  start_http_server, new_metal_bond, add_peer, accept_peer, start_server, make_channels, tx_round,
  keepalive_timeout, add_routes_for_vni, send_keepalive, shut_down, stop_all, connected,
  handle_shutdown,
}
use metalbond.Bond.Frame.{holds, IsBacked}
use metalbond.Bond.Calls.{reset-Frame, remove_peer-Frame}
use metalbond.Bond.Backed.{handle_message-IsBacked, start-IsBacked}
use metalbond.Bond.Forgotten.{bond_unsubscribe-IsBacked}
use metalbond.Bond.Kept.{
  IsFresh, connected-IsBacked, make_channels-IsBacked, handle_shutdown-IsBacked, reconnect-IsBacked,
  send_keepalive-IsBacked, tx_round-IsBacked, bond_subscribe-IsBacked, is_route_announced-IsBacked,
  announce_route-IsBacked, withdraw_route-IsBacked, add_peer-IsBacked, accept_peer-IsBacked,
  add_routes_for_vni-IsBacked, start_server-IsBacked, stop_all-IsBacked,
}

module _ {A P S : Type 0} ⦃ca : Comparable A⦄ ⦃cp : Comparable P⦄ where
  -- the node as `NewMetalBond` returns it, with a heap of peers that have no routes yet
  pub record IsNew (interval : ℕ) (n : Node A P S) : Type 0 where
    pub bond : n.bond ≡ new_metal_bond interval
    pub peer : (p : PeerId) → (n.peer p).received_routes ≡ new_route_table
    pub spawned : n.spawned ≡ []

module _ {A P S : Type 0} ⦃ca : Comparable A⦄ ⦃cp : Comparable P⦄ (env : Env A P S) where
  -- A call of one of the methods, or a round of one of the goroutines, that runs whole; and the two
  -- calls of `processRxUpdate` at an ADD, between which other steps may come, if the second one finds
  -- the route still in the peer's own table. A peer is allocated at an address that the table of the
  -- node has no route of.
  pub data Step (n : Node A P S) : Node A P S → Type 0 where
    received : (p : PeerId) (msg : Message A P) → Step n (handle_message env p msg n)
    adds_own : (p : PeerId) (msg : MsgUpdate A P) → Step n (own_added env p msg n)
    spreads :
        (p : PeerId) (vni : ℕ) (d : Destination P) (h : NextHop A)
        → holds n vni d h p ≡ true
        → Step n (add_received_route env p vni d h n).0
    opened : (p : PeerId) → Step n (make_channels p n)
    answered : (p : PeerId) → Step n (connected env p n)
    stopped : (p : PeerId) → Step n (handle_shutdown env p n)
    dials : (p : PeerId) (d : Dial) → Step n (dial_round env p d n).0
    reads : (p : PeerId) (buf : List ℕ) (r : ReadResult) → Step n (rx_loop_round env p buf r n).0
    stops_writing : (p : PeerId) → Step n (end_tx_loop p n)
    stops_beating : (p : PeerId) → Step n (end_keepalive_loop p n)
    serves_pages : Step n (start_http_server n).0
    resets : (p : PeerId) → Step n (reset env p n)
    reconnects : (p : PeerId) → Step n (start (handle_loop p) (reconnect env p n))
    timed_out : (p : PeerId) → Step n (keepalive_timeout p n)
    ticked : (p : PeerId) → Step n (send_keepalive env p n)
    written : (p : PeerId) (whole : Bool) → Step n (tx_round p whole n)
    subscribes : (vni : ℕ) → Step n (bond_subscribe env vni n).0
    unsubscribes : (vni : ℕ) → Step n (bond_unsubscribe env vni n).0
    announces :
        (vni : ℕ) (d : Destination P) (h : NextHop A) → Step n (announce_route env vni d h n).0
    withdraws :
        (vni : ℕ) (d : Destination P) (h : NextHop A) → Step n (withdraw_route env vni d h n).0
    asks : (vni : ℕ) (d : Destination P) (h : NextHop A) → Step n (is_route_announced vni d h n).0
    adds : (p : PeerId) (addr : ℕ) → IsFresh p n → Step n (add_peer p addr n).0
    accepts : (p : PeerId) (addr : ℕ) → IsFresh p n → Step n (accept_peer p addr n)
    removes : (addr : ℕ) → Step n (remove_peer env addr n)
    refills : (vni : ℕ) → Step n (add_routes_for_vni env vni n).0
    listens : (ok : Bool) → Step n (start_server ok n).0
    shuts_down : {m : Node A P S} → shut_down env n ≡ some m → Step n m

  -- the nodes that come of a new one, in any number of steps
  pub data Reachable : Node A P S → Type 0 where
    begins : {interval : ℕ} {n : Node A P S} → IsNew interval n → Reachable n
    steps : {n n' : Node A P S} → Reachable n → Step n n' → Reachable n'

  new-IsBacked : {interval : ℕ} (n : Node A P S) → IsNew interval n → IsBacked n
  unfolding new_metal_bond new_route_table find metalbond.Base.Map.get metalbond.Base.Map.Nested.at
  new-IsBacked n i = record {
    backed = λ v d h q e. absurd (ground (arith, e, i.bond));
    own = λ q. rw (i.peer q) (new_route_table-IsOwn (some q));
  }

  shuts_down-IsBacked : {n m : Node A P S} → shut_down env n ≡ some m → IsBacked n → IsBacked m
  unfolding shut_down
  shuts_down-IsBacked {n} {m} e b =
      let eq : stop_all env n ≡ m = ground (arith, e) in rw (← eq) (stop_all-IsBacked env n b)

  Step-IsBacked : {n n' : Node A P S} → Step n n' → IsBacked n → IsBacked n'
  Step-IsBacked {n} (received p msg) b = handle_message-IsBacked env p msg n b
  Step-IsBacked {n} (adds_own p msg) b = own_added-IsBacked env p msg n b
  Step-IsBacked {n} (spreads p vni d h held) b = add_received_route-IsBacked env p vni d h n held b
  Step-IsBacked {n} (opened p) b = make_channels-IsBacked env p n b
  Step-IsBacked {n} (answered p) b = connected-IsBacked env p n b
  Step-IsBacked {n} (stopped p) b = handle_shutdown-IsBacked env p n b
  Step-IsBacked {n} (dials p d) b = dial_round-IsBacked env p d n b
  Step-IsBacked {n} (reads p buf r) b = unfold rx_loop_round in after_read-IsBacked env p _ n b
  Step-IsBacked {n} (stops_writing p) b = end_tx_loop-IsBacked env p n b
  Step-IsBacked {n} (stops_beating p) b = end_keepalive_loop-IsBacked env p n b
  Step-IsBacked {n} serves_pages b = unfold start_http_server in start-IsBacked env http_server n b
  Step-IsBacked {n} (resets p) b = (reset-Frame env p n).backed b
  Step-IsBacked {n} (reconnects p) b = reconnect-IsBacked env p n b
  Step-IsBacked {n} (timed_out p) b =
      unfold keepalive_timeout in start-IsBacked env (reset_loop p) n b
  Step-IsBacked {n} (ticked p) b = send_keepalive-IsBacked env p n b
  Step-IsBacked {n} (written p whole) b = tx_round-IsBacked env p whole n (n.peer p).tx_chan refl b
  Step-IsBacked {n} (subscribes vni) b = bond_subscribe-IsBacked env vni n b
  Step-IsBacked {n} (unsubscribes vni) b = bond_unsubscribe-IsBacked env vni n b
  Step-IsBacked {n} (announces vni d h) b = announce_route-IsBacked env vni d h n b
  Step-IsBacked {n} (withdraws vni d h) b = withdraw_route-IsBacked env vni d h n b
  Step-IsBacked {n} (asks vni d h) b = is_route_announced-IsBacked env vni d h n b
  Step-IsBacked {n} (adds p addr f) b = add_peer-IsBacked env p addr n f b
  Step-IsBacked {n} (accepts p addr f) b = accept_peer-IsBacked env p addr n f b
  Step-IsBacked {n} (removes addr) b = (remove_peer-Frame env addr n).backed b
  Step-IsBacked {n} (refills vni) b = add_routes_for_vni-IsBacked env vni n b
  Step-IsBacked {n} (listens listening) b = start_server-IsBacked env listening n b
  Step-IsBacked {n} (shuts_down {m} e) b = shuts_down-IsBacked e b

  -- After any sequence of steps from a new node, each of which runs whole, and in which a peer is
  -- allocated only at an address that the node has no route of: each route that the node has from a
  -- peer is one that the peer's own table holds, and each peer's own table is as a Go map can be, has
  -- nothing empty and holds only that peer's routes. A step is a call of a method, a round of a
  -- goroutine, or one of the two calls of `processRxUpdate` at an ADD, the second one only while the
  -- peer's own table holds the route.
  pub Reachable-IsBacked : {n : Node A P S} → Reachable n → IsBacked n
  Reachable-IsBacked {n} (begins i) = new-IsBacked n i
  Reachable-IsBacked (steps r s) = Step-IsBacked s (Reachable-IsBacked r)
