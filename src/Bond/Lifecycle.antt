-- ===== src/Bond/Lifecycle.antt =====
-- metalbond.go: the life of a node; peer.go: the life of a peer's goroutines, step by step. The
-- address of a peer that is allocated is an argument.
use metalbond.Base.{
  ℕ, ◌-◌, Bool, true, false, Option, none, some, List, [], ◌∷◌, Comparable, if◌then◌else◌, ◌==◌,
  ◌∷◌, nat_comparable,
}
use metalbond.Base.Map.{Map, keys, get, put}
use metalbond.Types.{
  Destination, NextHop, ConnectionDirection, incoming, outgoing, connecting, hello_sent, hello,
  keepalive, destination_comparable, next_hop_comparable,
}
use metalbond.RouteTable.{new_route_table, get_destinations_by_vni, get_nexthops_by_destination}
use metalbond.Bond.{
  is_nil, close_listener, unset, nil_listener, listening, PeerId, peer_ref_comparable, Peer,
  MetalBond, Node, Env, Method, Error, peer_exists, cannot_listen, client_failed, set_peer, start,
  handle_loop, rx_loop, tx_loop, reset_loop, http_server,
}
use metalbond.Bond.Send.{send_message, is_incoming}
use metalbond.Bond.State.{set_state, remove_peer}
use metalbond.Bond.Cleanup.{cleanup}

-- `NewMetalBond`
unfoldable pub new_metal_bond : {A P : Type 0} → ℕ → MetalBond A P
new_metal_bond interval = record {
  route_table = new_route_table;
  my_announcements = new_route_table;
  my_subscriptions = [];
  subscribers = [];
  subscribers_locked = false;
  peers = [];
  keepalive_interval = if interval == 0 then 5 else interval;
  is_server = false;
  shutting_down = false;
  lis = unset;
}

-- `newMetalBondPeer`; the channels are made by `handle`
unfoldable pub new_peer : {A P : Type 0} → ℕ → ℕ → ConnectionDirection → Peer A P
new_peer addr interval dir = record {
  remote_addr = addr;
  direction = dir;
  is_server = false;
  state = connecting;
  received_routes = new_route_table;
  subscribed_vnis = [];
  keepalive_interval = interval;
  tx_chan = [];
  tx_chan_close = 0;
  shutdown = 0;
  keepalive_stop = 0;
}

module _ {A P S : Type 0} where
  -- a peer at a new address of the heap, its `handle` and its entry in `peers`
  unfoldable pub register_peer : PeerId → ℕ → ConnectionDirection → Node A P S → Node A P S
  register_peer p addr dir n =
      let made =
        start (handle_loop p) (set_peer p (new_peer addr n.bond.keepalive_interval dir) n) in
      record made { bond = record made.bond { peers = put made.bond.peers addr p } }

  unfoldable pub add_peer : PeerId → ℕ → Method A P S
  add_peer p addr n = elim (get n.bond.peers addr) [
    | some _ ↦ (n, some peer_exists)
    | none ↦ (register_peer p addr outgoing n, none)
  ]

  -- `StartHTTPServer`; its goroutine only reads the table
  unfoldable pub start_http_server : Method A P S
  start_http_server n = (start http_server n, none)

  -- `StartServer` until it listens; the flag says whether `net.Listen` succeeded, and `lis` is set
  -- before the error is tested
  unfoldable pub start_server : Bool → Method A P S
  start_server listens n =
      if listens
      then (record n { bond = record n.bond { is_server = true; lis = listening } }, none)
      else (record n { bond = record n.bond { lis = nil_listener } }, some cannot_listen)

  -- a round of the accepting loop of `StartServer`, which took a connection from this address
  unfoldable pub accept_peer : PeerId → ℕ → Node A P S → Node A P S
  accept_peer p addr n = if n.bond.shutting_down then n else register_peer p addr incoming n

  unfoldable pub get_subscribed_vnis : Node A P S → List ℕ
  get_subscribed_vnis n = keys n.bond.my_subscriptions

  -- the fresh channels of `handle`
  unfoldable pub make_channels : PeerId → Node A P S → Node A P S
  make_channels p n =
      set_peer p
        (record (n.peer p) { tx_chan = []; tx_chan_close = 0; shutdown = 0; keepalive_stop = 0 }) n

  -- a round of `txLoop` at a packet: the flag says whether it was written whole
  unfoldable pub tx_round : PeerId → Bool → Node A P S → Node A P S
  tx_round p whole n = elim (n.peer p).tx_chan [
    | [] ↦ n
    | pkt ∷ rest ↦
        let n' = set_peer p (record (n.peer p) { tx_chan = rest }) n in
        if whole then n' else start (reset_loop p) n'
  ]

  -- the keepalive timer runs out
  unfoldable pub keepalive_timeout : PeerId → Node A P S → Node A P S
  keepalive_timeout p n = start (reset_loop p) n

module _ {A P S : Type 0} (env : Env A P S) where
  -- the loops of `AddRoutesForVni`: the first error ends the method
  unfoldable pub refill_hops : ℕ → Destination P → List (NextHop A) → S → S × Option Error
  refill_hops vni dest [] s = (s, none)
  refill_hops vni dest (hop ∷ hops) s =
      let (s', failed) = env.client.add_route vni dest hop s in
      let rest = refill_hops vni dest hops s' in if failed then (s', some client_failed) else rest

  unfoldable pub refill_dests : ℕ → Map (Destination P) (List (NextHop A)) → S → S × Option Error
  refill_dests vni [] s = (s, none)
  refill_dests vni ((dest, hops) ∷ m) s =
      let (s', e) = refill_hops vni dest hops s in
      let rest = refill_dests vni m s' in elim e [ some x ↦ (s', some x) | none ↦ rest ]

  unfoldable pub add_routes_for_vni : ℕ → Method A P S
  add_routes_for_vni vni n =
      let (s, e) = refill_dests vni (get_destinations_by_vni n.bond.route_table vni) n.client in
      let (s', e') = refill_dests vni (get_destinations_by_vni n.bond.my_announcements vni) s in
      elim e [ some x ↦ (record n { client = s }, some x) | none ↦ (record n { client = s' }, e') ]

  -- the KEEPALIVE that `keepaliveLoop` sends at its start and at each tick
  unfoldable pub send_keepalive : PeerId → Node A P S → Node A P S
  send_keepalive p n =
      if is_incoming (n.peer p).direction then n else (send_message env p keepalive n).0

module _ {A P S : Type 0} ⦃ca : Comparable A⦄ ⦃cp : Comparable P⦄ where
  unfoldable pub get_next_hop_by_vni_and_destination :
      ℕ → Destination P → Node A P S → List (NextHop A)
  get_next_hop_by_vni_and_destination vni dest n =
      get_nexthops_by_destination n.bond.route_table vni dest

module _ {A P S : Type 0} ⦃ca : Comparable A⦄ ⦃cp : Comparable P⦄ (env : Env A P S) where
  -- the loop of `Shutdown`
  unfoldable pub remove_peers : List ℕ → Node A P S → Node A P S
  remove_peers [] n = n
  remove_peers (addr ∷ addrs) n = remove_peers addrs (remove_peer env addr n)

  -- `Shutdown` from the close of the listener on
  unfoldable pub stop_all : Node A P S → Node A P S
  stop_all n =
      let n' = record n {
        bond = record n.bond { shutting_down = true; lis = close_listener n.bond.lis };
      } in
      remove_peers (keys n'.bond.peers) n'

  -- `none` is the panic of `Close` at a nil listener
  unfoldable pub shut_down : Node A P S → Option (Node A P S)
  shut_down n = if is_nil n.bond.lis then none else some (stop_all n)

  -- `handle`, from the connection to its loop: the HELLO does not say that the node is a server
  unfoldable pub connected : PeerId → Node A P S → Node A P S
  connected p n =
      let n' = start (tx_loop p) (start (rx_loop p) n) in
      let msg =
        hello (record { keepalive_interval = (n'.peer p).keepalive_interval; is_server = false }) in
      if is_incoming (n'.peer p).direction
      then n'
      else set_state env p hello_sent (send_message env p msg n').0

  -- `handle` receives a stop signal, while it connects or in its loop
  unfoldable pub handle_shutdown : PeerId → Node A P S → Node A P S
  handle_shutdown p n =
      cleanup env p (set_peer p (record (n.peer p) { shutdown = (n.peer p).shutdown - 1 }) n)
