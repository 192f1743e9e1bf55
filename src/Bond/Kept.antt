-- ===== src/Bond/Kept.antt =====
-- metalbond.go and peer.go: the calls and the rounds of the goroutines, each with the table of the node
-- against the peers' own tables.
use metalbond.Base.{
  ℕ, ◌≡◌, Bool, true, false, some, none, List, [], ◌∷◌, arith, refl, inl, inr, Comparable,
  Option-cases, Bool-cases, nat_comparable, same, same_eq, ◌==◌,
}
use metalbond.Base.Map.{get}
use metalbond.Types.{
  Destination, NextHop, ConnectionDirection, incoming, outgoing, add, remove, connecting,
  hello_sent, destination_comparable, next_hop_comparable, keepalive,
}
use metalbond.RouteTable.{add_next_hop, remove_next_hop, get_destinations_by_vni}
use metalbond.RouteTable.Own.{new_route_table-IsOwn}
use metalbond.Bond.{PeerId, peer_ref_comparable, Node, Env, handle_loop, set_peer, start, Routes}
use metalbond.Bond.Send.{is_incoming}
use metalbond.Bond.State.{reconnect}
use metalbond.Bond.Announce.{announce_route, withdraw_route, is_route_announced, set_announcements}
use metalbond.Bond.Subscriptions.{bond_subscribe, set_subscriptions}
use metalbond.Bond.Lifecycle.{
  new_peer, register_peer, add_peer, accept_peer, start_server, make_channels, tx_round,
  add_routes_for_vni, refill_dests, send_keepalive, remove_peers, stop_all, connected,
  handle_shutdown,
}
use metalbond.Bond.Routing.{routed}
use metalbond.Bond.Sends.{distribute-Sends}
use metalbond.Bond.Unsubscribed.{subscribe_peers-Sends}
use metalbond.Bond.Frame.{IsBacked, Sends-Frame, set_peer-IsOwn}
use metalbond.Bond.Calls.{set_peer-Frame, remove_peer-Frame}
use metalbond.Bond.Backed.{start-IsBacked, send-IsBacked, state-IsBacked, IsBacked-if}
use metalbond.Bond.Cleaned.{cleanup-IsBacked}

module _ {A P S : Type 0} ⦃ca : Comparable A⦄ ⦃cp : Comparable P⦄ where
  -- a peer that is allocated: no route in the table of the node is from it
  abbrev pub IsFresh : PeerId → Node A P S → Type 0
  IsFresh p n = (vni : ℕ) (d : Destination P) (h : NextHop A) → routed n vni d h p ≡ false

module _ {A P S : Type 0} ⦃ca : Comparable A⦄ ⦃cp : Comparable P⦄ (env : Env A P S) where
  -- what changes neither the table of the node nor a peer's own
  pub same-IsBacked :
      {n n' : Node A P S}
      → n'.bond.route_table ≡ n.bond.route_table
      → ((q : PeerId) → (n'.peer q).received_routes ≡ (n.peer q).received_routes)
      → IsBacked n
      → IsBacked n'
  same-IsBacked t r b = record {
    backed = λ v d h q e. rw (r q) (b.backed v d h q (rw (← t) e));
    own = λ q. rw (r q) (b.own q);
  }

  pub connected-IsBacked : (p : PeerId) (n : Node A P S) → IsBacked n → IsBacked (connected env p n)
  unfolding connected
  connected-IsBacked p n b =
      let up = start-IsBacked env _ _ (start-IsBacked env _ n b) in
      IsBacked-if env (is_incoming _) _ _ up
        (state-IsBacked env p hello_sent _ (send-IsBacked env p _ _ up))

  pub make_channels-IsBacked :
      (p : PeerId) (n : Node A P S) → IsBacked n → IsBacked (make_channels p n)
  unfolding make_channels
  make_channels-IsBacked p n b = (set_peer-Frame {view = λ x. n.peer p} p _ n refl refl).backed b

  pub handle_shutdown-IsBacked :
      (p : PeerId) (n : Node A P S) → IsBacked n → IsBacked (handle_shutdown env p n)
  unfolding handle_shutdown
  handle_shutdown-IsBacked p n b =
      cleanup-IsBacked env p _ ((set_peer-Frame {view = λ x. n.peer p} p _ n refl refl).backed b)

  pub reconnect-IsBacked :
      (p : PeerId) (n : Node A P S)
      → IsBacked n
      → IsBacked (start (handle_loop p) (reconnect env p n))
  unfolding reconnect
  reconnect-IsBacked p n b = start-IsBacked env _ _ (state-IsBacked env p connecting n b)

  pub send_keepalive-IsBacked :
      (p : PeerId) (n : Node A P S) → IsBacked n → IsBacked (send_keepalive env p n)
  unfolding send_keepalive
  send_keepalive-IsBacked p n b =
      IsBacked-if env (is_incoming _) _ _ b (send-IsBacked env p keepalive n b)

  pub tx_round-IsBacked :
      (p : PeerId) (whole : Bool) (n : Node A P S) (chan : List (List ℕ))
      → (n.peer p).tx_chan ≡ chan
      → IsBacked n
      → IsBacked (tx_round p whole n)
  unfolding tx_round
  tx_round-IsBacked p whole n [] e b = rw (e, tx_round) b
  tx_round-IsBacked p whole n (pkt ∷ rest) e b =
      let sent =
        (set_peer-Frame {view = λ x. n.peer p} p (record (n.peer p) { tx_chan = rest }) n refl
            refl).backed
          b in
      rw (e, tx_round) (IsBacked-if env whole _ _ sent (start-IsBacked env _ _ sent))

  pub bond_subscribe-IsBacked :
      (vni : ℕ) (n : Node A P S) → IsBacked n → IsBacked (bond_subscribe env vni n).0
  unfolding bond_subscribe set_subscriptions
  bond_subscribe-IsBacked vni n b = elim (Option-cases (get n.bond.my_subscriptions vni)) [
    | inl e ↦
        rw (e, bond_subscribe)
          ((Sends-Frame (subscribe_peers-Sends env vni n.bond.peers _)).backed
            (same-IsBacked {n = n} refl (λ q. refl) b))
    | inr (x, e) ↦ rw (e, bond_subscribe) b
  ]

  pub announcements-IsBacked :
      (rt : Routes A P) (n : Node A P S) → IsBacked n → IsBacked (set_announcements rt n)
  unfolding set_announcements
  announcements-IsBacked rt n b = same-IsBacked {n = n} refl (λ q. refl) b

  pub is_route_announced-IsBacked :
      (vni : ℕ) (d : Destination P) (h : NextHop A) (n : Node A P S)
      → IsBacked n
      → IsBacked (is_route_announced vni d h n).0
  unfolding is_route_announced
  is_route_announced-IsBacked vni d h n = announcements-IsBacked _ n

  pub announce_route-IsBacked :
      (vni : ℕ) (d : Destination P) (h : NextHop A) (n : Node A P S)
      → IsBacked n
      → IsBacked (announce_route env vni d h n).0
  unfolding announce_route
  announce_route-IsBacked vni d h n b =
      let (rt, e) = add_next_hop n.bond.my_announcements vni d h none in
      let noted = announcements-IsBacked rt n b in
      elim (Option-cases e) [
        | inl k ↦
            rw (k, announce_route)
              ((Sends-Frame (distribute-Sends env add vni d h none _)).backed noted)
        | inr (x, k) ↦ rw (k, announce_route) noted
      ]

  pub withdraw_route-IsBacked :
      (vni : ℕ) (d : Destination P) (h : NextHop A) (n : Node A P S)
      → IsBacked n
      → IsBacked (withdraw_route env vni d h n).0
  unfolding withdraw_route
  withdraw_route-IsBacked vni d h n b =
      let (rt, (left, e)) = remove_next_hop n.bond.my_announcements vni d h none in
      let noted = announcements-IsBacked rt n b in
      let told =
        (Sends-Frame (distribute-Sends env remove vni d h none (set_announcements rt n))).backed
          noted in
      elim (Option-cases e) [
        | inl k ↦
            rw (k, withdraw_route)
              (elim (Bool-cases (left == 0)) [ inl z ↦ rw z told | inr z ↦ rw z noted ])
        | inr (x, k) ↦ rw (k, withdraw_route) noted
      ]

  pub register_peer-IsBacked :
      (p : PeerId) (addr : ℕ) (dir : ConnectionDirection) (n : Node A P S)
      → IsFresh p n
      → IsBacked n
      → IsBacked (register_peer p addr dir n)
  unfolding register_peer new_peer start set_peer
  register_peer-IsBacked p addr dir n f b = record {
    backed = λ v d h q e. elim (Bool-cases (same p q)) [
      | inl k ↦ absurd (ground (arith, e, f v d h, same_eq p q k))
      | inr k ↦ rw k (b.backed v d h q e)
    ];
    own = unfold set_peer in set_peer-IsOwn p _ n (new_route_table-IsOwn (some p)) b.own;
  }

  pub add_peer-IsBacked :
      (p : PeerId) (addr : ℕ) (n : Node A P S)
      → IsFresh p n
      → IsBacked n
      → IsBacked (add_peer p addr n).0
  unfolding add_peer
  add_peer-IsBacked p addr n f b = elim (Option-cases (get n.bond.peers addr)) [
    | inl e ↦ rw (e, add_peer) (register_peer-IsBacked p addr outgoing n f b)
    | inr (x, e) ↦ rw (e, add_peer) b
  ]

  pub accept_peer-IsBacked :
      (p : PeerId) (addr : ℕ) (n : Node A P S)
      → IsFresh p n
      → IsBacked n
      → IsBacked (accept_peer p addr n)
  unfolding accept_peer
  accept_peer-IsBacked p addr n f b =
      IsBacked-if env n.bond.shutting_down _ _ b (register_peer-IsBacked p addr incoming n f b)

  pub add_routes_for_vni-IsBacked :
      (vni : ℕ) (n : Node A P S) → IsBacked n → IsBacked (add_routes_for_vni env vni n).0
  unfolding add_routes_for_vni
  add_routes_for_vni-IsBacked vni n b =
      let e = (refill_dests env vni (get_destinations_by_vni n.bond.route_table vni) n.client).1 in
      elim (Option-cases e) [
        | inl k ↦ rw (k, add_routes_for_vni) (same-IsBacked {n = n} refl (λ q. refl) b)
        | inr (x, k) ↦ rw (k, add_routes_for_vni) (same-IsBacked {n = n} refl (λ q. refl) b)
      ]

  pub start_server-IsBacked :
      (listening : Bool) (n : Node A P S) → IsBacked n → IsBacked (start_server listening n).0
  unfolding start_server
  start_server-IsBacked true n b = same-IsBacked {n = n} refl (λ q. refl) b
  start_server-IsBacked false n b = same-IsBacked {n = n} refl (λ q. refl) b

  pub remove_peers-IsBacked :
      (addrs : List ℕ) (n : Node A P S) → IsBacked n → IsBacked (remove_peers env addrs n)
  unfolding remove_peers
  remove_peers-IsBacked [] n b = b
  remove_peers-IsBacked (addr ∷ addrs) n b =
      remove_peers-IsBacked addrs _ ((remove_peer-Frame env addr n).backed b)

  pub stop_all-IsBacked : (n : Node A P S) → IsBacked n → IsBacked (stop_all env n)
  unfolding stop_all
  stop_all-IsBacked n b = remove_peers-IsBacked _ _ (same-IsBacked {n = n} refl (λ q. refl) b)
