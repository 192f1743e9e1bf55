-- ===== src/Bond/Replayed.antt =====
-- metalbond.go: where `addSubscriber` comes to the wait of `Reset`.
use metalbond.RouteTable.{get_destinations_by_vni_with_peer}
use metalbond.Bond.Frame.{subscribed}
use metalbond.Bond.Session.{process_rx_subscribe}
use metalbond.Base.Map.Nested.{update, ensure, at-ensure}
use metalbond.Base.{
  same_refl, if◌then◌else◌, none, ℕ, ◌≡◌, refl, arith, Bool, true, false, not, ◌&&◌, ◌||◌, some,
  List, [], ◌∷◌, Comparable, same, nat_comparable, Bool-cases, inl, inr, if◌then◌else◌,
}
use metalbond.Base.Map.{put, Map}
use metalbond.Types.{
  outgoing, closed, Destination, NextHop, established, state_comparable, destination_comparable,
  next_hop_comparable, add, MsgUpdate,
}
use metalbond.Wire.Serialize.{is_nat}
use metalbond.Bond.{
  never_returns, set_peer, PeerId, PeerRef, Node, Env, peer_ref_comparable, not_established,
}
use metalbond.Bond.Send.{send_update}
use metalbond.Bond.State.{
  add_subscriber, replay_route, replay_hops, replay_dests, reset, reset_waits,
}

-- some peer's route of this next hop is sent to the peer: not its own NAT route
abbrev pub sends_one : {A : Type 0} → PeerId → NextHop A → List PeerRef → Bool
sends_one p hop [] = false
sends_one p hop (from ∷ peers) =
    not (same from (some p) && is_nat hop.hop_type) || sends_one p hop peers

abbrev pub sends_hops : {A : Type 0} → PeerId → Map (NextHop A) (List PeerRef) → Bool
sends_hops p [] = false
sends_hops p ((hop, peers) ∷ m) = sends_one p hop peers || sends_hops p m

-- some route of the VNI is sent to the peer
abbrev pub sends_some :
    {A P : Type 0} → PeerId → Map (Destination P) (Map (NextHop A) (List PeerRef)) → Bool
sends_some p [] = false
sends_some p ((dest, hops) ∷ m) = sends_hops p hops || sends_some p m

module _ {A P S : Type 0} ⦃ca : Comparable A⦄ ⦃cp : Comparable P⦄ (env : Env A P S) (p : PeerId)
    (vni : ℕ) where
  refused :
      (upd : MsgUpdate A P) (n : Node A P S)
      → same (n.peer p).state established ≡ false
      → send_update env p upd n ≡ (n, some not_established)
  unfolding send_update
  refused upd n h = rw h refl

  module _ (n : Node A P S) (down : same (n.peer p).state established ≡ false)
      (waits : reset_waits p n ≡ true) where
    abbrev pub after : Bool → Node A P S × Bool
    after sent = if sent then (reset env p n, true) else (n, false)

    replay_route-after :
        (dest : Destination P) (hop : NextHop A) (peers : List PeerRef)
        → replay_route env p vni dest hop peers n ≡ after (sends_one p hop peers)
    unfolding replay_route
    replay_route-after dest hop [] = refl
    replay_route-after dest hop (from ∷ peers) =
        let upd : MsgUpdate A P = record {
          action = add;
          vni = vni;
          destination = dest;
          next_hop = hop;
        } in
        elim (Bool-cases (same from (some p) && is_nat hop.hop_type)) [
          | inl k ↦ rw (refused upd n down) (rw k (replay_route-after dest hop peers))
          | inr k ↦ rw (refused upd n down) (rw k (rw waits refl))
        ]

    replay_hops-after :
        (dest : Destination P) (m : Map (NextHop A) (List PeerRef))
        → replay_hops env p vni dest m n ≡ after (sends_hops p m)
    unfolding replay_hops
    replay_hops-after dest [] = refl
    replay_hops-after dest ((hop, peers) ∷ m) =
        ground (arith, replay_route-after dest hop peers, replay_hops-after dest m)

    replay_dests-after :
        (m : Map (Destination P) (Map (NextHop A) (List PeerRef)))
        → replay_dests env p vni m n ≡ after (sends_some p m)
    unfolding replay_dests
    replay_dests-after [] = refl
    replay_dests-after ((dest, hops) ∷ m) =
        ground (arith, replay_hops-after dest hops, replay_dests-after m)

  -- the peer under the VNI
  abbrev listed : Node A P S → Node A P S
  listed n = record n {
    bond = record n.bond {
      subscribers = update (ensure n.bond.subscribers vni) vni (λ ps. put ps p true);
    };
  }

  add_subscriber-after :
      (n : Node A P S)
      → n.bond.subscribers_locked ≡ false
      → subscribed n vni p ≡ false
      → same (n.peer p).state established ≡ false
      → reset_waits p n ≡ true
      → add_subscriber env p vni n ≡ (
          if sends_some p (get_destinations_by_vni_with_peer n.bond.route_table vni)
          then (reset env p (listed n), some never_returns)
          else (listed n, none))
  unfolding add_subscriber
  add_subscriber-after n free lacks down waits =
      let replayed =
        replay_dests-after (listed n) down waits
          (get_destinations_by_vni_with_peer n.bond.route_table vni) in
      ground (arith, free, lacks, at-ensure n.bond.subscribers vni vni, replayed)

  -- the peer under the VNI and the VNI in the peer, as a first SUBSCRIBE writes them
  abbrev pub entered : Node A P S → Node A P S
  entered n = record n {
    bond = record n.bond {
      subscribers = update (ensure n.bond.subscribers vni) vni (λ ps. put ps p true);
    };
    peer = λ q.
        if same p q
        then record (n.peer p) { subscribed_vnis = put (n.peer p).subscribed_vnis vni true }
        else n.peer q;
  }

  -- Let a peer that does not stand under the VNI send SUBSCRIBE on an outgoing connection which is
  -- neither ESTABLISHED nor CLOSED, `mtxSubscribers` being free. The peer is entered under the VNI; and
  -- exactly if the VNI has a route to send to the peer, the session is reset and `handle` waits for
  -- ever, for its own end, in `addSubscriber`. Else nothing is sent.
  pub subscribe_unready_lem :
      (n : Node A P S)
      → n.bond.subscribers_locked ≡ false
      → subscribed n vni p ≡ false
      → (n.peer p).direction ≡ outgoing
      → same (n.peer p).state established ≡ false
      → same (n.peer p).state closed ≡ false
      → (process_rx_subscribe env p vni n ≡ (
          if sends_some p (get_destinations_by_vni_with_peer n.bond.route_table vni)
          then reset env p (entered n)
          else entered n))
        × ((add_subscriber env p vni n).1 ≡ (
            if sends_some p (get_destinations_by_vni_with_peer n.bond.route_table vni)
            then some never_returns
            else none))
  unfolding process_rx_subscribe add_subscriber set_peer
  subscribe_unready_lem n free lacks out down open_ =
      let m =
        set_peer p (record (n.peer p) { subscribed_vnis = put (n.peer p).subscribed_vnis vni true })
          n in
      let first =
        add_subscriber-after m free lacks (ground (arith, same_refl p, down))
          (ground (arith, same_refl p, out, open_)) in
      let second = add_subscriber-after n free lacks down (ground (arith, out, open_)) in
      (ground (arith, first), ground (arith, second))
