-- ===== src/Bond/Announced.antt =====
-- metalbond.go: what `AnnounceRoute` and `WithdrawRoute` do to the node's announcements, and which
-- peers they reach.
use metalbond.Base.{
  ℕ, ◌≡◌, Bool, true, not, ◌&&◌, ◌||◌, none, some, List, [], ◌∷◌, ap, refl, arith, Comparable,
  if◌then◌else◌, is_some, nat_comparable,
}
use metalbond.Base.Map.{Map}
use metalbond.Types.{
  Destination, NextHop, MsgUpdate, Message, add, remove, state_comparable, destination_comparable,
  next_hop_comparable,
}
use metalbond.Wire.Serialize.{ok}
use metalbond.Wire.Packet.{packet_of}
use metalbond.RouteTable.{find, add_next_hop, remove_next_hop, nexthop_already_exists}
use metalbond.RouteTable.Effects.{find-add_next_hop, find-remove_next_hop, same_route}
use metalbond.Bond.{
  PeerId, PeerRef, Routes, peer_ref_comparable, Node, Env, not_established, table, set_peer,
}
use metalbond.Bond.Send.{send_update, send_message, enqueue}
use metalbond.Bond.Distribute.{send_to_peers, distribute_route_to_peers}
use metalbond.Bond.Announce.{announce_route, withdraw_route, set_announcements}
use metalbond.Bond.Sends.{Sends, send_update-Sends, distribute-Sends}
use metalbond.Bond.Fanout.{is_up, Sends-is_up}

module _ {A P S : Type 0} ⦃ca : Comparable A⦄ ⦃cp : Comparable P⦄ where
  -- the node announces the route
  abbrev pub announced : Node A P S → ℕ → Destination P → NextHop A → Bool
  announced n vni dest hop = is_some (find n.bond.my_announcements vni dest hop none)

-- all peers are connected
abbrev pub all_up : {A P S : Type 0} → Map ℕ PeerId → Node A P S → Bool
all_up [] n = true
all_up ((addr, p) ∷ m) n = let rest = all_up m n in is_up n p && rest

pub all_up-set_announcements :
    {A P S : Type 0} (rt : Routes A P) (m : Map ℕ PeerId) (n : Node A P S)
    → all_up m (set_announcements rt n) ≡ all_up m n
unfolding set_announcements
all_up-set_announcements rt [] n = refl
all_up-set_announcements rt ((addr, p) ∷ m) n =
    ap (◌&&◌ (is_up n p)) (all_up-set_announcements rt m n)

module _ {A P S : Type 0} (env : Env A P S) where
  pub Sends-all_up :
      {n n' : Node A P S} → Sends n n' → (m : Map ℕ PeerId) → all_up m n' ≡ all_up m n
  Sends-all_up s [] = refl
  Sends-all_up s ((addr, p) ∷ m) = λ i. Sends-is_up s p i && Sends-all_up s m i

  module _ (upd : MsgUpdate A P) {pkt : List ℕ}
      (made : packet_of env.net env.proto (Message.update upd) ≡ ok pkt) where
    pub error-send_update :
        (p : PeerId) (n : Node A P S)
        → (send_update env p upd n).1 ≡ (if is_up n p then none else some not_established)
    unfolding send_update send_message enqueue set_peer
    error-send_update p n = ground (arith, made)

    error-send_to_peers :
        (m : Map ℕ PeerId) (n : Node A P S)
        → (send_to_peers env upd m n).1 ≡ (if all_up m n then none else some not_established)
    unfolding send_to_peers
    error-send_to_peers [] n = ground arith
    error-send_to_peers ((addr, p) ∷ m) n =
        let n1 = (send_update env p upd n).0 in
        ground (
          arith,
          error-send_update p n,
          error-send_to_peers m n1,
          Sends-all_up (send_update-Sends env p upd n) m,
        )

module _ {A P S : Type 0} ⦃ca : Comparable A⦄ ⦃cp : Comparable P⦄ (env : Env A P S) (vni : ℕ)
    (dest : Destination P) (hop : NextHop A) (n : Node A P S) where
  -- If the UPDATE of the route can be made a packet, `AnnounceRoute` returns no error exactly if the
  -- route was not announced and all peers are ESTABLISHED. Also with an error, the route is announced
  -- afterwards, and of the other routes exactly those that were.
  pub announce_route_lem :
      (v : ℕ) (d : Destination P) (h : NextHop A) {pkt : List ℕ}
      → packet_of env.net env.proto
          (Message.update (record { action = add; vni = vni; destination = dest; next_hop = hop }))
        ≡ ok pkt
      → ((announce_route env vni dest hop n).1 ≡ (
          if announced n vni dest hop
          then some (table nexthop_already_exists)
          else if all_up n.bond.peers n
          then none
          else some not_established))
        × (announced (announce_route env vni dest hop n).0 v d h
            ≡ (same_route {R = PeerRef} vni dest hop none v d h none || announced n v d h))
  unfolding announce_route set_announcements distribute_route_to_peers
  announce_route_lem v d h made =
      let rt = n.bond.my_announcements in
      let held = find-add_next_hop rt vni v dest d hop h none none in
      let m = set_announcements (add_next_hop rt vni dest hop none).0 n in
      let upd : MsgUpdate A P = record {
        action = add;
        vni = vni;
        destination = dest;
        next_hop = hop;
      } in
      (
        ground (
          arith,
          held.0,
          error-send_to_peers env upd made n.bond.peers m,
          all_up-set_announcements (add_next_hop rt vni dest hop none).0 n.bond.peers n,
        ),
        ground (arith, held.0, held.1, (distribute-Sends env add vni dest hop none m).bond),
      )

  -- `WithdrawRoute` ends the announcement of this route, also where it returns an error, and of no
  -- other; the routes of the peers and the client are as they were.
  pub withdraw_route_lem :
      (v : ℕ) (d : Destination P) (h : NextHop A)
      → (announced (withdraw_route env vni dest hop n).0 v d h
          ≡ (not (same_route {R = PeerRef} vni dest hop none v d h none) && announced n v d h))
        × ((withdraw_route env vni dest hop n).0.bond.route_table ≡ n.bond.route_table)
        × ((withdraw_route env vni dest hop n).0.client ≡ n.client)
  unfolding withdraw_route set_announcements
  withdraw_route_lem v d h =
      let rt = n.bond.my_announcements in
      let gone = find-remove_next_hop rt vni v dest d hop h none none in
      let m = set_announcements (remove_next_hop rt vni dest hop none).0 n in
      let s = distribute-Sends env remove vni dest hop none m in
      (ground (arith, gone.0, gone.1, s.bond), ground (arith, s.bond), ground (arith, s.client))
