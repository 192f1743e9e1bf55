-- ===== src/Bond/Fanout.antt =====
-- metalbond.go: who is sent a route.
use metalbond.Base.{
  IsDistinct, ℕ, ◌≡◌, Bool, not, ◌&&◌, ◌||◌, some, List, [], ◌∷◌, ◌++◌, ap, same, if◌then◌else◌,
  arith, refl, contains, nat_comparable,
}
use metalbond.Base.Map.{keys}
use metalbond.Base.Map.Nested.{at}
use metalbond.Types.{
  Destination, NextHop, MsgUpdate, Message, UpdateAction, state_comparable, established,
}
use metalbond.Wire.Serialize.{ok}
use metalbond.Wire.Packet.{packet_of}
use metalbond.Bond.{PeerId, Peer, Node, Env, set_peer}
use metalbond.Bond.Send.{enqueue, send_message, send_update}
use metalbond.Bond.Distribute.{send_to_subscribers, distribute_route_to_peers, passed_over}
use metalbond.Bond.Sends.{Sends, send_update-Sends}

module _ {A P S : Type 0} where
  abbrev pub tx : Node A P S → PeerId → List (List ℕ)
  tx n q = (n.peer q).tx_chan

  abbrev pub is_up : Node A P S → PeerId → Bool
  is_up n q = same (n.peer q).state established

  pub Sends-is_up : {n n' : Node A P S} → Sends n n' → (q : PeerId) → is_up n' q ≡ is_up n q
  Sends-is_up s q = ap (λ (x : Peer A P). same x.state established) (s.peer q)

module _ {A P S : Type 0} (env : Env A P S) where
  Sends-passed_over :
      {n n' : Node A P S}
      → Sends n n'
      → (from q : PeerId) → passed_over env from q n' ≡ passed_over env from q n
  Sends-passed_over s from q = λ i.
      same q from
      || ((ap (λ (x : Peer A P). x.is_server) (s.peer from) i)
          && (ap (λ (x : Peer A P). x.is_server) (s.peer q) i))

  module _ (upd : MsgUpdate A P) {pkt : List ℕ}
      (made : packet_of env.net env.proto (Message.update upd) ≡ ok pkt) where
    pub tx-send_update :
        (p q : PeerId) (n : Node A P S)
        → tx (send_update env p upd n).0 q
          ≡ (if same p q && is_up n p then tx n q ++ pkt ∷ [] else tx n q)
    unfolding send_update send_message enqueue set_peer
    tx-send_update p q n = ground (arith, made)

    tx-send_to_subscribers :
        (from q : PeerId) (ps : List PeerId) (n : Node A P S)
        → IsDistinct ps
        → tx (send_to_subscribers env from upd ps n) q ≡ (
            if (contains ps q && not (passed_over env from q n)) && is_up n q
            then tx n q ++ pkt ∷ []
            else tx n q)
    unfolding send_to_subscribers contains
    tx-send_to_subscribers from q [] n d = refl
    tx-send_to_subscribers from q (p ∷ ps) n d =
        let n1 = (send_update env p upd n).0 in
        let sent : Sends n n1 = send_update-Sends env p upd n in
        ground (
          arith,
          tx-send_to_subscribers from q ps n d.1,
          tx-send_to_subscribers from q ps n1 d.1,
          tx-send_update p q n,
          Sends-passed_over sent from q,
          Sends-is_up sent q,
        )

  -- If the UPDATE of the route can be made a packet, and no peer stands twice under the VNI, then a
  -- route that came from a peer is sent once to each other subscriber of its VNI that is connected,
  -- unless both peers are servers, and to no other peer.
  pub tx-distribute :
      (action : UpdateAction) (vni : ℕ) (dest : Destination P) (hop : NextHop A) (from q : PeerId)
      (n : Node A P S) {pkt : List ℕ}
      → packet_of env.net env.proto (
          Message.update
            (record { action = action; vni = vni; destination = dest; next_hop = hop }))
        ≡ ok pkt
      → IsDistinct (keys (at n.bond.subscribers vni))
      → tx (distribute_route_to_peers env action vni dest hop (some from) n).0 q ≡ (
          if (contains (keys (at n.bond.subscribers vni)) q && not (passed_over env from q n))
            && is_up n q
          then tx n q ++ pkt ∷ []
          else tx n q)
  unfolding distribute_route_to_peers
  tx-distribute action vni dest hop from q n made d = tx-send_to_subscribers _ made from q _ n d
