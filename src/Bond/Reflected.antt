-- ===== src/Bond/Reflected.antt =====
-- metalbond.go and peer.go: a route on its way from the client that announces it, over a server, to a
-- client that subscribed to its VNI.
use metalbond.Base.{
  ℕ, ◌≡◌, ◌<◌, Bool, true, false, ◌&&◌, ◌||◌, List, [], ◌∷◌, ◌++◌, arith, ◌∙◌, length, Comparable,
  same, same_eq, same_refl, Bool-cases, inl, inr, contains, map, IsDistinct, nat_comparable, none,
}
use metalbond.Base.Map.{Map, keys}
use metalbond.Base.Map.Nested.{at}
use metalbond.Types.{
  Destination, NextHop, MsgUpdate, Message, closed, retry, destination_comparable,
  next_hop_comparable, state_comparable,
}
use metalbond.Client.{Client}
use metalbond.RouteTable.{add_next_hop}
use metalbond.RouteTable.Effects.{find-add_next_hop}
use metalbond.Wire.Library.{Netip, Proto}
use metalbond.Wire.Serialize.{ok}
use metalbond.Wire.Packet.{packet_of, bytes_read}
use metalbond.Wire.RoundTrip.{IsSendable}
use metalbond.Bond.{PeerId, Node, Env, peer_ref_comparable}
use metalbond.Bond.Send.{send_update}
use metalbond.Bond.Distribute.{passed_over, send_to_peers, distribute_route_to_peers}
use metalbond.Bond.Received.{is_standard, announces}
use metalbond.Bond.Announce.{announce_route, set_announcements}
use metalbond.Bond.Sends.{Waits, Waits-last, send_update-Sends, send_to_peers-Sends}
use metalbond.Bond.Fanout.{tx, is_up, tx-send_update}
use metalbond.Bond.Routing.{routed}
use metalbond.Bond.Frame.{holds, IsBacked}
use metalbond.Bond.Announced.{
  announced, all_up, error-send_update, Sends-all_up, all_up-set_announcements,
}
use metalbond.Bond.Relay.{added, hear, hear_lem}

-- the peer is one of the peers of the map
abbrev pub is_peer : Map ℕ PeerId → PeerId → Bool
is_peer m p = contains (map (λ e. e.1) m) p

module _ {A P S : Type 0} (env : Env A P S) (upd : MsgUpdate A P) {pkt : List ℕ}
    (made : packet_of env.net env.proto (Message.update upd) ≡ ok pkt) where
  Waits-send_update :
      (p : PeerId) (n : Node A P S)
      → is_up n p ≡ true
      → Waits pkt (tx (send_update env p upd n).0 p)
  Waits-send_update p n up =
      let sent : tx (send_update env p upd n).0 p ≡ tx n p ++ pkt ∷ [] =
        ground (arith, tx-send_update env upd made p p n, up, same_refl p) in
      rw sent (Waits-last pkt (tx n p))

  -- while all peers are connected, the loop reaches each of them
  Waits-send_to_peers :
      (p : PeerId) (m : Map ℕ PeerId) (n : Node A P S)
      → all_up m n ≡ true
      → is_peer m p ≡ true
      → Waits pkt (tx (send_to_peers env upd m n).0 p)
  unfolding send_to_peers contains
  Waits-send_to_peers p [] n up h = absurd (ground (arith, h))
  Waits-send_to_peers p ((addr, r) ∷ m) n up h =
      let n1 = (send_update env r upd n).0 in
      let sent = send_update-Sends env r upd n in
      let first_up : is_up n r ≡ true = ground (arith, up) in
      let goes_on : (send_to_peers env upd ((addr, r) ∷ m) n).0 ≡ (send_to_peers env upd m n1).0 =
        ground (arith, error-send_update env upd made r n, first_up) in
      rw goes_on (elim (Bool-cases (same r p)) [
        | inl e ↦
            (send_to_peers-Sends env upd m n1).queue p pkt
              (let eq = same_eq r p e in rw (← eq) (Waits-send_update r n first_up))
        | inr e ↦
            Waits-send_to_peers p m n1 (ground (arith, Sends-all_up env sent m, up))
              (ground (arith, h, e))
      ])

module _ {A P S : Type 0} ⦃ca : Comparable A⦄ ⦃cp : Comparable P⦄ (env : Env A P S) (vni : ℕ)
    (dest : Destination P) (hop : NextHop A) where
  Waits-announce_route :
      (p : PeerId) (n : Node A P S) {pkt : List ℕ}
      → packet_of env.net env.proto (Message.update (added vni dest hop)) ≡ ok pkt
      → announced n vni dest hop ≡ false
      → all_up n.bond.peers n ≡ true
      → is_peer n.bond.peers p ≡ true
      → Waits pkt (tx (announce_route env vni dest hop n).0 p)
  unfolding announce_route distribute_route_to_peers set_announcements
  Waits-announce_route p n {pkt} made is_new up h =
      let rt = n.bond.my_announcements in
      let held = find-add_next_hop rt vni vni dest dest hop hop none none in
      let m = set_announcements (add_next_hop rt vni dest hop none).0 n in
      let upd : MsgUpdate A P = added vni dest hop in
      let sent : (announce_route env vni dest hop n).0 ≡ (send_to_peers env upd n.bond.peers m).0 =
        ground (arith, held.0, is_new) in
      rw sent (
        Waits-send_to_peers env upd made p n.bond.peers m
          (all_up-set_announcements (add_next_hop rt vni dest hop none).0 n.bond.peers n ∙ up) h)

module _ {A P : Type 0} ⦃ca : Comparable A⦄ ⦃cp : Comparable P⦄ (vni : ℕ) (dest : Destination P)
    (hop : NextHop A) where
  -- The node can take the route up from the peer: the connection is open, the tables are in step, the
  -- peer's own table lacks the route, the node does not announce the destination if the route is a
  -- STANDARD one, and no peer stands twice under the VNI.
  pub record CanHear {V : Type 0} (env : Env A P V) (p : PeerId) (n : Node A P V) : Type 0 where
    pub is_open : (same (n.peer p).state closed || same (n.peer p).state retry) ≡ false
    pub in_step : IsBacked n
    pub is_new : holds n vni dest hop p ≡ false
    pub wanted : (is_standard hop.hop_type && announces env n vni dest) ≡ false
    pub distinct : IsDistinct (keys (at n.bond.subscribers vni))

-- The three nodes: `u` is the server at the announcing client, `p` and `q` are the two clients at the
-- server, and `w` is the server at the other client.
module _ {A P S T U : Type 0} ⦃ca : Comparable A⦄ ⦃cp : Comparable P⦄ (net : Netip A P)
    (proto : Proto) (from : Client A P S) (over : Client A P T) (to : Client A P U) (vni : ℕ)
    (dest : Destination P) (hop : NextHop A) where
  abbrev pub announcer : Env A P S
  announcer = record { net = net; proto = proto; client = from }

  abbrev pub reflector : Env A P T
  reflector = record { net = net; proto = proto; client = over }

  abbrev pub subscriber : Env A P U
  subscriber = record { net = net; proto = proto; client = to }

  -- A client announces a route that it did not announce, and is connected to all its peers, `u` among
  -- them; the server reads the packet from `p` and has another subscriber `q` that is ESTABLISHED, not
  -- both are servers; the other client reads the packet from `w`. If the route is one that the program
  -- makes, and the server and the other client can take it up, then the same packet waits at the first
  -- client for `u` and at the server for `q`, and in the end the other client has the route from `w`
  -- and its `Client` was told of it.
  pub reflected_lem :
      (u p q w : PeerId) (a : Node A P S) (s : Node A P T) (c : Node A P U)
      (stale_s stale_c : List ℕ) {pkt : List ℕ}
      → packet_of net proto (Message.update (added vni dest hop)) ≡ ok pkt
      → IsSendable net (added vni dest hop)
      → 0 < length stale_s
      → 0 < length stale_c
      → announced a vni dest hop ≡ false
      → all_up a.bond.peers a ≡ true
      → is_peer a.bond.peers u ≡ true
      → CanHear vni dest hop reflector p s
      → contains (keys (at s.bond.subscribers vni)) q ≡ true
      → passed_over reflector p q s ≡ false
      → is_up s q ≡ true
      → CanHear vni dest hop subscriber w c
      → Waits pkt (tx (announce_route announcer vni dest hop a).0 u)
        × Waits pkt (tx (hear reflector p (pkt ++ stale_s) (bytes_read (length pkt)) s) q)
        × (routed (hear subscriber w (pkt ++ stale_c) (bytes_read (length pkt)) c) vni dest hop w
            ≡ true)
        × ((hear subscriber w (pkt ++ stale_c) (bytes_read (length pkt)) c).client
            ≡ (to.add_route vni dest hop c.client).0)
  reflected_lem u p q w a s c stale_s stale_c {pkt} made sendable room_s room_c is_new up near at_s
        listed others q_up at_c =
      let (_, _, relayed) =
        hear_lem reflector p vni dest hop q s stale_s made sendable room_s at_s.is_open at_s.in_step
          at_s.is_new at_s.wanted at_s.distinct in
      let (taken, told, _) =
        hear_lem subscriber w vni dest hop q c stale_c made sendable room_c at_c.is_open
          at_c.in_step at_c.is_new at_c.wanted at_c.distinct in
      let queued : tx (hear reflector p (pkt ++ stale_s) (bytes_read (length pkt)) s) q
          ≡ tx s q ++ pkt ∷ [] =
        ground (arith, relayed, listed, others, q_up) in
      (
        Waits-announce_route announcer vni dest hop u a made is_new up near,
        rw queued (Waits-last pkt (tx s q)),
        taken,
        told,
      )
