-- ===== src/Bond/Distribute.antt =====
-- metalbond.go: `distributeRouteToPeers`.
use metalbond.Base.{
  ℕ, Bool, none, some, List, [], ◌∷◌, same, if◌then◌else◌, ◌&&◌, ◌||◌, nat_comparable,
}
use metalbond.Base.Map.{Map, keys}
use metalbond.Base.Map.Nested.{at}
use metalbond.Types.{Destination, NextHop, UpdateAction, MsgUpdate}
use metalbond.Bond.{PeerId, PeerRef, Node, Env, Method}
use metalbond.Bond.Send.{send_update}

module _ {A P S : Type 0} (env : Env A P S) where
  -- the loop for a route of this node: the first error ends it
  unfoldable pub send_to_peers : MsgUpdate A P → Map ℕ PeerId → Method A P S
  send_to_peers upd [] n = (n, none)
  send_to_peers upd ((addr, p) ∷ m) n =
      let (n', e) = send_update env p upd n in
      let rest = send_to_peers upd m n' in elim e [ none ↦ rest | some x ↦ (n', some x) ]

  -- the peers that the other loop passes over
  abbrev pub passed_over : PeerId → PeerId → Node A P S → Bool
  passed_over from p n = same p from || ((n.peer from).is_server && (n.peer p).is_server)

  -- the loop for a route of the peer `from`: an error is logged
  unfoldable pub send_to_subscribers :
      PeerId → MsgUpdate A P → List PeerId → Node A P S → Node A P S
  send_to_subscribers from upd [] n = n
  send_to_subscribers from upd (p ∷ ps) n =
      send_to_subscribers from upd ps
        (if passed_over from p n then n else (send_update env p upd n).0)

  -- a VNI without subscribers has no keys below it
  unfoldable pub distribute_route_to_peers :
      UpdateAction → ℕ → Destination P → NextHop A → PeerRef → Method A P S
  distribute_route_to_peers action vni dest hop none n =
      send_to_peers (record { action = action; vni = vni; destination = dest; next_hop = hop })
        n.bond.peers n
  distribute_route_to_peers action vni dest hop (some from) n = (
    send_to_subscribers from
        (record { action = action; vni = vni; destination = dest; next_hop = hop })
        (keys (at n.bond.subscribers vni)) n,
    none,
  )
