-- ===== src/Bond/Send.antt =====
-- peer.go: the methods that send a message to a peer.
use metalbond.Base.{
  ℕ, Bool, true, false, none, some, List, [], ◌∷◌, ◌++◌, Comparable, same, if◌then◌else◌, not,
}
use metalbond.Base.Map.{Map}
use metalbond.Types.{
  Destination, NextHop, ConnectionDirection, incoming, outgoing, established, closed, Message,
  subscribe, unsubscribe, update, MsgUpdate, state_comparable, destination_comparable,
  next_hop_comparable,
}
use metalbond.RouteTable.{get_destinations_by_vni, remove_next_hop}
use metalbond.Wire.Serialize.{Result, ok, err, crash}
use metalbond.Wire.Packet.{packet_of}
use metalbond.Bond.{
  PeerId, PeerRef, peer_ref_comparable, Routes, incoming_connection, not_established, state_closed,
  wire, panicked, Env, Method, set_peer,
}

abbrev pub is_incoming : ConnectionDirection → Bool
is_incoming incoming = true
is_incoming outgoing = false

module _ {A P S : Type 0} (env : Env A P S) where
  -- `p.txChan <- pkt`; the channel has room
  unfoldable pub enqueue : PeerId → Result (List ℕ) → Method A P S
  enqueue p (ok pkt) n =
      (set_peer p (record (n.peer p) { tx_chan = (n.peer p).tx_chan ++ pkt ∷ [] }) n, none)
  enqueue p (err e) n = (n, some (wire e))
  enqueue p crash n = (n, some panicked)

  unfoldable pub send_message : PeerId → Message A P → Method A P S
  send_message p m n =
      if same (n.peer p).state closed
      then (n, some state_closed)
      else enqueue p (packet_of env.net env.proto m) n

  -- `Subscribe` of a peer
  unfoldable pub peer_subscribe : PeerId → ℕ → Method A P S
  peer_subscribe p vni n =
      if is_incoming (n.peer p).direction
      then (n, some incoming_connection)
      else if not (same (n.peer p).state established)
      then (n, some not_established)
      else send_message p (subscribe vni) n

  unfoldable pub send_update : PeerId → MsgUpdate A P → Method A P S
  send_update p upd n =
      if not (same (n.peer p).state established)
      then (n, some not_established)
      else send_message p (update upd) n

module _ {A P : Type 0} ⦃ca : Comparable A⦄ ⦃cp : Comparable P⦄ where
  -- the loops over one VNI's received routes, which log an error and go on
  abbrev pub forget_hops : PeerRef → ℕ → Destination P → List (NextHop A) → Routes A P → Routes A P
  forget_hops from vni dest [] rt = rt
  forget_hops from vni dest (nh ∷ nhs) rt =
      forget_hops from vni dest nhs (remove_next_hop rt vni dest nh from).0

  abbrev pub forget_dests :
      PeerRef → ℕ → Map (Destination P) (List (NextHop A)) → Routes A P → Routes A P
  forget_dests from vni [] rt = rt
  forget_dests from vni ((dest, nhs) ∷ m) rt =
      forget_dests from vni m (forget_hops from vni dest nhs rt)

  unfoldable pub forget_vni : PeerRef → ℕ → Routes A P → Routes A P
  forget_vni from vni rt = forget_dests from vni (get_destinations_by_vni rt vni) rt

module _ {A P S : Type 0} ⦃ca : Comparable A⦄ ⦃cp : Comparable P⦄ (env : Env A P S) where
  -- `Unsubscribe` of a peer
  unfoldable pub peer_unsubscribe : PeerId → ℕ → Method A P S
  peer_unsubscribe p vni n =
      if is_incoming (n.peer p).direction
      then (n, some incoming_connection)
      else send_message env p (unsubscribe vni) (
          set_peer p
            (record (n.peer p) {
              received_routes = forget_vni (some p) vni (n.peer p).received_routes;
            })
            n)
