-- ===== src/Bond/State.antt =====
-- peer.go: `setState`, `Close` and `Reset`; metalbond.go: `RemovePeer` and `addSubscriber`.
use metalbond.Base.{
  false, ℕ, ◌+◌, Bool, true, none, some, List, [], ◌∷◌, Comparable, same, if◌then◌else◌, ◌&&◌, not,
  nat_comparable, is_some,
}
use metalbond.Base.Map.{Map, keys, get, put, delete}
use metalbond.Base.Map.Nested.{at, ensure, update}
use metalbond.Types.{
  Destination, NextHop, add, ConnectionState, established, closed, retry, connecting,
  destination_comparable, next_hop_comparable, state_comparable,
}
use metalbond.Wire.Serialize.{is_nat}
use metalbond.RouteTable.{get_vnis, get_destinations_by_vni, get_destinations_by_vni_with_peer}
use metalbond.Bond.{
  PeerId, PeerRef, peer_ref_comparable, already_subscribed, never_returns, Node, Env, Method,
  set_peer,
}
use metalbond.Bond.Send.{peer_subscribe, send_update, is_incoming}
use metalbond.Bond.Received.{remove_subscriber}

-- the VNIs whose subscribers hold the peer
abbrev pub vnis_of_subscriber : PeerId → Map ℕ (Map PeerId Bool) → List ℕ
vnis_of_subscriber p [] = []
vnis_of_subscriber p ((vni, ps) ∷ m) =
    let rest = vnis_of_subscriber p m in if is_some (get ps p) then vni ∷ rest else rest

module _ {A P S : Type 0} where
  unfoldable pub write_state : PeerId → ConnectionState → Node A P S → Node A P S
  write_state p s n = set_peer p (record (n.peer p) { state = s }) n

  -- the three stop signals
  unfoldable pub signal_stop : PeerId → Node A P S → Node A P S
  signal_stop p n =
      set_peer p
        (record (n.peer p) {
          tx_chan_close = (n.peer p).tx_chan_close + 1;
          shutdown = (n.peer p).shutdown + 1;
          keepalive_stop = (n.peer p).keepalive_stop + 1;
        })
        n

  -- `Reset` comes to the wait for the peer's goroutines
  abbrev pub reset_waits : PeerId → Node A P S → Bool
  reset_waits p n = not (same (n.peer p).state closed) && not (is_incoming (n.peer p).direction)

module _ {A P S : Type 0} (env : Env A P S) where
  -- the subscriptions of the node, sent to a peer that is now connected; an error is logged
  unfoldable pub send_subscriptions : PeerId → List ℕ → Node A P S → Node A P S
  send_subscriptions p [] n = n
  send_subscriptions p (vni ∷ vnis) n = send_subscriptions p vnis (peer_subscribe env p vni n).0

  -- the announcements of the node, sent to such a peer: the action is `ADD`, its zero value
  unfoldable pub send_hops : PeerId → ℕ → Destination P → List (NextHop A) → Node A P S → Node A P S
  send_hops p vni dest [] n = n
  send_hops p vni dest (hop ∷ hops) n =
      send_hops p vni dest hops
        (send_update env p (record { action = add; vni = vni; destination = dest; next_hop = hop })
          n).0

  unfoldable pub send_dests :
      PeerId → ℕ → Map (Destination P) (List (NextHop A)) → Node A P S → Node A P S
  send_dests p vni [] n = n
  send_dests p vni ((dest, hops) ∷ m) n = send_dests p vni m (send_hops p vni dest hops n)

  unfoldable pub send_announcements : PeerId → List ℕ → Node A P S → Node A P S
  send_announcements p [] n = n
  send_announcements p (vni ∷ vnis) n =
      send_announcements p vnis
        (send_dests p vni (get_destinations_by_vni n.bond.my_announcements vni) n)

module _ {A P S : Type 0} ⦃ca : Comparable A⦄ ⦃cp : Comparable P⦄ (env : Env A P S) where
  -- an error of `removeSubscriber` is logged
  unfoldable pub remove_subscriptions : PeerId → List ℕ → Node A P S → Node A P S
  remove_subscriptions p [] n = n
  remove_subscriptions p (vni ∷ vnis) n =
      remove_subscriptions p vnis (remove_subscriber env p vni n).0

  unfoldable pub set_state : PeerId → ConnectionState → Node A P S → Node A P S
  set_state p new n =
      let n' = write_state p new n in
      if same (n.peer p).state new
      then n'
      else if same new established
      then send_announcements env p (get_vnis n'.bond.my_announcements)
          (send_subscriptions env p (keys n'.bond.my_subscriptions) n')
      else remove_subscriptions p (vnis_of_subscriber p n'.bond.subscribers) n'

  unfoldable pub close : PeerId → Node A P S → Node A P S
  close p n = if same (n.peer p).state closed then n else signal_stop p (set_state p closed n)

  -- `RemovePeer` and `unsafeRemovePeer`
  unfoldable pub remove_peer : ℕ → Node A P S → Node A P S
  remove_peer addr n = elim (get n.bond.peers addr) [
    | none ↦ n
    | some p ↦
        let n' = close p n in
        record n' { bond = record n'.bond { peers = delete n'.bond.peers addr } }
  ]

  -- `Reset` up to the wait for the peer's goroutines, which an outgoing peer makes
  unfoldable pub reset : PeerId → Node A P S → Node A P S
  reset p n =
      if same (n.peer p).state closed
      then n
      else if is_incoming (n.peer p).direction
      then remove_peer (n.peer p).remote_addr (close p n)
      else signal_stop p (set_state p retry n)

  -- the rest of `Reset` of an outgoing peer
  unfoldable pub reconnect : PeerId → Node A P S → Node A P S
  reconnect p n = set_state p connecting n

  -- The loops of `addSubscriber` over the routes of the VNI. A `Reset` that comes to its wait ends
  -- them, since `handle` itself is what waits, and then the flag is true.
  unfoldable pub replay_route :
      PeerId → ℕ → Destination P → NextHop A → List PeerRef → Node A P S → Node A P S × Bool
  replay_route p vni dest hop [] n = (n, false)
  replay_route p vni dest hop (from ∷ peers) n =
      let (sent, e) =
        send_update env p (record { action = add; vni = vni; destination = dest; next_hop = hop })
          n in
      let skips = same from (some p) && is_nat hop.hop_type in
      let next = if skips then n else if is_some e then reset p sent else sent in
      let rest = replay_route p vni dest hop peers next in
      if not skips && is_some e && reset_waits p sent then (next, true) else rest

  unfoldable pub replay_hops :
      PeerId → ℕ → Destination P → Map (NextHop A) (List PeerRef) → Node A P S → Node A P S × Bool
  replay_hops p vni dest [] n = (n, false)
  replay_hops p vni dest ((hop, peers) ∷ m) n =
      let (n', waits) = replay_route p vni dest hop peers n in
      let rest = replay_hops p vni dest m n' in if waits then (n', true) else rest

  unfoldable pub replay_dests :
      PeerId
      → ℕ
      → Map (Destination P) (Map (NextHop A) (List PeerRef))
      → Node A P S
      → Node A P S × Bool
  replay_dests p vni [] n = (n, false)
  replay_dests p vni ((dest, hops) ∷ m) n =
      let (n', waits) = replay_hops p vni dest hops n in
      let rest = replay_dests p vni m n' in if waits then (n', true) else rest

  -- The error is returned with `mtxSubscribers` locked, and a call that finds it locked waits for ever;
  -- so does one whose `Reset` waits, and it has come to its last state.
  unfoldable pub add_subscriber : PeerId → ℕ → Method A P S
  add_subscriber p vni n =
      let bond = n.bond in
      let subs = ensure bond.subscribers vni in
      if bond.subscribers_locked then (n, some never_returns) else elim (get (at subs vni) p) [
        | some _ ↦ (
          record n { bond = record bond { subscribers = subs; subscribers_locked = true } },
          some already_subscribed,
        )
        | none ↦
            let n' = record n {
              bond = record bond { subscribers = update subs vni (λ ps. put ps p true) };
            } in
            let (sent, waits) =
              replay_dests p vni (get_destinations_by_vni_with_peer n'.bond.route_table vni) n' in
            (sent, if waits then some never_returns else none)
      ]
