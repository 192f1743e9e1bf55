-- ===== src/Bond/Calls.antt =====
-- peer.go and metalbond.go: what `setState`, `Close`, `Reset` and `addSubscriber` leave alone.
use metalbond.Base.{
  not, ℕ, ◌≡◌, Bool, true, false, some, List, [], ◌∷◌, ◌∙◌, ap, Bool-cases, inl, inr, Comparable,
  same, arith, refl, is_some, nat_comparable, if◌then◌else◌, Option-cases, ◌&&◌,
}
use metalbond.Base.Map.{Map, get, keys, delete}
use metalbond.Types.{
  Destination, NextHop, MsgUpdate, add, destination_comparable, next_hop_comparable,
  ConnectionState, established, closed, retry, state_comparable,
}
use metalbond.RouteTable.{get_vnis}
use metalbond.Bond.{PeerId, PeerRef, peer_ref_comparable, Node, Env, Peer, set_peer}
use metalbond.Bond.Send.{is_incoming, send_update}
use metalbond.Wire.Serialize.{is_nat}
use metalbond.Bond.State.{
  vnis_of_subscriber, write_state, send_subscriptions, send_announcements, remove_subscriptions,
  set_state, signal_stop, close, remove_peer, reset, reset_waits, replay_route, replay_hops,
  replay_dests,
}
use metalbond.Bond.Sends.{send_update-Sends, send_subscriptions-Sends, send_announcements-Sends}
use metalbond.Bond.Frame.{set_peer-IsOwn, Frame, Frame-refl, Frame-trans, session, Sends-Frame}
use metalbond.Bond.Removal.{remove_subscriber-Frame}

-- the peer but for its session: its address, direction, interval and what it asked for
abbrev pub identity : {A P : Type 0} → Peer A P → Peer A P
identity x = record x {
  tx_chan = [];
  received_routes = [];
  state = closed;
  tx_chan_close = 0;
  shutdown = 0;
  keepalive_stop = 0;
}

module _ {A P S : Type 0} ⦃ca : Comparable A⦄ ⦃cp : Comparable P⦄ where
  pub Frame-identity : {n n' : Node A P S} → Frame session n n' → Frame identity n n'
  Frame-identity f = record {
    locked = f.locked;
    announcements = f.announcements;
    subscriptions = f.subscriptions;
    spawned = f.spawned;
    peer = λ q. ap identity (f.peer q);
    subscribers = f.subscribers;
    backed = f.backed;
  }

  -- a write to a peer that keeps its routes and what `view` sees
  pub set_peer-Frame :
      {view : Peer A P → Peer A P} (p : PeerId) (x : Peer A P) (n : Node A P S)
      → view x ≡ view (n.peer p)
      → x.received_routes ≡ (n.peer p).received_routes
      → Frame view n (set_peer p x n)
  unfolding set_peer
  set_peer-Frame p x n e r = record {
    locked = refl;
    announcements = refl;
    subscriptions = refl;
    spawned = refl;
    peer = λ q. ground (arith, e);
    subscribers = λ v q h. h;
    backed = λ b. record {
      backed = λ v d h q k. ground (arith, r, b.backed v d h q k);
      own = unfold set_peer in set_peer-IsOwn p x n (rw r (b.own p)) b.own;
    };
  }

  pub write_state-Frame :
      (p : PeerId) (s : ConnectionState) (n : Node A P S) → Frame identity n (write_state p s n)
  unfolding write_state
  write_state-Frame p s n = set_peer-Frame p _ n refl refl

  signal_stop-Frame : (p : PeerId) (n : Node A P S) → Frame identity n (signal_stop p n)
  unfolding signal_stop
  signal_stop-Frame p n = set_peer-Frame p _ n refl refl

module _ {A P S : Type 0} ⦃ca : Comparable A⦄ ⦃cp : Comparable P⦄ (env : Env A P S) where
  pub remove_subscriptions-Frame :
      (p : PeerId) (vnis : List ℕ) (n : Node A P S)
      → Frame session n (remove_subscriptions env p vnis n)
  unfolding remove_subscriptions
  remove_subscriptions-Frame p [] n = Frame-refl n
  remove_subscriptions-Frame p (vni ∷ vnis) n =
      Frame-trans (remove_subscriber-Frame env p vni n) (remove_subscriptions-Frame p vnis _)

  -- what follows the change of the state
  abbrev follow : PeerId → ConnectionState → Node A P S → Node A P S
  follow p new n =
      if same new established
      then send_announcements env p (get_vnis n.bond.my_announcements)
          (send_subscriptions env p (keys n.bond.my_subscriptions) n)
      else remove_subscriptions env p (vnis_of_subscriber p n.bond.subscribers) n

  follow-Frame :
      (p : PeerId) (new : ConnectionState) (n : Node A P S) → Frame session n (follow p new n)
  follow-Frame p new n = elim (Bool-cases (same new established)) [
    | inl e ↦ rw e (
        Frame-trans (Sends-Frame (send_subscriptions-Sends env p (keys n.bond.my_subscriptions) n))
          (Sends-Frame (send_announcements-Sends env p (get_vnis n.bond.my_announcements) _)))
    | inr e ↦ rw e (remove_subscriptions-Frame p (vnis_of_subscriber p n.bond.subscribers) n)
  ]

  -- after the new state is written, the state of no peer changes
  pub set_state-session :
      (p : PeerId) (new : ConnectionState) (n : Node A P S)
      → Frame session (write_state p new n) (set_state env p new n)
  unfolding set_state
  set_state-session p new n = elim (Bool-cases (same (n.peer p).state new)) [
    | inl e ↦ rw e (Frame-refl _)
    | inr e ↦ rw e (follow-Frame p new (write_state p new n))
  ]

  pub set_state-Frame :
      (p : PeerId) (new : ConnectionState) (n : Node A P S)
      → Frame identity n (set_state env p new n)
  set_state-Frame p new n =
      Frame-trans (write_state-Frame p new n) (Frame-identity (set_state-session p new n))

  written :
      (p : PeerId) (new : ConnectionState) (n : Node A P S)
      → ((write_state p new n).peer p).state ≡ new
  unfolding write_state set_peer
  written p new n = ground arith

  pub state-set_state :
      (p : PeerId) (new : ConnectionState) (n : Node A P S)
      → ((set_state env p new n).peer p).state ≡ new
  state-set_state p new n =
      ap (λ (x : Peer A P). x.state) ((set_state-session p new n).peer p) ∙ written p new n

  Frame-if :
      {view : Peer A P → Peer A P} (b : Bool) (n x y : Node A P S)
      → Frame view n x
      → Frame view n y
      → Frame view n (if b then x else y)
  Frame-if true n x y s t = s
  Frame-if false n x y s t = t

  pub close-Frame : (p : PeerId) (n : Node A P S) → Frame identity n (close env p n)
  unfolding close
  close-Frame p n =
      Frame-if (same (n.peer p).state closed) n _ _ (Frame-refl n)
        (Frame-trans (set_state-Frame p closed n) (signal_stop-Frame p _))

  delete_peer-Frame :
      {view : Peer A P → Peer A P} (m : Map ℕ PeerId) (n : Node A P S)
      → Frame view n (record n { bond = record n.bond { peers = m } })
  delete_peer-Frame m n = record {
    locked = refl;
    announcements = refl;
    subscriptions = refl;
    spawned = refl;
    peer = λ q. refl;
    subscribers = λ v q h. h;
    backed = λ b. record { backed = λ v d h q e. b.backed v d h q e; own = b.own };
  }

  pub remove_peer-Frame : (addr : ℕ) (n : Node A P S) → Frame identity n (remove_peer env addr n)
  unfolding remove_peer
  remove_peer-Frame addr n = elim (Option-cases (get n.bond.peers addr)) [
    | inl e ↦ rw (e, remove_peer) (Frame-refl n)
    | inr (p, e) ↦
        rw (e, remove_peer)
          (Frame-trans (close-Frame p n)
            (delete_peer-Frame (delete (close env p n).bond.peers addr) (close env p n)))
  ]

  pub reset-Frame : (p : PeerId) (n : Node A P S) → Frame identity n (reset env p n)
  unfolding reset
  reset-Frame p n = Frame-if (same (n.peer p).state closed) n _ _ (Frame-refl n) (
      Frame-if (is_incoming (n.peer p).direction) n _ _
        (Frame-trans (close-Frame p n) (remove_peer-Frame (n.peer p).remote_addr (close env p n)))
        (Frame-trans (set_state-Frame p retry n) (signal_stop-Frame p _)))

  -- a round after which a loop ends if the flag is set, and then with this flag
  Frame-stop :
      (waits : Bool) (n n' : Node A P S) (rest : Node A P S × Bool)
      → Frame identity n n'
      → Frame identity n' rest.0
      → Frame identity n (if waits then (n', true) else rest).0
  Frame-stop true n n' rest s t = s
  Frame-stop false n n' rest s t = Frame-trans s t

  replay_route-Frame :
      (p : PeerId) (vni : ℕ) (dest : Destination P) (hop : NextHop A) (peers : List PeerRef)
      (n : Node A P S)
      → Frame identity n (replay_route env p vni dest hop peers n).0
  unfolding replay_route
  replay_route-Frame p vni dest hop [] n = Frame-refl n
  replay_route-Frame p vni dest hop (from ∷ peers) n =
      let upd : MsgUpdate A P = record {
        action = add;
        vni = vni;
        destination = dest;
        next_hop = hop;
      } in
      let sent = send_update env p upd n in
      let s : Frame identity n sent.0 =
        Frame-identity (Sends-Frame (send_update-Sends env p upd n)) in
      let skips = same from (some p) && is_nat hop.hop_type in
      let step =
        Frame-if skips n _ _ (Frame-refl n)
          (Frame-if (is_some sent.1) n _ _ (Frame-trans s (reset-Frame p sent.0)) s) in
      Frame-stop (not skips && is_some sent.1 && reset_waits p sent.0) n _ _ step
        (replay_route-Frame p vni dest hop peers _)

  replay_hops-Frame :
      (p : PeerId) (vni : ℕ) (dest : Destination P) (m : Map (NextHop A) (List PeerRef))
      (n : Node A P S)
      → Frame identity n (replay_hops env p vni dest m n).0
  unfolding replay_hops
  replay_hops-Frame p vni dest [] n = Frame-refl n
  replay_hops-Frame p vni dest ((hop, peers) ∷ m) n =
      Frame-stop (replay_route env p vni dest hop peers n).1 n _ _
        (replay_route-Frame p vni dest hop peers n) (replay_hops-Frame p vni dest m _)

  pub replay_dests-Frame :
      (p : PeerId) (vni : ℕ) (m : Map (Destination P) (Map (NextHop A) (List PeerRef)))
      (n : Node A P S)
      → Frame identity n (replay_dests env p vni m n).0
  unfolding replay_dests
  replay_dests-Frame p vni [] n = Frame-refl n
  replay_dests-Frame p vni ((dest, hops) ∷ m) n =
      Frame-stop (replay_hops env p vni dest hops n).1 n _ _ (replay_hops-Frame p vni dest hops n)
        (replay_dests-Frame p vni m _)
