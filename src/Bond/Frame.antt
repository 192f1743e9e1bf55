-- ===== src/Bond/Frame.antt =====
-- metalbond.go and peer.go: which routes the node has from a peer, and what the methods leave alone.
use metalbond.Base.{
  ℕ, ◌≡◌, Bool, true, false, some, [], ◌∙◌, ap, Comparable, same, same_eq, Bool-cases, inl, inr,
  refl, is_some, nat_comparable,
}
use metalbond.Base.Map.{get}
use metalbond.Base.Map.Nested.{at}
use metalbond.Types.{Destination, NextHop, destination_comparable, next_hop_comparable}
use metalbond.RouteTable.{find}
use metalbond.RouteTable.Own.{IsOwn}
use metalbond.Bond.{PeerId, peer_ref_comparable, Node, Peer, MetalBond, set_peer}
use metalbond.Bond.Sends.{Sends}
use metalbond.Bond.Routing.{routed}

-- the peer but for its routes and what waits in `txChan`
abbrev pub session : {A P : Type 0} → Peer A P → Peer A P
session x = record x { tx_chan = []; received_routes = [] }

module _ {A P S : Type 0} ⦃ca : Comparable A⦄ ⦃cp : Comparable P⦄ where
  -- the route stands in the peer's own table
  abbrev pub holds : Node A P S → ℕ → Destination P → NextHop A → PeerId → Bool
  holds n vni dest hop p = is_some (find (n.peer p).received_routes vni dest hop (some p))

  -- Each route that the node has from a peer is one that the peer's own table holds, and this table
  -- holds routes of this peer only.
  pub record IsBacked (n : Node A P S) : Type 0 where
    pub backed :
        (vni : ℕ) (dest : Destination P) (hop : NextHop A) (p : PeerId)
        → routed n vni dest hop p ≡ true
        → holds n vni dest hop p ≡ true
    pub own : (p : PeerId) → IsOwn (some p) (n.peer p).received_routes

  pub set_peer-IsOwn :
      (p : PeerId) (x : Peer A P) (n : Node A P S)
      → IsOwn (some p) x.received_routes
      → ((q : PeerId) → IsOwn (some q) (n.peer q).received_routes)
      → (q : PeerId) → IsOwn (some q) ((set_peer p x n).peer q).received_routes
  unfolding set_peer
  set_peer-IsOwn p x n h all q = elim (Bool-cases (same p q)) [
    | inl e ↦ rw e (let eq = same_eq p q e in rw (← eq) h)
    | inr e ↦ rw e (all q)
  ]

  -- the peer stands under the VNI
  abbrev pub subscribed : Node A P S → ℕ → PeerId → Bool
  subscribed n vni p = is_some (get (at n.bond.subscribers vni) p)

  -- What a change leaves alone: the lock, the announcements, the subscriptions and the goroutines are
  -- the same, and so is what `view` sees of a peer; no peer becomes a subscriber, and `IsBacked` stays.
  pub record Frame (view : Peer A P → Peer A P) (n n' : Node A P S) : Type 0 where
    pub locked : n'.bond.subscribers_locked ≡ n.bond.subscribers_locked
    pub announcements : n'.bond.my_announcements ≡ n.bond.my_announcements
    pub subscriptions : n'.bond.my_subscriptions ≡ n.bond.my_subscriptions
    pub spawned : n'.spawned ≡ n.spawned
    pub peer : (q : PeerId) → view (n'.peer q) ≡ view (n.peer q)
    pub subscribers :
        (vni : ℕ) (q : PeerId) → subscribed n vni q ≡ false → subscribed n' vni q ≡ false
    pub backed : IsBacked n → IsBacked n'

  pub Frame-refl : {view : Peer A P → Peer A P} (n : Node A P S) → Frame view n n
  Frame-refl n = record {
    locked = refl;
    announcements = refl;
    subscriptions = refl;
    spawned = refl;
    peer = λ q. refl;
    subscribers = λ vni q h. h;
    backed = λ b. b;
  }

  pub Frame-trans :
      {view : Peer A P → Peer A P} {l m n : Node A P S}
      → Frame view l m
      → Frame view m n
      → Frame view l n
  Frame-trans s t = record {
    locked = t.locked ∙ s.locked;
    announcements = t.announcements ∙ s.announcements;
    subscriptions = t.subscriptions ∙ s.subscriptions;
    spawned = t.spawned ∙ s.spawned;
    peer = λ q. t.peer q ∙ s.peer q;
    subscribers = λ vni q h. t.subscribers vni q (s.subscribers vni q h);
    backed = λ b. t.backed (s.backed b);
  }

  pub Sends-Frame : {n n' : Node A P S} → Sends n n' → Frame session n n'
  Sends-Frame {n} {n'} s = record {
    locked = ap (λ (b : MetalBond A P). b.subscribers_locked) s.bond;
    announcements = ap (λ (b : MetalBond A P). b.my_announcements) s.bond;
    subscriptions = ap (λ (b : MetalBond A P). b.my_subscriptions) s.bond;
    spawned = s.spawned;
    peer = λ q. ap session (s.peer q);
    subscribers = λ vni q h. rw (s.bond) h;
    backed = λ b. record {
      backed = λ vni dest hop p h.
          let held : holds n' vni dest hop p ≡ holds n vni dest hop p =
            ap (λ (x : Peer A P). is_some (find x.received_routes vni dest hop (some p)))
              (s.peer p) in
          let old : routed n' vni dest hop p ≡ routed n vni dest hop p =
            ap (λ (x : MetalBond A P). is_some (find x.route_table vni dest hop (some p))) s.bond in
          let before : routed n vni dest hop p ≡ true = cc in held ∙ b.backed vni dest hop p before;
      own =
          λ p. let kept = ap (λ (x : Peer A P). x.received_routes) (s.peer p) in rw kept (b.own p);
    };
  }
