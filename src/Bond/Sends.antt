-- ===== src/Bond/Sends.antt =====
-- peer.go and metalbond.go: what only sends changes no more than what stands in `txChan`.
use metalbond.Base.{
  ℕ, ◌≡◌, Bool, true, false, Option, none, some, List, [], ◌∷◌, ◌++◌, ◌∙◌, same, same_eq,
  if◌then◌else◌, arith, refl, not, Bool-cases, inl, inr, nat_comparable,
}
use metalbond.Base.Map.{Map}
use metalbond.Types.{
  Destination, NextHop, MsgUpdate, Message, UpdateAction, state_comparable, closed, established,
}
use metalbond.Wire.Serialize.{Result, ok, err, crash}
use metalbond.Bond.{PeerId, PeerRef, Peer, Node, Env, set_peer, Error}
use metalbond.Bond.Send.{enqueue, send_message, peer_subscribe, send_update, is_incoming}
use metalbond.Bond.Distribute.{
  send_to_peers, send_to_subscribers, distribute_route_to_peers, passed_over,
}
use metalbond.Bond.State.{send_subscriptions, send_hops, send_dests, send_announcements}

-- the peer but for what waits in `txChan`
abbrev pub quiet : {A P : Type 0} → Peer A P → Peer A P
quiet x = record x { tx_chan = [] }

-- the packet stands in the channel
pub data Waits (pkt : List ℕ) : List (List ℕ) → Type 0 where
  first : {xs : List (List ℕ)} → Waits pkt (pkt ∷ xs)
  later : {x : List ℕ} {xs : List (List ℕ)} → Waits pkt xs → Waits pkt (x ∷ xs)

Waits-append :
    {pkt : List ℕ} {xs : List (List ℕ)} (ys : List (List ℕ)) → Waits pkt xs → Waits pkt (xs ++ ys)
Waits-append ys first = first
Waits-append ys (later w) = later (Waits-append ys w)

pub Waits-last : (pkt : List ℕ) (xs : List (List ℕ)) → Waits pkt (xs ++ pkt ∷ [])
Waits-last pkt [] = first
Waits-last pkt (x ∷ xs) = later (Waits-last pkt xs)

pub record Sends {A P S : Type 0} (n n' : Node A P S) : Type 0 where
  pub bond : n'.bond ≡ n.bond
  pub client : n'.client ≡ n.client
  pub spawned : n'.spawned ≡ n.spawned
  pub peer : (q : PeerId) → quiet (n'.peer q) ≡ quiet (n.peer q)
  pub queue :
      (q : PeerId) (pkt : List ℕ) → Waits pkt (n.peer q).tx_chan → Waits pkt (n'.peer q).tx_chan

module _ {A P S : Type 0} where
  pub Sends-refl : (n : Node A P S) → Sends n n
  Sends-refl n = record {
    bond = refl;
    client = refl;
    spawned = refl;
    peer = λ q. refl;
    queue = λ q pkt w. w;
  }

  pub Sends-trans : {l m n : Node A P S} → Sends l m → Sends m n → Sends l n
  Sends-trans s t = record {
    bond = t.bond ∙ s.bond;
    client = t.client ∙ s.client;
    spawned = t.spawned ∙ s.spawned;
    peer = λ q. t.peer q ∙ s.peer q;
    queue = λ q pkt w. t.queue q pkt (s.queue q pkt w);
  }

  -- a write to a peer that takes no packet from its channel
  pub Waits-set_peer :
      (p : PeerId) (x : Peer A P) (n : Node A P S)
      → ((pkt : List ℕ) → Waits pkt (n.peer p).tx_chan → Waits pkt x.tx_chan)
      → (q : PeerId) (pkt : List ℕ) → Waits pkt (n.peer q).tx_chan
      → Waits pkt ((set_peer p x n).peer q).tx_chan
  unfolding set_peer
  Waits-set_peer p x n h q pkt w = elim (Bool-cases (same p q)) [
    | inl e ↦ rw e (h pkt (let eq = same_eq p q e in rw eq w))
    | inr e ↦ rw e w
  ]

module _ {A P S : Type 0} (env : Env A P S) where
  enqueue-Sends :
      (p : PeerId) (r : Result (List ℕ)) (n : Node A P S) → Sends n (enqueue env p r n).0
  unfolding enqueue set_peer
  enqueue-Sends p (ok pkt) n = record {
    bond = refl;
    client = refl;
    spawned = refl;
    peer = λ q. ground arith;
    queue =
        λ q y w. unfold set_peer in Waits-set_peer p _ n (λ x v. Waits-append (pkt ∷ []) v) q y w;
  }
  enqueue-Sends p (err e) n = Sends-refl n
  enqueue-Sends p crash n = Sends-refl n

  Sends-if :
      (b : Bool) (n : Node A P S) (x y : Node A P S × Option Error)
      → Sends n x.0
      → Sends n y.0
      → Sends n (if b then x else y).0
  Sends-if true n x y s t = s
  Sends-if false n x y s t = t

  pub send_message-Sends :
      (p : PeerId) (m : Message A P) (n : Node A P S) → Sends n (send_message env p m n).0
  unfolding send_message
  send_message-Sends p m n =
      Sends-if (same (n.peer p).state closed) n _ _ (Sends-refl n) (enqueue-Sends p _ n)

  pub send_update-Sends :
      (p : PeerId) (m : MsgUpdate A P) (n : Node A P S) → Sends n (send_update env p m n).0
  unfolding send_update
  send_update-Sends p m n =
      Sends-if (not (same (n.peer p).state established)) n _ _ (Sends-refl n)
        (send_message-Sends p _ n)

  pub peer_subscribe-Sends :
      (p : PeerId) (vni : ℕ) (n : Node A P S) → Sends n (peer_subscribe env p vni n).0
  unfolding peer_subscribe
  peer_subscribe-Sends p vni n = Sends-if (is_incoming (n.peer p).direction) n _ _ (Sends-refl n) (
      Sends-if (not (same (n.peer p).state established)) n _ _ (Sends-refl n)
        (send_message-Sends p _ n))

  pub stop_or_go-Sends :
      (n n' : Node A P S) (e : Option Error) (rest : Node A P S × Option Error)
      → Sends n n'
      → Sends n' rest.0
      → Sends n
          (let r : Node A P S × Option Error = elim e [ none ↦ rest | some x ↦ (n', some x) ] in
            r).0
  stop_or_go-Sends n n' none rest s t = Sends-trans s t
  stop_or_go-Sends n n' (some x) rest s t = s

  pub send_to_peers-Sends :
      (upd : MsgUpdate A P) (m : Map ℕ PeerId) (n : Node A P S)
      → Sends n (send_to_peers env upd m n).0
  unfolding send_to_peers
  send_to_peers-Sends upd [] n = Sends-refl n
  send_to_peers-Sends upd ((addr, p) ∷ m) n =
      let (n', e) = send_update env p upd n in
      stop_or_go-Sends n n' e (send_to_peers env upd m n') (send_update-Sends p upd n)
        (send_to_peers-Sends upd m n')

  pub send_to_subscribers-Sends :
      (from : PeerId) (upd : MsgUpdate A P) (ps : List PeerId) (n : Node A P S)
      → Sends n (send_to_subscribers env from upd ps n)
  unfolding send_to_subscribers
  send_to_subscribers-Sends from upd [] n = Sends-refl n
  send_to_subscribers-Sends from upd (p ∷ ps) n = elim (Bool-cases (passed_over env from p n)) [
    | inl e ↦ rw e (send_to_subscribers-Sends from upd ps n)
    | inr e ↦ rw e (
        Sends-trans (send_update-Sends p upd n)
          (send_to_subscribers-Sends from upd ps (send_update env p upd n).0))
  ]

  pub distribute-Sends :
      (action : UpdateAction) (vni : ℕ) (dest : Destination P) (hop : NextHop A) (from : PeerRef)
      (n : Node A P S)
      → Sends n (distribute_route_to_peers env action vni dest hop from n).0
  unfolding distribute_route_to_peers
  distribute-Sends action vni dest hop none n = send_to_peers-Sends _ n.bond.peers n
  distribute-Sends action vni dest hop (some from) n = send_to_subscribers-Sends from _ _ n

  pub send_subscriptions-Sends :
      (p : PeerId) (vnis : List ℕ) (n : Node A P S) → Sends n (send_subscriptions env p vnis n)
  unfolding send_subscriptions
  send_subscriptions-Sends p [] n = Sends-refl n
  send_subscriptions-Sends p (vni ∷ vnis) n =
      Sends-trans (peer_subscribe-Sends p vni n)
        (send_subscriptions-Sends p vnis (peer_subscribe env p vni n).0)

  send_hops-Sends :
      (p : PeerId) (vni : ℕ) (dest : Destination P) (hops : List (NextHop A)) (n : Node A P S)
      → Sends n (send_hops env p vni dest hops n)
  unfolding send_hops
  send_hops-Sends p vni dest [] n = Sends-refl n
  send_hops-Sends p vni dest (hop ∷ hops) n =
      Sends-trans (send_update-Sends p _ n) (send_hops-Sends p vni dest hops _)

  send_dests-Sends :
      (p : PeerId) (vni : ℕ) (m : Map (Destination P) (List (NextHop A))) (n : Node A P S)
      → Sends n (send_dests env p vni m n)
  unfolding send_dests
  send_dests-Sends p vni [] n = Sends-refl n
  send_dests-Sends p vni ((dest, hops) ∷ m) n =
      Sends-trans (send_hops-Sends p vni dest hops n)
        (send_dests-Sends p vni m (send_hops env p vni dest hops n))

  pub send_announcements-Sends :
      (p : PeerId) (vnis : List ℕ) (n : Node A P S) → Sends n (send_announcements env p vnis n)
  unfolding send_announcements
  send_announcements-Sends p [] n = Sends-refl n
  send_announcements-Sends p (vni ∷ vnis) n =
      Sends-trans (send_dests-Sends p vni _ n) (send_announcements-Sends p vnis _)
