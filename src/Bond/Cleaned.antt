-- ===== src/Bond/Cleaned.antt =====
-- peer.go: `cleanup`, and the routes of the peer whose session ends.
use metalbond.Base.{
  ℕ, ◌≡◌, Bool, true, false, not, ◌&&◌, some, List, [], ◌∷◌, ◌∙◌, ap, refl, arith, Bool-cases,
  same_eq, same_refl, inl, inr, Comparable, same, contains, nat_comparable, IsDistinct,
}
use metalbond.Base.Map.{Map, get, keys, get-head, contains-keys}
use metalbond.Types.{Destination, NextHop, destination_comparable, next_hop_comparable}
use metalbond.RouteTable.{get_destinations_by_vni, get_vnis}
use metalbond.RouteTable.Effects.{find-remove_next_hop}
use metalbond.RouteTable.Listing.{get_vnis_iff}
use metalbond.RouteTable.Listed.{lists, lists-find, IsListing, get_destinations_by_vni-IsListing}
use metalbond.Bond.{PeerId, peer_ref_comparable, Node, Env}
use metalbond.Bond.Received.{drop_route}
use metalbond.Bond.Cleanup.{unsubscribe_vnis, cleanup_hops, cleanup_dests, cleanup_vnis, cleanup}
use metalbond.Bond.Frame.{IsBacked, holds}
use metalbond.Bond.Removal.{drop_route-Frame, holds-drop_route}
use metalbond.Bond.Forgotten.{bond_unsubscribe-IsBacked}
use metalbond.Bond.Routing.{routed}

-- another element is not this one
apart :
    {A : Type 0} ⦃c : Comparable A⦄ (x y : A) (xs : List A)
    → contains xs x ≡ false
    → contains xs y ≡ true
    → same x y ≡ false
apart x y xs h e = elim (Bool-cases (same x y)) [
  | inl k ↦ absurd (ground (arith, ap (contains xs) (same_eq x y k), h, e))
  | inr k ↦ k
]

module _ {A P S : Type 0} ⦃ca : Comparable A⦄ ⦃cp : Comparable P⦄ (env : Env A P S) where
  unsubscribe_vnis-IsBacked :
      (vnis : List ℕ) (n : Node A P S) → IsBacked n → IsBacked (unsubscribe_vnis env vnis n)
  unfolding unsubscribe_vnis
  unsubscribe_vnis-IsBacked [] n b = b
  unsubscribe_vnis-IsBacked (vni ∷ vnis) n b =
      unsubscribe_vnis-IsBacked vnis _ (bond_unsubscribe-IsBacked env vni n b)

  module _ (p : PeerId) (vni : ℕ) where
    -- a round of the loop at a route that the peer's table holds
    cleanup_hops-held :
        (dest : Destination P) (nh : NextHop A) (nhs : List (NextHop A)) (n : Node A P S)
        → holds n vni dest nh p ≡ true
        → cleanup_hops env p vni dest (nh ∷ nhs) n
          ≡ cleanup_hops env p vni dest nhs (drop_route env p vni dest nh n)
    unfolding cleanup_hops drop_route
    cleanup_hops-held dest nh nhs n h =
        let gone =
          find-remove_next_hop (n.peer p).received_routes vni vni dest dest nh nh (some p)
            (some p) in
        ground (arith, h, gone.0)

    -- After the loop: it went through, these routes are gone, and no others.
    record Cleaned (n : Node A P S) (r : Node A P S × Bool)
        (gone : Destination P → NextHop A → Bool) : Type 0 where
      goes_on : r.1 ≡ true
      left :
          (v : ℕ) (d : Destination P) (h : NextHop A)
          → holds r.0 v d h p ≡ (not (same vni v && gone d h) && holds n v d h p)
      backed : IsBacked n → IsBacked r.0

    cleanup_hops-Cleaned :
        (dest : Destination P) (nhs : List (NextHop A)) (n : Node A P S)
        → IsDistinct nhs
        → ((h : NextHop A) → contains nhs h ≡ true → holds n vni dest h p ≡ true)
        → Cleaned n (cleanup_hops env p vni dest nhs n) (λ d h. same dest d && contains nhs h)
    unfolding contains cleanup_hops
    cleanup_hops-Cleaned dest [] n d held = record {
      goes_on = refl;
      left = λ v e h. ground arith;
      backed = λ b. b;
    }
    cleanup_hops-Cleaned dest (nh ∷ nhs) n d held =
        let m = drop_route env p vni dest nh n in
        let rest = cleanup_hops-Cleaned dest nhs m d.1 (λ h k. ground (
          arith,
          k,
          apart nh h nhs d.0 k,
          held h (ground (arith, k)),
          holds-drop_route env p vni vni dest dest nh h p n,
        )) in
        let step = cleanup_hops-held dest nh nhs n (held nh (ground (arith, same_refl nh))) in
        record {
          goes_on = ground (arith, step, rest.goes_on);
          left = λ v e h.
              ground (arith, step, rest.left v e h, holds-drop_route env p vni v dest e nh h p n);
          backed = λ b. rw step (rest.backed ((drop_route-Frame env p vni dest nh n).backed b));
        }

    -- what is left to list, when the routes at the first destination are gone
    tail-IsListing :
        (dest : Destination P) (hops : List (NextHop A))
        (m : Map (Destination P) (List (NextHop A))) (n n' : Node A P S)
        → IsListing (n.peer p).received_routes vni (some p) ((dest, hops) ∷ m)
        → ((d : Destination P) (h : NextHop A)
            → same dest d ≡ false
            → holds n' vni d h p ≡ holds n vni d h p)
        → IsListing (n'.peer p).received_routes vni (some p) m
    tail-IsListing dest hops m n n' l kept =
        let other : (d : Destination P) (hs : List (NextHop A))
            → get m d ≡ some hs
            → same dest d ≡ false =
          λ d hs e. apart dest d (keys m) (l.dests.0) (ground (arith, contains-keys m d, e)) in
        let below : (d : Destination P) (hs : List (NextHop A))
            → get m d ≡ some hs
            → get ((dest, hops) ∷ m) d ≡ some hs =
          λ d hs e. unfold get in ground (arith, other d hs e, e) in
        record {
          dests = l.dests.1;
          hops = λ d {nhs} e. l.hops d (below d nhs e);
          held = λ d h {nhs} e k. kept d h (other d nhs e) ∙ l.held d h (below d nhs e) k;
        }

    cleanup_dests-Cleaned :
        (m : Map (Destination P) (List (NextHop A))) (n : Node A P S)
        → IsListing (n.peer p).received_routes vni (some p) m
        → Cleaned n (cleanup_dests env p vni m n) (lists m)
    unfolding cleanup_dests
    cleanup_dests-Cleaned [] n l = record {
      goes_on = refl;
      left = λ v e h. ground arith;
      backed = λ b. b;
    }
    cleanup_dests-Cleaned ((dest, nhs) ∷ m) n l =
        let head = get-head dest nhs m in
        let first =
          cleanup_hops-Cleaned dest nhs n (l.hops dest head) (λ h k. l.held dest h head k) in
        let n' = (cleanup_hops env p vni dest nhs n).0 in
        let rest =
          cleanup_dests-Cleaned m n'
            (tail-IsListing dest nhs m n n' l (λ d h k. ground (arith, first.left vni d h, k))) in
        record {
          goes_on = ground (arith, first.goes_on, rest.goes_on);
          left = λ v e h. ground (arith, first.goes_on, first.left v e h, rest.left v e h);
          backed = λ b. rw (first.goes_on) (rest.backed (first.backed b));
        }

  cleanup_vnis-IsBacked :
      (p : PeerId) (vnis : List ℕ) (n : Node A P S)
      → IsBacked n
      → IsBacked (cleanup_vnis env p vnis n).0
        × ((v : ℕ) (d : Destination P) (h : NextHop A)
            → holds (cleanup_vnis env p vnis n).0 v d h p
              ≡ (not (contains vnis v) && holds n v d h p))
  unfolding cleanup_vnis contains
  cleanup_vnis-IsBacked p [] n b = (b, λ v d h. ground arith)
  cleanup_vnis-IsBacked p (vni ∷ vnis) n b =
      let rt = (n.peer p).received_routes in
      let m = get_destinations_by_vni rt vni in
      let first =
        cleanup_dests-Cleaned p vni m n
          (get_destinations_by_vni-IsListing rt vni (some p) (b.own p)) in
      let rest = cleanup_vnis-IsBacked p vnis (cleanup_dests env p vni m n).0 (first.backed b) in
      (
        rw (first.goes_on) (rest.0),
        λ v d h. ground (
          arith,
          first.goes_on,
          first.left v d h,
          rest.1 v d h,
          lists-find rt v d h (some p),
          same_eq vni v,
        ),
      )

  pub cleanup-IsBacked : (p : PeerId) (n : Node A P S) → IsBacked n → IsBacked (cleanup env p n)
  unfolding cleanup
  cleanup-IsBacked p n b =
      let vnis = keys (n.peer p).subscribed_vnis in
      let n' = unsubscribe_vnis env vnis n in
      (cleanup_vnis-IsBacked p (get_vnis (n'.peer p).received_routes) n'
        (unsubscribe_vnis-IsBacked vnis n b)).0

  -- When the session of a peer ends, no route that the node has from this peer is left in its table,
  -- and none in the peer's own, if before each route of a peer was one that the peer's own table holds
  -- and each peer's own table was as a Go map can be, had nothing empty and only routes of that peer.
  pub routed-cleanup :
      (p : PeerId) (n : Node A P S) (v : ℕ) (d : Destination P) (h : NextHop A)
      → IsBacked n
      → (routed (cleanup env p n) v d h p ≡ false) × (holds (cleanup env p n) v d h p ≡ false)
  unfolding cleanup
  routed-cleanup p n v d h b =
      let left = unsubscribe_vnis env (keys (n.peer p).subscribed_vnis) n in
      let backed = unsubscribe_vnis-IsBacked (keys (n.peer p).subscribed_vnis) n b in
      let rt = (left.peer p).received_routes in
      let (still, gone) = cleanup_vnis-IsBacked p (get_vnis rt) left backed in
      let listed : holds left v d h p ≡ true → contains (get_vnis rt) v ≡ true =
        λ e. (get_vnis_iff rt v ((backed.own p).pruned)).1 (d, h, some p, e) in
      let empty : holds (cleanup_vnis env p (get_vnis rt) left).0 v d h p ≡ false =
        ground (arith, gone v d h, listed) in
      (ground (arith, still.backed v d h p, empty), empty)
