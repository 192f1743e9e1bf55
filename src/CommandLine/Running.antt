-- ===== src/CommandLine/Running.antt =====
-- cmd/metalbond/main.go: the node of the client when it waits for its peers.
use metalbond.Base.{
  ℕ, ◌≡◌, Bool, true, false, not, ◌&&◌, ◌||◌, none, some, List, [], ◌∷◌, ◌∙◌, map, refl, arith, ap,
  Comparable, contains, IsDistinct, nat_comparable, same, same_eq, if◌then◌else◌, is_some,
  Option-cases, Bool-cases, inl, inr,
}
use metalbond.Base.Text.{Text}
use metalbond.Base.Map.{Map, get, keys}
use metalbond.Types.{Destination, NextHop, destination_comparable, next_hop_comparable}
use metalbond.RouteTable.{find, add_next_hop, new_route_table}
use metalbond.RouteTable.Effects.{find-add_next_hop, same_route}
use metalbond.Bond.{PeerId, PeerRef, peer_ref_comparable, Node, Env, MetalBond, Routes}
use metalbond.Bond.Subscriptions.{is_subscribed}
use metalbond.Bond.Announce.{announce_route, set_announcements}
use metalbond.Bond.Announced.{announced}
use metalbond.Bond.Lifecycle.{new_metal_bond}
use metalbond.Bond.Distribute.{distribute_route_to_peers, send_to_peers}
use metalbond.CommandLine.{NetipText, goes_on, parse_announcement}
use metalbond.CommandLine.Start.{subscribe_all, announce_all, add_peers, run_client}
use metalbond.CommandLine.Started.{subscribe_all-new, add_peers-new}

abbrev pub Route : Type 0 → Type 0 → Type 0
Route A P = ℕ × Destination P × NextHop A

module _ {A P : Type 0} ⦃ca : Comparable A⦄ ⦃cp : Comparable P⦄ where
  -- the route is one of these
  abbrev pub lists_route : List (Route A P) → ℕ → Destination P → NextHop A → Bool
  lists_route [] v d h = false
  lists_route ((vni, dest, hop) ∷ rs) v d h =
      let rest = lists_route rs v d h in
      same_route {R = PeerRef} vni dest hop none v d h none || rest

  -- no route stands twice
  abbrev pub AllApart : List (Route A P) → Type 0
  AllApart [] = Unit
  AllApart ((vni, dest, hop) ∷ rs) = (lists_route rs vni dest hop ≡ false) × AllApart rs

  route_apart :
      (rs : List (Route A P)) (vni v : ℕ) (dest d : Destination P) (hop h : NextHop A)
      → lists_route rs vni dest hop ≡ false
      → lists_route rs v d h ≡ true
      → same_route {R = PeerRef} vni dest hop none v d h none ≡ false
  route_apart rs vni v dest d hop h e k =
      ground (arith, e, k, same_eq vni v, same_eq dest d, same_eq hop h)

module _ {A P S : Type 0} ⦃ca : Comparable A⦄ ⦃cp : Comparable P⦄ (env : Env A P S)
    (txt : NetipText env.net) where
  -- the texts are read as these routes
  pub data Reads : List Text → List (Route A P) → Type 0 where
    all_read : Reads [] []
    one_read :
        {s : Text} {ss : List Text} {vni : ℕ} {d : Destination P} {h : NextHop A}
        {rs : List (Route A P)}
        → parse_announcement env.net txt s ≡ goes_on (vni, d, h)
        → Reads ss rs
        → Reads (s ∷ ss) ((vni, d, h) ∷ rs)

  announce_route-new :
      (vni : ℕ) (d : Destination P) (h : NextHop A) (n : Node A P S)
      → n.bond.peers ≡ []
      → announced n vni d h ≡ false
      → announce_route env vni d h n
        ≡ (set_announcements (add_next_hop n.bond.my_announcements vni d h none).0 n, none)
  unfolding announce_route set_announcements distribute_route_to_peers send_to_peers
  announce_route-new vni d h n e k =
      let added = (find-add_next_hop n.bond.my_announcements vni vni d d h h none none).0 in
      ground (arith, e, k, added)

  record Told (rs : List (Route A P)) (ss : List Text) (n : Node A P S) : Type 0 where
    node : Node A P S
    runs : announce_all env txt ss n ≡ goes_on node
    peers : node.bond.peers ≡ []
    subscriptions : node.bond.my_subscriptions ≡ n.bond.my_subscriptions
    client : node.client ≡ n.client
    told :
        (v : ℕ) (d : Destination P) (h : NextHop A)
        → announced node v d h ≡ (lists_route rs v d h || announced n v d h)

  announce_all-step :
      (s : Text) (ss : List Text) (vni : ℕ) (d : Destination P) (h : NextHop A) (n m : Node A P S)
      → parse_announcement env.net txt s ≡ goes_on (vni, d, h)
      → announce_route env vni d h n ≡ (m, none)
      → announce_all env txt (s ∷ ss) n ≡ announce_all env txt ss m
  unfolding announce_all
  announce_all-step s ss vni d h n m r e =
      rw (r, announce_all) (rw (ap (λ r. r.1) e) (rw (ap (λ r. r.0) e) refl))

  announce_all-new :
      (ss : List Text) (rs : List (Route A P)) (n : Node A P S)
      → Reads ss rs
      → n.bond.peers ≡ []
      → AllApart rs
      → ((v : ℕ) (d : Destination P) (h : NextHop A)
          → lists_route rs v d h ≡ true
          → announced n v d h ≡ false)
      → Told rs ss n
  unfolding announce_all set_announcements
  announce_all-new _ _ n all_read e a free = record {
    node = n;
    runs = refl;
    peers = e;
    subscriptions = refl;
    client = refl;
    told = λ v d h. ground arith;
  }
  announce_all-new _ _ n (one_read {s} {ss} {vni} {d} {h} {rs} r more) e a free =
      let m = set_announcements (add_next_hop n.bond.my_announcements vni d h none).0 n in
      let step = announce_route-new vni d h n e (free vni d h (ground arith)) in
      let now : (v : ℕ) (d' : Destination P) (h' : NextHop A)
          → announced m v d' h'
            ≡ (same_route {R = PeerRef} vni d h none v d' h' none || announced n v d' h') =
        λ v d' h'. (find-add_next_hop n.bond.my_announcements vni v d d' h h' none none).1 in
      let rest = announce_all-new ss rs m more e a.1 (λ v d' h' k.
        ground (arith, now v d' h', route_apart rs vni v d d' h h' a.0 k, free v d' h', k)) in
      record {
        node = rest.node;
        runs = announce_all-step s ss vni d h n m r step ∙ rest.runs;
        peers = rest.peers;
        subscriptions = rest.subscriptions;
        client = rest.client;
        told = λ v d' h'. ground (arith, rest.told v d' h', now v d' h');
      }

  -- on a new node nothing is announced, and it has no subscription and no peer
  new-announced :
      (interval : ℕ) (n : Node A P S)
      → n.bond ≡ new_metal_bond interval
      → (v : ℕ) (d : Destination P) (h : NextHop A) → announced n v d h ≡ false
  unfolding new_metal_bond new_route_table find metalbond.Base.Map.get metalbond.Base.Map.Nested.at
  new-announced interval n i v d h =
      ap (λ (b : MetalBond A P). is_some (find b.my_announcements v d h none)) i

  new-is_subscribed :
      (interval : ℕ) (n : Node A P S)
      → n.bond ≡ new_metal_bond interval
      → (v : ℕ) → is_subscribed v n ≡ false
  unfolding new_metal_bond is_subscribed metalbond.Base.Map.get
  new-is_subscribed interval n i v =
      ap (λ (b : MetalBond A P). is_some (get b.my_subscriptions v)) i

  new-peers : (interval : ℕ) (n : Node A P S) → n.bond ≡ new_metal_bond interval → n.bond.peers ≡ []
  unfolding new_metal_bond
  new-peers interval n i = ap (λ (b : MetalBond A P). b.peers) i

  run_client-steps :
      (subs : List ℕ) (ss : List Text) (servers : List (PeerId × ℕ)) (n n1 n2 n3 : Node A P S)
      → subscribe_all env subs n ≡ goes_on n1
      → announce_all env txt ss n1 ≡ goes_on n2
      → add_peers servers n2 ≡ goes_on n3
      → run_client env txt subs ss servers n ≡ goes_on n3
  unfolding run_client
  run_client-steps subs ss servers n n1 n2 n3 e1 e2 e3 = rw e1 (rw e2 e3)

  same-is_subscribed :
      (n m : Node A P S) (v : ℕ)
      → m.bond.my_subscriptions ≡ n.bond.my_subscriptions
      → is_subscribed v m ≡ is_subscribed v n
  unfolding is_subscribed
  same-is_subscribed n m v e = ap (λ (s : Map ℕ Bool). is_some (get s v)) e

  -- If no VNI, no route and no server is named twice, and each announcement is read as a route, the
  -- client comes to its wait for the peers; then the node is subscribed to exactly the VNIs, announces
  -- exactly the routes, and has exactly the servers as peers.
  pub run_client_lem :
      (interval : ℕ) (subs : List ℕ) (ss : List Text) (rs : List (Route A P))
      (servers : List (PeerId × ℕ)) (n : Node A P S)
      → n.bond ≡ new_metal_bond interval
      → IsDistinct subs
      → Reads ss rs
      → AllApart rs
      → IsDistinct (map (λ s. s.1) servers)
      → (m : Node A P S) × (run_client env txt subs ss servers n ≡ goes_on m)
        × (m.client ≡ n.client)
        × ((v : ℕ) → is_subscribed v m ≡ contains subs v)
        × ((v : ℕ) (d : Destination P) (h : NextHop A) → announced m v d h ≡ lists_route rs v d h)
        × ((addr : ℕ) → is_some (get m.bond.peers addr) ≡ contains (map (λ s. s.1) servers) addr)
  run_client_lem interval subs ss rs servers n i d r a l =
      let first =
        subscribe_all-new env subs n (new-peers interval n i) d
          (λ v k. new-is_subscribed interval n i v) in
      let told_before : (v : ℕ) (d : Destination P) (h : NextHop A)
          → announced first.node v d h ≡ false =
        λ v d h.
          ap (λ (rt : Routes A P). is_some (find rt v d h none)) first.announcements
          ∙ new-announced interval n i v d h in
      let second =
        announce_all-new ss rs first.node r first.peers a (λ v d h k. told_before v d h) in
      let no_peer : (addr : ℕ) → is_some (get second.node.bond.peers addr) ≡ false =
        λ addr. rw (second.peers) (unfold get in refl) in
      let third = add_peers-new servers second.node l (λ addr k. no_peer addr) in
      (
        third.node,
        run_client-steps subs ss servers n first.node second.node third.node first.runs second.runs
            third.runs,
        third.client ∙ second.client ∙ first.client,
        λ v. ground (
          arith,
          same-is_subscribed second.node third.node v third.subscriptions,
          same-is_subscribed first.node second.node v second.subscriptions,
          first.subscribed v,
          new-is_subscribed interval n i v,
        ),
        λ v d h. ground (
          arith,
          ap (λ (rt : Routes A P). is_some (find rt v d h none)) third.announcements,
          second.told v d h,
          told_before v d h,
        ),
        λ addr. ground (arith, third.registered addr, no_peer addr),
      )
