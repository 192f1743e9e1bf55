-- ===== src/CommandLine/Started.antt =====
-- cmd/metalbond/main.go: the client, up to its wait for the peers.
use metalbond.Base.{
  ℕ, ◌≡◌, true, false, ◌||◌, none, List, [], ◌∷◌, ◌∙◌, map, refl, arith, ap, Comparable, contains,
  IsDistinct, nat_comparable, same, same_eq, is_some, Option-cases, Bool-cases, inl, inr,
}
use metalbond.Base.Map.{get, put, get-put}
use metalbond.Types.{destination_comparable, next_hop_comparable, outgoing}
use metalbond.Bond.{PeerId, peer_ref_comparable, start, set_peer, Node, Env}
use metalbond.Bond.Subscriptions.{bond_subscribe, is_subscribed, set_subscriptions, subscribe_peers}
use metalbond.Bond.Lifecycle.{add_peer, register_peer}
use metalbond.CommandLine.{goes_on}
use metalbond.CommandLine.Start.{subscribe_all, add_peers}

-- another element is not this one
apart :
    {A : Type 0} ⦃c : Comparable A⦄ (x y : A) (xs : List A)
    → contains xs x ≡ false
    → contains xs y ≡ true
    → same x y ≡ false
apart x y xs h e = elim (Bool-cases (same x y)) [
  | inl k ↦ absurd (ground (arith, ap (contains xs) (same_eq x y k), h, e))
  | inr k ↦ k
]

module _ {A P S : Type 0} (env : Env A P S) where
  bond_subscribe-new :
      (vni : ℕ) (n : Node A P S)
      → n.bond.peers ≡ []
      → is_subscribed vni n ≡ false
      → bond_subscribe env vni n
        ≡ (set_subscriptions (put n.bond.my_subscriptions vni true) n, none)
  unfolding bond_subscribe set_subscriptions subscribe_peers is_subscribed
  bond_subscribe-new vni n e s = elim (Option-cases (get n.bond.my_subscriptions vni)) [
    | inl k ↦ rw (k, bond_subscribe) (rw (e, subscribe_peers) refl)
    | inr (x, k) ↦ absurd (ground (arith, s, k))
  ]

  pub record Subscribed (vnis : List ℕ) (n : Node A P S) : Type 0 where
    pub node : Node A P S
    pub runs : subscribe_all env vnis n ≡ goes_on node
    pub peers : node.bond.peers ≡ []
    pub announcements : node.bond.my_announcements ≡ n.bond.my_announcements
    pub client : node.client ≡ n.client
    pub subscribed : (v : ℕ) → is_subscribed v node ≡ (contains vnis v || is_subscribed v n)

  subscribe_all-step :
      (vni : ℕ) (vnis : List ℕ) (n m : Node A P S)
      → bond_subscribe env vni n ≡ (m, none)
      → subscribe_all env (vni ∷ vnis) n ≡ subscribe_all env vnis m
  unfolding subscribe_all
  subscribe_all-step vni vnis n m e =
      rw (ap (λ r. r.1) e, subscribe_all) (rw (ap (λ r. r.0) e) refl)

  pub subscribe_all-new :
      (vnis : List ℕ) (n : Node A P S)
      → n.bond.peers ≡ []
      → IsDistinct vnis
      → ((v : ℕ) → contains vnis v ≡ true → is_subscribed v n ≡ false)
      → Subscribed vnis n
  unfolding subscribe_all contains set_subscriptions
  subscribe_all-new [] n e d free = record {
    node = n;
    runs = refl;
    peers = e;
    announcements = refl;
    client = refl;
    subscribed = λ v. ground arith;
  }
  subscribe_all-new (vni ∷ vnis) n e d free =
      let m = set_subscriptions (put n.bond.my_subscriptions vni true) n in
      let step : bond_subscribe env vni n ≡ (m, none) =
        bond_subscribe-new vni n e (free vni (ground (arith))) in
      let now : (v : ℕ) → is_subscribed v m ≡ (same vni v || is_subscribed v n) = λ v.
        unfold is_subscribed set_subscriptions in
        ground (arith, get-put n.bond.my_subscriptions vni v true) in
      let rest =
        subscribe_all-new vnis m e d.1
          (λ v k. ground (arith, now v, apart vni v vnis d.0 k, free v, k)) in
      record {
        node = rest.node;
        runs = subscribe_all-step vni vnis n m step ∙ rest.runs;
        peers = rest.peers;
        announcements = rest.announcements;
        client = rest.client;
        subscribed = λ v. ground (arith, rest.subscribed v, now v);
      }

module _ {A P S : Type 0} where
  pub record Registered (servers : List (PeerId × ℕ)) (n : Node A P S) : Type 0 where
    pub node : Node A P S
    pub runs : add_peers servers n ≡ goes_on node
    pub announcements : node.bond.my_announcements ≡ n.bond.my_announcements
    pub subscriptions : node.bond.my_subscriptions ≡ n.bond.my_subscriptions
    pub client : node.client ≡ n.client
    pub registered :
        (addr : ℕ)
        → is_some (get node.bond.peers addr)
          ≡ (contains (map (λ s. s.1) servers) addr || is_some (get n.bond.peers addr))

  add_peers-step :
      (p : PeerId) (addr : ℕ) (servers : List (PeerId × ℕ)) (n m : Node A P S)
      → add_peer p addr n ≡ (m, none)
      → add_peers ((p, addr) ∷ servers) n ≡ add_peers servers m
  unfolding add_peers
  add_peers-step p addr servers n m e = rw (ap (λ r. r.1) e, add_peers) (rw (ap (λ r. r.0) e) refl)

  add_peer-new :
      (p : PeerId) (addr : ℕ) (n : Node A P S)
      → is_some (get n.bond.peers addr) ≡ false
      → add_peer p addr n ≡ (register_peer p addr outgoing n, none)
  unfolding add_peer
  add_peer-new p addr n h = elim (Option-cases (get n.bond.peers addr)) [
    | inl k ↦ rw (k, add_peer) refl
    | inr (x, k) ↦ absurd (ground (arith, h, k))
  ]

  pub add_peers-new :
      (servers : List (PeerId × ℕ)) (n : Node A P S)
      → IsDistinct (map (λ s. s.1) servers)
      → ((addr : ℕ)
          → contains (map (λ (s : PeerId × ℕ). s.1) servers) addr ≡ true
          → is_some (get n.bond.peers addr) ≡ false)
      → Registered servers n
  unfolding add_peers contains register_peer start set_peer
  add_peers-new [] n d free = record {
    node = n;
    runs = refl;
    announcements = refl;
    subscriptions = refl;
    client = refl;
    registered = λ addr. ground arith;
  }
  add_peers-new ((p, server) ∷ servers) n d free =
      let m = register_peer p server outgoing n in
      let step = add_peer-new p server n (free server (ground arith)) in
      let now : (addr : ℕ)
          → is_some (get m.bond.peers addr)
            ≡ (same server addr || is_some (get n.bond.peers addr)) =
        λ addr. ground (arith, get-put n.bond.peers server addr p) in
      let rest = add_peers-new servers m d.1 (λ addr k.
        ground (arith, now addr, apart server addr (map (λ s. s.1) servers) d.0 k, free addr, k)) in
      record {
        node = rest.node;
        runs = add_peers-step p server servers n m step ∙ rest.runs;
        announcements = rest.announcements;
        subscriptions = rest.subscriptions;
        client = rest.client;
        registered = λ addr. ground (arith, rest.registered addr, now addr);
      }
