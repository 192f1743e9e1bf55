-- ===== src/CommandLine/Start.antt =====
-- cmd/metalbond/main.go: what `main` does to the node before it waits. A call of `log.Fatalf` or of
-- `panic` ends it. The address of each peer that is allocated is an argument.
use metalbond.Base.{
  ℕ, Bool, true, false, not, ◌||◌, none, some, List, [], ◌∷◌, Comparable, nat_comparable, same,
  if◌then◌else◌, is_some,
}
use metalbond.Base.Text.{Text}
use metalbond.Types.{destination_comparable, next_hop_comparable, established, state_comparable}
use metalbond.Bond.{PeerId, peer_ref_comparable, Node, Env}
use metalbond.Bond.Subscriptions.{bond_subscribe, peer_state}
use metalbond.Bond.Announce.{announce_route}
use metalbond.Bond.Lifecycle.{add_peer, start_server}
use metalbond.CommandLine.{
  NetipText, Outcome, goes_on, stops, ◌>>=◌, subscription_failed, announcement_failed, peer_failed,
  cannot_serve, capacity, parse_announcement,
}

-- `txChanCapacity`, `rxChanEventCapacity` and `rxChanDataUpdateCapacity`, of the flags; the flag for
-- the last one is read where the one before is set
unfoldable pub server_capacities : ℕ → ℕ → ℕ → ℕ × ℕ × ℕ
server_capacities tx event data_update =
    (capacity tx tx 2048, capacity event event 10, capacity event data_update 100)

unfoldable pub client_capacities : ℕ → ℕ → ℕ → ℕ × ℕ × ℕ
client_capacities tx event data_update =
    (capacity tx tx 100, capacity event event 10, capacity event data_update 50)

module _ {A P S : Type 0} where
  -- the server, on a new node; the flag says whether it can listen
  unfoldable pub serve : Bool → Node A P S → Outcome (Node A P S)
  serve listens n =
      let (n', e) = start_server listens n in
      elim e [ none ↦ goes_on n' | some _ ↦ stops cannot_serve ]

  -- a round of the loop that waits for the peers
  unfoldable pub all_connected : List ℕ → Node A P S → Bool
  all_connected [] n = true
  all_connected (server ∷ servers) n =
      let rest = all_connected servers n in
      let (state, e) = peer_state server n in
      if is_some e || not (same state established) then false else rest

  unfoldable pub add_peers : List (PeerId × ℕ) → Node A P S → Outcome (Node A P S)
  add_peers [] n = goes_on n
  add_peers ((p, server) ∷ servers) n =
      let (n', e) = add_peer p server n in
      let rest = add_peers servers n' in elim e [ none ↦ rest | some _ ↦ stops peer_failed ]

module _ {A P S : Type 0} (env : Env A P S) where
  unfoldable pub subscribe_all : List ℕ → Node A P S → Outcome (Node A P S)
  subscribe_all [] n = goes_on n
  subscribe_all (vni ∷ vnis) n =
      let (n', e) = bond_subscribe env vni n in
      let rest = subscribe_all vnis n' in
      elim e [ none ↦ rest | some _ ↦ stops subscription_failed ]

module _ {A P S : Type 0} ⦃ca : Comparable A⦄ ⦃cp : Comparable P⦄ (env : Env A P S)
    (txt : NetipText env.net) where
  unfoldable pub announce_all : List Text → Node A P S → Outcome (Node A P S)
  announce_all [] n = goes_on n
  announce_all (announcement ∷ announcements) n =
      elim (parse_announcement env.net txt announcement) [
        | stops x ↦ stops x
        | goes_on (vni, dest, hop) ↦
            let (n', e) = announce_route env vni dest hop n in
            let rest = announce_all announcements n' in
            elim e [ none ↦ rest | some _ ↦ stops announcement_failed ]
      ]

  -- the client, on a new node
  unfoldable pub run_client :
      List ℕ → List Text → List (PeerId × ℕ) → Node A P S → Outcome (Node A P S)
  run_client subscriptions announcements servers n = subscribe_all env subscriptions n >>= λ n1.
      announce_all announcements n1 >>= λ n2. add_peers servers n2
