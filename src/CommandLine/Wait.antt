-- ===== src/CommandLine/Wait.antt =====
-- cmd/metalbond/main.go: the wait of the client for its peers. The node changes between the rounds, so
-- a round has the node and the time at which it looks, in nanoseconds.
use metalbond.Base.{
  ◌*◌, ℕ, ◌+◌, ◌≤◌, ◌<◌, ◌≡◌, ◌≢◌, ◌⊎◌, inl, inr, refl, arith, true, false, ltb, some, List, [],
  ◌∷◌, length, contains, same, Option-cases, Bool-cases, if◌then◌else◌, nat_comparable, same_eq,
}
use metalbond.Base.Map.{get}
use metalbond.Types.{established, state_comparable}
use metalbond.Bond.{PeerId, Node}
use metalbond.Bond.Subscriptions.{peer_state}
use metalbond.CommandLine.Start.{all_connected}

abbrev pub second : ℕ
second = 1000000000

pub record Round (A P S : Type 0) : Type 0 where
  pub node : Node A P S
  pub now : ℕ

-- all peers are connected at this node, the deadline is over, or the loop goes on
pub data Waited (A P S : Type 0) : Type 0 where
  up : Node A P S → Waited A P S
  timed_out unfinished : Waited A P S

module _ {A P S : Type 0} where
  Waited-cases :
      (w : Waited A P S) → ((n : Node A P S) × (w ≡ up n)) ⊎ ((w ≡ timed_out) ⊎ (w ≡ unfinished))
  Waited-cases (up n) = inl (n, refl)
  Waited-cases timed_out = inr (inl refl)
  Waited-cases unfinished = inr (inr refl)

  unfoldable pub wait_rounds : List ℕ → ℕ → List (Round A P S) → Waited A P S
  wait_rounds servers deadline [] = unfinished
  wait_rounds servers deadline (r ∷ rounds) =
      let rest = wait_rounds servers deadline rounds in
      if all_connected servers r.node
      then up r.node
      else if ltb deadline r.now
      then timed_out
      else rest

  unfoldable pub wait_for_peers : List ℕ → ℕ → List (Round A P S) → Waited A P S
  wait_for_peers servers start rounds = wait_rounds servers (start + 10 * second) rounds

  -- the peer with this address is connected
  abbrev pub IsUp : Node A P S → ℕ → Type 0
  IsUp n addr = (p : PeerId) × (get n.bond.peers addr ≡ some p) × ((n.peer p).state ≡ established)

  all_connected-IsUp :
      (servers : List ℕ) (n : Node A P S)
      → all_connected servers n ≡ true
      → (addr : ℕ) → contains servers addr ≡ true
      → IsUp n addr
  unfolding all_connected contains peer_state
  all_connected-IsUp [] n h addr e = cc
  all_connected-IsUp (server ∷ servers) n h addr e = elim (Bool-cases (same server addr)) [
    | inl k ↦ elim (Option-cases (get n.bond.peers server)) [
      | inl x ↦ absurd (ground (arith, x, h))
      | inr (p, x) ↦ (
        p,
        ground (arith, same_eq server addr k, x),
        ground (arith, x, h, same_eq (n.peer p).state established),
      )
    ]
    | inr k ↦ all_connected-IsUp servers n (ground (arith, h)) addr (ground (arith, e, k))
  ]

  -- at some round the deadline was over and not all were connected
  abbrev pub IsLate : List ℕ → ℕ → List (Round A P S) → Type 0
  IsLate servers deadline [] = ⊥
  IsLate servers deadline (r ∷ rounds) =
      ((deadline < r.now) × (all_connected servers r.node ≡ false)) ⊎ IsLate servers deadline rounds

  -- a round comes a second or more after the one before it
  abbrev pub ArePaced : ℕ → List (Round A P S) → Type 0
  ArePaced earliest [] = Unit
  ArePaced earliest (r ∷ rounds) = (earliest ≤ r.now) × ArePaced (r.now + second) rounds

  wait_rounds_ends :
      (servers : List ℕ) (deadline earliest : ℕ) (rounds : List (Round A P S))
      → ArePaced earliest rounds
      → 0 < length rounds
      → deadline + second < earliest + length rounds * second
      → wait_rounds servers deadline rounds ≢ unfinished
  unfolding wait_rounds
  wait_rounds_ends servers deadline earliest [] h l k e = absurd (omega arith)
  wait_rounds_ends servers deadline earliest (r ∷ rounds) h l k e =
      ground (arith, wait_rounds_ends servers deadline (r.now + second) rounds h.1, e)

  wait_rounds-up :
      (servers : List ℕ) (deadline : ℕ) (rounds : List (Round A P S)) (n : Node A P S)
      → wait_rounds servers deadline rounds ≡ up n
      → all_connected servers n ≡ true
  unfolding wait_rounds
  wait_rounds-up servers deadline [] n e = cc
  wait_rounds-up servers deadline (r ∷ rounds) n e =
      elim (Bool-cases (all_connected servers r.node)) [
        | inl k ↦ ground (arith, e, k)
        | inr k ↦ wait_rounds-up servers deadline rounds n (ground (arith, e, k))
      ]

  wait_rounds-timed_out :
      (servers : List ℕ) (deadline : ℕ) (rounds : List (Round A P S))
      → wait_rounds servers deadline rounds ≡ timed_out
      → IsLate servers deadline rounds
  unfolding wait_rounds
  wait_rounds-timed_out servers deadline [] e = cc
  wait_rounds-timed_out servers deadline (r ∷ rounds) e =
      elim (Bool-cases (all_connected servers r.node)) [
        | inl k ↦ absurd (ground (arith, e, k))
        | inr k ↦ elim (Bool-cases (ltb deadline r.now)) [
          | inl l ↦ inl (ground arith, k)
          | inr l ↦ inr (wait_rounds-timed_out servers deadline rounds (ground (arith, e, k, l)))
        ]
      ]

  -- The wait for the peers goes on to the next step or panics within twelve rounds, if no time runs
  -- backwards and a round comes a second or more after the one before; it goes on only at a node where
  -- each server has a peer and its session is ESTABLISHED, and panics only at a round after its ten seconds at which
  -- this is not so.
  pub wait_for_peers_lem :
      (servers : List ℕ) (start : ℕ) (rounds : List (Round A P S))
      → ArePaced start rounds
      → 12 ≤ length rounds
      → ((wait_for_peers servers start rounds ≡ timed_out)
          × IsLate servers (start + 10 * second) rounds)
        ⊎ ((n : Node A P S) × (wait_for_peers servers start rounds ≡ up n)
            × ((addr : ℕ) → contains servers addr ≡ true → IsUp n addr))
  unfolding wait_for_peers
  wait_for_peers_lem servers start rounds h l =
      let ends : wait_rounds servers (start + 10 * second) rounds ≢ unfinished =
        wait_rounds_ends servers (start + 10 * second) start rounds h (omega arith) (omega arith) in
      elim (Waited-cases (wait_rounds servers (start + 10 * second) rounds)) [
        | inl (n, e) ↦ inr (
          n,
          e,
          all_connected-IsUp servers n (wait_rounds-up servers (start + 10 * second) rounds n e),
        )
        | inr (inl e) ↦ inl (e, wait_rounds-timed_out servers (start + 10 * second) rounds e)
        | inr (inr e) ↦ absurd (ends e)
      ]
