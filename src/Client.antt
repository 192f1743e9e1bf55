-- ===== src/Client.antt =====
-- client.go: the interface `Client`, by which metalbond hands routes on, and its `DummyClient`. A
-- client keeps a state of its own type `S`; a call returns the new state, and whether it failed.
use metalbond.Base.{ℕ, Bool, false}
use metalbond.Types.{Destination, NextHop}

pub record Client (A P S : Type 0) : Type 0 where
  pub add_route : ℕ → Destination P → NextHop A → S → S × Bool
  pub remove_route : ℕ → Destination P → NextHop A → S → S × Bool

-- `NewDummyClient` and its two methods
abbrev pub dummy_client : {A P : Type 0} → Client A P (Unit {0})
dummy_client = record {
  add_route = λ vni dest hop s. (s, false);
  remove_route = λ vni dest hop s. (s, false);
}
