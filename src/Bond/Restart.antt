-- ===== src/Bond/Restart.antt =====
-- peer.go: what is left of a session when `Reset` of an outgoing peer has come to its end.
use metalbond.Base.{ℕ, ◌≡◌, false, Comparable, nat_comparable}
use metalbond.Base.Map.{Map}
use metalbond.Types.{
  Destination, NextHop, ConnectionState, established, state_comparable, destination_comparable,
  next_hop_comparable, unsubscribe,
}
use metalbond.Bond.{PeerId, Node, Env, peer_ref_comparable, start, handle_loop}
use metalbond.Bond.State.{reset, reconnect}
use metalbond.Bond.Lifecycle.{handle_shutdown, make_channels}
use metalbond.Bond.Loops.{end_tx_loop, end_keepalive_loop}
use metalbond.Bond.Frame.{holds}

module _ {A P S : Type 0} ⦃ca : Comparable A⦄ ⦃cp : Comparable P⦄ (env : Env A P S) where
  -- a route that a peer's own table does not hold is not in it after `setState` either
  Lacks : ℕ → Destination P → NextHop A → PeerId → Node A P S → Type 0
  Lacks v d h q n = holds n v d h q ≡ false

  -- `Reset`, the end of the goroutines that it waits for, and the rest of `Reset` with the start of
  -- `handle` that follows
  abbrev pub stopped_session : PeerId → Node A P S → Node A P S
  stopped_session p n = handle_shutdown env p (end_keepalive_loop p (end_tx_loop p (reset env p n)))

  abbrev pub restarted : PeerId → Node A P S → Node A P S
  restarted p n = make_channels p (start (handle_loop p) (reconnect env p (stopped_session p n)))
