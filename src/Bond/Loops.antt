-- ===== src/Bond/Loops.antt =====
-- peer.go: the rounds of the goroutines of a peer that are not in Lifecycle: `handle` while it dials,
-- and how `txLoop` and `keepaliveLoop` end.
use metalbond.Bond.Session.{keepalive_loop_crashes}
use metalbond.Bond.Backed.{start-IsBacked}
use metalbond.Wire.Packet.{rx_round, ReadResult, RxEnd}
use metalbond.Bond.Kept.{handle_shutdown-IsBacked, connected-IsBacked}
use metalbond.Bond.Calls.{set_peer-Frame}
use metalbond.Bond.Frame.{IsBacked}
use metalbond.Base.{
  Option, some, none, List, [], ◌∷◌, refl, arith, ◌≡◌, ◌≤◌, ◌<◌, ℕ, ◌-◌, ◌*◌, ◌/◌, ◌%◌, ◌^◌, Bool,
  true, false, not, ◌&&◌, ltb, Comparable, if◌then◌else◌, nat_comparable,
}
use metalbond.Types.{Message, destination_comparable, next_hop_comparable}
use metalbond.Bond.{start, reset_loop, PeerId, peer_ref_comparable, Node, Env, set_peer}
use metalbond.Bond.Lifecycle.{
  tx_round, send_keepalive, keepalive_timeout, connected, handle_shutdown,
}

-- What happens in a round: whether a local address is given, whether the two addresses can be
-- resolved, and whether the connection can be made.
pub record Dial : Type 0 where
  pub local_given : Bool
  pub local_resolved : Bool
  pub remote_resolved : Bool
  pub dialled : Bool

-- `handle` has gone on to its loop, has ended, or goes round again
pub data Dialled : Type 0 where
  in_session gone again : Dialled

-- what the `select` of `keepaliveLoop` receives
pub data Beat : Type 0 where
  tick times_out stop_signal : Beat

module _ {A P S : Type 0} where
  -- a stop signal that waits in `shutdown`
  abbrev pub is_told_to_stop : PeerId → Node A P S → Bool
  is_told_to_stop p n = ltb 0 (n.peer p).shutdown

  -- `txLoop` and `keepaliveLoop` at their stop signals: the one closes the connection, both end
  unfoldable pub end_tx_loop : PeerId → Node A P S → Node A P S
  end_tx_loop p n =
      set_peer p (record (n.peer p) { tx_chan_close = (n.peer p).tx_chan_close - 1 }) n

  unfoldable pub end_keepalive_loop : PeerId → Node A P S → Node A P S
  end_keepalive_loop p n =
      set_peer p (record (n.peer p) { keepalive_stop = (n.peer p).keepalive_stop - 1 }) n

  -- a round of `txLoop`: a packet, with the flag whether it is written whole, or the stop signal; the
  -- loop ends where the flag of the result is true
  unfoldable pub tx_loop_round : PeerId → Option Bool → Node A P S → Node A P S × Bool
  tx_loop_round p (some whole) n = (tx_round p whole n, false)
  tx_loop_round p none n = (end_tx_loop p n, true)

  -- what `rxLoop` starts where it ends
  unfoldable pub after_read : PeerId → RxEnd → Node A P S → Node A P S
  after_read p RxEnd.reset n = start (reset_loop p) n
  after_read p RxEnd.read_on n = n
  after_read p RxEnd.stopped n = n
  after_read p RxEnd.crashed n = n
  after_read p RxEnd.out_of_fuel n = n

module _ {A P S : Type 0} (env : Env A P S) where
  -- the rounds of `keepaliveLoop` after its first KEEPALIVE, up to its stop signal
  unfoldable pub keepalive_rounds : PeerId → List Beat → Node A P S → Node A P S × Bool
  keepalive_rounds p [] n = (n, false)
  keepalive_rounds p (tick ∷ beats) n = keepalive_rounds p beats (send_keepalive env p n)
  keepalive_rounds p (times_out ∷ beats) n = keepalive_rounds p beats (keepalive_timeout p n)
  keepalive_rounds p (stop_signal ∷ beats) n = (end_keepalive_loop p n, true)

  -- the loop from its start, or `none` where `time.NewTicker` panics
  unfoldable pub run_keepalive_loop : PeerId → List Beat → Node A P S → Option (Node A P S × Bool)
  run_keepalive_loop p beats n =
      if keepalive_loop_crashes p n
      then none
      else some (keepalive_rounds p beats (send_keepalive env p n))

  -- a round of `rxLoop` at the node, with the messages that it puts into the channels of `handle`
  unfoldable pub rx_loop_round :
      PeerId → List ℕ → ReadResult → Node A P S → Node A P S × List (Message A P) × RxEnd
  rx_loop_round p buf r n =
      let (ms, e) = rx_round env.net env.proto (n.peer p).state buf r in (after_read p e n, ms, e)

module _ {A P S : Type 0} ⦃ca : Comparable A⦄ ⦃cp : Comparable P⦄ (env : Env A P S) where
  -- a round of the loop of `handle` that waits for a connection
  unfoldable pub dial_round : PeerId → Dial → Node A P S → Node A P S × Dialled
  dial_round p d n =
      if is_told_to_stop p n
      then (handle_shutdown env p n, gone)
      else if d.local_given && not d.local_resolved
      then (n, gone)
      else if not d.remote_resolved
      then (n, gone)
      else if not d.dialled
      then (n, again)
      else (connected env p n, in_session)

-- A `time.Duration` has 64 bits and a sign; the flag says that it is negative.
abbrev pub Duration : Type 0
Duration = Bool × ℕ

unfoldable pub duration_of : ℕ → Duration
duration_of x = let w = x % 2 ^ 64 in if ltb w (2 ^ 63) then (false, w) else (true, 2 ^ 64 - w)

-- the division of Go, towards zero
unfoldable pub half_of : Duration → Duration
half_of (is_negative, x) = (is_negative, x / 2)

-- the timeout of `keepaliveLoop` and `resetKeepaliveTimeout`, from the interval in seconds
unfoldable pub keepalive_timeout_of : ℕ → Duration
unfolding duration_of half_of
keepalive_timeout_of interval = half_of (duration_of (interval * 1000000000 * 5))

-- `resetKeepaliveTimeout`: the new timeout, if there is a timer
unfoldable pub reset_keepalive_timeout : Bool → ℕ → Option Duration
reset_keepalive_timeout has_timer interval =
    if has_timer then some (keepalive_timeout_of interval) else none

module _ {A P S : Type 0} ⦃ca : Comparable A⦄ ⦃cp : Comparable P⦄ (env : Env A P S) where
  pub end_tx_loop-IsBacked : (p : PeerId) (n : Node A P S) → IsBacked n → IsBacked (end_tx_loop p n)
  unfolding end_tx_loop
  end_tx_loop-IsBacked p n b = (set_peer-Frame {view = λ x. n.peer p} p _ n refl refl).backed b

  pub after_read-IsBacked :
      (p : PeerId) (e : RxEnd) (n : Node A P S) → IsBacked n → IsBacked (after_read p e n)
  unfolding after_read
  after_read-IsBacked p RxEnd.reset n b = start-IsBacked env (reset_loop p) n b
  after_read-IsBacked p RxEnd.read_on n b = b
  after_read-IsBacked p RxEnd.stopped n b = b
  after_read-IsBacked p RxEnd.crashed n b = b
  after_read-IsBacked p RxEnd.out_of_fuel n b = b

  pub end_keepalive_loop-IsBacked :
      (p : PeerId) (n : Node A P S) → IsBacked n → IsBacked (end_keepalive_loop p n)
  unfolding end_keepalive_loop
  end_keepalive_loop-IsBacked p n b =
      (set_peer-Frame {view = λ x. n.peer p} p _ n refl refl).backed b

  ends_here :
      (b : Bool) (x y : Node A P S × Dialled)
      → IsBacked x.0
      → IsBacked y.0
      → IsBacked (if b then x else y).0
  ends_here true x y s t = s
  ends_here false x y s t = t

  pub dial_round-IsBacked :
      (p : PeerId) (d : Dial) (n : Node A P S) → IsBacked n → IsBacked (dial_round env p d n).0
  unfolding dial_round
  dial_round-IsBacked p d n b =
      ends_here (is_told_to_stop p n) _ _ (handle_shutdown-IsBacked env p n b) (
        ends_here (d.local_given && not d.local_resolved) _ _ b (
          ends_here (not d.remote_resolved) _ _ b
            (ends_here (not d.dialled) _ _ b (connected-IsBacked env p n b))))

-- The keepalive timeout is two and a half intervals, up to an interval of 1844674407 seconds; for the
-- next as many the product overflows and the timeout is negative.
pub keepalive_timeout_of_lem :
    (interval : ℕ)
    → (interval ≤ 1844674407 → keepalive_timeout_of interval ≡ (false, interval * 2500000000))
      × (1844674407 < interval → interval ≤ 3689348814 → (keepalive_timeout_of interval).0 ≡ true)
unfolding keepalive_timeout_of
keepalive_timeout_of_lem interval = (λ h. ground arith, λ h k. ground arith)
