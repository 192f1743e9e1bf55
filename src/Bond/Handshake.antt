-- ===== src/Bond/Handshake.antt =====
-- peer.go: the states of a session, and what HELLO and KEEPALIVE do to it.
use metalbond.Base.{
  ℕ, ◌≡◌, Bool, false, Bool-cases, inl, inr, Comparable, same, arith, refl, nat_comparable,
  if◌then◌else◌, ◌&&◌, ◌||◌, not, ap, ltb, ◌∙◌, ◌∷◌, ◌==◌,
}
use metalbond.Types.{
  destination_comparable, next_hop_comparable, MsgHello, hello, keepalive, hello_sent,
  hello_received, established, state_comparable,
}
use metalbond.Bond.{PeerId, Node, Env, Peer, set_peer, start, keepalive_loop, reset_loop}
use metalbond.Bond.Send.{is_incoming, send_message}
use metalbond.Bond.State.{set_state, reset, reset_waits}
use metalbond.Bond.Session.{
  process_rx_hello, go_on_hello, process_rx_keepalive, answer_hello, take_hello, answer_keepalive,
  keepalive_loop_crashes,
}
use metalbond.Bond.Sends.{send_message-Sends}
use metalbond.Bond.Frame.{Frame, Frame-refl, Frame-trans, Sends-Frame}
use metalbond.Bond.Calls.{set_state-Frame, reset-Frame, identity, Frame-identity, state-set_state}

-- the lower one of two intervals
abbrev pub lower : ℕ → ℕ → ℕ
lower a b = if ltb a b then a else b

module _ {A P S : Type 0} ⦃ca : Comparable A⦄ ⦃cp : Comparable P⦄ (env : Env A P S) (p : PeerId)
    (n : Node A P S) where
  -- the KEEPALIVE ends the handshake, or comes after it
  abbrev pub accepts : Bool
  accepts =
      let x = n.peer p in
      ((is_incoming x.direction && same x.state hello_sent)
        || (not (is_incoming x.direction) && same x.state hello_received))
      || same x.state established

  answer-state : (m : Node A P S) → ((answer_keepalive env p m).peer p).state ≡ (m.peer p).state
  unfolding answer_keepalive
  answer-state m =
      ground (arith, ap (λ (x : Peer A P). x.state) ((send_message-Sends env p keepalive m).peer p))

  answer-spawned : (m : Node A P S) → (answer_keepalive env p m).spawned ≡ m.spawned
  unfolding answer_keepalive
  answer-spawned m = ground (arith, (send_message-Sends env p keepalive m).spawned)

  -- A KEEPALIVE makes the session ESTABLISHED if it ends the handshake: at an incoming connection
  -- after HELLO was sent, at an outgoing one after HELLO was received. If the session is
  -- ESTABLISHED it stays so, and in any other state the session is left as it is and a reset is
  -- started.
  pub process_rx_keepalive_lem :
      (((process_rx_keepalive env p n).peer p).state
        ≡ (if accepts then established else (n.peer p).state))
      × ((process_rx_keepalive env p n).spawned
          ≡ (if accepts then n.spawned else reset_loop p ∷ n.spawned))
  unfolding process_rx_keepalive start
  process_rx_keepalive_lem =
      let m = set_state env p established n in
      (
        ground (arith, answer-state m, answer-state n, state-set_state env p established n),
        ground (
          arith,
          answer-spawned m,
          answer-spawned n,
          (set_state-Frame env p established n).spawned,
        ),
      )

  module _ (msg : MsgHello) where
    -- the node before the fields of the HELLO are taken, and after
    abbrev pub checked_interval : Node A P S
    checked_interval = if ltb msg.keepalive_interval 1 then reset env p n else n

    abbrev pub greeted : Node A P S
    greeted = set_state env p hello_received (take_hello env p msg checked_interval)

    pub checked_interval-Frame : Frame identity n checked_interval
    checked_interval-Frame = elim (Bool-cases (ltb msg.keepalive_interval 1)) [
      | inl e ↦ rw e (reset-Frame env p n)
      | inr e ↦ rw e (Frame-refl n)
    ]

    taken :
        (x : Peer A P)
        → identity x ≡ identity (n.peer p)
        → lower msg.keepalive_interval x.keepalive_interval
          ≡ lower msg.keepalive_interval (n.peer p).keepalive_interval
    taken x e = ap (λ (y : Peer A P). lower msg.keepalive_interval y.keepalive_interval) e

    pub take_hello-peer :
        (m : Node A P S)
        → (((take_hello env p msg m).peer p).keepalive_interval
            ≡ lower msg.keepalive_interval (m.peer p).keepalive_interval)
          × (((take_hello env p msg m).peer p).direction ≡ (m.peer p).direction)
          × ((take_hello env p msg m).spawned ≡ m.spawned)
    unfolding take_hello set_peer
    take_hello-peer m = (ground arith, ground arith, refl)

    -- the response is sent
    abbrev responded : Node A P S → Node A P S
    responded m =
        (send_message env p
          (hello (record {
            keepalive_interval = (m.peer p).keepalive_interval;
            is_server = m.bond.is_server;
          }))
          m).0

    pub answer_hello-Frame : (m : Node A P S) → Frame identity m (answer_hello env p m)
    unfolding answer_hello
    answer_hello-Frame m = elim (Bool-cases (is_incoming (m.peer p).direction)) [
      | inl e ↦ rw e (
          Frame-trans (Frame-identity (Sends-Frame (send_message-Sends env p _ m)))
            (set_state-Frame env p hello_sent (responded m)))
      | inr e ↦ rw e (Frame-refl m)
    ]

    answer_hello-state :
        (m : Node A P S)
        → ((answer_hello env p m).peer p).state
          ≡ (if is_incoming (m.peer p).direction then hello_sent else (m.peer p).state)
    unfolding answer_hello
    answer_hello-state m = ground (arith, state-set_state env p hello_sent (responded m))

    -- the node once the loop is started
    abbrev pub looping : Node A P S
    looping = start (keepalive_loop p) greeted

    pub greeted-Frame : Frame identity (take_hello env p msg checked_interval) greeted
    greeted-Frame = set_state-Frame env p hello_received _

    -- the HELLO makes an outgoing session wait for its own reset
    abbrev pub stuck : Bool
    stuck = ltb msg.keepalive_interval 1 && reset_waits p n

    pub process_rx_hello-free :
        stuck ≡ false → process_rx_hello env p msg n ≡ go_on_hello env p msg checked_interval
    unfolding process_rx_hello
    process_rx_hello-free free = ground (arith, free)

    -- After a HELLO, unless it has an interval of 0 and the session is an outgoing one that is not
    -- CLOSED, and whatever state the session was in, an incoming session is in HELLO_SENT and an
    -- outgoing one in HELLO_RECEIVED; its interval is the lower of the two, and one loop was started.
    pub process_rx_hello_lem :
        stuck ≡ false
        → (((process_rx_hello env p msg n).peer p).state
            ≡ (if is_incoming (n.peer p).direction then hello_sent else hello_received))
          × (((process_rx_hello env p msg n).peer p).keepalive_interval
              ≡ lower msg.keepalive_interval (n.peer p).keepalive_interval)
          × ((process_rx_hello env p msg n).spawned ≡ keepalive_loop p ∷ n.spawned)
    unfolding go_on_hello start
    process_rx_hello_lem free =
        let first = checked_interval-Frame in
        let take = take_hello-peer checked_interval in
        let answer = answer_hello-Frame looping in
        let way : is_incoming (looping.peer p).direction ≡ is_incoming (n.peer p).direction =
          ap (λ (y : Peer A P). is_incoming y.direction) (greeted-Frame.peer p)
          ∙ (ap is_incoming take.1
              ∙ ap (λ (y : Peer A P). is_incoming y.direction) (first.peer p)) in
        rw (process_rx_hello-free free) (
          ground (
            arith,
            answer_hello-state looping,
            way,
            state-set_state env p hello_received (take_hello env p msg checked_interval),
          ),
          ap (λ (y : Peer A P). y.keepalive_interval) (answer.peer p)
              ∙ (ap (λ (y : Peer A P). y.keepalive_interval) (greeted-Frame.peer p)
                  ∙ (take.0 ∙ taken (checked_interval.peer p) (first.peer p))),
          answer.spawned
              ∙ ap (◌∷◌ (keepalive_loop p)) (greeted-Frame.spawned ∙ (take.2 ∙ first.spawned)),
        )

    -- Unless a HELLO has an interval of 0 and the session is an outgoing one that is not CLOSED, the
    -- loop that it starts crashes exactly if the interval of the HELLO or that of the peer is 0: the
    -- reset on an interval of 0 does not keep it from starting.
    pub keepalive_loop_crashes-process_rx_hello :
        stuck ≡ false
        → keepalive_loop_crashes p (process_rx_hello env p msg n)
          ≡ (msg.keepalive_interval == 0 || (n.peer p).keepalive_interval == 0)
    unfolding keepalive_loop_crashes
    keepalive_loop_crashes-process_rx_hello free = ground (arith, (process_rx_hello_lem free).1)
