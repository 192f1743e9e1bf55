-- ===== src/Bond/Backed.antt =====
-- peer.go: the messages that `handle` takes, and the table of the node against the peers' own tables.
use metalbond.Base.{
  Option, Bool, true, false, if◌then◌else◌, ℕ, Bool, true, false, inl, inr, Comparable, same, refl,
  nat_comparable, if◌then◌else◌, Option-cases, ◌&&◌, not, ltb,
}
use metalbond.Base.Map.{get}
use metalbond.Base.Map.Nested.{at, ensure}
use metalbond.Types.{
  destination_comparable, next_hop_comparable, ConnectionState, MsgHello, Message, hello, keepalive,
  hello_sent, hello_received, established, state_comparable,
}
use metalbond.Bond.{Error, PeerId, peer_ref_comparable, Node, Env, start, Goroutine, keepalive_loop}
use metalbond.Bond.Send.{is_incoming, send_message}
use metalbond.Bond.State.{reset_waits, add_subscriber, set_state}
use metalbond.Bond.Session.{
  go_on_hello, handle_message, process_rx_hello, process_rx_keepalive, process_rx_subscribe,
  process_rx_unsubscribe, answer_hello, take_hello, answer_keepalive,
}
use metalbond.Bond.Sends.{send_message-Sends}
use metalbond.Bond.Frame.{Sends-Frame, IsBacked}
use metalbond.Bond.Removal.{remove_subscriber-Frame}
use metalbond.Bond.Calls.{set_peer-Frame, set_state-Frame, reset-Frame, replay_dests-Frame}
use metalbond.Bond.Updates.{update-IsBacked}

module _ {A P S : Type 0} ⦃ca : Comparable A⦄ ⦃cp : Comparable P⦄ (env : Env A P S) where
  pub start-IsBacked : (g : Goroutine) (n : Node A P S) → IsBacked n → IsBacked (start g n)
  unfolding start
  start-IsBacked g n b = record { backed = λ v d h q e. b.backed v d h q e; own = b.own }

  pub IsBacked-if :
      (b : Bool) (x y : Node A P S) → IsBacked x → IsBacked y → IsBacked (if b then x else y)
  IsBacked-if true x y s t = s
  IsBacked-if false x y s t = t

  pub send-IsBacked :
      (p : PeerId) (m : Message A P) (n : Node A P S)
      → IsBacked n
      → IsBacked (send_message env p m n).0
  send-IsBacked p m n = (Sends-Frame (send_message-Sends env p m n)).backed

  pub state-IsBacked :
      (p : PeerId) (s : ConnectionState) (n : Node A P S)
      → IsBacked n
      → IsBacked (set_state env p s n)
  state-IsBacked p s n = (set_state-Frame env p s n).backed

  go_on-IsBacked :
      (p : PeerId) (msg : MsgHello) (n : Node A P S)
      → IsBacked n
      → IsBacked (go_on_hello env p msg n)
  unfolding go_on_hello answer_hello take_hello
  go_on-IsBacked p msg n b =
      IsBacked-if (is_incoming _) _ _ (state-IsBacked p hello_sent _ (send-IsBacked p _ _ greeted))
        greeted
    where
      greeted :
          IsBacked
            (start (keepalive_loop p) (set_state env p hello_received (take_hello env p msg n)))
      greeted = start-IsBacked _ _ (
          state-IsBacked p hello_received _
            ((set_peer-Frame {view = λ x. n.peer p} p _ n refl refl).backed b))

  hello-IsBacked :
      (p : PeerId) (msg : MsgHello) (n : Node A P S)
      → IsBacked n
      → IsBacked (process_rx_hello env p msg n)
  unfolding process_rx_hello
  hello-IsBacked p msg n b =
      let after = (reset-Frame env p n).backed b in
      IsBacked-if (ltb msg.keepalive_interval 1) _ _
        (IsBacked-if (reset_waits p n) _ _ after (go_on-IsBacked p msg _ after))
        (go_on-IsBacked p msg n b)

  answer_keepalive-IsBacked :
      (p : PeerId) (n : Node A P S) → IsBacked n → IsBacked (answer_keepalive env p n)
  unfolding answer_keepalive
  answer_keepalive-IsBacked p n b = IsBacked-if (is_incoming _) _ _ (send-IsBacked p _ n b) b

  keepalive-IsBacked :
      (p : PeerId) (n : Node A P S) → IsBacked n → IsBacked (process_rx_keepalive env p n)
  unfolding process_rx_keepalive
  keepalive-IsBacked p n b =
      let up = answer_keepalive-IsBacked p _ (state-IsBacked p established n b) in
      IsBacked-if (is_incoming _ && same _ hello_sent) _ _ up (
        IsBacked-if (not (is_incoming _) && same _ hello_received) _ _ up (
          IsBacked-if (same _ established) _ _ (answer_keepalive-IsBacked p n b)
            (start-IsBacked _ n b)))

  unsubscribe-IsBacked :
      (p : PeerId) (vni : ℕ) (n : Node A P S)
      → IsBacked n
      → IsBacked (process_rx_unsubscribe env p vni n)
  unfolding process_rx_unsubscribe
  unsubscribe-IsBacked p vni n b =
      (set_peer-Frame {view = λ x. n.peer p} p _ _ refl refl).backed
        ((remove_subscriber-Frame env p vni n).backed b)

  branches-IsBacked :
      (b : Bool) (x y : Node A P S × Option Error)
      → IsBacked x.0
      → IsBacked y.0
      → IsBacked (if b then x else y).0
  branches-IsBacked true x y h k = h
  branches-IsBacked false x y h k = k

  add_subscriber-IsBacked :
      (p : PeerId) (vni : ℕ) (n : Node A P S) → IsBacked n → IsBacked (add_subscriber env p vni n).0
  unfolding add_subscriber
  add_subscriber-IsBacked p vni n b =
      branches-IsBacked n.bond.subscribers_locked _ _ b
        (elim (Option-cases (get (at (ensure n.bond.subscribers vni) vni) p)) [
          | inl e ↦ rw e (
              (replay_dests-Frame env p vni _ _).backed
                (record { backed = λ v d h q k. b.backed v d h q k; own = b.own }))
          | inr (x, e) ↦ rw e (record { backed = λ v d h q k. b.backed v d h q k; own = b.own })
        ])

  subscribe-IsBacked :
      (p : PeerId) (vni : ℕ) (n : Node A P S)
      → IsBacked n
      → IsBacked (process_rx_subscribe env p vni n)
  unfolding process_rx_subscribe
  subscribe-IsBacked p vni n b =
      add_subscriber-IsBacked p vni _
        ((set_peer-Frame {view = λ x. n.peer p} p _ n refl refl).backed b)

  -- Whatever message comes from a peer, and whatever it makes the node do: if each route that the
  -- node has from some peer is one that this peer's own table holds, and each peer's own table is as
  -- a Go map can be, has nothing empty and holds only that peer's routes, then that is so afterwards.
  pub handle_message-IsBacked :
      (p : PeerId) (msg : Message A P) (n : Node A P S)
      → IsBacked n
      → IsBacked (handle_message env p msg n)
  unfolding handle_message
  handle_message-IsBacked p (hello m) n b = hello-IsBacked p m n b
  handle_message-IsBacked p keepalive n b = keepalive-IsBacked p n b
  handle_message-IsBacked p (Message.subscribe vni) n b = subscribe-IsBacked p vni n b
  handle_message-IsBacked p (Message.unsubscribe vni) n b = unsubscribe-IsBacked p vni n b
  handle_message-IsBacked p (Message.update m) n b = update-IsBacked env p m m.action n refl b
