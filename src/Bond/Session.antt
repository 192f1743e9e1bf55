-- ===== src/Bond/Session.antt =====
-- peer.go: what `handle` does with each message, and the handshake.
use metalbond.Base.{
  ℕ, Bool, true, none, some, Comparable, same, if◌then◌else◌, ◌&&◌, ltb, ◌==◌, not, nat_comparable,
}
use metalbond.Base.Map.{put, delete}
use metalbond.Types.{
  MsgHello, MsgUpdate, Message, hello, keepalive, add, remove, other_action, hello_sent,
  hello_received, established, destination_comparable, next_hop_comparable, state_comparable,
}
use metalbond.RouteTable.{add_next_hop, remove_next_hop}
use metalbond.Bond.{
  PeerId, peer_ref_comparable, Node, Env, set_peer, reset_loop, keepalive_loop, start,
}
use metalbond.Bond.Send.{send_message, is_incoming}
use metalbond.Bond.Received.{add_received_route, remove_received_route, remove_subscriber}
use metalbond.Bond.State.{set_state, reset, reset_waits, add_subscriber}

module _ {A P S : Type 0} ⦃ca : Comparable A⦄ ⦃cp : Comparable P⦄ (env : Env A P S) where
  -- the response of an incoming connection to a HELLO
  unfoldable pub answer_hello : PeerId → Node A P S → Node A P S
  answer_hello p n =
      if is_incoming (n.peer p).direction
      then set_state env p hello_sent
          (send_message env p
            (hello (record {
              keepalive_interval = (n.peer p).keepalive_interval;
              is_server = n.bond.is_server;
            }))
            n).0
      else n

  -- the fields that the HELLO sets
  unfoldable pub take_hello : PeerId → MsgHello → Node A P S → Node A P S
  take_hello p msg n =
      let x = n.peer p in
      set_peer p
        (record x {
          is_server = msg.is_server;
          keepalive_interval =
              if ltb msg.keepalive_interval x.keepalive_interval
              then msg.keepalive_interval
              else x.keepalive_interval;
        })
        n

  -- the rest of `processRxHello` behind its test of the interval
  unfoldable pub go_on_hello : PeerId → MsgHello → Node A P S → Node A P S
  go_on_hello p msg n =
      answer_hello p
        (start (keepalive_loop p) (set_state env p hello_received (take_hello p msg n)))

  -- `Reset` of an outgoing peer waits for `handle`, which is what called it, and never returns. Any
  -- other `Reset` on a low interval does not end the method.
  unfoldable pub process_rx_hello : PeerId → MsgHello → Node A P S → Node A P S
  process_rx_hello p msg n =
      if ltb msg.keepalive_interval 1
      then if reset_waits p n then reset env p n else go_on_hello p msg (reset env p n)
      else go_on_hello p msg n

  -- the response of an incoming connection to a KEEPALIVE; the timer is not part of the state
  unfoldable pub answer_keepalive : PeerId → Node A P S → Node A P S
  answer_keepalive p n =
      if is_incoming (n.peer p).direction then (send_message env p keepalive n).0 else n

  unfoldable pub process_rx_keepalive : PeerId → Node A P S → Node A P S
  process_rx_keepalive p n =
      let x = n.peer p in
      if is_incoming x.direction && same x.state hello_sent
      then answer_keepalive p (set_state env p established n)
      else if not (is_incoming x.direction) && same x.state hello_received
      then answer_keepalive p (set_state env p established n)
      else if same x.state established
      then answer_keepalive p n
      else start (reset_loop p) n

  -- the error of `addSubscriber` is logged
  unfoldable pub process_rx_subscribe : PeerId → ℕ → Node A P S → Node A P S
  process_rx_subscribe p vni n =
      (add_subscriber env p vni (
        set_peer p (record (n.peer p) { subscribed_vnis = put (n.peer p).subscribed_vnis vni true })
          n)).0

  unfoldable pub process_rx_unsubscribe : PeerId → ℕ → Node A P S → Node A P S
  process_rx_unsubscribe p vni n =
      let n' = (remove_subscriber env p vni n).0 in
      set_peer p (record (n'.peer p) { subscribed_vnis = delete (n'.peer p).subscribed_vnis vni })
        n'

  unfoldable pub receive_add : PeerId → MsgUpdate A P → Node A P S → Node A P S
  receive_add p msg n =
      let (rt, e) =
        add_next_hop (n.peer p).received_routes msg.vni msg.destination msg.next_hop (some p) in
      let n' = set_peer p (record (n.peer p) { received_routes = rt }) n in
      elim e [
        | some _ ↦ n'
        | none ↦ (add_received_route env p msg.vni msg.destination msg.next_hop n').0
      ]

  unfoldable pub receive_remove : PeerId → MsgUpdate A P → Node A P S → Node A P S
  receive_remove p msg n =
      let (rt, (left, e)) =
        remove_next_hop (n.peer p).received_routes msg.vni msg.destination msg.next_hop (some p) in
      let n' = set_peer p (record (n.peer p) { received_routes = rt }) n in
      elim e [
        | some _ ↦ n'
        | none ↦ (remove_received_route env p msg.vni msg.destination msg.next_hop n').0
      ]

  unfoldable pub process_rx_update : PeerId → MsgUpdate A P → Node A P S → Node A P S
  process_rx_update p msg n = elim msg.action [
    | add ↦ receive_add p msg n
    | remove ↦ receive_remove p msg n
    | other_action _ ↦ n
  ]

  -- the `select` of `handle`, at a message
  unfoldable pub handle_message : PeerId → Message A P → Node A P S → Node A P S
  handle_message p (hello m) n = process_rx_hello p m n
  handle_message p keepalive n = process_rx_keepalive p n
  handle_message p (Message.subscribe vni) n = process_rx_subscribe p vni n
  handle_message p (Message.unsubscribe vni) n = process_rx_unsubscribe p vni n
  handle_message p (Message.update m) n = process_rx_update p m n

-- `keepaliveLoop` makes a ticker of the interval, which panics unless that is positive
unfoldable pub keepalive_loop_crashes : {A P S : Type 0} → PeerId → Node A P S → Bool
keepalive_loop_crashes p n = (n.peer p).keepalive_interval == 0
