-- ===== src/Bond/Connect.antt =====
-- peer.go: the whole handshake between two nodes, one of which opened the connection.
use metalbond.Base.{
  ◌||◌, ℕ, ◌≡◌, true, false, List, ◌∷◌, ◌∙◌, ap, arith, Comparable, nat_comparable, ltb, same, [],
}
use metalbond.Types.{
  retry, MsgHello, Message, hello, keepalive, incoming, outgoing, hello_sent, established, closed,
  state_comparable,
}
use metalbond.Wire.Serialize.{ok}
use metalbond.Wire.Packet.{packet_of}
use metalbond.Bond.{PeerId, Peer, Node, Env, keepalive_loop, rx_loop, tx_loop, start, set_peer}
use metalbond.Bond.Send.{send_message}
use metalbond.Bond.State.{set_state}
use metalbond.Bond.Session.{
  handle_message, process_rx_hello, process_rx_keepalive, answer_keepalive, answer_hello,
  go_on_hello, take_hello,
}
use metalbond.Bond.Lifecycle.{connected, send_keepalive}
use metalbond.Bond.Sends.{send_message-Sends, Waits}
use metalbond.Bond.Calls.{set_state-Frame, state-set_state}
use metalbond.Bond.Handshake.{
  lower, process_rx_hello_lem, process_rx_keepalive_lem, stuck, checked_interval,
  checked_interval-Frame, take_hello-peer, greeted-Frame, looping, answer_hello-Frame,
  process_rx_hello-free,
}
use metalbond.Bond.Waiting.{
  interval-looping, Waits-connected, Waits-process_rx_hello, Waits-send_keepalive,
  Waits-process_rx_keepalive,
}

module _ {A P S : Type 0} ⦃ca : Comparable A⦄ ⦃cp : Comparable P⦄ (env : Env A P S) (p : PeerId)
    (n : Node A P S) where
  -- the peer that a HELLO, or the whole handshake, has not changed the direction of
  direction-process_rx_hello :
      (msg : MsgHello)
      → stuck env p n msg ≡ false
      → ((process_rx_hello env p msg n).peer p).direction ≡ (n.peer p).direction
  unfolding metalbond.Bond.Session.go_on_hello start
  direction-process_rx_hello msg free =
      let way = λ (y : Peer A P). y.direction in
      rw (process_rx_hello-free env p n msg free) (
        ap way ((answer_hello-Frame env p n msg (looping env p n msg)).peer p)
        ∙ (ap way ((greeted-Frame env p n msg).peer p)
            ∙ ((take_hello-peer env p n msg (checked_interval env p n msg)).1
                ∙ ap way ((checked_interval-Frame env p n msg).peer p))))

  interval-process_rx_keepalive :
      ((process_rx_keepalive env p n).peer p).keepalive_interval ≡ (n.peer p).keepalive_interval
  unfolding process_rx_keepalive answer_keepalive start
  interval-process_rx_keepalive =
      let m = set_state env p established n in
      let kept = λ (x : Peer A P). x.keepalive_interval in
      ground (
        arith,
        ap kept ((send_message-Sends env p keepalive m).peer p),
        ap kept ((send_message-Sends env p keepalive n).peer p),
        ap kept ((set_state-Frame env p established n).peer p),
      )

  connected-outgoing :
      (n.peer p).direction ≡ outgoing
      → (((connected env p n).peer p).state ≡ hello_sent)
        × (((connected env p n).peer p).direction ≡ outgoing)
        × (((connected env p n).peer p).keepalive_interval ≡ (n.peer p).keepalive_interval)
        × ((connected env p n).spawned ≡ tx_loop p ∷ rx_loop p ∷ n.spawned)
  unfolding connected start
  connected-outgoing o =
      let up = start (tx_loop p) (start (rx_loop p) n) in
      let msg : Message A P =
        hello (record { keepalive_interval = (n.peer p).keepalive_interval; is_server = false }) in
      let s = send_message-Sends env p msg up in
      let f = set_state-Frame env p hello_sent (send_message env p msg up).0 in
      let way = λ (y : Peer A P). y.direction in
      let kept = λ (y : Peer A P). y.keepalive_interval in
      (
        ground (arith, o, state-set_state env p hello_sent (send_message env p msg up).0),
        ground (arith, o, ap way (f.peer p), ap way (s.peer p)),
        ground (arith, o, ap kept (f.peer p), ap kept (s.peer p)),
        ground (arith, o, f.spawned, s.spawned),
      )

  send_keepalive-peer :
      (((send_keepalive env p n).peer p).state ≡ (n.peer p).state)
      × (((send_keepalive env p n).peer p).direction ≡ (n.peer p).direction)
      × (((send_keepalive env p n).peer p).keepalive_interval ≡ (n.peer p).keepalive_interval)
      × ((send_keepalive env p n).spawned ≡ n.spawned)
  unfolding send_keepalive
  send_keepalive-peer =
      let s = send_message-Sends env p keepalive n in
      let x = s.peer p in
      (
        ground (arith, ap (λ (y : Peer A P). y.state) x),
        ground (arith, ap (λ (y : Peer A P). y.direction) x),
        ground (arith, ap (λ (y : Peer A P). y.keepalive_interval) x),
        ground (arith, s.spawned),
      )

-- What the two ends do until both took the other's KEEPALIVE: the client connects and greets, the
-- server answers, and the client's `keepaliveLoop` sends a KEEPALIVE that the server answers.
module _ {A P S T : Type 0} ⦃ca : Comparable A⦄ ⦃cp : Comparable P⦄ (here : Env A P S)
    (there : Env A P T) (p q : PeerId) (client : Node A P S) (server : Node A P T) where
  abbrev pub greeting : MsgHello
  greeting = record { keepalive_interval = (client.peer p).keepalive_interval; is_server = false }

  abbrev pub greeted_server : Node A P T
  greeted_server = handle_message there q (hello greeting) server

  -- what the server puts into its answer, and what the client reads of it
  abbrev pub sent_response : MsgHello
  sent_response =
      let n = looping there q server greeting in
      record { keepalive_interval = (n.peer q).keepalive_interval; is_server = n.bond.is_server }

  abbrev pub response : MsgHello
  response = record sent_response { is_server = false }

  abbrev pub greeted_client : Node A P S
  greeted_client = handle_message here p (hello response) (connected here p client)

  abbrev pub beating_client : Node A P S
  beating_client = send_keepalive here p greeted_client

  abbrev pub server_after : Node A P T
  server_after = handle_message there q keepalive greeted_server

  abbrev pub client_after : Node A P S
  client_after = handle_message here p keepalive beating_client

  module _ (opens : (client.peer p).direction ≡ outgoing)
      (accepted : (server.peer q).direction ≡ incoming)
      (client_interval : ltb 0 (client.peer p).keepalive_interval ≡ true)
      (server_interval : ltb 0 (server.peer q).keepalive_interval ≡ true) where
    server_free : stuck there q server greeting ≡ false
    server_free = ground (arith, accepted, client_interval)

    client_free : stuck here p (connected here p client) response ≡ false
    client_free =
        let met = interval-looping there q [] server greeting server_free in
        let s1 = process_rx_hello_lem there q server greeting server_free in
        ground (arith, met, s1.1, client_interval, server_interval)

    handshake_states :
        ((client_after.peer p).state ≡ established)
        × ((server_after.peer q).state ≡ established)
        × ((client_after.peer p).keepalive_interval
            ≡ lower (client.peer p).keepalive_interval (server.peer q).keepalive_interval)
        × ((server_after.peer q).keepalive_interval
            ≡ lower (client.peer p).keepalive_interval (server.peer q).keepalive_interval)
        × (client_after.spawned ≡ keepalive_loop p ∷ tx_loop p ∷ rx_loop p ∷ client.spawned)
        × (server_after.spawned ≡ keepalive_loop q ∷ server.spawned)
    unfolding handle_message
    handshake_states =
        let met = interval-looping there q [] server greeting server_free in
        let c0 = connected-outgoing here p client opens in
        let s1 = process_rx_hello_lem there q server greeting server_free in
        let sd = direction-process_rx_hello there q server greeting server_free in
        let s2 = process_rx_keepalive_lem there q greeted_server in
        let s3 = interval-process_rx_keepalive there q greeted_server in
        let c1 = process_rx_hello_lem here p (connected here p client) response client_free in
        let cd = direction-process_rx_hello here p (connected here p client) response client_free in
        let c2 = send_keepalive-peer here p greeted_client in
        let c3 = process_rx_keepalive_lem here p beating_client in
        let c4 = interval-process_rx_keepalive here p beating_client in
        (
          ground (arith, c0.1, c1.0, cd, c2.0, c2.1, c3.0),
          ground (arith, accepted, s1.0, sd, s2.0),
          ground (arith, c0.2, c1.1, c2.2, c4, met, s1.1),
          ground (arith, s1.1, s3),
          ground (arith, c0.1, c0.3, c1.0, c1.2, cd, c2.0, c2.1, c2.3, c3.1),
          ground (arith, accepted, s1.0, s1.2, sd, s2.1),
        )

    -- each end reads the next message over an open connection
    pub handshake_open :
        ((same (((connected here p client).peer p).state) closed
            || same (((connected here p client).peer p).state) retry)
          ≡ false)
        × ((same (greeted_server.peer q).state closed || same (greeted_server.peer q).state retry)
            ≡ false)
        × ((same (beating_client.peer p).state closed || same (beating_client.peer p).state retry)
            ≡ false)
    unfolding handle_message
    handshake_open =
        let c0 = connected-outgoing here p client opens in
        let s1 = process_rx_hello_lem there q server greeting server_free in
        let c1 = process_rx_hello_lem here p (connected here p client) response client_free in
        let c2 = send_keepalive-peer here p greeted_client in
        (ground (arith, c0.0), ground (arith, accepted, s1.0), ground (arith, c0.1, c1.0, c2.0))

    -- the handshake by messages, of which the packets waited in the channel of the other
    pub handshake_messages :
        (greeting_packet response_packet beat answer_beat : List ℕ)
        → same (client.peer p).state closed ≡ false
        → packet_of here.net here.proto (hello greeting) ≡ ok greeting_packet
        → packet_of there.net there.proto (hello sent_response) ≡ ok response_packet
        → packet_of here.net here.proto keepalive ≡ ok beat
        → packet_of there.net there.proto keepalive ≡ ok answer_beat
        → ((client_after.peer p).state ≡ established)
          × ((server_after.peer q).state ≡ established)
          × ((client_after.peer p).keepalive_interval
              ≡ lower (client.peer p).keepalive_interval (server.peer q).keepalive_interval)
          × ((server_after.peer q).keepalive_interval
              ≡ lower (client.peer p).keepalive_interval (server.peer q).keepalive_interval)
          × (client_after.spawned ≡ keepalive_loop p ∷ tx_loop p ∷ rx_loop p ∷ client.spawned)
          × (server_after.spawned ≡ keepalive_loop q ∷ server.spawned)
          × Waits greeting_packet ((connected here p client).peer p).tx_chan
          × Waits response_packet (greeted_server.peer q).tx_chan
          × Waits beat (beating_client.peer p).tx_chan
          × Waits answer_beat (server_after.peer q).tx_chan
    unfolding handle_message
    handshake_messages a b c d up made_a made_b made_c made_d =
        let e = handshake_states in
        let c0 = connected-outgoing here p client opens in
        let s1 = process_rx_hello_lem there q server greeting server_free in
        let sd = direction-process_rx_hello there q server greeting server_free in
        let c1 = process_rx_hello_lem here p (connected here p client) response client_free in
        let cd = direction-process_rx_hello here p (connected here p client) response client_free in
        (
          e.0,
          e.1,
          e.2,
          e.3,
          e.4,
          e.5,
          Waits-connected here p a client opens up made_a,
          Waits-process_rx_hello there q b server greeting server_free accepted made_b,
          Waits-send_keepalive here p c greeted_client (cd ∙ c0.1) (ground (arith, c1.0, c0.1))
              made_c,
          Waits-process_rx_keepalive there q d greeted_server (sd ∙ accepted)
              (ground (arith, s1.0, accepted)) made_d,
        )
