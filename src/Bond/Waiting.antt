-- ===== src/Bond/Waiting.antt =====
-- peer.go: the messages of the handshake, in `txChan`.
use metalbond.Base.{
  ℕ, ◌≡◌, true, false, List, ◌∙◌, ap, arith, Comparable, nat_comparable, same, same_refl, ◌&&◌,
}
use metalbond.Types.{
  MsgHello, Message, hello, keepalive, incoming, outgoing, hello_sent, hello_received, established,
  closed, state_comparable,
}
use metalbond.Wire.Serialize.{ok}
use metalbond.Wire.Packet.{packet_of}
use metalbond.Bond.{PeerId, Peer, Node, Env, rx_loop, tx_loop, start, set_peer}
use metalbond.Bond.Send.{send_message, enqueue, is_incoming}
use metalbond.Bond.State.{set_state}
use metalbond.Bond.Session.{
  process_rx_hello, process_rx_keepalive, answer_keepalive, answer_hello, go_on_hello, take_hello,
}
use metalbond.Bond.Lifecycle.{connected, send_keepalive}
use metalbond.Bond.Sends.{Waits, Waits-last}
use metalbond.Bond.Queues.{set_state-Queues}
use metalbond.Bond.Calls.{set_state-Frame, state-set_state}
use metalbond.Bond.Handshake.{
  stuck, checked_interval, checked_interval-Frame, take_hello-peer, greeted-Frame, looping,
  answer_hello-Frame, process_rx_hello-free,
}

module _ {A P S : Type 0} ⦃ca : Comparable A⦄ ⦃cp : Comparable P⦄ (env : Env A P S) (p : PeerId)
    (pkt : List ℕ) where
  -- a message that is sent while the session is not CLOSED waits in the channel
  Waits-send_message :
      (m : Message A P) (n : Node A P S)
      → packet_of env.net env.proto m ≡ ok pkt
      → same (n.peer p).state closed ≡ false
      → Waits pkt ((send_message env p m n).0.peer p).tx_chan
  unfolding send_message enqueue set_peer
  Waits-send_message m n made up =
      rw up (rw (made, enqueue) (rw (same_refl p) (Waits-last pkt (n.peer p).tx_chan)))

  pub Waits-connected :
      (n : Node A P S)
      → (n.peer p).direction ≡ outgoing
      → same (n.peer p).state closed ≡ false
      → packet_of env.net env.proto
          (hello (record { keepalive_interval = (n.peer p).keepalive_interval; is_server = false }))
        ≡ ok pkt
      → Waits pkt ((connected env p n).peer p).tx_chan
  unfolding connected start
  Waits-connected n o up made =
      let m = start (tx_loop p) (start (rx_loop p) n) in
      let msg : Message A P =
        hello (record { keepalive_interval = (n.peer p).keepalive_interval; is_server = false }) in
      rw (ap is_incoming o) (
        (set_state-Queues env p hello_sent (send_message env p msg m).0).queue p pkt
          (unfold start in Waits-send_message msg m made up))

  -- the answer to a HELLO, of a node whose loop is started
  abbrev pub answer : Node A P S → Message A P
  answer n =
      hello (record {
        keepalive_interval = (n.peer p).keepalive_interval;
        is_server = n.bond.is_server;
      })

  Waits-answer_hello :
      (n : Node A P S)
      → (n.peer p).direction ≡ incoming
      → same (n.peer p).state closed ≡ false
      → packet_of env.net env.proto (answer n) ≡ ok pkt
      → Waits pkt ((answer_hello env p n).peer p).tx_chan
  unfolding answer_hello
  Waits-answer_hello n i up made = rw (ap is_incoming i) (
      (set_state-Queues env p hello_sent (send_message env p (answer n) n).0).queue p pkt
        (Waits-send_message (answer n) n made up))

  pub Waits-send_keepalive :
      (n : Node A P S)
      → (n.peer p).direction ≡ outgoing
      → same (n.peer p).state closed ≡ false
      → packet_of env.net env.proto keepalive ≡ ok pkt
      → Waits pkt ((send_keepalive env p n).peer p).tx_chan
  unfolding send_keepalive
  Waits-send_keepalive n o up made = rw (ap is_incoming o) (Waits-send_message keepalive n made up)

  pub Waits-process_rx_keepalive :
      (n : Node A P S)
      → (n.peer p).direction ≡ incoming
      → (n.peer p).state ≡ hello_sent
      → packet_of env.net env.proto keepalive ≡ ok pkt
      → Waits pkt ((process_rx_keepalive env p n).peer p).tx_chan
  unfolding process_rx_keepalive answer_keepalive
  Waits-process_rx_keepalive n i s made =
      let m = set_state env p established n in
      let way = ap (λ (y : Peer A P). y.direction) ((set_state-Frame env p established n).peer p) in
      let ends : (is_incoming (n.peer p).direction && same (n.peer p).state hello_sent) ≡ true =
        ground (arith, i, s) in
      let answers : is_incoming (m.peer p).direction ≡ true = ground (arith, way, i) in
      rw ends (
        rw answers (
          Waits-send_message keepalive m made
            (ground (arith, state-set_state env p established n))))

  module _ (n : Node A P S) (msg : MsgHello) (free : stuck env p n msg ≡ false) where
    pub interval-looping :
        ((process_rx_hello env p msg n).peer p).keepalive_interval
        ≡ ((looping env p n msg).peer p).keepalive_interval
    unfolding go_on_hello start
    interval-looping = rw (process_rx_hello-free env p n msg free) (
        ap (λ (y : Peer A P). y.keepalive_interval)
          ((answer_hello-Frame env p n msg (looping env p n msg)).peer p))

    pub Waits-process_rx_hello :
        (n.peer p).direction ≡ incoming
        → packet_of env.net env.proto (answer (looping env p n msg)) ≡ ok pkt
        → Waits pkt ((process_rx_hello env p msg n).peer p).tx_chan
    unfolding go_on_hello start
    Waits-process_rx_hello i made =
        let way = λ (y : Peer A P). y.direction in
        let taken = checked_interval env p n msg in
        let towards =
          ap way ((greeted-Frame env p n msg).peer p)
          ∙ ((take_hello-peer env p n msg taken).1
              ∙ (ap way ((checked_interval-Frame env p n msg).peer p) ∙ i)) in
        let up = state-set_state env p hello_received (take_hello env p msg taken) in
        rw (process_rx_hello-free env p n msg free)
          (Waits-answer_hello (looping env p n msg) towards (ground (arith, up)) made)
