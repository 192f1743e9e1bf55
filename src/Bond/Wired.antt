-- ===== src/Bond/Wired.antt =====
-- peer.go: the whole handshake between two nodes, by the bytes of their packets.
use metalbond.Base.{
  ℕ, ◌≡◌, ◌<◌, false, true, List, ◌∷◌, ◌++◌, ◌||◌, length, ltb, same, Comparable, nat_comparable,
}
use metalbond.Types.{Message, incoming, outgoing, established, closed, retry, state_comparable}
use metalbond.Client.{Client}
use metalbond.Wire.Library.{Netip, Proto}
use metalbond.Wire.Serialize.{ok}
use metalbond.Wire.Packet.{packet_of, bytes_read}
use metalbond.Bond.{PeerId, Node, Env, keepalive_loop, rx_loop, tx_loop}
use metalbond.Bond.Lifecycle.{connected, send_keepalive}
use metalbond.Bond.Sends.{Waits}
use metalbond.Bond.Handshake.{lower}
use metalbond.Bond.Relay.{hear, hear-message}
use metalbond.Bond.Connect.{
  greeting, sent_response, greeted_server, greeted_client, beating_client, server_after,
  client_after, handshake_open, handshake_messages,
}

-- Two programs with the same `netip` and the same protobuf, each with its own client for the routes;
-- the packets of the HELLO, of its answer and of a KEEPALIVE, and what stands in the buffers behind
-- them.
module _ {A P S T : Type 0} ⦃ca : Comparable A⦄ ⦃cp : Comparable P⦄ (net : Netip A P)
    (proto : Proto) (from : Client A P S) (over : Client A P T) (p q : PeerId) (client : Node A P S)
    (server : Node A P T) (hello_bytes answer_bytes beat : List ℕ)
    (stale_a stale_b stale_c stale_d : List ℕ) where
  abbrev pub here : Env A P S
  here = record { net = net; proto = proto; client = from }

  abbrev pub there : Env A P T
  there = record { net = net; proto = proto; client = over }

  -- the server reads the HELLO, and then the KEEPALIVE
  abbrev pub server_greeted : Node A P T
  server_greeted = hear there q (hello_bytes ++ stale_a) (bytes_read (length hello_bytes)) server

  abbrev pub server_done : Node A P T
  server_done = hear there q (beat ++ stale_c) (bytes_read (length beat)) server_greeted

  -- the client reads the answer, sends a KEEPALIVE, and reads the one that comes back
  abbrev pub client_greeted : Node A P S
  client_greeted =
      hear here p (answer_bytes ++ stale_b) (bytes_read (length answer_bytes))
        (connected here p client)

  abbrev pub client_beating : Node A P S
  client_beating = send_keepalive here p client_greeted

  abbrev pub client_done : Node A P S
  client_done = hear here p (beat ++ stale_d) (bytes_read (length beat)) client_beating

  -- Two nodes with intervals of at least 1, of which one opens the connection and is not CLOSED and the
  -- other took it and is neither CLOSED nor RETRY, write HELLO, its answer, and two KEEPALIVEs, and each
  -- reads the bytes of the other, in buffers that are longer. If the messages can be made packets, both
  -- sessions end ESTABLISHED, both have the lower one of the two intervals, each node started its loops
  -- once and no reset, and each packet that one reads was put into the channel of the other before.
  pub handshake_completes :
      (client.peer p).direction ≡ outgoing
      → (server.peer q).direction ≡ incoming
      → ltb 0 (client.peer p).keepalive_interval ≡ true
      → ltb 0 (server.peer q).keepalive_interval ≡ true
      → same (client.peer p).state closed ≡ false
      → (same (server.peer q).state closed || same (server.peer q).state retry) ≡ false
      → packet_of net proto (Message.hello (greeting here there p q client server)) ≡ ok hello_bytes
      → packet_of net proto (Message.hello (sent_response here there p q client server))
        ≡ ok answer_bytes
      → packet_of net proto (Message.keepalive) ≡ ok beat
      → 0 < length stale_a
      → 0 < length stale_b
      → 0 < length stale_c
      → 0 < length stale_d
      → ((client_done.peer p).state ≡ established)
        × ((server_done.peer q).state ≡ established)
        × ((client_done.peer p).keepalive_interval
            ≡ lower (client.peer p).keepalive_interval (server.peer q).keepalive_interval)
        × ((server_done.peer q).keepalive_interval
            ≡ lower (client.peer p).keepalive_interval (server.peer q).keepalive_interval)
        × (client_done.spawned ≡ keepalive_loop p ∷ tx_loop p ∷ rx_loop p ∷ client.spawned)
        × (server_done.spawned ≡ keepalive_loop q ∷ server.spawned)
        × Waits hello_bytes ((connected here p client).peer p).tx_chan
        × Waits answer_bytes (server_greeted.peer q).tx_chan
        × Waits beat (client_beating.peer p).tx_chan
        × Waits beat (server_done.peer q).tx_chan
  handshake_completes o i ci si up open_ made_a made_b made_c fa fb fc fd =
      let messages =
        handshake_messages here there p q client server o i ci si hello_bytes answer_bytes beat beat
          up made_a made_b made_c made_c in
      let opens = handshake_open here there p q client server o i ci si in
      let e1 : server_greeted ≡ greeted_server here there p q client server =
        hear-message there q _ server stale_a made_a tt fa open_ in
      let e2 : client_greeted ≡ greeted_client here there p q client server =
        hear-message here p _ (connected here p client) stale_b made_b tt fb opens.0 in
      let e3 : hear there q (beat ++ stale_c) (bytes_read (length beat))
            (greeted_server here there p q client server)
          ≡ server_after here there p q client server =
        hear-message there q _ (greeted_server here there p q client server) stale_c made_c tt fc
          opens.1 in
      let e4 : hear here p (beat ++ stale_d) (bytes_read (length beat))
            (beating_client here there p q client server)
          ≡ client_after here there p q client server =
        hear-message here p _ (beating_client here there p q client server) stale_d made_c tt fd
          opens.2 in
      rw (e1, e2, e3, e4) messages
