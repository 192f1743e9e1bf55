-- ===== src/Wire/Stream.antt =====
-- peer.go: the packets of `sendMessage`, read by `rxLoop`.
use mathlib.Core.List.{append_assoc}
use metalbond.Base.{
  ℕ, suc, zero, ◌+◌, ◌-◌, ◌/◌, ◌%◌, ◌≤◌, ◌<◌, ◌||◌, true, false, List, [], ◌∷◌, ◌++◌, length, take,
  ltb, same, if◌then◌else◌, arith, ◌≡◌, map, refl, ap, take-length-append, drop-length-append,
  length-append, ◌∙◌,
}
use metalbond.Types.{
  ConnectionState, closed, retry, Message, hello, keepalive, subscribe, unsubscribe, update,
  state_comparable,
}
use metalbond.Wire.Library.{Netip, Proto}
use metalbond.Wire.Serialize.{
  Result, ok, ◌>>=◌, serialize, bind-ok, max_payload, pb_update_of, checked,
}
use metalbond.Wire.RoundTrip.{
  IsSendable, checked-ok, deserialize_hello-serialize, deserialize_subscription-serialize,
  deserialize_update-serialize,
}
use metalbond.Wire.Packet.{
  message_type, header, read_on, delivered, prepend, packet_length, packet_of, parse_message,
  parse_packet, parse_packets, rx_round, bytes_read,
}

-- what the reader makes of a message
abbrev pub received : {A P : Type 0} → Message A P → Message A P
received (hello m) = hello (record m { is_server = false })
received m = m

module _ {A P : Type 0} (net : Netip A P) (pr : Proto) where
  abbrev pub MessageIsSendable : Message A P → Type 0
  MessageIsSendable (update m) = IsSendable net m
  MessageIsSendable _ = Unit {0}

  -- No serialized message is longer than the payload of a packet may be.
  pub serialize-le :
      (m : Message A P) (bytes : List ℕ)
      → serialize net pr m ≡ ok bytes
      → length bytes ≤ max_payload
  unfolding serialize
  serialize-le (hello m) bytes h = (checked-ok _ h).1
  serialize-le keepalive bytes h = ground arith
  serialize-le (subscribe vni) bytes h = (checked-ok _ h).1
  serialize-le (unsubscribe vni) bytes h = (checked-ok _ h).1
  serialize-le (update m) bytes h =
      let (u, e, k) = bind-ok (pb_update_of net m) (λ u. checked (pr.update.marshal u)) h in
      (checked-ok _ k).1

  parse_message-serialize :
      (m : Message A P) (bytes : List ℕ) (used : ℕ)
      → MessageIsSendable m
      → serialize net pr m ≡ ok bytes
      → parse_message net pr (message_type m) bytes used ≡ delivered (received m) used
  unfolding serialize parse_message
  parse_message-serialize (hello m) bytes used s h = rw (deserialize_hello-serialize pr m bytes h)
  parse_message-serialize keepalive bytes used s h = refl
  parse_message-serialize (subscribe vni) bytes used s h =
      rw (deserialize_subscription-serialize pr vni bytes h)
  parse_message-serialize (unsubscribe vni) bytes used s h =
      rw (deserialize_subscription-serialize pr vni bytes h)
  parse_message-serialize (update m) bytes used s h =
      rw (deserialize_update-serialize net pr m bytes s h)

  -- the header holds the length of the payload
  header_length : (n : ℕ) → n < 65536 → packet_length (n / 256 % 256) (n % 256) ≡ n
  header_length n h = omega arith

  parse_packet-header :
      (len type : ℕ) (rest : List ℕ)
      → len < 65536
      → len ≤ length rest
      → parse_packet net pr (header len type ++ rest)
        ≡ parse_message net pr type (take len rest) (4 + len)
  unfolding parse_packet header
  parse_packet-header len type rest h k = ground (arith, header_length len h)

  length-header :
      (len type : ℕ) (bytes : List ℕ) → length (header len type ++ bytes) ≡ 4 + length bytes
  unfolding header
  length-header len type bytes = omega arith

  -- a packet is its header and its payload
  packet_parts :
      (m : Message A P) (p : List ℕ)
      → packet_of net pr m ≡ ok p
      → (bytes : List ℕ) × (serialize net pr m ≡ ok bytes)
        × (p ≡ header (length bytes) (message_type m) ++ bytes)
        × (length p ≡ 4 + length bytes)
  unfolding packet_of
  packet_parts m p h =
      let (bytes, e, k) =
        bind-ok (serialize net pr m) (λ bytes. ok (header (length bytes) (message_type m) ++ bytes))
          h in
      let q : p ≡ header (length bytes) (message_type m) ++ bytes = cc in
      (bytes, e, q, ap length q ∙ length-header (length bytes) (message_type m) bytes)

  parse_packet-packet_of :
      (m : Message A P) (p rest : List ℕ)
      → MessageIsSendable m
      → packet_of net pr m ≡ ok p
      → (parse_packet net pr (p ++ rest) ≡ delivered (received m) (length p))
  parse_packet-packet_of m p rest s h =
      let (bytes, e, q, n) = packet_parts m p h in
      let fits : length bytes ≤ max_payload = serialize-le m bytes e in
      rw
        (
          n,
          q,
          append_assoc,
          parse_packet-header (length bytes) (message_type m) (bytes ++ rest) (omega arith)
              (omega (arith, length-append bytes rest)),
          take-length-append bytes rest,
        )
        (parse_message-serialize m bytes (4 + length bytes) s e)

  -- the bytes of a run of messages
  unfoldable pub all_packets : List (Message A P) → Result (List ℕ)
  all_packets [] = ok []
  all_packets (m ∷ ms) = do p ← packet_of net pr m; rest ← all_packets ms; ok (p ++ rest)

  abbrev pub AllSendable : List (Message A P) → Type 0
  AllSendable [] = Unit
  AllSendable (m ∷ ms) = MessageIsSendable m × AllSendable ms

  all_parts :
      (m : Message A P) (ms : List (Message A P)) (bytes : List ℕ)
      → all_packets (m ∷ ms) ≡ ok bytes
      → (p : List ℕ) × (rest : List ℕ) × (packet_of net pr m ≡ ok p)
        × (all_packets ms ≡ ok rest)
        × (bytes ≡ p ++ rest)
        × (4 ≤ length p)
  unfolding all_packets
  all_parts m ms bytes h =
      let (p, e, k) =
        bind-ok (packet_of net pr m) (λ p. all_packets ms >>= λ rest. ok (p ++ rest)) h in
      let (rest, e2, k2) = bind-ok (all_packets ms) (λ rest. ok (p ++ rest)) k in
      let (_, _, _, n) = packet_parts m p e in (p, rest, e, e2, cc, omega arith)

  -- the step of the loop over the packet in front
  parse_packets-step :
      (fuel : ℕ) (m : Message A P) (p rest stale : List ℕ)
      → MessageIsSendable m
      → packet_of net pr m ≡ ok p
      → parse_packets net pr (suc fuel) ((p ++ rest) ++ stale) (length (p ++ rest))
        ≡ prepend (received m) (
            if ltb 0 (length rest)
            then parse_packets net pr fuel (rest ++ stale) (length rest)
            else ([], read_on))
  unfolding parse_packets
  parse_packets-step fuel m p rest stale s e =
      let test : ltb (length p) (length (p ++ rest)) ≡ ltb 0 (length rest) =
        ground (arith, length-append p rest) in
      let left : length (p ++ rest) - length p ≡ length rest =
        omega (arith, length-append p rest) in
      rw (append_assoc, parse_packets)
        (rw (parse_packet-packet_of m p (rest ++ stale) s e, parse_packets)
          (rw (test, left, append_assoc, drop-length-append p (rest ++ stale))))

  parse_packets-all :
      (fuel : ℕ) (m : Message A P) (ms : List (Message A P)) (bytes stale : List ℕ)
      → AllSendable (m ∷ ms)
      → all_packets (m ∷ ms) ≡ ok bytes
      → length bytes ≤ fuel
      → parse_packets net pr fuel (bytes ++ stale) (length bytes) ≡ (map received (m ∷ ms), read_on)
  parse_packets-all zero m ms bytes stale s h k =
      let (p, rest, _, _, q, n) = all_parts m ms bytes h in
      absurd (omega (arith, ap length q, length-append p rest))
  parse_packets-all (suc fuel) m [] bytes stale s h k =
      let (p, rest, e, e2, q, n) = all_parts m [] bytes h in
      let none_left : rest ≡ [] = unfold all_packets in cc in
      rw (q, none_left, parse_packets-step fuel m p [] stale s.0 e)
  parse_packets-all (suc fuel) m (m2 ∷ ms) bytes stale s h k =
      let (p, rest, e, e2, q, n) = all_parts m (m2 ∷ ms) bytes h in
      let (p2, rest2, _, _, q2, n2) = all_parts m2 ms rest e2 in
      let some_left : ltb 0 (length rest) ≡ true =
        ground (arith, ap length q2, length-append p2 rest2) in
      rw (
        q,
        parse_packets-step fuel m p rest stale s.0 e,
        some_left,
        parse_packets-all fuel m2 ms rest stale s.1 e2
            (omega (arith, ap length q, length-append p rest)),
      )

  -- If each message can be made a packet, and each UPDATE is one that the program makes, then messages
  -- written one after the other, and read at once into a buffer that is longer, reach the channels of
  -- an open connection whole and in order, whatever stands in the buffer behind them; of a HELLO,
  -- `IsServer` is lost.
  pub rx_round-all_packets :
      (state : ConnectionState) (m : Message A P) (ms : List (Message A P)) (bytes stale : List ℕ)
      → (same state closed || same state retry) ≡ false
      → AllSendable (m ∷ ms)
      → all_packets (m ∷ ms) ≡ ok bytes
      → 0 < length stale
      → rx_round net pr state (bytes ++ stale) (bytes_read (length bytes))
        ≡ (map received (m ∷ ms), read_on)
  unfolding rx_round
  rx_round-all_packets state m ms bytes stale open_ s h free =
      let room : ltb (length bytes) (length (bytes ++ stale)) ≡ true =
        ground (arith, length-append bytes stale) in
      rw (open_, room, parse_packets-all (suc (length bytes)) m ms bytes stale s h (omega arith))
