-- ===== src/Wire/Packet.antt =====
-- peer.go: the packet that `sendMessage` makes of a message, and the packets that `rxLoop` finds in
-- its buffer after a `Read`. `buf[pktStart:]` is a list, and `left` is `bytesRead - pktStart`.
use metalbond.Base.{
  ℕ, suc, zero, ◌+◌, ◌-◌, ◌*◌, ◌/◌, ◌%◌, ◌||◌, List, [], ◌∷◌, ◌++◌, length, take, drop, ltb, ◌==◌,
  same, if◌then◌else◌,
}
use metalbond.Types.{
  ConnectionState, closed, retry, Message, hello, keepalive, subscribe, unsubscribe, update,
  state_comparable,
}
use metalbond.Wire.Library.{Netip, Proto}
use metalbond.Wire.Serialize.{
  Result, ok, err, crash, ◌>>=◌, serialize, deserialize_hello, deserialize_subscription,
  deserialize_update,
}

-- `MESSAGE_TYPE`
abbrev pub message_type : {A P : Type 0} → Message A P → ℕ
message_type (hello _) = 1
message_type keepalive = 2
message_type (subscribe _) = 3
message_type (unsubscribe _) = 4
message_type (update _) = 5

-- `hdr`; a conversion to `byte` keeps the last 8 bits
unfoldable pub header : ℕ → ℕ → List ℕ
header len type = 1 ∷ (len / 256 % 256) ∷ (len % 256) ∷ type ∷ []

-- how a round of `rxLoop` ends: it reads on, starts `Reset`, or returns with no `Reset`
pub data RxEnd : Type 0 where
  read_on reset stopped crashed out_of_fuel : RxEnd

-- one round of `parsePacket`: a message goes to its channel, and these bytes are used up, or it ends
pub data Parsed (A P : Type 0) : Type 0 where
  delivered : Message A P → ℕ → Parsed A P
  ended : RxEnd → Parsed A P

-- what `Read` returns; the bytes read stand in the buffer
pub data ReadResult : Type 0 where
  bytes_read : ℕ → ReadResult
  eof failed : ReadResult

abbrev pub prepend :
    {A P : Type 0} → Message A P → List (Message A P) × RxEnd → List (Message A P) × RxEnd
prepend m (ms, e) = (m ∷ ms, e)

-- what the loop does with a deserialized message
abbrev pub parsed_of : {A P : Type 0} → ℕ → Result (Message A P) → Parsed A P
parsed_of used (ok m) = delivered m used
parsed_of used (err e) = ended reset
parsed_of used crash = ended crashed

-- `uint16(hi)<<8 + uint16(lo)`
abbrev pub packet_length : ℕ → ℕ → ℕ
packet_length hi lo = (hi * 256 % 65536 + lo) % 65536

module _ {A P : Type 0} (net : Netip A P) (pr : Proto) where
  -- `sendMessage`, from the message to the bytes in `txChan`
  unfoldable pub packet_of : Message A P → Result (List ℕ)
  packet_of m = do bytes ← serialize net pr m; ok (header (length bytes) (message_type m) ++ bytes)

  -- the `switch pktType`
  unfoldable pub parse_message : ℕ → List ℕ → ℕ → Parsed A P
  parse_message type bytes used =
      if type == 1
      then parsed_of used (do m ← deserialize_hello pr bytes; ok (hello m))
      else if type == 2
      then delivered keepalive used
      else if type == 3
      then parsed_of used (do vni ← deserialize_subscription pr bytes; ok (subscribe vni))
      else if type == 4
      then parsed_of used (do vni ← deserialize_subscription pr bytes; ok (unsubscribe vni))
      else if type == 5
      then parsed_of used (do m ← deserialize_update net pr bytes; ok (update m))
      else ended stopped

  -- `case 1`: a slice or an index past the end of the buffer panics
  unfoldable pub parse_v1 : List ℕ → Parsed A P
  parse_v1 (hi ∷ lo ∷ type ∷ rest) =
      let len = packet_length hi lo in
      if ltb (length rest) len then ended crashed else parse_message type (take len rest) (4 + len)
  parse_v1 _ = ended crashed

  -- the `switch pktVersion`
  unfoldable pub parse_packet : List ℕ → Parsed A P
  unfolding parse_v1
  parse_packet [] = ended crashed
  parse_packet (version ∷ rest) = if version == 1 then parse_v1 rest else ended reset

  -- the loop `parsePacket`: the messages in the order of their sending to the channels
  unfoldable pub parse_packets : ℕ → List ℕ → ℕ → List (Message A P) × RxEnd
  parse_packets zero buf left = ([], out_of_fuel)
  parse_packets (suc fuel) buf left = elim (parse_packet buf) [
    | ended e ↦ ([], e)
    | delivered m used ↦
        let rest = parse_packets fuel (drop used buf) (left - used) in
        prepend m (if ltb used left then rest else ([], read_on))
  ]

  -- one round of the `for` loop of `rxLoop`; each packet uses up 4 bytes at least
  unfoldable pub rx_round : ConnectionState → List ℕ → ReadResult → List (Message A P) × RxEnd
  rx_round state buf (bytes_read n) =
      if same state closed || same state retry
      then ([], stopped)
      else if ltb n (length buf)
      then parse_packets (suc n) buf n
      else ([], reset)
  rx_round state buf _ =
      if same state closed || same state retry then ([], stopped) else ([], reset)
