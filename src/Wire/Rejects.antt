-- ===== src/Wire/Rejects.antt =====
-- types.go and peer.go: how bytes that are no good packet are met.
use metalbond.Base.{
  ℕ, suc, zero, ◌-◌, ◌≤◌, ◌<◌, Bool, true, false, Option, none, some, List, [], ◌∷◌, length, drop,
  ltb, ◌==◌, if◌then◌else◌, arith, ◌≡◌, ◌≢◌, ◌↔◌, refl, Bool-cases, inl, inr,
}
use metalbond.Types.{ConnectionState, state_comparable, Message, Destination, NextHop, MsgUpdate}
use metalbond.Wire.Library.{Netip, Proto, PbUpdate, PbNextHop, PbDestination}
use metalbond.Wire.Serialize.{
  Result, ok, err, crash, ◌>>=◌, destination_of, next_hop_of, deserialize_update, action_of,
}
use metalbond.Wire.Packet.{
  out_of_fuel, Parsed, delivered, ended, packet_length, parse_message, parse_v1, parse_packet,
  parse_packets, parsed_of, rx_round, ReadResult, bytes_read, eof, failed,
}

module _ {A P : Type 0} (net : Netip A P) (pr : Proto) where
  crash_of_next_hop :
      (d : Destination P) (o : Option PbNextHop) (f : NextHop A → MsgUpdate A P)
      → (next_hop_of net o >>= λ n. ok (f n)) ≡ crash
      → o ≡ none
  unfolding next_hop_of
  crash_of_next_hop d none f h = refl
  crash_of_next_hop d (some x) f h = ground arith

  destination_of-ne : (o : Option PbDestination) → destination_of net o ≢ crash
  unfolding destination_of
  destination_of-ne none h = cc
  destination_of-ne (some x) h = ground arith

  crash_of_bind :
      (r : Result (Destination P)) (o : Option PbNextHop)
      (f : Destination P → NextHop A → MsgUpdate A P)
      → r ≢ crash
      → (r >>= λ d. next_hop_of net o >>= λ n. ok (f d n)) ≡ crash
      → ((d : Destination P) × (r ≡ ok d)) × (o ≡ none)
  crash_of_bind (ok d) o f k h = ((d, refl), crash_of_next_hop d o (f d) h)
  crash_of_bind (err e) o f k h = cc
  crash_of_bind crash o f k h = absurd (k refl)

  -- Reading an UPDATE that protobuf accepts crashes exactly if it has a good destination and no next
  -- hop.
  pub deserialize_update_crash :
      (bytes : List ℕ) (u : PbUpdate)
      → pr.update.unmarshal bytes ≡ some u
      → (deserialize_update net pr bytes ≡ crash)
        ↔ (((d : Destination P) × (destination_of net u.destination ≡ ok d)) × (u.next_hop ≡ none))
  unfolding deserialize_update
  deserialize_update_crash bytes u h = (
    (λ e.
        crash_of_bind (destination_of net u.destination) u.next_hop
          (λ d n. record {
            action = action_of u.action;
            vni = u.vni;
            destination = d;
            next_hop = n;
          })
          (destination_of-ne u.destination) (rw h at e)),
    λ ((d, e), k). rw (h, e, k, next_hop_of) refl,
  )

  -- what a round can give back
  abbrev Moves : Parsed A P → Type 0
  Moves (delivered m used) = 4 ≤ used
  Moves (ended e) = e ≢ out_of_fuel

  parsed_of-Moves : (r : Result (Message A P)) (used : ℕ) → 4 ≤ used → Moves (parsed_of used r)
  parsed_of-Moves (ok m) used h = h
  parsed_of-Moves (err e) used h = λ e. cc
  parsed_of-Moves crash used h = λ e. cc

  Moves-if : (b : Bool) (x y : Parsed A P) → Moves x → Moves y → Moves (if b then x else y)
  Moves-if true x y h k = h
  Moves-if false x y h k = k

  parse_message-Moves :
      (type : ℕ) (bytes : List ℕ) (used : ℕ)
      → 4 ≤ used
      → Moves (parse_message net pr type bytes used)
  unfolding parse_message
  parse_message-Moves type bytes used h = Moves-if (type == 1) _ _ (parsed_of-Moves _ used h) (
      Moves-if (type == 2) _ _ h (
        Moves-if (type == 3) _ _ (parsed_of-Moves _ used h) (
          Moves-if (type == 4) _ _ (parsed_of-Moves _ used h)
            (Moves-if (type == 5) _ _ (parsed_of-Moves _ used h) (λ e. cc)))))

  parse_v1-Moves : (buf : List ℕ) → Moves (parse_v1 net pr buf)
  unfolding parse_v1
  parse_v1-Moves (hi ∷ lo ∷ type ∷ rest) =
      Moves-if (ltb (length rest) (packet_length hi lo)) _ _ (λ e. cc)
        (parse_message-Moves type _ _ (omega arith))
  parse_v1-Moves _ = λ e. cc

  parse_packet-Moves : (buf : List ℕ) → Moves (parse_packet net pr buf)
  unfolding parse_packet
  parse_packet-Moves [] = λ e. cc
  parse_packet-Moves (version ∷ rest) = Moves-if (version == 1) _ _ (parse_v1-Moves rest) (λ e. cc)

  parse_packets_fuel :
      (fuel : ℕ) (buf : List ℕ) (left : ℕ)
      → left < fuel
      → (parse_packets net pr fuel buf left).1 ≢ out_of_fuel
  unfolding parse_packets
  parse_packets_fuel zero buf left h = absurd (omega arith)
  parse_packets_fuel (suc fuel) buf left h =
      go (parse_packet net pr buf) refl (parse_packet-Moves buf) (parse_packets_fuel fuel)
    where
      go :
          (x : Parsed A P)
          → parse_packet net pr buf ≡ x
          → Moves x
          → ((b : List ℕ) (l : ℕ) → l < fuel → (parse_packets net pr fuel b l).1 ≢ out_of_fuel)
          → (parse_packets net pr (suc fuel) buf left).1 ≢ out_of_fuel
      go (delivered m used) e k ih =
          rw (e, parse_packets)
            (elim (Bool-cases (ltb used left)) [
              | inl more ↦ rw more (ih (drop used buf) (left - used) (ground arith))
              | inr done ↦ rw done (λ e. cc)
            ])
      go (ended e') e k ih = rw (e, parse_packets) k

  -- A round of `rxLoop` ends by one of the ends that the source has, whatever was read.
  pub rx_round_ends :
      (state : ConnectionState) (buf : List ℕ) (r : ReadResult)
      → (rx_round net pr state buf r).1 ≢ out_of_fuel
  unfolding rx_round
  rx_round_ends state buf (bytes_read n) = ground (arith, parse_packets_fuel (suc n) buf n)
  rx_round_ends state buf eof = ground arith
  rx_round_ends state buf failed = ground arith
