-- ===== src/Wire/RoundTrip.antt =====
-- types.go: a message that was serialized is read back.
use metalbond.Base.{
  ℕ, ◌^◌, ◌%◌, ◌<◌, ◌≡◌, true, false, Option, some, List, length, arith, ◌≤◌, inl, inr, Bool-cases,
}
use metalbond.Types.{MsgHello, MsgUpdate, NextHopType}
use metalbond.Wire.Library.{Netip, Proto, PbUpdate}
use metalbond.Wire.Serialize.{
  ok, is_nat, max_payload, checked, serialize_hello, serialize_subscription, deserialize_hello,
  deserialize_subscription, serialize_update, deserialize_update, pb_update_of, action_of, ports_of,
  destination_of, next_hop_of, bind-ok,
}

pub checked-ok :
    (o : Option (List ℕ)) {bytes : List ℕ}
    → checked o ≡ ok bytes
    → (o ≡ some bytes) × (length bytes ≤ max_payload)
unfolding checked
checked-ok o h = ground arith

module _ (pr : Proto) where
  -- A HELLO that was serialized is read back with its keepalive interval, but never as a server's.
  pub deserialize_hello-serialize :
      (m : MsgHello) (bytes : List ℕ)
      → serialize_hello pr m ≡ ok bytes
      → deserialize_hello pr bytes ≡ ok (record m { is_server = false })
  unfolding serialize_hello deserialize_hello
  deserialize_hello-serialize m bytes h = rw (
      pr.hello.unmarshal-marshal _ bytes
        (checked-ok
          (pr.hello.marshal
            (record { keepalive_interval = m.keepalive_interval; is_server = m.is_server }))
          h).0)

  -- The VNI of a SUBSCRIBE or UNSUBSCRIBE that was serialized is read back.
  pub deserialize_subscription-serialize :
      (vni : ℕ) (bytes : List ℕ)
      → serialize_subscription pr vni ≡ ok bytes
      → deserialize_subscription pr bytes ≡ ok vni
  unfolding serialize_subscription deserialize_subscription
  deserialize_subscription-serialize vni bytes h = rw (
      pr.subscription.unmarshal-marshal _ bytes
        (checked-ok (pr.subscription.marshal (record { vni = vni })) h).0)

module _ {A P : Type 0} (net : Netip A P) where
  -- an UPDATE as the program makes it
  pub record IsSendable (m : MsgUpdate A P) : Type 0 where
    pub bits : ℕ
    pub has_bits : net.prefix_bits m.destination.prefix ≡ some bits
    pub valid : net.is_valid m.next_hop.target_address ≡ true
    pub no_zone : net.has_zone m.next_hop.target_address ≡ false
    pub from_word : m.next_hop.nat_port_range_from < 2 ^ 16
    pub to_word : m.next_hop.nat_port_range_to < 2 ^ 16
    -- only a NAT route has ports
    pub no_ports :
        is_nat m.next_hop.hop_type ≡ false
        → (m.next_hop.nat_port_range_from ≡ 0) × (m.next_hop.nat_port_range_to ≡ 0)

  -- the protobuf message holds what the UPDATE holds
  record Reads (m : MsgUpdate A P) (u : PbUpdate) : Type 0 where
    action : action_of u.action ≡ m.action
    vni : u.vni ≡ m.vni
    destination : destination_of net u.destination ≡ ok m.destination
    next_hop : next_hop_of net u.next_hop ≡ ok m.next_hop

  ports-eq :
      (t : NextHopType) (port : ℕ)
      → port < 2 ^ 16
      → (is_nat t ≡ false → port ≡ 0)
      → ports_of t port % 2 ^ 16 ≡ port
  ports-eq t port h k = elim (Bool-cases (is_nat t)) [
    | inl e ↦ rw e (omega arith)
    | inr e ↦ rw e (omega (arith, k e))
  ]

  pb_update_of-Reads :
      (m : MsgUpdate A P) (u : PbUpdate) → IsSendable m → pb_update_of net m ≡ ok u → Reads m u
  unfolding pb_update_of destination_of next_hop_of
  pb_update_of-Reads m u s h = record {
    action = ground arith;
    vni = ground arith;
    destination = ground (
      arith,
      net.addr_from_slice-as_slice a0 (net.prefix_addr-valid p s.has_bits)
          (net.prefix_addr-zone p s.has_bits),
      s.has_bits,
      net.prefix_from-parts p s.has_bits,
    );
    next_hop = ground (
      arith,
      net.addr_from_slice-as_slice a1 s.valid s.no_zone,
      ports-eq t f s.from_word (λ e. (s.no_ports e).0),
      ports-eq t g s.to_word (λ e. (s.no_ports e).1),
    );
  }
    where
      p : P
      p = m.destination.prefix

      a0 : A
      a0 = net.prefix_addr p

      a1 : A
      a1 = m.next_hop.target_address

      t : NextHopType
      t = m.next_hop.hop_type

      f : ℕ
      f = m.next_hop.nat_port_range_from

      g : ℕ
      g = m.next_hop.nat_port_range_to

  module _ (pr : Proto) where
    -- An UPDATE that was serialized is read back as it was, if its prefix and its address are valid,
    -- the address has no zone, the ports are 16-bit words, and they are 0 unless the next hop is of the
    -- type NAT.
    pub deserialize_update-serialize :
        (m : MsgUpdate A P) (bytes : List ℕ)
        → IsSendable m
        → serialize_update net pr m ≡ ok bytes
        → deserialize_update net pr bytes ≡ ok m
    unfolding serialize_update deserialize_update
    deserialize_update-serialize m bytes s h =
        let (u, e, k) = bind-ok (pb_update_of net m) (λ u. checked (pr.update.marshal u)) h in
        let r : Reads m u = pb_update_of-Reads m u s e in
        rw
          (
            pr.update.unmarshal-marshal u bytes (checked-ok (pr.update.marshal u) k).0,
            r.destination,
            r.next_hop,
          )
          (λ i. ok (record {
            action = r.action i;
            vni = r.vni i;
            destination = m.destination;
            next_hop = m.next_hop;
          }))
