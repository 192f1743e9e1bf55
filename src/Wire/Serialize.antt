-- ===== src/Wire/Serialize.antt =====
-- types.go: `Serialize` of each message, and the functions that read one back.
use metalbond.Base.{
  ℕ, ◌^◌, ◌-◌, ◌%◌, Bool, true, false, Option, none, some, List, [], length, ltb, if◌then◌else◌,
  ◌≡◌, refl,
}
use metalbond.Types.{
  IpVersion, ipv4, ipv6, other_version, NextHopType, nat, Destination, NextHop, UpdateAction, add,
  remove, other_action, MsgHello, MsgUpdate, Message,
}
use metalbond.Wire.Library.{
  Netip, Proto, PbUpdate, PbDestination, PbNextHop, PbIpVersion, pb_ipv4, pb_ipv6, PbAction, pb_add,
  pb_remove,
}

pub data WireError : Type 0 where
  cannot_marshal too_long invalid_action invalid_ip_version : WireError
  cannot_unmarshal destination_nil invalid_destination_ip invalid_next_hop_ip : WireError

-- `crash` is a run-time panic, which ends the process.
pub data Result {ℓ} (B : Type ℓ) : Type ℓ where
  ok : B → Result B
  err : WireError → Result B
  crash : Result B

infixl 5 ◌>>=◌
abbrev pub ◌>>=◌ {ℓ κ} : {B : Type ℓ} {C : Type κ} → Result B → (B → Result C) → Result C
ok b >>= f = f b
err e >>= f = err e
crash >>= f = crash

pub bind-ok {ℓ κ} :
    {B : Type ℓ} {C : Type κ} (m : Result B) (f : B → Result C) {c : C}
    → (m >>= f) ≡ ok c
    → (b : B) × (m ≡ ok b) × (f b ≡ ok c)
bind-ok (ok b) f h = (b, refl, h)
bind-ok (err e) f h = cc
bind-ok crash f h = cc

abbrev pub or_error {ℓ} : {B : Type ℓ} → WireError → Option B → Result B
or_error e none = err e
or_error e (some b) = ok b

-- the longest payload
abbrev pub max_payload : ℕ
max_payload = 1188

-- the part that every `Serialize` ends with
unfoldable pub checked : Option (List ℕ) → Result (List ℕ)
checked none = err cannot_marshal
checked (some bytes) = if ltb max_payload (length bytes) then err too_long else ok bytes

unfoldable pub pb_action_of : UpdateAction → Result PbAction
pb_action_of add = ok pb_add
pb_action_of remove = ok pb_remove
pb_action_of (other_action n) = err invalid_action

unfoldable pub pb_version_of : IpVersion → Result PbIpVersion
pb_version_of ipv4 = ok pb_ipv4
pb_version_of ipv6 = ok pb_ipv6
pb_version_of (other_version n) = err invalid_ip_version

-- `uint32(prefix.Bits())`, which is 2^32 - 1 for -1
abbrev pub bits_word : Option ℕ → ℕ
bits_word none = 2 ^ 32 - 1
bits_word (some n) = n

abbrev pub is_nat : NextHopType → Bool
is_nat nat = true
is_nat _ = false

-- a sent UPDATE has the ports of its next hop only if that is of the type NAT
abbrev pub ports_of : NextHopType → ℕ → ℕ
ports_of t port = if is_nat t then port else 0

abbrev pub action_of : PbAction → UpdateAction
action_of pb_remove = remove
action_of _ = add

abbrev pub version_of : PbIpVersion → IpVersion
version_of pb_ipv4 = ipv4
version_of _ = ipv6

module _ (pr : Proto) where
  unfoldable pub serialize_hello : MsgHello → Result (List ℕ)
  serialize_hello m = checked (
      pr.hello.marshal
        (record { keepalive_interval = m.keepalive_interval; is_server = m.is_server }))

  -- `Serialize` of SUBSCRIBE and of UNSUBSCRIBE
  unfoldable pub serialize_subscription : ℕ → Result (List ℕ)
  serialize_subscription vni = checked (pr.subscription.marshal (record { vni = vni }))

  -- the field `IsServer` is not read
  unfoldable pub deserialize_hello : List ℕ → Result MsgHello
  deserialize_hello bytes = do
    m ← or_error cannot_unmarshal (pr.hello.unmarshal bytes)
    ok (record { keepalive_interval = m.keepalive_interval; is_server = false })

  -- `deserializeSubscribeMsg` and `deserializeUnsubscribeMsg`
  unfoldable pub deserialize_subscription : List ℕ → Result ℕ
  deserialize_subscription bytes = do
    m ← or_error cannot_unmarshal (pr.subscription.unmarshal bytes)
    ok m.vni

module _ {A P : Type 0} (net : Netip A P) where
  unfoldable pub pb_update_of : MsgUpdate A P → Result PbUpdate
  unfolding pb_action_of pb_version_of
  pb_update_of m = do
    action ← pb_action_of m.action
    version ← pb_version_of m.destination.ip_version
    ok (record {
      action = action;
      vni = m.vni;
      destination = some (record {
        ip_version = version;
        prefix = net.as_slice (net.prefix_addr m.destination.prefix);
        prefix_length = bits_word (net.prefix_bits m.destination.prefix);
      });
      next_hop = some (record {
        target_address = net.as_slice m.next_hop.target_address;
        target_vni = m.next_hop.target_vni;
        hop_type = m.next_hop.hop_type;
        nat_port_range_from = ports_of m.next_hop.hop_type m.next_hop.nat_port_range_from;
        nat_port_range_to = ports_of m.next_hop.hop_type m.next_hop.nat_port_range_to;
      });
    })

  -- the nil test of `Destination`
  unfoldable pub destination_of : Option PbDestination → Result (Destination P)
  destination_of none = err destination_nil
  destination_of (some d) = do
    ip ← or_error invalid_destination_ip (net.addr_from_slice d.prefix)
    ok (record {
      ip_version = version_of d.ip_version;
      prefix = net.prefix_from ip d.prefix_length;
    })

  -- a read through a nil `NextHop` panics
  unfoldable pub next_hop_of : Option PbNextHop → Result (NextHop A)
  next_hop_of none = crash
  next_hop_of (some h) = do
    address ← or_error invalid_next_hop_ip (net.addr_from_slice h.target_address)
    ok (record {
      target_address = address;
      target_vni = h.target_vni;
      hop_type = h.hop_type;
      nat_port_range_from = h.nat_port_range_from % 2 ^ 16;
      nat_port_range_to = h.nat_port_range_to % 2 ^ 16;
    })

  module _ (pr : Proto) where
    unfoldable pub serialize_update : MsgUpdate A P → Result (List ℕ)
    serialize_update m = do m' ← pb_update_of m; checked (pr.update.marshal m')

    unfoldable pub deserialize_update : List ℕ → Result (MsgUpdate A P)
    unfolding destination_of next_hop_of
    deserialize_update bytes = do
      m ← or_error cannot_unmarshal (pr.update.unmarshal bytes)
      destination ← destination_of m.destination
      next_hop ← next_hop_of m.next_hop
      ok (record {
        action = action_of m.action;
        vni = m.vni;
        destination = destination;
        next_hop = next_hop;
      })

    -- `Serialize` of the interface `message`
    unfoldable pub serialize : Message A P → Result (List ℕ)
    unfolding serialize_hello serialize_subscription serialize_update
    serialize (Message.hello m) = serialize_hello pr m
    serialize Message.keepalive = ok []
    serialize (Message.subscribe vni) = serialize_subscription pr vni
    serialize (Message.unsubscribe vni) = serialize_subscription pr vni
    serialize (Message.update m) = serialize_update m
