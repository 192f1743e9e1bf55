-- ===== src/Types.antt =====
-- types.go: the data that the other parts share. A VNI and the other unsigned integers of the source
-- are numbers. `netip.Addr` and `netip.Prefix` are the parameters `A` and `P`.
pub mod Strings
use metalbond.Base.{ℕ, Comparable, ℕ_discrete, Bool}

-- `IPVersion`; the type is a `uint8`, so it has other values
pub data IpVersion : Type 0 where
  ipv4 ipv6 : IpVersion
  other_version : ℕ → IpVersion

-- `pb.NextHopType`; a protobuf enum keeps numbers that it has no name for
pub data NextHopType : Type 0 where
  standard nat loadbalancer_target : NextHopType
  other_type : ℕ → NextHopType

pub record Destination (P : Type 0) : Type 0 where
  pub ip_version : IpVersion
  pub prefix : P

pub record NextHop (A : Type 0) : Type 0 where
  pub target_address : A
  pub target_vni : ℕ
  pub hop_type : NextHopType
  pub nat_port_range_from : ℕ
  pub nat_port_range_to : ℕ

pub data ConnectionDirection : Type 0 where
  incoming outgoing : ConnectionDirection

pub data ConnectionState : Type 0 where
  connecting hello_sent hello_received established retry closed : ConnectionState

-- `UpdateAction`; a `uint8` too
pub data UpdateAction : Type 0 where
  add remove : UpdateAction
  other_action : ℕ → UpdateAction

pub record MsgHello : Type 0 where
  pub keepalive_interval : ℕ
  pub is_server : Bool

pub record MsgUpdate (A P : Type 0) : Type 0 where
  pub action : UpdateAction
  pub vni : ℕ
  pub destination : Destination P
  pub next_hop : NextHop A

-- the message types behind the interface `message`
pub data Message (A P : Type 0) : Type 0 where
  hello : MsgHello → Message A P
  keepalive : Message A P
  subscribe unsubscribe : ℕ → Message A P
  update : MsgUpdate A P → Message A P

unfoldable pub IpVersion-discrete : Discrete IpVersion
IpVersion-discrete = hlevel ℕ_discrete

unfoldable pub NextHopType-discrete : Discrete NextHopType
NextHopType-discrete = hlevel ℕ_discrete

unfoldable pub ConnectionState-discrete : Discrete ConnectionState
ConnectionState-discrete = hlevel

instance abbrev pub state_comparable : Comparable ConnectionState
state_comparable = record { equals = ConnectionState-discrete }

unfoldable pub Destination-discrete : {P : Type 0} ⦃c : Comparable P⦄ → Discrete (Destination P)
Destination-discrete ⦃c⦄ = hlevel (c.equals, IpVersion-discrete)

instance abbrev pub destination_comparable :
    {P : Type 0} ⦃c : Comparable P⦄ → Comparable (Destination P)
destination_comparable = record { equals = Destination-discrete }

unfoldable pub NextHop-discrete : {A : Type 0} ⦃c : Comparable A⦄ → Discrete (NextHop A)
NextHop-discrete ⦃c⦄ = hlevel (c.equals, NextHopType-discrete, ℕ_discrete)

instance abbrev pub next_hop_comparable : {A : Type 0} ⦃c : Comparable A⦄ → Comparable (NextHop A)
next_hop_comparable = record { equals = NextHop-discrete }
