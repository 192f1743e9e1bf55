-- ===== src/Wire/Library.antt =====
-- What types.go takes from outside this repository: package `net/netip`, and the marshalling of the
-- messages that pb/metalbond.proto declares by google.golang.org/protobuf. Both are parameters. Their
-- laws are the documented ones, as far as the code relies on them. A byte string is a list of numbers.
use metalbond.Base.{ℕ, ◌≤◌, ◌≡◌, Bool, true, false, Option, some, List}
use metalbond.Types.{NextHopType}

-- `netip.Addr` and `netip.Prefix` are comparable; the Comparable instances of `A` and `P` say so.
pub record Netip (A P : Type 0) : Type 0 where
  pub addr_from_slice : List ℕ → Option A
  pub as_slice : A → List ℕ
  pub is_valid : A → Bool
  pub has_zone : A → Bool
  pub prefix_from : A → ℕ → P
  pub prefix_addr : P → A
  -- `Bits()`; `none` is the -1 of an invalid prefix
  pub prefix_bits : P → Option ℕ
  -- the 4 or 16 bytes of an address have all of it but the zone
  pub addr_from_slice-as_slice :
      (a : A) → is_valid a ≡ true → has_zone a ≡ false → addr_from_slice (as_slice a) ≡ some a
  -- a valid prefix has a valid address with no zone, at most 128 bits, and is made of these
  pub prefix_addr-valid : (p : P) {n : ℕ} → prefix_bits p ≡ some n → is_valid (prefix_addr p) ≡ true
  pub prefix_addr-zone : (p : P) {n : ℕ} → prefix_bits p ≡ some n → has_zone (prefix_addr p) ≡ false
  pub prefix_bits-le : (p : P) {n : ℕ} → prefix_bits p ≡ some n → n ≤ 128
  pub prefix_from-parts :
      (p : P) {n : ℕ} → prefix_bits p ≡ some n → prefix_from (prefix_addr p) n ≡ p

pub data PbIpVersion : Type 0 where
  pb_ipv4 pb_ipv6 : PbIpVersion
  pb_other_version : ℕ → PbIpVersion

pub data PbAction : Type 0 where
  pb_add pb_remove : PbAction
  pb_other_action : ℕ → PbAction

pub record PbHello : Type 0 where
  pub keepalive_interval : ℕ
  pub is_server : Bool

pub record PbSubscription : Type 0 where
  pub vni : ℕ

pub record PbDestination : Type 0 where
  pub ip_version : PbIpVersion
  pub prefix : List ℕ
  pub prefix_length : ℕ

pub record PbNextHop : Type 0 where
  pub target_address : List ℕ
  pub target_vni : ℕ
  pub hop_type : NextHopType
  pub nat_port_range_from : ℕ
  pub nat_port_range_to : ℕ

-- the fields of message type are pointers, nil where the message on the wire lacks them
pub record PbUpdate : Type 0 where
  pub action : PbAction
  pub vni : ℕ
  pub destination : Option PbDestination
  pub next_hop : Option PbNextHop

-- `proto.Marshal` and `proto.Unmarshal` at one message type; `none` is an error. Numbers that no Go
-- value of the field's type has (2^32 in a `uint32`) count as an error of `marshal`.
pub record Codec (M : Type 0) : Type 0 where
  pub marshal : M → Option (List ℕ)
  pub unmarshal : List ℕ → Option M
  -- what was marshalled is read back
  pub unmarshal-marshal :
      (m : M) (bytes : List ℕ) → marshal m ≡ some bytes → unmarshal bytes ≡ some m

pub record Proto : Type 0 where
  pub hello : Codec PbHello
  pub subscription : Codec PbSubscription
  pub update : Codec PbUpdate
