-- ===== src/Examples/Codecs.antt =====
-- Concrete codecs for the protobuf messages: a message is the list of its fields, a field of variable
-- length behind its length, and one that may be missing behind a flag.
use mathlib.Core.Option.{some-injective}
use metalbond.Base.{
  ℕ, zero, suc, ◌≡◌, Bool, true, false, Option, none, some, List, [], ◌∷◌, ◌++◌, length, refl, take,
  drop, take-length-append, drop-length-append,
}
use metalbond.Types.{NextHopType, standard, nat, loadbalancer_target, other_type}
use metalbond.Wire.Library.{
  Proto, PbHello, PbSubscription, PbUpdate, PbDestination, PbNextHop, PbIpVersion, pb_ipv4, pb_ipv6,
  pb_other_version, PbAction, pb_add, pb_remove, pb_other_action,
}

abbrev Bytes : Type 0
Bytes = List ℕ

abbrev pub flag : Bool → ℕ
flag true = 1
flag false = 0

abbrev of_flag : ℕ → Bool
of_flag zero = false
of_flag (suc n) = true

abbrev action_code : PbAction → ℕ
action_code pb_add = 0
action_code pb_remove = 1
action_code (pb_other_action n) = suc (suc n)

abbrev of_action_code : ℕ → PbAction
of_action_code zero = pb_add
of_action_code (suc zero) = pb_remove
of_action_code (suc (suc n)) = pb_other_action n

abbrev version_code : PbIpVersion → ℕ
version_code pb_ipv4 = 0
version_code pb_ipv6 = 1
version_code (pb_other_version n) = suc (suc n)

abbrev of_version_code : ℕ → PbIpVersion
of_version_code zero = pb_ipv4
of_version_code (suc zero) = pb_ipv6
of_version_code (suc (suc n)) = pb_other_version n

abbrev type_code : NextHopType → ℕ
type_code standard = 0
type_code nat = 1
type_code loadbalancer_target = 2
type_code (other_type n) = suc (suc (suc n))

abbrev of_type_code : ℕ → NextHopType
of_type_code zero = standard
of_type_code (suc zero) = nat
of_type_code (suc (suc zero)) = loadbalancer_target
of_type_code (suc (suc (suc n))) = other_type n

flag_lem : (b : Bool) → of_flag (flag b) ≡ b
flag_lem true = refl
flag_lem false = refl

action_code_lem : (a : PbAction) → of_action_code (action_code a) ≡ a
action_code_lem pb_add = refl
action_code_lem pb_remove = refl
action_code_lem (pb_other_action n) = refl

version_code_lem : (v : PbIpVersion) → of_version_code (version_code v) ≡ v
version_code_lem pb_ipv4 = refl
version_code_lem pb_ipv6 = refl
version_code_lem (pb_other_version n) = refl

type_code_lem : (t : NextHopType) → of_type_code (type_code t) ≡ t
type_code_lem standard = refl
type_code_lem nat = refl
type_code_lem loadbalancer_target = refl
type_code_lem (other_type n) = refl

abbrev pub encode_hello : PbHello → Option Bytes
encode_hello m = some (m.keepalive_interval ∷ flag m.is_server ∷ [])

abbrev pub decode_hello : Bytes → Option PbHello
decode_hello (k ∷ s ∷ []) = some (record { keepalive_interval = k; is_server = of_flag s })
decode_hello _ = none

abbrev pub encode_subscription : PbSubscription → Option Bytes
encode_subscription m = some (m.vni ∷ [])

abbrev pub decode_subscription : Bytes → Option PbSubscription
decode_subscription (v ∷ []) = some (record { vni = v })
decode_subscription _ = none

abbrev encode_destination : Option PbDestination → Bytes
encode_destination none = 0 ∷ []
encode_destination (some d) =
    1 ∷ version_code d.ip_version ∷ d.prefix_length ∷ length d.prefix ∷ d.prefix

abbrev decode_destination : Bytes → Option (Option PbDestination × Bytes)
decode_destination (zero ∷ rest) = some (none, rest)
decode_destination (suc f ∷ v ∷ n ∷ len ∷ rest) = some (
  some (record { ip_version = of_version_code v; prefix = take len rest; prefix_length = n }),
  drop len rest,
)
decode_destination _ = none

abbrev encode_next_hop : Option PbNextHop → Bytes
encode_next_hop none = 0 ∷ []
encode_next_hop (some h) =
    1
    ∷ h.target_vni
    ∷ type_code h.hop_type
    ∷ h.nat_port_range_from
    ∷ h.nat_port_range_to
    ∷ h.target_address

abbrev decode_next_hop : Bytes → Option (Option PbNextHop)
decode_next_hop (zero ∷ []) = some none
decode_next_hop (suc f ∷ v ∷ t ∷ a ∷ b ∷ rest) = some (
    some (record {
      target_address = rest;
      target_vni = v;
      hop_type = of_type_code t;
      nat_port_range_from = a;
      nat_port_range_to = b;
    }))
decode_next_hop _ = none

abbrev pub encode_update : PbUpdate → Option Bytes
encode_update m = some (
    action_code m.action ∷ m.vni ∷ (encode_destination m.destination ++ encode_next_hop m.next_hop))

abbrev with_next_hop : ℕ → ℕ → Option PbDestination → Option (Option PbNextHop) → Option PbUpdate
with_next_hop a v d none = none
with_next_hop a v d (some h) =
    some (record { action = of_action_code a; vni = v; destination = d; next_hop = h })

abbrev with_destination : ℕ → ℕ → Option (Option PbDestination × Bytes) → Option PbUpdate
with_destination a v none = none
with_destination a v (some (d, rest)) = with_next_hop a v d (decode_next_hop rest)

abbrev pub decode_update : Bytes → Option PbUpdate
decode_update (a ∷ v ∷ rest) = with_destination a v (decode_destination rest)
decode_update _ = none

decode_destination-encode :
    (d : Option PbDestination) (rest : Bytes)
    → decode_destination (encode_destination d ++ rest) ≡ some (d, rest)
decode_destination-encode none rest = refl
decode_destination-encode (some d) rest = rw (
  version_code_lem d.ip_version,
  take-length-append d.prefix rest,
  drop-length-append d.prefix rest,
)

decode_next_hop-encode : (h : Option PbNextHop) → decode_next_hop (encode_next_hop h) ≡ some h
decode_next_hop-encode none = refl
decode_next_hop-encode (some h) = rw (type_code_lem h.hop_type)

pub decode_hello_lem :
    (m : PbHello) (bytes : Bytes) → encode_hello m ≡ some bytes → decode_hello bytes ≡ some m
decode_hello_lem m bytes h = rw (← some-injective _ _ h) (rw (flag_lem m.is_server))

pub decode_subscription_lem :
    (m : PbSubscription) (bytes : Bytes)
    → encode_subscription m ≡ some bytes
    → decode_subscription bytes ≡ some m
decode_subscription_lem m bytes h = rw (← some-injective _ _ h)

pub decode_update_lem :
    (m : PbUpdate) (bytes : Bytes) → encode_update m ≡ some bytes → decode_update bytes ≡ some m
decode_update_lem m bytes h = rw (← some-injective _ _ h) (
    rw (
      decode_destination-encode m.destination (encode_next_hop m.next_hop),
      decode_next_hop-encode m.next_hop,
      action_code_lem m.action,
    ))

abbrev pub test_proto : Proto
test_proto = record {
  hello = record {
    marshal = encode_hello;
    unmarshal = decode_hello;
    unmarshal-marshal = decode_hello_lem;
  };
  subscription = record {
    marshal = encode_subscription;
    unmarshal = decode_subscription;
    unmarshal-marshal = decode_subscription_lem;
  };
  update = record {
    marshal = encode_update;
    unmarshal = decode_update;
    unmarshal-marshal = decode_update_lem;
  };
}
