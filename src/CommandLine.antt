-- ===== src/CommandLine.antt =====
-- cmd/metalbond/main.go and pb/util.go: what the command line program makes of its arguments. A text
-- is a list of bytes; `netip` is a parameter.
pub mod RoundTrip
pub mod Start
pub mod Program
pub mod Wait
pub mod Tables
pub mod Whole
pub mod Started
pub mod Running
use metalbond.Base.{
  ℕ, ◌-◌, ◌≡◌, Bool, true, false, Option, none, some, List, [], ◌∷◌, if◌then◌else◌, ltb, contains,
  nat_comparable,
}
use metalbond.Base.Text.{
  Text, codes, split, lower_case, has_text, parse_uint, parse_int, to_unsigned,
}
use metalbond.Base.Map.{Map, put}
use metalbond.Types.{
  ipv4, ipv6, Destination, NextHop, NextHopType, standard, nat, loadbalancer_target,
}
use metalbond.Wire.Serialize.{is_nat}
use metalbond.Wire.Library.{Netip}

-- `netip.ParseAddr`, `netip.ParsePrefix`, `Is4` and the two `String` methods, and what is documented
-- of them: a printed address or prefix is read back, and has no other byte than digits, letters,
-- `.`, `:` and `/` unless the address has a zone.
pub record NetipText {A P : Type 0} (net : Netip A P) : Type 0 where
  pub parse_addr : Text → Option A
  pub parse_prefix : Text → Option P
  pub is4 : A → Bool
  pub print_addr : A → Text
  pub print_prefix : P → Text
  pub parse_addr-print : (a : A) → net.is_valid a ≡ true → parse_addr (print_addr a) ≡ some a
  pub print_addr-free : (a : A) → net.has_zone a ≡ false → contains (print_addr a) b'#' ≡ false
  pub parse_prefix-print :
      (p : P) {n : ℕ} → net.prefix_bits p ≡ some n → parse_prefix (print_prefix p) ≡ some p
  pub print_prefix-free :
      (p : P) {n : ℕ} → net.prefix_bits p ≡ some n → contains (print_prefix p) b'#' ≡ false

-- the calls of `log.Fatalf`
pub data Fatal : Type 0 where
  malformed invalid_vni invalid_table invalid_prefix invalid_next_hop malformed_nat invalid_nat_from
        invalid_nat_to cannot_create_client subscription_failed announcement_failed peer_failed
        cannot_serve :
      Fatal

-- `ConvertCmdLineStrToEnumValue`
unfoldable pub convert_cmd_line_str_to_enum_value : Text → NextHopType
convert_cmd_line_str_to_enum_value route_type =
    if has_text (lower_case route_type) (codes "std")
    then standard
    else if has_text (lower_case route_type) (codes "lb")
    then loadbalancer_target
    else if has_text (lower_case route_type) (codes "nat")
    then nat
    else standard

-- the program goes on with a value, or ends in `log.Fatalf`
pub data Outcome (B : Type 0) : Type 0 where
  goes_on : B → Outcome B
  stops : Fatal → Outcome B

infixl 5 ◌>>=◌
abbrev pub ◌>>=◌ : {B C : Type 0} → Outcome B → (B → Outcome C) → Outcome C
goes_on b >>= f = f b
stops x >>= f = stops x

abbrev pub or_stop : {B : Type 0} → Fatal → Option B → Outcome B
or_stop x none = stops x
or_stop x (some b) = goes_on b

-- `InstallRoutes`: a VNI and a route table number have 24 bits
unfoldable pub mapping_of : List Text → Outcome (ℕ × ℕ)
mapping_of (v ∷ t ∷ []) = do
  vni ← or_stop invalid_vni (parse_uint 24 v)
  table ← or_stop invalid_table (parse_uint 24 t)
  goes_on (vni, table)
mapping_of _ = stops malformed

unfoldable pub vni_table_map : List Text → Map ℕ ℕ → Outcome (Map ℕ ℕ)
vni_table_map [] m = goes_on m
vni_table_map (mapping ∷ mappings) m = do
  (vni, table) ← mapping_of (split b'#' mapping)
  vni_table_map mappings (put m vni table)

-- the capacity of a channel: where the guard is set, what the flag says
unfoldable pub capacity : ℕ → ℕ → ℕ → ℕ
capacity guard flag default = if ltb 0 guard then flag else default

-- the parts of an announcement: the type is STANDARD where it is left out
abbrev pub Parts : Type 0
Parts = (Text × Text × Text) × NextHopType × Option (Text × Text)

unfoldable pub parts_of : List Text → Outcome Parts
parts_of (v ∷ p ∷ h ∷ []) = goes_on ((v, p, h), standard, none)
parts_of (v ∷ p ∷ h ∷ t ∷ []) = goes_on ((v, p, h), convert_cmd_line_str_to_enum_value t, none)
parts_of (v ∷ p ∷ h ∷ t ∷ from ∷ to ∷ []) =
    goes_on ((v, p, h), convert_cmd_line_str_to_enum_value t, some (from, to))
parts_of _ = stops malformed

-- the ports of a NAT hop, read as signed numbers of 16 bits and made unsigned
unfoldable pub port_range : Text → Text → Outcome (ℕ × ℕ)
port_range from to = do
  x ← or_stop invalid_nat_from (parse_int 16 from)
  y ← or_stop invalid_nat_to (parse_int 16 to)
  goes_on (to_unsigned 16 x, to_unsigned 16 y)

unfoldable pub hop_ports : NextHopType → Option (Text × Text) → Outcome (ℕ × ℕ)
hop_ports kind none = if is_nat kind then stops malformed_nat else goes_on (0, 0)
hop_ports kind (some (from, to)) = if is_nat kind then port_range from to else goes_on (0, 0)

module _ {A P : Type 0} (net : Netip A P) (txt : NetipText net) where
  abbrev pub dest_of : P → Destination P
  dest_of prefix = record {
    ip_version = if txt.is4 (net.prefix_addr prefix) then ipv4 else ipv6;
    prefix = prefix;
  }

  abbrev pub hop_of : A → NextHopType → ℕ × ℕ → NextHop A
  hop_of addr kind (from, to) = record {
    target_address = addr;
    target_vni = 0;
    hop_type = kind;
    nat_port_range_from = from;
    nat_port_range_to = to;
  }

  -- an element of `Announce`, up to the call of `AnnounceRoute`
  unfoldable pub parse_announcement : Text → Outcome (ℕ × Destination P × NextHop A)
  parse_announcement announcement = do
    ((v, p, h), kind, ports) ← parts_of (split b'#' announcement)
    vni ← or_stop invalid_vni (parse_uint 24 v)
    prefix ← or_stop invalid_prefix (txt.parse_prefix p)
    addr ← or_stop invalid_next_hop (txt.parse_addr h)
    range ← hop_ports kind ports
    goes_on (vni, dest_of prefix, hop_of addr kind range)
