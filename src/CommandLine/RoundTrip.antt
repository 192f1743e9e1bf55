-- ===== src/CommandLine/RoundTrip.antt =====
-- cmd/metalbond/main.go: announcements in the documented format.
use metalbond.Base.{
  ℕ, ◌-◌, ◌^◌, ◌≡◌, Bool, true, false, not, ◌&&◌, Option, none, some, List, [], ◌∷◌, ◌++◌, arith,
  refl, if◌then◌else◌, ltb, leb, contains, nat_comparable,
}
use metalbond.Base.Text.{Text, codes, split, decimal, parse_uint, parse_int, to_unsigned}
use metalbond.Base.Text.Laws.{
  join, all_free, split-join, contains-decimal, parse_uint-decimal, parse_int-decimal,
}
use metalbond.Types.{NextHopType, standard, nat, loadbalancer_target, other_type}
use metalbond.Wire.Serialize.{is_nat}
use metalbond.Wire.Library.{Netip}
use metalbond.CommandLine.{
  NetipText, Outcome, ◌>>=◌, goes_on, stops, invalid_nat_from, invalid_nat_to, parts_of, port_range,
  hop_ports, parse_announcement, dest_of, hop_of, convert_cmd_line_str_to_enum_value,
}

-- the types that the documented format has a word for
abbrev pub kind_text : NextHopType → Text
kind_text standard = codes "STD"
kind_text loadbalancer_target = codes "LB"
kind_text nat = codes "NAT"
kind_text (other_type x) = []

abbrev pub has_word : NextHopType → Bool
has_word (other_type x) = false
has_word _ = true

convert-kind_text :
    (kind : NextHopType)
    → has_word kind ≡ true
    → convert_cmd_line_str_to_enum_value (kind_text kind) ≡ kind
unfolding convert_cmd_line_str_to_enum_value metalbond.Base.Text.lower_case
    metalbond.Base.Text.has_text
convert-kind_text standard e = refl
convert-kind_text loadbalancer_target e = refl
convert-kind_text nat e = refl
convert-kind_text (other_type x) e = absurd (ground (arith, e))

word_free : (kind : NextHopType) → contains (kind_text kind) b'#' ≡ false
unfolding contains metalbond.Base.ℕ_discrete
word_free standard = refl
word_free loadbalancer_target = refl
word_free nat = refl
word_free (other_type x) = refl

-- the ports of a printed NAT route
port_range-decimal :
    (from to : ℕ)
    → port_range (decimal from) (decimal to) ≡ (
        if not (ltb from (2 ^ 15))
        then stops invalid_nat_from
        else if not (ltb to (2 ^ 15))
        then stops invalid_nat_to
        else goes_on (from, to))
unfolding port_range to_unsigned
port_range-decimal from to = ground (arith, parse_int-decimal from, parse_int-decimal to)

-- what the ports of a printed route are read as
abbrev pub ports_written : NextHopType → ℕ → ℕ → Outcome (ℕ × ℕ)
ports_written kind from to =
    if not (is_nat kind)
    then goes_on (0, 0)
    else if not (ltb from (2 ^ 15))
    then stops invalid_nat_from
    else if not (ltb to (2 ^ 15))
    then stops invalid_nat_to
    else goes_on (from, to)

module _ {A P : Type 0} (net : Netip A P) (txt : NetipText net) where
  -- the parts of a printed announcement
  abbrev pub written_parts : P → A → NextHopType → ℕ → ℕ → List Text
  written_parts p a kind from to =
      txt.print_prefix p
      ∷ txt.print_addr a
      ∷ kind_text kind
      ∷ (if is_nat kind then decimal from ∷ decimal to ∷ [] else [])

  -- the documented format: vni#prefix#destHop#routeType, with #fromPort#toPort for NAT
  abbrev pub print_announcement : ℕ → P → A → NextHopType → ℕ → ℕ → Text
  print_announcement vni p a kind from to = join b'#' (decimal vni) (
      txt.print_prefix p
      ∷ txt.print_addr a
      ∷ kind_text kind
      ∷ (if is_nat kind then decimal from ∷ decimal to ∷ [] else []))

  parts_free :
      (vni : ℕ) (p : P) (a : A) (kind : NextHopType) (from to : ℕ) {bits : ℕ}
      → net.prefix_bits p ≡ some bits
      → net.has_zone a ≡ false
      → all_free b'#' (decimal vni ∷ written_parts p a kind from to) ≡ true
  unfolding contains
  parts_free vni p a kind from to k z =
      let free = λ (n : ℕ). contains-decimal n b'#' refl in
      ground (
        arith,
        free vni,
        free from,
        free to,
        txt.print_prefix-free p k,
        txt.print_addr-free a z,
        word_free kind,
      )

  parts_of-written_parts :
      (vni : ℕ) (p : P) (a : A) (kind : NextHopType) (from to : ℕ)
      → has_word kind ≡ true
      → parts_of (decimal vni ∷ written_parts p a kind from to)
        ≡ goes_on (
          (decimal vni, txt.print_prefix p, txt.print_addr a),
          kind,
          (if is_nat kind then some (decimal from, decimal to) else none),
        )
  unfolding parts_of
  parts_of-written_parts vni p a standard from to w = rw (convert-kind_text standard w) refl
  parts_of-written_parts vni p a loadbalancer_target from to w =
      rw (convert-kind_text loadbalancer_target w) refl
  parts_of-written_parts vni p a nat from to w = rw (convert-kind_text nat w) refl
  parts_of-written_parts vni p a (other_type x) from to w = absurd (ground (arith, w))

  -- An announcement that is written in the documented format, with a VNI of 24 bits, a valid prefix,
  -- a valid address with no zone and the word of its type, is read as that route: its version is
  -- that of the prefix and its target VNI is 0. The ports of a NAT route are read if both are below
  -- 2 ^ 15, and else the program stops with the error for the first one that is not.
  pub parse_announcement-print :
      (vni : ℕ) (p : P) (a : A) (kind : NextHopType) (from to : ℕ) {bits : ℕ}
      → ltb vni (2 ^ 24) ≡ true
      → net.prefix_bits p ≡ some bits
      → net.is_valid a ≡ true
      → net.has_zone a ≡ false
      → has_word kind ≡ true
      → parse_announcement net txt (print_announcement vni p a kind from to) ≡ (
          ports_written kind from to >>= λ range.
          goes_on (vni, dest_of net txt p, hop_of net txt a kind range))
  unfolding parse_announcement hop_ports
  parse_announcement-print vni p a kind from to v k i z w =
      let parts =
        split-join b'#' (decimal vni) (written_parts p a kind from to)
          (parts_free vni p a kind from to k z) in
      ground (
        arith,
        parts,
        parts_of-written_parts vni p a kind from to w,
        parse_uint-decimal 24 vni,
        v,
        txt.parse_prefix-print p k,
        txt.parse_addr-print a i,
        port_range-decimal from to,
      )
