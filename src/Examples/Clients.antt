-- ===== src/Examples/Clients.antt =====
-- cmd/metalbond/main.go: the command line of a client, with addresses that are printed byte by byte.
use metalbond.Base.{
  ℕ, ◌+◌, ◌-◌, ◌^◌, ◌==◌, ◌≡◌, Bool, true, false, Option, some, none, List, [], ◌∷◌, ◌++◌, map,
  length, ltb, contains, refl, arith, is_some, nat_comparable, ap, ◌||◌,
}
use metalbond.Base.Text.{Text, codes}
use metalbond.Types.{
  standard, nat, destination_comparable, next_hop_comparable, loadbalancer_target,
}
use metalbond.CommandLine.{
  NetipText, goes_on, ◌>>=◌, parse_announcement, dest_of, hop_of, port_range,
  convert_cmd_line_str_to_enum_value,
}
use metalbond.CommandLine.RoundTrip.{parse_announcement-print, print_announcement, ports_written}
use metalbond.CommandLine.Start.{server_capacities}
use metalbond.CommandLine.Running.{Route}
use metalbond.Examples.Hosts.{Bytes, TestPrefix, bytes_comparable, prefix_comparable, test_netip}

-- the bytes of an address, moved to where no `#` is
abbrev pub print_bytes : Bytes → Text
print_bytes [] = []
print_bytes (b ∷ bs) = (b + 64) ∷ print_bytes bs

abbrev pub read_bytes : Text → Bytes
read_bytes [] = []
read_bytes (c ∷ s) = (c - 64) ∷ read_bytes s

abbrev pub print_prefix : TestPrefix → Text
print_prefix (a, n) = (n + 64) ∷ print_bytes a

abbrev pub read_prefix : Text → Option TestPrefix
read_prefix [] = none
read_prefix (c ∷ s) = some (read_bytes s, c - 64)

pub read_bytes-print_bytes : (bs : Bytes) → read_bytes (print_bytes bs) ≡ bs
read_bytes-print_bytes [] = refl
read_bytes-print_bytes (b ∷ bs) = ground (arith, read_bytes-print_bytes bs)

pub print_bytes-free : (bs : Bytes) → contains (print_bytes bs) b'#' ≡ false
unfolding contains
print_bytes-free [] = refl
print_bytes-free (b ∷ bs) = ground (arith, print_bytes-free bs)

pub read_prefix-print_prefix : (p : TestPrefix) → read_prefix (print_prefix p) ≡ some p
read_prefix-print_prefix (a, n) = ground (arith, read_bytes-print_bytes a)

pub print_prefix-free : (p : TestPrefix) → contains (print_prefix p) b'#' ≡ false
unfolding contains
print_prefix-free (a, n) =
    let below : contains (print_bytes a) b'#' ≡ false = unfold contains in print_bytes-free a in
    ground (arith, below)

abbrev pub txt : NetipText test_netip
txt = record {
  parse_addr = λ s. some (read_bytes s);
  parse_prefix = read_prefix;
  is4 = λ a. length a == 4;
  print_addr = print_bytes;
  print_prefix = print_prefix;
  parse_addr-print = λ a h. ap some (read_bytes-print_bytes a);
  print_addr-free = λ a h. print_bytes-free a;
  parse_prefix-print = λ p {n} h. read_prefix-print_prefix p;
  print_prefix-free = λ p {n} h. print_prefix-free p;
}

abbrev pub prefix : TestPrefix
prefix = (10 ∷ 0 ∷ 0 ∷ 0 ∷ [], 24)

abbrev pub addr : Bytes
addr = 10 ∷ 9 ∷ 8 ∷ 7 ∷ []

parse_announcement-print_example :
    parse_announcement test_netip txt
      (print_announcement test_netip txt 23 prefix addr nat 1024 40000)
    ≡ (ports_written nat 1024 40000 >>= λ range.
        goes_on (23, dest_of test_netip txt prefix, hop_of test_netip txt addr nat range))
parse_announcement-print_example =
    parse_announcement-print test_netip txt 23 prefix addr nat 1024 40000 refl refl refl refl refl

-- the announcement of the prefix in the VNI 23, and the route that it is
abbrev pub announcement : Text
announcement = print_announcement test_netip txt 23 prefix addr standard 0 0

abbrev pub route : Route Bytes TestPrefix
route = (23, dest_of test_netip txt prefix, hop_of test_netip txt addr standard (0, 0))

-- the capacity for events alone makes the one for updates 0, and the one for updates alone does nothing
capacities :
    (server_capacities 0 20 0 ≡ (2048, 20, 0)) × (server_capacities 0 0 20 ≡ (2048, 10, 100))
unfolding server_capacities metalbond.CommandLine.capacity
capacities = (refl, refl)

-- a negative port wraps
negative_port : port_range (codes "-1") (codes "22") ≡ goes_on (65535, 22)
unfolding port_range metalbond.Base.Text.parse_int metalbond.Base.Text.parse_uint
    metalbond.Base.Text.negative metalbond.Base.Text.positive metalbond.Base.Text.fits
    metalbond.Base.Text.number_from metalbond.Base.Text.to_unsigned
negative_port = refl

-- other words than the documented ones are read as a type
loose_words :
    (convert_cmd_line_str_to_enum_value (codes "Bnat-lb") ≡ loadbalancer_target)
    × (convert_cmd_line_str_to_enum_value (codes "typo") ≡ standard)
unfolding convert_cmd_line_str_to_enum_value metalbond.Base.Text.lower_case
    metalbond.Base.Text.has_text
loose_words = (refl, refl)
