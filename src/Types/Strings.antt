-- ===== src/Types/Strings.antt =====
-- types.go: the `String` methods, which the logs and the order of the web pages use, and `MarshalText`
-- of a destination. The texts of `netip` are arguments.
use metalbond.Base.{
  ℕ, ◌≡◌, refl, arith, Bool, true, false, not, ◌&&◌, ◌||◌, [], ◌∷◌, ◌++◌, ltb, ◌==◌, if◌then◌else◌,
}
use metalbond.Base.Text.{Text, codes, decimal}
use metalbond.Types.{
  IpVersion, ipv4, ipv6, other_version, Destination, NextHop, ConnectionState, connecting,
  hello_sent, hello_received, established, retry, closed,
}

module _ {A : Type 0} (print_addr : A → Text) where
  unfoldable pub next_hop_string : NextHop A → Text
  next_hop_string h =
      if not (h.target_vni == 0)
      then print_addr h.target_address ++ (codes " (VNI: " ++ (decimal h.target_vni ++ codes ")"))
      else print_addr h.target_address

module _ {P : Type 0} (print_prefix : P → Text) where
  unfoldable pub destination_string : Destination P → Text
  destination_string d = print_prefix d.prefix

  -- the number of an `IPVersion`
  abbrev pub version_number : IpVersion → ℕ
  version_number ipv4 = 4
  version_number ipv6 = 6
  version_number (other_version n) = n

  -- the struct as JSON; the text of a prefix has no byte that JSON escapes
  unfoldable pub marshal_text : Destination P → Text
  marshal_text d =
      codes "{\"IPVersion\":"
      ++ (decimal (version_number d.ip_version)
          ++ (codes ",\"Prefix\":\"" ++ (print_prefix d.prefix ++ codes "\"}")))

unfoldable pub state_string : ConnectionState → Text
state_string connecting = codes "CONNECTING"
state_string hello_sent = codes "HELLO_SENT"
state_string hello_received = codes "HELLO_RECEIVED"
state_string established = codes "ESTABLISHED"
state_string retry = codes "RETRY"
state_string closed = codes "CLOSED"

-- `<` on Go's strings
unfoldable pub text_less : Text → Text → Bool
text_less s [] = false
text_less [] (d ∷ t) = true
text_less (c ∷ s) (d ∷ t) = let rest = text_less s t in ltb c d || (c == d && rest)

pub text_less-asym : (s t : Text) → text_less s t ≡ true → text_less t s ≡ false
unfolding text_less
text_less-asym s [] h = cc
text_less-asym [] (d ∷ t) h = refl
text_less-asym (c ∷ s) (d ∷ t) h = ground (arith, text_less-asym s t)
