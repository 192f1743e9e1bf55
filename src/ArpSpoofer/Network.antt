-- ===== src/ArpSpoofer/Network.antt =====
-- extras/arp_spoofer: what the program uses of Go's `net`: `IP.To4`, `CIDRMask`, the network that
-- `ParseCIDR` makes of an address and a length, and `IPNet.Contains`.
use Prim.Native.Nat.{bit_and}
use metalbond.Base.{
  ℕ, zero, suc, ◌-◌, ◌/◌, ◌^◌, Bool, true, false, ◌&&◌, Option, none, some, List, [], ◌∷◌, length,
  drop, leb, ◌==◌, if◌then◌else◌,
}

abbrev pub Bytes : Type 0
Bytes = List ℕ

pub record IpNet : Type 0 where
  pub ip : Bytes
  pub mask : Bytes

-- the ten zeros and two 255s before an IPv4 address in an IPv6 address
is_v4_prefix : Bytes → ℕ → Bool
is_v4_prefix (x ∷ xs) (suc n) = x == 0 && is_v4_prefix xs n
is_v4_prefix (a ∷ b ∷ xs) zero = a == 255 && b == 255
is_v4_prefix _ _ = false

unfoldable pub to4 : Bytes → Option Bytes
unfolding is_v4_prefix
to4 ip =
    if length ip == 4
    then some ip
    else if length ip == 16 && is_v4_prefix ip 10
    then some (drop 12 ip)
    else none

-- `CIDRMask`: so many ones, in so many bytes
unfoldable pub cidr_mask : ℕ → ℕ → Bytes
cidr_mask ones zero = []
cidr_mask ones (suc k) =
    let full = 255 ∷ cidr_mask (ones - 8) k in
    let last = (255 - 255 / 2 ^ ones) ∷ cidr_mask 0 k in if leb 8 ones then full else last

unfoldable pub and_bytes : Bytes → Bytes → Bytes
and_bytes (x ∷ xs) (m ∷ ms) = bit_and x m ∷ and_bytes xs ms
and_bytes _ _ = []

-- the network of `ParseCIDR`, from the 4 or 16 bytes of the address and the length of the prefix
unfoldable pub network_of : Bytes → ℕ → IpNet
network_of addr ones =
    let mask = cidr_mask ones (length addr) in record { ip = and_bytes addr mask; mask = mask }

-- `networkNumberAndMask`, with two empty slices for nil
unfoldable pub mask_for : Bytes → Bytes → Bytes × Bytes
mask_for ip mask =
    if length mask == 4
    then if length ip == 4 then (ip, mask) else ([], [])
    else if length mask == 16
    then if length ip == 4 then (ip, drop 12 mask) else (ip, mask)
    else ([], [])

unfoldable pub network_number_and_mask : IpNet → Bytes × Bytes
network_number_and_mask net = elim (to4 net.ip) [
  | some ip ↦ mask_for ip net.mask
  | none ↦ if length net.ip == 16 then mask_for net.ip net.mask else ([], [])
]

-- the loop of `Contains`; the mask is as long as the number
unfoldable pub equal_masked : Bytes → Bytes → Bytes → Bool
equal_masked (n ∷ ns) (m ∷ ms) (x ∷ xs) =
    let rest = equal_masked ns ms xs in bit_and n m == bit_and x m && rest
equal_masked _ _ _ = true

unfoldable pub or_else : Option Bytes → Bytes → Bytes
or_else none ip = ip
or_else (some ip4) ip = ip4

unfoldable pub contains_ip : IpNet → Bytes → Bool
contains_ip net target =
    let ip = or_else (to4 target) target in
    let (number, mask) = network_number_and_mask net in
    if length ip == length number then equal_masked number mask ip else false
