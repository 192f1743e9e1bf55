-- ===== src/ArpSpoofer/Prefixes.antt =====
-- extras/arp_spoofer: which addresses `IPNet.Contains` finds in an IPv4 network.
use Prim.Native.Nat.{bit_and}
use mathlib.Core.Path.{subst}
use native.Mathlib.Nat.{one-le-pow, mul-lt-mul_of_pos_right}
use metalbond.Base.{
  ◌≢◌, ℕ, zero, suc, ◌-◌, ◌*◌, ◌/◌, ◌^◌, ◌≤◌, ◌<◌, ◌≡◌, refl, Bool, true, false, ◌&&◌, Option, none,
  some, [], ◌∷◌, length, drop, leb, ◌==◌, if◌then◌else◌, arith, ap, Option-cases, inl, inr,
  Bool-cases,
}
use metalbond.ArpSpoofer.Network.{
  Bytes, to4, cidr_mask, and_bytes, network_of, mask_for, network_number_and_mask, equal_masked,
  contains_ip, or_else,
}

-- the first `n` bits are the same
unfoldable pub same_bits : ℕ → Bytes → Bytes → Bool
same_bits n (x ∷ xs) (y ∷ ys) =
    let rest = same_bits (n - 8) xs ys in
    if leb 8 n then x == y && rest else x / 2 ^ (8 - n) == y / 2 ^ (8 - n)
same_bits n _ _ = true

abbrev pub AllBytes : Bytes → Type 0
AllBytes [] = Unit
AllBytes (x ∷ xs) = (x < 256) × AllBytes xs

-- what a mask of so many ones leaves of a byte, and that it does so once for all
is_cut_by : ℕ → ℕ → Bool
is_cut_by ones byte =
    let mask = 255 - 255 / 2 ^ ones in
    bit_and byte mask == byte / 2 ^ (8 - ones) * 2 ^ (8 - ones)
    && bit_and (bit_and byte mask) mask == bit_and byte mask

-- by a table of all the bytes and masks
module _ (test : ℕ → Bool) where
  passes_up_to : ℕ → Bool
  passes_up_to zero = true
  passes_up_to (suc top) = passes_up_to top && test top

  passes-below : (top k : ℕ) → k < top → passes_up_to top ≡ true → test k ≡ true
  unfolding passes_up_to
  passes-below zero k l e = absurd (omega arith)
  passes-below (suc top) k l e = ground (arith, passes-below top k, e)

cut_table : passes_up_to (λ ones. passes_up_to (is_cut_by ones) 256) 9 ≡ true
unfolding passes_up_to is_cut_by
cut_table = refl

cut_lem : (ones byte : ℕ) → ones ≤ 8 → byte < 256 → is_cut_by ones byte ≡ true
cut_lem ones byte h l =
    passes-below (is_cut_by ones) 256 byte l
      (passes-below (λ ones. passes_up_to (is_cut_by ones) 256) 9 ones (omega arith) cut_table)

mul_lt : (a b t : ℕ) → a < b → 0 < t → a * t < b * t
mul_lt a b t h k = mul-lt-mul_of_pos_right h k

mul_eq : (a b t : ℕ) → 0 < t → (a * t == b * t) ≡ (a == b)
mul_eq a b t h = ground (arith, mul_lt a b t, mul_lt b a t)

masked_byte :
    (n x y : ℕ)
    → n ≤ 8
    → x < 256
    → y < 256
    → (bit_and (bit_and x (255 - 255 / 2 ^ n)) (255 - 255 / 2 ^ n) == bit_and y (255 - 255 / 2 ^ n))
      ≡ (x / 2 ^ (8 - n) == y / 2 ^ (8 - n))
unfolding is_cut_by
masked_byte n x y h lx ly =
    let t = 2 ^ (8 - n) in
    ground (
      arith,
      cut_lem n x h lx,
      cut_lem n y h ly,
      mul_eq (x / t) (y / t) t (one-le-pow (8 - n) 2 (omega arith)),
    )

-- with no ones left nothing is compared
same_bits-zero : (xs ys : Bytes) → AllBytes xs → AllBytes ys → same_bits 0 xs ys ≡ true
unfolding same_bits
same_bits-zero [] ys h k = refl
same_bits-zero (x ∷ xs) [] h k = refl
same_bits-zero (x ∷ xs) (y ∷ ys) h k = ground (arith)

equal_masked-same_bits :
    (n : ℕ) (xs ys : Bytes)
    → length xs ≡ length ys
    → AllBytes xs
    → AllBytes ys
    → equal_masked (and_bytes xs (cidr_mask n (length xs))) (cidr_mask n (length xs)) ys
      ≡ same_bits n xs ys
unfolding equal_masked and_bytes cidr_mask same_bits
equal_masked-same_bits n [] ys e h k = refl
equal_masked-same_bits n (x ∷ xs) [] e h k = absurd (omega arith)
equal_masked-same_bits n (x ∷ xs) (y ∷ ys) e h k = elim (Bool-cases (leb 8 n)) [
  | inl f ↦ rw f (
      ground (arith, masked_byte 8 x y (omega arith) h.0 k.0, equal_masked-same_bits (n - 8) xs ys))
  | inr f ↦ rw f (
      ground (
        arith,
        masked_byte n x y (ground arith) h.0 k.0,
        equal_masked-same_bits 0 xs ys,
        same_bits-zero xs ys h.1 k.1,
      ))
]

length-cidr_mask : (n k : ℕ) → length (cidr_mask n k) ≡ k
unfolding cidr_mask
length-cidr_mask n zero = refl
length-cidr_mask n (suc k) = ground (arith, length-cidr_mask (n - 8) k, length-cidr_mask 0 k)

length-and_bytes : (xs ms : Bytes) → length xs ≡ length ms → length (and_bytes xs ms) ≡ length xs
unfolding and_bytes
length-and_bytes [] ms e = refl
length-and_bytes (x ∷ xs) [] e = absurd (omega arith)
length-and_bytes (x ∷ xs) (m ∷ ms) e = omega (arith, length-and_bytes xs ms)

AllBytes-drop : (n : ℕ) (xs : Bytes) → AllBytes xs → AllBytes (drop n xs)
AllBytes-drop zero xs h = h
AllBytes-drop (suc n) [] h = h
AllBytes-drop (suc n) (x ∷ xs) h = AllBytes-drop n xs h.1

length-drop : (n : ℕ) (xs : Bytes) → length (drop n xs) ≡ length xs - n
length-drop zero xs = omega arith
length-drop (suc n) [] = omega arith
length-drop (suc n) (x ∷ xs) = omega (arith, length-drop n xs)

to4-four : (ip : Bytes) → length ip ≡ 4 → to4 ip ≡ some ip
unfolding to4
to4-four ip e = ground arith

not_four : (ip : Bytes) → to4 ip ≡ none → length ip ≢ 4
unfolding to4
not_four ip e k = ground (arith, e, k)

to4_lem : (ip t : Bytes) → to4 ip ≡ some t → AllBytes ip → (length t ≡ 4) × AllBytes t
unfolding to4
to4_lem ip t e h = elim (Bool-cases (length ip == 4)) [
  | inl k ↦
      let same : ip ≡ t = ground (arith, e, k) in (ground (arith, same, k), subst AllBytes same h)
  | inr k ↦
      let same : drop 12 ip ≡ t = ground (arith, e, k) in
      (
        ground (arith, ap length same, length-drop 12 ip, k, e),
        subst AllBytes same (AllBytes-drop 12 ip h),
      )
]

-- the address in the four bytes of IPv4 has these first bits
abbrev pub has_bits : Bytes → ℕ → Option Bytes → Bool
has_bits addr ones none = false
has_bits addr ones (some t) = same_bits ones addr t

network_number :
    (addr : Bytes) (ones : ℕ)
    → length addr ≡ 4
    → network_number_and_mask (network_of addr ones)
      ≡ (and_bytes addr (cidr_mask ones (length addr)), cidr_mask ones (length addr))
unfolding network_number_and_mask network_of mask_for
network_number addr ones e =
    let m = cidr_mask ones (length addr) in
    ground (
      arith,
      to4-four (and_bytes addr m),
      length-and_bytes addr m,
      length-cidr_mask ones (length addr),
    )

-- IPNet.Contains, at the network of an IPv4 prefix, finds exactly the addresses that are an IPv4
-- address, in 4 bytes or in 16, whose first bits are those of the prefix, as many as its length.
pub contains_ip-prefix :
    (addr target : Bytes) (ones : ℕ)
    → length addr ≡ 4
    → AllBytes addr
    → AllBytes target
    → contains_ip (network_of addr ones) target ≡ has_bits addr ones (to4 target)
unfolding contains_ip or_else
contains_ip-prefix addr target ones e h k = elim (Option-cases (to4 target)) [
  | inl x ↦
      rw (x, contains_ip)
        (ground (
          arith,
          not_four target x,
          network_number addr ones e,
          length-and_bytes addr (cidr_mask ones (length addr)),
          length-cidr_mask ones (length addr),
        ))
  | inr (t, x) ↦
      rw (x, contains_ip)
        (ground (
          arith,
          to4_lem target t x k,
          network_number addr ones e,
          length-and_bytes addr (cidr_mask ones (length addr)),
          length-cidr_mask ones (length addr),
          equal_masked-same_bits ones addr t,
        ))
]
