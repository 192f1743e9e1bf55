-- ===== src/Examples/Hosts.antt =====
-- Concrete parameters, at which the theorems' hypotheses about other packages hold: an address is its
-- bytes, a prefix an address with its bits, and a message is marshalled field by field.
use metalbond.Base.{
  ℕ, ◌≤◌, ◌≡◌, Bool, true, false, ◌&&◌, ◌||◌, Option, none, some, List, length, leb, ◌==◌,
  if◌then◌else◌, arith, refl, Comparable, ℕ_discrete,
}
use metalbond.Wire.Library

abbrev pub Bytes : Type 0
Bytes = List ℕ

unfoldable pub Bytes-discrete : Discrete Bytes
Bytes-discrete = hlevel ℕ_discrete

instance abbrev pub bytes_comparable : Comparable Bytes
bytes_comparable = record { equals = Bytes-discrete }

abbrev pub TestPrefix : Type 0
TestPrefix = Bytes × ℕ

unfoldable pub TestPrefix-discrete : Discrete TestPrefix
TestPrefix-discrete = hlevel (Bytes-discrete, ℕ_discrete)

instance abbrev pub prefix_comparable : Comparable TestPrefix
prefix_comparable = record { equals = TestPrefix-discrete }

abbrev pub is_address : Bytes → Bool
is_address bs = length bs == 4 || length bs == 16

abbrev pub prefix_bits : TestPrefix → Option ℕ
prefix_bits p = if is_address p.0 && leb p.1 128 then some p.1 else none

abbrev pub addr_from_slice : Bytes → Option Bytes
addr_from_slice bs = if is_address bs then some bs else none

pub bits_valid : (p : TestPrefix) {n : ℕ} → prefix_bits p ≡ some n → is_address p.0 ≡ true
bits_valid p h = ground arith

pub bits_le : (p : TestPrefix) {n : ℕ} → prefix_bits p ≡ some n → n ≤ 128
bits_le p h = ground arith

pub bits_parts : (p : TestPrefix) {n : ℕ} → prefix_bits p ≡ some n → (p.0, n) ≡ p
bits_parts p h = ground arith

pub slice_valid : (bs : Bytes) → is_address bs ≡ true → false ≡ false → addr_from_slice bs ≡ some bs
slice_valid bs h z = ground arith

abbrev pub test_netip : Library.Netip Bytes TestPrefix
test_netip = record {
  addr_from_slice = addr_from_slice;
  as_slice = λ a. a;
  is_valid = is_address;
  has_zone = λ a. false;
  prefix_from = λ a n. (a, n);
  prefix_addr = λ p. p.0;
  prefix_bits = prefix_bits;
  addr_from_slice-as_slice = slice_valid;
  prefix_addr-valid = bits_valid;
  prefix_addr-zone = λ p h. refl;
  prefix_bits-le = bits_le;
  prefix_from-parts = bits_parts;
}
