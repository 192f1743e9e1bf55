-- ===== src/Base/Text/Laws.antt =====
-- Splitting against joining, and reading numbers against printing them.
use metalbond.Base.Tests.{ltb, leb, if◌then◌else◌, nat_comparable}
use metalbond.Base.Lists.{contains}
use Prim.Native.Nat.{ℕ, zero, suc, ◌+◌, ◌/◌, ◌%◌, ◌^◌, ◌≤◌}
use mathlib.Core.Path.{◌≡◌, refl}
use mathlib.Core.Bool.{Bool, true, false, not, ◌&&◌}
use mathlib.Core.Option.{none, some}
use mathlib.Core.List.{List, [], ◌∷◌, ◌++◌}
use native.Mathlib.Omega.{arith}
use metalbond.Base.Text.{
  Text, split, number_from, fits, positive, parse_uint, parse_int, digits, decimal,
}

-- the parts with the separator between them
abbrev pub join : ℕ → Text → List Text → Text
join sep w [] = w
join sep w (v ∷ vs) = w ++ sep ∷ join sep v vs

-- no part has the separator in it
abbrev pub all_free : ℕ → List Text → Bool
all_free sep [] = true
all_free sep (w ∷ ws) = let rest = all_free sep ws in not (contains w sep) && rest

split-free : (sep : ℕ) (w : Text) → contains w sep ≡ false → split sep w ≡ w ∷ []
unfolding split contains
split-free sep [] h = refl
split-free sep (c ∷ w) h = ground (arith, split-free sep w, h)

split-append :
    (sep : ℕ) (w s : Text) → contains w sep ≡ false → split sep (w ++ sep ∷ s) ≡ w ∷ split sep s
unfolding split contains
split-append sep [] s h = ground arith
split-append sep (c ∷ w) s h = ground (arith, split-append sep w s, h)

pub split-join :
    (sep : ℕ) (w : Text) (ws : List Text)
    → all_free sep (w ∷ ws) ≡ true
    → split sep (join sep w ws) ≡ w ∷ ws
split-join sep w [] h = split-free sep w (ground (arith, h))
split-join sep w (v ∷ vs) h =
    ground (arith, split-append sep w (join sep v vs), split-join sep v vs, h)

number_from-digits : (f n : ℕ) (s : Text) → n ≤ f → number_from 0 (digits f n s) ≡ number_from n s
unfolding number_from digits
number_from-digits zero n s h = ground arith
number_from-digits (suc f) n s h =
    ground (arith, number_from-digits f (n / 10) ((n % 10 + b'0') ∷ s))

contains-digits :
    (f n c : ℕ) (s : Text) → leb b'0' c ≡ false → contains (digits f n s) c ≡ contains s c
unfolding digits contains
contains-digits zero n c s h = ground arith
contains-digits (suc f) n c s h =
    ground (arith, h, contains-digits f (n / 10) c ((n % 10 + b'0') ∷ s))

-- a printed number has none of the bytes below its digits, such as `#`
pub contains-decimal : (n c : ℕ) → leb b'0' c ≡ false → contains (decimal n) c ≡ false
unfolding contains decimal
contains-decimal n c h = contains-digits n n c [] h

parse_uint-digits :
    (bits f n : ℕ) (s : Text)
    → parse_uint bits (digits f n s) ≡ fits bits (number_from 0 (digits f n s))
unfolding digits parse_uint
parse_uint-digits bits zero n s = refl
parse_uint-digits bits (suc f) n s =
    ground (arith, parse_uint-digits bits f (n / 10) ((n % 10 + b'0') ∷ s))

pub parse_uint-decimal :
    (bits n : ℕ) → parse_uint bits (decimal n) ≡ (if ltb n (2 ^ bits) then some n else none)
unfolding decimal fits number_from
parse_uint-decimal bits n = ground (arith, parse_uint-digits bits n n [], number_from-digits n n [])

parse_int-digits :
    (bits f n : ℕ) (s : Text)
    → parse_int bits (digits f n s) ≡ positive bits (parse_uint bits (digits f n s))
unfolding digits parse_int
parse_int-digits bits zero n s = ground arith
parse_int-digits bits (suc f) n s =
    ground (arith, parse_int-digits bits f (n / 10) ((n % 10 + b'0') ∷ s))

-- a number of 16 bits is read only if its highest bit is not set
pub parse_int-decimal :
    (n : ℕ) → parse_int 16 (decimal n) ≡ (if ltb n (2 ^ 15) then some (false, n) else none)
unfolding decimal positive
parse_int-decimal n =
    let read : parse_uint 16 (digits n n []) ≡ (if ltb n (2 ^ 16) then some n else none) =
      unfold decimal in parse_uint-decimal 16 n in
    ground (arith, parse_int-digits 16 n n [], read)
