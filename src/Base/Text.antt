-- ===== src/Base/Text.antt =====
-- What the command line program uses of Go's `strings` and `strconv`, on texts as lists of bytes.
pub mod Laws
use Prim.Native.Char.{code}
use Prim.Native.String.{String}
use metalbond.Base.Tests.{ltb, leb, ◌==◌, if◌then◌else◌}
use metalbond.Base.Lists.{contains}
use Prim.Native.Nat.{ℕ, zero, suc, ◌+◌, ◌-◌, ◌*◌, ◌/◌, ◌%◌, ◌^◌, ◌≤◌}
use mathlib.Core.Path.{◌≡◌, refl}
use mathlib.Core.Bool.{Bool, true, false, not, ◌&&◌, ◌||◌}
use mathlib.Core.Option.{Option, none, some}
use mathlib.Core.List.{List, [], ◌∷◌, ◌++◌, map}
use native.Mathlib.Omega.{arith}

abbrev pub Text : Type 0
Text = List ℕ

-- the bytes of an ASCII text
abbrev pub codes : String → Text
codes String.[] = []
codes (String.◌∷◌ c s) = code c ∷ codes s

-- `strings.Split` at a separator of one byte
abbrev onto_first : ℕ → List Text → List Text
onto_first c [] = (c ∷ []) ∷ []
onto_first c (w ∷ ws) = (c ∷ w) ∷ ws

unfoldable pub split : ℕ → Text → List Text
split sep [] = [] ∷ []
split sep (c ∷ s) = let rest = split sep s in if c == sep then [] ∷ rest else onto_first c rest

-- `strings.ToLower`, on the letters that have one byte; no other capital has one of these as its
-- small letter but the Kelvin sign, a k
to_lower : ℕ → ℕ
to_lower c = if leb b'A' c && leb c b'Z' then c + 32 else c

unfoldable pub lower_case : Text → Text
unfolding to_lower
lower_case s = map to_lower s

-- `strings.Contains`
starts_with : Text → Text → Bool
starts_with s [] = true
starts_with [] (w ∷ ws) = false
starts_with (c ∷ s) (w ∷ ws) = let rest = starts_with s ws in c == w && rest

unfoldable pub has_text : Text → Text → Bool
unfolding starts_with
has_text [] w = starts_with [] w
has_text (c ∷ s) w = let rest = has_text s w in starts_with (c ∷ s) w || rest

-- `strconv.ParseUint` in base 10: digits only, at least one, and a number of so many bits
is_digit : ℕ → Bool
is_digit c = leb b'0' c && leb c b'9'

unfoldable pub number_from : ℕ → Text → Option ℕ
unfolding is_digit
number_from n [] = some n
number_from n (c ∷ s) =
    let rest = number_from (n * 10 + (c - b'0')) s in if is_digit c then rest else none

unfoldable pub fits : ℕ → Option ℕ → Option ℕ
fits bits none = none
fits bits (some n) = if ltb n (2 ^ bits) then some n else none

unfoldable pub parse_uint : ℕ → Text → Option ℕ
unfolding fits
parse_uint bits [] = none
parse_uint bits (c ∷ s) = fits bits (number_from 0 (c ∷ s))

-- `strconv.ParseInt` in base 10: the flag says that the number is negative
unfoldable pub positive : ℕ → Option ℕ → Option (Bool × ℕ)
positive bits none = none
positive bits (some n) = if ltb n (2 ^ (bits - 1)) then some (false, n) else none

unfoldable pub negative : ℕ → Option ℕ → Option (Bool × ℕ)
negative bits none = none
negative bits (some n) = if leb n (2 ^ (bits - 1)) then some (true, n) else none

unfoldable pub parse_int : ℕ → Text → Option (Bool × ℕ)
unfolding positive negative
parse_int bits [] = none
parse_int bits (c ∷ s) =
    if c == b'-'
    then negative bits (parse_uint bits s)
    else if c == b'+'
    then positive bits (parse_uint bits s)
    else positive bits (parse_uint bits (c ∷ s))

-- a conversion to an unsigned number of so many bits
unfoldable pub to_unsigned : ℕ → Bool × ℕ → ℕ
to_unsigned bits (below, n) = if below then (2 ^ bits - n % 2 ^ bits) % 2 ^ bits else n % 2 ^ bits

-- a number in decimal, before this text; the fuel is at least the number
unfoldable pub digits : ℕ → ℕ → Text → Text
digits zero n s = (n % 10 + b'0') ∷ s
digits (suc f) n s =
    let rest = digits f (n / 10) ((n % 10 + b'0') ∷ s) in if ltb n 10 then (n + b'0') ∷ s else rest

unfoldable pub decimal : ℕ → Text
decimal n = digits n n []
