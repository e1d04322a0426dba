-- ===== src/Prelude/Text/Number.antt =====
-- JavaScript's `Number(s)` of a string, `Number.isFinite`, and `n >= 0`. A number that is read is
-- kept as the decimal that was written, which stands for the nearest double: where that is infinite
-- or zero is decided here, and rounding in between is not modelled.
pub mod Laws
use Prim.Native.Nat.{ℕ, suc, ◌+◌, ◌-◌, ◌*◌, ◌^◌}
use mathlib.Core.Bool.{Bool, true, false, not, ◌&&◌, ◌||◌}
use mathlib.Core.Option.{Option, none, some}
use mathlib.Core.List.{List, [], ◌∷◌}
use go_check_ssl.Prelude.Tests.{◌==◌, ltb, leb, if◌then◌else◌, is_some}
use go_check_ssl.Prelude.Text.{Text, codes, text_eq}

-- `decimal` is mantissa · 10 ^ up / 10 ^ down, with its sign.
pub data JsNumber : Type 0 where
  nan : JsNumber
  infinite : (negative : Bool) → JsNumber
  decimal : (negative : Bool) (mantissa up down : ℕ) → JsNumber

-- The value of a digit, or 36 for any other character.
unfoldable pub digit_value : ℕ → ℕ
digit_value c =
    if leb b'0' c && leb c b'9'
    then c - b'0'
    else if leb b'a' c && leb c b'z'
    then c - b'a' + 10
    else if leb b'A' c && leb c b'Z'
    then c - b'A' + 10
    else 36

-- The digits at the front, and what follows them.
unfoldable pub span_digits : ℕ → Text → List ℕ × Text
unfolding digit_value
span_digits radix [] = ([], [])
span_digits radix (c ∷ s) =
    let (ds, rest) = span_digits radix s in
    if ltb (digit_value c) radix then (digit_value c ∷ ds, rest) else ([], c ∷ s)

unfoldable pub digits_value : ℕ → ℕ → List ℕ → ℕ
digits_value radix acc [] = acc
digits_value radix acc (d ∷ ds) = digits_value radix (acc * radix + d) ds

abbrev pub is_empty {ℓ} : {A : Type ℓ} → List A → Bool
is_empty [] = true
is_empty (x ∷ xs) = false

abbrev pub count {ℓ} : {A : Type ℓ} → List A → ℕ
count [] = 0
count (x ∷ xs) = suc (count xs)

-- After `0x`, `0o` or `0b`.
unfoldable pub radix_literal : ℕ → Text → JsNumber
unfolding span_digits digits_value
radix_literal radix s =
    let (ds, rest) = span_digits radix s in
    if is_empty rest && not (is_empty ds) then decimal false (digits_value radix 0 ds) 0 0 else nan

-- The fraction: the digits after a point, and what follows.
unfoldable pub fraction : Text → List ℕ × Text
unfolding span_digits
fraction [] = ([], [])
fraction (c ∷ s) = if c == b'.' then span_digits 10 s else ([], c ∷ s)

-- The digits of an exponent, up to the end.
unfoldable pub exponent_digits : Bool → Text → Option (Bool × ℕ)
unfolding span_digits digits_value
exponent_digits negative s =
    let (ds, rest) = span_digits 10 s in
    if is_empty rest && not (is_empty ds) then some (negative, digits_value 10 0 ds) else none

unfoldable pub signed_exponent : Text → Option (Bool × ℕ)
unfolding exponent_digits
signed_exponent [] = none
signed_exponent (c ∷ s) =
    if c == b'-'
    then exponent_digits true s
    else if c == b'+'
    then exponent_digits false s
    else exponent_digits false (c ∷ s)

-- What may follow the mantissa: nothing, or an exponent.
unfoldable pub exponent : Text → Option (Bool × ℕ)
unfolding signed_exponent
exponent [] = some (false, 0)
exponent (c ∷ s) = if (c == b'e') || (c == b'E') then signed_exponent s else none

unfoldable pub with_exponent : Bool → ℕ → ℕ → Option (Bool × ℕ) → JsNumber
with_exponent negative mantissa places none = nan
with_exponent negative mantissa places (some (true, e)) = decimal negative mantissa 0 (places + e)
with_exponent negative mantissa places (some (false, e)) = decimal negative mantissa e places

unfoldable pub unsigned_literal : Bool → Text → JsNumber
unfolding span_digits digits_value fraction exponent with_exponent
unsigned_literal negative s =
    let (whole, rest) = span_digits 10 s in
    let (places, last) = fraction rest in
    if text_eq s (codes "Infinity")
    then infinite negative
    else if is_empty whole && is_empty places
    then nan
    else with_exponent negative (digits_value 10 (digits_value 10 0 whole) places) (count places)
        (exponent last)

unfoldable pub signed_literal : Text → JsNumber
unfolding unsigned_literal
signed_literal [] = nan
signed_literal (c ∷ s) =
    if c == b'-'
    then unsigned_literal true s
    else if c == b'+'
    then unsigned_literal false s
    else unsigned_literal false (c ∷ s)

-- The radix that the first two characters ask for.
unfoldable pub prefix_radix : ℕ → ℕ → Option ℕ
prefix_radix c d =
    if not (c == b'0')
    then none
    else if (d == b'x') || (d == b'X')
    then some 16
    else if (d == b'o') || (d == b'O')
    then some 8
    else if (d == b'b') || (d == b'B')
    then some 2
    else none

-- `Number(s)`, for a text without white space at its ends.
unfoldable pub js_number : Text → JsNumber
unfolding signed_literal radix_literal prefix_radix
js_number [] = decimal false 0 0 0
js_number (c ∷ []) = signed_literal (c ∷ [])
js_number (c ∷ d ∷ s) = elim (prefix_radix c d) [
  | none ↦ signed_literal (c ∷ d ∷ s)
  | some radix ↦ radix_literal radix s
]

-- Numbers from here on are infinite as doubles.
abbrev pub overflow : ℕ
overflow = 2 ^ 1024 - 2 ^ 970

-- `Number.isFinite(n)`
unfoldable pub is_finite : JsNumber → Bool
is_finite nan = false
is_finite (infinite negative) = false
is_finite (decimal negative m up down) = ltb (m * 10 ^ up) (overflow * 10 ^ down)

-- `n >= 0`: a number of at most half the smallest double is zero.
unfoldable pub at_least_zero : JsNumber → Bool
at_least_zero nan = false
at_least_zero (infinite negative) = not negative
at_least_zero (decimal negative m up down) =
    not negative || leb (m * 10 ^ up * 2 ^ 1075) (10 ^ down)

-- What a run at a concrete text computes with.
unfoldable pub number_ops : Unit {0}
unfolding js_number signed_literal unsigned_literal radix_literal prefix_radix exponent
    signed_exponent exponent_digits fraction with_exponent span_digits digits_value digit_value
    codes
number_ops = tt
