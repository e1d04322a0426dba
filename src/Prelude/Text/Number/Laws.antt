-- ===== src/Prelude/Text/Number/Laws.antt =====
-- `Number(String(n))` is `n`.
use Prim.Native.Nat.{ℕ, zero, suc, ◌+◌, ◌-◌, ◌*◌, ◌/◌, ◌%◌, ◌<◌}
use mathlib.Core.Path.{◌≡◌, refl, ap, ◌∙◌}
use mathlib.Core.Logic.{inl, inr}
use mathlib.Core.Bool.{Bool, true, false, ◌&&◌}
use mathlib.Core.Option.{none}
use mathlib.Core.List.{List, [], ◌∷◌, ◌++◌, map}
use native.Mathlib.Omega.{arith}
use go_check_ssl.Prelude.Tests.{◌==◌, ltb, leb, Bool-cases, and-eq-true}
use go_check_ssl.Prelude.Lists.{every}
use go_check_ssl.Prelude.Text.{
  Text, codes, text_eq, is_space, trim, trim_start, trim_end, cons_trimmed, truthy,
}
use go_check_ssl.Prelude.Text.Decimal.{decimal_digits, to_decimal}
use go_check_ssl.Prelude.Text.Number.{
  decimal, digit_value, span_digits, digits_value, is_empty, fraction, exponent, with_exponent,
  unsigned_literal, signed_literal, prefix_radix, js_number,
}

unfoldable pub is_digit : ℕ → Bool
is_digit c = leb b'0' c && leb c b'9'

abbrev pub all_digits : Text → Bool
all_digits s = every is_digit s

abbrev pub digits_of : Text → List ℕ
digits_of s = map (λ c. c - 48) s

digit_value-is_digit : (c : ℕ) → is_digit c ≡ true → (digit_value c ≡ c - 48) × (c - 48 < 10)
unfolding is_digit digit_value
digit_value-is_digit c h = ground (arith, h)

span_digits-all : (s : Text) → all_digits s ≡ true → span_digits 10 s ≡ (digits_of s, [])
unfolding span_digits
span_digits-all [] h = refl
span_digits-all (c ∷ s) h =
    let (here, there) = and-eq-true (is_digit c) (all_digits s) h in
    let (same, below) = digit_value-is_digit c here in
    let small : ltb (c - 48) 10 ≡ true = ground (arith, below) in
    rw (same, small, span_digits-all s there) refl

digits_value-one : (d : ℕ) → digits_value 10 0 (d ∷ []) ≡ d
unfolding digits_value
digits_value-one d = omega arith

digits_value-snoc :
    (acc : ℕ) (xs : List ℕ) (d : ℕ)
    → digits_value 10 acc (xs ++ d ∷ []) ≡ digits_value 10 acc xs * 10 + d
unfolding digits_value
digits_value-snoc acc [] d = refl
digits_value-snoc acc (x ∷ xs) d = digits_value-snoc (acc * 10 + x) xs d

all_digits-snoc :
    (s : Text) (c : ℕ) → all_digits s ≡ true → is_digit c ≡ true → all_digits (s ++ c ∷ []) ≡ true
all_digits-snoc [] c h k = ground (arith, k)
all_digits-snoc (d ∷ s) c h k =
    let (here, there) = and-eq-true (is_digit d) (all_digits s) h in
    rw (here, all_digits-snoc s c there k) refl

digits_of-snoc : (s : Text) (c : ℕ) → digits_of (s ++ c ∷ []) ≡ digits_of s ++ (c - 48) ∷ []
digits_of-snoc [] c = refl
digits_of-snoc (d ∷ s) c = ap (λ ds. (d - 48) ∷ ds) (digits_of-snoc s c)

is_digit_of : (d : ℕ) → d < 10 → is_digit (48 + d) ≡ true
unfolding is_digit
is_digit_of d h = ground (arith, h)

pub all_digits-decimal_digits : (fuel n : ℕ) → all_digits (decimal_digits fuel n) ≡ true
unfolding decimal_digits
all_digits-decimal_digits zero n = refl
all_digits-decimal_digits (suc fuel) n = elim (Bool-cases (ltb n 10)) [
  | inl last ↦ rw (last, is_digit_of n (ground (arith, last))) refl
  | inr more ↦ rw more (
      all_digits-snoc (decimal_digits fuel (n / 10)) (48 + n % 10)
        (all_digits-decimal_digits fuel (n / 10)) (is_digit_of (n % 10) (omega arith)))
]

digits_value-decimal_digits :
    (fuel n : ℕ) → n < fuel → digits_value 10 0 (digits_of (decimal_digits fuel n)) ≡ n
unfolding decimal_digits
digits_value-decimal_digits zero n h = ground (arith, h)
digits_value-decimal_digits (suc fuel) n h = elim (Bool-cases (ltb n 10)) [
  | inl last ↦ rw last (digits_value-one (48 + n - 48) ∙ omega arith)
  | inr more ↦
      let front = digits_value-decimal_digits fuel (n / 10) (ground (arith, h, more)) in
      rw (more, digits_of-snoc (decimal_digits fuel (n / 10)) (48 + n % 10))
        (digits_value-snoc 0 (digits_of (decimal_digits fuel (n / 10))) (48 + n % 10 - 48)
          ∙ omega (arith, front))
]

append-is_empty : (s : Text) (c : ℕ) → is_empty (s ++ c ∷ []) ≡ false
append-is_empty [] c = refl
append-is_empty (d ∷ s) c = refl

decimal_digits-cons : (fuel n : ℕ) → is_empty (decimal_digits (suc fuel) n) ≡ false
unfolding decimal_digits
decimal_digits-cons fuel n = elim (Bool-cases (ltb n 10)) [
  | inl last ↦ rw last refl
  | inr more ↦ rw more (append-is_empty (decimal_digits fuel (n / 10)) (48 + n % 10))
]

no_prefix : (c d : ℕ) → is_digit d ≡ true → prefix_radix c d ≡ none
unfolding prefix_radix is_digit
no_prefix c d h = ground (arith, h)

no_sign :
    (c : ℕ)
    → is_digit c ≡ true
    → ((c == b'-') ≡ false) × ((c == b'+') ≡ false) × ((c == b'I') ≡ false)
unfolding is_digit
no_sign c h = ground (arith, h)

not_infinity : (c : ℕ) (s : Text) → (c == b'I') ≡ false → text_eq (c ∷ s) (codes "Infinity") ≡ false
unfolding codes
not_infinity c s h = rw h refl

unsigned_digits :
    (c : ℕ) (s : Text)
    → all_digits (c ∷ s) ≡ true
    → unsigned_literal false (c ∷ s) ≡ decimal false (digits_value 10 0 (digits_of (c ∷ s))) 0 0
unfolding unsigned_literal fraction exponent with_exponent digits_value
unsigned_digits c s h =
    let (_, _, letter) = no_sign c (and-eq-true (is_digit c) (all_digits s) h).0 in
    rw (span_digits-all (c ∷ s) h, not_infinity c s letter, unsigned_literal) refl

signed_digits :
    (c : ℕ) (s : Text)
    → all_digits (c ∷ s) ≡ true
    → signed_literal (c ∷ s) ≡ decimal false (digits_value 10 0 (digits_of (c ∷ s))) 0 0
unfolding signed_literal
signed_digits c s h =
    let (minus, plus, _) = no_sign c (and-eq-true (is_digit c) (all_digits s) h).0 in
    rw (minus, plus) (unsigned_digits c s h)

js_number-digits :
    (s : Text)
    → all_digits s ≡ true
    → is_empty s ≡ false
    → js_number s ≡ decimal false (digits_value 10 0 (digits_of s)) 0 0
unfolding js_number
js_number-digits [] h k = ground (arith, k)
js_number-digits (c ∷ []) h k = signed_digits c [] h
js_number-digits (c ∷ d ∷ s) h k =
    let (_, there) = and-eq-true (is_digit c) (all_digits (d ∷ s)) h in
    rw (no_prefix c d (and-eq-true (is_digit d) (all_digits s) there).0, js_number)
      (signed_digits c (d ∷ s) h)

pub js_number-to_decimal : (n : ℕ) → js_number (to_decimal n) ≡ decimal false n 0 0
unfolding to_decimal
js_number-to_decimal n =
    js_number-digits (decimal_digits (suc n) n) (all_digits-decimal_digits (suc n) n)
      (decimal_digits-cons n n)
    ∙ ap (λ m. decimal false m 0 0) (digits_value-decimal_digits (suc n) n (omega arith))

digit_not_space : (c : ℕ) → is_digit c ≡ true → is_space c ≡ false
unfolding is_digit is_space
digit_not_space c h = ground (arith, h)

trim_end-digits : (s : Text) → all_digits s ≡ true → trim_end s ≡ s
unfolding trim_end cons_trimmed
trim_end-digits [] h = refl
trim_end-digits (c ∷ []) h = rw (digit_not_space c (and-eq-true (is_digit c) true h).0) refl
trim_end-digits (c ∷ d ∷ s) h =
    rw (trim_end-digits (d ∷ s) (and-eq-true (is_digit c) (all_digits (d ∷ s)) h).1) refl

trim_start-digits : (s : Text) → all_digits s ≡ true → trim_start s ≡ s
unfolding trim_start
trim_start-digits [] h = refl
trim_start-digits (c ∷ s) h =
    rw (digit_not_space c (and-eq-true (is_digit c) (all_digits s) h).0) refl

pub trim-digits : (s : Text) → all_digits s ≡ true → trim s ≡ s
unfolding trim
trim-digits s h = ap trim_end (trim_start-digits s h) ∙ trim_end-digits s h

pub all_digits-to_decimal : (n : ℕ) → all_digits (to_decimal n) ≡ true
unfolding to_decimal
all_digits-to_decimal n = all_digits-decimal_digits (suc n) n

truthy-is_empty : (s : Text) → is_empty s ≡ false → truthy s ≡ true
truthy-is_empty [] h = ground (arith, h)
truthy-is_empty (c ∷ s) h = refl

pub truthy-to_decimal : (n : ℕ) → truthy (to_decimal n) ≡ true
unfolding to_decimal
truthy-to_decimal n = truthy-is_empty (decimal_digits (suc n) n) (decimal_digits-cons n n)
