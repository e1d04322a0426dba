-- ===== src/Notifications/PolicyForm/Laws.antt =====
-- Opening the policy form and submitting it unchanged.
use go_check_ssl.Prelude.{
  ℕ, ◌^◌, Bool, true, false, some, List, [], ◌∷◌, ◌++◌, keep, map, every, ◌≡◌, refl, ap, ◌∙◌, arith,
  ltb, and-eq-true,
}
use go_check_ssl.Prelude.Text.{Text, codes, trim, trim_start, trim_end, is_space}
use go_check_ssl.Prelude.Text.Decimal.{to_decimal}
use go_check_ssl.Prelude.Text.Number.{JsNumber, decimal, js_number, is_finite, at_least_zero}
use go_check_ssl.Prelude.Text.Number.Laws.{
  all_digits, all_digits-to_decimal, trim-digits, js_number-to_decimal, is_digit,
}
use go_check_ssl.Prelude.Text.Split.{
  split_on, join, cons_first, lacks, split_on-whole, split_on-append, split_on-cons,
}
use go_check_ssl.Notifications.PolicyForm.{
  format_thresholds, policy_values, read_item, usable, read_thresholds, policy_payload,
}

-- A whole number, as `Number` reads it.
abbrev pub whole : ℕ → JsNumber
whole n = decimal false n 0 0

-- Numbers that `String` prints without an exponent.
abbrev pub plain : ℕ → Bool
plain n = ltb n (10 ^ 21)

abbrev read_parts : List Text → List JsNumber
read_parts parts = keep usable (map read_item parts)

usable-whole : (n : ℕ) → plain n ≡ true → usable (whole n) ≡ true
unfolding usable is_finite at_least_zero
usable-whole n h = ground (arith, h)

read_item-to_decimal : (n : ℕ) → read_item (to_decimal n) ≡ whole n
unfolding read_item
read_item-to_decimal n =
    ap js_number (trim-digits (to_decimal n) (all_digits-to_decimal n)) ∙ js_number-to_decimal n

digits-lack_comma : (s : Text) → all_digits s ≡ true → lacks b',' s ≡ true
unfolding is_digit
digits-lack_comma [] h = refl
digits-lack_comma (c ∷ s) h =
    let (here, there) = and-eq-true (is_digit c) (all_digits s) h in
    let rest = digits-lack_comma s there in ground (arith, here, rest)

read_item-space : (s : Text) → read_item (32 ∷ s) ≡ read_item s
unfolding read_item trim trim_start is_space
read_item-space s = refl

read_parts-space :
    (s : Text) → read_parts (cons_first 32 (split_on b',' s)) ≡ read_parts (split_on b',' s)
unfolding cons_first split_on
read_parts-space s =
    let (p, ps, e) = split_on-cons b',' s in
    rw e (ap (λ n. keep usable (n ∷ map read_item ps)) (read_item-space p))

read_parts-number :
    (n : ℕ) (parts : List Text)
    → plain n ≡ true
    → read_parts (to_decimal n ∷ parts) ≡ whole n ∷ read_parts parts
read_parts-number n parts h = rw (read_item-to_decimal n, usable-whole n h) refl

read-format :
    (n : ℕ) (days : List ℕ)
    → every plain (n ∷ days) ≡ true
    → read_parts (split_on b',' (join (codes ", ") (map to_decimal (n ∷ days))))
      ≡ map whole (n ∷ days)
unfolding join codes split_on
read-format n [] h =
    let lone =
      split_on-whole b',' (to_decimal n)
        (digits-lack_comma (to_decimal n) (all_digits-to_decimal n)) in
    ap read_parts lone ∙ read_parts-number n [] (and-eq-true (plain n) true h).0
read-format n (m ∷ days) h =
    let (here, there) = and-eq-true (plain n) (every plain (m ∷ days)) h in
    let later = join (codes ", ") (map to_decimal (m ∷ days)) in
    let parted =
      split_on-append b',' (to_decimal n) (32 ∷ later)
        (digits-lack_comma (to_decimal n) (all_digits-to_decimal n)) in
    let last : read_parts (split_on b',' (32 ∷ later)) ≡ map whole (m ∷ days) =
      read_parts-space later ∙ read-format m days there in
    let both : read_parts (to_decimal n ∷ split_on b',' (32 ∷ later)) ≡ map whole (n ∷ m ∷ days) =
      read_parts-number n (split_on b',' (32 ∷ later)) here ∙ ap (λ ns. whole n ∷ ns) last in
    ap read_parts parted ∙ both

-- Of a policy with a threshold, and with thresholds below 10 ^ 21, submitting the form as it was
-- opened passes on the same thresholds, in their order, and the same endpoints.
pub policy_payload-policy_values :
    (n : ℕ) (days : List ℕ) (endpoint_ids : List ℕ)
    → every plain (n ∷ days) ≡ true
    → policy_payload
        (policy_values (some (record { threshold_days = n ∷ days; endpoint_ids = endpoint_ids })))
      ≡ record { threshold_days = map whole (n ∷ days); endpoint_ids = endpoint_ids }
unfolding policy_payload policy_values format_thresholds read_thresholds
policy_payload-policy_values n days endpoint_ids h =
    ap (λ ns. record { threshold_days = ns; endpoint_ids = endpoint_ids }) (read-format n days h)

-- Of a policy without thresholds, submitting the form as it was opened passes on the threshold 0:
-- the empty text has one part, and `Number("")` is 0. So does a comma at the end of a text of digits.
policy_payload_zero :
    (endpoint_ids : List ℕ) (n : ℕ)
    → plain n ≡ true
    → ((policy_payload (
          policy_values
            (some (record { threshold_days = []; endpoint_ids = endpoint_ids })))).threshold_days
        ≡ whole 0 ∷ [])
      × (read_thresholds (to_decimal n ++ codes ",") ≡ whole n ∷ whole 0 ∷ [])
unfolding policy_payload policy_values format_thresholds read_thresholds split_on join read_item
    trim trim_start trim_end usable is_finite at_least_zero js_number codes cons_first
policy_payload_zero endpoint_ids n h = (
  refl,
  ap read_parts (
        split_on-append b',' (to_decimal n) []
          (digits-lack_comma (to_decimal n) (all_digits-to_decimal n)))
      ∙ read_parts-number n ([] ∷ []) h,
)
