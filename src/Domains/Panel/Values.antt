-- ===== src/Domains/Panel/Values.antt =====
-- The values of the panel, one by one.
use go_check_ssl.Prelude.{
  ℕ, Bool, true, false, Option, none, some, List, [], ◌∷◌, ◌++◌, ◌==◌, ◌&&◌, and-eq-true, ◌≡◌, refl,
  arith, All, every,
}
use go_check_ssl.Prelude.Text.{Text, codes, truthy}
use go_check_ssl.Prelude.Text.Decimal.{to_decimal}
use go_check_ssl.Prelude.Text.Number.Laws.{
  all_digits, is_digit, all_digits-to_decimal, truthy-to_decimal,
}
use go_check_ssl.Prelude.Text.Split.{join, lacks}
use go_check_ssl.Types.{Days, left, overdue}
use go_check_ssl.Locale.{Locale}
use go_check_ssl.PublicStatus.{or_text}
use go_check_ssl.Translation.Pieces.{is_plain_param}
use go_check_ssl.Translation.Complete.{truthy-append}
use go_check_ssl.Domains.Panel.{
  Panel, More, Tile, DateValue, missing, dated, join_names, shown_days, days_text, shown_error,
  text_of,
}

pub digits_plain : (s : Text) → all_digits s ≡ true → (lacks b'{' s && lacks b'$' s) ≡ true
unfolding is_digit
digits_plain [] h = refl
digits_plain (c ∷ s) h =
    let (here, there) = and-eq-true (is_digit c) (all_digits s) h in
    let (braces, dollars) = and-eq-true (lacks b'{' s) (lacks b'$' s) (digits_plain s there) in
    let no_brace : (c == b'{') ≡ false = ground (arith, here) in
    let no_dollar : (c == b'$') ≡ false = ground (arith, here) in
    rw (no_brace, no_dollar, braces, dollars) refl

pub or_text-truthy :
    (value : Option Text) (fallback : Text)
    → truthy fallback ≡ true
    → truthy (or_text value fallback) ≡ true
unfolding or_text
or_text-truthy none fallback h = h
or_text-truthy (some s) fallback h = ground (arith, h)

pub days_text-truthy :
    (days : Option Days) (fallback : Text)
    → truthy fallback ≡ true
    → truthy (shown_days days fallback) ≡ true
unfolding shown_days days_text
days_text-truthy none fallback h = h
days_text-truthy (some (left n)) fallback h = truthy-to_decimal n
days_text-truthy (some (overdue n)) fallback h = refl

pub join-truthy :
    (separator name : Text) (names : List Text)
    → truthy name ≡ true
    → truthy (join separator (name ∷ names)) ≡ true
unfolding join
join-truthy separator name [] h = h
join-truthy separator (c ∷ s) (n ∷ names) h = refl
join-truthy separator [] (n ∷ names) h = cc h

-- No name of the certificate is empty.
abbrev pub NamesFilled : Option (List Text) → Type 0
NamesFilled none = Unit
NamesFilled (some names) = every truthy names ≡ true

pub join_names-truthy :
    (names : Option (List Text)) (fallback : Text)
    → NamesFilled names
    → truthy fallback ≡ true
    → truthy (join_names names fallback) ≡ true
unfolding join_names
join_names-truthy none fallback n h = h
join_names-truthy (some []) fallback n h = h
join_names-truthy (some (name ∷ names)) fallback n h =
    join-truthy (codes ", ") name names (ground (arith, n))

-- The label for the days, at every number.
pub days_given : (n : ℕ) → is_plain_param (codes "days", to_decimal n) ≡ true
unfolding codes
days_given n = rw (digits_plain (to_decimal n) (all_digits-to_decimal n)) refl

abbrev pub Shown : Tile → Type 0
Shown tile = (truthy tile.label ≡ true) × (truthy tile.value ≡ true)

abbrev pub ShowsDate : DateValue → Type 0
ShowsDate (missing s) = truthy s ≡ true
ShowsDate (dated date time) = (truthy date ≡ true) × (truthy time ≡ true)

abbrev pub ShownDate : Text × DateValue → Type 0
ShownDate (label, value) = (truthy label ≡ true) × ShowsDate value

abbrev pub MoreFilled : Option More → Type 0
MoreFilled none = Unit
MoreFilled (some m) = All Shown m.details × All Shown m.error × All (λ s. truthy s ≡ true) m.notes

-- Nothing of the panel is blank.
abbrev pub IsFilled : Panel → Type 0
IsFilled p =
    (truthy p.title ≡ true)
    × (truthy p.status ≡ true)
    × (truthy p.addresses ≡ true)
    × All Shown p.tiles
    × All ShownDate p.dates
    × MoreFilled p.more

-- An address has neither braces nor dollar signs.
abbrev pub is_address : Option Text → Bool
is_address none = true
is_address (some s) = lacks b'{' s && lacks b'$' s

pub or_text-plain :
    (value : Option Text) (other : Text)
    → is_address value ≡ true
    → (lacks b'{' other && lacks b'$' other) ≡ true
    → (lacks b'{' (or_text value other) && lacks b'$' (or_text value other)) ≡ true
unfolding or_text
or_text-plain none other h k = k
or_text-plain (some []) other h k = k
or_text-plain (some (c ∷ s)) other h k = h

pub truthy-behind : (s u : Text) → truthy u ≡ true → truthy (s ++ u) ≡ true
truthy-behind s u h = ground (arith, truthy-append s u, h)

pub shown_error-Shown :
    (locale : Locale) (message : Option Text)
    → truthy (text_of locale "status.error") ≡ true
    → All Shown (shown_error locale message)
unfolding shown_error
shown_error-Shown locale none h = tt
shown_error-Shown locale (some []) h = tt
shown_error-Shown locale (some (c ∷ s)) h = ((h, refl), tt)
