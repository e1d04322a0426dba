-- ===== src/Prelude/Text/Split.antt =====
-- `s.split(c)` at one character, `texts.join(separator)`, and how they meet.
use Prim.Native.Nat.{ℕ}
use mathlib.Core.Path.{◌≡◌, refl}
use mathlib.Core.Logic.{inl, inr}
use mathlib.Core.Bool.{Bool, true, false, not}
use mathlib.Core.List.{List, [], ◌∷◌, ◌++◌}
use native.Mathlib.Omega.{arith}
use go_check_ssl.Prelude.Tests.{◌==◌, if◌then◌else◌, and-eq-true, ==_refl, Bool-cases}
use go_check_ssl.Prelude.Lists.{every}
use go_check_ssl.Prelude.Text.{Text}

-- A character in front of the first part.
unfoldable pub cons_first : ℕ → List Text → List Text
cons_first c [] = (c ∷ []) ∷ []
cons_first c (part ∷ parts) = (c ∷ part) ∷ parts

unfoldable pub split_on : ℕ → Text → List Text
unfolding cons_first
split_on separator [] = [] ∷ []
split_on separator (c ∷ s) =
    let parts = split_on separator s in if c == separator then [] ∷ parts else cons_first c parts

unfoldable pub join : Text → List Text → Text
join separator [] = []
join separator (text ∷ []) = text
join separator (text ∷ texts) = text ++ (separator ++ join separator texts)

abbrev pub lacks : ℕ → Text → Bool
lacks separator s = every (λ c. not (c == separator)) s

pub split_on-whole :
    (separator : ℕ) (s : Text) → lacks separator s ≡ true → split_on separator s ≡ s ∷ []
unfolding split_on cons_first
split_on-whole separator [] h = refl
split_on-whole separator (c ∷ s) h =
    let (here, there) = and-eq-true (not (c == separator)) (lacks separator s) h in
    let other : (c == separator) ≡ false = ground (arith, here) in
    rw (other, split_on-whole separator s there) refl

pub split_on-append :
    (separator : ℕ) (s rest : Text)
    → lacks separator s ≡ true
    → split_on separator (s ++ separator ∷ rest) ≡ s ∷ split_on separator rest
unfolding split_on cons_first
split_on-append separator [] rest h = rw (==_refl separator) refl
split_on-append separator (c ∷ s) rest h =
    let (here, there) = and-eq-true (not (c == separator)) (lacks separator s) h in
    let other : (c == separator) ≡ false = ground (arith, here) in
    rw (other, split_on-append separator s rest there) refl

cons_first-cons :
    (c : ℕ) (parts : List Text) → (p : Text) × (ps : List Text) × (cons_first c parts ≡ p ∷ ps)
unfolding cons_first
cons_first-cons c [] = (c ∷ [], [], refl)
cons_first-cons c (p ∷ ps) = (c ∷ p, ps, refl)

-- There is always a first part.
pub split_on-cons :
    (separator : ℕ) (s : Text) → (p : Text) × (ps : List Text) × (split_on separator s ≡ p ∷ ps)
unfolding split_on
split_on-cons separator [] = ([], [], refl)
split_on-cons separator (c ∷ s) = elim (Bool-cases (c == separator)) [
  | inl e ↦ ([], split_on separator s, rw e refl)
  | inr e ↦ let (p, ps, q) = cons_first-cons c (split_on separator s) in (p, ps, rw e q)
]
