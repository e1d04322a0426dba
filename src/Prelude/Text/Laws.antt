-- ===== src/Prelude/Text/Laws.antt =====
-- Laws of `trim` and `toLowerCase`.
use Prim.Native.Nat.{ℕ, ◌<◌}
use mathlib.Core.Path.{◌≡◌, refl, ap, sym, ◌∙◌}
use mathlib.Core.Logic.{◌⊎◌, inl, inr}
use mathlib.Core.Bool.{false}
use mathlib.Core.List.{[], ◌∷◌}
use native.Mathlib.Omega.{arith}
use go_check_ssl.Prelude.Text.{
  Text, is_space, trim_start, cons_trimmed, trim_end, trim, lower, to_lower_case,
}

trim_end-cons_trimmed :
    (c : ℕ) (r : Text) → trim_end r ≡ r → trim_end (cons_trimmed c r) ≡ cons_trimmed c r
unfolding trim_end cons_trimmed
trim_end-cons_trimmed c [] h = ground arith
trim_end-cons_trimmed c (d ∷ r) h = ap (cons_trimmed c) h

trim_end_idem : (s : Text) → trim_end (trim_end s) ≡ trim_end s
unfolding trim_end
trim_end_idem [] = refl
trim_end_idem (c ∷ s) = trim_end-cons_trimmed c (trim_end s) (trim_end_idem s)

-- The text is empty or does not begin with white space.
abbrev IsClean : Text → Type 0
IsClean [] = Unit
IsClean (c ∷ s) = is_space c ≡ false

trim_start-IsClean : (s : Text) → IsClean (trim_start s)
unfolding trim_start
trim_start-IsClean [] = tt
trim_start-IsClean (c ∷ s) = ground (arith, trim_start-IsClean s)

trim_start_of_IsClean : (s : Text) → IsClean s → trim_start s ≡ s
unfolding trim_start
trim_start_of_IsClean [] h = refl
trim_start_of_IsClean (c ∷ s) h = ground arith

cons_trimmed-IsClean : (c : ℕ) (r : Text) → is_space c ≡ false → IsClean (cons_trimmed c r)
unfolding cons_trimmed
cons_trimmed-IsClean c [] h = ground arith
cons_trimmed-IsClean c (d ∷ r) h = h

trim_end-IsClean : (s : Text) → IsClean s → IsClean (trim_end s)
unfolding trim_end
trim_end-IsClean [] h = tt
trim_end-IsClean (c ∷ s) h = cons_trimmed-IsClean c (trim_end s) h

pub trim_idem : (s : Text) → trim (trim s) ≡ trim s
unfolding trim
trim_idem s =
    ap trim_end (
      trim_start_of_IsClean (trim_end (trim_start s))
        (trim_end-IsClean (trim_start s) (trim_start-IsClean s)))
    ∙ trim_end_idem (trim_start s)

lower_idem : (c : ℕ) → lower (lower c) ≡ lower c
unfolding lower
lower_idem c = ground arith

pub to_lower_case_idem : (s : Text) → to_lower_case (to_lower_case s) ≡ to_lower_case s
unfolding to_lower_case
to_lower_case_idem [] = refl
to_lower_case_idem (c ∷ s) = ground (arith, lower_idem c, to_lower_case_idem s)

not_space : (c : ℕ) → 32 < c → c < 160 → is_space c ≡ false
unfolding is_space
not_space c h k = ground arith

lower_cases :
    (c : ℕ)
    → (lower c ≡ c)
      ⊎ ((32 < c) × (c < 160) × (32 < lower c) × (lower c < 160))
      ⊎ ((c ≡ 0x212a) × (lower c ≡ b'k'))
unfolding lower
lower_cases c = ground arith

kelvin_not_space : (is_space 0x212a ≡ false) × (is_space b'k' ≡ false)
unfolding is_space
kelvin_not_space = (refl, refl)

is_space-lower : (c : ℕ) → is_space (lower c) ≡ is_space c
is_space-lower c = elim (lower_cases c) [
  | inl same ↦ ap is_space same
  | inr (inl (a, b, a', b')) ↦ not_space (lower c) a' b' ∙ sym (not_space c a b)
  | inr (inr (k, l)) ↦
      (ap is_space l ∙ kelvin_not_space.1) ∙ sym (ap is_space k ∙ kelvin_not_space.0)
]

map-cons_trimmed :
    (c : ℕ) (r : Text) → to_lower_case (cons_trimmed c r) ≡ cons_trimmed (lower c) (to_lower_case r)
unfolding cons_trimmed to_lower_case
map-cons_trimmed c [] = ground (arith, is_space-lower c)
map-cons_trimmed c (d ∷ r) = refl

trim_end-to_lower_case : (s : Text) → trim_end (to_lower_case s) ≡ to_lower_case (trim_end s)
unfolding trim_end to_lower_case
trim_end-to_lower_case [] = refl
trim_end-to_lower_case (c ∷ s) =
    ap (cons_trimmed (lower c)) (trim_end-to_lower_case s) ∙ sym (map-cons_trimmed c (trim_end s))

trim_start-to_lower_case : (s : Text) → trim_start (to_lower_case s) ≡ to_lower_case (trim_start s)
unfolding trim_start to_lower_case
trim_start-to_lower_case [] = refl
trim_start-to_lower_case (c ∷ s) = ground (arith, is_space-lower c, trim_start-to_lower_case s)

pub trim-to_lower_case : (s : Text) → trim (to_lower_case s) ≡ to_lower_case (trim s)
unfolding trim
trim-to_lower_case s =
    ap trim_end (trim_start-to_lower_case s) ∙ trim_end-to_lower_case (trim_start s)
