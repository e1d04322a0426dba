-- ===== src/Prelude/Text.antt =====
-- JavaScript strings as lists of UTF-16 code units, and the methods of `String` that the client
-- calls: `trim`, `toLowerCase`, `startsWith`, `split`, `join`.
pub mod Laws
pub mod Decimal
pub mod Number
pub mod Split
use Prim.Native.Nat.{ℕ, ◌+◌}
use Prim.Native.Char.{code}
use Prim.Native.String.{String}
use mathlib.Core.Path.{◌≡◌, refl}
use mathlib.Core.Logic.{◌↔◌}
use mathlib.Core.Bool.{Bool, true, false, ◌&&◌, ◌||◌}
use mathlib.Core.Option.{Option, none, some}
use mathlib.Core.List.{List, [], ◌∷◌, map}
use native.Mathlib.Omega.{arith}
use go_check_ssl.Prelude.Tests.{◌==◌, leb, if◌then◌else◌, when}

abbrev pub Text : Type 0
Text = List ℕ

-- A literal of the source. All literals modelled here lie in the basic plane, where a code unit
-- is a code point.
unfoldable pub codes : String → Text
codes String.[] = []
codes (String.◌∷◌ c s) = code c ∷ codes s

-- `s === t`
abbrev pub text_eq : Text → Text → Bool
text_eq [] [] = true
text_eq (a ∷ s) (b ∷ t) = (a == b) && text_eq s t
text_eq _ _ = false

pub text_eq_iff : (s t : Text) → (text_eq s t ≡ true) ↔ (s ≡ t)
text_eq_iff [] [] = ground arith
text_eq_iff [] (b ∷ t) = ground arith
text_eq_iff (a ∷ s) [] = ground arith
text_eq_iff (a ∷ s) (b ∷ t) = ground (arith, text_eq_iff s t)

pub text_eq_refl : (s : Text) → text_eq s s ≡ true
text_eq_refl s = (text_eq_iff s s).1 refl

-- Boolean(s)
abbrev pub truthy : Text → Bool
truthy [] = false
truthy (c ∷ s) = true

-- `s ? s : null`, of a text that can be missing.
abbrev pub shown_text : Option Text → Option Text
shown_text none = none
shown_text (some s) = when (truthy s) s

-- WhiteSpace and LineTerminator of ECMAScript.
unfoldable pub is_space : ℕ → Bool
is_space c =
    (leb 9 c && leb c 13)
    || (c == 32)
    || (c == 0xa0)
    || (c == 0x1680)
    || (leb 0x2000 c && leb c 0x200a)
    || (c == 0x2028)
    || (c == 0x2029)
    || (c == 0x202f)
    || (c == 0x205f)
    || (c == 0x3000)
    || (c == 0xfeff)

unfoldable pub trim_start : Text → Text
trim_start [] = []
trim_start (c ∷ s) = if is_space c then trim_start s else c ∷ s

-- One character in front of a text whose end is trimmed.
unfoldable pub cons_trimmed : ℕ → Text → Text
cons_trimmed c [] = if is_space c then [] else c ∷ []
cons_trimmed c (d ∷ s) = c ∷ d ∷ s

unfoldable pub trim_end : Text → Text
trim_end [] = []
trim_end (c ∷ s) = cons_trimmed c (trim_end s)

-- `s.trim()`
unfoldable pub trim : Text → Text
trim s = trim_end (trim_start s)

-- `toLowerCase`, on the characters whose lower case is an ASCII letter (A to Z and the Kelvin
-- sign). Other characters are left as they are: the client only compares the result with ASCII texts.
unfoldable pub lower : ℕ → ℕ
lower c = if leb b'A' c && leb c b'Z' then c + 32 else if c == 0x212a then b'k' else c

unfoldable pub to_lower_case : Text → Text
unfolding lower
to_lower_case s = map lower s

-- `s.startsWith(p)`
unfoldable pub starts_with : Text → Text → Bool
starts_with s [] = true
starts_with [] (d ∷ p) = false
starts_with (c ∷ s) (d ∷ p) = (c == d) && starts_with s p

-- What a run at a concrete text computes with.
unfoldable pub text_ops : Unit {0}
unfolding codes is_space trim_start cons_trimmed trim_end trim lower to_lower_case starts_with
text_ops = tt
