-- ===== src/Prelude/Lists.antt =====
-- Lists measured by native numbers, and JavaScript's `filter`, `find`, `includes` and `every`.
use Prim.Native.Nat.{ℕ, suc, ◌+◌, ◌≤◌}
use mathlib.Core.Path.{◌≡◌, refl}
use mathlib.Core.Bool.{Bool, true, false, ◌||◌, ◌&&◌, false≢true}
use mathlib.Core.Option.{Option, none, some}
use mathlib.Core.List.{List, [], ◌∷◌, ◌++◌}
use native.Mathlib.Omega.{arith}
use go_check_ssl.Prelude.Tests.{◌==◌, if◌then◌else◌}

module _ {ℓ} {A : Type ℓ} where
  abbrev pub length : List A → ℕ
  length [] = 0
  length (x ∷ xs) = suc (length xs)

  pub length-append : (xs ys : List A) → length (xs ++ ys) ≡ length xs + length ys
  length-append [] ys = omega arith
  length-append (x ∷ xs) ys = omega (arith, length-append xs ys)

  -- `xs.filter(p)`
  abbrev pub keep : (A → Bool) → List A → List A
  keep p [] = []
  keep p (x ∷ xs) = if p x then x ∷ keep p xs else keep p xs

  -- `xs.find(p)`
  abbrev pub find_first : (A → Bool) → List A → Option A
  find_first p [] = none
  find_first p (x ∷ xs) = if p x then some x else find_first p xs

  abbrev pub every : (A → Bool) → List A → Bool
  every p [] = true
  every p (x ∷ xs) = p x && every p xs

  pub length-keep-le : (p : A → Bool) (xs : List A) → length (keep p xs) ≤ length xs
  length-keep-le p [] = omega arith
  length-keep-le p (x ∷ xs) = ground (arith, length-keep-le p xs)

-- `xs.includes(n)`
abbrev pub includes : List ℕ → ℕ → Bool
includes [] n = false
includes (x ∷ xs) n = (x == n) || includes xs n

pub includes-append :
    (xs ys : List ℕ) (n : ℕ) → includes (xs ++ ys) n ≡ (includes xs n || includes ys n)
includes-append [] ys n = refl
includes-append (x ∷ xs) ys n = ground (arith, includes-append xs ys n)

pub includes-keep :
    (p : ℕ → Bool) (xs : List ℕ) (n : ℕ) → includes (keep p xs) n ≡ (p n && includes xs n)
includes-keep p [] n = ground arith
includes-keep p (x ∷ xs) n = ground (arith, includes-keep p xs n)

module _ {ℓ κ} {A : Type ℓ} (P : A → Type κ) where
  abbrev pub All : List A → Type κ
  All [] = Unit
  All (x ∷ xs) = P x × All xs

-- A property that is decidable, checked on each element.
module _ {ℓ κ} {A : Type ℓ} {P : A → Type κ} (d : (a : A) → Dec (P a)) where
  abbrev pub check_all : List A → Bool
  check_all [] = true
  check_all (x ∷ xs) = elim (d x) [ yes h ↦ check_all xs | no h ↦ false ]

  abbrev check_from : (x : A) → List A → Dec (P x) → Bool
  check_from x xs e = elim e [ yes h ↦ check_all xs | no h ↦ false ]

  checked :
      (x : A) (xs : List A) (e : Dec (P x)) → check_from x xs e ≡ true → P x × (check_all xs ≡ true)
  checked x xs (yes p) h = (p, h)
  checked x xs (no p) h = absurd (false≢true h)

  pub All-by_check : (xs : List A) → check_all xs ≡ true → All P xs
  All-by_check [] h = tt
  All-by_check (x ∷ xs) h = let (p, q) = checked x xs (d x) h in (p, All-by_check xs q)
