-- ===== src/Translation.antt =====
-- `interpolate` of apps/web/src/lib/i18n.tsx, with `replaceAll` of a text by a text: in the
-- replacement, `$$`, `$&`, `$` with a backtick and `$` with a quote have a meaning of their own.
pub mod Messages
pub mod Pieces
pub mod Filling
pub mod Lookup
pub mod Parameters
pub mod Checked
pub mod Complete
pub mod Laws
mod Tests
use go_check_ssl.Prelude.{
  ℕ, ◌-◌, zero, suc, Bool, true, false, List, [], ◌∷◌, ◌++◌, ◌==◌, if◌then◌else◌, length, Option,
  none, some,
}
use go_check_ssl.Prelude.Text.{Text, codes, starts_with}

-- GetSubstitution without captures. `before` and `after` are what stands around the match.
unfoldable pub substitute : (before matched after : Text) → Text → Text
substitute before matched after [] = []
substitute before matched after (c ∷ []) = c ∷ []
substitute before matched after (c ∷ d ∷ s) =
    let rest = substitute before matched after s in
    let next = substitute before matched after (d ∷ s) in
    if c == b'$'
    then if d == b'$'
      then b'$' ∷ rest
      else if d == b'&'
      then matched ++ rest
      else if d == b'`'
      then before ++ rest
      else if d == 39
      then after ++ rest
      else c ∷ next
    else c ∷ next

-- `s` without its first `n` units.
unfoldable pub drop : ℕ → Text → Text
drop zero s = s
drop (suc n) [] = []
drop (suc n) (c ∷ s) = drop n s

-- The rest of the text, of which `skip` units belong to the last match.
unfoldable pub replace_from : (before : Text) (skip : ℕ) (pattern replacement : Text) → Text → Text
unfolding substitute drop
replace_from before skip pattern replacement [] = []
replace_from before (suc skip) pattern replacement (c ∷ s) =
    replace_from (before ++ c ∷ []) skip pattern replacement s
replace_from before zero pattern replacement (c ∷ s) =
    let matched = replace_from (before ++ c ∷ []) (length pattern - 1) pattern replacement s in
    let missed = replace_from (before ++ c ∷ []) zero pattern replacement s in
    if starts_with (c ∷ s) pattern
    then substitute before pattern (drop (length pattern) (c ∷ s)) replacement ++ matched
    else c ∷ missed

-- `result.replaceAll(pattern, replacement)`, for a pattern that is not empty
unfoldable pub replace_all : Text → Text → Text → Text
unfolding replace_from
replace_all pattern replacement s = replace_from [] zero pattern replacement s

unfoldable pub placeholder : Text → Text
placeholder key = codes "{{" ++ (key ++ codes "}}")

-- The parameters are in the order of their keys in the object, each value as `String(value)`.
unfoldable pub interpolate_params : Text → List (Text × Text) → Text
unfolding replace_all placeholder
interpolate_params template [] = template
interpolate_params template ((key, value) ∷ params) =
    interpolate_params (replace_all (placeholder key) value template) params

unfoldable pub interpolate : Text → Option (List (Text × Text)) → Text
unfolding interpolate_params
interpolate template none = template
interpolate template (some params) = interpolate_params template params
