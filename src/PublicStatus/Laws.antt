-- ===== src/PublicStatus/Laws.antt =====
-- Which title and subtitle a public page shows.
use go_check_ssl.Prelude.{
  Option, none, some, true, false, ◌≡◌, refl, inl, inr, Bool-cases, List, [], ◌∷◌, chain, chain?,
}
use go_check_ssl.Prelude.Text.{Text, trim, truthy}
use go_check_ssl.PublicStatus.{TitleSource, or_text, resolve_public_status_title}

-- The text is nothing but white space.
abbrev pub IsBlank : Text → Type 0
IsBlank s = trim s ≡ []

abbrev pub IsBlankOrAbsent : Option Text → Type 0
IsBlankOrAbsent none = Unit
IsBlankOrAbsent (some s) = IsBlank s

-- The candidates in the order in which the page prefers them: the first that is not blank is shown, trimmed.
pub data Prefers (fallback : Text) : List (Option Text) → Text → Type 0 where
  nothing : Prefers fallback [] fallback
  skips :
      {o : Option Text} {os : List (Option Text)} {t : Text}
      → IsBlankOrAbsent o
      → Prefers fallback os t
      → Prefers fallback (o ∷ os) t
  takes :
      {s : Text} {os : List (Option Text)}
      → truthy (trim s) ≡ true
      → Prefers fallback (some s ∷ os) (trim s)

falsy-eq-nil : (s : Text) → truthy s ≡ false → s ≡ []
falsy-eq-nil [] h = refl
falsy-eq-nil (c ∷ s) h = cc

or_text-Prefers :
    (fallback : Text) (o : Option Text) (os : List (Option Text)) (t : Text)
    → Prefers fallback os t
    → Prefers fallback (o ∷ os) (or_text (chain o trim) t)
unfolding or_text
or_text-Prefers fallback none os t h = skips tt h
or_text-Prefers fallback (some s) os t h = elim (Bool-cases (truthy (trim s))) [
  | inl e ↦ rw e (takes e)
  | inr e ↦ rw e (skips (falsy-eq-nil (trim s) e) h)
]

abbrev pub title_of : Option TitleSource → Option Text
title_of tenant = chain? tenant (λ t. t.public_status_title)

abbrev pub name_of : Option TitleSource → Option Text
name_of tenant = chain tenant (λ t. t.name)

-- The title shown is the first that is not blank of the tenant's public title and its name,
-- trimmed, or else the fallback.
title-Prefers :
    (tenant : Option TitleSource) (fallback : Text)
    → Prefers fallback
        (title_of tenant ∷ name_of tenant ∷ [])
        (resolve_public_status_title tenant fallback)
unfolding resolve_public_status_title
title-Prefers tenant fallback =
    or_text-Prefers fallback _ _ _ (or_text-Prefers fallback _ _ _ nothing)
