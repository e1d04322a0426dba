-- ===== src/Locale.antt =====
-- The locale of apps/web/src/lib/i18n.tsx: the options, `normalizeLocale`, `detectLocale`, and the
-- state and effect of `I18nProvider`.
pub mod Persistence
mod Tests
use go_check_ssl.Prelude.{
  Bool, true, false, Option, none, some, List, [], ◌∷◌, ◌||◌, if◌then◌else◌, is_some, map,
}
use go_check_ssl.Prelude.Text.{
  Text, codes, text_eq, truthy, trim, to_lower_case, starts_with, is_space,
}

pub data Locale : Type 0 where
  zh_cn zh_tw en es fr de ru ar pt ja ko hi it : Locale

-- The `value`s of `localeOptions`.
unfoldable pub locale_value : Locale → Text
locale_value zh_cn = codes "zh-CN"
locale_value zh_tw = codes "zh-TW"
locale_value en = codes "en"
locale_value es = codes "es"
locale_value fr = codes "fr"
locale_value de = codes "de"
locale_value ru = codes "ru"
locale_value ar = codes "ar"
locale_value pt = codes "pt"
locale_value ja = codes "ja"
locale_value ko = codes "ko"
locale_value hi = codes "hi"
locale_value it = codes "it"

-- The tests after the `switch`, in their order.
unfoldable pub locale_of_prefix : Text → Locale
locale_of_prefix s =
    if starts_with s (codes "zh-hans")
    then zh_cn
    else if starts_with s (codes "zh-hant")
    then zh_tw
    else if starts_with s (codes "fr")
    then fr
    else if starts_with s (codes "de")
    then de
    else if starts_with s (codes "ru")
    then ru
    else if starts_with s (codes "ar")
    then ar
    else if starts_with s (codes "pt")
    then pt
    else if starts_with s (codes "ja")
    then ja
    else if starts_with s (codes "ko")
    then ko
    else if starts_with s (codes "hi")
    then hi
    else if starts_with s (codes "it")
    then it
    else if starts_with s (codes "es")
    then es
    else en

-- The `switch`, on a locale that is neither null nor undefined.
unfoldable pub locale_of_normalized : Text → Locale
unfolding locale_of_prefix
locale_of_normalized s =
    if text_eq s (codes "zh") || text_eq s (codes "zh-cn") || text_eq s (codes "zh-sg")
    then zh_cn
    else if text_eq s (codes "zh-tw") || text_eq s (codes "zh-hk") || text_eq s (codes "zh-mo")
    then zh_tw
    else locale_of_prefix s

unfoldable pub normalize_locale : Option Text → Locale
normalize_locale none = en
normalize_locale (some locale) = locale_of_normalized (to_lower_case (trim locale))

-- What `detectLocale` reads: the item of `localStorage`, `navigator.languages` and
-- `navigator.language`. `window` or `navigator` is `none` where it is undefined.
pub record Navigator : Type 0 where
  pub languages : Option (List Text)
  pub language : Option Text

pub record Browser : Type 0 where
  pub window : Option (record { stored : Option Text })
  pub navigator : Option Navigator

-- `languages?.length ? languages : [language]`
unfoldable pub candidates : Navigator → List (Option Text)
candidates n = elim n.languages [
  | none ↦ n.language ∷ []
  | some [] ↦ n.language ∷ []
  | some (l ∷ ls) ↦ some l ∷ map some ls
]

-- The loop over the candidates returns in its first round.
unfoldable pub first_candidate : List (Option Text) → Locale
first_candidate [] = en
first_candidate (c ∷ cs) = normalize_locale c

unfoldable pub detect_from_navigator : Option Navigator → Locale
unfolding first_candidate candidates
detect_from_navigator none = en
detect_from_navigator (some n) = first_candidate (candidates n)

unfoldable pub detect_locale : Browser → Locale
unfolding detect_from_navigator
detect_locale b = elim b.window [
  | none ↦ detect_from_navigator b.navigator
  | some w ↦ elim w.stored [
    | none ↦ detect_from_navigator b.navigator
    | some stored ↦
        if truthy stored then normalize_locale (some stored) else detect_from_navigator b.navigator
  ]
]

-- The provider's state, with the two attributes of the document that its effect writes.
pub record I18n : Type 0 where
  pub locale : Locale
  pub browser : Browser
  pub document_lang : Text
  pub document_dir : Text

unfoldable pub store_locale :
    Text → Option (record { stored : Option Text }) → Option (record { stored : Option Text })
store_locale value none = none
store_locale value (some w) = some (record { stored = some value })

unfoldable pub direction : Locale → Text
direction ar = codes "rtl"
direction _ = codes "ltr"

-- The effect that runs after the first render and whenever the locale has changed.
unfoldable pub locale_effect : I18n → I18n
unfolding store_locale direction
locale_effect s = record s {
  browser = record {
    window = store_locale (locale_value s.locale) s.browser.window;
    navigator = s.browser.navigator;
  };
  document_lang = locale_value s.locale;
  document_dir = direction s.locale;
}

-- A page load: the initial state, then the effect.
unfoldable pub mount : Browser → I18n
unfolding locale_effect
mount b =
    locale_effect
      (record { locale = detect_locale b; browser = b; document_lang = []; document_dir = [] })

-- `setLocale` and the effect of the render that follows.
unfoldable pub set_locale : Locale → I18n → I18n
unfolding locale_effect
set_locale l s = locale_effect (record s { locale = l })
