-- ===== src/Locale/Persistence.antt =====
-- That a chosen locale survives a reload, and that `normalizeLocale` ignores case and white space.
use go_check_ssl.Prelude.{◌≡◌, ◌≢◌, refl, ap, ◌∙◌, some, none, Option, true, arith}
use go_check_ssl.Prelude.Text.{Text, codes, trim, to_lower_case, truthy, text_ops}
use go_check_ssl.Prelude.Text.Laws.{trim_idem, to_lower_case_idem, trim-to_lower_case}
use go_check_ssl.Locale.{
  Locale, zh_cn, locale_value, locale_of_normalized, normalize_locale, Browser, detect_locale, I18n,
  locale_effect, mount, set_locale, store_locale,
}

normalize_locale-locale_value : (l : Locale) → normalize_locale (some (locale_value l)) ≡ l
unfolding normalize_locale locale_of_normalized locale_value text_ops
normalize_locale-locale_value zh_cn = refl
normalize_locale-locale_value _ = refl

truthy-locale_value : (l : Locale) → truthy (locale_value l) ≡ true
unfolding locale_value codes
truthy-locale_value zh_cn = refl
truthy-locale_value _ = refl

abbrev pub HasWindow : I18n → Type 0
HasWindow s = s.browser.window ≢ none

detect_locale_stored :
    (l : Locale) (b : Browser)
    → b.window ≢ none
    → detect_locale
        (record { window = store_locale (locale_value l) b.window; navigator = b.navigator })
      ≡ l
unfolding detect_locale store_locale
detect_locale_stored l b h = ground (arith, truthy-locale_value l, normalize_locale-locale_value l)

store_locale_twice :
    (t : Text) (w : Option (record { stored : Option Text }))
    → store_locale t (store_locale t w) ≡ store_locale t w
unfolding store_locale
store_locale_twice t none = refl
store_locale_twice t (some w) = refl

-- Where there is a window, a page load after `setLocale` starts in the chosen locale, and its
-- effect leaves the storage and the document's attributes as `setLocale` had left them.
pub mount-set_locale :
    (l : Locale) (s : I18n) → HasWindow s → mount (set_locale l s).browser ≡ set_locale l s
unfolding mount set_locale locale_effect
mount-set_locale l s h = ground (
  arith,
  detect_locale_stored l s.browser h,
  store_locale_twice (locale_value l) s.browser.window,
)

-- `normalizeLocale` does not depend on the case of ASCII letters, or on white space around its argument.
normalize_locale_insensitive :
    (s : Text)
    → (normalize_locale (some (to_lower_case s)) ≡ normalize_locale (some s))
      × (normalize_locale (some (trim s)) ≡ normalize_locale (some s))
unfolding normalize_locale
normalize_locale_insensitive s = (
  ap locale_of_normalized (ap to_lower_case (trim-to_lower_case s) ∙ to_lower_case_idem (trim s)),
  ap (λ t. locale_of_normalized (to_lower_case t)) (trim_idem s),
)
