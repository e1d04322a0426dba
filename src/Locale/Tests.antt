-- ===== src/Locale/Tests.antt =====
use go_check_ssl.Prelude.{◌≡◌, refl, some, none, ◌∷◌, []}
use go_check_ssl.Prelude.Text.{codes, text_ops}
use go_check_ssl.Locale.{
  zh_tw, en, ja, de, normalize_locale, locale_of_normalized, Browser, detect_locale, mount,
  set_locale,
}
use go_check_ssl.Locale.Persistence.{mount-set_locale, HasWindow}

normalize_locale_tests :
    (normalize_locale (some (codes " ZH-Hant-HK ")) ≡ zh_tw)
    × (normalize_locale none ≡ en)
    × (normalize_locale (some (codes "de_CH")) ≡ de)
    × (normalize_locale (some (codes "nl")) ≡ en)
unfolding normalize_locale locale_of_normalized text_ops
normalize_locale_tests = (refl, refl, refl, refl)

abbrev german : Browser
german = record {
  window = some (record { stored = none });
  navigator =
      some (record {
        languages = some (codes "de-AT" ∷ codes "ja" ∷ []);
        language = some (codes "en");
      });
}

detect_locale_tests : detect_locale german ≡ de
unfolding detect_locale normalize_locale locale_of_normalized text_ops
detect_locale_tests = refl

german_window : HasWindow (mount german)
unfolding mount
german_window = cc

mount-set_locale_example :
    mount (set_locale ja (mount german)).browser ≡ set_locale ja (mount german)
mount-set_locale_example = mount-set_locale ja (mount german) german_window
