-- ===== src/Translation/Lookup.antt =====
-- `messages` of apps/web/src/lib/i18n.tsx, and `t` and `formatDateTime` of its provider.
use text.Mathlib.Text.{◌==◌}
use go_check_ssl.Prelude.{String, List, [], ◌∷◌, Option, none, some, ◌or◌, if◌then◌else◌}
use go_check_ssl.Prelude.Text.{Text, codes, truthy}
use go_check_ssl.Locale.{Locale, zh_cn, zh_tw, en, es, fr, de, ru, ar, pt, ja, ko, hi, it}
use go_check_ssl.Translation.{interpolate}
use go_check_ssl.Translation.Messages.English.{en_dictionary}
use go_check_ssl.Translation.Messages.SimplifiedChinese.{zh_cn_dictionary}
use go_check_ssl.Translation.Messages.TraditionalChinese.{zh_tw_dictionary}
use go_check_ssl.Translation.Messages.French.{fr_dictionary}
use go_check_ssl.Translation.Messages.Russian.{ru_dictionary}
use go_check_ssl.Translation.Messages.Japanese.{ja_dictionary}
use go_check_ssl.Translation.Messages.Spanish.{es_dictionary}
use go_check_ssl.Translation.Messages.German.{de_dictionary}
use go_check_ssl.Translation.Messages.Arabic.{ar_dictionary}
use go_check_ssl.Translation.Messages.Portuguese.{pt_dictionary}
use go_check_ssl.Translation.Messages.Korean.{ko_dictionary}
use go_check_ssl.Translation.Messages.Hindi.{hi_dictionary}
use go_check_ssl.Translation.Messages.Italian.{it_dictionary}

unfoldable pub dictionary : Locale → List (String × String)
dictionary zh_cn = zh_cn_dictionary
dictionary zh_tw = zh_tw_dictionary
dictionary en = en_dictionary
dictionary fr = fr_dictionary
dictionary ru = ru_dictionary
dictionary ja = ja_dictionary
dictionary es = es_dictionary
dictionary de = de_dictionary
dictionary ar = ar_dictionary
dictionary pt = pt_dictionary
dictionary ko = ko_dictionary
dictionary hi = hi_dictionary
dictionary it = it_dictionary

-- `messages[key]`: no key of the program is a member of `Object.prototype`.
unfoldable pub find_message : String → List (String × String) → Option String
find_message key [] = none
find_message key ((k, message) ∷ rest) = if k == key then some message else find_message key rest

unfoldable pub template : Locale → String → String
unfolding find_message
template locale key =
    find_message key (dictionary locale) or find_message key (dictionary en) or key

unfoldable pub t : Locale → String → Option (List (Text × Text)) → Text
unfolding template interpolate
t locale key params = interpolate (codes (template locale key)) params

-- `new Date(text)`, `none` where its time is NaN, and `Intl.DateTimeFormat` are the platform's.
module _ {ℓ} {Date : Type ℓ} (parse_date : Text → Option Date) (format : Locale → Date → Text)
    (locale : Locale) where
  unfoldable pub formatted : Option Date → Text
  formatted none = t locale "common.none" none
  formatted (some date) = format locale date

  unfoldable pub format_date_time : Option Text → Text
  unfolding formatted
  format_date_time none = t locale "common.none" none
  format_date_time (some value) =
      if truthy value then formatted (parse_date value) else t locale "common.none" none
