-- ===== src/Translation/Checked.antt =====
-- The check of `fits` on the dictionaries of apps/web/src/lib/i18n.tsx.
use go_check_ssl.Prelude.{true, ◌≡◌, refl, every}
use go_check_ssl.Prelude.Text.{codes}
use go_check_ssl.Prelude.Text.Split.{lacks}
use go_check_ssl.Locale.{Locale, zh_cn, zh_tw, en, es, fr, de, ru, ar, pt, ja, ko, hi, it}
use go_check_ssl.Translation.Lookup.{dictionary, template}
use go_check_ssl.Translation.Parameters.{fits}
use go_check_ssl.Translation.Messages.English.{en_dictionary}
use go_check_ssl.Translation.Messages.SimplifiedChinese.{zh_cn_dictionary}
use go_check_ssl.Translation.Messages.TraditionalChinese.{zh_tw_dictionary}
use go_check_ssl.Translation.Messages.French.{fr_dictionary}
use go_check_ssl.Translation.Messages.Russian.{ru_dictionary}
use go_check_ssl.Translation.Messages.Japanese.{ja_dictionary}
use go_check_ssl.Translation.Messages.Spanish.{es_dictionary}
use go_check_ssl.Translation.Messages.German.{de_dictionary}
use go_check_ssl.Translation.Messages.Arabic.{ar_dictionary}
use go_check_ssl.Translation.Messages.Portuguese.{pt_dictionary}
use go_check_ssl.Translation.Messages.Korean.{ko_dictionary}
use go_check_ssl.Translation.Messages.Hindi.{hi_dictionary}
use go_check_ssl.Translation.Messages.Italian.{it_dictionary}

-- Every message of every dictionary, by evaluation.
pub fits-dictionary : (locale : Locale) → every fits (dictionary locale) ≡ true
unfolding fits dictionary en_dictionary zh_cn_dictionary zh_tw_dictionary fr_dictionary
    ru_dictionary ja_dictionary es_dictionary de_dictionary ar_dictionary pt_dictionary
    ko_dictionary hi_dictionary it_dictionary
fits-dictionary en = refl
fits-dictionary zh_cn = refl
fits-dictionary zh_tw = refl
fits-dictionary fr = refl
fits-dictionary ru = refl
fits-dictionary ja = refl
fits-dictionary es = refl
fits-dictionary de = refl
fits-dictionary ar = refl
fits-dictionary pt = refl
fits-dictionary ko = refl
fits-dictionary hi = refl
fits-dictionary it = refl

-- The texts that the domain panel passes on as values.
pub lacks-template :
    (locale : Locale)
    → (lacks b'$' (codes (template locale "common.none")) ≡ true)
      × (lacks b'$' (codes (template locale "domains.autoResolve")) ≡ true)
unfolding template codes dictionary zh_cn_dictionary zh_tw_dictionary en_dictionary es_dictionary
    fr_dictionary de_dictionary ru_dictionary ar_dictionary pt_dictionary ja_dictionary
    ko_dictionary hi_dictionary it_dictionary
lacks-template zh_cn = (refl, refl)
lacks-template zh_tw = (refl, refl)
lacks-template en = (refl, refl)
lacks-template es = (refl, refl)
lacks-template fr = (refl, refl)
lacks-template de = (refl, refl)
lacks-template ru = (refl, refl)
lacks-template ar = (refl, refl)
lacks-template pt = (refl, refl)
lacks-template ja = (refl, refl)
lacks-template ko = (refl, refl)
lacks-template hi = (refl, refl)
lacks-template it = (refl, refl)
