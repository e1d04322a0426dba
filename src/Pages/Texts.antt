-- ===== src/Pages/Texts.antt =====
-- The pages with the texts of apps/web/src/lib/i18n.tsx.
use go_check_ssl.Prelude.{String, true, Option, none, some, ◌≡◌, refl}
use go_check_ssl.Prelude.Text.{Text, truthy}
use go_check_ssl.Types.{ApiUser}
use go_check_ssl.Api.{Client, Result, done, threw, Thrown}
use go_check_ssl.Auth.{login, register, forgot_password, reset_password}
use go_check_ssl.Locale.{Locale}
use go_check_ssl.ApiError.Laws.{never_empty}
use go_check_ssl.Translation.Lookup.{t, dictionary, find_message}
use go_check_ssl.Translation.Parameters.{find_parameters}
use go_check_ssl.Translation.Complete.{IsPlainKey, truthy-t}
use go_check_ssl.Translation.Messages.English.{en_dictionary}
use go_check_ssl.Pages.{
  PageState, get_api_error_message, submit_login, submit_register, submit_forgot, submit_reset,
  after_login, after_register, after_forgot, after_reset,
}

-- `t(key)`
abbrev pub t_of : Locale → String → Text
t_of locale key = t locale key none

-- The fallbacks of the pages are keys, and take no parameters.
fallbacks :
    IsPlainKey "auth.loginFallbackError"
    × IsPlainKey "auth.registrationFallbackError"
    × IsPlainKey "auth.resetPasswordFallbackError"
    × IsPlainKey "auth.verifyEmailFallbackError"
unfolding dictionary en_dictionary find_message find_parameters
fallbacks = ((refl, refl), (refl, refl), (refl, refl), (refl, refl))

error_shown :
    (locale : Locale) (key : String) (reason : Thrown)
    → IsPlainKey key
    → truthy (get_api_error_message locale (t_of locale) reason key) ≡ true
unfolding get_api_error_message
error_shown locale key reason plain =
    never_empty locale reason (t_of locale key) (truthy-t locale key plain)

-- No error, or one with a text.
abbrev pub HasText : Option Text → Type 0
HasText none = Unit
HasText (some s) = truthy s ≡ true

-- An error with a text where the promise was rejected.
abbrev pub Reports {ℓ} : {A : Type ℓ} → Result A → Option Text → Type 0
Reports (done a) shown = Unit
Reports (threw reason) none = ⊥
Reports (threw reason) (some s) = truthy s ≡ true

module _ (locale : Locale) (s : PageState) where
  login-Reports : (r : Result ApiUser) → Reports r (after_login locale (t_of locale) r s).error
  unfolding after_login
  login-Reports (done u) = tt
  login-Reports (threw x) = error_shown locale "auth.loginFallbackError" x fallbacks.0

  register-Reports :
      (r : Result (Unit {0})) → Reports r (after_register locale (t_of locale) r s).error
  unfolding after_register
  register-Reports (done u) = tt
  register-Reports (threw x) = error_shown locale "auth.registrationFallbackError" x fallbacks.1

  forgot-Reports : (r : Result (Unit {0})) → Reports r (after_forgot locale (t_of locale) r s).error
  unfolding after_forgot
  forgot-Reports (done u) = tt
  forgot-Reports (threw x) = error_shown locale "auth.loginFallbackError" x fallbacks.0

  reset-Reports : (r : Result (Unit {0})) → Reports r (after_reset locale (t_of locale) r s).error
  unfolding after_reset
  reset-Reports (done u) = tt
  reset-Reports (threw x) = error_shown locale "auth.resetPasswordFallbackError" x fallbacks.2

-- With the program's own texts, in every locale: where a form is filled in and its call rejects,
-- whatever the reason, the page shows an error that is not empty. This holds of the forms of login,
-- of registration, of asking for a reset, and of a new password.
pub submit-Reports :
    (locale : Locale) (a b : Text) (s : PageState) (c : Client)
    → truthy a ≡ true
    → truthy b ≡ true
    → Reports (login a b c).0 (submit_login locale (t_of locale) a b s c).0.error
      × Reports (register a b c).0 (submit_register locale (t_of locale) a b s c).0.error
      × Reports (forgot_password a c).0 (submit_forgot locale (t_of locale) a s c).0.error
      × Reports (reset_password a b c).0 (submit_reset locale (t_of locale) a b s c).0.error
unfolding submit_login submit_register submit_forgot submit_reset
submit-Reports locale a b s c ha hb =
    let start = record s { error = none } in
    rw (ha, hb)
      (
        login-Reports locale start (login a b c).0,
        register-Reports locale start (register a b c).0,
        forgot-Reports locale start (forgot_password a c).0,
        reset-Reports locale s (reset_password a b c).0,
      )
