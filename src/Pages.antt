-- ===== src/Pages.antt =====
-- The pages of the signed-out under apps/web/src/pages: login, register, forgot-password,
-- reset-password and verify-email. A page's state is what its `useState`s hold, with the route that
-- `navigate` was last called with. react-hook-form calls a submit handler only when each field
-- registered as required is not empty.
pub mod Laws
pub mod Texts
pub mod Start
mod Tests
use go_check_ssl.Prelude.{Bool, true, false, Option, none, some, ◌&&◌, if◌then◌else◌, String}
use go_check_ssl.Prelude.Text.{Text, codes, truthy}
use go_check_ssl.Types.{ApiUser}
use go_check_ssl.Api.{Client, M, Result, done, threw, Thrown}
use go_check_ssl.Auth.{login, register, forgot_password, reset_password, verify_email}
use go_check_ssl.Locale.{Locale}
use go_check_ssl.ApiError.{get_localized_api_error_message}
use go_check_ssl.Router.{Route, home}
use go_check_ssl.Router

pub record PageState : Type 0 where
  pub message : Option Text
  pub error : Option Text
  pub navigated : Option Route

unfoldable pub opened : PageState
opened = record { message = none; error = none; navigated = none }

pub data VerifyStatus : Type 0 where
  idle loading success failed : VerifyStatus

pub record VerifyState : Type 0 where
  pub status : VerifyStatus
  pub error : Text

-- The locale of `useI18n` and its `t`.
module _ (locale : Locale) (t : String → Text) where
  unfoldable pub get_api_error_message : Thrown → String → Text
  get_api_error_message reason key = get_localized_api_error_message locale reason (t key)

  unfoldable pub after_login : Result ApiUser → PageState → PageState
  unfolding get_api_error_message home
  after_login (done user) s = record s { navigated = some (home user.role) }
  after_login (threw reason) s = record s {
    error = some (get_api_error_message reason "auth.loginFallbackError");
  }

  unfoldable pub submit_login : Text → Text → PageState → Client → PageState × Client
  submit_login username password s c =
      if truthy username && truthy password
      then (let (r, c') = login username password c in
          (after_login r (record s { error = none }), c'))
      else (s, c)

  unfoldable pub after_register : Result (Unit {0}) → PageState → PageState
  unfolding get_api_error_message
  after_register (done _) s = record s {
    message = some (t "auth.registrationSuccess");
    navigated = some Router.login;
  }
  after_register (threw reason) s = record s {
    error = some (get_api_error_message reason "auth.registrationFallbackError");
  }

  unfoldable pub submit_register : Text → Text → PageState → Client → PageState × Client
  submit_register username password s c =
      if truthy username && truthy password
      then (let (r, c') = register username password c in
          (after_register r (record s { error = none }), c'))
      else (s, c)

  unfoldable pub after_forgot : Result (Unit {0}) → PageState → PageState
  unfolding get_api_error_message
  after_forgot (done _) s = record s { message = some (t "auth.forgotPasswordSuccess") }
  after_forgot (threw reason) s = record s {
    message = none;
    error = some (get_api_error_message reason "auth.loginFallbackError");
  }

  unfoldable pub submit_forgot : Text → PageState → Client → PageState × Client
  submit_forgot account s c =
      if truthy account
      then (let (r, c') = forgot_password account c in
          (after_forgot r (record s { error = none }), c'))
      else (s, c)

  unfoldable pub after_reset : Result (Unit {0}) → PageState → PageState
  unfolding get_api_error_message
  after_reset (done _) s = record s { navigated = some Router.login }
  after_reset (threw reason) s = record s {
    error = some (get_api_error_message reason "auth.resetPasswordFallbackError");
  }

  -- The button is disabled without a token; the error of an earlier try is not taken away.
  unfoldable pub submit_reset : Text → Text → PageState → Client → PageState × Client
  submit_reset token password s c =
      if truthy token && truthy password
      then (let (r, c') = reset_password token password c in (after_reset r s, c'))
      else (s, c)

  unfoldable pub after_verify : Result (Unit {0}) → VerifyState → VerifyState
  unfolding get_api_error_message
  after_verify (done _) v = record v { status = success }
  after_verify (threw reason) v = record v {
    status = failed;
    error = get_api_error_message reason "auth.verifyEmailFallbackError";
  }

  -- The effect of the page.
  unfoldable pub verify_effect : Text → VerifyState → Client → VerifyState × Client
  verify_effect token v c =
      if truthy token
      then (let (r, c') = verify_email token c in
          (after_verify r (record v { status = loading }), c'))
      else (v, c)
