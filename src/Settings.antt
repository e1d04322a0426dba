-- ===== src/Settings.antt =====
-- apps/web/src/pages/settings-page.tsx: the values of the form, the effect that fills them in, what
-- is shown of them, and the submit handler. `publicStatusQuery` is TanStack Query's: its data are
-- part of the page's state, and `refetch`, which does not reject, is a parameter.
pub mod Laws
mod Tests
use go_check_ssl.Prelude.{
  String, Bool, true, false, not, [], Option, none, some, chain, chain?, ◌or◌, ◌&&◌, if◌then◌else◌,
}
use go_check_ssl.Prelude.Text.{Text, truthy, text_eq}
use go_check_ssl.Types.{ApiUser, ApiTenant, PublicTenantStatus}
use go_check_ssl.Api.{Client, Result, done, threw}
use go_check_ssl.Auth.{update_profile}
use go_check_ssl.Locale.{Locale}
use go_check_ssl.ApiError.{get_localized_api_error_message}
use go_check_ssl.PublicStatus.{
  TitleSource, resolve_public_status_title, resolve_public_status_subtitle,
}

pub record SettingsFormValues : Type 0 where
  pub username : Text
  pub email : Text
  pub public_status_title : Text
  pub public_status_subtitle : Text

pub record SettingsState : Type 0 where
  pub message : Option Text
  pub error : Option Text
  pub values : SettingsFormValues
  pub public_status : Option PublicTenantStatus

-- The dependencies of the effect.
pub record Dependencies : Type 0 where
  pub subtitle : Option Text
  pub title : Option Text
  pub email : Option Text
  pub username : Option Text

unfoldable pub dependencies : Option ApiUser → Option PublicTenantStatus → Dependencies
dependencies user status = record {
  subtitle = chain? status (λ s. s.tenant.public_status_subtitle);
  title = chain? status (λ s. s.tenant.public_status_title);
  email = chain? user (λ u. u.email);
  username = chain user (λ u. u.username);
}

-- What the effect resets the form to.
unfoldable pub reset_values : Dependencies → SettingsFormValues
reset_values d = record {
  username = d.username or [];
  email = d.email or [];
  public_status_title = d.title or [];
  public_status_subtitle = d.subtitle or [];
}

-- The page before its first effect, which runs in any case: where nothing has been loaded it resets
-- the form to the values that the form already has.
unfoldable pub first_render : Option ApiUser → Option PublicTenantStatus → SettingsState
first_render user status = record {
  message = none;
  error = none;
  values = record {
    username = chain user (λ u. u.username) or [];
    email = chain? user (λ u. u.email) or [];
    public_status_title = [];
    public_status_subtitle = [];
  };
  public_status = status;
}

-- `a === b`
unfoldable pub optional_eq : Option Text → Option Text → Bool
optional_eq none none = true
optional_eq (some s) (some t) = text_eq s t
optional_eq _ _ = false

unfoldable pub unchanged : Dependencies → Dependencies → Bool
unfolding optional_eq
unchanged d e =
    optional_eq d.subtitle e.subtitle
    && optional_eq d.title e.title
    && optional_eq d.email e.email
    && optional_eq d.username e.username

-- After a render with the dependencies `after`, where the render before had `before`.
unfoldable pub settings_effect : (before after : Dependencies) → SettingsState → SettingsState
unfolding unchanged reset_values
settings_effect before after s =
    if unchanged before after then s else record s { values = reset_values after }

unfoldable pub effective_title : (t : String → Text) → SettingsState → Text
effective_title t s =
    resolve_public_status_title
      (chain s.public_status (λ status. record {
        name = status.tenant.name;
        public_status_title = some s.values.public_status_title;
      }))
      (t "statusPage.titleFallback")

unfoldable pub effective_subtitle : (t : String → Text) → SettingsState → Text
effective_subtitle t s =
    resolve_public_status_subtitle (some s.values.public_status_subtitle)
      (t "statusPage.subtitleFallback")

-- The data of the query after `refetch`, by those before.
module _ (locale : Locale) (t : String → Text)
    (refetch : Option PublicTenantStatus → Client → Option PublicTenantStatus × Client) where
  unfoldable pub after_update : Result (Unit {0}) → SettingsState → Client → SettingsState × Client
  after_update (done _) s c =
      let (status, c') = refetch s.public_status c in
      (record s { message = some (t "settings.saveSuccess"); public_status = status }, c')
  after_update (threw reason) s c = (
    record s {
      error = some (get_localized_api_error_message locale reason (t "settings.saveError"));
    },
    c,
  )

  unfoldable pub submit_settings : SettingsState → Client → SettingsState × Client
  unfolding after_update
  submit_settings s c =
      if truthy s.values.username
      then (let (r, c') =
            update_profile s.values.username s.values.email (some s.values.public_status_title)
              (some s.values.public_status_subtitle) c in
          after_update r (record s { error = none; message = none }) c')
      else (s, c)
