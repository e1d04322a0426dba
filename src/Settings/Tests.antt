-- ===== src/Settings/Tests.antt =====
-- The settings page of a tenant whose public status has not been loaded.
use go_check_ssl.Prelude.{String, true, false, Option, none, some, [], ◌∷◌, ◌≡◌, refl}
use go_check_ssl.Prelude.Text.{Text, codes, truthy}
use go_check_ssl.Types.{ApiUser, tenant_owner, PublicTenantStatus}
use go_check_ssl.Api.{Client, response, profile, profile_input, outcome, next_reply, done}
use go_check_ssl.Auth.{auth_ops}
use go_check_ssl.Locale.{de}
use go_check_ssl.Settings.{
  SettingsState, dependencies, reset_values, settings_effect, first_render, submit_settings,
}
use go_check_ssl.Settings.Laws.{
  saved, updated_client, submit_settings_erases, settings_effect-follows,
}

abbrev owner : ApiUser
owner = record {
  id = 7;
  tenant_id = 3;
  username = codes "ann";
  email = some (codes "ann@example.org");
  role = tenant_owner;
  email_verified = false;
  last_login_at = none;
}

abbrev client : Client
client = record {
  access_token = some (codes "t1");
  has_refresh_handler = true;
  user = some owner;
  loading = false;
  replies = response 200 [] (profile owner) ∷ [];
  log = [];
}

abbrev key_itself : String → Text
key_itself s = codes s

-- A query whose request fails again.
abbrev still_missing : Option PublicTenantStatus → Client → Option PublicTenantStatus × Client
still_missing status c = (status, c)

-- What the effect made of the empty form once the session was there.
abbrev filled_in : SettingsState
filled_in =
    settings_effect (dependencies none none) (dependencies (some owner) none)
      (first_render none none)

named : truthy (codes "ann") ≡ true
unfolding codes
named = refl

unloaded : filled_in.public_status ≡ none
unfolding settings_effect codes dependencies first_render
unloaded = refl

taken : outcome (next_reply client.replies) ≡ done (profile owner)
unfolding auth_ops
taken = refl

as_opened : (first_render none none).values ≡ reset_values (dependencies none none)
unfolding first_render reset_values dependencies
as_opened = refl

settings_effect-follows_example : filled_in.values ≡ reset_values (dependencies (some owner) none)
settings_effect-follows_example =
    settings_effect-follows (dependencies none none) (dependencies (some owner) none)
      (first_render none none) as_opened

as_filled : filled_in.values ≡ reset_values (dependencies (some owner) filled_in.public_status)
unfolding settings_effect codes dependencies first_render
as_filled = refl

submit_settings_erases_example :
    submit_settings de key_itself still_missing filled_in client
    ≡ saved de key_itself still_missing filled_in (
        still_missing none (
          updated_client
            (profile_input (codes "ann") (codes "ann@example.org") (some []) (some []))
            owner
            client))
submit_settings_erases_example =
    submit_settings_erases de key_itself still_missing owner owner filled_in client named unloaded
      as_filled taken
