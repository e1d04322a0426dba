-- ===== src/Pages/Tests.antt =====
use go_check_ssl.Prelude.{String, true, false, none, some, refl, ◌≡◌, List, [], ◌∷◌}
use go_check_ssl.Prelude.Text.{Text, codes, truthy}
use go_check_ssl.Types.{ApiUser, super_admin}
use go_check_ssl.Api.{
  Client, Reply, response, auth, failure, undefined, done, threw, api_error, AuthPayload,
}
use go_check_ssl.Auth.{
  auth_ops, mount, verify_email, login, register, forgot_password, reset_password,
}
use go_check_ssl.Router.{Screen, settle, app}
use go_check_ssl.Router.Navigation.{redirects}
use go_check_ssl.Pages.Start.{is_loading, mount_settles}
use go_check_ssl.Pages.Texts.{t_of, Reports, submit-Reports}
use go_check_ssl.Locale.{de}
use go_check_ssl.Pages.{
  opened, VerifyState, idle, submit_login, submit_register, submit_forgot, submit_reset,
}
use go_check_ssl.Pages.Laws.{SignsIn, login_answer, auth_state, submit_login_succeeds}

abbrev root_user : ApiUser
root_user = record {
  id = 1;
  tenant_id = 1;
  username = codes "root";
  email = none;
  role = super_admin;
  email_verified = true;
  last_login_at = none;
}

abbrev client : List Reply → Client
client replies = record {
  access_token = none;
  has_refresh_handler = true;
  user = none;
  loading = false;
  replies = replies;
  log = [];
}

abbrev session : AuthPayload
session = record { user = root_user; access_token = codes "t1" }

abbrev refused : Reply
refused = response 401 [] (failure (some (codes "invalid credentials")))

abbrev key_itself : String → Text
key_itself s = codes s

filled_in : (truthy (codes "root") ≡ true) × (truthy (codes "pw") ≡ true)
unfolding codes
filled_in = (refl, refl)

answers :
    (login_answer (client (response 200 [] (auth session) ∷ [])) ≡ done session)
    × (login_answer (client (refused ∷ [])) ≡ threw (api_error 401 (codes "invalid credentials")))
unfolding auth_ops codes
answers = (refl, refl)

submit_login_succeeds_example :
    SignsIn de key_itself
      (codes "root")
      (codes "pw")
      opened
      (client (response 200 [] (auth session) ∷ []))
      session
submit_login_succeeds_example =
    submit_login_succeeds de key_itself (codes "root") (codes "pw") opened
      (client (response 200 [] (auth session) ∷ [])) session filled_in.0 filled_in.1 refl answers.0

-- The server takes the token, and refuses it the second time.
abbrev taken_once : Client
taken_once =
    client
      (response 204 [] undefined ∷ response 400 [] (failure (some (codes "invalid token"))) ∷ [])

abbrev unopened : VerifyState
unopened = record { status = idle; error = [] }

abbrev taken : Client
taken = (verify_email (codes "pw") taken_once).1

abbrev refusing : Client
refusing = client (refused ∷ [])

submit-Reports_example :
    Reports
      (login (codes "root") (codes "pw") refusing).0
      (submit_login de (t_of de) (codes "root") (codes "pw") opened refusing).0.error
    × Reports
        (register (codes "root") (codes "pw") refusing).0
        (submit_register de (t_of de) (codes "root") (codes "pw") opened refusing).0.error
    × Reports
        (forgot_password (codes "root") refusing).0
        (submit_forgot de (t_of de) (codes "root") opened refusing).0.error
    × Reports
        (reset_password (codes "root") (codes "pw") refusing).0
        (submit_reset de (t_of de) (codes "root") (codes "pw") opened refusing).0.error
submit-Reports_example =
    submit-Reports de (codes "root") (codes "pw") opened refusing filled_in.0 filled_in.1

mount_settles_example :
    (s : Screen) × (settle 2 app (auth_state (mount refusing).1) ≡ some s)
    × (redirects s ≡ false)
    × (is_loading s ≡ false)
mount_settles_example = mount_settles refusing app
