-- ===== src/Pages/Laws.antt =====
-- What submitting the forms does to the page, the session and the route.
use go_check_ssl.Prelude.{true, false, none, some, ◌≡◌, refl, arith, String}
use go_check_ssl.Prelude.Text.{Text, truthy}
use go_check_ssl.Types.{ApiUser}
use go_check_ssl.Api.{Client, Result, done, AuthPayload, and_then, outcome, next_reply}
use go_check_ssl.Api.Requests.{after_fetch}
use go_check_ssl.Auth.{as_auth, apply_auth_payload}
use go_check_ssl.Auth.Session.{login_lem}
use go_check_ssl.Locale.{Locale}
use go_check_ssl.Router.{AuthState, element_at, home}
use go_check_ssl.Router.Navigation.{in_shell}
use go_check_ssl.Pages.{PageState, submit_login, after_login, VerifyState, verify_effect}

-- The session as the router reads it.
abbrev pub auth_state : Client → AuthState
auth_state c = record { loading = c.loading; user = c.user }

-- How the server answers the next login.
abbrev pub login_answer : Client → Result AuthPayload
login_answer c = and_then (outcome (next_reply c.replies)) as_auth

home-in_shell :
    (a : AuthState) (u : ApiUser)
    → a.loading ≡ false
    → a.user ≡ some u
    → in_shell (element_at (home u.role) a) ≡ true
unfolding element_at
home-in_shell a u l h = ground arith

module _ (locale : Locale) (t : String → Text) (username password : Text) (s : PageState)
    (c : Client) where
  abbrev pub submitted : PageState × Client
  submitted = submit_login locale t username password s c

  abbrev pub SignsIn : AuthPayload → Type 0
  SignsIn p =
      (submitted.0.navigated ≡ some (home p.user.role))
      × (submitted.0.error ≡ none)
      × (in_shell (element_at (home p.user.role) (auth_state submitted.1)) ≡ true)

  -- Filled in, with no session being loaded, and answered with a session, the login form leads to the home of the user's role,
  -- which the router then shows inside the shell, with no redirect.
  pub submit_login_succeeds :
      (p : AuthPayload)
      → truthy username ≡ true
      → truthy password ≡ true
      → c.loading ≡ false
      → login_answer c ≡ done p
      → SignsIn p
  unfolding submit_login apply_auth_payload after_fetch after_login
  submit_login_succeeds p hu hp l e =
      rw (hu, hp, login_lem username password c, e) (refl, refl, home-in_shell _ p.user l refl)

module _ (locale : Locale) (t : String → Text) where
  -- The effect in the state that its first run left.
  abbrev pub verified_again : Text → VerifyState → Client → VerifyState × Client
  verified_again token v c =
      let (v', c') = verify_effect locale t token v c in verify_effect locale t token v' c'
