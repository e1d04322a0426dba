-- ===== src/Auth/Session.antt =====
-- The session's invariant: a signed-in user has an access token, whatever the server answers.
use go_check_ssl.Prelude.{
  [], ◌∷◌, ◌++◌, Option, true, none, ◌≡◌, ◌≢◌, refl, arith, inl, inr, ◌⊎◌, is_some,
}
use go_check_ssl.Prelude.Text.{Text, codes}
use go_check_ssl.Types.{ApiUser}
use go_check_ssl.Api.{
  Client, Result, done, threw, Body, RequestBody, profile_input, Method, post, put, outcome,
  continue_with, next_reply, returns, modify, pure, empty, rejected, credentials, and_then,
  set_refresh_handler, bearer_of, ◌>>=◌, AuthPayload,
}
use go_check_ssl.Api.Requests.{entry, outcome_unauthorized, after_fetch, attempt_lem}
use go_check_ssl.Auth.{
  send, as_auth, as_user, set_user, refresh_session, mount, login, logout, update_profile,
  apply_auth_payload, clear_session,
}
use go_check_ssl.Auth.Refresh.{send_lem, refresh_session_lem, Ends, request_ends, request}

abbrev pub HasToken : Client → Type 0
HasToken c = (c.user ≡ none) ⊎ (is_some c.access_token ≡ true)

pub refresh_session-HasToken : (c : Client) → HasToken (refresh_session c).1
unfolding apply_auth_payload clear_session
refresh_session-HasToken c = rw (refresh_session_lem c) (ground arith)

pub mount-HasToken : (c : Client) → HasToken (mount c).1
unfolding mount apply_auth_payload clear_session
mount-HasToken c = rw (refresh_session_lem (set_refresh_handler true c)) (ground arith)

-- What `login` makes of the answer: the session of the answer, or an error and no change.
abbrev pub signed_in : Result AuthPayload → Client → Result ApiUser × Client
signed_in (done p) c = (done p.user, apply_auth_payload p c)
signed_in (threw e) c = (threw e, c)

-- A login sends one request. If a session is answered, it is the client's from then on and its user
-- is the result; if not, the client's session is left as it was, and `login` rejects.
pub login_lem :
    (username password : Text) (c : Client)
    → login username password c
      ≡ signed_in
          (and_then (outcome (next_reply c.replies)) as_auth)
          (after_fetch (codes "/auth/login") post (credentials username password) c)
unfolding login
login_lem username password c =
    rw (send_lem (codes "/auth/login") (credentials username password) c) (ground arith)

pub login-HasToken : (a b : Text) (c : Client) → HasToken c → HasToken (login a b c).1
unfolding after_fetch apply_auth_payload
login-HasToken a b c h = rw (login_lem a b c) (ground arith)

-- Whatever the server answers to `/auth/logout`, the client forgets the session, and sends nothing else.
logout_lem :
    (c : Client)
    → ((logout c).1.access_token ≡ none)
      × ((logout c).1.user ≡ none)
      × ((logout c).1.log
          ≡ c.log ++ entry (codes "/auth/logout") post empty (bearer_of c.access_token) ∷ [])
unfolding logout clear_session after_fetch
logout_lem c = rw (send_lem (codes "/auth/logout") empty c) (ground arith)

pub send-HasToken :
    (path : Text) (body : RequestBody) (c : Client)
    → HasToken c
    → HasToken (continue_with (λ (b : Body). pure tt) (send path body c)).1
unfolding after_fetch
send-HasToken path body c h = rw (send_lem path body c) (ground arith)

module _ (path : Text) (method : Method) (body : RequestBody) (c : Client) where
  abbrev Keeps : Result Body × Client → Type 0
  Keeps q = (is_some q.1.access_token ≡ true) ⊎ ((q.1.user ≡ none) × (rejected q.0 ≡ true))

  request-Keeps :
      is_some c.access_token ≡ true → Ends path method body c → Keeps (request path method body c)
  unfolding after_fetch apply_auth_payload clear_session
  request-Keeps h (inl q) = rw q (inl h)
  request-Keeps h (inr (inl (p, e, q))) = rw (q, attempt_lem path method body) (inl refl)
  request-Keeps h (inr (inr (inl (p, u, q)))) = rw q (inl refl)
  request-Keeps h (inr (inr (inr (u, q)))) = rw q (inr (refl, outcome_unauthorized _ u))

updated : Result Body → Client → Result (Unit {0}) × Client
updated r c = continue_with (λ body. returns (as_user body) >>= λ u. modify (set_user u)) (r, c)

updated-HasToken :
    (r : Result Body) (c : Client)
    → (is_some c.access_token ≡ true) ⊎ ((c.user ≡ none) × (rejected r ≡ true))
    → HasToken (updated r c).1
unfolding updated set_user
updated-HasToken (done b) c h = ground arith
updated-HasToken (threw e) c h = ground arith

pub update_profile-HasToken :
    (u e : Text) (t s : Option Text) (c : Client)
    → c.user ≢ none
    → HasToken c
    → HasToken (update_profile u e t s c).1
unfolding update_profile updated
update_profile-HasToken u e t s c signed h = updated-HasToken _ _ (
    request-Keeps (codes "/auth/me") put (profile_input u e t s) c (ground arith)
      (request_ends (codes "/auth/me") put (profile_input u e t s) c))
