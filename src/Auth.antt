-- ===== src/Auth.antt =====
-- `AuthProvider` of apps/web/src/lib/auth.tsx: the callbacks of the context and the two effects.
pub mod Session
pub mod Interleaved
pub mod Refresh
pub mod Callbacks
mod Tests
use go_check_ssl.Prelude.{String, true, false, Option, none, some}
use go_check_ssl.Prelude.Text.{Text, codes}
use go_check_ssl.Types.{ApiUser}
use go_check_ssl.Api
use go_check_ssl.Api.{
  Client, M, Result, done, threw, Thrown, error, AuthPayload, Body, auth, profile, failure, json,
  tested_endpoint, undefined, malformed, RequestBody, empty, credentials, verify_token, for_account,
  new_password, profile_input, post, put, ◌>>=◌, ◌>>◌, pure, returns, catch, finally, modify,
  api_request, set_access_token, set_refresh_handler,
}

-- Reading a field of `undefined` throws.
abbrev pub type_error : Thrown
unfolding codes
type_error = error (codes "Cannot read properties of undefined")

-- `payload.tokens.access_token`, on an answer that is only cast to `AuthPayload`.
unfoldable pub as_auth : Body → Result AuthPayload
as_auth (auth p) = done p
as_auth _ = threw type_error

-- `payload.user`
unfoldable pub as_user : Body → Result (Option ApiUser)
as_user (auth p) = done (some p.user)
as_user (profile u) = done (some u)
as_user (failure e) = done none
as_user (tested_endpoint name) = done none
as_user json = done none
as_user undefined = threw type_error
as_user malformed = threw type_error

unfoldable pub set_user : Option ApiUser → Client → Client
set_user u c = record c { user = u }

unfoldable pub apply_auth_payload : AuthPayload → Client → Client
unfolding set_access_token set_user
apply_auth_payload p c = set_user (some p.user) (set_access_token (some p.access_token) c)

unfoldable pub clear_session : Client → Client
unfolding set_access_token set_user
clear_session c = set_user none (set_access_token none c)

-- `retry` is off, so the handler of this call is never asked.
unfoldable pub send : Text → RequestBody → M Body
send path body = api_request (pure none) path post body false

unfoldable pub refresh_session : M (Option Text)
unfolding as_auth apply_auth_payload clear_session
refresh_session =
    catch
      (do
        body ← send (codes "/auth/refresh") empty
        payload ← returns (as_auth body)
        modify (apply_auth_payload payload)
        pure (some payload.access_token))
      (λ _. modify clear_session >> pure none)

-- The effects of the first render: the handler is registered, then the session is restored.
unfoldable pub mount : M (Unit {0})
unfolding set_refresh_handler
mount = do
  modify (set_refresh_handler true)
  refresh_session
  modify (λ c. record c { loading = false })

-- The clean-up of the first effect.
unfoldable pub unmount : M (Unit {0})
unfolding set_refresh_handler
unmount = modify (set_refresh_handler false)

unfoldable pub login : Text → Text → M ApiUser
unfolding as_auth apply_auth_payload
login username password = do
  body ← send (codes "/auth/login") (credentials username password)
  payload ← returns (as_auth body)
  modify (apply_auth_payload payload)
  pure payload.user

unfoldable pub logout : M (Unit {0})
unfolding clear_session
logout = finally (send (codes "/auth/logout") empty >> pure tt) clear_session

unfoldable pub register : Text → Text → M (Unit {0})
register username password =
    send (codes "/auth/register") (credentials username password) >> pure tt

unfoldable pub verify_email : Text → M (Unit {0})
verify_email t = send (codes "/auth/verify-email") (verify_token t) >> pure tt

unfoldable pub forgot_password : Text → M (Unit {0})
forgot_password a = send (codes "/auth/forgot-password") (for_account a) >> pure tt

unfoldable pub reset_password : Text → Text → M (Unit {0})
reset_password t p = send (codes "/auth/reset-password") (new_password t p) >> pure tt

-- The only callback whose request may refresh the session.
unfoldable pub update_profile : Text → Text → Option Text → Option Text → M (Unit {0})
unfolding as_user set_user
update_profile username email title subtitle = do
  body ←
      api_request refresh_session (codes "/auth/me") put
        (profile_input username email title subtitle) true
  u ← returns (as_user body)
  modify (set_user u)

-- What a run of a callback computes with.
unfoldable pub auth_ops : Unit {0}
unfolding send refresh_session as_auth as_user apply_auth_payload clear_session set_user
    Api.api_request Api.attempt Api.outcome Api.fetch Api.retry_after_refresh
auth_ops = tt
