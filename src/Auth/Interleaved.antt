-- ===== src/Auth/Interleaved.antt =====
-- Requests in flight at the same time: `apiRequest` of apps/web/src/lib/api.ts with `refreshSession`
-- of lib/auth.tsx, cut at each `await` of `fetch`. The replies come in any order; between two of
-- them the code runs without a break, on the variables that all requests share.
pub mod Alone
pub mod Schedules
pub mod Progress
pub mod Races
use go_check_ssl.Prelude.{
  ℕ, Bool, true, false, Option, none, some, List, [], ◌∷◌, ◌++◌, ◌&&◌, if◌then◌else◌,
}
use go_check_ssl.Prelude.Text.{Text, codes, truthy}
use go_check_ssl.Api.{
  Client, Result, done, threw, Body, Method, RequestBody, Reply, post, empty, bearer_of, next_reply,
  later_replies, outcome, is_unauthorized, and_then, AuthPayload,
}
use go_check_ssl.Auth.{as_auth, apply_auth_payload, clear_session}

-- The arguments of `apiRequest`.
pub record Request : Type 0 where
  pub path : Text
  pub method : Method
  pub body : RequestBody
  pub retry : Bool

-- Which `fetch` the request waits for.
pub data Phase : Type 0 where
  sent : Phase
  refreshing : (first : Reply) → Phase
  retried : Phase
  finished : Result Body → Phase

-- A call of `fetch`, up to its `await`: the header is read from the shared token.
unfoldable pub issue : Text → Method → RequestBody → Client → Client
unfolding bearer_of
issue path method body c = record c {
  log =
      c.log
      ++ record { path = path; method = method; body = body; bearer = bearer_of c.access_token }
        ∷ [];
}

unfoldable pub start : Request → Client → Phase × Client
unfolding issue
start r c = (sent, issue r.path r.method r.body c)

-- `if (refreshed) { return apiRequest(path, init, false); }`, on the client that holds the token.
unfoldable pub retry_with : Request → Reply → AuthPayload → Client → Phase × Client
unfolding issue
retry_with r first p c =
    if truthy p.access_token
    then (retried, issue r.path r.method r.body c)
    else (finished (outcome first), c)

-- The answer to `/auth/refresh`.
unfoldable pub refreshed : Request → Reply → Result AuthPayload → Client → Phase × Client
unfolding retry_with
refreshed r first (done p) c = retry_with r first p (apply_auth_payload p c)
refreshed r first (threw e) c = (finished (outcome first), clear_session c)

-- What a reply to the `fetch` that the request waits for does.
unfoldable pub receive : Request → Phase → Reply → Client → Phase × Client
unfolding refreshed issue
receive r sent reply c =
    if is_unauthorized reply && r.retry && c.has_refresh_handler
    then (refreshing reply, issue (codes "/auth/refresh") post empty c)
    else (finished (outcome reply), c)
receive r (refreshing first) reply c = refreshed r first (and_then (outcome reply) as_auth) c
receive r retried reply c = (finished (outcome reply), c)
receive r (finished result) reply c = (finished result, c)
