-- ===== src/Auth/Tests.antt =====
use go_check_ssl.Prelude.{none, some, true, false, refl, ◌≡◌, List, [], ◌∷◌, inr, ◌≤◌, ◌+◌, ◌*◌}
use go_check_ssl.Prelude.Text.{codes, truthy}
use go_check_ssl.Types.{ApiUser, tenant_owner}
use go_check_ssl.Api.{
  Client, AuthPayload, Reply, response, auth, profile, failure, done, threw, api_error, put,
  profile_input, next_reply, RequestBody, is_unauthorized, outcome, and_then,
}
use go_check_ssl.Api.Requests.{after_fetch}
use go_check_ssl.Auth.{auth_ops, as_auth}
use go_check_ssl.Auth.Refresh.{
  request, sent_once, renewal, IsRenewed, api_request-IsRenewed, IsExpired, api_request-IsExpired,
}
use go_check_ssl.Auth.Session.{HasToken}
use go_check_ssl.Auth.Interleaved.{Request, finished, retried}
use go_check_ssl.Auth.Interleaved.Schedules.{World, ScheduleEvent, query, run_schedule}
use go_check_ssl.Auth.Interleaved.Progress.{awaited, total, launches, awaited_bounded}
use go_check_ssl.Auth.Interleaved.Races.{racing, idle_world, run_schedule-HasToken, refreshes_race}
use go_check_ssl.Auth.Callbacks.{logs_in, run_callback}

abbrev ann : ApiUser
ann = record {
  id = 7;
  tenant_id = 3;
  username = codes "ann";
  email = none;
  role = tenant_owner;
  email_verified = false;
  last_login_at = none;
}

abbrev expired : Reply
expired = response 401 (codes "Unauthorized") (failure (some (codes "invalid access token")))

abbrev renewed_session : AuthPayload
renewed_session = record { user = ann; access_token = codes "t2" }

abbrev client : List Reply → Client
client replies = record {
  access_token = some (codes "t1");
  has_refresh_handler = true;
  user = some ann;
  loading = false;
  replies = replies;
  log = [];
}

abbrev save : RequestBody
save = profile_input (codes "ann") (codes "") none none

abbrev renewing : Client
renewing =
    client (expired ∷ response 200 [] (auth renewed_session) ∷ response 200 [] (profile ann) ∷ [])

renewing-request : (request (codes "/auth/me") put save renewing).0 ≡ done (profile ann)
unfolding auth_ops codes
renewing-request = refl

renewing_answers : renewal (sent_once (codes "/auth/me") put save renewing) ≡ done renewed_session
unfolding auth_ops codes after_fetch
renewing_answers = refl

renewing_tests :
    (is_unauthorized (next_reply renewing.replies) ≡ true)
    × (truthy renewed_session.access_token ≡ true)
unfolding auth_ops codes
renewing_tests = (refl, refl)

api_request-IsRenewed_example : IsRenewed (codes "/auth/me") put save renewing renewed_session
api_request-IsRenewed_example =
    api_request-IsRenewed (codes "/auth/me") put save renewing renewed_session refl renewing_tests.0
      renewing_answers renewing_tests.1

-- The refresh cookie has expired too.
abbrev expiring : Client
expiring = client (expired ∷ expired ∷ [])

expiring_tests :
    (is_unauthorized (next_reply expiring.replies) ≡ true)
    × (renewal (sent_once (codes "/auth/me") put save expiring)
        ≡ threw (api_error 401 (codes "invalid access token")))
unfolding auth_ops codes after_fetch
expiring_tests = (refl, refl)

api_request-IsExpired_example : IsExpired (codes "/auth/me") put save expiring
api_request-IsExpired_example =
    api_request-IsExpired (codes "/auth/me") put save expiring _ refl expiring_tests.0
      expiring_tests.1

abbrev visit : Client
visit = run_callback (logs_in (codes "ann") (codes "pw")) expiring

abbrev saving : Request
saving = record { path = codes "/auth/me"; method = put; body = save; retry = true }

abbrev idle : World
idle = idle_world (client [])

abbrev renewed_once : Reply
renewed_once = response 200 [] (auth renewed_session)

-- Two requests that both meet the expired token; the refresh token is good for one of them.
abbrev schedule : List ScheduleEvent
schedule = racing saving saving expired expired renewed_once expired

awaited_bounded_example :
    awaited schedule idle + total (run_schedule schedule idle).flights ≤ 0 + 3 * launches schedule
awaited_bounded_example = awaited_bounded schedule idle

run_schedule-HasToken_example : HasToken (run_schedule schedule idle).client
run_schedule-HasToken_example = run_schedule-HasToken schedule idle refl refl (inr refl)

race_answers :
    (is_unauthorized expired ≡ true)
    × (truthy renewed_session.access_token ≡ true)
    × (and_then (outcome renewed_once) as_auth ≡ done renewed_session)
    × (and_then (outcome expired) as_auth ≡ threw (api_error 401 (codes "invalid access token")))
unfolding auth_ops codes
race_answers = (refl, refl, refl, refl)

refreshes_race_example :
    ((run_schedule schedule idle).client.user ≡ none)
    × ((run_schedule schedule idle).client.access_token ≡ none)
    × ((run_schedule schedule idle).flights
        ≡ record { request = saving; purpose = query; phase = retried }
          ∷ record { request = saving; purpose = query; phase = finished (outcome expired) }
          ∷ [])
refreshes_race_example =
    refreshes_race saving saving expired expired renewed_once expired (client []) renewed_session _
      refl refl refl race_answers.0 race_answers.0 race_answers.2 race_answers.1 race_answers.3
