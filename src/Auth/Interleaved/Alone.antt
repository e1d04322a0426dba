-- ===== src/Auth/Interleaved/Alone.antt =====
-- A request with no other in flight is `apiRequest` as one computation.
use go_check_ssl.Prelude.{Bool, Option, ◌&&◌, if◌then◌else◌, ◌≡◌, refl}
use go_check_ssl.Prelude.Text.{Text}
use go_check_ssl.Api.{
  Client, Result, Body, Reply, next_reply, later_replies, outcome, is_unauthorized, api_request,
  attempt, refreshed_truthy, M, returns,
}
use go_check_ssl.Auth.{refresh_session}
use go_check_ssl.Api.Requests.{after_fetch}
use go_check_ssl.Auth.Interleaved.{Request, Phase, finished, start, receive}

-- The next of the client's replies is the request's.
pub deliver : Request → Phase × Client → Phase × Client
deliver r (finished result, c) = (finished result, c)
deliver r (phase, c) =
    receive r phase (next_reply c.replies) (record c { replies = later_replies c.replies })

pub alone : Request → Client → Phase × Client
alone r c = deliver r (deliver r (deliver r (start r c)))

abbrev pub at_once : Request → Client → Result Body × Client
at_once r c = api_request refresh_session r.path r.method r.body r.retry c

-- The computation, by whether the first answer leads to a refresh.
abbrev pub refreshes : Request → Client → Bool
refreshes r c = is_unauthorized (next_reply c.replies) && r.retry && c.has_refresh_handler

abbrev client_sent : Request → Client → Client
client_sent r c = after_fetch r.path r.method r.body c

abbrev ended : Result Body × Client → Phase × Client
ended (result, c) = (finished result, c)

abbrev resume : Request → Reply → Option Text → M Body
resume r first token =
    if refreshed_truthy token then attempt r.path r.method r.body else returns (outcome first)

deliver-finished :
    (r : Request) (result : Result Body) (c : Client)
    → deliver r (finished result, c) ≡ (finished result, c)
unfolding deliver
deliver-finished r result c = refl
