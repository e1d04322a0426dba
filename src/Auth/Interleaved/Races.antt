-- ===== src/Auth/Interleaved/Races.antt =====
-- What two requests in flight do to the session.
use go_check_ssl.Prelude.{
  ℕ, zero, suc, Bool, true, false, none, some, List, [], ◌∷◌, ◌++◌, ◌&&◌, ◌≡◌, refl, arith,
  Bool-cases, every, not, and-eq-true, inl, inr, ap, ◌or◌, Option-cases,
}
use go_check_ssl.Prelude.Text.{truthy}
use go_check_ssl.Api.{
  Client, Result, done, threw, Thrown, Body, Reply, outcome, is_unauthorized, and_then, AuthPayload,
  profile,
}
use go_check_ssl.Types.{ApiUser}
use go_check_ssl.Auth.{as_auth, as_user, set_user, apply_auth_payload, clear_session}
use go_check_ssl.Auth.Session.{HasToken}
use go_check_ssl.Auth.Interleaved.{
  Request, Phase, sent, refreshing, retried, finished, issue, start, retry_with, refreshed, receive,
}
use go_check_ssl.Auth.Interleaved.Schedules.{
  Purpose, Flight, World, ScheduleEvent, launch, arrive, get_elem?, set, moved, answered,
  schedule_step, run_schedule, query, logs_in, logs_out, updates, restores, after_await, completed,
}

abbrev pub is_updates : Purpose → Bool
is_updates updates = true
is_updates _ = false

abbrev pub no_updates_flying : List Flight → Bool
no_updates_flying flights = every (λ f. not (is_updates f.purpose)) flights

abbrev pub no_updates : List ScheduleEvent → Bool
no_updates [] = true
no_updates (launch r purpose ∷ events) = not (is_updates purpose) && no_updates events
no_updates (arrive i reply ∷ events) = no_updates events

receive-HasToken :
    (r : Request) (phase : Phase) (reply : Reply) (c : Client)
    → HasToken c
    → HasToken (receive r phase reply c).1
unfolding receive refreshed retry_with issue apply_auth_payload clear_session
receive-HasToken r sent reply c h = ground arith
receive-HasToken r (refreshing first) reply c h = ground arith
receive-HasToken r retried reply c h = h
receive-HasToken r (finished result) reply c h = h

after_await-HasToken :
    (purpose : Purpose) (result : Result Body) (c : Client)
    → not (is_updates purpose) ≡ true
    → HasToken c
    → HasToken (after_await purpose result c)
unfolding after_await apply_auth_payload clear_session
after_await-HasToken query result c p h = h
after_await-HasToken logs_in result c p h = ground arith
after_await-HasToken logs_out result c p h = inl refl
after_await-HasToken updates result c p h = cc p
after_await-HasToken restores result c p h = ground arith

completed-HasToken :
    (purpose : Purpose) (phase : Phase) (c : Client)
    → not (is_updates purpose) ≡ true
    → HasToken c
    → HasToken (completed purpose phase c)
unfolding completed
completed-HasToken purpose (finished result) c p h = after_await-HasToken purpose result c p h
completed-HasToken purpose sent c p h = h
completed-HasToken purpose (refreshing first) c p h = h
completed-HasToken purpose retried c p h = h

every-set :
    (p : Flight → Bool) (flights : List Flight) (i : ℕ) (f : Flight)
    → every p flights ≡ true
    → p f ≡ true
    → every p (set flights i f) ≡ true
every-set p [] i f h k = refl
every-set p (g ∷ flights) zero f h k = ground (arith, h, k)
every-set p (g ∷ flights) (suc i) f h k = ground (arith, h, every-set p flights i f, k)

every-append :
    (p : Flight → Bool) (flights : List Flight) (f : Flight)
    → every p flights ≡ true
    → p f ≡ true
    → every p (flights ++ f ∷ []) ≡ true
every-append p [] f h k = ground (arith, k)
every-append p (g ∷ flights) f h k = ground (arith, h, every-append p flights f, k)

every-get :
    (p : Flight → Bool) (flights : List Flight) (i : ℕ) (f : Flight)
    → every p flights ≡ true
    → get_elem? flights i ≡ some f
    → p f ≡ true
every-get p [] i f h e = cc e
every-get p (g ∷ flights) zero f h e =
    let same : g ≡ f = ap (λ o. o or g) e in rw⁻¹ same (and-eq-true (p g) (every p flights) h).0
every-get p (g ∷ flights) (suc i) f h e =
    every-get p flights i f (and-eq-true (p g) (every p flights) h).1 e

-- What the schedules without `updateProfile` keep.
abbrev Keeps : World → Type 0
Keeps w = HasToken w.client × (no_updates_flying w.flights ≡ true)

moved-Keeps :
    (i : ℕ) (reply : Reply) (w : World) (r : Request) (purpose : Purpose) (phase : Phase)
    → not (is_updates purpose) ≡ true
    → Keeps w
    → Keeps (moved i reply w r purpose phase)
unfolding moved
moved-Keeps i reply w r purpose (finished result) p k = k
moved-Keeps i reply w r purpose sent p (h, k) = (
  completed-HasToken purpose _ _ p (receive-HasToken r sent reply w.client h),
  every-set (λ f. not (is_updates f.purpose)) w.flights i _ k p,
)
moved-Keeps i reply w r purpose (refreshing first) p (h, k) = (
  completed-HasToken purpose _ _ p (receive-HasToken r (refreshing first) reply w.client h),
  every-set (λ f. not (is_updates f.purpose)) w.flights i _ k p,
)
moved-Keeps i reply w r purpose retried p (h, k) = (
  completed-HasToken purpose _ _ p (receive-HasToken r retried reply w.client h),
  every-set (λ f. not (is_updates f.purpose)) w.flights i _ k p,
)

schedule_step-Keeps :
    (event : ScheduleEvent) (w : World)
    → no_updates (event ∷ []) ≡ true
    → Keeps w
    → Keeps (schedule_step event w)
unfolding schedule_step answered start issue
schedule_step-Keeps (launch r purpose) w p (h, k) =
    let allowed = (and-eq-true (not (is_updates purpose)) true p).0 in
    (h, every-append (λ f. not (is_updates f.purpose)) w.flights _ k allowed)
schedule_step-Keeps (arrive i reply) w p (h, k) = elim (Option-cases (get_elem? w.flights i)) [
  | inl nothing ↦ rw nothing (h, k)
  | inr (f, found) ↦ rw found (
      moved-Keeps i reply w f.request f.purpose f.phase
        (every-get (λ f. not (is_updates f.purpose)) w.flights i f k found) (h, k))
]

-- With any number of requests in flight and their replies in any order, a signed-in user has a
-- token, as long as none of them is `updateProfile`'s.
pub run_schedule-HasToken :
    (events : List ScheduleEvent) (w : World)
    → no_updates events ≡ true
    → no_updates_flying w.flights ≡ true
    → HasToken w.client
    → HasToken (run_schedule events w).client
unfolding run_schedule
run_schedule-HasToken [] w p k h = h
run_schedule-HasToken (launch r purpose ∷ events) w p k h =
    let (here, there) = and-eq-true (not (is_updates purpose)) (no_updates events) p in
    let (h', k') = schedule_step-Keeps (launch r purpose) w (rw here refl) (h, k) in
    run_schedule-HasToken events (schedule_step (launch r purpose) w) there k' h'
run_schedule-HasToken (arrive i reply ∷ events) w p k h =
    let (h', k') = schedule_step-Keeps (arrive i reply) w refl (h, k) in
    run_schedule-HasToken events (schedule_step (arrive i reply) w) p k' h'

-- Two requests that the server has refused with 401, each waiting for a refresh of its own. The
-- server takes a refresh token once (apps/api/internal/auth/service.go): it renews the session for
-- the first, and refuses the second.
abbrev pub racing : Request → Request → (u v renewal refusal : Reply) → List ScheduleEvent
racing a b u v renewal refusal =
    launch a query
    ∷ launch b query
    ∷ arrive 0 u
    ∷ arrive 1 v
    ∷ arrive 0 renewal
    ∷ arrive 1 refusal
    ∷ []

abbrev pub idle_world : Client → World
idle_world c = record { client = c; flights = [] }

-- Two requests are answered with 401 and both ask for a refresh. If the server renews the session for
-- the first and refuses the second, which comes with the refresh token that the first has used up,
-- the client is signed out, and loses the token with which the first request has just been repeated.
pub refreshes_race :
    (a b : Request) (u v renewal refusal : Reply) (c : Client) (p : AuthPayload) (e : Thrown)
    → c.has_refresh_handler ≡ true
    → a.retry ≡ true
    → b.retry ≡ true
    → is_unauthorized u ≡ true
    → is_unauthorized v ≡ true
    → and_then (outcome renewal) as_auth ≡ done p
    → truthy p.access_token ≡ true
    → and_then (outcome refusal) as_auth ≡ threw e
    → ((run_schedule (racing a b u v renewal refusal) (idle_world c)).client.user ≡ none)
      × ((run_schedule (racing a b u v renewal refusal) (idle_world c)).client.access_token ≡ none)
      × ((run_schedule (racing a b u v renewal refusal) (idle_world c)).flights
          ≡ record { request = a; purpose = query; phase = retried }
            ∷ record { request = b; purpose = query; phase = finished (outcome v) }
            ∷ [])
unfolding run_schedule receive refreshed retry_with issue start apply_auth_payload clear_session
refreshes_race a b u v renewal refusal c p e hc ha hb hu hv hp ht he =
    rw (hu, ha, hc, hv, hb, hp, ht, he) (refl, refl, refl)

-- The settings are saved while the user signs out: the answer to the save comes last, and makes a
-- user who has no token.
updates_after_logout :
    (a b : Request) (bye answer : Reply) (c : Client) (u : ApiUser)
    → b.retry ≡ false
    → is_unauthorized answer ≡ false
    → outcome answer ≡ done (profile u)
    → let w =
        run_schedule
          (launch a updates ∷ launch b logs_out ∷ arrive 1 bye ∷ arrive 0 answer ∷ [])
          (idle_world c) in
      (w.client.user ≡ some u) × (w.client.access_token ≡ none)
unfolding run_schedule receive start issue completed after_await clear_session as_user set_user
updates_after_logout a b bye answer c u hb hu e = elim (Bool-cases (is_unauthorized bye)) [
  | inl refused ↦ rw (refused, hb, hu, e) (refl, refl)
  | inr taken ↦ rw (taken, hu, e) (refl, refl)
]
