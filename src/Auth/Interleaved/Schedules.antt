-- ===== src/Auth/Interleaved/Schedules.antt =====
-- Several requests in flight, with the replies in any order.
use go_check_ssl.Prelude.{ℕ, zero, suc, false, Option, none, some, List, [], ◌∷◌, ◌++◌}
use go_check_ssl.Api.{Client, Result, done, threw, Body, Reply, and_then, AuthPayload}
use go_check_ssl.Types.{ApiUser}
use go_check_ssl.Auth.{as_auth, as_user, set_user, apply_auth_payload, clear_session}
use go_check_ssl.Auth.Interleaved.{Request, Phase, finished, start, receive}

-- Which callback waits for the request.
pub data Purpose : Type 0 where
  query logs_in logs_out updates restores : Purpose

pub record Flight : Type 0 where
  pub request : Request
  pub purpose : Purpose
  pub phase : Phase

-- The shared variables, and the requests in the order of their calls.
pub record World : Type 0 where
  pub client : Client
  pub flights : List Flight

abbrev with_auth : Result AuthPayload → Client → Client
with_auth (done p) c = apply_auth_payload p c
with_auth (threw e) c = c

abbrev with_user : Result (Option ApiUser) → Client → Client
with_user (done u) c = set_user u c
with_user (threw e) c = c

abbrev restored : Result AuthPayload → Client → Client
restored (done p) c = record (apply_auth_payload p c) { loading = false }
restored (threw e) c = record (clear_session c) { loading = false }

-- The code of the callback behind its `await`: of `login`, `logout`, `updateProfile`, and of the
-- effect that restores the session.
unfoldable pub after_await : Purpose → Result Body → Client → Client
after_await query result c = c
after_await logs_in result c = with_auth (and_then result as_auth) c
after_await logs_out result c = clear_session c
after_await updates result c = with_user (and_then result as_user) c
after_await restores result c = restored (and_then result as_auth) c

pub data ScheduleEvent : Type 0 where
  launch : Request → Purpose → ScheduleEvent
  arrive : (flight : ℕ) → Reply → ScheduleEvent

abbrev pub get_elem? {ℓ} : {A : Type ℓ} → List A → ℕ → Option A
get_elem? [] i = none
get_elem? (x ∷ xs) zero = some x
get_elem? (x ∷ xs) (suc i) = get_elem? xs i

abbrev pub set {ℓ} : {A : Type ℓ} → List A → ℕ → A → List A
set [] i v = []
set (x ∷ xs) zero v = v ∷ xs
set (x ∷ xs) (suc i) v = x ∷ set xs i v

unfoldable pub completed : Purpose → Phase → Client → Client
unfolding after_await
completed purpose (finished result) c = after_await purpose result c
completed purpose phase c = c

-- A reply that nothing waits for changes nothing.
unfoldable pub moved : ℕ → Reply → World → Request → Purpose → Phase → World
unfolding completed
moved i reply w r purpose (finished result) = w
moved i reply w r purpose phase =
    let (phase', c) = receive r phase reply w.client in
    record {
      client = completed purpose phase' c;
      flights = set w.flights i (record { request = r; purpose = purpose; phase = phase' });
    }

unfoldable pub answered : ℕ → Reply → World → Option Flight → World
unfolding moved
answered i reply w none = w
answered i reply w (some f) = moved i reply w f.request f.purpose f.phase

unfoldable pub schedule_step : ScheduleEvent → World → World
unfolding answered
schedule_step (launch r purpose) w =
    let (phase, c) = start r w.client in
    record {
      client = c;
      flights = w.flights ++ record { request = r; purpose = purpose; phase = phase } ∷ [];
    }
schedule_step (arrive i reply) w = answered i reply w (get_elem? w.flights i)

unfoldable pub run_schedule : List ScheduleEvent → World → World
unfolding schedule_step
run_schedule [] w = w
run_schedule (event ∷ events) w = run_schedule events (schedule_step event w)
