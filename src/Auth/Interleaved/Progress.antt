-- ===== src/Auth/Interleaved/Progress.antt =====
-- No request in flight waits for ever: each takes at most three replies, in any order.
use go_check_ssl.Prelude.{
  ℕ, zero, suc, ◌+◌, ◌*◌, ◌≤◌, Option, none, some, List, [], ◌∷◌, ◌++◌, ◌≡◌, refl, arith, ap, ◌or◌,
}
use go_check_ssl.Api.{Client, Reply}
use go_check_ssl.Auth.Interleaved.{
  Request, Phase, sent, refreshing, retried, finished, start, retry_with, refreshed, receive,
}
use go_check_ssl.Auth.Interleaved.Schedules.{
  Flight, World, ScheduleEvent, launch, arrive, get_elem?, set, moved, answered, schedule_step,
  run_schedule,
}

-- How many replies a request may still wait for.
abbrev pub replies_left : Phase → ℕ
replies_left sent = 3
replies_left (refreshing first) = 2
replies_left retried = 1
replies_left (finished result) = 0

abbrev pub total : List Flight → ℕ
total [] = 0
total (f ∷ flights) = replies_left f.phase + total flights

-- 1 for a reply that a request waits for, and 0 for any other event.
abbrev pub waits : Phase → ℕ
waits (finished result) = 0
waits _ = 1

abbrev pub waits? : Option Flight → ℕ
waits? none = 0
waits? (some f) = waits f.phase

abbrev pub useful : ScheduleEvent → World → ℕ
useful (launch r purpose) w = 0
useful (arrive i reply) w = waits? (get_elem? w.flights i)

abbrev pub awaited : List ScheduleEvent → World → ℕ
awaited [] w = 0
awaited (event ∷ events) w = useful event w + awaited events (schedule_step event w)

abbrev pub launches : List ScheduleEvent → ℕ
launches [] = 0
launches (launch r purpose ∷ events) = 1 + launches events
launches (arrive i reply ∷ events) = launches events

receive-falls :
    (r : Request) (phase : Phase) (reply : Reply) (c : Client)
    → waits phase + replies_left (receive r phase reply c).0 ≤ replies_left phase
unfolding receive refreshed retry_with
receive-falls r sent reply c = ground arith
receive-falls r (refreshing first) reply c = ground arith
receive-falls r retried reply c = omega arith
receive-falls r (finished result) reply c = omega arith

total-set :
    (flights : List Flight) (i : ℕ) (f g : Flight)
    → get_elem? flights i ≡ some f
    → total (set flights i g) + replies_left f.phase ≡ total flights + replies_left g.phase
total-set [] i f g e = cc e
total-set (h ∷ flights) zero f g e = let same : h ≡ f = ap (λ o. o or h) e in rw same (omega arith)
total-set (h ∷ flights) (suc i) f g e = omega (arith, total-set flights i f g e)

total-append :
    (flights : List Flight) (f : Flight)
    → total (flights ++ f ∷ []) ≡ total flights + replies_left f.phase
total-append [] f = omega arith
total-append (h ∷ flights) f = omega (arith, total-append flights f)

set-falls :
    (i : ℕ) (reply : Reply) (w : World) (f : Flight) (phase : Phase)
    → f.phase ≡ phase
    → get_elem? w.flights i ≡ some f
    → waits phase
        + total (set w.flights i (record f { phase = (receive f.request phase reply w.client).0 }))
      ≤ total w.flights
set-falls i reply w f phase h e = omega (
  arith,
  total-set w.flights i f (record f { phase = (receive f.request phase reply w.client).0 }) e,
  receive-falls f.request phase reply w.client,
  ap replies_left h,
)

moved-falls :
    (i : ℕ) (reply : Reply) (w : World) (f : Flight) (phase : Phase)
    → f.phase ≡ phase
    → get_elem? w.flights i ≡ some f
    → waits phase + total (moved i reply w f.request f.purpose phase).flights ≤ total w.flights
unfolding moved
moved-falls i reply w f (finished result) h e = omega arith
moved-falls i reply w f sent h e = set-falls i reply w f sent h e
moved-falls i reply w f (refreshing first) h e = set-falls i reply w f (refreshing first) h e
moved-falls i reply w f retried h e = set-falls i reply w f retried h e

answered-falls :
    (i : ℕ) (reply : Reply) (w : World) (o : Option Flight)
    → get_elem? w.flights i ≡ o
    → waits? o + total (answered i reply w o).flights ≤ total w.flights
unfolding answered
answered-falls i reply w none e = omega arith
answered-falls i reply w (some f) e = moved-falls i reply w f f.phase refl e

schedule_step-falls :
    (event : ScheduleEvent) (w : World)
    → useful event w + total (schedule_step event w).flights
      ≤ total w.flights + 3 * launches (event ∷ [])
unfolding schedule_step start
schedule_step-falls (launch r purpose) w =
    omega (arith, total-append w.flights (record { request = r; purpose = purpose; phase = sent }))
schedule_step-falls (arrive i reply) w =
    omega (arith, answered-falls i reply w (get_elem? w.flights i) refl)

-- In every order of launches and replies: the number of replies that a request waits for, with what
-- the requests in flight at the end may still wait for, is at most three for each launch, with what
-- those in flight at the start may wait for.
pub awaited_bounded :
    (events : List ScheduleEvent) (w : World)
    → awaited events w + total (run_schedule events w).flights
      ≤ total w.flights + 3 * launches events
unfolding run_schedule
awaited_bounded [] w = omega arith
awaited_bounded (launch r purpose ∷ events) w = omega (
  arith,
  schedule_step-falls (launch r purpose) w,
  awaited_bounded events (schedule_step (launch r purpose) w),
)
awaited_bounded (arrive i reply ∷ events) w = omega (
  arith,
  schedule_step-falls (arrive i reply) w,
  awaited_bounded events (schedule_step (arrive i reply) w),
)
