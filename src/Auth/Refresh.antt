-- ===== src/Auth/Refresh.antt =====
-- The refresh of the session, and requests that meet an expired access token.
use go_check_ssl.Prelude.{
  Option, true, false, none, some, ◌≡◌, refl, ap, ◌∙◌, arith, Bool-cases, inl, inr, ◌+◌, ◌≤◌, ◌⊎◌,
  if◌then◌else◌, [], ◌∷◌, ◌++◌, length,
}
use go_check_ssl.Prelude.Text.{Text, codes, truthy}
use go_check_ssl.Api.{
  Client, M, Result, done, threw, Thrown, Reply, Body, RequestBody, Method, post, empty, attempt,
  outcome, continue_with, and_then, bearer_of, next_reply, later_replies, api_request,
  is_unauthorized, fetch, refreshed_truthy, retry_after_refresh, AuthPayload, returns, rejected,
}
use go_check_ssl.Api.Requests.{
  entry, outcome_unauthorized, after_fetch, attempt_lem, api_request_no_retry, length-after_fetch,
}
use go_check_ssl.Auth.{send, as_auth, refresh_session, apply_auth_payload, clear_session}

-- A request without `retry` takes one reply, and leaves the user and the token alone.
pub send_lem :
    (path : Text) (body : RequestBody) (c : Client)
    → send path body c ≡ (outcome (next_reply c.replies), after_fetch path post body c)
unfolding send
send_lem path body c = api_request_no_retry path post body c _ ∙ attempt_lem path post body c

-- What the answer to `/auth/refresh` is read as.
abbrev pub renewal : Client → Result AuthPayload
renewal c = and_then (outcome (next_reply c.replies)) as_auth

-- The result of `refreshSession`, and the client after it.
abbrev pub renewed : Result AuthPayload → Client → Result (Option Text) × Client
renewed (done p) c = (done (some p.access_token), apply_auth_payload p c)
renewed (threw e) c = (done none, clear_session c)

pub refresh_session_lem :
    (c : Client)
    → refresh_session c ≡ renewed (renewal c) (after_fetch (codes "/auth/refresh") post empty c)
unfolding refresh_session
refresh_session_lem c = rw (send_lem (codes "/auth/refresh") empty c) (ground arith)

refresh_after : Client → Client
refresh_after c = after_fetch (codes "/auth/refresh") post empty c

module _ (path : Text) (method : Method) (body : RequestBody) (c : Client) where
  abbrev pub first : Reply
  first = next_reply c.replies

  abbrev pub sent_once : Client
  sent_once = after_fetch path method body c

  abbrev pub sent_twice : Client
  sent_twice = after_fetch (codes "/auth/refresh") post empty sent_once

  abbrev pub request : Result Body × Client
  request = api_request refresh_session path method body true c

  -- How a request with `retry` ends: after one answer, after a refresh and a second attempt, or
  -- with the first answer's error after a refresh that gave no token.
  abbrev pub Ends : Type 0
  Ends =
      (request ≡ (outcome first, sent_once))
      ⊎ ((p : AuthPayload) × (renewal sent_once ≡ done p)
          × (request ≡ attempt path method body (apply_auth_payload p sent_twice)))
      ⊎ ((p : AuthPayload) × (is_unauthorized first ≡ true)
          × (request ≡ (outcome first, apply_auth_payload p sent_twice)))
      ⊎ ((is_unauthorized first ≡ true) × (request ≡ (outcome first, clear_session sent_twice)))

  retried :
      is_unauthorized first ≡ true
      → c.has_refresh_handler ≡ true
      → request ≡ retry_after_refresh refresh_session first path method body sent_once
  unfolding api_request fetch after_fetch
  retried u h = rw (u, h, api_request)

  pub not_retried :
      (is_unauthorized first ≡ false) ⊎ (c.has_refresh_handler ≡ false)
      → request ≡ (outcome first, sent_once)
  unfolding api_request fetch after_fetch
  not_retried (inl u) = rw (u, api_request)
  not_retried (inr h) = elim (Bool-cases (is_unauthorized first)) [
    | inl u ↦ rw (u, h, api_request)
    | inr u ↦ rw (u, api_request)
  ]

  abbrev resume : Option Text → M Body
  resume refreshed =
      if refreshed_truthy refreshed then attempt path method body else returns (outcome first)

  retry_from :
      (r : Result AuthPayload)
      → renewal sent_once ≡ r
      → is_unauthorized first ≡ true
      → request ≡ continue_with resume (renewed r sent_twice)
      → Ends
  unfolding refreshed_truthy
  retry_from (done p) e u q = elim (Bool-cases (truthy p.access_token)) [
    | inl t ↦ inr (inl (p, e, q ∙ rw t))
    | inr f ↦ inr (inr (inl (p, u, q ∙ rw f)))
  ]
  retry_from (threw x) e u q = inr (inr (inr (u, q)))

  retry_ends : is_unauthorized first ≡ true → c.has_refresh_handler ≡ true → Ends
  unfolding retry_after_refresh
  retry_ends u h =
      retry_from (renewal sent_once) refl u
        (retried u h ∙ ap (continue_with resume) (refresh_session_lem sent_once))

  pub request_ends : Ends
  request_ends = elim (Bool-cases (is_unauthorized first)) [
    | inl u ↦ elim (Bool-cases c.has_refresh_handler) [
      | inl h ↦ retry_ends u h
      | inr h ↦ inl (not_retried (inr h))
    ]
    | inr u ↦ inl (not_retried (inl u))
  ]

  length-twice : length sent_twice.log ≡ length c.log + 2
  length-twice = omega (
    arith,
    length-after_fetch path method body c,
    length-after_fetch (codes "/auth/refresh") post empty sent_once,
  )

  length-thrice :
      (d : Client)
      → length d.log ≡ length c.log + 2
      → length (attempt path method body d).1.log ≡ length c.log + 3
  length-thrice d h =
      rw (attempt_lem path method body d) (omega (arith, length-after_fetch path method body d))

  abbrev Grows : Client → Type 0
  Grows d = (length c.log + 1 ≤ length d.log) × (length d.log ≤ length c.log + 3)

  log-Grows : Ends → Grows request.1
  unfolding apply_auth_payload clear_session
  log-Grows (inl q) = rw q (omega (arith, length-after_fetch path method body c))
  log-Grows (inr (inl (p, e, q))) =
      rw q (omega (arith, length-thrice (apply_auth_payload p sent_twice) length-twice))
  log-Grows (inr (inr (inl (p, u, q)))) = rw q (omega (arith, length-twice))
  log-Grows (inr (inr (inr (u, q)))) = rw q (omega (arith, length-twice))

  -- A request sends one to three requests, whatever is answered.
  pub api_request_bounded :
      (length c.log + 1 ≤ length request.1.log) × (length request.1.log ≤ length c.log + 3)
  api_request_bounded = log-Grows request_ends

  -- The result is the third answer's, the log gains the three requests in order, of which the
  -- last carries the new token, and the client holds the new token and user.
  abbrev pub IsRenewed : AuthPayload → Type 0
  IsRenewed p =
      (request.0 ≡ outcome (next_reply (later_replies (later_replies c.replies))))
      × (request.1.access_token ≡ some p.access_token)
      × (request.1.user ≡ some p.user)
      × (request.1.log
          ≡ ((c.log ++ entry path method body (bearer_of c.access_token) ∷ [])
              ++ entry (codes "/auth/refresh") post empty (bearer_of c.access_token) ∷ [])
            ++ entry path method body (some p.access_token) ∷ [])

  -- With the refresh handler registered, after a first answer of 401 and a refresh that brings a
  -- token that is not empty, the request is sent again with that token: its result is the third answer's, the log gains the three requests in order, and
  -- the client holds the new token and user.
  pub api_request-IsRenewed :
      (p : AuthPayload)
      → c.has_refresh_handler ≡ true
      → is_unauthorized (next_reply c.replies) ≡ true
      → renewal sent_once ≡ done p
      → truthy p.access_token ≡ true
      → IsRenewed p
  unfolding retry_after_refresh refreshed_truthy after_fetch apply_auth_payload bearer_of
  api_request-IsRenewed p h u e t =
      let q : request ≡ attempt path method body (apply_auth_payload p sent_twice) =
        retried u h
        ∙ ap (continue_with resume)
            (refresh_session_lem sent_once ∙ ap (λ r. renewed r sent_twice) e)
        ∙ rw t in
      rw (q, attempt_lem path method body) (refl, refl, refl, rw t)

  -- The result is the first answer's, the log gains two requests, and the session is gone.
  abbrev pub IsExpired : Type 0
  IsExpired =
      (request.0 ≡ outcome first)
      × (rejected (outcome first) ≡ true)
      × (request.1.access_token ≡ none)
      × (request.1.user ≡ none)
      × (request.1.log
          ≡ (c.log ++ entry path method body (bearer_of c.access_token) ∷ [])
            ++ entry (codes "/auth/refresh") post empty (bearer_of c.access_token) ∷ [])

  -- With the refresh handler registered, after a first answer of 401 and a refresh that fails, the
  -- request rejects with the first answer's error and sends nothing more, and the client is signed
  -- out.
  pub api_request-IsExpired :
      (x : Thrown)
      → c.has_refresh_handler ≡ true
      → is_unauthorized (next_reply c.replies) ≡ true
      → renewal sent_once ≡ threw x
      → IsExpired
  unfolding retry_after_refresh refreshed_truthy clear_session after_fetch
  api_request-IsExpired x h u e =
      let q : request ≡ (outcome first, clear_session sent_twice) =
        retried u h
        ∙ ap (continue_with resume)
            (refresh_session_lem sent_once ∙ ap (λ r. renewed r sent_twice) e) in
      rw q (refl, outcome_unauthorized first u, refl, refl, refl)
