-- ===== src/Api/Requests.antt =====
-- What one request does to the client: `attempt` and `apiRequest` without a refresh.
use go_check_ssl.Prelude.{
  ℕ, true, false, Option, List, [], ◌∷◌, ◌++◌, ◌≡◌, refl, arith, ◌+◌, length, length-append,
  Bool-cases, inl, inr,
}
use go_check_ssl.Prelude.Text.{Text}
use go_check_ssl.Api.{
  Client, Sent, Reply, rejected, is_ok, Method, RequestBody, M, bearer_of, next_reply,
  later_replies, fetch, outcome, attempt, api_request, is_unauthorized,
}

-- What the log keeps of a request.
abbrev pub entry : Text → Method → RequestBody → Option Text → Sent
entry p m b t = record { path = p; method = m; body = b; bearer = t }

-- The client after one call of `fetch`.
unfoldable pub after_fetch : Text → Method → RequestBody → Client → Client
after_fetch path method body c = record c {
  replies = later_replies c.replies;
  log =
      c.log
      ++ record { path = path; method = method; body = body; bearer = bearer_of c.access_token }
        ∷ [];
}

module _ (path : Text) (method : Method) (body : RequestBody) (c : Client) where
  -- One reply decides the result, and the client has one more request in its log.
  pub attempt_lem :
      attempt path method body c ≡ (outcome (next_reply c.replies), after_fetch path method body c)
  unfolding attempt fetch after_fetch
  attempt_lem = refl

  -- Without `retry` the handler is never called.
  pub api_request_no_retry :
      (h : M (Option (List ℕ)))
      → api_request h path method body false c ≡ attempt path method body c
  unfolding api_request attempt fetch
  api_request_no_retry h = elim (Bool-cases (is_unauthorized (next_reply c.replies))) [
    | inl e ↦ rw (e, api_request) refl
    | inr e ↦ rw (e, api_request) refl
  ]

  pub length-after_fetch : length (after_fetch path method body c).log ≡ length c.log + 1
  unfolding after_fetch
  length-after_fetch = omega (arith, length-append {0} c.log _)

pub outcome_unauthorized : (r : Reply) → is_unauthorized r ≡ true → rejected (outcome r) ≡ true
unfolding outcome is_unauthorized is_ok
outcome_unauthorized r h = ground arith
