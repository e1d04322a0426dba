-- ===== src/Admin/Bulk/Laws.antt =====
-- What a bulk action sends and what it leaves.
use go_check_ssl.Prelude.{
  ℕ, ◌+◌, ◌*◌, ◌≤◌, Bool, true, false, not, List, [], ◌∷◌, ◌++◌, ◌≡◌, refl, sym, ◌∙◌, ◌⊎◌, inl, inr,
  ◌&&◌, String, length, length-append, Bool-cases, arith, ◌==◌, if◌then◌else◌, every, map,
}
use mathlib.Core.List.{append-nil, append_assoc}
use go_check_ssl.Prelude.Text.{Text, codes}
use go_check_ssl.Api.{
  Client, Sent, Result, done, threw, Body, Method, RequestBody, put, is_unauthorized, M, Reply,
  empty, bearer_of, later_replies, next_reply, outcome,
}
use go_check_ssl.Api
use go_check_ssl.Api.Requests.{after_fetch}
use go_check_ssl.Auth.Refresh.{api_request_bounded, not_retried}
use go_check_ssl.Locale.{Locale}
use go_check_ssl.Admin.{AdminState}
use go_check_ssl.Admin.Actions.{tenant_path, set_status, delete_tenant, admin_request}
use go_check_ssl.Admin.Bulk.{
  BulkAction, enable, disable, delete, is_delete, bulk_request, bulk_loop, failure_of,
  run_bulk_action, bulk_selected, nothing_selected,
}

-- The request for one tenant: its path, its method and its body.
abbrev pub bulk_path : BulkAction → ℕ → Text
bulk_path delete id = tenant_path id
bulk_path _ id = tenant_path id ++ codes "/status"

abbrev pub bulk_method : BulkAction → Method
bulk_method delete = Api.delete
bulk_method _ = put

abbrev pub bulk_body : BulkAction → RequestBody
bulk_body enable = Api.disabled false
bulk_body disable = Api.disabled true
bulk_body delete = empty

bulk_request_is :
    (action : BulkAction) (id : ℕ) (c : Client)
    → bulk_request action id c
      ≡ admin_request (bulk_path action id) (bulk_method action) (bulk_body action) c
unfolding bulk_request set_status delete_tenant
bulk_request_is enable id c = refl
bulk_request_is disable id c = refl
bulk_request_is delete id c = refl

bulk_request-bounded :
    (action : BulkAction) (id : ℕ) (c : Client)
    → (length c.log + 1 ≤ length (bulk_request action id c).1.log)
      × (length (bulk_request action id c).1.log ≤ length c.log + 3)
unfolding admin_request
bulk_request-bounded action id c =
    rw (bulk_request_is action id c)
      (api_request_bounded (bulk_path action id) (bulk_method action) (bulk_body action) c)

next_accepted :
    (replies : List Reply)
    → every (λ r. not (is_unauthorized r)) replies ≡ true
    → (is_unauthorized (next_reply replies) ≡ false)
      × (every (λ r. not (is_unauthorized r)) (later_replies replies) ≡ true)
unfolding next_reply later_replies is_unauthorized
next_accepted [] h = (refl, refl)
next_accepted (r ∷ rs) h = ground (arith, h)

-- The client after a request whose answer is not 401.
once : BulkAction → ℕ → Client → Client
once action id c = after_fetch (bulk_path action id) (bulk_method action) (bulk_body action) c

bulk_request-once :
    (action : BulkAction) (id : ℕ) (c : Client)
    → is_unauthorized (next_reply c.replies) ≡ false
    → bulk_request action id c ≡ (outcome (next_reply c.replies), once action id c)
unfolding admin_request once
bulk_request-once action id c h =
    bulk_request_is action id c
    ∙ not_retried (bulk_path action id) (bulk_method action) (bulk_body action) c (inl h)

-- One request per tenant, in the order of the selection, with the token of the start.
abbrev pub bulk_entry : BulkAction → Client → ℕ → Sent
bulk_entry action c id = record {
  path = bulk_path action id;
  method = bulk_method action;
  body = bulk_body action;
  bearer = bearer_of c.access_token;
}

abbrev pub none_unauthorized : Client → Bool
none_unauthorized c = every (λ r. not (is_unauthorized r)) c.replies

-- How many tenants the action is for.
abbrev pub targets : BulkAction → Bool → AdminState → ℕ
targets action confirmed s =
    if is_delete action && not confirmed then 0 else length s.selected_tenant_ids

module _ (locale : Locale) (t : String → List (String × ℕ) → Text) where
  length-failure_of :
      (action : BulkAction) (r : Result Body) → length (failure_of locale t action r) ≤ 1
  unfolding failure_of
  length-failure_of action (done b) = omega arith
  length-failure_of action (threw x) = omega arith

  abbrev pub looped : BulkAction → List ℕ → Client → List Text × Client
  looped action ids c = bulk_loop locale t action ids c

  bulk_loop-bounded :
      (action : BulkAction) (ids : List ℕ) (c : Client)
      → (length (looped action ids c).0 ≤ length ids)
        × (length c.log + length ids ≤ length (looped action ids c).1.log)
        × (length (looped action ids c).1.log ≤ length c.log + 3 * length ids)
  unfolding bulk_loop
  bulk_loop-bounded action [] c = (omega arith, omega arith, omega arith)
  bulk_loop-bounded action (id ∷ ids) c =
      let c' = (bulk_request action id c).1 in
      let (once_more, at_most) = bulk_request-bounded action id c in
      let (few, low, high) = bulk_loop-bounded action ids c' in
      let failed = length-failure_of action (bulk_request action id c).0 in
      let added =
        length-append (failure_of locale t action (bulk_request action id c).0)
          (looped action ids c').0 in
      (
        omega (arith, failed, few, added),
        omega (arith, once_more, low),
        omega (arith, at_most, high),
      )

  bulk_loop-log :
      (action : BulkAction) (ids : List ℕ) (c : Client)
      → none_unauthorized c ≡ true
      → (looped action ids c).1.log ≡ c.log ++ map (bulk_entry action c) ids
  unfolding bulk_loop after_fetch once
  bulk_loop-log action [] c h = sym (append-nil c.log)
  bulk_loop-log action (id ∷ ids) c h =
      let (accepted, later) = next_accepted c.replies h in
      let c' = once action id c in
      rw (bulk_request-once action id c accepted) (
        bulk_loop-log action ids c' later
        ∙ append_assoc c.log (bulk_entry action c id ∷ []) (map (bulk_entry action c) ids))

  abbrev pub ran : BulkAction → Bool → AdminState → Client → AdminState × Client
  ran action confirmed s c = run_bulk_action locale t action confirmed s c

  bulk_selected-client :
      (action : BulkAction) (s : AdminState) (c : Client)
      → (bulk_selected locale t action s c).1 ≡ (looped action s.selected_tenant_ids c).1
  unfolding bulk_selected
  bulk_selected-client action s c = refl

  -- The three ways a bulk action goes.
  abbrev pub Goes : BulkAction → Bool → AdminState → Client → Type 0
  Goes action confirmed s c =
      ((s.selected_tenant_ids ≡ []) × (ran action confirmed s c ≡ (nothing_selected locale t s, c)))
      ⊎ ((is_delete action && not confirmed ≡ true) × (ran action confirmed s c ≡ (s, c)))
      ⊎ ((is_delete action && not confirmed ≡ false)
          × (ran action confirmed s c ≡ bulk_selected locale t action s c))

  length-zero : (ids : List ℕ) → (length ids == 0) ≡ true → ids ≡ []
  length-zero [] h = refl
  length-zero (id ∷ ids) h = ground (arith, h)

  pub goes :
      (action : BulkAction) (confirmed : Bool) (s : AdminState) (c : Client)
      → Goes action confirmed s c
  unfolding run_bulk_action
  goes action confirmed s c = elim (Bool-cases (length s.selected_tenant_ids == 0)) [
    | inl none_selected ↦
        inl (length-zero s.selected_tenant_ids none_selected, rw none_selected refl)
    | inr some_selected ↦ elim (Bool-cases (is_delete action && not confirmed)) [
      | inl declined ↦ inr (inl (declined, rw (some_selected, declined) refl))
      | inr agreed ↦ inr (inr (agreed, rw (some_selected, agreed) refl))
    ]
  ]

  abbrev pub Sends : BulkAction → Bool → AdminState → Client → Type 0
  Sends action confirmed s c =
      (length c.log + targets action confirmed s ≤ length (ran action confirmed s c).1.log)
      × (length (ran action confirmed s c).1.log ≤ length c.log + 3 * targets action confirmed s)

  sends :
      (action : BulkAction) (confirmed : Bool) (s : AdminState) (c : Client)
      → Goes action confirmed s c
      → Sends action confirmed s c
  sends action confirmed s c (inl (e, q)) = rw (q, e) (ground arith)
  sends action confirmed s c (inr (inl (declined, q))) = rw (q, declined) (omega arith, omega arith)
  sends action confirmed s c (inr (inr (agreed, q))) =
      let (_, low, high) = bulk_loop-bounded action s.selected_tenant_ids c in
      rw (q, agreed, bulk_selected-client action s c) (low, high)

  -- A bulk action sends at least one request and at most three for each selected tenant, whatever
  -- is answered, and none when a deletion is not confirmed.
  pub run_bulk_action-Sends :
      (action : BulkAction) (confirmed : Bool) (s : AdminState) (c : Client)
      → Sends action confirmed s c
  run_bulk_action-Sends action confirmed s c =
      sends action confirmed s c (goes action confirmed s c)

  in_order :
      (action : BulkAction) (confirmed : Bool) (s : AdminState) (c : Client)
      → (is_delete action && not confirmed) ≡ false
      → none_unauthorized c ≡ true
      → Goes action confirmed s c
      → (ran action confirmed s c).1.log ≡ c.log ++ map (bulk_entry action c) s.selected_tenant_ids
  in_order action confirmed s c agreed h (inl (e, q)) = rw (q, e) (sym (append-nil c.log))
  in_order action confirmed s c agreed h (inr (inl (declined, q))) =
      ground (arith, agreed, declined)
  in_order action confirmed s c agreed h (inr (inr (_, q))) =
      rw (q, bulk_selected-client action s c) (bulk_loop-log action s.selected_tenant_ids c h)

  -- When none of the server's answers is 401 and a deletion is confirmed, it sends exactly one
  -- request for each selected tenant, in the order of the selection, all with the token of the start.
  pub run_bulk_action_in_order :
      (action : BulkAction) (confirmed : Bool) (s : AdminState) (c : Client)
      → (is_delete action && not confirmed) ≡ false
      → none_unauthorized c ≡ true
      → (ran action confirmed s c).1.log ≡ c.log ++ map (bulk_entry action c) s.selected_tenant_ids
  run_bulk_action_in_order action confirmed s c agreed h =
      in_order action confirmed s c agreed h (goes action confirmed s c)
