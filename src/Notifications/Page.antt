-- ===== src/Notifications/Page.antt =====
-- apps/web/src/pages/notifications-page.tsx: the page's state, what its render derives, and its
-- handlers. A handler runs to its end before the next event; what `invalidateQueries` is given is
-- kept in `invalidated`.
pub mod Laws
pub mod View
use go_check_ssl.Prelude.{
  ℕ, Bool, true, false, not, Option, none, some, List, [], ◌∷◌, ◌++◌, ◌==◌, ◌&&◌, if◌then◌else◌,
  ◌or◌, chain, String, keep, length, find_first, truthy_number, is_some,
}
use go_check_ssl.Prelude.Text.{Text, codes, truthy}
use go_check_ssl.Prelude.Text.Decimal.{to_decimal}
use go_check_ssl.Types.{ApiEndpoint, PolicyView, TenantPolicies, email, telegram, webhook}
use go_check_ssl.Payloads.{EndpointPayload, PolicyPayload}
use go_check_ssl.Api.{
  Client, M, Result, done, threw, Thrown, Body, tested_endpoint, Method, RequestBody, put, post,
  delete, empty, api_request, endpoint_input, policy_input, rejected, and_then,
}
use go_check_ssl.Auth.{refresh_session, type_error}
use go_check_ssl.Locale.{Locale}
use go_check_ssl.ApiError.{get_localized_api_error_message}
use go_check_ssl.Notifications.EndpointForm.{
  EndpointFormValues, endpoint_defaults, endpoint_payload, validation_error,
}
use go_check_ssl.Notifications.PolicyForm.{PolicyFormValues, format_thresholds, policy_payload}

pub data NotificationsKey : Type 0 where
  notification_endpoints notification_policies : NotificationsKey

pub record NotificationsState : Type 0 where
  pub editing_endpoint : Option ApiEndpoint
  pub selected_domain_id : Option ℕ
  pub endpoint_message : Option Text
  pub endpoint_error : Option Text
  pub invalidated : List NotificationsKey

unfoldable pub refetch : NotificationsKey → NotificationsState → NotificationsState
refetch key s = record s { invalidated = s.invalidated ++ key ∷ [] }

unfoldable pub clear_feedback : NotificationsState → NotificationsState
clear_feedback s = record s { endpoint_message = none; endpoint_error = none }

unfoldable pub page_request : Text → Method → RequestBody → M Body
page_request path method body = api_request refresh_session path method body true

unfoldable pub endpoint_path : ℕ → Text
endpoint_path id = codes "/notification-endpoints/" ++ to_decimal id

-- `saveEndpointMutation`: an id that is there, and not 0, is updated.
unfoldable pub save_request : Option ℕ → EndpointPayload → M Body
save_request none values =
    page_request (codes "/notification-endpoints") post (endpoint_input values)
save_request (some id) values =
    if id == 0
    then page_request (codes "/notification-endpoints") post (endpoint_input values)
    else page_request (endpoint_path id) put (endpoint_input values)

unfoldable pub policy_path : Option ℕ → Text
policy_path none = codes "/notification-policies/default"
policy_path (some id) =
    if id == 0
    then codes "/notification-policies/default"
    else codes "/notification-policies/domains/" ++ to_decimal id

-- `policyMutation.mutateAsync`, which nothing catches: the state, and what the promise does.
unfoldable pub policy_settled : Result Body → NotificationsState → NotificationsState
unfolding refetch
policy_settled (done _) s = refetch notification_policies s
policy_settled (threw reason) s = s

unfoldable pub submit_policy :
    Option ℕ → PolicyFormValues → NotificationsState → Client → NotificationsState × Client
submit_policy domain_id values s c =
    let (r, c') =
      page_request (policy_path domain_id) put (policy_input (policy_payload values)) c in
    (policy_settled r s, c')

-- The overrides are an object by the ids of domains.
unfoldable pub override_policy : Option TenantPolicies → Option ℕ → Option PolicyView
override_policy policies none = none
override_policy none (some id) = none
override_policy (some policies) (some id) =
    if id == 0 then none else chain (find_first (λ o. o.key == id) policies.overrides) (λ o. o.view)

unfoldable pub enabled_endpoint_count : List ApiEndpoint → ℕ
enabled_endpoint_count endpoints = length (keep (λ (e : ApiEndpoint). e.enabled) endpoints)

unfoldable pub override_count : Option TenantPolicies → ℕ
override_count policies = chain policies (λ p. length p.overrides) or 0

unfoldable pub edit : ApiEndpoint → NotificationsState → NotificationsState
edit endpoint s = record s { editing_endpoint = some endpoint }

unfoldable pub cancel_edit : NotificationsState → NotificationsState
unfolding clear_feedback
cancel_edit s = clear_feedback (record s { editing_endpoint = none })

unfoldable pub select_domain : Option ℕ → NotificationsState → NotificationsState
select_domain id s = record s { selected_domain_id = id }

-- `editingEndpoint?.id === id`
abbrev pub is_edited : Option ApiEndpoint → ℕ → Bool
is_edited none id = false
is_edited (some e) id = e.id == id

-- `payload.endpoint.name`
unfoldable pub endpoint_name : Body → Result Text
endpoint_name (tested_endpoint name) = done name
endpoint_name _ = threw type_error

module _ (locale : Locale) (t : String → List (String × Text) → Text) where
  unfoldable pub endpoint_failed : Thrown → String → NotificationsState → NotificationsState
  endpoint_failed reason key s = record s {
    endpoint_message = none;
    endpoint_error = some (get_localized_api_error_message locale reason (t key []));
  }

  unfoldable pub save_settled : Result Body → NotificationsState → NotificationsState
  unfolding endpoint_failed refetch
  save_settled (done _) s = refetch notification_endpoints (record s {
    endpoint_error = none;
    endpoint_message = some (
        t
          (if is_some s.editing_endpoint
            then "notifications.endpointUpdatedSuccess"
            else "notifications.endpointCreatedSuccess")
          []);
    editing_endpoint = none;
  })
  save_settled (threw reason) s = endpoint_failed reason "notifications.endpointSaveError" s

  -- The `onSubmit` that the page gives to the form.
  unfoldable pub save_endpoint :
      EndpointPayload → NotificationsState → Client → NotificationsState × Client
  unfolding clear_feedback
  save_endpoint values s c =
      let (r, c') = save_request (chain s.editing_endpoint (λ e. e.id)) values c in
      (save_settled r (clear_feedback s), c')

  -- The form after its `onSubmit`: it is reset when no endpoint was given to it, and by its effect
  -- when the endpoint is taken from it.
  abbrev form_after :
      Option ApiEndpoint → Option ApiEndpoint → EndpointFormValues → EndpointFormValues
  form_after none _ values = endpoint_defaults none
  form_after (some e) none values = endpoint_defaults none
  form_after (some e) (some later) values = values

  -- The form's submit; nothing happens while its button is disabled.
  unfoldable pub submit_endpoint :
      EndpointFormValues
      → NotificationsState
      → Client
      → EndpointFormValues × NotificationsState × Client
  submit_endpoint values s c =
      if is_some (validation_error values)
      then (values, s, c)
      else (let (s', c') = save_endpoint (endpoint_payload values) s c in
          (form_after s.editing_endpoint s'.editing_endpoint values, s', c'))

  unfoldable pub deletion_settled : ℕ → Result Body → NotificationsState → NotificationsState
  unfolding endpoint_failed refetch
  deletion_settled id (done _) s = refetch notification_policies (
      refetch notification_endpoints (record s {
        endpoint_error = none;
        endpoint_message = some (t "notifications.endpointDeletedSuccess" []);
        editing_endpoint = if is_edited s.editing_endpoint id then none else s.editing_endpoint;
      }))
  deletion_settled id (threw reason) s =
      endpoint_failed reason "notifications.endpointDeleteError" s

  unfoldable pub delete_endpoint : ℕ → NotificationsState → Client → NotificationsState × Client
  delete_endpoint id s c =
      let (r, c') = page_request (endpoint_path id) delete empty c in (deletion_settled id r s, c')

  unfoldable pub test_settled : Result Text → NotificationsState → NotificationsState
  unfolding endpoint_failed
  test_settled (done name) s = record s {
    endpoint_error = none;
    endpoint_message = some (t "notifications.testSuccess" (("name", name) ∷ []));
  }
  test_settled (threw reason) s = endpoint_failed reason "notifications.testError" s

  unfoldable pub run_endpoint_test :
      ApiEndpoint → NotificationsState → Client → NotificationsState × Client
  unfolding clear_feedback
  run_endpoint_test endpoint s c =
      let (r, c') = page_request (endpoint_path endpoint.id ++ codes "/test") post empty c in
      (test_settled (and_then r endpoint_name) (clear_feedback s), c')

  unfoldable pub thresholds_label : List ℕ → Text
  thresholds_label [] = t "common.none" []
  thresholds_label (n ∷ days) = format_thresholds (n ∷ days)

  -- `values[0] ?? t("common.none")`, where `values` has what is not empty.
  abbrev pub first_value : Option Text → Text
  first_value none = t "common.none" []
  first_value (some s) = if truthy s then s else t "common.none" []

  unfoldable pub endpoint_preview : ApiEndpoint → Text
  endpoint_preview e = elim e.type [
    | telegram ↦ e.config.chat_id or t "common.none" []
    | email ↦ first_value e.config.recipient_email
    | webhook ↦ first_value e.config.url
  ]

  unfoldable pub endpoint_meta : ApiEndpoint → Text
  endpoint_meta e = elim e.type [
    | telegram ↦
        if truthy (e.config.bot_token or [])
        then t "notifications.telegramBotReady" []
        else t "common.none" []
    | webhook ↦ first_value e.config.auth_header_name
    | email ↦ t "notifications.emailDeliveryReady" []
  ]
