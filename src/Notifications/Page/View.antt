-- ===== src/Notifications/Page/View.antt =====
-- What apps/web/src/pages/notifications-page.tsx shows, by its state and the data of its queries.
-- Texts that are always the same are left out.
pub mod Laws
use go_check_ssl.Prelude.{
  when, not, ℕ, ◌==◌, String, Bool, true, false, Option, none, some, List, [], ◌∷◌, ◌++◌, ◌or◌,
  if◌then◌else◌, map, chain, chain?, length, is_some, find_first, truthy_number,
}
use go_check_ssl.Prelude.Text.{Text, shown_text}
use go_check_ssl.Prelude.Text.Decimal.{to_decimal}
use go_check_ssl.Types.{
  ApiDomain, ApiEndpoint, PolicyView, TenantPolicies, email, telegram, webhook,
}
use go_check_ssl.Locale.{Locale}
use go_check_ssl.Domains.Panel.{Tile, Variant, success, warning}
use go_check_ssl.Notifications.Page.{
  NotificationsState, enabled_endpoint_count, override_count, override_policy, thresholds_label,
  endpoint_preview, endpoint_meta,
}

-- What the queries and the test have given so far. `testing` is the endpoint of a pending test.
pub record Queries : Type 0 where
  pub endpoints : Option (List ApiEndpoint)
  pub domains : Option (List ApiDomain)
  pub policies : Option TenantPolicies
  pub testing : Option ℕ

pub record EndpointCard : Type 0 where
  pub name : Text
  pub badge : Variant
  pub badge_text : Text
  pub meta : Text
  pub test_disabled : Bool
  pub test_label : Text
  pub type_label : Text
  pub destination : Text
  pub last_checked : Text

-- The numbers above a policy's form, and the policy that the form is given. A policy is missing
-- where the form starts from its own defaults.
pub record PolicyPanel : Type 0 where
  pub thresholds : Text
  pub channels : Text
  pub form_policy : Option PolicyView

pub record NotificationsView : Type 0 where
  pub tiles : List Tile
  pub form_title : Text
  pub submit_label : Text
  pub cancel : Bool
  pub message : Option Text
  pub error : Option Text
  pub empty_note : Option Text
  pub cards : List EndpointCard
  pub default_panel : PolicyPanel
  pub options : List Tile
  pub override_panel : PolicyPanel
  pub override_domain : Option ℕ
  pub choose_note : Option Text

unfoldable pub selected_domain : Queries → NotificationsState → Option ApiDomain
selected_domain q s =
    chain? s.selected_domain_id (λ selected. find_first (λ d. d.id == selected) (q.domains or []))

-- `testingEndpointId === endpoint.id`
abbrev pub is_tested : Option ℕ → ℕ → Bool
is_tested none id = false
is_tested (some testing) id = testing == id

module _ (locale : Locale) (t : String → List (String × Text) → Text)
    (format_date_time : Option Text → Text) where
  unfoldable pub endpoint_type_label : ApiEndpoint → Text
  endpoint_type_label e = elim e.type [
    | email ↦ t "endpointType.email" []
    | telegram ↦ t "endpointType.telegram" []
    | webhook ↦ t "endpointType.webhook" []
  ]

  unfoldable pub endpoint_card : Queries → ApiEndpoint → EndpointCard
  unfolding endpoint_type_label
  endpoint_card q e = record {
    name = e.name;
    badge = if e.enabled then success else warning;
    badge_text = if e.enabled then t "common.enabled" [] else t "admin.disabledBadge" [];
    meta = endpoint_meta locale t e;
    test_disabled = truthy_number q.testing;
    test_label =
        if is_tested q.testing e.id
        then t "notifications.testingAction" []
        else t "notifications.testAction" [];
    type_label = endpoint_type_label e;
    destination = endpoint_preview locale t e;
    last_checked = format_date_time (some e.updated_at);
  }

  -- `policy?.threshold_days.length ? … : t("common.none")`
  abbrev thresholds_of : Option PolicyView → Text
  thresholds_of policy = thresholds_label locale t (chain policy (λ p. p.threshold_days) or [])

  abbrev channels_of : Option PolicyView → ℕ
  channels_of policy = chain policy (λ p. length p.endpoint_ids) or 0

  unfoldable pub default_policy_panel : Option TenantPolicies → PolicyPanel
  default_policy_panel policies =
      let policy = chain policies (λ p. p.default) in
      record {
        thresholds = thresholds_of policy;
        channels = to_decimal (channels_of policy);
        form_policy = policy;
      }

  -- Without a selected domain there is no form.
  unfoldable pub override_policy_panel : Queries → NotificationsState → PolicyPanel
  override_policy_panel q s =
      let policy = override_policy q.policies s.selected_domain_id in
      let selected = is_some (selected_domain q s) in
      record {
        thresholds = if selected then thresholds_of policy else t "common.none" [];
        channels = if selected then to_decimal (channels_of policy) else t "common.none" [];
        form_policy = policy;
      }

  unfoldable pub overview_tiles : Queries → List Tile
  overview_tiles q =
      let endpoints = q.endpoints or [] in
      record {
        label = t "notifications.endpointListTitle" [];
        value = to_decimal (length endpoints);
      }
      ∷ record {
        label = t "common.enabled" [];
        value = to_decimal (enabled_endpoint_count endpoints);
      }
      ∷ record {
        label = t "notifications.defaultPolicyTitle" [];
        value = to_decimal (channels_of (chain q.policies (λ p. p.default)));
      }
      ∷ record {
        label = t "notifications.overridePolicyTitle" [];
        value = to_decimal (override_count q.policies);
      }
      ∷ []

  -- An option of the select: its value, and `hostname:port`.
  abbrev option_of : ApiDomain → Tile
  option_of d = record { label = to_decimal d.id; value = d.hostname ++ b':' ∷ to_decimal d.port }

  unfoldable pub notifications_view : Queries → NotificationsState → NotificationsView
  unfolding overview_tiles endpoint_card default_policy_panel override_policy_panel
  notifications_view q s =
      let editing = is_some s.editing_endpoint in
      let endpoints = q.endpoints or [] in
      record {
        tiles = overview_tiles q;
        form_title =
            if editing
            then t "notifications.editEndpointTitle" []
            else t "notifications.addEndpointTitle" [];
        submit_label =
            if editing then t "notifications.saveEndpoint" [] else t "notifications.addEndpoint" [];
        cancel = editing;
        message = shown_text s.endpoint_message;
        error = shown_text s.endpoint_error;
        empty_note = when (length endpoints == 0) (t "notifications.noEndpoints" []);
        cards = map (endpoint_card q) endpoints;
        default_panel = default_policy_panel q.policies;
        options = map option_of (q.domains or []);
        override_panel = override_policy_panel q s;
        override_domain = chain (selected_domain q s) (λ d. d.id);
        choose_note =
            when (not (is_some (selected_domain q s))) (t "notifications.chooseDomainToEdit" []);
      }
