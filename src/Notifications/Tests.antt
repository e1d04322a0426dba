-- ===== src/Notifications/Tests.antt =====
-- The theorems on the notifications page and its forms at concrete values.
use go_check_ssl.Prelude.{
  Option, true, false, not, none, some, List, [], ◌∷◌, ◌≡◌, refl, String, is_some, map, ◌&&◌,
}
use go_check_ssl.Prelude.Text.{Text, codes, truthy, text_ops}
use go_check_ssl.Prelude.Text.Number.{decimal, number_ops}
use go_check_ssl.Prelude.Text.Number
use go_check_ssl.Types.{ApiEndpoint, webhook, email}
use go_check_ssl.Api.{Client, Reply, response, failure, undefined, rejected, delete, empty}
use go_check_ssl.Auth.{auth_ops}
use go_check_ssl.Locale.{de}
use go_check_ssl.Notifications.PolicyForm.{policy_values, policy_payload}
use go_check_ssl.Notifications.PolicyForm.Laws.{whole, policy_payload-policy_values}
use go_check_ssl.Notifications.EndpointForm.{
  EndpointFormValues, no_config, endpoint_defaults, endpoint_payload, validation_error,
}
use go_check_ssl.Notifications.EndpointForm.Laws.{
  ConfigOf, of_webhook_with_header, endpoint_payload-ConfigOf, endpoint_payload-endpoint_defaults,
  validation_error_iff, not_blank, all_present, required,
}
use go_check_ssl.Notifications.Page.{NotificationsState, page_request, endpoint_path}
use go_check_ssl.Notifications.Page.View.{Queries, endpoint_card}
use go_check_ssl.Notifications.Page.View.Laws.{
  destination_of, meta_of, endpoint_card-ShowsSubmitted,
}

abbrev key_itself : String → List (String × Text) → Text
key_itself key values = codes key

abbrev client : List Reply → Client
client replies = record {
  access_token = some (codes "t1");
  has_refresh_handler = true;
  user = none;
  loading = false;
  replies = replies;
  log = [];
}

abbrev refusing : Client
refusing = client (response 500 [] (failure none) ∷ [])

abbrev page : NotificationsState
page = record {
  editing_endpoint = none;
  selected_domain_id = some 4;
  endpoint_message = none;
  endpoint_error = none;
  invalidated = [];
}

abbrev hook : ApiEndpoint
hook = record {
  id = 6;
  name = 104 ∷ [];
  type = webhook;
  enabled = true;
  config = record no_config {
    url = some (117 ∷ []);
    auth_header_name = some (120 ∷ []);
    auth_header_value = some (121 ∷ []);
  };
  config_masked = no_config;
  created_at = [];
  updated_at = [];
}

hook-ConfigOf : ConfigOf hook.type hook.config
hook-ConfigOf = of_webhook_with_header (117 ∷ []) (120 ∷ []) (121 ∷ []) refl

policy_payload-policy_values_example :
    policy_payload
      (policy_values (some (record { threshold_days = 30 ∷ 7 ∷ 1 ∷ []; endpoint_ids = 6 ∷ [] })))
    ≡ record { threshold_days = map whole (30 ∷ 7 ∷ 1 ∷ []); endpoint_ids = 6 ∷ [] }
policy_payload-policy_values_example = policy_payload-policy_values 30 (7 ∷ 1 ∷ []) (6 ∷ []) refl

-- Numbers that `Number` reads, and texts that it does not.
number_tests :
    (Number.js_number (codes "1.50e2") ≡ decimal false 150 2 2)
    × (Number.js_number (codes "0x1F") ≡ decimal false 31 0 0)
    × (Number.js_number (codes "-.5") ≡ decimal true 5 0 1)
    × (Number.js_number (codes "7 days") ≡ Number.nan)
    × (Number.js_number (codes "-0x1") ≡ Number.nan)
    × (Number.js_number (codes "+Infinity") ≡ Number.infinite false)
unfolding number_ops text_ops
number_tests = (refl, refl, refl, refl, refl, refl)

endpoint_payload-ConfigOf_example :
    ConfigOf
      (endpoint_payload (endpoint_defaults (some hook))).type
      (endpoint_payload (endpoint_defaults (some hook))).config
endpoint_payload-ConfigOf_example = endpoint_payload-ConfigOf (endpoint_defaults (some hook))

endpoint_payload-endpoint_defaults_example :
    endpoint_payload (endpoint_defaults (some hook))
    ≡ record { name = hook.name; type = hook.type; enabled = hook.enabled; config = hook.config }
endpoint_payload-endpoint_defaults_example = endpoint_payload-endpoint_defaults hook hook-ConfigOf

validation_error_iff_example : not (is_some (validation_error (endpoint_defaults (some hook)))) ≡ (
    not_blank (some (endpoint_payload (endpoint_defaults (some hook))).name)
    && all_present (
        required
          (endpoint_payload (endpoint_defaults (some hook))).config
          (endpoint_payload (endpoint_defaults (some hook))).type))
validation_error_iff_example = validation_error_iff (endpoint_defaults (some hook))

abbrev editing : NotificationsState
editing = record page { editing_endpoint = some hook }

abbrev taking : Client
taking = client (response 204 [] undefined ∷ [])

deletion_taken : rejected (page_request (endpoint_path 6) delete empty taking).0 ≡ false
unfolding page_request auth_ops
deletion_taken = refl

abbrev typed : EndpointFormValues
typed = record {
  name = 104 ∷ [];
  type = email;
  enabled = true;
  recipient_email = 97 ∷ [];
  bot_token = [];
  chat_id = [];
  url = [];
  auth_header_name = [];
  auth_header_value = [];
}

abbrev testing : Queries
testing = record { endpoints = some (hook ∷ []); domains = none; policies = none; testing = some 6 }

abbrev some_time : Option Text → Text
some_time value = codes "now"

abbrev hook_values : EndpointFormValues
hook_values = endpoint_defaults (some hook)

hook_valid : is_some (validation_error hook_values) ≡ false
unfolding validation_error text_ops endpoint_defaults
hook_valid = refl

hook_stored : hook.config ≡ (endpoint_payload hook_values).config
unfolding endpoint_payload endpoint_defaults
hook_stored = refl

hook_type : hook.type ≡ (endpoint_payload hook_values).type
unfolding endpoint_payload endpoint_defaults
hook_type = refl

endpoint_card-ShowsSubmitted_example :
    ((endpoint_card de key_itself some_time testing hook).destination
      ≡ destination_of hook_values.type hook_values)
    × (truthy (destination_of hook_values.type hook_values) ≡ true)
    × ((endpoint_card de key_itself some_time testing hook).meta
        ≡ meta_of de key_itself some_time hook_values.type hook_values)
endpoint_card-ShowsSubmitted_example =
    endpoint_card-ShowsSubmitted de key_itself some_time testing hook_values hook hook_valid
      hook_type hook_stored
