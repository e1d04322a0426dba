-- ===== src/Domains/Tests.antt =====
-- The theorems on the domains' form and the dashboard at concrete values.
use go_check_ssl.Prelude.{Option, true, false, none, some, List, [], ◌∷◌, ◌≡◌, refl, ◌or◌, arith}
use go_check_ssl.Prelude.Text.{Text, codes, text_ops, trim}
use go_check_ssl.Prelude.Text.Number.{number_ops}
use go_check_ssl.Types.{ApiDomain, healthy}
use go_check_ssl.Payloads.{DomainPayload}
use go_check_ssl.Api.{Client, Reply, response, failure, put, domain_input}
use go_check_ssl.Domains.DomainForm.{
  DomainFormInput, typed, three_days, domain_payload, default_values, assemble, checked_port,
  checked_interval, coerce, between, at_least, natural,
}
use go_check_ssl.Domains.DomainForm.Laws.{
  IsSubmittable, domain_payload-IsSubmittable, domain_payload-default_values,
}
use go_check_ssl.Domains.Dashboard.{
  DashboardState, edit_domain, submit_domain, domain_request, domain_path,
}
use go_check_ssl.Domains.Dashboard.View.{Queries}
use go_check_ssl.Domains.Dashboard.View.Laws.{ShowsEditing, edit_domain-ShowsEditing}
use go_check_ssl.Locale.{Locale, de}
use go_check_ssl.Domains.Dashboard.Laws.{Outcome, submit_domain-Outcome}

abbrev client : List Reply → Client
client replies = record {
  access_token = some (codes "t1");
  has_refresh_handler = true;
  user = none;
  loading = false;
  replies = replies;
  log = [];
}

abbrev domain : ApiDomain
domain = record {
  id = 5;
  hostname = 97 ∷ 46 ∷ 98 ∷ [];
  port = 8443;
  target_ip = none;
  enabled = true;
  status = healthy;
  resolved_ip = none;
  cert_valid_from = none;
  cert_expires_at = none;
  days_remaining = none;
  cert_issuer = none;
  cert_subject = none;
  cert_common_name = none;
  cert_dns_names = none;
  cert_serial_number = none;
  cert_fingerprint_sha256 = none;
  cert_signature_algorithm = none;
  last_error = none;
  last_checked_at = none;
  last_successful_at = none;
  next_check_at = [];
  check_interval_seconds = 3600;
  created_at = [];
  updated_at = [];
}

abbrev page : DashboardState
page = record { editing_domain = some domain; expanded_domain_id = some 5; invalidated = [] }

-- A typed port and a typed interval beside the preset.
abbrev filled_in : DomainFormInput
filled_in = record {
  hostname = 32 ∷ 97 ∷ 46 ∷ 98 ∷ [];
  port = typed (codes "443");
  target_ip = [];
  enabled = true;
  interval_preset = three_days;
  custom_interval_seconds = codes "7200";
}

abbrev submitted_values : DomainPayload
submitted_values = record {
  hostname = 97 ∷ 46 ∷ 98 ∷ [];
  port = 443;
  target_ip = [];
  enabled = true;
  check_interval_seconds = 7200;
}

filled_in_payload : domain_payload filled_in ≡ some submitted_values
unfolding domain_payload assemble checked_port checked_interval coerce between at_least natural
    number_ops text_ops
filled_in_payload = refl

-- A port of 65536, and an interval of 59 seconds, are issues.
refused_inputs :
    (domain_payload (record filled_in { port = typed (codes "65536") }) ≡ none)
    × (domain_payload (record filled_in { custom_interval_seconds = codes "59" }) ≡ none)
unfolding domain_payload assemble checked_port checked_interval coerce between at_least natural
    number_ops text_ops
refused_inputs = (refl, refl)

domain_payload-IsSubmittable_example : IsSubmittable submitted_values
domain_payload-IsSubmittable_example =
    domain_payload-IsSubmittable filled_in submitted_values filled_in_payload

trimmed : (trim domain.hostname ≡ domain.hostname) × (trim [] ≡ [])
unfolding text_ops
trimmed = (refl, refl)

domain_payload-default_values_example :
    domain_payload (default_values (some domain))
    ≡ some (record {
      hostname = domain.hostname;
      port = domain.port;
      target_ip = domain.target_ip or [];
      enabled = domain.enabled;
      check_interval_seconds = domain.check_interval_seconds;
    })
domain_payload-default_values_example =
    domain_payload-default_values domain refl trimmed.0 trimmed.1 (omega arith) (omega arith)
      (omega arith)

submit_domain-Outcome_example :
    Outcome none filled_in page (client (response 409 [] (failure none) ∷ []))
submit_domain-Outcome_example =
    submit_domain-Outcome none filled_in page (client (response 409 [] (failure none) ∷ []))

abbrev loaded : Queries
loaded = record {
  public_status = none;
  public_status_loading = true;
  domains = some (domain ∷ []);
  domains_loading = false;
  checking = none;
}

-- A platform that reads every text and formats every date as nothing but "now".
abbrev read : Text → Option Text
read s = some s

abbrev now : Locale → Text → Text
now locale date = codes "now"

edit_domain-ShowsEditing_example :
    ShowsEditing read now now now de loaded (edit_domain domain page) domain
    × ((submit_domain none filled_in (edit_domain domain page) (client [])).1
        ≡ (domain_request (domain_path 5) put (domain_input submitted_values) (client [])).1)
edit_domain-ShowsEditing_example =
    edit_domain-ShowsEditing read now now now de loaded page domain none filled_in submitted_values
      (client []) refl filled_in_payload
