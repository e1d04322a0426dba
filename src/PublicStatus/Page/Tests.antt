-- ===== src/PublicStatus/Page/Tests.antt =====
-- The public status page and its panels, for a domain that has never been checked.
use go_check_ssl.Prelude.{true, Option, none, some, [], ◌∷◌, ◌≡◌, refl, if◌then◌else◌, is_some}
use go_check_ssl.Prelude.Text.{Text, codes, text_eq, starts_with}
use go_check_ssl.Prelude.Text.Decimal.{to_decimal}
use go_check_ssl.Types.{ApiDomain, pending}
use go_check_ssl.Locale.{Locale, de, en}
use go_check_ssl.Translation.Lookup.{t, dictionary}
use go_check_ssl.Translation.{replace_all}
use go_check_ssl.Translation.Messages.English.{en_dictionary}
use go_check_ssl.Domains.Panel.{panel, interval_label, round_quotient}
use go_check_ssl.Domains.Panel.Values.{IsFilled, is_address}
use go_check_ssl.Domains.Panel.Laws.{panel-IsFilled}
use go_check_ssl.PublicStatus.Page.{domain_panel}
use go_check_ssl.PublicStatus.Page.Panels.{after_clicks, is_odd_run, expanded_after}

-- A domain that has never been checked.
abbrev unchecked : ApiDomain
unchecked = record {
  id = 5;
  hostname = codes "a.example";
  port = 443;
  target_ip = some (codes "192.0.2.7");
  enabled = true;
  status = pending;
  resolved_ip = none;
  cert_valid_from = none;
  cert_expires_at = none;
  days_remaining = none;
  cert_issuer = none;
  cert_subject = none;
  cert_common_name = none;
  cert_dns_names = some [];
  cert_serial_number = none;
  cert_fingerprint_sha256 = none;
  cert_signature_algorithm = none;
  last_error = some (codes "");
  last_checked_at = none;
  last_successful_at = none;
  next_check_at = codes "soon";
  check_interval_seconds = 172800;
  created_at = codes "2024-01-01T00:00:00Z";
  updated_at = codes "2024-01-01T00:00:00Z";
}

-- A platform that reads a text as itself, unless it is "soon", and formats every date as "now".
abbrev read : Text → Option Text
read s = if text_eq s (codes "soon") then none else some s

abbrev now : Locale → Text → Text
now locale date = b'n' ∷ codes "ow"

address : is_address unchecked.target_ip ≡ true
unfolding codes
address = refl

panel-IsFilled_example : IsFilled (panel de read now now now true unchecked)
panel-IsFilled_example =
    panel-IsFilled de read now now now (λ date. refl) (λ date. refl) (λ date. refl) true unchecked
      refl address refl

interval_label_tests :
    (interval_label en 172800 ≡ codes "2 day interval") × (interval_label en 3600 ≡ codes "3600s")
unfolding interval_label round_quotient t dictionary en_dictionary replace_all codes starts_with
    to_decimal
interval_label_tests = (refl, refl)

expanded_after_example :
    is_some (domain_panel read now now now de (after_clicks (5 ∷ 4 ∷ 5 ∷ [])) unchecked).more
    ≡ is_odd_run 5 (5 ∷ 4 ∷ 5 ∷ [])
expanded_after_example = expanded_after read now now now de (5 ∷ 4 ∷ 5 ∷ []) unchecked
