-- ===== src/Domains/Panel.antt =====
-- `DomainPanel` of apps/web/src/components/domains/domain-panel.tsx, as the texts that it shows. The
-- formats of dates are the platform's.
pub mod Values
pub mod Labels
pub mod Laws
use go_check_ssl.Prelude.{
  ℕ, ◌+◌, ◌*◌, ◌/◌, ◌%◌, String, Bool, true, false, Option, none, some, List, [], ◌∷◌, ◌++◌, ◌==◌,
  if◌then◌else◌, map, chain,
}
use go_check_ssl.Prelude.Text.{Text, codes, truthy}
use go_check_ssl.Prelude.Text.Decimal.{to_decimal}
use go_check_ssl.Prelude.Text.Split.{join}
use go_check_ssl.Types.{ApiDomain, DomainStatus, pending, healthy, error, Days, left, overdue}
use go_check_ssl.Locale.{Locale}
use go_check_ssl.PublicStatus.{or_text}
use go_check_ssl.Translation.Lookup.{t, format_date_time}

pub data Variant : Type 0 where
  success destructive warning : Variant

unfoldable pub status_variant : DomainStatus → Variant
status_variant healthy = success
status_variant error = destructive
status_variant pending = warning

-- `{days}` in JSX
unfoldable pub days_text : Days → Text
days_text (left n) = to_decimal n
days_text (overdue n) = b'-' ∷ to_decimal n

unfoldable pub shown_days : Option Days → Text → Text
unfolding days_text
shown_days none fallback = fallback
shown_days (some days) fallback = days_text days

-- `Math.round(n / d)`
unfoldable pub round_quotient : ℕ → ℕ → ℕ
round_quotient n d = (2 * n + d) / (2 * d)

unfoldable pub join_names : Option (List Text) → Text → Text
join_names none fallback = fallback
join_names (some []) fallback = fallback
join_names (some (name ∷ names)) fallback = join (codes ", ") (name ∷ names)

-- `DetailTile` and `SummaryCell`
pub record Tile : Type 0 where
  pub label : Text
  pub value : Text

-- `SummaryDateValue`: the fallback, or a date and a time.
pub data DateValue : Type 0 where
  missing : Text → DateValue
  dated : (date time : Text) → DateValue

-- The part of the panel that is shown while it is expanded.
pub record More : Type 0 where
  pub details : List Tile
  pub error : List Tile
  pub notes : List Text

pub record Panel : Type 0 where
  pub title : Text
  pub variant : Variant
  pub status : Text
  pub addresses : Text
  pub tiles : List Tile
  pub dates : List (Text × DateValue)
  pub more : Option More

module _ (locale : Locale) where
  unfoldable pub text_of : String → Text
  text_of key = t locale key none

  unfoldable pub status_label : DomainStatus → Text
  status_label healthy = text_of "status.healthy"
  status_label error = text_of "status.error"
  status_label pending = text_of "status.pending"

  unfoldable pub dns_names : ApiDomain → Text
  dns_names d = join_names d.cert_dns_names (text_of "common.none")

  unfoldable pub shown_target_ip : ApiDomain → Text
  shown_target_ip d = or_text d.target_ip (text_of "domains.autoResolve")

  unfoldable pub shown_resolved_ip : ApiDomain → Text
  shown_resolved_ip d = or_text d.resolved_ip (text_of "common.none")

  unfoldable pub interval_label : ℕ → Text
  interval_label seconds =
      if seconds % 86400 == 0
      then t locale "domains.intervalPresetDays"
          (some ((codes "days", to_decimal (round_quotient seconds 86400)) ∷ []))
      else to_decimal seconds ++ codes "s"

  -- `domain.last_error`, where there is one, and the notes.
  unfoldable pub shown_error : Option Text → List Tile
  shown_error none = []
  shown_error (some message) =
      if truthy message then record { label = text_of "status.error"; value = message } ∷ [] else []

  unfoldable pub notes : ApiDomain → List Text
  unfolding shown_target_ip shown_resolved_ip
  notes d =
      t locale "domains.targetIpSummary" (some ((codes "value", shown_target_ip d) ∷ []))
      ∷ t locale "domains.resolvedIpSummary" (some ((codes "value", shown_resolved_ip d) ∷ []))
      ∷ []

  -- The line under the title, which the notes repeat.
  abbrev pub addresses : ApiDomain → Text
  addresses d =
      text_of "common.targetIp"
      ++ (codes ": "
          ++ (shown_target_ip d
              ++ (codes " · "
                  ++ (text_of "common.resolvedIp" ++ (codes ": " ++ shown_resolved_ip d)))))

  module _ {ℓ} {Date : Type ℓ} (parse_date : Text → Option Date)
      (format format_date format_time : Locale → Date → Text) where
    unfoldable pub parsed_date_value : Option Date → DateValue
    parsed_date_value none = missing (text_of "common.none")
    parsed_date_value (some date) = dated (format_date locale date) (format_time locale date)

    unfoldable pub summary_date_value : Option Text → DateValue
    unfolding parsed_date_value
    summary_date_value none = missing (text_of "common.none")
    summary_date_value (some value) =
        if truthy value
        then parsed_date_value (parse_date value)
        else missing (text_of "common.none")

    abbrev pub date_time : Option Text → Text
    date_time value = format_date_time parse_date format locale value

    -- The tiles of the expanded panel, in their order.
    unfoldable pub details : ApiDomain → List Tile
    details d =
        record { label = text_of "common.validFrom"; value = date_time d.cert_valid_from }
        ∷ record { label = text_of "common.validTo"; value = date_time d.cert_expires_at }
        ∷ record { label = text_of "domains.nextCheck"; value = date_time (some d.next_check_at) }
        ∷ record { label = text_of "common.lastChecked"; value = date_time d.last_checked_at }
        ∷ record {
          label = text_of "domains.lastSuccessful";
          value = date_time d.last_successful_at;
        }
        ∷ record {
          label = text_of "common.signatureAlgorithm";
          value = or_text d.cert_signature_algorithm (text_of "common.none");
        }
        ∷ record {
          label = text_of "common.commonName";
          value = or_text d.cert_common_name (text_of "common.none");
        }
        ∷ record {
          label = text_of "common.serialNumber";
          value = or_text d.cert_serial_number (text_of "common.none");
        }
        ∷ record {
          label = text_of "common.issuer";
          value = or_text d.cert_issuer (text_of "common.none");
        }
        ∷ record {
          label = text_of "common.subject";
          value = or_text d.cert_subject (text_of "common.none");
        }
        ∷ record { label = text_of "common.san"; value = dns_names d }
        ∷ record {
          label = text_of "common.fingerprint";
          value = or_text d.cert_fingerprint_sha256 (text_of "common.none");
        }
        ∷ []

    unfoldable pub panel : Bool → ApiDomain → Panel
    unfolding shown_days interval_label details shown_error notes status_variant status_label
    panel expanded d = record {
      title = d.hostname ++ (codes ":" ++ to_decimal d.port);
      variant = status_variant d.status;
      status = status_label d.status;
      addresses = addresses d;
      tiles =
          record {
            label = text_of "common.daysLeft";
            value = shown_days d.days_remaining (text_of "common.none");
          }
          ∷ record {
            label = text_of "domains.checkIntervalCompact";
            value = interval_label d.check_interval_seconds;
          }
          ∷ record { label = text_of "domains.detectionNotes"; value = addresses d }
          ∷ record {
            label = text_of "common.signatureAlgorithm";
            value = or_text d.cert_signature_algorithm (text_of "common.none");
          }
          ∷ [];
      dates =
          (text_of "common.validTo", summary_date_value d.cert_expires_at)
          ∷ (text_of "common.lastChecked", summary_date_value d.last_checked_at)
          ∷ (text_of "domains.lastSuccessful", summary_date_value d.last_successful_at)
          ∷ (text_of "domains.nextCheck", summary_date_value (some d.next_check_at))
          ∷ [];
      more =
          if expanded
          then some
              (record { details = details d; error = shown_error d.last_error; notes = notes d })
          else none;
    }
