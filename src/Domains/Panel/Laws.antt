-- ===== src/Domains/Panel/Laws.antt =====
-- Nothing that the panel shows is blank, in any locale and whatever is missing.
use go_check_ssl.Prelude.{
  Bool, true, false, Option, none, some, ◌++◌, ◌≡◌, refl, All, inl, inr, Bool-cases, Option-cases,
}
use go_check_ssl.Prelude.Text.{Text, codes, truthy}
use go_check_ssl.Prelude.Text.Decimal.{to_decimal}
use go_check_ssl.Types.{ApiDomain}
use go_check_ssl.Locale.{Locale}
use go_check_ssl.Translation.Lookup.{format_date_time, formatted, dictionary, find_message}
use go_check_ssl.Translation.Messages.English.{en_dictionary}
use go_check_ssl.Translation.Parameters.{find_parameters}
use go_check_ssl.Translation.Complete.{truthy-t}
use go_check_ssl.Domains.Panel.{dns_names, details, panel, addresses, text_of, summary_date_value}
use go_check_ssl.Domains.Panel.Values.{
  days_text-truthy, NamesFilled, join_names-truthy, Shown, ShowsDate, MoreFilled, IsFilled,
  is_address, truthy-behind, shown_error-Shown,
}
use go_check_ssl.Domains.Panel.Labels.{
  interval_label-truthy, status_label-truthy, none_shown, or_none_shown, notes-Shown,
}

module _ (locale : Locale) where
  module _ {ℓ} {Date : Type ℓ} (parse_date : Text → Option Date)
      (format format_date format_time : Locale → Date → Text)
      (format-truthy : (date : Date) → truthy (format locale date) ≡ true)
      (format_date-truthy : (date : Date) → truthy (format_date locale date) ≡ true)
      (format_time-truthy : (date : Date) → truthy (format_time locale date) ≡ true) where
    date_time-truthy :
        (value : Option Text) → truthy (format_date_time parse_date format locale value) ≡ true
    unfolding format_date_time formatted text_of
    date_time-truthy none = none_shown locale
    date_time-truthy (some value) = elim (Bool-cases (truthy value)) [
      | inl there ↦ elim (Option-cases (parse_date value)) [
        | inl unread ↦ rw (there, unread) (none_shown locale)
        | inr (date, read) ↦ rw (there, read) (format-truthy date)
      ]
      | inr empty ↦ rw empty (none_shown locale)
    ]

    summary_date_value-ShowsDate :
        (value : Option Text)
        → ShowsDate (summary_date_value locale parse_date format format_date format_time value)
    unfolding summary_date_value
    summary_date_value-ShowsDate none = none_shown locale
    summary_date_value-ShowsDate (some value) = elim (Bool-cases (truthy value)) [
      | inl there ↦ elim (Option-cases (parse_date value)) [
        | inl unread ↦ rw (there, unread) (none_shown locale)
        | inr (date, read) ↦ rw (there, read) (format_date-truthy date, format_time-truthy date)
      ]
      | inr empty ↦ rw empty (none_shown locale)
    ]

    details-Shown :
        (d : ApiDomain)
        → NamesFilled d.cert_dns_names
        → All Shown (details locale parse_date format format_date format_time d)
    unfolding details dns_names text_of dictionary en_dictionary find_message find_parameters
    details-Shown d names = (
      (truthy-t locale "common.validFrom" (refl, refl), date_time-truthy d.cert_valid_from),
      (
        (truthy-t locale "common.validTo" (refl, refl), date_time-truthy d.cert_expires_at),
        (
          (
            truthy-t locale "domains.nextCheck" (refl, refl),
            date_time-truthy (some d.next_check_at),
          ),
          (
            (truthy-t locale "common.lastChecked" (refl, refl), date_time-truthy d.last_checked_at),
            (
              (
                truthy-t locale "domains.lastSuccessful" (refl, refl),
                date_time-truthy d.last_successful_at,
              ),
              (
                (
                  truthy-t locale "common.signatureAlgorithm" (refl, refl),
                  or_none_shown locale d.cert_signature_algorithm,
                ),
                (
                  (
                    truthy-t locale "common.commonName" (refl, refl),
                    or_none_shown locale d.cert_common_name,
                  ),
                  (
                    (
                      truthy-t locale "common.serialNumber" (refl, refl),
                      or_none_shown locale d.cert_serial_number,
                    ),
                    (
                      (
                        truthy-t locale "common.issuer" (refl, refl),
                        or_none_shown locale d.cert_issuer,
                      ),
                      (
                        (
                          truthy-t locale "common.subject" (refl, refl),
                          or_none_shown locale d.cert_subject,
                        ),
                        (
                          (
                            truthy-t locale "common.san" (refl, refl),
                            join_names-truthy d.cert_dns_names (text_of locale "common.none") names
                                (none_shown locale),
                          ),
                          (
                            (
                              truthy-t locale "common.fingerprint" (refl, refl),
                              or_none_shown locale d.cert_fingerprint_sha256,
                            ),
                            tt,
                          ),
                        ),
                      ),
                    ),
                  ),
                ),
              ),
            ),
          ),
        ),
      ),
    )

    more-MoreFilled :
        (expanded : Bool) (d : ApiDomain)
        → NamesFilled d.cert_dns_names
        → is_address d.target_ip ≡ true
        → is_address d.resolved_ip ≡ true
        → MoreFilled (panel locale parse_date format format_date format_time expanded d).more
    unfolding panel text_of dictionary en_dictionary find_message find_parameters
    more-MoreFilled false d names target resolved = tt
    more-MoreFilled true d names target resolved = (
      details-Shown d names,
      shown_error-Shown locale d.last_error (truthy-t locale "status.error" (refl, refl)),
      notes-Shown locale d target resolved,
    )

    -- Nothing that the panel shows is blank, expanded or not, in any locale and whatever the domain
    -- lacks: if the platform's formats of dates never give an empty text, the names of the
    -- certificate are not empty, and the addresses have neither opening braces nor dollar signs.
    pub panel-IsFilled :
        (expanded : Bool) (d : ApiDomain)
        → NamesFilled d.cert_dns_names
        → is_address d.target_ip ≡ true
        → is_address d.resolved_ip ≡ true
        → IsFilled (panel locale parse_date format format_date format_time expanded d)
    unfolding panel text_of codes dictionary en_dictionary find_message find_parameters
    panel-IsFilled expanded d names target resolved =
        let filled_addresses : truthy (addresses locale d) ≡ true =
          truthy-behind (text_of locale "common.targetIp") _ refl in
        (
          truthy-behind d.hostname (codes ":" ++ to_decimal d.port) refl,
          status_label-truthy locale d.status,
          filled_addresses,
          (
            (
              truthy-t locale "common.daysLeft" (refl, refl),
              days_text-truthy d.days_remaining (text_of locale "common.none") (none_shown locale),
            ),
            (
              (
                truthy-t locale "domains.checkIntervalCompact" (refl, refl),
                interval_label-truthy locale d.check_interval_seconds,
              ),
              (
                (truthy-t locale "domains.detectionNotes" (refl, refl), filled_addresses),
                (
                  (
                    truthy-t locale "common.signatureAlgorithm" (refl, refl),
                    or_none_shown locale d.cert_signature_algorithm,
                  ),
                  tt,
                ),
              ),
            ),
          ),
          (
            (
              truthy-t locale "common.validTo" (refl, refl),
              summary_date_value-ShowsDate d.cert_expires_at,
            ),
            (
              (
                truthy-t locale "common.lastChecked" (refl, refl),
                summary_date_value-ShowsDate d.last_checked_at,
              ),
              (
                (
                  truthy-t locale "domains.lastSuccessful" (refl, refl),
                  summary_date_value-ShowsDate d.last_successful_at,
                ),
                (
                  (
                    truthy-t locale "domains.nextCheck" (refl, refl),
                    summary_date_value-ShowsDate (some d.next_check_at),
                  ),
                  tt,
                ),
              ),
            ),
          ),
          more-MoreFilled expanded d names target resolved,
        )
