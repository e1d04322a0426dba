-- ===== src/Domains/Panel/Labels.antt =====
-- The texts of the panel that depend on the locale alone are never blank.
use go_check_ssl.Prelude.{
  ℕ, ◌%◌, true, Option, none, some, [], ◌∷◌, ◌==◌, ◌∙◌, ◌≡◌, refl, All, inl, inr, Bool-cases,
}
use go_check_ssl.Prelude.Text.{Text, codes, truthy}
use go_check_ssl.Prelude.Text.Decimal.{to_decimal}
use go_check_ssl.Prelude.Text.Number.Laws.{truthy-to_decimal}
use go_check_ssl.Types.{ApiDomain, DomainStatus, pending, healthy, error}
use go_check_ssl.Locale.{Locale}
use go_check_ssl.PublicStatus.{or_text}
use go_check_ssl.Translation.Lookup.{t, dictionary, find_message}
use go_check_ssl.Translation.Messages.English.{en_dictionary}
use go_check_ssl.Translation.Parameters.{find_parameters}
use go_check_ssl.Translation.{interpolate}
use go_check_ssl.Translation.Checked.{lacks-template}
use go_check_ssl.Translation.Pieces.{find_param}
use go_check_ssl.Translation.Complete.{truthy-t, t_complete, truthy-append}
use go_check_ssl.Domains.Panel.{
  status_label, shown_target_ip, shown_resolved_ip, round_quotient, interval_label, notes, text_of,
}
use go_check_ssl.Domains.Panel.Values.{or_text-truthy, days_given, is_address, or_text-plain}

module _ (locale : Locale) where
  pub interval_label-truthy : (seconds : ℕ) → truthy (interval_label locale seconds) ≡ true
  unfolding interval_label dictionary en_dictionary find_message find_parameters find_param codes
  interval_label-truthy seconds = elim (Bool-cases (seconds % 86400 == 0)) [
    | inl whole ↦
        rw whole
          (t_complete locale "domains.intervalPresetDays" _ refl
            (rw (days_given (round_quotient seconds 86400)) refl) refl).1
    | inr odd ↦
        rw odd
          (truthy-append (to_decimal seconds) (codes "s") ∙ rw (truthy-to_decimal seconds) refl)
  ]

  pub status_label-truthy : (status : DomainStatus) → truthy (status_label locale status) ≡ true
  unfolding status_label text_of dictionary en_dictionary find_message find_parameters
  status_label-truthy healthy = truthy-t locale "status.healthy" (refl, refl)
  status_label-truthy error = truthy-t locale "status.error" (refl, refl)
  status_label-truthy pending = truthy-t locale "status.pending" (refl, refl)

  pub none_shown : truthy (text_of locale "common.none") ≡ true
  unfolding text_of dictionary en_dictionary find_message find_parameters
  none_shown = truthy-t locale "common.none" (refl, refl)

  pub or_none_shown :
      (value : Option Text) → truthy (or_text value (text_of locale "common.none")) ≡ true
  or_none_shown value = or_text-truthy value (text_of locale "common.none") none_shown

  pub notes-Shown :
      (d : ApiDomain)
      → is_address d.target_ip ≡ true
      → is_address d.resolved_ip ≡ true
      → All (λ s. truthy s ≡ true) (notes locale d)
  unfolding notes shown_target_ip shown_resolved_ip text_of dictionary en_dictionary find_message
      find_parameters find_param codes t interpolate
  notes-Shown d target resolved =
      let none_braces = (t_complete locale "common.none" none refl refl refl).0 in
      let resolve_braces = (t_complete locale "domains.autoResolve" none refl refl refl).0 in
      let (none_dollars, resolve_dollars) = lacks-template locale in
      let target_plain =
        or_text-plain d.target_ip (text_of locale "domains.autoResolve") target
          (rw (resolve_braces, resolve_dollars) refl) in
      let resolved_plain =
        or_text-plain d.resolved_ip (text_of locale "common.none") resolved
          (rw (none_braces, none_dollars) refl) in
      (
        (t_complete locale "domains.targetIpSummary"
            (some ((codes "value", shown_target_ip locale d) ∷ [])) refl (rw target_plain refl)
            refl).1,
        (
          (t_complete locale "domains.resolvedIpSummary"
              (some ((codes "value", shown_resolved_ip locale d) ∷ [])) refl
              (rw resolved_plain refl) refl).1,
          tt,
        ),
      )
