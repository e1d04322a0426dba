-- ===== src/Domains/Dashboard/View/Laws.antt =====
-- What the button to edit a domain does to the page, and to the next submit.
use go_check_ssl.Prelude.{◌==◌, true, false, Option, some, ◌≡◌, refl, is_some, Bool-cases, inl, inr}
use go_check_ssl.Prelude.Text.{Text}
use go_check_ssl.Types.{ApiDomain, ApiUser}
use go_check_ssl.Payloads.{DomainPayload}
use go_check_ssl.Api.{Client, put, domain_input}
use go_check_ssl.Locale.{Locale}
use go_check_ssl.Domains.Panel.{panel, text_of}
use go_check_ssl.Domains.DomainForm.{DomainFormInput, domain_payload}
use go_check_ssl.Domains.Dashboard.{
  DashboardState, edit_domain, is_expanded, submit_domain, submit_parsed, save_domain,
  domain_request, domain_path,
}
use go_check_ssl.Domains.Dashboard.View.{Queries, DashboardView, Row, row, dashboard_view}

module _ {ℓ} {Date : Type ℓ} (parse_date : Text → Option Date)
    (format format_date format_time : Locale → Date → Text) (locale : Locale) where
  abbrev pub shown_view : Queries → DashboardState → DashboardView
  shown_view q s = dashboard_view parse_date format format_date format_time locale q s

  abbrev pub shown_row : Queries → DashboardState → ApiDomain → Row
  shown_row q s d = row parse_date format format_date format_time locale q s d

  -- What the page shows while it edits `d`: the form's title, its button and the way out, and the
  -- details of `d` and of no other domain.
  abbrev pub ShowsEditing : Queries → DashboardState → ApiDomain → Type 0
  ShowsEditing q s d =
      ((shown_view q s).form_title ≡ text_of locale "domains.editTitle")
      × ((shown_view q s).submit_label ≡ text_of locale "domains.saveButton")
      × ((shown_view q s).cancel ≡ true)
      × ((e : ApiDomain) → is_some (shown_row q s e).panel.more ≡ (d.id == e.id))

  row_details :
      (q : Queries) (s : DashboardState) (e : ApiDomain)
      → is_some (shown_row q s e).panel.more ≡ is_expanded s.expanded_domain_id e.id
  unfolding row panel
  row_details q s e = elim (Bool-cases (is_expanded s.expanded_domain_id e.id)) [
    | inl opened ↦ rw opened refl
    | inr closed ↦ rw closed refl
  ]

  -- The button to edit a domain, whose id is not 0, shows its form and its details and no other
  -- domain's, and the next submit whose values fit the schema updates that domain.
  pub edit_domain-ShowsEditing :
      (q : Queries) (s : DashboardState) (d : ApiDomain) (user : Option ApiUser)
      (values : DomainFormInput) (p : DomainPayload) (c : Client)
      → (d.id == 0) ≡ false
      → domain_payload values ≡ some p
      → ShowsEditing q (edit_domain d s) d
        × ((submit_domain user values (edit_domain d s) c).1
            ≡ (domain_request (domain_path d.id) put (domain_input p) c).1)
  unfolding dashboard_view edit_domain submit_domain submit_parsed save_domain
  edit_domain-ShowsEditing q s d user values p c positive fits =
      ((refl, refl, refl, λ e. row_details q (edit_domain d s) e), rw (fits, positive) refl)
