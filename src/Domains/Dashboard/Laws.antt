-- ===== src/Domains/Dashboard/Laws.antt =====
-- What the dashboard's handlers leave.
use go_check_ssl.Prelude.{
  [], ◌∷◌, ◌++◌, true, false, Option, none, some, ◌≡◌, refl, ap, ◌∙◌, ◌==◌, chain, ◌⊎◌, inl, inr,
  Option-cases,
}
use go_check_ssl.Types.{ApiDomain, ApiUser}
use go_check_ssl.Payloads.{DomainPayload}
use go_check_ssl.Api.{Client, Result, done, threw, Body, rejected, delete, empty, put, domain_input}
use go_check_ssl.Domains.DomainForm.{DomainFormInput, default_values, domain_payload}
use go_check_ssl.Domains.Dashboard.{
  DashboardState, save_domain, submit_settled, submit_domain, save_taken, domains,
  workspace_public_status, tenant_of, mutation_settled, delete_domain, domain_request, domain_path,
  refetch_domains,
}

module _ (user : Option ApiUser) (values : DomainFormInput) (s : DashboardState) (c : Client) where
  abbrev pub submitted : (DomainFormInput × DashboardState) × Client
  submitted = submit_domain user values s c

  abbrev pub answer : DomainPayload → Result Body × Client
  answer p = save_domain (chain s.editing_domain (λ d. d.id)) p c

  -- The form is empty, nothing is edited, and the lists are fetched again.
  abbrev pub IsTaken : DomainPayload → Type 0
  IsTaken p =
      (submitted.0.0 ≡ default_values none)
      × (submitted.0.1.editing_domain ≡ none)
      × (submitted.0.1.invalidated
          ≡ s.invalidated ++ (domains ∷ workspace_public_status (tenant_of user) ∷ []))
      × (submitted.1 ≡ (answer p).1)

  -- The three ways a submit goes.
  abbrev pub Outcome : Type 0
  Outcome =
      ((domain_payload values ≡ none) × (submitted ≡ ((values, s), c)))
      ⊎ ((p : DomainPayload) × (domain_payload values ≡ some p)
          × (rejected (answer p).0 ≡ true)
          × (submitted ≡ ((values, s), (answer p).1)))
      ⊎ ((p : DomainPayload) × (domain_payload values ≡ some p)
          × (rejected (answer p).0 ≡ false)
          × IsTaken p)

  settled :
      (p : DomainPayload) (r : Result Body × Client)
      → domain_payload values ≡ some p
      → answer p ≡ r
      → Outcome
  unfolding submit_domain submit_settled save_taken
  settled p (done b, c') e q = inr (inr (p, e, rw q refl, rw (e, q) (refl, refl, refl, refl)))
  settled p (threw x, c') e q = inr (inl (p, e, rw q refl, rw (e, q) refl))

  -- A submit with an issue sends nothing and changes nothing. Refused by the server, it leaves the
  -- form and the page as they were. Taken, it empties the form, ends the editing and has the
  -- domains and the public status fetched again.
  pub submit_domain-Outcome : Outcome
  unfolding submit_domain
  submit_domain-Outcome = elim (Option-cases (domain_payload values)) [
    | inl issue ↦ inl (issue, rw issue refl)
    | inr (p, e) ↦ settled p (answer p) e refl
  ]

kept :
    (user : Option ApiUser) (r : Result Body) (s : DashboardState)
    → (mutation_settled user r s).editing_domain ≡ s.editing_domain
unfolding mutation_settled refetch_domains
kept user (done b) s = refl
kept user (threw x) s = refl

-- The deletion of a domain that is being edited does not end the editing, whatever is answered: the
-- next submit still sends the update of the deleted domain.
delete_domain-keeps :
    (user : Option ApiUser) (d : ApiDomain) (s : DashboardState) (c c' : Client) (p : DomainPayload)
    → s.editing_domain ≡ some d
    → (d.id == 0) ≡ false
    → ((delete_domain user d.id s c).0.editing_domain ≡ some d)
      × (save_domain (chain (delete_domain user d.id s c).0.editing_domain (λ e. e.id)) p c'
          ≡ domain_request (domain_path d.id) put (domain_input p) c')
unfolding delete_domain save_domain
delete_domain-keeps user d s c c' p e positive =
    let editing = kept user (domain_request (domain_path d.id) delete empty c).0 s ∙ e in
    (editing, ap (λ o. save_domain (chain o (λ e. e.id)) p c') editing ∙ rw positive refl)
