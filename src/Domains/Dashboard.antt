-- ===== src/Domains/Dashboard.antt =====
-- apps/web/src/pages/dashboard-page.tsx: the page's state and handlers, with the submit of its
-- form. Nothing catches what the mutations reject with. What `invalidateQueries` is given is kept in
-- `invalidated`; the key of the public status has the user's tenant.
pub mod Laws
pub mod View
use go_check_ssl.Prelude.{
  ℕ, Bool, true, false, not, Option, none, some, List, [], ◌∷◌, ◌++◌, ◌==◌, if◌then◌else◌, ◌or◌,
  chain, truthy_number, String,
}
use go_check_ssl.Prelude.Text.{Text, codes}
use go_check_ssl.Prelude.Text.Decimal.{to_decimal}
use go_check_ssl.Types.{ApiDomain, ApiUser, DomainStatus, healthy, pending, PublicTenantStatus}
use go_check_ssl.Types
use go_check_ssl.Payloads.{DomainPayload}
use go_check_ssl.Api.{
  Client, M, Result, done, threw, Body, Method, RequestBody, put, post, delete, empty, domain_input,
  api_request,
}
use go_check_ssl.Auth.{refresh_session}
use go_check_ssl.Domains.DomainForm.{DomainFormInput, default_values, domain_payload}

pub data DashboardKey : Type 0 where
  domains : DashboardKey
  workspace_public_status : (tenant_id : Option ℕ) → DashboardKey

pub record DashboardState : Type 0 where
  pub editing_domain : Option ApiDomain
  pub expanded_domain_id : Option ℕ
  pub invalidated : List DashboardKey

unfoldable pub domain_request : Text → Method → RequestBody → M Body
domain_request path method body = api_request refresh_session path method body true

unfoldable pub domain_path : ℕ → Text
domain_path id = codes "/domains/" ++ to_decimal id

-- `saveMutation`: an id that is there, and not 0, is updated.
unfoldable pub save_domain : Option ℕ → DomainPayload → M Body
save_domain none values = domain_request (codes "/domains") post (domain_input values)
save_domain (some id) values =
    if id == 0
    then domain_request (codes "/domains") post (domain_input values)
    else domain_request (domain_path id) put (domain_input values)

-- `user?.tenant_id`
unfoldable pub tenant_of : Option ApiUser → Option ℕ
tenant_of user = chain user (λ u. u.tenant_id)

unfoldable pub refetch_domains : Option ApiUser → DashboardState → DashboardState
unfolding tenant_of
refetch_domains user s = record s {
  invalidated = s.invalidated ++ (domains ∷ workspace_public_status (tenant_of user) ∷ []);
}

unfoldable pub save_taken : Option ApiUser → DashboardState → DashboardState
unfolding refetch_domains
save_taken user s = refetch_domains user (record s { editing_domain = none })

-- What the answer to a submit does to the form and the page. Taken, the form is reset when it was
-- for a new domain, and by its effect when the domain is taken from it.
unfoldable pub submit_settled :
    Option ApiUser
    → Result Body
    → DomainFormInput
    → DashboardState
    → DomainFormInput × DashboardState
submit_settled user (done _) values s = (default_values none, save_taken user s)
submit_settled user (threw reason) values s = (values, s)

-- The submit, by what the schema makes of the values.
unfoldable pub submit_parsed :
    Option ApiUser
    → Option DomainPayload
    → DomainFormInput
    → DashboardState
    → Client
    → (DomainFormInput × DashboardState) × Client
submit_parsed user none values s c = ((values, s), c)
submit_parsed user (some p) values s c =
    let (r, c') = save_domain (chain s.editing_domain (λ d. d.id)) p c in
    (submit_settled user r values s, c')

-- The form's submit with the page's `onSubmit`; with an issue of the schema nothing happens but
-- that the form shows it.
unfoldable pub submit_domain :
    Option ApiUser
    → DomainFormInput
    → DashboardState
    → Client
    → (DomainFormInput × DashboardState) × Client
unfolding submit_parsed
submit_domain user values s c = submit_parsed user (domain_payload values) values s c

-- Of `deleteMutation` and `checkMutation`.
unfoldable pub mutation_settled : Option ApiUser → Result Body → DashboardState → DashboardState
mutation_settled user (done _) s = refetch_domains user s
mutation_settled user (threw reason) s = s

unfoldable pub delete_domain :
    Option ApiUser → ℕ → DashboardState → Client → DashboardState × Client
delete_domain user id s c =
    let (r, c') = domain_request (domain_path id) delete empty c in (mutation_settled user r s, c')

unfoldable pub check_domain : Option ApiUser → ℕ → DashboardState → Client → DashboardState × Client
check_domain user id s c =
    let (r, c') = domain_request (domain_path id ++ codes "/check") post empty c in
    (mutation_settled user r s, c')

unfoldable pub edit_domain : ApiDomain → DashboardState → DashboardState
edit_domain d s = record s { editing_domain = some d; expanded_domain_id = some d.id }

unfoldable pub cancel_domain : DashboardState → DashboardState
cancel_domain s = record s { editing_domain = none }

-- The panel's toggle: at most one domain is expanded.
abbrev pub is_expanded : Option ℕ → ℕ → Bool
is_expanded none id = false
is_expanded (some current) id = current == id

unfoldable pub toggle_expanded : ℕ → DashboardState → DashboardState
toggle_expanded id s = record s {
  expanded_domain_id = if is_expanded s.expanded_domain_id id then none else some id;
}

-- `enabled` of the public status query.
unfoldable pub public_status_enabled : Option ApiUser → Bool
public_status_enabled user = truthy_number (tenant_of user)

unfoldable pub overall_status : Option PublicTenantStatus → DomainStatus
overall_status status = chain status (λ p. p.summary.overall_status) or pending
