-- ===== src/Admin/Actions.antt =====
-- The handlers of the page that concern one tenant, and those of its filters, pages and modals. A
-- handler runs to its end before the next event. What `invalidateQueries` is given is kept in
-- `invalidated`; fetching these queries again is left to TanStack Query.
pub mod Laws
use go_check_ssl.Prelude.{
  ℕ, ◌+◌, ◌-◌, min, max, Bool, true, false, not, Option, none, some, List, [], ◌∷◌, ◌++◌, ◌==◌, ltb,
  ◌||◌, ◌&&◌, if◌then◌else◌, String, keep, length, truthy_number,
}
use go_check_ssl.Prelude.Text.{Text, codes, truthy}
use go_check_ssl.Prelude.Text.Decimal.{to_decimal}
use go_check_ssl.Types.{AdminTenantListResponse}
use go_check_ssl.Api.{
  Client, M, Result, done, threw, Thrown, error, Body, Method, RequestBody, put, delete, empty,
  api_request, throw,
}
use go_check_ssl.Api
use go_check_ssl.Auth.{refresh_session}
use go_check_ssl.Locale.{Locale}
use go_check_ssl.ApiError.{get_localized_api_error_message}
use go_check_ssl.Admin.{
  AdminState, StatusFilter, QuickFilter, SortKey, SortDirection, asc, desc, ModalView, details,
  access, password, QueryKey, admin_tenants, admin_tenant, total_pages,
}
use go_check_ssl.Admin

unfoldable pub reset_feedback : AdminState → AdminState
reset_feedback s = record s { action_message = none; action_error = none }

abbrev pub same_key : SortKey → SortKey → Bool
same_key Admin.name Admin.name = true
same_key Admin.username Admin.username = true
same_key Admin.status Admin.status = true
same_key Admin.domains Admin.domains = true
same_key Admin.errors Admin.errors = true
same_key Admin.expiry Admin.expiry = true
same_key _ _ = false

abbrev pub flipped : SortDirection → SortDirection
flipped asc = desc
flipped desc = asc

-- A click on a column's head.
unfoldable pub handle_sort : SortKey → AdminState → AdminState
handle_sort key s = record s {
  current_page = 1;
  sort_direction = if same_key s.sort_key key then flipped s.sort_direction else asc;
  sort_key = key;
}

-- The search box, the filter of statuses and the quick filters.
unfoldable pub change_query : Text → AdminState → AdminState
change_query q s = record s { tenant_query = q; current_page = 1 }

unfoldable pub change_status_filter : StatusFilter → AdminState → AdminState
change_status_filter f s = record s { status_filter = f; current_page = 1 }

unfoldable pub change_quick_filter : QuickFilter → AdminState → AdminState
change_quick_filter f s = record s { quick_filter = f; current_page = 1 }

-- The buttons under the table.
unfoldable pub previous_page : AdminState → AdminState
previous_page s = record s { current_page = max 1 (s.current_page - 1) }

unfoldable pub go_to_page : ℕ → AdminState → AdminState
go_to_page page s = record s { current_page = page }

unfoldable pub next_page : Option AdminTenantListResponse → AdminState → AdminState
next_page answer s = record s { current_page = min (total_pages answer) (s.current_page + 1) }

abbrev pub is_password : ModalView → Bool
is_password password = true
is_password _ = false

unfoldable pub open_modal : ℕ → ModalView → AdminState → AdminState
unfolding reset_feedback
open_modal tenant_id view s = record (reset_feedback s) {
  selected_tenant_id = some tenant_id;
  active_modal = some view;
  password = if is_password view then s.password else [];
}

-- The buttons of the details lead to the other modals.
unfoldable pub switch_modal : ModalView → AdminState → AdminState
switch_modal view s = record s { active_modal = some view }

-- The close button of a modal, and the Escape key while one is open.
unfoldable pub close_modal : AdminState → AdminState
unfolding reset_feedback
close_modal s = reset_feedback (record s { active_modal = none; password = [] })

-- A request that asks for a new token when it is refused as unauthorized.
unfoldable pub admin_request : Text → Method → RequestBody → M Body
admin_request path method body = api_request refresh_session path method body true

-- A tenant's path; what the mutations send fails without a selected tenant.
unfoldable pub tenant_path : ℕ → Text
tenant_path id = codes "/admin/tenants/" ++ to_decimal id

unfoldable pub for_tenant : Option ℕ → (ℕ → M Body) → M Body
for_tenant none send = throw (error (codes "tenant not found"))
for_tenant (some id) send = if id == 0 then throw (error (codes "tenant not found")) else send id

unfoldable pub set_status : Bool → ℕ → M Body
set_status disabled id =
    admin_request (tenant_path id ++ codes "/status") put (Api.disabled disabled)

unfoldable pub set_password : Text → ℕ → M Body
set_password value id = admin_request (tenant_path id ++ codes "/password") put (Api.password value)

unfoldable pub delete_tenant : ℕ → M Body
delete_tenant id = admin_request (tenant_path id) delete empty

-- `id !== selectedTenantId`
abbrev pub is_other : Option ℕ → ℕ → Bool
is_other none id = true
is_other (some selected) id = not (id == selected)

unfoldable pub invalidate : QueryKey → AdminState → AdminState
invalidate key s = record s { invalidated = s.invalidated ++ key ∷ [] }

-- The form of the password modal: `required`, at least eight code units.
unfoldable pub password_valid : Text → Bool
password_valid value = truthy value && not (ltb (length value) 8)

-- The locale and the `t` of `useI18n`, with the values that a text is given.
module _ (locale : Locale) (t : String → List (String × ℕ) → Text) where
  -- What `catch` does with a failed status change or deletion.
  unfoldable pub action_failed : Thrown → String → AdminState → AdminState
  action_failed reason key s = record s {
    action_message = none;
    action_error = some (get_localized_api_error_message locale reason (t key []));
  }

  unfoldable pub status_settled : Bool → Result Body → AdminState → AdminState
  unfolding action_failed invalidate
  status_settled disabled (done _) s = invalidate (admin_tenant s.selected_tenant_id) (
      invalidate admin_tenants (record s {
        action_error = none;
        action_message = some (
            t (if disabled then "admin.tenantDisabledSuccess" else "admin.tenantEnabledSuccess")
              []);
      }))
  status_settled disabled (threw reason) s = action_failed reason "admin.tenantStatusError" s

  -- The button of the access modal, by what the detail says of the tenant.
  unfoldable pub click_status : Bool → AdminState → Client → AdminState × Client
  click_status tenant_disabled s c =
      let (r, c') = for_tenant s.selected_tenant_id (set_status (not tenant_disabled)) c in
      (status_settled (not tenant_disabled) r s, c')

  unfoldable pub delete_settled : Result Body → AdminState → AdminState
  unfolding action_failed invalidate
  delete_settled (done _) s = invalidate (admin_tenant s.selected_tenant_id) (
      invalidate admin_tenants (record s {
        action_error = none;
        action_message = some (t "admin.tenantDeletedSuccess" []);
        active_modal = none;
        selected_tenant_id = none;
        selected_tenant_ids = keep (is_other s.selected_tenant_id) s.selected_tenant_ids;
      }))
  delete_settled (threw reason) s = action_failed reason "admin.tenantDeleteError" s

  unfoldable pub click_delete : AdminState → Client → AdminState × Client
  click_delete s c =
      let (r, c') = for_tenant s.selected_tenant_id delete_tenant c in (delete_settled r s, c')

  unfoldable pub password_settled : Result Body → AdminState → AdminState
  password_settled (done _) s = record s {
    action_error = none;
    action_message = some (t "admin.passwordUpdatedSuccess" []);
    password = [];
  }
  password_settled (threw reason) s = record s {
    action_error =
        some (get_localized_api_error_message locale reason (t "admin.passwordUpdateError" []));
  }

  unfoldable pub submit_password : AdminState → Client → AdminState × Client
  unfolding password_valid reset_feedback
  submit_password s c =
      if password_valid s.password
      then (let (r, c') = for_tenant s.selected_tenant_id (set_password s.password) c in
          (password_settled r (reset_feedback s), c'))
      else (s, c)
