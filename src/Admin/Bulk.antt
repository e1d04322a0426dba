-- ===== src/Admin/Bulk.antt =====
-- `runBulkAction`: one action on all the selected tenants, one request after the other.
pub mod Laws
pub mod Outcome
use go_check_ssl.Prelude.{
  ℕ, ◌-◌, Bool, true, false, not, Option, none, some, List, [], ◌∷◌, ◌++◌, ◌==◌, ltb, ◌&&◌,
  if◌then◌else◌, String, length, includes, is_some, truthy_number,
}
use go_check_ssl.Prelude.Text.{Text, codes}
use go_check_ssl.Api.{Client, M, Result, done, threw, Thrown, Body}
use go_check_ssl.Locale.{Locale}
use go_check_ssl.ApiError.{get_localized_api_error_message}
use go_check_ssl.Admin.{AdminState, ModalView, admin_tenants, admin_tenant}
use go_check_ssl.Admin.Actions.{reset_feedback, delete_tenant, set_status, invalidate}

pub data BulkAction : Type 0 where
  enable disable delete : BulkAction

abbrev pub is_delete : BulkAction → Bool
is_delete delete = true
is_delete _ = false

unfoldable pub bulk_request : BulkAction → ℕ → M Body
bulk_request enable id = set_status false id
bulk_request disable id = set_status true id
bulk_request delete id = delete_tenant id

-- `activeModal && selectedTenantId && targetIds.includes(selectedTenantId)`
unfoldable pub shows_target : Option ModalView → Option ℕ → List ℕ → Bool
shows_target modal none targets = false
shows_target modal (some id) targets = is_some modal && not (id == 0) && includes targets id

-- The selection and the modal after the loop, from the state of the click.
unfoldable pub close_targets : BulkAction → List ℕ → AdminState → AdminState
unfolding shows_target
close_targets action targets s =
    if shows_target s.active_modal s.selected_tenant_id targets && is_delete action
    then record s { selected_tenant_ids = []; active_modal = none; selected_tenant_id = none }
    else record s { selected_tenant_ids = [] }

-- `selected` is the tenant that was selected at the click.
unfoldable pub invalidate_bulk : Option ℕ → AdminState → AdminState
unfolding invalidate
invalidate_bulk selected s =
    if truthy_number selected
    then invalidate (admin_tenant selected) (invalidate admin_tenants s)
    else invalidate admin_tenants s

module _ (locale : Locale) (t : String → List (String × ℕ) → Text) where
  -- What a request adds to `failures`.
  unfoldable pub failure_of : BulkAction → Result Body → List Text
  failure_of action (done _) = []
  failure_of action (threw reason) =
      get_localized_api_error_message locale reason
        (t (if is_delete action then "admin.tenantDeleteError" else "admin.tenantStatusError") [])
      ∷ []

  -- The loop: the failures, in order, and the client.
  unfoldable pub bulk_loop : BulkAction → List ℕ → Client → List Text × Client
  bulk_loop action [] c = ([], c)
  bulk_loop action (id ∷ ids) c =
      let (r, c') = bulk_request action id c in
      let (failures, last) = bulk_loop action ids c' in (failure_of action r ++ failures, last)

  unfoldable pub bulk_message : BulkAction → ℕ → Text
  bulk_message enable count = t "admin.bulkEnableSuccess" (("count", count) ∷ [])
  bulk_message disable count = t "admin.bulkDisableSuccess" (("count", count) ∷ [])
  bulk_message delete count = t "admin.bulkDeleteSuccess" (("count", count) ∷ [])

  -- The messages after the loop, by its failures and the number of its targets.
  unfoldable pub report : BulkAction → List Text → ℕ → AdminState → AdminState
  unfolding bulk_message
  report action [] total s = record s { action_message = some (bulk_message action total) }
  report action (first ∷ failures) total s = record s {
    action_error = some first;
    action_message = some (
        t "admin.bulkPartialSuccess"
          (("success", total - length (first ∷ failures)) ∷ ("total", total) ∷ []));
  }

  unfoldable pub settle_bulk : BulkAction → List ℕ → List Text → AdminState → AdminState
  unfolding report close_targets invalidate_bulk
  settle_bulk action targets failures s =
      report action failures (length targets)
        (invalidate_bulk s.selected_tenant_id (close_targets action targets s))

  unfoldable pub nothing_selected : AdminState → AdminState
  nothing_selected s = record s {
    action_error = some (t "admin.selectTenantsFirst" []);
    action_message = none;
  }

  -- From `resetFeedback` to the end.
  unfoldable pub bulk_selected : BulkAction → AdminState → Client → AdminState × Client
  unfolding reset_feedback settle_bulk
  bulk_selected action s c =
      let (failures, c') = bulk_loop action s.selected_tenant_ids c in
      (settle_bulk action s.selected_tenant_ids failures (reset_feedback s), c')

  -- `confirmed` is the answer to the question that comes before a deletion.
  unfoldable pub run_bulk_action : BulkAction → Bool → AdminState → Client → AdminState × Client
  unfolding nothing_selected
  run_bulk_action action confirmed s c =
      if length s.selected_tenant_ids == 0
      then (nothing_selected s, c)
      else if is_delete action && not confirmed
      then (s, c)
      else bulk_selected action s c
