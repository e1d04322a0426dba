-- ===== src/Admin/Events.antt =====
-- The page as a state machine: its controls, when each can be used, and what holds in every state
-- that they lead to. A modal covers the page, so the controls of the table are used with no modal
-- open, and those of a modal while it is open.
pub mod Sound
pub mod Invariant
pub mod Stranded
use go_check_ssl.Prelude.{
  ℕ, ◌+◌, ◌-◌, ◌*◌, ◌≤◌, max, min, Bool, true, false, not, Option, none, some, List, [], ◌∷◌, ◌≡◌,
  refl, ap, sym, ◌∙◌, ◌&&◌, ◌||◌, String, is_some, includes, length, Bool-cases, arith, ◌==◌,
  if◌then◌else◌, ◌⊎◌, ltb, leb, inl, inr, truthy_number,
}
use go_check_ssl.Prelude.Text.{Text}
use go_check_ssl.Types.{AdminTenantListResponse}
use go_check_ssl.Api.{Client, Result, done, threw, Body, M}
use go_check_ssl.Locale.{Locale}
use go_check_ssl.Admin.{
  AdminState, ModalView, details, access, password, StatusFilter, QuickFilter, SortKey, initial,
  total_pages, current_page_safe, total_tenants, tenants, get_visible_pages, count_from, clamp_page,
  current_page_tenant_ids,
}
use go_check_ssl.Admin.Selection.{toggle_tenant_selection, toggle_page_selection}
use go_check_ssl.Admin.Actions.{
  handle_sort, change_query, change_status_filter, change_quick_filter, previous_page, go_to_page,
  next_page, open_modal, switch_modal, close_modal, click_status, click_delete, submit_password,
  is_password,
}
use go_check_ssl.Admin.Bulk.{BulkAction, run_bulk_action}

pub data Event : Type 0 where
  search : Text → Event
  filter_status : StatusFilter → Event
  filter_quick : QuickFilter → Event
  sort : SortKey → Event
  check_tenant : ℕ → Bool → Event
  check_page : Bool → Event
  clear_selection : Event
  bulk : BulkAction → (confirmed : Bool) → Event
  previous : Event
  page : ℕ → Event
  next : Event
  open_for : ℕ → ModalView → Event
  switch_to : ModalView → Event
  close : Event
  toggle_status : (tenant_disabled : Bool) → Event
  remove : Event
  type_password : Text → Event
  submit : Event
  rendered : Event

abbrev pub modal_is_password : Option ModalView → Bool
modal_is_password none = false
modal_is_password (some view) = is_password view

abbrev pub modal_is_access : Option ModalView → Bool
modal_is_access (some access) = true
modal_is_access _ = false

abbrev pub modal_is_details : Option ModalView → Bool
modal_is_details (some details) = true
modal_is_details _ = false

-- The controls of the page, of its table, and under the table.
unfoldable pub on_page : AdminState → Bool
on_page s = not (is_some s.active_modal)

unfoldable pub on_table : Option AdminTenantListResponse → AdminState → Bool
unfolding on_page
on_table answer s = on_page s && ltb 0 (total_tenants answer)

unfoldable pub on_pages : Option AdminTenantListResponse → AdminState → Bool
unfolding on_table
on_pages answer s = on_table answer s && not (length (tenants answer) == 0)

-- Whether the control is there and not disabled. A modal's controls need the tenant's detail too:
-- whether it has loaded is left open.
unfoldable pub enabled : Event → Option AdminTenantListResponse → AdminState → Bool
enabled rendered answer s = true
enabled (search q) answer s = on_page s
enabled (filter_status f) answer s = on_page s
enabled (filter_quick f) answer s = on_table answer s
enabled (sort k) answer s = on_table answer s
enabled (check_page b) answer s = on_table answer s
enabled (check_tenant id b) answer s =
    on_table answer s && includes (current_page_tenant_ids answer) id
enabled (open_for id view) answer s =
    on_table answer s && includes (current_page_tenant_ids answer) id
enabled clear_selection answer s = on_table answer s && not (length s.selected_tenant_ids == 0)
enabled (bulk action confirmed) answer s =
    on_table answer s && not (length s.selected_tenant_ids == 0)
enabled previous answer s = on_pages answer s && not (leb (current_page_safe answer s) 1)
enabled (page n) answer s =
    on_pages answer s
    && includes (get_visible_pages (current_page_safe answer s) (total_pages answer)) n
enabled next answer s =
    on_pages answer s && not (leb (total_pages answer) (current_page_safe answer s))
enabled (switch_to view) answer s =
    modal_is_details s.active_modal && not (modal_is_details (some view))
enabled close answer s = is_some s.active_modal
enabled (toggle_status b) answer s = modal_is_access s.active_modal
enabled remove answer s = modal_is_access s.active_modal
enabled (type_password p) answer s = modal_is_password s.active_modal
enabled submit answer s = modal_is_password s.active_modal

module _ (locale : Locale) (t : String → List (String × ℕ) → Text) where
  -- `answer` is what the list query holds.
  unfoldable pub run :
      Event → Option AdminTenantListResponse → AdminState → Client → AdminState × Client
  run (search q) answer s c = (change_query q s, c)
  run (filter_status f) answer s c = (change_status_filter f s, c)
  run (filter_quick f) answer s c = (change_quick_filter f s, c)
  run (sort k) answer s c = (handle_sort k s, c)
  run (check_tenant id b) answer s c =
      (record s { selected_tenant_ids = toggle_tenant_selection id b s.selected_tenant_ids }, c)
  run (check_page b) answer s c = (
    record s {
      selected_tenant_ids =
          toggle_page_selection (current_page_tenant_ids answer) b s.selected_tenant_ids;
    },
    c,
  )
  run clear_selection answer s c = (record s { selected_tenant_ids = [] }, c)
  run (bulk action confirmed) answer s c = run_bulk_action locale t action confirmed s c
  run previous answer s c = (previous_page s, c)
  run (page n) answer s c = (go_to_page n s, c)
  run next answer s c = (next_page answer s, c)
  run (open_for id view) answer s c = (open_modal id view s, c)
  run (switch_to view) answer s c = (switch_modal view s, c)
  run close answer s c = (close_modal s, c)
  run (toggle_status b) answer s c = click_status locale t b s c
  run remove answer s c = click_delete locale t s c
  run (type_password p) answer s c = (record s { password = p }, c)
  run submit answer s c = submit_password locale t s c
  run rendered answer s c = (clamp_page answer s, c)

  -- What the session can be at each event is left open: it is the client's, not the page's.
  pub data Reach : AdminState → Type 0 where
    start : Reach initial
    step :
        {s : AdminState}
        → Reach s
        → (e : Event) (answer : Option AdminTenantListResponse) (c : Client)
        → enabled e answer s ≡ true
        → Reach (run e answer s c).0
