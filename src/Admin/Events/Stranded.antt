-- ===== src/Admin/Events/Stranded.antt =====
-- The quick filters stand in the part of apps/web/src/pages/admin-page.tsx that is shown only while
-- the list has tenants.
use go_check_ssl.Prelude.{
  ℕ, Bool, true, false, not, Option, List, ◌≡◌, refl, ◌∙◌, String, Bool-cases, arith, ltb, inl, inr,
}
use go_check_ssl.Prelude.Text.{Text}
use go_check_ssl.Types.{AdminTenantListResponse}
use go_check_ssl.Api.{Client, Result, done, threw, Body}
use go_check_ssl.Locale.{Locale}
use go_check_ssl.Admin.{AdminState, QuickFilter, total_pages, total_tenants, clamp_page}
use go_check_ssl.Admin.Actions.{
  handle_sort, change_query, change_status_filter, previous_page, go_to_page, next_page, open_modal,
  switch_modal, close_modal, click_status, click_delete, submit_password, reset_feedback,
  status_settled, delete_settled, password_settled, action_failed, invalidate, for_tenant,
  set_status, set_password, delete_tenant, password_valid,
}
use go_check_ssl.Admin.Events.{
  Event, search, filter_status, filter_quick, sort, check_tenant, check_page, clear_selection, bulk,
  previous, page, next, open_for, switch_to, close, toggle_status, remove, type_password, submit,
  rendered, enabled, run, on_table,
}

on_table_empty :
    (answer : Option AdminTenantListResponse) (s : AdminState)
    → total_tenants answer ≡ 0
    → on_table answer s ≡ false
unfolding on_table
on_table_empty answer s none_found = rw none_found (ground arith)

module _ (locale : Locale) (t : String → List (String × ℕ) → Text) where
  status_settled-keeps :
      (b : Bool) (r : Result Body) (s : AdminState)
      → (status_settled locale t b r s).quick_filter ≡ s.quick_filter
  unfolding status_settled action_failed invalidate
  status_settled-keeps b (done _) s = refl
  status_settled-keeps b (threw x) s = refl

  delete_settled-keeps :
      (r : Result Body) (s : AdminState)
      → (delete_settled locale t r s).quick_filter ≡ s.quick_filter
  unfolding delete_settled action_failed invalidate
  delete_settled-keeps (done _) s = refl
  delete_settled-keeps (threw x) s = refl

  password_settled-keeps :
      (r : Result Body) (s : AdminState)
      → (password_settled locale t r (reset_feedback s)).quick_filter ≡ s.quick_filter
  unfolding password_settled reset_feedback
  password_settled-keeps (done _) s = refl
  password_settled-keeps (threw x) s = refl

  submit-keeps :
      (s : AdminState) (c : Client) → (submit_password locale t s c).0.quick_filter ≡ s.quick_filter
  unfolding submit_password
  submit-keeps s c = elim (Bool-cases (password_valid s.password)) [
    | inl valid ↦
        rw valid
          (password_settled-keeps (for_tenant s.selected_tenant_id (set_password s.password) c).0 s)
    | inr short ↦ rw short refl
  ]

  clamp_page-keeps :
      (answer : Option AdminTenantListResponse) (s : AdminState)
      → (clamp_page answer s).quick_filter ≡ s.quick_filter
  unfolding clamp_page
  clamp_page-keeps answer s = elim (Bool-cases (ltb (total_pages answer) s.current_page)) [
    | inl high ↦ rw high refl
    | inr low ↦ rw low refl
  ]

  run-keeps :
      (e : Event) (answer : Option AdminTenantListResponse) (s : AdminState) (c : Client)
      → total_tenants answer ≡ 0
      → enabled e answer s ≡ true
      → (run locale t e answer s c).0.quick_filter ≡ s.quick_filter
  unfolding run enabled change_query change_status_filter handle_sort previous_page go_to_page
      next_page open_modal switch_modal close_modal reset_feedback click_status click_delete
  run-keeps (search q) answer s c none_found h = refl
  run-keeps (filter_status f) answer s c none_found h = refl
  run-keeps (filter_quick f) answer s c none_found h =
      ground (arith, on_table_empty answer s none_found, h)
  run-keeps (sort k) answer s c none_found h = refl
  run-keeps (check_tenant id b) answer s c none_found h = refl
  run-keeps (check_page b) answer s c none_found h = refl
  run-keeps clear_selection answer s c none_found h = refl
  run-keeps (bulk action confirmed) answer s c none_found h =
      ground (arith, on_table_empty answer s none_found, h)
  run-keeps previous answer s c none_found h = refl
  run-keeps (page n) answer s c none_found h = refl
  run-keeps next answer s c none_found h = refl
  run-keeps (open_for id view) answer s c none_found h = refl
  run-keeps (switch_to view) answer s c none_found h = refl
  run-keeps close answer s c none_found h = refl
  run-keeps (toggle_status b) answer s c none_found h =
      status_settled-keeps (not b) (for_tenant s.selected_tenant_id (set_status (not b)) c).0 s
  run-keeps remove answer s c none_found h =
      delete_settled-keeps (for_tenant s.selected_tenant_id delete_tenant c).0 s
  run-keeps (type_password p) answer s c none_found h = refl
  run-keeps submit answer s c none_found h = submit-keeps s c
  run-keeps rendered answer s c none_found h = clamp_page-keeps answer s

  module _ (answer_of : AdminState → Option AdminTenantListResponse) where
    -- What the controls lead to from a state on, when the list holds `answer_of` of each state.
    pub data Leads (from : AdminState) : AdminState → Type 0 where
      stay : Leads from from
      click :
          {s : AdminState}
          → Leads from s
          → (e : Event) (c : Client) → enabled e (answer_of s) s ≡ true
          → Leads from (run locale t e (answer_of s) s c).0

    Leads-keeps :
        (filter : QuickFilter) (from s : AdminState)
        → ((s : AdminState) → s.quick_filter ≡ filter → total_tenants (answer_of s) ≡ 0)
        → from.quick_filter ≡ filter
        → Leads from s
        → s.quick_filter ≡ filter
    Leads-keeps filter from _ empty chosen stay = chosen
    Leads-keeps filter from _ empty chosen (click {s} leads e c h) =
        let before = Leads-keeps filter from s empty chosen leads in
        run-keeps e (answer_of s) s c (empty s before) h ∙ before

    -- Once a quick filter is chosen that no tenant fits, whatever the other filters, so that the
    -- list is empty while it is chosen, no sequence of clicks and inputs on the page chooses
    -- another: the quick filter stays, and the buttons that would change it are not there.
    pub quick_filter_stays :
        (filter : QuickFilter) (from s : AdminState)
        → ((s : AdminState) → s.quick_filter ≡ filter → total_tenants (answer_of s) ≡ 0)
        → from.quick_filter ≡ filter
        → Leads from s
        → (s.quick_filter ≡ filter)
          × ((other : QuickFilter) → enabled (filter_quick other) (answer_of s) s ≡ false)
    unfolding enabled
    quick_filter_stays filter from s empty chosen leads =
        let kept = Leads-keeps filter from s empty chosen leads in
        (kept, λ other. on_table_empty (answer_of s) s (empty s kept))
