-- ===== src/Admin/Bulk/Outcome.antt =====
-- The selection, the modal and the feedback after a bulk action.
use mathlib.Core.List.{head?}
use go_check_ssl.Prelude.{
  ℕ, Bool, true, false, Option, none, List, [], ◌∷◌, ◌≡◌, refl, ◌∙◌, inl, inr, ◌&&◌, String,
  is_some, length, truthy_number, Bool-cases,
}
use go_check_ssl.Prelude.Text.{Text}
use go_check_ssl.Api.{Client}
use go_check_ssl.Locale.{Locale}
use go_check_ssl.Admin.{AdminState, ModalView}
use go_check_ssl.Admin.Actions.{invalidate, reset_feedback}
use go_check_ssl.Admin.Bulk.{
  BulkAction, is_delete, report, close_targets, invalidate_bulk, settle_bulk, shows_target,
}
use go_check_ssl.Admin.Bulk.Laws.{ran, looped}

-- The selection, the modal and its tenant, the page of the list and the typed password.
abbrev pub Shown : Type 0
Shown = List ℕ × Option ModalView × Option ℕ × ℕ × Text

abbrev pub shown : AdminState → Shown
shown s = (s.selected_tenant_ids, s.active_modal, s.selected_tenant_id, s.current_page, s.password)

abbrev pub target_open : List ℕ → AdminState → Bool
target_open targets s = shows_target s.active_modal s.selected_tenant_id targets

-- After the deletion of the tenant that a modal shows, no tenant is selected and no modal open; else
-- only the selection is taken back.
abbrev pub closed : Bool → Shown → Shown
closed true (ids, modal, id, page, draft) = ([], none, none, page, draft)
closed false (ids, modal, id, page, draft) = ([], modal, id, page, draft)

invalidate_bulk-keeps :
    (selected : Option ℕ) (s : AdminState)
    → (shown (invalidate_bulk selected s) ≡ shown s)
      × ((invalidate_bulk selected s).action_error ≡ s.action_error)
unfolding invalidate_bulk invalidate
invalidate_bulk-keeps selected s = elim (Bool-cases (truthy_number selected)) [
  | inl one ↦ rw one (refl, refl)
  | inr gone ↦ rw gone (refl, refl)
]

close_targets-shown :
    (action : BulkAction) (targets : List ℕ) (s : AdminState)
    → (shown (close_targets action targets s)
        ≡ closed (target_open targets s && is_delete action) (shown s))
      × ((close_targets action targets s).action_error ≡ s.action_error)
unfolding close_targets
close_targets-shown action targets s =
    elim (Bool-cases (target_open targets s && is_delete action)) [
      | inl taken ↦ rw taken (refl, refl)
      | inr left ↦ rw left (refl, refl)
    ]

module _ (locale : Locale) (t : String → List (String × ℕ) → Text) where
  report_lem :
      (action : BulkAction) (failures : List Text) (total : ℕ) (s : AdminState)
      → s.action_error ≡ none
      → (shown (report locale t action failures total s) ≡ shown s)
        × ((report locale t action failures total s).action_error ≡ head? failures)
        × (is_some (report locale t action failures total s).action_message ≡ true)
  unfolding report
  report_lem action [] total s h = (refl, h, refl)
  report_lem action (first ∷ failures) total s h = (refl, refl, refl)

  -- What a bulk action that ran leaves in `s`, by the state before and the failures of its loop.
  abbrev pub Settles : BulkAction → AdminState → List Text → AdminState → Type 0
  Settles action before failures s =
      (shown s
        ≡ closed (target_open before.selected_tenant_ids before && is_delete action) (shown before))
      × (s.action_error ≡ head? failures)
      × (is_some s.action_message ≡ true)

  pub settle_bulk-Settles :
      (action : BulkAction) (before : AdminState) (failures : List Text)
      → Settles action before failures
          (settle_bulk locale t action before.selected_tenant_ids failures (reset_feedback before))
  unfolding settle_bulk reset_feedback
  settle_bulk-Settles action before failures =
      let start = reset_feedback before in
      let (closing, unset) = close_targets-shown action before.selected_tenant_ids start in
      let after = close_targets action before.selected_tenant_ids start in
      let (kept, same) = invalidate_bulk-keeps before.selected_tenant_id after in
      let (view, error, message) =
        report_lem action failures (length before.selected_tenant_ids)
          (invalidate_bulk before.selected_tenant_id after) (same ∙ unset) in
      (view ∙ kept ∙ closing, error, message)

  abbrev pub SettledAfter : BulkAction → Bool → AdminState → Client → Type 0
  SettledAfter action confirmed s c =
      Settles action s (looped locale t action s.selected_tenant_ids c).0
        (ran locale t action confirmed s c).0
