-- ===== src/Admin/Selection/Refinement.antt =====
-- The list `selectedTenantIds` of apps/web/src/pages/admin-page.tsx stands for a set of tenants.
use mathlib.Core.Path.{fun_ext}
use go_check_ssl.Prelude.{
  ℕ, Bool, true, false, List, [], ◌∷◌, ◌≡◌, refl, ◌==◌, if◌then◌else◌, includes, ap, ◌∙◌,
}
use go_check_ssl.Admin.Selection.{
  toggle_tenant_selection, toggle_page_selection, is_unique, toggle_tenant_selection_lem,
  toggle_page_selection_lem,
}

-- A click on a row's checkbox, on the page's checkbox, and on the button that clears the selection.
pub data Choice : Type 0 where
  row : (tenant_id : ℕ) (checked : Bool) → Choice
  whole_page : (page : List ℕ) (checked : Bool) → Choice
  clear : Choice

unfoldable pub choose : Choice → List ℕ → List ℕ
choose (row tenant_id checked) ids = toggle_tenant_selection tenant_id checked ids
choose (whole_page page checked) ids = toggle_page_selection page checked ids
choose clear ids = []

unfoldable pub choose_all : List Choice → List ℕ → List ℕ
unfolding choose
choose_all [] ids = ids
choose_all (choice ∷ choices) ids = choose_all choices (choose choice ids)

-- A set of tenants, and what a click does to it.
abbrev pub TenantSet : Type 0
TenantSet = ℕ → Bool

abbrev pub mark : Choice → TenantSet → TenantSet
mark (row tenant_id checked) s = λ n. if n == tenant_id then checked else s n
mark (whole_page page checked) s = λ n. if includes page n then checked else s n
mark clear s = λ n. false

abbrev pub mark_all : List Choice → TenantSet → TenantSet
mark_all [] s = s
mark_all (choice ∷ choices) s = mark_all choices (mark choice s)

choose-refines :
    (choice : Choice) (ids : List ℕ)
    → is_unique ids ≡ true
    → (is_unique (choose choice ids) ≡ true)
      × (includes (choose choice ids) ≡ mark choice (includes ids))
unfolding choose
choose-refines (row tenant_id checked) ids h =
    let (unique, same) = toggle_tenant_selection_lem tenant_id checked ids h in
    (unique, fun_ext same)
choose-refines (whole_page page checked) ids h =
    let (unique, same) = toggle_page_selection_lem page checked ids h in (unique, fun_ext same)
choose-refines clear ids h = (refl, refl)

-- From a list with no id twice, any clicks on the checkboxes and on the button lead to a list with
-- no id twice, which holds the tenants of the set that the same clicks make of the list's set.
pub choose_all_refines :
    (choices : List Choice) (ids : List ℕ)
    → is_unique ids ≡ true
    → (is_unique (choose_all choices ids) ≡ true)
      × (includes (choose_all choices ids) ≡ mark_all choices (includes ids))
unfolding choose_all
choose_all_refines [] ids h = (h, refl)
choose_all_refines (choice ∷ choices) ids h =
    let (unique, same) = choose-refines choice ids h in
    let (unique', same') = choose_all_refines choices (choose choice ids) unique in
    (unique', same' ∙ ap (mark_all choices) same)
