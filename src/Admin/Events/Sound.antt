-- ===== src/Admin/Events/Sound.antt =====
-- What is to hold in every state of the admin page, and the states that keep it.
use go_check_ssl.Prelude.{
  ℕ, ◌+◌, ◌≤◌, min, Bool, true, false, not, Option, none, some, [], ◌≡◌, refl, ap, sym, ◌∙◌,
  is_some, includes, Bool-cases, arith, ltb, inl, inr, and-eq-true,
}
use go_check_ssl.Types.{AdminTenantListResponse}
use go_check_ssl.Admin.{
  AdminState, ModalView, details, access, password, total_pages, current_page_safe,
  get_visible_pages, count_from, clamp_page,
}
use go_check_ssl.Admin.Selection.{is_unique}
use go_check_ssl.Admin.Paging.{get_visible_pages_window, first_visible, total_pages-positive}
use go_check_ssl.Admin.Actions.{open_modal, reset_feedback}
use go_check_ssl.Admin.Bulk.Outcome.{Shown, shown, closed}
use go_check_ssl.Admin.Events.{
  modal_is_password, modal_is_access, modal_is_details, on_page, on_table,
}

-- The page of the list is at least 1; no tenant is selected twice; a password is typed only while
-- the password modal is open.
pub record IsSound (s : AdminState) : Type 0 where
  pub first_page : 1 ≤ s.current_page
  pub selection : is_unique s.selected_tenant_ids ≡ true
  pub draft : modal_is_password s.active_modal ≡ false → s.password ≡ []

pub access_is_not_password :
    (m : Option ModalView) → modal_is_access m ≡ true → modal_is_password m ≡ false
access_is_not_password none h = ground (arith, h)
access_is_not_password (some details) h = ground (arith, h)
access_is_not_password (some access) h = refl
access_is_not_password (some password) h = ground (arith, h)

pub details_is_not_password :
    (m : Option ModalView) → modal_is_details m ≡ true → modal_is_password m ≡ false
details_is_not_password none h = ground (arith, h)
details_is_not_password (some details) h = refl
details_is_not_password (some access) h = ground (arith, h)
details_is_not_password (some password) h = ground (arith, h)

closed_is_not_password :
    (m : Option ModalView) → not (is_some m) ≡ true → modal_is_password m ≡ false
closed_is_not_password none h = refl
closed_is_not_password (some v) h = ground (arith, h)

pub on_table-closed :
    (answer : Option AdminTenantListResponse) (s : AdminState)
    → on_table answer s ≡ true
    → not (is_some s.active_modal) ≡ true
unfolding on_table on_page
on_table-closed answer s h = (and-eq-true (not (is_some s.active_modal)) _ h).0

-- With no modal open nothing is typed.
pub undrafted : (s : AdminState) → IsSound s → not (is_some s.active_modal) ≡ true → s.password ≡ []
undrafted s i h = i.draft (closed_is_not_password s.active_modal h)

-- A button of the pages is for a page of at least 1.
count_from-ge : (first n number : ℕ) → includes (count_from first n) number ≡ true → first ≤ number
unfolding count_from
count_from-ge first ℕ.zero number h = ground (arith, h)
count_from-ge first (ℕ.suc n) number h =
    let rest = count_from-ge (first + 1) n number in ground (arith, rest, h)

pub visible_page-positive :
    (answer : Option AdminTenantListResponse) (s : AdminState) (n : ℕ)
    → 1 ≤ s.current_page
    → includes (get_visible_pages (current_page_safe answer s) (total_pages answer)) n ≡ true
    → 1 ≤ n
unfolding current_page_safe
visible_page-positive answer s n h shown_page =
    let pages = total_pages-positive answer in
    let current = min s.current_page (total_pages answer) in
    let (same, low, _, _) =
      get_visible_pages_window current (total_pages answer) (omega (arith, h, pages))
        (omega arith) in
    let found =
      count_from-ge (first_visible current (total_pages answer)) (min (total_pages answer) 5) n
        (sym (ap (λ pages. includes pages n) same) ∙ shown_page) in
    omega (arith, low, found)

closed-empty : (taken : Bool) (v : Shown) → (closed taken v).0 ≡ []
closed-empty true v = refl
closed-empty false v = refl

closed-keeps : (taken : Bool) (v : Shown) → ((closed taken v).3 ≡ v.3) × ((closed taken v).4 ≡ v.4)
closed-keeps true v = (refl, refl)
closed-keeps false v = (refl, refl)

-- A state with the selection taken back, and with the modal of the state before or none.
pub shown-IsSound :
    (taken : Bool) (before s : AdminState)
    → shown s ≡ closed taken (shown before)
    → IsSound before
    → before.password ≡ []
    → IsSound s
shown-IsSound taken before s e i h =
    let ids = ap (λ (v : Shown). v.0) e ∙ closed-empty taken (shown before) in
    let (numbers, typed) = closed-keeps taken (shown before) in
    let number = ap (λ (v : Shown). v.3) e ∙ numbers in
    let draft = ap (λ (v : Shown). v.4) e ∙ typed ∙ h in
    record {
      first_page = omega (arith, number, i.first_page);
      selection = ap is_unique ids;
      draft = λ _. draft;
    }

pub open_modal-IsSound :
    (id : ℕ) (view : ModalView) (s : AdminState)
    → IsSound s
    → s.password ≡ []
    → IsSound (open_modal id view s)
unfolding open_modal reset_feedback
open_modal-IsSound id view s i h = record {
  first_page = i.first_page;
  selection = i.selection;
  draft = λ e. ground (arith, e, h);
}

pub clamp_page-IsSound :
    (answer : Option AdminTenantListResponse) (s : AdminState)
    → IsSound s
    → IsSound (clamp_page answer s)
unfolding clamp_page
clamp_page-IsSound answer s i = elim (Bool-cases (ltb (total_pages answer) s.current_page)) [
  | inl high ↦ rw high (record {
    first_page = total_pages-positive answer;
    selection = i.selection;
    draft = i.draft;
  })
  | inr low ↦ rw low i
]
