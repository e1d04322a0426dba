-- ===== src/Admin/Actions/Laws.antt =====
-- What the handlers for one tenant leave: the feedback, the selection, the client.
use go_check_ssl.Prelude.{
  ℕ, true, false, not, none, some, List, ◌≡◌, refl, ap, ◌&&◌, String, includes, includes-keep,
  arith, ◌==◌, ◌∙◌,
}
use go_check_ssl.Prelude.Text.{Text}
use go_check_ssl.Api.{Client, Result, done, threw, Body, rejected, M}
use go_check_ssl.Locale.{Locale}
use go_check_ssl.Admin.{AdminState}
use go_check_ssl.Admin.Selection.{is_unique, is_unique-keep}
use go_check_ssl.Admin.Actions.{
  for_tenant, delete_tenant, click_delete, delete_settled, invalidate, is_other,
}

for_tenant-some :
    (id : ℕ) (send : ℕ → M Body) (c : Client)
    → (id == 0) ≡ false
    → for_tenant (some id) send c ≡ send id c
unfolding for_tenant
for_tenant-some id send c h = rw h refl

module _ (locale : Locale) (t : String → List (String × ℕ) → Text) where
  -- What `delete_settled` leaves.
  abbrev pub IsRemoved : ℕ → AdminState → AdminState → Type 0
  IsRemoved id before s =
      (s.active_modal ≡ none)
      × (s.selected_tenant_id ≡ none)
      × (is_unique s.selected_tenant_ids ≡ true)
      × ((n : ℕ)
          → includes s.selected_tenant_ids n
            ≡ (not (n == id) && includes before.selected_tenant_ids n))

  removed :
      (id : ℕ) (s : AdminState) (r : Result Body)
      → s.selected_tenant_id ≡ some id
      → is_unique s.selected_tenant_ids ≡ true
      → rejected r ≡ false
      → IsRemoved id s (delete_settled locale t r s)
  unfolding delete_settled invalidate
  removed id s (done b) e h ok = rw e (
    refl,
    refl,
    is_unique-keep (is_other (some id)) s.selected_tenant_ids h,
    λ n. includes-keep (is_other (some id)) s.selected_tenant_ids n,
  )
  removed id s (threw x) e h ok = ground (arith, ok)

  -- When the server takes the deletion of the selected tenant, the modal closes, no tenant is
  -- selected, the deleted one is no longer checked, the others are checked as before, and no id is
  -- listed twice if none was.
  pub click_delete_removes :
      (id : ℕ) (s : AdminState) (c : Client)
      → s.selected_tenant_id ≡ some id
      → (id == 0) ≡ false
      → rejected (delete_tenant id c).0 ≡ false
      → is_unique s.selected_tenant_ids ≡ true
      → IsRemoved id s (click_delete locale t s c).0
  unfolding click_delete
  click_delete_removes id s c chosen positive taken h =
      let sent : for_tenant s.selected_tenant_id delete_tenant c ≡ delete_tenant id c =
        ap (λ o. for_tenant o delete_tenant c) chosen
        ∙ for_tenant-some id delete_tenant c positive in
      rw sent (removed id s (delete_tenant id c).0 chosen h taken)
