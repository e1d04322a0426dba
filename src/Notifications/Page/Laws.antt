-- ===== src/Notifications/Page/Laws.antt =====
-- What the handlers of the notifications page leave.
use go_check_ssl.Prelude.{
  ℕ, false, Option, none, List, ◌≡◌, refl, String, arith, Bool-cases, inl, inr, if◌then◌else◌,
}
use go_check_ssl.Prelude.Text.{Text}
use go_check_ssl.Types.{ApiEndpoint}
use go_check_ssl.Api.{Client, Result, done, threw, Body, rejected, delete, empty}
use go_check_ssl.Locale.{Locale}
use go_check_ssl.Notifications.Page.{
  NotificationsState, page_request, deletion_settled, delete_endpoint, refetch, endpoint_path,
  is_edited,
}

module _ (locale : Locale) (t : String → List (String × Text) → Text) where
  edited_no_more :
      (e : Option ApiEndpoint) (id : ℕ) → is_edited (if is_edited e id then none else e) id ≡ false
  edited_no_more e id = elim (Bool-cases (is_edited e id)) [ inl h ↦ rw h refl | inr h ↦ rw h h ]

  deleted :
      (id : ℕ) (r : Result Body) (s : NotificationsState)
      → rejected r ≡ false
      → ((deletion_settled locale t id r s).editing_endpoint
          ≡ (if is_edited s.editing_endpoint id then none else s.editing_endpoint))
        × (is_edited (deletion_settled locale t id r s).editing_endpoint id ≡ false)
  unfolding deletion_settled refetch
  deleted id (done b) s h = (refl, edited_no_more s.editing_endpoint id)
  deleted id (threw x) s h = ground (arith, h)

  -- When the server takes the deletion of an endpoint, the form that edits it is left; the form of
  -- another endpoint is not.
  delete_endpoint_lem :
      (id : ℕ) (s : NotificationsState) (c : Client)
      → rejected (page_request (endpoint_path id) delete empty c).0 ≡ false
      → ((delete_endpoint locale t id s c).0.editing_endpoint
          ≡ (if is_edited s.editing_endpoint id then none else s.editing_endpoint))
        × (is_edited (delete_endpoint locale t id s c).0.editing_endpoint id ≡ false)
  unfolding delete_endpoint
  delete_endpoint_lem id s c h = deleted id (page_request (endpoint_path id) delete empty c).0 s h
