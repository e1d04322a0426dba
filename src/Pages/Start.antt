-- ===== src/Pages/Start.antt =====
-- A page load: apps/web/src/lib/auth.tsx restores the session, then app.tsx shows a screen.
use go_check_ssl.Prelude.{ℕ, zero, suc, true, false, some, ◌≡◌, refl, arith, Option, Bool, ap, ◌or◌}
use go_check_ssl.Api.{Client, set_refresh_handler}
use go_check_ssl.Auth.{mount, apply_auth_payload, clear_session}
use go_check_ssl.Auth.Refresh.{refresh_session_lem}
use go_check_ssl.Router.{
  Route, Screen, loading_session, navigate, bare, shell, blank, AuthState, element_at, settle, root,
}
use go_check_ssl.Router.Navigation.{settle_total, redirects}
use go_check_ssl.Pages.Laws.{auth_state}

abbrev pub is_loading : Screen → Bool
is_loading loading_session = true
is_loading _ = false

mount-loading : (c : Client) → (mount c).1.loading ≡ false
unfolding mount apply_auth_payload clear_session
mount-loading c = rw (refresh_session_lem (set_refresh_handler true c)) (ground arith)

not_loading : (r : Route) (a : AuthState) → a.loading ≡ false → is_loading (element_at r a) ≡ false
unfolding element_at
not_loading root a h = ground arith
not_loading _ a h = ground arith

shown_loading :
    (x s : Screen)
    → ◌≡◌ {A = Option Screen} (some x) (some s)
    → is_loading x ≡ false
    → is_loading s ≡ false
shown_loading x s e l = let same : x ≡ s = ap (λ o. o or x) e in rw⁻¹ same l

settled_one :
    (n : ℕ) (r : Route) (a : AuthState) (s x : Screen)
    → element_at r a ≡ x
    → settle (suc n) r a ≡ some s
    → is_loading x ≡ false
    → ((q : Route) → settle n q a ≡ some s → is_loading s ≡ false)
    → is_loading s ≡ false
unfolding settle
settled_one n r a s (navigate q) ex e l ih = ih q (rw (ex, settle) at e)
settled_one n r a s loading_session ex e l ih = cc l
settled_one n r a s (bare p) ex e l ih = shown_loading (bare p) s (rw (ex, settle) at e) l
settled_one n r a s (shell m p) ex e l ih = shown_loading (shell m p) s (rw (ex, settle) at e) l
settled_one n r a s blank ex e l ih = shown_loading blank s (rw (ex, settle) at e) l

settled_from :
    (n : ℕ) (r : Route) (a : AuthState) (s : Screen)
    → settle n r a ≡ some s
    → a.loading ≡ false
    → is_loading s ≡ false
unfolding settle
settled_from zero r a s e h = cc e
settled_from (suc n) r a s e h =
    settled_one n r a s (element_at r a) refl e (not_loading r a h)
      (λ q e'. settled_from n q a s e' h)

-- After a page load, whatever is answered to the refresh of the session, every route shows a screen
-- after at most one redirect, and no route is left with the screen that waits for the session.
pub mount_settles :
    (c : Client) (r : Route)
    → (s : Screen) × (settle 2 r (auth_state (mount c).1) ≡ some s)
      × (redirects s ≡ false)
      × (is_loading s ≡ false)
mount_settles c r =
    let (s, e, settled) = settle_total 0 r (auth_state (mount c).1) in
    (s, e, settled, settled_from 2 r (auth_state (mount c).1) s e (mount-loading c))
