-- ===== src/Router/Navigation.antt =====
-- Where the guards lead: redirects end, and protected pages are shown to those who may see them.
use go_check_ssl.Prelude.{
  ℕ, Bool, true, false, Option, none, some, ◌≡◌, refl, arith, All, ◌⊎◌, ◌↔◌, suc, is_some,
}
use go_check_ssl.Types.{ApiUser, super_admin, tenant_owner}
use go_check_ssl.Router.{
  Route, root, login, register, verify_email, forgot_password, reset_password, app,
  app_notifications, app_settings, admin, status, unmatched, Mode, workspace_mode, admin_mode, Page,
  Screen, loading_session, navigate, bare, shell, blank, AuthState, element_at, settle, shell_links,
}

abbrev pub redirects : Screen → Bool
redirects (navigate q) = true
redirects _ = false

-- The screen of `r` is no redirect.
abbrev pub IsSettled : Route → AuthState → Type 0
IsSettled r a = redirects (element_at r a) ≡ false

abbrev pub is_super_admin : Option ApiUser → Bool
is_super_admin none = false
is_super_admin (some u) = elim u.role [ super_admin ↦ true | tenant_owner ↦ false ]

-- Where a redirect leads, and for whom.
abbrev LeadsTo : Route → AuthState → Type 0
LeadsTo q a =
    (a.loading ≡ false)
    × (((q ≡ login) × (a.user ≡ none))
        ⊎ ((q ≡ app) × (is_some a.user ≡ true))
        ⊎ ((q ≡ admin) × (is_super_admin a.user ≡ true)))

redirect_LeadsTo : (r q : Route) (a : AuthState) → element_at r a ≡ navigate q → LeadsTo q a
unfolding element_at
redirect_LeadsTo root q a h = ground arith
redirect_LeadsTo _ q a h = ground arith

LeadsTo-IsSettled : (q : Route) (a : AuthState) → LeadsTo q a → IsSettled q a
unfolding element_at
LeadsTo-IsSettled login a l = ground arith
LeadsTo-IsSettled _ a l = ground arith

-- A redirect leads to a route that does not redirect again.
pub navigate-IsSettled : (r q : Route) (a : AuthState) → element_at r a ≡ navigate q → IsSettled q a
navigate-IsSettled r q a h = LeadsTo-IsSettled q a (redirect_LeadsTo r q a h)

settle_from :
    (n : ℕ) (r : Route) (a : AuthState) (s : Screen)
    → element_at r a ≡ s
    → redirects s ≡ false
    → settle (suc n) r a ≡ some s
unfolding settle
settle_from n r a (navigate q) e h = cc
settle_from n r a loading_session e h = rw (e, settle)
settle_from n r a _ e h = rw (e, settle)

-- How following the redirects from a route ends, with fuel for `n` routes.
abbrev pub Ends : ℕ → Route → AuthState → Type 0
Ends n r a = (s : Screen) × (settle n r a ≡ some s) × (redirects s ≡ false)

ends_from :
    (n : ℕ) (r : Route) (a : AuthState) (s : Screen) → element_at r a ≡ s → Ends (suc (suc n)) r a
unfolding settle
ends_from n r a (navigate q) e =
    let h = navigate-IsSettled r q a e in
    (element_at q a, rw (e, settle) (settle_from n q a (element_at q a) refl h), h)
ends_from n r a loading_session e = (loading_session, settle_from (suc n) r a _ e refl, refl)
ends_from n r a (bare p) e = (bare p, settle_from (suc n) r a _ e refl, refl)
ends_from n r a (shell m p) e = (shell m p, settle_from (suc n) r a _ e refl, refl)
ends_from n r a blank e = (blank, settle_from (suc n) r a _ e refl, refl)

-- From every route and in every state of the session, following the redirects ends on a screen
-- that is none: fuel for two routes, or more, is enough.
pub settle_total : (n : ℕ) (r : Route) (a : AuthState) → Ends (suc (suc n)) r a
settle_total n r a = ends_from n r a (element_at r a) refl

-- Whom a route shows its own page to.
abbrev pub MaySee : Route → AuthState → Type 0
MaySee root a = ⊥
MaySee (status tenant_id) a = Unit
MaySee login a = a.user ≡ none
MaySee register a = a.user ≡ none
MaySee verify_email a = Unit
MaySee forgot_password a = a.user ≡ none
MaySee reset_password a = a.user ≡ none
MaySee app a = is_some a.user ≡ true
MaySee app_notifications a = is_some a.user ≡ true
MaySee app_settings a = is_some a.user ≡ true
MaySee admin a = is_super_admin a.user ≡ true
MaySee unmatched a = Unit

-- Once the session is known, a route does not redirect exactly for those it is meant for: the
-- public pages everybody, the forms for the signed-out the signed-out, the workspace the signed-in, the admin console
-- super admins, and `/` nobody.
pub IsSettled-iff : (r : Route) (a : AuthState) → a.loading ≡ false → IsSettled r a ↔ MaySee r a
unfolding element_at
IsSettled-iff root a l = ground arith
IsSettled-iff _ a l = ground arith

abbrev pub in_shell : Screen → Bool
in_shell (shell m p) = true
in_shell _ = false

shell_access :
    (r : Route) (a : AuthState) (m : Mode) (p : Page)
    → element_at r a ≡ shell m p
    → (a.loading ≡ false)
      × (is_some a.user ≡ true)
      × ((m ≡ workspace_mode) ⊎ (is_super_admin a.user ≡ true))
unfolding element_at
shell_access root a m p h = ground arith
shell_access _ a m p h = ground arith

links_of :
    (a : AuthState) (m : Mode)
    → a.loading ≡ false
    → is_some a.user ≡ true
    → (m ≡ workspace_mode) ⊎ (is_super_admin a.user ≡ true)
    → All (λ q. in_shell (element_at q a) ≡ true) (shell_links m a.user)
unfolding element_at shell_links
links_of a workspace_mode l u s = ground arith
links_of a admin_mode l u s = ground arith

-- Where the shell is shown, every link that it offers leads to a page inside the shell, with no
-- redirect.
links_in_shell :
    (r : Route) (a : AuthState) (m : Mode) (p : Page)
    → element_at r a ≡ shell m p
    → All (λ q. in_shell (element_at q a) ≡ true) (shell_links m a.user)
links_in_shell r a m p h = let (l, u, s) = shell_access r a m p h in links_of a m l u s
