-- ===== src/Router.antt =====
-- apps/web/src/app.tsx and the navigation of apps/web/src/components/layout/app-shell.tsx. Matching
-- a URL to a route of the table is react-router's: a path here is the route that it matched.
pub mod Navigation
mod Tests
use go_check_ssl.Prelude.{
  ℕ, zero, suc, Bool, true, false, Option, none, some, List, [], ◌∷◌, ◌++◌, if◌then◌else◌, keep,
  ◌or◌, chain, chain?,
}
use go_check_ssl.Prelude.Text.{Text, codes, truthy}
use go_check_ssl.Types.{ApiUser, UserRole, super_admin, tenant_owner}

pub data Route : Type 0 where
  root login register verify_email forgot_password reset_password : Route
  app app_notifications app_settings admin : Route
  status : (tenant_id : Text) → Route
  unmatched : Route

pub data Mode : Type 0 where
  workspace_mode admin_mode : Mode

pub data Page : Type 0 where
  login_page register_page verify_email_page forgot_password_page reset_password_page : Page
  dashboard_page notifications_page settings_page admin_page : Page
  tenant_status_page : (tenant_id : Text) → Page

-- What a route renders: the loading text, a `Navigate`, a page, a page inside `AppShell`, or
-- nothing where no route matches.
pub data Screen : Type 0 where
  loading_session : Screen
  navigate : Route → Screen
  bare : Page → Screen
  shell : Mode → Page → Screen
  blank : Screen

-- What the guards read of `useAuth()`.
pub record AuthState : Type 0 where
  pub loading : Bool
  pub user : Option ApiUser

unfoldable pub home : UserRole → Route
home super_admin = admin
home tenant_owner = app

unfoldable pub root_redirect : AuthState → Screen
root_redirect a =
    if a.loading
    then loading_session
    else elim a.user [ none ↦ navigate login | some u ↦ navigate (home u.role) ]

-- `mode === "admin" && user.role !== "super_admin"`
unfoldable pub lacks_role : Mode → UserRole → Bool
lacks_role admin_mode tenant_owner = true
lacks_role _ _ = false

unfoldable pub protected_shell : Mode → Page → AuthState → Screen
unfolding lacks_role
protected_shell mode page a = if a.loading then loading_session else elim a.user [
  | none ↦ navigate login
  | some u ↦ if lacks_role mode u.role then navigate app else shell mode page
]

unfoldable pub public_only : Page → AuthState → Screen
public_only page a =
    if a.loading
    then loading_session
    else elim a.user [ none ↦ bare page | some u ↦ navigate (home u.role) ]

-- The table of `AppRouter`.
unfoldable pub element_at : Route → AuthState → Screen
unfolding root_redirect protected_shell public_only home
element_at root a = root_redirect a
element_at (status tenant_id) a = bare (tenant_status_page tenant_id)
element_at login a = public_only login_page a
element_at register a = public_only register_page a
element_at verify_email a = bare verify_email_page
element_at forgot_password a = public_only forgot_password_page a
element_at reset_password a = public_only reset_password_page a
element_at app a = protected_shell workspace_mode dashboard_page a
element_at app_notifications a = protected_shell workspace_mode notifications_page a
element_at app_settings a = protected_shell workspace_mode settings_page a
element_at admin a = protected_shell admin_mode admin_page a
element_at unmatched a = blank

-- Following each `Navigate`; `none` when the fuel has run out.
unfoldable pub settle : ℕ → Route → AuthState → Option Screen
settle zero r a = none
settle (suc fuel) r a = elim (element_at r a) [
  | navigate q ↦ settle fuel q a
  | loading_session ↦ some loading_session
  | bare p ↦ some (bare p)
  | shell m p ↦ some (shell m p)
  | blank ↦ some blank
]

-- The links of `AppShell`: those of `navItems`, and the one to the admin console in the header.
unfoldable pub nav_items : Mode → List Route
nav_items admin_mode = admin ∷ app ∷ []
nav_items workspace_mode = app ∷ app_notifications ∷ app_settings ∷ []

unfoldable pub admin_link : Mode → Option ApiUser → List Route
admin_link admin_mode user = []
admin_link workspace_mode none = []
admin_link workspace_mode (some u) = elim u.role [ super_admin ↦ admin ∷ [] | tenant_owner ↦ [] ]

unfoldable pub shell_links : Mode → Option ApiUser → List Route
unfolding nav_items admin_link
shell_links mode user = admin_link mode user ++ nav_items mode

module _ (t : Text → Text) where
  unfoldable pub shell_title : Mode → Text
  shell_title admin_mode = t (codes "shell.adminTitle")
  shell_title workspace_mode = t (codes "shell.title")

  unfoldable pub role_label : Option ApiUser → Text
  role_label none = []
  role_label (some u) = elim u.role [
    | super_admin ↦ t (codes "role.super_admin")
    | tenant_owner ↦ t (codes "role.tenant_owner")
  ]

  -- `user?.email || t("settings.noEmailBound")`
  unfoldable pub shown_email : Option ApiUser → Text
  shown_email user =
      let email : Text = chain? user (λ u. u.email) or [] in
      if truthy email then email else t (codes "settings.noEmailBound")

  unfoldable pub join_identity : List Text → Text
  join_identity [] = []
  join_identity (x ∷ []) = x
  join_identity (x ∷ xs) = x ++ codes " · " ++ join_identity xs

  unfoldable pub secondary_identity : Option ApiUser → Text
  unfolding role_label shown_email join_identity
  secondary_identity user = join_identity (keep truthy (role_label user ∷ shown_email user ∷ []))
