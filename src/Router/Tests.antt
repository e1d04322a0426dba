-- ===== src/Router/Tests.antt =====
use go_check_ssl.Prelude.{false, none, some, refl, ◌≡◌, ◌↔◌}
use go_check_ssl.Prelude.Text.{codes, text_ops}
use go_check_ssl.Types.{ApiUser, super_admin, tenant_owner}
use go_check_ssl.Router.{
  root, admin, app, register, shell, bare, navigate, workspace_mode, dashboard_page, login_page,
  AuthState, element_at, settle, secondary_identity,
}
use go_check_ssl.Router.Navigation.{IsSettled, MaySee, IsSettled-iff}

abbrev owner : ApiUser
owner = record {
  id = 7;
  tenant_id = 3;
  username = codes "ann";
  email = none;
  role = tenant_owner;
  email_verified = false;
  last_login_at = none;
}

abbrev signed_in : AuthState
signed_in = record { loading = false; user = some owner }

navigation_tests :
    (settle 2 admin signed_in ≡ some (shell workspace_mode dashboard_page))
    × (settle 2 root (record { loading = false; user = none }) ≡ some (bare login_page))
    × (settle 2 register
          (record { loading = false; user = some (record owner { role = super_admin }) })
        ≡ settle 1 admin
            (record { loading = false; user = some (record owner { role = super_admin }) }))
unfolding settle element_at
navigation_tests = (refl, refl, refl)

admin_redirects : element_at admin signed_in ≡ navigate app
unfolding element_at
admin_redirects = refl

IsSettled-iff_example : IsSettled admin signed_in ↔ MaySee admin signed_in
IsSettled-iff_example = IsSettled-iff admin signed_in refl

app_in_shell : element_at app signed_in ≡ shell workspace_mode dashboard_page
unfolding element_at
app_in_shell = refl

identity_test :
    secondary_identity (λ s. s) (some owner) ≡ codes "role.tenant_owner · settings.noEmailBound"
unfolding secondary_identity text_ops
identity_test = refl
