-- ===== src/Admin/Events/Invariant.antt =====
-- What holds in every state that the page's controls lead to.
use go_check_ssl.Prelude.Text.{Text}
use go_check_ssl.Locale.{Locale}
