-- ===== src/PublicStatus/Tests.antt =====
use go_check_ssl.Prelude.{none, some, refl, ◌≡◌}
use go_check_ssl.Prelude.Text.{codes, text_ops}
use go_check_ssl.PublicStatus.{
  TitleSource, resolve_public_status_title, resolve_public_status_subtitle,
}

abbrev acme : TitleSource
acme = record { name = codes " Acme "; public_status_title = some (codes "  ") }

-- apps/web/src/lib/public-status.test.ts
status_tests :
    (resolve_public_status_title (some acme) (codes "f") ≡ codes "Acme")
    × (resolve_public_status_title none (codes "f") ≡ codes "f")
    × (resolve_public_status_subtitle (some (codes " s ")) (codes "f") ≡ codes "s")
unfolding resolve_public_status_title resolve_public_status_subtitle text_ops
status_tests = (refl, refl, refl)
