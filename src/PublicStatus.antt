-- ===== src/PublicStatus.antt =====
-- apps/web/src/lib/public-status.ts
pub mod Laws
pub mod Page
mod Tests
use go_check_ssl.Prelude.{Option, none, some, chain, chain?, if◌then◌else◌}
use go_check_ssl.Prelude.Text.{Text, trim, truthy}

-- `Pick<ApiTenant, "name" | "public_status_title">`
pub record TitleSource : Type 0 where
  pub name : Text
  pub public_status_title : Option Text

-- `a || b` on a text that may be undefined.
unfoldable pub or_text : Option Text → Text → Text
or_text none b = b
or_text (some a) b = if truthy a then a else b

unfoldable pub resolve_public_status_title : Option TitleSource → Text → Text
unfolding or_text
resolve_public_status_title tenant fallback =
    or_text (chain (chain? tenant (λ t. t.public_status_title)) trim)
      (or_text (chain (chain tenant (λ t. t.name)) trim) fallback)

-- The argument is the tenant's `public_status_subtitle`, `none` also where there is no tenant.
unfoldable pub resolve_public_status_subtitle : Option Text → Text → Text
unfolding or_text
resolve_public_status_subtitle subtitle fallback = or_text (chain subtitle trim) fallback
