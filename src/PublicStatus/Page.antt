-- ===== src/PublicStatus/Page.antt =====
-- `TenantStatusPage` of apps/web/src/pages/tenant-status-page.tsx: the panel that is expanded, and
-- what the page shows by the data of its query.
pub mod Panels
mod Tests
use go_check_ssl.Prelude.{
  ℕ, ◌+◌, ◌==◌, String, Bool, true, false, not, Option, none, some, List, [], ◌∷◌, ◌or◌,
  if◌then◌else◌, map, chain, chain?,
}
use go_check_ssl.Prelude.Text.{Text, codes, truthy}
use go_check_ssl.Types.{ApiDomain, DomainStatus, pending, healthy, error, PublicTenantStatus}
use go_check_ssl.Locale.{Locale}
use go_check_ssl.PublicStatus.{
  TitleSource, resolve_public_status_title, resolve_public_status_subtitle,
}
use go_check_ssl.Translation.Lookup.{t, format_date_time}
use go_check_ssl.Domains.Panel.{Panel, Variant, status_variant, status_label, text_of, panel}

-- `expandedDomainId === domain.id`
unfoldable pub is_open : Option ℕ → ℕ → Bool
is_open none id = false
is_open (some current) id = current == id

-- `onToggle`
unfoldable pub toggle_open : ℕ → Option ℕ → Option ℕ
unfolding is_open
toggle_open id expanded = if is_open expanded id then none else some id

-- `enabled`, on the parameter of the route.
unfoldable pub status_enabled : Option Text → Bool
status_enabled none = false
status_enabled (some tenant_id) = truthy tenant_id

-- The cards and panels, which are there once the query has data.
pub record StatusCards : Type 0 where
  pub badge : Variant
  pub badge_text : Text
  pub domain_count : ℕ
  pub healthy_count : ℕ
  pub pending_count : ℕ
  pub next_expiry : Text
  pub empty_note : Option Text
  pub panels : List Panel

pub record StatusView : Type 0 where
  pub title : Text
  pub subtitle : Text
  pub loading_note : Option Text
  pub cards : Option StatusCards

module _ {ℓ} {Date : Type ℓ} (parse_date : Text → Option Date)
    (format format_date format_time : Locale → Date → Text) (locale : Locale) where
  -- The label is that of `pending` without data.
  unfoldable pub overall_status_label : Option PublicTenantStatus → Text
  overall_status_label payload =
      status_label locale (chain payload (λ p. p.summary.overall_status) or pending)

  abbrev pub domain_panel : Option ℕ → ApiDomain → Panel
  domain_panel expanded d =
      panel locale parse_date format format_date format_time (is_open expanded d.id) d

  abbrev empty_note_of : List ApiDomain → Option Text
  empty_note_of [] = some (text_of locale "statusPage.empty")
  empty_note_of (d ∷ ds) = none

  unfoldable pub status_cards : Option ℕ → PublicTenantStatus → StatusCards
  unfolding overall_status_label
  status_cards expanded payload = record {
    badge = status_variant payload.summary.overall_status;
    badge_text = overall_status_label (some payload);
    domain_count = payload.summary.domain_count;
    healthy_count = payload.summary.healthy_count;
    pending_count = payload.summary.pending_count + payload.summary.error_count;
    next_expiry = format_date_time parse_date format locale payload.summary.next_expiry_at;
    empty_note = empty_note_of payload.domains;
    panels = map (domain_panel expanded) payload.domains;
  }

  -- `isLoading` is the query's.
  unfoldable pub status_view : Bool → Option ℕ → Option PublicTenantStatus → StatusView
  unfolding status_cards
  status_view is_loading expanded payload = record {
    title =
        resolve_public_status_title
          (chain payload (λ p. record {
            name = p.tenant.name;
            public_status_title = p.tenant.public_status_title;
          }))
          (text_of locale "statusPage.titleFallback");
    subtitle =
        resolve_public_status_subtitle (chain? payload (λ p. p.tenant.public_status_subtitle))
          (text_of locale "statusPage.subtitleFallback");
    loading_note = if is_loading then some (text_of locale "common.loadingDomains") else none;
    cards = chain payload (status_cards expanded);
  }
