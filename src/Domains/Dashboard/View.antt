-- ===== src/Domains/Dashboard/View.antt =====
-- What apps/web/src/pages/dashboard-page.tsx shows, by its state and the data of its queries.
-- Texts that are always the same are left out.
pub mod Laws
use go_check_ssl.Prelude.{
  when, ℕ, ◌==◌, String, Bool, true, false, Option, none, some, List, [], ◌∷◌, ◌or◌, ◌≡◌, refl,
  arith, if◌then◌else◌, map, chain, chain?, length, is_some, ◌≢◌,
}
use go_check_ssl.Prelude.Text.{Text, codes}
use go_check_ssl.Prelude.Text.Decimal.{to_decimal}
use go_check_ssl.Types.{ApiDomain, PublicTenantStatus}
use go_check_ssl.Locale.{Locale}
use go_check_ssl.PublicStatus.{resolve_public_status_title, resolve_public_status_subtitle}
use go_check_ssl.Translation.Lookup.{format_date_time}
use go_check_ssl.Domains.Panel.{Panel, Tile, Variant, status_variant, status_label, text_of, panel}
use go_check_ssl.Domains.Dashboard.{DashboardState, is_expanded, edit_domain, overall_status}

-- What the queries and the check have given so far. `checking` is the domain of a pending check.
pub record Queries : Type 0 where
  pub public_status : Option PublicTenantStatus
  pub public_status_loading : Bool
  pub domains : Option (List ApiDomain)
  pub domains_loading : Bool
  pub checking : Option ℕ

pub record Row : Type 0 where
  pub panel : Panel
  pub check_text : Text
  pub check_busy : Bool
  pub check_disabled : Bool

pub record DashboardView : Type 0 where
  pub overview_note : Option Text
  pub badge : Variant
  pub tiles : List Tile
  pub headline : Text
  pub subtitle : Text
  pub public_url : Text
  pub form_title : Text
  pub submit_label : Text
  pub cancel : Bool
  pub loading_note : Option Text
  pub empty_note : Option Text
  pub rows : List Row

module _ {ℓ} {Date : Type ℓ} (parse_date : Text → Option Date)
    (format format_date format_time : Locale → Date → Text) (locale : Locale) where
  unfoldable pub overview_tiles : Queries → List Tile
  overview_tiles q =
      let summary = chain q.public_status (λ s. s.summary) in
      record {
        label = text_of locale "dashboard.overallStatus";
        value = status_label locale (overall_status q.public_status);
      }
      ∷ record {
        label = text_of locale "statusPage.nextExpiry";
        value = format_date_time parse_date format locale (chain? summary (λ s. s.next_expiry_at));
      }
      ∷ record {
        label = text_of locale "statusPage.totalMonitors";
        value = to_decimal (chain summary (λ s. s.domain_count) or length (q.domains or []));
      }
      ∷ record {
        label = text_of locale "statusPage.healthyMonitors";
        value = to_decimal (chain summary (λ s. s.healthy_count) or 0);
      }
      ∷ record {
        label = text_of locale "statusPage.pendingMonitors";
        value = to_decimal (chain summary (λ s. s.pending_count) or 0);
      }
      ∷ record {
        label = text_of locale "admin.errorCountLabel";
        value = to_decimal (chain summary (λ s. s.error_count) or 0);
      }
      ∷ []

  -- `checkingDomainId === domain.id`
  unfoldable pub row : Queries → DashboardState → ApiDomain → Row
  row q s d =
      let busy = is_expanded q.checking d.id in
      record {
        panel =
            panel locale parse_date format format_date format_time
              (is_expanded s.expanded_domain_id d.id) d;
        check_text =
            if busy then text_of locale "common.checking" else text_of locale "common.checkNow";
        check_busy = busy;
        check_disabled = is_some q.checking;
      }

  unfoldable pub dashboard_view : Queries → DashboardState → DashboardView
  unfolding overview_tiles row
  dashboard_view q s =
      let editing = is_some s.editing_domain in
      let domains = q.domains or [] in
      record {
        overview_note = when q.public_status_loading (text_of locale "dashboard.loadingOverview");
        badge = status_variant (overall_status q.public_status);
        tiles = overview_tiles q;
        headline =
            resolve_public_status_title
              (chain q.public_status (λ p. record {
                name = p.tenant.name;
                public_status_title = p.tenant.public_status_title;
              }))
              (text_of locale "statusPage.titleFallback");
        subtitle =
            resolve_public_status_subtitle
              (chain? q.public_status (λ p. p.tenant.public_status_subtitle))
              (text_of locale "statusPage.subtitleFallback");
        public_url = chain q.public_status (λ p. p.public_url) or text_of locale "common.none";
        form_title =
            if editing
            then text_of locale "domains.editTitle"
            else text_of locale "domains.addTitle";
        submit_label =
            if editing
            then text_of locale "domains.saveButton"
            else text_of locale "domains.addButton";
        cancel = editing;
        loading_note = when q.domains_loading (text_of locale "common.loadingDomains");
        empty_note = when (length domains == 0) (text_of locale "domains.empty");
        rows = map (row q s) domains;
      }
