-- ===== src/Admin/View.antt =====
-- What apps/web/src/pages/admin-page.tsx shows, by its state and the data of its queries. Texts that
-- are always the same, such as labels of buttons, are left out.
pub mod Laws
use go_check_ssl.Prelude.{
  ℕ, ◌==◌, String, Bool, not, ◌&&◌, true, false, Option, none, some, List, [], ◌∷◌, ◌++◌, ◌or◌, ltb,
  leb, if◌then◌else◌, map, chain, length, includes, when,
}
use go_check_ssl.Prelude.Text.{Text, codes, shown_text}
use go_check_ssl.Prelude.Text.Decimal.{to_decimal}
use go_check_ssl.Types.{
  AdminTenantListResponse, AdminTenantListItem, AdminTenantDetail, ApiTenant, ApiUser,
}
use go_check_ssl.PublicStatus.{or_text}
use go_check_ssl.Domains.Panel.{Tile, Variant, success, warning}
use go_check_ssl.Admin.{
  AdminState, ModalView, details, access, password, SortKey, SortDirection, asc, desc, tenants,
  total_pages, total_tenants, current_page_safe, page_start, page_end, get_visible_pages,
  current_page_tenant_ids, page_selection_all, page_selection_some, selected_list_item,
}
use go_check_ssl.Admin.Actions.{same_key}

-- What the queries have given so far.
pub record Queries : Type 0 where
  pub answer : Option AdminTenantListResponse
  pub loading : Bool
  pub detail : Option AdminTenantDetail
  pub detail_loading : Bool

pub record TenantRow : Type 0 where
  pub checked : Bool
  pub name : Text
  pub id_text : Text
  pub username : Text
  pub email : Text
  pub badge : Variant
  pub badge_text : Text
  pub domain_count : ℕ
  pub error_count : ℕ
  pub next_expiry : Text

-- The buttons of the pages, each with whether it is the current page's.
pub record Pager : Type 0 where
  pub summary : Text
  pub previous_disabled : Bool
  pub pages : List (ℕ × Bool)
  pub next_disabled : Bool

-- The table, with what stands above and below it. Without a pager there is a note.
pub record Table : Type 0 where
  pub selected_count : Text
  pub bulk_disabled : Bool
  pub all_checked : Bool
  pub indeterminate : Bool
  pub sort_mark : SortKey → String
  pub rows : List TenantRow
  pub pager : Option Pager

-- An open modal. Without tiles it says that the tenant is loading.
pub record Modal : Type 0 where
  pub title : Text
  pub description : Text
  pub tiles : Option (List Tile)
  pub action : Option Text

pub record AdminView : Type 0 where
  pub message : Option Text
  pub error : Option Text
  pub loading_note : Option Text
  pub empty_note : Option Text
  pub table : Option Table
  pub modal : Option Modal

-- The arrow in a column's head.
unfoldable pub sort_mark_of : AdminState → SortKey → String
sort_mark_of s key =
    if same_key s.sort_key key then elim s.sort_direction [ asc ↦ "↑" | desc ↦ "↓" ] else "↕"

module _ (t : String → List (String × ℕ) → Text) (format_date_time : Option Text → Text) where
  abbrev disabled_badge : ApiTenant → Variant
  disabled_badge tenant = if tenant.disabled then warning else success

  abbrev disabled_text : ApiTenant → Text
  disabled_text tenant =
      if tenant.disabled then t "admin.disabledBadge" [] else t "admin.activeBadge" []

  -- `owner.email || t("settings.noEmailBound")`
  abbrev email_of : ApiUser → Text
  email_of owner = or_text owner.email (t "settings.noEmailBound" [])

  unfoldable pub tenant_row : AdminState → AdminTenantListItem → TenantRow
  tenant_row s item = record {
    checked = includes s.selected_tenant_ids item.tenant.id;
    name = item.tenant.name;
    id_text = codes "ID #" ++ to_decimal item.tenant.id;
    username = item.owner.username;
    email = email_of item.owner;
    badge = disabled_badge item.tenant;
    badge_text = disabled_text item.tenant;
    domain_count = item.stats.domain_count;
    error_count = item.stats.error_count;
    next_expiry = format_date_time item.stats.next_expiry_at;
  }

  unfoldable pub pager_of : Option AdminTenantListResponse → AdminState → Pager
  pager_of answer s =
      let current = current_page_safe answer s in
      record {
        summary = t "admin.paginationSummary" (
            ("from", page_start answer s)
            ∷ ("to", page_end answer s)
            ∷ ("total", total_tenants answer)
            ∷ []);
        previous_disabled = leb current 1;
        pages = map (λ n. (n, n == current)) (get_visible_pages current (total_pages answer));
        next_disabled = leb (total_pages answer) current;
      }

  unfoldable pub table_of : Option AdminTenantListResponse → AdminState → Table
  unfolding tenant_row pager_of sort_mark_of
  table_of answer s =
      let page_ids = current_page_tenant_ids answer in
      record {
        selected_count = t "admin.selectedCount" (("count", length s.selected_tenant_ids) ∷ []);
        bulk_disabled = length s.selected_tenant_ids == 0;
        all_checked = page_selection_all page_ids s.selected_tenant_ids;
        indeterminate = page_selection_some page_ids s.selected_tenant_ids;
        sort_mark = sort_mark_of s;
        rows = map (tenant_row s) (tenants answer);
        pager = when (not (length (tenants answer) == 0)) (pager_of answer s);
      }

  abbrev tile : String → Text → Tile
  tile key value = record { label = t key []; value = value }

  abbrev numbered : AdminTenantDetail → Text
  numbered d = t "admin.tenantDetailDescription" (("tenantId", d.tenant.id) ∷ [])

  unfoldable pub details_tiles : AdminTenantDetail → List Tile
  details_tiles d =
      tile "admin.domainCountLabel" (to_decimal d.stats.domain_count)
      ∷ tile "admin.healthyCountLabel" (to_decimal d.stats.healthy_count)
      ∷ tile "admin.pendingCountLabel" (to_decimal d.stats.pending_count)
      ∷ tile "admin.errorCountLabel" (to_decimal d.stats.error_count)
      ∷ tile "common.status" (disabled_text d.tenant)
      ∷ tile "common.username" d.owner.username
      ∷ tile "common.email" (email_of d.owner)
      ∷ tile "statusPage.nextExpiry" (format_date_time d.stats.next_expiry_at)
      ∷ tile "admin.publicStatusPage" d.stats.public_status_url
      ∷ []

  unfoldable pub access_tiles : AdminTenantDetail → List Tile
  access_tiles d =
      tile "common.status" (disabled_text d.tenant)
      ∷ tile "common.username" d.owner.username
      ∷ tile "admin.domainCountLabel" (to_decimal d.stats.domain_count)
      ∷ tile "admin.errorCountLabel" (to_decimal d.stats.error_count)
      ∷ []

  unfoldable pub password_tiles : AdminTenantDetail → List Tile
  password_tiles d =
      tile "common.username" d.owner.username ∷ tile "common.email" (email_of d.owner) ∷ []

  abbrev loaded : Queries → Option AdminTenantDetail
  loaded q = if q.detail_loading then none else q.detail

  unfoldable pub active_tenant_name : Queries → AdminState → Text
  active_tenant_name q s =
      chain q.detail (λ d. d.tenant.name)
      or (chain (selected_list_item q.answer s) (λ i. i.tenant.name) or t "common.name" [])

  -- `action` is the button that changes the tenant's status, which the modal for access has.
  unfoldable pub modal_of : Queries → AdminState → ModalView → Modal
  unfolding details_tiles access_tiles password_tiles active_tenant_name
  modal_of q s details = record {
    title = active_tenant_name q s;
    description = chain q.detail numbered or t "admin.loadingTenantDetail" [];
    tiles = chain (loaded q) details_tiles;
    action = none;
  }
  modal_of q s access = record {
    title = t "admin.tenantAccessTitle" [];
    description =
        chain q.detail (λ d. d.tenant.name ++ codes " · " ++ numbered d)
        or t "admin.tenantAccessDescription" [];
    tiles = chain (loaded q) access_tiles;
    action =
        chain (loaded q) (λ d.
          if d.tenant.disabled then t "admin.enableTenant" [] else t "admin.disableTenant" []);
  }
  modal_of q s password = record {
    title = t "admin.resetPasswordTitle" [];
    description =
        chain q.detail (λ d. d.owner.username ++ codes " · " ++ d.tenant.name)
        or t "admin.resetPasswordDescription" [];
    tiles = chain (loaded q) password_tiles;
    action = none;
  }

  unfoldable pub admin_view : Queries → AdminState → AdminView
  unfolding table_of modal_of
  admin_view q s =
      let empty = total_tenants q.answer == 0 in
      record {
        message = shown_text s.action_message;
        error = shown_text s.action_error;
        loading_note = when q.loading (t "common.loadingSession" []);
        empty_note = when (not q.loading && empty) (t "admin.noTenants" []);
        table = when (not q.loading && ltb 0 (total_tenants q.answer)) (table_of q.answer s);
        modal = chain s.active_modal (modal_of q s);
      }
