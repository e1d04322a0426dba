-- ===== src/Admin.antt =====
-- apps/web/src/pages/admin-page.tsx: the page's state, and what its render derives from it and
-- from the answer of the list query.
pub mod Paging
pub mod Selection
pub mod Actions
pub mod Bulk
pub mod Events
pub mod View
mod Tests
use go_check_ssl.Prelude.{
  ℕ, ◌+◌, ◌-◌, ◌*◌, min, max, Bool, true, false, Option, none, some, List, [], ◌∷◌, ◌++◌, map, ◌==◌,
  ◌&&◌, ltb, leb, if◌then◌else◌, ◌or◌, chain, length, keep, includes, find_first, String,
  truthy_number, is_some,
}
use go_check_ssl.Prelude.Text.{Text, codes, trim, truthy}
use go_check_ssl.Prelude.Text.Decimal.{to_decimal}
use go_check_ssl.Types.{AdminTenantListResponse, AdminTenantListItem, ApiPagination}

pub data ModalView : Type 0 where
  details access password : ModalView

pub data StatusFilter : Type 0 where
  all active disabled : StatusFilter

pub data QuickFilter : Type 0 where
  all has_domains has_errors : QuickFilter

pub data SortKey : Type 0 where
  name username status domains errors expiry : SortKey

pub data SortDirection : Type 0 where
  asc desc : SortDirection

-- The keys of the two queries, as `invalidateQueries` is given them.
pub data QueryKey : Type 0 where
  admin_tenants : QueryKey
  admin_tenant : Option ℕ → QueryKey

pub record AdminState : Type 0 where
  pub selected_tenant_id : Option ℕ
  pub tenant_query : Text
  pub current_page : ℕ
  pub status_filter : StatusFilter
  pub quick_filter : QuickFilter
  pub sort_key : SortKey
  pub sort_direction : SortDirection
  pub selected_tenant_ids : List ℕ
  pub active_modal : Option ModalView
  pub action_message : Option Text
  pub action_error : Option Text
  pub password : Text
  pub invalidated : List QueryKey

unfoldable pub initial : AdminState
initial = record {
  selected_tenant_id = none;
  tenant_query = [];
  current_page = 1;
  status_filter = StatusFilter.all;
  quick_filter = QuickFilter.all;
  sort_key = expiry;
  sort_direction = asc;
  selected_tenant_ids = [];
  active_modal = none;
  action_message = none;
  action_error = none;
  password = [];
  invalidated = [];
}

-- DEFAULT_PAGE_SIZE; `pageSize` has no setter.
abbrev pub page_size : ℕ
page_size = 10

status_filter_value : StatusFilter → String
status_filter_value StatusFilter.all = "all"
status_filter_value active = "active"
status_filter_value disabled = "disabled"

quick_filter_value : QuickFilter → String
quick_filter_value QuickFilter.all = "all"
quick_filter_value has_domains = "has_domains"
quick_filter_value has_errors = "has_errors"

sort_key_value : SortKey → String
sort_key_value name = "name"
sort_key_value username = "username"
sort_key_value status = "status"
sort_key_value domains = "domains"
sort_key_value errors = "errors"
sort_key_value expiry = "expiry"

sort_direction_value : SortDirection → String
sort_direction_value asc = "asc"
sort_direction_value desc = "desc"

-- The parameters of the list query, before their encoding by `URLSearchParams`.
unfoldable pub query_params : AdminState → List (String × Text)
unfolding status_filter_value quick_filter_value sort_key_value sort_direction_value
query_params s =
    ("page", to_decimal s.current_page)
    ∷ ("page_size", to_decimal page_size)
    ∷ ("status", codes (status_filter_value s.status_filter))
    ∷ ("quick_filter", codes (quick_filter_value s.quick_filter))
    ∷ ("sort_by", codes (sort_key_value s.sort_key))
    ∷ ("sort_order", codes (sort_direction_value s.sort_direction))
    ∷ (if truthy (trim s.tenant_query) then ("q", trim s.tenant_query) ∷ [] else [])

-- The answer of the list query is `none` until it is there.
unfoldable pub tenants : Option AdminTenantListResponse → List AdminTenantListItem
tenants answer = chain answer (λ a. a.tenants) or []

unfoldable pub total_pages : Option AdminTenantListResponse → ℕ
total_pages answer = max 1 (chain answer (λ a. a.pagination.total_pages) or 1)

unfoldable pub current_page_safe : Option AdminTenantListResponse → AdminState → ℕ
current_page_safe answer s = min s.current_page (total_pages answer)

unfoldable pub total_tenants : Option AdminTenantListResponse → ℕ
total_tenants answer = chain answer (λ a. a.pagination.total) or 0

unfoldable pub page_start : Option AdminTenantListResponse → AdminState → ℕ
unfolding total_tenants current_page_safe
page_start answer s =
    if total_tenants answer == 0 then 0 else (current_page_safe answer s - 1) * page_size + 1

unfoldable pub page_end : Option AdminTenantListResponse → AdminState → ℕ
unfolding total_tenants current_page_safe
page_end answer s =
    if total_tenants answer == 0
    then 0
    else min (current_page_safe answer s * page_size) (total_tenants answer)

-- The pages from `first` on.
unfoldable pub count_from : ℕ → ℕ → List ℕ
count_from first ℕ.zero = []
count_from first (ℕ.suc n) = first ∷ count_from (first + 1) n

unfoldable pub get_visible_pages : ℕ → ℕ → List ℕ
get_visible_pages current total =
    if leb total 5
    then count_from 1 total
    else if leb current 3
    then 1 ∷ 2 ∷ 3 ∷ 4 ∷ 5 ∷ []
    else if leb (total - 2) current
    then (total - 4) ∷ (total - 3) ∷ (total - 2) ∷ (total - 1) ∷ total ∷ []
    else (current - 2) ∷ (current - 1) ∷ current ∷ (current + 1) ∷ (current + 2) ∷ []

-- The effect that follows a render.
unfoldable pub clamp_page : Option AdminTenantListResponse → AdminState → AdminState
clamp_page answer s =
    if ltb (total_pages answer) s.current_page
    then record s { current_page = total_pages answer }
    else s

unfoldable pub current_page_tenant_ids : Option AdminTenantListResponse → List ℕ
unfolding tenants
current_page_tenant_ids answer = map (λ (i : AdminTenantListItem). i.tenant.id) (tenants answer)

-- `pageSelectionState`, from the ids of the page and the selected ids.
unfoldable pub page_selection_all : List ℕ → List ℕ → Bool
page_selection_all page selected =
    ltb 0 (length page) && length (keep (includes selected) page) == length page

unfoldable pub page_selection_some : List ℕ → List ℕ → Bool
page_selection_some page selected =
    ltb 0 (length (keep (includes selected) page))
    && ltb (length (keep (includes selected) page)) (length page)

unfoldable pub selected_list_item :
    Option AdminTenantListResponse → AdminState → Option AdminTenantListItem
unfolding tenants
selected_list_item answer s = elim s.selected_tenant_id [
  | none ↦ none
  | some id ↦ find_first (λ i. i.tenant.id == id) (tenants answer)
]

-- `enabled` of the detail query.
unfoldable pub detail_enabled : AdminState → Bool
detail_enabled s = truthy_number s.selected_tenant_id && is_some s.active_modal
