-- ===== src/Admin/Tests.antt =====
-- The theorems on the admin page at concrete states.
use go_check_ssl.Prelude.{
  not, length, ◌==◌, ◌&&◌, every, ℕ, ◌+◌, ◌≤◌, min, true, false, Option, none, some, List, [], ◌∷◌,
  ◌++◌, ◌≡◌, refl, String, includes, map, arith,
}
use go_check_ssl.Prelude.Text.{Text, codes}
use go_check_ssl.Types.{AdminTenantListResponse, AdminTenantListItem, tenant_owner}
use go_check_ssl.Api.{Client, Reply, response, json, undefined, failure, rejected, is_unauthorized}
use go_check_ssl.Auth.{auth_ops}
use go_check_ssl.Locale.{de}
use go_check_ssl.Admin.{
  AdminState, initial, get_visible_pages, count_from, clamp_page, current_page_safe, page_start,
  page_end, total_pages, total_tenants, page_size, page_selection_all, page_selection_some, asc,
  desc, access, details,
}
use go_check_ssl.Admin
use go_check_ssl.Admin.Paging.{first_visible, get_visible_pages_window}
use go_check_ssl.Admin.Selection.{is_unique}
use go_check_ssl.Admin.Selection.Refinement.{
  Choice, row, whole_page, choose_all, mark_all, choose_all_refines,
}
use go_check_ssl.Admin.Actions.{click_delete, delete_tenant, admin_request}
use go_check_ssl.Admin.Actions.Laws.{IsRemoved, click_delete_removes}
use go_check_ssl.Admin.Bulk.{delete, disable}
use go_check_ssl.Admin.Bulk.Laws.{
  Sends, ran, bulk_entry, run_bulk_action-Sends, run_bulk_action_in_order,
}
use go_check_ssl.Admin.Events.{sort, search, filter_quick}
use go_check_ssl.Admin.Events
use go_check_ssl.Admin.View.Laws.{is_checked, is_unchecked, table, head_checkbox_agrees}
use go_check_ssl.Admin.Events.Stranded.{Leads, stay, click, quick_filter_stays}

abbrev key_itself : String → List (String × ℕ) → Text
key_itself key values = codes key

abbrev answer : Option AdminTenantListResponse
answer = some (record {
  tenants = [];
  pagination = record { page = 3; page_size = 10; total = 23; total_pages = 3 };
})

abbrev client : List Reply → Client
client replies = record {
  access_token = some (codes "t1");
  has_refresh_handler = true;
  user = none;
  loading = false;
  replies = replies;
  log = [];
}

-- A page with the tenants 4, 7 and 9 checked, and 7 in the access modal.
abbrev opened : AdminState
opened = record {
  selected_tenant_id = some 7;
  tenant_query = [];
  current_page = 3;
  status_filter = Admin.StatusFilter.all;
  quick_filter = Admin.QuickFilter.all;
  sort_key = Admin.expiry;
  sort_direction = asc;
  selected_tenant_ids = 4 ∷ 7 ∷ 9 ∷ [];
  active_modal = some access;
  action_message = none;
  action_error = some (1 ∷ []);
  password = 1 ∷ 2 ∷ 3 ∷ 4 ∷ 5 ∷ 6 ∷ 7 ∷ 8 ∷ [];
  invalidated = [];
}

get_visible_pages_window_example :
    (get_visible_pages 7 20 ≡ count_from (first_visible 7 20) (min 20 5))
    × (1 ≤ first_visible 7 20)
    × (first_visible 7 20 + min 20 5 ≤ 20 + 1)
    × (includes (get_visible_pages 7 20) 7 ≡ true)
get_visible_pages_window_example = get_visible_pages_window 7 20 (omega arith) (omega arith)

get_visible_pages_test : get_visible_pages 19 20 ≡ 16 ∷ 17 ∷ 18 ∷ 19 ∷ 20 ∷ []
unfolding get_visible_pages
get_visible_pages_test = refl

-- Tenant 9 is checked, then the page of 7 and 8; 4 is taken out.
abbrev clicks : List Choice
clicks = row 9 true ∷ whole_page (7 ∷ 8 ∷ []) true ∷ row 4 false ∷ []

choose_all_refines_example :
    (is_unique (choose_all clicks (4 ∷ 7 ∷ [])) ≡ true)
    × (includes (choose_all clicks (4 ∷ 7 ∷ [])) ≡ mark_all clicks (includes (4 ∷ 7 ∷ [])))
choose_all_refines_example = choose_all_refines clicks (4 ∷ 7 ∷ []) refl

abbrev accepting : Client
accepting =
    client (response 204 [] undefined ∷ response 500 [] (failure none) ∷ response 200 [] json ∷ [])

deletion_taken : rejected (delete_tenant 7 accepting).0 ≡ false
unfolding delete_tenant admin_request auth_ops
deletion_taken = refl

click_delete_removes_example :
    IsRemoved de key_itself 7 opened (click_delete de key_itself opened accepting).0
click_delete_removes_example =
    click_delete_removes de key_itself 7 opened accepting refl refl deletion_taken refl

run_bulk_action-Sends_example : Sends de key_itself delete true opened accepting
run_bulk_action-Sends_example = run_bulk_action-Sends de key_itself delete true opened accepting

run_bulk_action_in_order_example :
    (ran de key_itself disable false opened accepting).1.log
    ≡ [] ++ map (bulk_entry disable accepting) (4 ∷ 7 ∷ 9 ∷ [])
unfolding is_unauthorized
run_bulk_action_in_order_example =
    run_bulk_action_in_order de key_itself disable false opened accepting refl refl

abbrev sorted : AdminState
sorted = (Events.run de key_itself (sort Admin.name) answer initial (client [])).0

-- A server without errors: the quick filter of errors leaves no tenant.
abbrev listed : Admin.QuickFilter → Option AdminTenantListResponse
listed Admin.QuickFilter.has_errors = some (record {
  tenants = [];
  pagination = record { page = 1; page_size = 10; total = 0; total_pages = 1 };
})
listed _ = answer

abbrev listed_for : AdminState → Option AdminTenantListResponse
listed_for s = listed s.quick_filter

no_errors :
    (s : AdminState)
    → s.quick_filter ≡ Admin.QuickFilter.has_errors
    → total_tenants (listed_for s) ≡ 0
unfolding total_tenants
no_errors s chosen = rw chosen refl

abbrev filtered : AdminState
filtered = record initial { quick_filter = Admin.QuickFilter.has_errors }

abbrev searched : AdminState
searched =
    (Events.run de key_itself (search (codes "a")) (listed_for filtered) filtered (client [])).0

searched-Leads : Leads de key_itself listed_for filtered searched
unfolding Events.enabled Events.on_page initial
searched-Leads = click stay (search (codes "a")) (client []) refl

quick_filter_stays_example :
    (searched.quick_filter ≡ Admin.QuickFilter.has_errors)
    × ((other : Admin.QuickFilter)
        → Events.enabled (filter_quick other) (listed_for searched) searched ≡ false)
unfolding initial
quick_filter_stays_example =
    quick_filter_stays de key_itself listed_for Admin.QuickFilter.has_errors filtered searched
      no_errors refl searched-Leads

abbrev tenant : ℕ → AdminTenantListItem
tenant id = record {
  tenant = record {
    id = id;
    name = 97 ∷ [];
    slug = 97 ∷ [];
    public_status_title = none;
    public_status_subtitle = none;
    disabled = false;
    created_at = [];
    updated_at = [];
  };
  owner = record {
    id = id;
    tenant_id = id;
    username = 98 ∷ [];
    email = none;
    role = tenant_owner;
    email_verified = false;
    last_login_at = none;
  };
  stats = record {
    domain_count = 2;
    healthy_count = 1;
    pending_count = 0;
    error_count = 1;
    next_expiry_at = none;
    public_status_url = [];
  };
}

-- The tenants 7 and 8, of which `opened` has 7 checked.
abbrev two_tenants : Option AdminTenantListResponse
two_tenants = some (record {
  tenants = tenant 7 ∷ tenant 8 ∷ [];
  pagination = record { page = 1; page_size = 10; total = 2; total_pages = 1 };
})

abbrev some_time : Option Text → Text
some_time value = codes "now"

head_checkbox_agrees_example :
    ((table key_itself some_time two_tenants opened).all_checked ≡ (
      not (length (table key_itself some_time two_tenants opened).rows == 0)
      && every is_checked (table key_itself some_time two_tenants opened).rows))
    × ((table key_itself some_time two_tenants opened).indeterminate ≡ (
        not (every is_unchecked (table key_itself some_time two_tenants opened).rows)
        && not (every is_checked (table key_itself some_time two_tenants opened).rows)))
head_checkbox_agrees_example = head_checkbox_agrees key_itself some_time two_tenants opened
