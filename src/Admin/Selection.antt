-- ===== src/Admin/Selection.antt =====
-- `selectedTenantIds`: the checkboxes of the rows and of the page.
pub mod Refinement
use go_check_ssl.Prelude.{
  ℕ, Bool, true, false, not, List, [], ◌∷◌, ◌++◌, ◌≡◌, refl, ◌==◌, ◌&&◌, if◌then◌else◌, inl, inr,
  keep, includes, includes-append, includes-keep, arith, Bool-cases, ==_refl,
}

-- `[...new Set(ids)]` lists each id once, where it stands first. Walking the list from the left,
-- `seen` holds what the set has.
unfoldable pub unique_from : List ℕ → List ℕ → List ℕ
unique_from seen [] = []
unique_from seen (id ∷ ids) =
    let taken = unique_from (id ∷ seen) ids in
    let skipped = unique_from seen ids in if includes seen id then skipped else id ∷ taken

unfoldable pub unique : List ℕ → List ℕ
unique ids = unique_from [] ids

-- `toggleTenantSelection`, on the selected ids.
unfoldable pub toggle_tenant_selection : ℕ → Bool → List ℕ → List ℕ
toggle_tenant_selection tenant_id checked ids =
    if checked then unique (ids ++ tenant_id ∷ []) else keep (λ id. not (id == tenant_id)) ids

-- `togglePageSelection`, given the ids of the page.
unfoldable pub toggle_page_selection : List ℕ → Bool → List ℕ → List ℕ
toggle_page_selection page checked ids =
    if checked then unique (ids ++ page) else keep (λ id. not (includes page id)) ids

-- No id stands twice.
abbrev pub is_unique : List ℕ → Bool
is_unique [] = true
is_unique (id ∷ ids) = not (includes ids id) && is_unique ids

includes-unique_from :
    (seen ids : List ℕ) (n : ℕ)
    → includes (unique_from seen ids) n ≡ (not (includes seen n) && includes ids n)
unfolding unique_from
includes-unique_from seen [] n = ground arith
includes-unique_from seen (id ∷ ids) n =
    let taken = includes-unique_from (id ∷ seen) ids n in
    let skipped = includes-unique_from seen ids n in
    elim (Bool-cases (includes seen id)) [
      | inl old ↦ rw old (grind (arith, skipped, old))
      | inr new ↦ rw new (grind (arith, taken, new))
    ]

pub includes-unique : (ids : List ℕ) (n : ℕ) → includes (unique ids) n ≡ includes ids n
unfolding unique
includes-unique ids n = includes-unique_from [] ids n

is_unique-unique_from : (seen ids : List ℕ) → is_unique (unique_from seen ids) ≡ true
unfolding unique_from
is_unique-unique_from seen [] = refl
is_unique-unique_from seen (id ∷ ids) =
    let taken = is_unique-unique_from (id ∷ seen) ids in
    let skipped = is_unique-unique_from seen ids in
    let fresh = includes-unique_from (id ∷ seen) ids id in
    elim (Bool-cases (includes seen id)) [
      | inl old ↦ rw old skipped
      | inr new ↦ rw new (ground (arith, taken, fresh, ==_refl id))
    ]

pub is_unique-unique : (ids : List ℕ) → is_unique (unique ids) ≡ true
unfolding unique
is_unique-unique ids = is_unique-unique_from [] ids

pub is_unique-keep :
    (p : ℕ → Bool) (ids : List ℕ) → is_unique ids ≡ true → is_unique (keep p ids) ≡ true
is_unique-keep p [] h = refl
is_unique-keep p (id ∷ ids) h =
    let rest = is_unique-keep p ids in
    let kept = includes-keep p ids id in
    elim (Bool-cases (p id)) [
      | inl kept_id ↦ rw kept_id (ground (arith, rest, kept, h))
      | inr gone ↦ rw gone (ground (arith, rest, h))
    ]

-- A checkbox of a row changes whether that tenant is selected, and of no other; no id is listed
-- twice afterwards, when none was before.
pub toggle_tenant_selection_lem :
    (tenant_id : ℕ) (checked : Bool) (ids : List ℕ)
    → is_unique ids ≡ true
    → (is_unique (toggle_tenant_selection tenant_id checked ids) ≡ true)
      × ((n : ℕ)
          → includes (toggle_tenant_selection tenant_id checked ids) n
            ≡ (if n == tenant_id then checked else includes ids n))
unfolding toggle_tenant_selection
toggle_tenant_selection_lem tenant_id true ids h = (
  is_unique-unique (ids ++ tenant_id ∷ []),
  λ n.
      grind
        (arith, includes-unique (ids ++ tenant_id ∷ []) n, includes-append ids (tenant_id ∷ []) n),
)
toggle_tenant_selection_lem tenant_id false ids h = (
  is_unique-keep (λ id. not (id == tenant_id)) ids h,
  λ n. grind (arith, includes-keep (λ id. not (id == tenant_id)) ids n),
)

-- The checkbox of the page selects or deselects the tenants of the page, and no other; no id is
-- listed twice afterwards, when none was before.
pub toggle_page_selection_lem :
    (page : List ℕ) (checked : Bool) (ids : List ℕ)
    → is_unique ids ≡ true
    → (is_unique (toggle_page_selection page checked ids) ≡ true)
      × ((n : ℕ)
          → includes (toggle_page_selection page checked ids) n
            ≡ (if includes page n then checked else includes ids n))
unfolding toggle_page_selection
toggle_page_selection_lem page true ids h = (
  is_unique-unique (ids ++ page),
  λ n. grind (arith, includes-unique (ids ++ page) n, includes-append ids page n),
)
toggle_page_selection_lem page false ids h = (
  is_unique-keep (λ id. not (includes page id)) ids h,
  λ n. grind (arith, includes-keep (λ id. not (includes page id)) ids n),
)
