-- ===== src/Admin/Paging.antt =====
-- The page buttons, the range of rows shown and the page the effect clamps to.
use go_check_ssl.Prelude.{
  ℕ, ◌+◌, ◌-◌, ◌*◌, ◌≤◌, ◌<◌, min, true, false, Option, [], ◌∷◌, ◌≡◌, refl, ap, ◌∙◌, inl, inr, ltb,
  leb, if◌then◌else◌, includes, arith, Bool-cases,
}
use go_check_ssl.Types.{AdminTenantListResponse}
use go_check_ssl.Admin.{
  AdminState, page_size, total_pages, current_page_safe, total_tenants, page_start, page_end,
  count_from, get_visible_pages, clamp_page,
}

-- The first page that has a button.
abbrev pub first_visible : ℕ → ℕ → ℕ
first_visible current total =
    if leb total 5
    then 1
    else if leb current 3
    then 1
    else if leb (total - 2) current
    then total - 4
    else current - 2

includes-count_from :
    (first n page : ℕ) → first ≤ page → page < first + n → includes (count_from first n) page ≡ true
unfolding count_from
includes-count_from first ℕ.zero page h l = ground arith
includes-count_from first (ℕ.suc n) page h l =
    let rest = includes-count_from (first + 1) n page in ground (arith, rest)

count_five :
    (a b c d e : ℕ)
    → b ≡ a + 1
    → c ≡ a + 2
    → d ≡ a + 3
    → e ≡ a + 4
    → a ∷ b ∷ c ∷ d ∷ e ∷ [] ≡ count_from a 5
unfolding count_from
count_five a b c d e hb hc hd he = grind arith

visible_of_many :
    (current total : ℕ)
    → 1 ≤ current
    → current ≤ total
    → leb total 5 ≡ false
    → (if leb current 3
        then 1 ∷ 2 ∷ 3 ∷ 4 ∷ 5 ∷ []
        else if leb (total - 2) current
        then (total - 4) ∷ (total - 3) ∷ (total - 2) ∷ (total - 1) ∷ total ∷ []
        else (current - 2) ∷ (current - 1) ∷ current ∷ (current + 1) ∷ (current + 2) ∷ [])
      ≡ count_from
          (if leb current 3 then 1 else if leb (total - 2) current then total - 4 else current - 2)
          5
visible_of_many current total h l many = elim (Bool-cases (leb current 3)) [
  | inl low ↦ rw low (count_five 1 2 3 4 5 refl refl refl refl)
  | inr middle ↦ elim (Bool-cases (leb (total - 2) current)) [
    | inl high ↦
        rw (middle, high)
          (count_five (total - 4) (total - 3) (total - 2) (total - 1) total (ground arith)
            (ground arith) (ground arith) (ground arith))
    | inr low ↦
        rw (middle, low)
          (count_five (current - 2) (current - 1) current (current + 1) (current + 2) (ground arith)
            (ground arith) (ground arith) (ground arith))
  ]
]

-- Both descriptions of the buttons.
visible_is_count :
    (current total : ℕ)
    → 1 ≤ current
    → current ≤ total
    → get_visible_pages current total ≡ count_from (first_visible current total) (min total 5)
unfolding get_visible_pages
visible_is_count current total h l = elim (Bool-cases (leb total 5)) [
  | inl few ↦ let all : min total 5 ≡ total = ground arith in rw (all, few) refl
  | inr many ↦
      let five : min total 5 ≡ 5 = ground arith in
      rw (five, many) (visible_of_many current total h l many)
]

first_visible-bounds :
    (current total : ℕ)
    → 1 ≤ current
    → current ≤ total
    → (1 ≤ first_visible current total)
      × (first_visible current total + min total 5 ≤ total + 1)
      × (first_visible current total ≤ current)
      × (current < first_visible current total + min total 5)
first_visible-bounds current total h l = ground arith

-- For a current page between 1 and the last page, the buttons are those of consecutive pages, five
-- or as many as there are pages, all between 1 and the last page, the current page among them.
pub get_visible_pages_window :
    (current total : ℕ)
    → 1 ≤ current
    → current ≤ total
    → (get_visible_pages current total ≡ count_from (first_visible current total) (min total 5))
      × (1 ≤ first_visible current total)
      × (first_visible current total + min total 5 ≤ total + 1)
      × (includes (get_visible_pages current total) current ≡ true)
get_visible_pages_window current total h l =
    let same = visible_is_count current total h l in
    let (low, high, below, above) = first_visible-bounds current total h l in
    let found =
      includes-count_from (first_visible current total) (min total 5) current below above in
    (same, low, high, ap (λ pages. includes pages current) same ∙ found)

pub total_pages-positive : (answer : Option AdminTenantListResponse) → 1 ≤ total_pages answer
unfolding total_pages
total_pages-positive answer = ground arith

-- When the page is at least 1, there are tenants, and the server's number of pages is not larger
-- than they need, the summary's range "from to of total" is not empty, lies within the total, and
-- spans at most ten rows.
page_range_bounded :
    (answer : Option AdminTenantListResponse) (s : AdminState)
    → 1 ≤ s.current_page
    → (total_pages answer - 1) * page_size < total_tenants answer
    → (1 ≤ page_start answer s)
      × (page_start answer s ≤ page_end answer s)
      × (page_end answer s ≤ total_tenants answer)
      × (page_end answer s + 1 ≤ page_start answer s + page_size)
unfolding page_start page_end current_page_safe
page_range_bounded answer s h l =
    let some_page = total_pages-positive answer in ground (arith, some_page)

clamped-page :
    (answer : Option AdminTenantListResponse) (s : AdminState)
    → (clamp_page answer s).current_page ≡ min s.current_page (total_pages answer)
unfolding clamp_page
clamped-page answer s = elim (Bool-cases (ltb (total_pages answer) s.current_page)) [
  | inl high ↦ rw high (ground arith)
  | inr low ↦ rw low (ground arith)
]

clamp_page-idle :
    (answer : Option AdminTenantListResponse) (s : AdminState)
    → s.current_page ≤ total_pages answer
    → clamp_page answer s ≡ s
unfolding clamp_page
clamp_page-idle answer s h =
    let low : ltb (total_pages answer) s.current_page ≡ false = ground arith in rw low refl

-- From a page of at least 1, after the effect the page is the page shown and still at least 1, and
-- the effect has nothing left to do.
clamp_page-settles :
    (answer : Option AdminTenantListResponse) (s : AdminState)
    → 1 ≤ s.current_page
    → (1 ≤ (clamp_page answer s).current_page)
      × ((clamp_page answer s).current_page ≡ current_page_safe answer s)
      × (clamp_page answer (clamp_page answer s) ≡ clamp_page answer s)
unfolding current_page_safe
clamp_page-settles answer s h =
    let page = clamped-page answer s in
    let some_page = total_pages-positive answer in
    let inside : (clamp_page answer s).current_page ≤ total_pages answer = ground (arith, page) in
    (ground (arith, page, some_page), page, clamp_page-idle answer (clamp_page answer s) inside)
