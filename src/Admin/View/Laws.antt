-- ===== src/Admin/View/Laws.antt =====
-- The checkbox in the head of the tenants' table, and those of the rows.
use go_check_ssl.Prelude.{
  ℕ, ◌==◌, Bool, not, Option, List, [], ◌∷◌, ◌≡◌, refl, String, ◌&&◌, ltb, map, length, keep,
  includes, arith, every, length-keep-le, ap, Bool-cases, inl, inr,
}
use go_check_ssl.Prelude.Text.{Text}
use go_check_ssl.Types.{AdminTenantListResponse, AdminTenantListItem}
use go_check_ssl.Admin.{
  AdminState, tenants, current_page_tenant_ids, page_selection_all, page_selection_some,
}
use go_check_ssl.Admin.View.{TenantRow, Table, tenant_row, table_of}

abbrev pub is_checked : TenantRow → Bool
is_checked r = r.checked

abbrev pub is_unchecked : TenantRow → Bool
is_unchecked r = not r.checked

module _ {ℓ} {A : Type ℓ} (p : A → Bool) where
  every-counts : (xs : List A) → (length (keep p xs) == length xs) ≡ every p xs
  every-counts [] = ground arith
  every-counts (x ∷ xs) =
      let rest = every-counts xs in
      let fewer = length-keep-le p xs in
      elim (Bool-cases (p x)) [
        | inl holds ↦ rw holds (ground (arith, rest))
        | inr fails ↦ rw fails (ground (arith, fewer))
      ]

  none-counts : (xs : List A) → ltb 0 (length (keep p xs)) ≡ not (every (λ x. not (p x)) xs)
  none-counts [] = ground arith
  none-counts (x ∷ xs) =
      let rest = none-counts xs in
      elim (Bool-cases (p x)) [ inl holds ↦ rw holds (ground arith) | inr fails ↦ rw fails rest ]

  fewer-counts : (xs : List A) → ltb (length (keep p xs)) (length xs) ≡ not (every p xs)
  fewer-counts xs =
      let same = every-counts xs in let fewer = length-keep-le p xs in ground (arith, same, fewer)

module _ (t : String → List (String × ℕ) → Text) (format_date_time : Option Text → Text) where
  abbrev pub table : Option AdminTenantListResponse → AdminState → Table
  table answer s = table_of t format_date_time answer s

  counted :
      (s : AdminState) (items : List AdminTenantListItem)
      → length (
          keep
            (includes s.selected_tenant_ids)
            (map (λ (i : AdminTenantListItem). i.tenant.id) items))
        ≡ length (keep is_checked (map (tenant_row t format_date_time s) items))
  unfolding tenant_row
  counted s [] = refl
  counted s (i ∷ items) = elim (Bool-cases (includes s.selected_tenant_ids i.tenant.id)) [
    | inl chosen ↦ rw chosen (ap (λ n. ℕ.suc n) (counted s items))
    | inr free ↦ rw free (counted s items)
  ]

  length-rows :
      (s : AdminState) (items : List AdminTenantListItem)
      → length (map (λ (i : AdminTenantListItem). i.tenant.id) items)
        ≡ length (map (tenant_row t format_date_time s) items)
  length-rows s [] = refl
  length-rows s (i ∷ items) = ap (λ n. ℕ.suc n) (length-rows s items)

  -- The checkbox in the head of the table is checked exactly when the table has rows and all of
  -- them are checked, and shown as undecided exactly when some rows are checked and some are not.
  pub head_checkbox_agrees :
      (answer : Option AdminTenantListResponse) (s : AdminState)
      → ((table answer s).all_checked
          ≡ (not (length (table answer s).rows == 0) && every is_checked (table answer s).rows))
        × ((table answer s).indeterminate ≡ (
            not (every is_unchecked (table answer s).rows)
            && not (every is_checked (table answer s).rows)))
  unfolding table_of page_selection_all page_selection_some current_page_tenant_ids
  head_checkbox_agrees answer s =
      let rows = map (tenant_row t format_date_time s) (tenants answer) in
      let all = every-counts is_checked rows in
      let positive : ltb 0 (length rows) ≡ not (length rows == 0) = ground arith in
      let any = none-counts is_checked rows in
      let fewer = fewer-counts is_checked rows in
      rw (counted s (tenants answer), length-rows s (tenants answer))
        (rw (positive, all) refl, rw (any, fewer) refl)
