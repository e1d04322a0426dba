-- ===== src/PublicStatus/Page/Panels.antt =====
-- Which panels of the public status page are expanded, after any clicks.
use go_check_ssl.Prelude.{
  ℕ, ◌==◌, Bool, false, not, Option, none, List, [], ◌∷◌, if◌then◌else◌, ◌≡◌, refl, arith, is_some,
}
use go_check_ssl.Types.{ApiDomain}
use go_check_ssl.PublicStatus.Page.{is_open, toggle_open, domain_panel}
use go_check_ssl.Domains.Panel.{panel}
use go_check_ssl.Locale.{Locale}
use go_check_ssl.Prelude.Text.{Text}

-- The page after clicks, the last one first.
abbrev pub after_clicks : List ℕ → Option ℕ
after_clicks [] = none
after_clicks (id ∷ clicks) = toggle_open id (after_clicks clicks)

-- Whether the number of last clicks on `id`, without others between, is odd.
abbrev pub is_odd_run : ℕ → List ℕ → Bool
is_odd_run id [] = false
is_odd_run id (click ∷ clicks) = if click == id then not (is_odd_run id clicks) else false

pub is_open-after_clicks :
    (id : ℕ) (clicks : List ℕ) → is_open (after_clicks clicks) id ≡ is_odd_run id clicks
unfolding is_open toggle_open
is_open-after_clicks id [] = refl
is_open-after_clicks id (click ∷ clicks) =
    ground (arith, is_open-after_clicks id clicks, is_open-after_clicks click clicks)

-- After any clicks, a domain's panel shows its details exactly when the last clicks, with none on
-- another panel between them, were an odd number of clicks on it.
pub expanded_after {ℓ} :
    {Date : Type ℓ} (parse_date : Text → Option Date)
    (format format_date format_time : Locale → Date → Text) (locale : Locale) (clicks : List ℕ)
    (d : ApiDomain)
    → is_some
        (domain_panel parse_date format format_date format_time locale (after_clicks clicks) d).more
      ≡ is_odd_run d.id clicks
unfolding panel
expanded_after parse_date format format_date format_time locale clicks d =
    rw (is_open-after_clicks d.id clicks) (ground arith)
