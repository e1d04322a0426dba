-- ===== src/Notifications/PolicyForm.antt =====
-- apps/web/src/components/notifications/policy-form.tsx: the form's values, and what it submits.
pub mod Laws
use go_check_ssl.Prelude.{
  ℕ, Bool, true, false, not, Option, none, some, List, [], ◌∷◌, ◌++◌, ◌==◌, ◌&&◌, if◌then◌else◌,
  ◌or◌, chain, keep, map,
}
use go_check_ssl.Prelude.Text.{Text, codes, trim}
use go_check_ssl.Prelude.Text.Decimal.{to_decimal}
use go_check_ssl.Prelude.Text.Number.{JsNumber, js_number, is_finite, at_least_zero}
use go_check_ssl.Prelude.Text.Split.{split_on, join}
use go_check_ssl.Types.{PolicyView}
use go_check_ssl.Payloads.{PolicyPayload}

pub record PolicyFormValues : Type 0 where
  pub thresholds : Text
  pub endpoint_ids : List ℕ

-- `threshold_days.join(", ")`
unfoldable pub format_thresholds : List ℕ → Text
format_thresholds days = join (codes ", ") (map to_decimal days)

-- The default values, which an effect also sets when the policy changes.
unfoldable pub policy_values : Option PolicyView → PolicyFormValues
unfolding format_thresholds
policy_values policy = record {
  thresholds = chain policy (λ p. format_thresholds p.threshold_days) or codes "30, 7, 1";
  endpoint_ids = chain policy (λ p. p.endpoint_ids) or [];
}

-- `Number(item.trim())`
unfoldable pub read_item : Text → JsNumber
read_item item = js_number (trim item)

unfoldable pub usable : JsNumber → Bool
usable n = is_finite n && at_least_zero n

unfoldable pub read_thresholds : Text → List JsNumber
unfolding read_item usable
read_thresholds s = keep usable (map read_item (split_on b',' s))

-- What `handleSubmit` passes on.
unfoldable pub policy_payload : PolicyFormValues → PolicyPayload
unfolding read_thresholds
policy_payload values = record {
  threshold_days = read_thresholds values.thresholds;
  endpoint_ids = values.endpoint_ids;
}

-- The checkbox of an endpoint.
unfoldable pub toggle_endpoint : ℕ → Bool → PolicyFormValues → PolicyFormValues
toggle_endpoint id checked values = record values {
  endpoint_ids =
      if checked
      then values.endpoint_ids ++ id ∷ []
      else keep (λ e. not (e == id)) values.endpoint_ids;
}
