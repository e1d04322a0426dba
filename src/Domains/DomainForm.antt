-- ===== src/Domains/DomainForm.antt =====
-- apps/web/src/components/domains/domain-form.tsx: the form's values, and the schema that turns
-- them into what is submitted. The schema's result is `none` where it has an issue, whichever.
pub mod Laws
use go_check_ssl.Prelude.{
  ℕ, ◌*◌, ◌^◌, ◌/◌, ◌%◌, Bool, true, false, not, Option, none, some, List, [], ◌∷◌, ◌==◌, ◌&&◌, ltb,
  leb, ◌||◌, if◌then◌else◌, ◌or◌, chain, chain?,
}
use go_check_ssl.Prelude.Text.{Text, codes, trim, truthy}
use go_check_ssl.Prelude.Text.Decimal.{to_decimal}
use go_check_ssl.Prelude.Text.Number.{JsNumber, nan, infinite, decimal, js_number}
use go_check_ssl.Types.{ApiDomain}
use go_check_ssl.Payloads.{DomainPayload}

-- `intervalPresetValues`
pub data IntervalPreset : Type 0 where
  one_day three_days seven_days fourteen_days thirty_days custom : IntervalPreset

-- `Number` of a preset's value.
unfoldable pub preset_seconds : IntervalPreset → Option ℕ
preset_seconds one_day = some 86400
preset_seconds three_days = some 259200
preset_seconds seven_days = some 604800
preset_seconds fourteen_days = some 1209600
preset_seconds thirty_days = some 2592000
preset_seconds custom = none

-- The port as the form holds it: the number of the default values, or what was typed.
pub data PortInput : Type 0 where
  number : ℕ → PortInput
  typed : Text → PortInput

pub record DomainFormInput : Type 0 where
  pub hostname : Text
  pub port : PortInput
  pub target_ip : Text
  pub enabled : Bool
  pub interval_preset : IntervalPreset
  pub custom_interval_seconds : Text

-- `presetForInterval`, of a number that is there and not 0: the preset, and the custom text.
unfoldable pub preset_of : ℕ → IntervalPreset × Text
preset_of seconds =
    if seconds == 86400
    then (one_day, [])
    else if seconds == 259200
    then (three_days, [])
    else if seconds == 604800
    then (seven_days, [])
    else if seconds == 1209600
    then (fourteen_days, [])
    else if seconds == 2592000
    then (thirty_days, [])
    else (custom, to_decimal seconds)

unfoldable pub preset_for_interval : Option ℕ → IntervalPreset × Text
unfolding preset_of
preset_for_interval none = (one_day, [])
preset_for_interval (some seconds) = if seconds == 0 then (one_day, []) else preset_of seconds

unfoldable pub default_values : Option ApiDomain → DomainFormInput
default_values domain =
    let (preset, text) = preset_for_interval (chain domain (λ d. d.check_interval_seconds)) in
    record {
      hostname = chain domain (λ d. d.hostname) or [];
      port = number (chain domain (λ d. d.port) or 443);
      target_ip = chain? domain (λ d. d.target_ip) or [];
      enabled = chain domain (λ d. d.enabled) or true;
      interval_preset = preset;
      custom_interval_seconds = text;
    }

-- The number, if it is an integer of at least 0.
unfoldable pub natural : JsNumber → Option ℕ
natural nan = none
natural (infinite negative) = none
natural (decimal negative m up down) =
    if (negative && not (m == 0)) || not ((m * 10 ^ up) % 10 ^ down == 0)
    then none
    else some (m * 10 ^ up / 10 ^ down)

-- `z.coerce.number().int()`
unfoldable pub coerce : PortInput → Option ℕ
unfolding natural
coerce (number n) = some n
coerce (typed s) = natural (js_number (trim s))

unfoldable pub between : ℕ → ℕ → Option ℕ → Option ℕ
between low high none = none
between low high (some n) = if leb low n && leb n high then some n else none

unfoldable pub checked_port : PortInput → Option ℕ
unfolding coerce between
checked_port port = between 1 65535 (coerce port)

unfoldable pub at_least : ℕ → Option ℕ → Option ℕ
at_least low none = none
at_least low (some n) = if leb low n then some n else none

-- `superRefine` and `transform`: a custom text that is not blank decides, and else the preset.
unfoldable pub checked_interval : IntervalPreset → Text → Option ℕ
unfolding at_least natural preset_seconds
checked_interval preset text =
    if truthy (trim text)
    then at_least 60 (natural (js_number (trim text)))
    else preset_seconds preset

unfoldable pub assemble : Text → Text → Bool → Option ℕ → Option ℕ → Option DomainPayload
assemble hostname target_ip enabled (some port) (some seconds) = some (record {
  hostname = hostname;
  port = port;
  target_ip = target_ip;
  enabled = enabled;
  check_interval_seconds = seconds;
})
assemble hostname target_ip enabled none _ = none
assemble hostname target_ip enabled (some port) none = none

unfoldable pub domain_payload : DomainFormInput → Option DomainPayload
unfolding assemble checked_port checked_interval
domain_payload values =
    if truthy (trim values.hostname)
    then assemble (trim values.hostname) (trim values.target_ip) values.enabled
        (checked_port values.port)
        (checked_interval values.interval_preset values.custom_interval_seconds)
    else none

-- Typing a custom interval selects the custom preset.
unfoldable pub type_custom_interval : Text → DomainFormInput → DomainFormInput
type_custom_interval text values = record values {
  custom_interval_seconds = text;
  interval_preset = if truthy (trim text) then custom else values.interval_preset;
}
