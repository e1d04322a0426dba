-- ===== src/Notifications/EndpointForm/Laws.antt =====
-- Opening the endpoint form and submitting it, and when its button can be used.
use go_check_ssl.Prelude.{
  Bool, true, false, not, Option, none, some, List, [], ◌∷◌, ◌&&◌, if◌then◌else◌, ◌or◌, String,
  is_some, ◌≡◌, refl, ap, Bool-cases, inl, inr, ◌∙◌, sym,
}
use go_check_ssl.Prelude.Text.{Text, trim, truthy}
use go_check_ssl.Types.{ApiEndpoint, EndpointType, EndpointConfig, email, telegram, webhook}
use go_check_ssl.Notifications.EndpointForm.{
  EndpointFormValues, no_config, endpoint_defaults, webhook_config, submitted_config,
  endpoint_payload, validation_error, type_error, telegram_error,
}

-- The configurations that belong to a type.
pub data ConfigOf : EndpointType → EndpointConfig → Type 0 where
  of_email :
      (recipient : Text) → ConfigOf email (record no_config { recipient_email = some recipient })
  of_telegram :
      (token chat : Text)
      → ConfigOf telegram (record no_config { bot_token = some token; chat_id = some chat })
  of_webhook : (url : Text) → ConfigOf webhook (record no_config { url = some url })
  of_webhook_with_header :
      (url name value : Text)
      → truthy name ≡ true
      → ConfigOf webhook (record no_config {
        url = some url;
        auth_header_name = some name;
        auth_header_value = some value;
      })

config-ConfigOf :
    (values : EndpointFormValues) (type : EndpointType)
    → values.type ≡ type
    → ConfigOf type (submitted_config values)
unfolding submitted_config webhook_config
config-ConfigOf values email e = rw e (of_email values.recipient_email)
config-ConfigOf values telegram e = rw e (of_telegram values.bot_token values.chat_id)
config-ConfigOf values webhook e = elim (Bool-cases (truthy values.auth_header_name)) [
  | inl named ↦
      rw (e, named)
        (of_webhook_with_header values.url values.auth_header_name values.auth_header_value named)
  | inr bare ↦ rw (e, bare) (of_webhook values.url)
]

-- Whatever is typed, what the form submits has the keys of its type and no other; a header's value
-- goes with a name that is not empty, or not at all.
pub endpoint_payload-ConfigOf :
    (values : EndpointFormValues)
    → ConfigOf (endpoint_payload values).type (endpoint_payload values).config
unfolding endpoint_payload
endpoint_payload-ConfigOf values = config-ConfigOf values values.type refl

same_config :
    (type : EndpointType) (config : EndpointConfig) (values : EndpointFormValues)
    → ConfigOf type config
    → values.type ≡ type
    → values.recipient_email ≡ (config.recipient_email or [])
    → values.bot_token ≡ (config.bot_token or [])
    → values.chat_id ≡ (config.chat_id or [])
    → values.url ≡ (config.url or [])
    → values.auth_header_name ≡ (config.auth_header_name or [])
    → values.auth_header_value ≡ (config.auth_header_value or [])
    → submitted_config values ≡ config
unfolding submitted_config webhook_config
same_config _ _ values (of_email recipient) e a b c d f g = rw (e, a) refl
same_config _ _ values (of_telegram token chat) e a b c d f g = rw (e, b, c) refl
same_config _ _ values (of_webhook url) e a b c d f g = rw (e, d, f) refl
same_config _ _ values (of_webhook_with_header url name value n) e a b c d f g =
    rw (e, d, f, n, g) refl

-- Of an endpoint whose configuration belongs to its type, submitting the form as it was opened
-- passes on the endpoint's name, type, state and configuration.
pub endpoint_payload-endpoint_defaults :
    (endpoint : ApiEndpoint)
    → ConfigOf endpoint.type endpoint.config
    → endpoint_payload (endpoint_defaults (some endpoint)) ≡ record {
      name = endpoint.name;
      type = endpoint.type;
      enabled = endpoint.enabled;
      config = endpoint.config;
    }
unfolding endpoint_payload endpoint_defaults
endpoint_payload-endpoint_defaults endpoint h =
    ap
      (λ (config : EndpointConfig). record {
        name = endpoint.name;
        type = endpoint.type;
        enabled = endpoint.enabled;
        config = config;
      })
      (same_config endpoint.type endpoint.config (endpoint_defaults (some endpoint)) h refl refl
        refl refl refl refl refl)

-- The texts that a configuration cannot do without.
abbrev pub required : EndpointConfig → EndpointType → List (Option Text)
required config email = config.recipient_email ∷ []
required config telegram = config.bot_token ∷ config.chat_id ∷ []
required config webhook = config.url ∷ []

abbrev pub not_blank : Option Text → Bool
not_blank none = false
not_blank (some s) = truthy (trim s)

abbrev pub all_present : List (Option Text) → Bool
all_present [] = true
all_present (o ∷ os) = not_blank o && all_present os

filled :
    (s : Text) (key : String)
    → not (is_some (if not (truthy (trim s)) then some key else none))
      ≡ (not_blank (some s) && true)
filled s key = elim (Bool-cases (truthy (trim s))) [ inl h ↦ rw h refl | inr h ↦ rw h refl ]

telegram_filled :
    (values : EndpointFormValues)
    → not (is_some (telegram_error values))
      ≡ (not_blank (some values.bot_token) && (not_blank (some values.chat_id) && true))
unfolding telegram_error
telegram_filled values = elim (Bool-cases (truthy (trim values.bot_token))) [
  | inl h ↦ rw h (filled values.chat_id "validation.telegramChatIdRequired")
  | inr h ↦ rw h refl
]

pub webhook_config-url :
    (values : EndpointFormValues) → (webhook_config values).url ≡ some values.url
unfolding webhook_config
webhook_config-url values = elim (Bool-cases (truthy values.auth_header_name)) [
  | inl h ↦ rw h refl
  | inr h ↦ rw h refl
]

error_by_type :
    (values : EndpointFormValues) (type : EndpointType)
    → values.type ≡ type
    → not (is_some (type_error values)) ≡ all_present (required (submitted_config values) type)
unfolding type_error submitted_config
error_by_type values email e =
    rw e (filled values.recipient_email "validation.recipientEmailRequired")
error_by_type values telegram e = rw e (telegram_filled values)
error_by_type values webhook e = rw e (
    filled values.url "validation.webhookUrlRequired"
    ∙ ap (λ o. not_blank o && true) (sym (webhook_config-url values)))

-- The button can be used exactly when what would be submitted has a name and its type's required
-- texts, none of them blank.
pub validation_error_iff :
    (values : EndpointFormValues)
    → not (is_some (validation_error values)) ≡ (
        not_blank (some (endpoint_payload values).name)
        && all_present (required (endpoint_payload values).config (endpoint_payload values).type))
unfolding validation_error endpoint_payload
validation_error_iff values = elim (Bool-cases (truthy (trim values.name))) [
  | inl named ↦ rw named (error_by_type values values.type refl)
  | inr blank ↦ rw blank refl
]
