-- ===== src/Notifications/EndpointForm.antt =====
-- apps/web/src/components/notifications/endpoint-form.tsx: the form's values, what it submits, and
-- what keeps its button disabled. `type` is always one of the three options of the select.
pub mod Laws
use go_check_ssl.Prelude.{
  Bool, true, false, not, Option, none, some, List, [], ◌∷◌, ◌&&◌, if◌then◌else◌, ◌or◌, chain,
  chain?, String, is_some,
}
use go_check_ssl.Prelude.Text.{Text, codes, trim, truthy}
use go_check_ssl.Types.{ApiEndpoint, EndpointType, EndpointConfig, email, telegram, webhook}
use go_check_ssl.Payloads.{EndpointPayload}

pub record EndpointFormValues : Type 0 where
  pub name : Text
  pub type : EndpointType
  pub enabled : Bool
  pub recipient_email : Text
  pub bot_token : Text
  pub chat_id : Text
  pub url : Text
  pub auth_header_name : Text
  pub auth_header_value : Text

-- `{}`
abbrev pub no_config : EndpointConfig
no_config = record {
  recipient_email = none;
  bot_token = none;
  chat_id = none;
  url = none;
  auth_header_name = none;
  auth_header_value = none;
}

-- `config` is there on every endpoint, so that `config_masked` is not asked.
unfoldable pub endpoint_defaults : Option ApiEndpoint → EndpointFormValues
endpoint_defaults endpoint =
    let config : EndpointConfig = chain endpoint (λ e. e.config) or no_config in
    record {
      name = chain endpoint (λ e. e.name) or [];
      type = chain endpoint (λ e. e.type) or email;
      enabled = chain endpoint (λ e. e.enabled) or true;
      recipient_email = config.recipient_email or [];
      bot_token = config.bot_token or [];
      chat_id = config.chat_id or [];
      url = config.url or [];
      auth_header_name = config.auth_header_name or [];
      auth_header_value = config.auth_header_value or [];
    }

unfoldable pub webhook_config : EndpointFormValues → EndpointConfig
webhook_config values =
    if truthy values.auth_header_name
    then record no_config {
      url = some values.url;
      auth_header_name = some values.auth_header_name;
      auth_header_value = some values.auth_header_value;
    }
    else record no_config { url = some values.url }

unfoldable pub submitted_config : EndpointFormValues → EndpointConfig
unfolding webhook_config
submitted_config values = elim values.type [
  | email ↦ record no_config { recipient_email = some values.recipient_email }
  | telegram ↦ record no_config { bot_token = some values.bot_token; chat_id = some values.chat_id }
  | webhook ↦ webhook_config values
]

unfoldable pub endpoint_payload : EndpointFormValues → EndpointPayload
unfolding submitted_config
endpoint_payload values = record {
  name = values.name;
  type = values.type;
  enabled = values.enabled;
  config = submitted_config values;
}

-- The key of the text that is shown, and keeps the button disabled.
unfoldable pub telegram_error : EndpointFormValues → Option String
telegram_error values =
    if not (truthy (trim values.bot_token))
    then some "validation.telegramBotTokenRequired"
    else if not (truthy (trim values.chat_id))
    then some "validation.telegramChatIdRequired"
    else none

unfoldable pub type_error : EndpointFormValues → Option String
unfolding telegram_error
type_error values = elim values.type [
  | email ↦
      if not (truthy (trim values.recipient_email))
      then some "validation.recipientEmailRequired"
      else none
  | telegram ↦ telegram_error values
  | webhook ↦ if not (truthy (trim values.url)) then some "validation.webhookUrlRequired" else none
]

unfoldable pub validation_error : EndpointFormValues → Option String
unfolding type_error
validation_error values =
    if not (truthy (trim values.name)) then some "validation.nameRequired" else type_error values
