-- ===== src/Notifications/Page/View/Laws.antt =====
-- What the cards of the notifications page tell of what was submitted.
use go_check_ssl.Prelude.{
  true, false, not, Option, none, some, List, [], ◌∷◌, ◌≡◌, refl, String, is_some, if◌then◌else◌,
  Bool-cases, inl, inr, arith,
}
use go_check_ssl.Prelude.Text.{Text, trim, truthy, text_ops}
use go_check_ssl.Types.{ApiEndpoint, EndpointType, email, telegram, webhook}
use go_check_ssl.Locale.{Locale}
use go_check_ssl.Notifications.EndpointForm.{
  EndpointFormValues, submitted_config, endpoint_payload, validation_error, type_error,
  telegram_error, webhook_config,
}
use go_check_ssl.Notifications.EndpointForm.Laws.{webhook_config-url}
use go_check_ssl.Notifications.Page.{endpoint_preview, endpoint_meta, first_value}
use go_check_ssl.Notifications.Page.View.{Queries, endpoint_card}

-- Where the form says that the messages go.
abbrev pub destination_of : EndpointType → EndpointFormValues → Text
destination_of email values = values.recipient_email
destination_of telegram values = values.chat_id
destination_of webhook values = values.url

truthy-trim : (s : Text) → truthy (trim s) ≡ true → truthy s ≡ true
unfolding text_ops
truthy-trim [] h = h
truthy-trim (c ∷ s) h = refl

present :
    (s : Text) (key : String)
    → is_some (if not (truthy (trim s)) then some key else none) ≡ false
    → truthy s ≡ true
present s key h = elim (Bool-cases (truthy (trim s))) [
  | inl filled ↦ truthy-trim s filled
  | inr blank ↦ ground (arith, h, blank)
]

telegram_present :
    (values : EndpointFormValues)
    → is_some (telegram_error values) ≡ false
    → (truthy values.bot_token ≡ true) × (truthy values.chat_id ≡ true)
unfolding telegram_error
telegram_present values h = elim (Bool-cases (truthy (trim values.bot_token))) [
  | inl filled ↦ (
    truthy-trim values.bot_token filled,
    present values.chat_id "validation.telegramChatIdRequired" (rw filled at h),
  )
  | inr blank ↦ ground (arith, h, blank)
]

type-truthy :
    (values : EndpointFormValues) (type : EndpointType)
    → values.type ≡ type
    → is_some (type_error values) ≡ false
    → truthy (destination_of type values) ≡ true
unfolding type_error
type-truthy values email e h =
    present values.recipient_email "validation.recipientEmailRequired" (rw e at h)
type-truthy values telegram e h = (telegram_present values (rw e at h)).1
type-truthy values webhook e h = present values.url "validation.webhookUrlRequired" (rw e at h)

valid_type :
    (values : EndpointFormValues)
    → is_some (validation_error values) ≡ false
    → is_some (type_error values) ≡ false
unfolding validation_error
valid_type values h = elim (Bool-cases (truthy (trim values.name))) [
  | inl named ↦ (rw named at h)
  | inr blank ↦ ground (arith, h, blank)
]

module _ (locale : Locale) (t : String → List (String × Text) → Text)
    (format_date_time : Option Text → Text) where
  preview_of :
      (values : EndpointFormValues) (endpoint : ApiEndpoint) (type : EndpointType)
      → values.type ≡ type
      → endpoint.type ≡ values.type
      → endpoint.config ≡ submitted_config values
      → truthy (destination_of type values) ≡ true
      → endpoint_preview locale t endpoint ≡ destination_of type values
  unfolding endpoint_preview submitted_config
  preview_of values endpoint email e same stored h = rw (same, e, stored, e, h) refl
  preview_of values endpoint telegram e same stored h = rw (same, e, stored, e) refl
  preview_of values endpoint webhook e same stored h =
      rw (same, e, stored, e, webhook_config-url values, h) refl

  -- What a card says of the credentials.
  abbrev pub meta_of : EndpointType → EndpointFormValues → Text
  meta_of email values = t "notifications.emailDeliveryReady" []
  meta_of telegram values = t "notifications.telegramBotReady" []
  meta_of webhook values = first_value locale t (some values.auth_header_name)

  meta_by_type :
      (values : EndpointFormValues) (endpoint : ApiEndpoint) (type : EndpointType)
      → values.type ≡ type
      → endpoint.type ≡ values.type
      → endpoint.config ≡ submitted_config values
      → is_some (type_error values) ≡ false
      → endpoint_meta locale t endpoint ≡ meta_of type values
  unfolding endpoint_meta submitted_config webhook_config type_error
  meta_by_type values endpoint email e same stored h = rw (same, e) refl
  meta_by_type values endpoint telegram e same stored h =
      let (ready, _) = telegram_present values (rw e at h) in rw (same, e, stored, e, ready) refl
  meta_by_type values endpoint webhook e same stored h =
      elim (Bool-cases (truthy values.auth_header_name)) [
        | inl named ↦ rw (same, e, stored, e, named) (rw named refl)
        | inr bare ↦ rw (same, e, stored, e, bare) refl
      ]

  -- Of an endpoint that has the type and the configuration which a usable form submitted, the card
  -- shows the destination that was typed, which is not empty, and the header of a webhook or that
  -- the other types are ready.
  pub endpoint_card-ShowsSubmitted :
      (q : Queries) (values : EndpointFormValues) (endpoint : ApiEndpoint)
      → is_some (validation_error values) ≡ false
      → endpoint.type ≡ (endpoint_payload values).type
      → endpoint.config ≡ (endpoint_payload values).config
      → ((endpoint_card locale t format_date_time q endpoint).destination
          ≡ destination_of values.type values)
        × (truthy (destination_of values.type values) ≡ true)
        × ((endpoint_card locale t format_date_time q endpoint).meta ≡ meta_of values.type values)
  unfolding endpoint_card endpoint_payload
  endpoint_card-ShowsSubmitted q values endpoint valid same stored =
      let valid_here = valid_type values valid in
      let typed = type-truthy values values.type refl valid_here in
      (
        preview_of values endpoint values.type refl same stored typed,
        typed,
        meta_by_type values endpoint values.type refl same stored valid_here,
      )
