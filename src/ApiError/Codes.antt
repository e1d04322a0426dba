-- ===== src/ApiError/Codes.antt =====
-- ApiErrorCode and `messageToCode` of apps/web/src/lib/api-error.ts.
use go_check_ssl.Prelude.{String, List, [], ◌∷◌}

pub data ApiErrorCode : Type 0 where
  invalid_credentials : ApiErrorCode
  registration_disabled : ApiErrorCode
  email_not_verified : ApiErrorCode
  invalid_token : ApiErrorCode
  token_expired : ApiErrorCode
  resource_exists : ApiErrorCode
  password_too_short : ApiErrorCode
  username_too_short : ApiErrorCode
  username_too_long : ApiErrorCode
  username_invalid_chars : ApiErrorCode
  invalid_request_body : ApiErrorCode
  missing_refresh_cookie : ApiErrorCode
  missing_bearer_token : ApiErrorCode
  invalid_access_token : ApiErrorCode
  missing_authenticated_user : ApiErrorCode
  admin_access_required : ApiErrorCode
  user_not_found : ApiErrorCode
  tenant_not_found : ApiErrorCode
  tenant_disabled : ApiErrorCode
  domain_not_found : ApiErrorCode
  endpoint_not_found : ApiErrorCode
  domain_already_exists : ApiErrorCode
  hostname_required : ApiErrorCode
  target_ip_invalid : ApiErrorCode
  port_out_of_range : ApiErrorCode
  name_required : ApiErrorCode
  invalid_endpoint_config : ApiErrorCode
  telegram_not_configured : ApiErrorCode
  frontend_assets_unavailable : ApiErrorCode
  no_selected_user : ApiErrorCode
  bad_request : ApiErrorCode
  unauthorized : ApiErrorCode
  forbidden : ApiErrorCode
  not_found : ApiErrorCode
  conflict : ApiErrorCode
  server_error : ApiErrorCode

-- The own properties of the object, in order.
unfoldable pub message_to_code : List (String × ApiErrorCode)
message_to_code =
    ("invalid credentials", invalid_credentials)
    ∷ ("registration disabled", registration_disabled)
    ∷ ("email not verified", email_not_verified)
    ∷ ("invalid token", invalid_token)
    ∷ ("token expired", token_expired)
    ∷ ("resource already exists", resource_exists)
    ∷ ("password must be at least 8 characters", password_too_short)
    ∷ ("username must be at least 3 characters", username_too_short)
    ∷ ("username must be at most 32 characters", username_too_long)
    ∷ (
      "username may only contain letters, numbers, dot, underscore, and dash",
      username_invalid_chars,
    )
    ∷ ("invalid request body", invalid_request_body)
    ∷ ("missing refresh cookie", missing_refresh_cookie)
    ∷ ("missing bearer token", missing_bearer_token)
    ∷ ("invalid access token", invalid_access_token)
    ∷ ("missing authenticated user", missing_authenticated_user)
    ∷ ("admin access required", admin_access_required)
    ∷ ("user not found", user_not_found)
    ∷ ("tenant not found", tenant_not_found)
    ∷ ("tenant is disabled", tenant_disabled)
    ∷ ("domain not found", domain_not_found)
    ∷ ("endpoint not found", endpoint_not_found)
    ∷ ("domain already exists", domain_already_exists)
    ∷ ("hostname is required", hostname_required)
    ∷ ("target ip must be a valid ipv4 or ipv6 address", target_ip_invalid)
    ∷ ("port must be between 1 and 65535", port_out_of_range)
    ∷ ("name is required", name_required)
    ∷ ("invalid endpoint config", invalid_endpoint_config)
    ∷ ("telegram bot token is not configured", telegram_not_configured)
    ∷ ("frontend assets are not available", frontend_assets_unavailable)
    ∷ ("no selected user", no_selected_user)
    ∷ []
