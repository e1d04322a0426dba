-- ===== src/ApiError/Messages/Germanic.antt =====
-- The texts of `localizedMessages` in apps/web/src/lib/api-error.ts: en, de.
use go_check_ssl.Prelude.Text.{Text, codes}
use go_check_ssl.ApiError.Codes.{
  ApiErrorCode, invalid_credentials, registration_disabled, email_not_verified, invalid_token,
  token_expired, resource_exists, password_too_short, username_too_short, username_too_long,
  username_invalid_chars, invalid_request_body, missing_refresh_cookie, missing_bearer_token,
  invalid_access_token, missing_authenticated_user, admin_access_required, user_not_found,
  tenant_not_found, tenant_disabled, domain_not_found, endpoint_not_found, domain_already_exists,
  hostname_required, target_ip_invalid, port_out_of_range, name_required, invalid_endpoint_config,
  telegram_not_configured, frontend_assets_unavailable, no_selected_user, bad_request, unauthorized,
  forbidden, not_found, conflict, server_error,
}

unfoldable pub en_messages : ApiErrorCode → Text
en_messages invalid_credentials = codes "Incorrect username or password."
en_messages registration_disabled = codes "Registration is currently disabled."
en_messages email_not_verified = codes "Email verification is still pending."
en_messages invalid_token = codes "The token is invalid."
en_messages token_expired = codes "The token has expired."
en_messages resource_exists = codes "The resource already exists."
en_messages password_too_short = codes "Password must be at least 8 characters."
en_messages username_too_short = codes "Username must be at least 3 characters."
en_messages username_too_long = codes "Username must be at most 32 characters."
en_messages username_invalid_chars =
    codes "Username may only contain letters, numbers, dots, underscores, and dashes."
en_messages invalid_request_body = codes "The request body is invalid."
en_messages missing_refresh_cookie = codes "The refresh cookie is missing."
en_messages missing_bearer_token = codes "The access token is missing."
en_messages invalid_access_token = codes "The access token is invalid."
en_messages missing_authenticated_user =
    codes "Your session is no longer valid. Please sign in again."
en_messages admin_access_required = codes "Admin access is required."
en_messages user_not_found = codes "The user could not be found."
en_messages tenant_not_found = codes "The tenant could not be found."
en_messages tenant_disabled = codes "This tenant has been disabled."
en_messages domain_not_found = codes "The domain could not be found."
en_messages endpoint_not_found = codes "The notification endpoint could not be found."
en_messages domain_already_exists = codes "This domain already exists."
en_messages hostname_required = codes "Hostname is required."
en_messages target_ip_invalid = codes "Pinned IP must be a valid IPv4 or IPv6 address."
en_messages port_out_of_range = codes "Port must be between 1 and 65535."
en_messages name_required = codes "Name is required."
en_messages invalid_endpoint_config = codes "The notification endpoint configuration is invalid."
en_messages telegram_not_configured = codes "Telegram bot token is not configured."
en_messages frontend_assets_unavailable = codes "Frontend assets are not available."
en_messages no_selected_user = codes "Select a user first."
en_messages bad_request = codes "The request is invalid."
en_messages unauthorized = codes "You are not authorized for this action."
en_messages forbidden = codes "You do not have permission for this action."
en_messages not_found = codes "The requested resource could not be found."
en_messages conflict = codes "The request conflicts with an existing resource."
en_messages server_error = codes "The server failed to process the request."

unfoldable pub de_messages : ApiErrorCode → Text
de_messages invalid_credentials = codes "Falscher Benutzername oder Passwort."
de_messages registration_disabled = codes "Die Registrierung ist derzeit deaktiviert."
de_messages email_not_verified = codes "Die Verifizierung von Email steht noch aus."
de_messages invalid_token = codes "Der Token ist ungültig."
de_messages token_expired = codes "Der Token ist abgelaufen."
de_messages resource_exists = codes "Die Ressource existiert bereits."
de_messages password_too_short = codes "Das Passwort muss mindestens 8 Zeichen lang sein."
de_messages username_too_short = codes "Der Benutzername muss mindestens 3 Zeichen lang sein."
de_messages username_too_long = codes "Der Benutzername darf höchstens 32 Zeichen lang sein."
de_messages username_invalid_chars =
    codes
      "Der Benutzername darf nur Buchstaben, Zahlen, Punkte, Unterstriche und Bindestriche enthalten."
de_messages invalid_request_body = codes "Der Anfragetext ist ungültig."
de_messages missing_refresh_cookie = codes "Das Aktualisierungscookie fehlt."
de_messages missing_bearer_token = codes "Das Zugriffstoken fehlt."
de_messages invalid_access_token = codes "Das Zugriffstoken ist ungültig."
de_messages missing_authenticated_user =
    codes "Ihre Sitzung ist nicht mehr gültig. Bitte melden Sie sich erneut an."
de_messages admin_access_required = codes "Administratorzugriff ist erforderlich."
de_messages user_not_found = codes "Der Benutzer konnte nicht gefunden werden."
de_messages tenant_not_found = codes "Der Mieter konnte nicht gefunden werden."
de_messages tenant_disabled = codes "Dieser Mieter wurde deaktiviert."
de_messages domain_not_found = codes "Die Domain konnte nicht gefunden werden."
de_messages endpoint_not_found = codes "Der Benachrichtigungsendpunkt konnte nicht gefunden werden."
de_messages domain_already_exists = codes "Diese Domain existiert bereits."
de_messages hostname_required = codes "Hostname ist erforderlich."
de_messages target_ip_invalid =
    codes "Die angeheftete IP muss eine gültige IPv4- oder IPv6-Adresse sein."
de_messages port_out_of_range = codes "Der Port muss zwischen 1 und 65535 liegen."
de_messages name_required = codes "Name ist erforderlich."
de_messages invalid_endpoint_config =
    codes "Die Konfiguration des Benachrichtigungsendpunkts ist ungültig."
de_messages telegram_not_configured = codes "Telegram Bot-Token ist nicht konfiguriert."
de_messages frontend_assets_unavailable = codes "Frontend Assets sind nicht verfügbar."
de_messages no_selected_user = codes "Wählen Sie zunächst einen Benutzer aus."
de_messages bad_request = codes "Die Anfrage ist ungültig."
de_messages unauthorized = codes "Sie sind für diese Aktion nicht berechtigt."
de_messages forbidden = codes "Sie haben keine Berechtigung für diese Aktion."
de_messages not_found = codes "Die angeforderte Ressource konnte nicht gefunden werden."
de_messages conflict = codes "Die Anfrage steht in Konflikt mit einer vorhandenen Ressource."
de_messages server_error = codes "Der Server konnte die Anfrage nicht verarbeiten."
