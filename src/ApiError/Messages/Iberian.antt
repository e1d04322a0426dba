-- ===== src/ApiError/Messages/Iberian.antt =====
-- The texts of `localizedMessages` in apps/web/src/lib/api-error.ts: es, pt.
use go_check_ssl.Prelude.Text.{Text, codes}
use go_check_ssl.ApiError.Codes.{
  ApiErrorCode, invalid_credentials, registration_disabled, email_not_verified, invalid_token,
  token_expired, resource_exists, password_too_short, username_too_short, username_too_long,
  username_invalid_chars, invalid_request_body, missing_refresh_cookie, missing_bearer_token,
  invalid_access_token, missing_authenticated_user, admin_access_required, user_not_found,
  tenant_not_found, tenant_disabled, domain_not_found, endpoint_not_found, domain_already_exists,
  hostname_required, target_ip_invalid, port_out_of_range, name_required, invalid_endpoint_config,
  telegram_not_configured, frontend_assets_unavailable, no_selected_user, bad_request, unauthorized,
  forbidden, not_found, conflict, server_error,
}

unfoldable pub es_messages : ApiErrorCode → Text
es_messages invalid_credentials = codes "Nombre de usuario o contraseña incorrectos."
es_messages registration_disabled = codes "El registro está deshabilitado actualmente."
es_messages email_not_verified = codes "El correo electrónico aún no está verificado."
es_messages invalid_token = codes "El token no es válido."
es_messages token_expired = codes "El token ha expirado."
es_messages resource_exists = codes "El recurso ya existe."
es_messages password_too_short = codes "La contraseña debe tener al menos 8 caracteres."
es_messages username_too_short = codes "El nombre de usuario debe tener al menos 3 caracteres."
es_messages username_too_long = codes "El nombre de usuario debe tener como máximo 32 caracteres."
es_messages username_invalid_chars =
    codes
      "El nombre de usuario solo puede contener letras, números, puntos, guiones bajos y guiones."
es_messages invalid_request_body = codes "El contenido de la solicitud no es válido."
es_messages missing_refresh_cookie = codes "Falta la cookie de actualización de sesión."
es_messages missing_bearer_token = codes "Falta el token de acceso."
es_messages invalid_access_token = codes "El token de acceso no es válido."
es_messages missing_authenticated_user = codes "La sesión ya no es válida. Inicia sesión de nuevo."
es_messages admin_access_required = codes "Se requiere acceso de administrador."
es_messages user_not_found = codes "No se encontró el usuario."
es_messages tenant_not_found = codes "No se encontró el tenant."
es_messages tenant_disabled = codes "Este tenant está deshabilitado."
es_messages domain_not_found = codes "No se encontró el dominio."
es_messages endpoint_not_found = codes "No se encontró el endpoint de notificación."
es_messages domain_already_exists = codes "Este dominio ya existe."
es_messages hostname_required = codes "El hostname es obligatorio."
es_messages target_ip_invalid = codes "La IP fijada debe ser una dirección IPv4 o IPv6 válida."
es_messages port_out_of_range = codes "El puerto debe estar entre 1 y 65535."
es_messages name_required = codes "El nombre es obligatorio."
es_messages invalid_endpoint_config =
    codes "La configuración del endpoint de notificación no es válida."
es_messages telegram_not_configured = codes "El token del bot de Telegram no está configurado."
es_messages frontend_assets_unavailable = codes "Los recursos del frontend no están disponibles."
es_messages no_selected_user = codes "Selecciona primero un usuario."
es_messages bad_request = codes "La solicitud no es válida."
es_messages unauthorized = codes "No estás autorizado para esta acción."
es_messages forbidden = codes "No tienes permiso para realizar esta acción."
es_messages not_found = codes "No se encontró el recurso solicitado."
es_messages conflict = codes "La solicitud entra en conflicto con un recurso existente."
es_messages server_error = codes "El servidor no pudo procesar la solicitud."

unfoldable pub pt_messages : ApiErrorCode → Text
pt_messages invalid_credentials = codes "Nome de usuário ou senha incorretos."
pt_messages registration_disabled = codes "O registro está desativado no momento."
pt_messages email_not_verified = codes "A verificação de Email ainda está pendente."
pt_messages invalid_token = codes "O token é inválido."
pt_messages token_expired = codes "O token expirou."
pt_messages resource_exists = codes "O recurso já existe."
pt_messages password_too_short = codes "A senha deve ter pelo menos 8 caracteres."
pt_messages username_too_short = codes "O nome de usuário deve ter pelo menos 3 caracteres."
pt_messages username_too_long = codes "O nome de usuário deve ter no máximo 32 caracteres."
pt_messages username_invalid_chars =
    codes "O nome de usuário pode conter apenas letras, números, pontos, sublinhados e travessões."
pt_messages invalid_request_body = codes "O corpo da solicitação é inválido."
pt_messages missing_refresh_cookie = codes "O cookie de atualização está faltando."
pt_messages missing_bearer_token = codes "O token de acesso está faltando."
pt_messages invalid_access_token = codes "O token de acesso é inválido."
pt_messages missing_authenticated_user = codes "Sua sessão não é mais válida. Faça login novamente."
pt_messages admin_access_required = codes "É necessário acesso de administrador."
pt_messages user_not_found = codes "O usuário não foi encontrado."
pt_messages tenant_not_found = codes "O inquilino não foi encontrado."
pt_messages tenant_disabled = codes "Este inquilino foi desativado."
pt_messages domain_not_found = codes "O domínio não foi encontrado."
pt_messages endpoint_not_found = codes "O endpoint de notificação não pôde ser encontrado."
pt_messages domain_already_exists = codes "Este domínio já existe."
pt_messages hostname_required = codes "O nome do host é obrigatório."
pt_messages target_ip_invalid = codes "O IP fixado deve ser um endereço IPv4 ou IPv6 válido."
pt_messages port_out_of_range = codes "A porta deve estar entre 1 e 65535."
pt_messages name_required = codes "O nome é obrigatório."
pt_messages invalid_endpoint_config = codes "A configuração do terminal de notificação é inválida."
pt_messages telegram_not_configured = codes "O token do bot Telegram não está configurado."
pt_messages frontend_assets_unavailable = codes "Frontend ativos não estão disponíveis."
pt_messages no_selected_user = codes "Selecione um usuário primeiro."
pt_messages bad_request = codes "A solicitação é inválida."
pt_messages unauthorized = codes "Você não está autorizado para esta ação."
pt_messages forbidden = codes "Você não tem permissão para esta ação."
pt_messages not_found = codes "O recurso solicitado não foi encontrado."
pt_messages conflict = codes "A solicitação entra em conflito com um recurso existente."
pt_messages server_error = codes "O servidor não conseguiu processar a solicitação."
