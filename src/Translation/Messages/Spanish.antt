-- ===== src/Translation/Messages/Spanish.antt =====
-- The entries of `messages["es"]` in apps/web/src/lib/i18n.tsx, in their order: the first half, and all.
mod Rest
use go_check_ssl.Prelude.{String, List, ◌∷◌, [], ◌++◌}
use go_check_ssl.Translation.Messages.Spanish.Rest.{es_rest}

unfoldable pub es_first : List (String × String)
es_first =
    ("common.loadingSession", "Cargando sesión…")
    ∷ ("common.loadingDomains", "Cargando dominios…")
    ∷ ("common.language", "Idioma")
    ∷ ("common.email", "Correo")
    ∷ ("common.password", "Contraseña")
    ∷ ("common.newPassword", "Nueva contraseña")
    ∷ ("common.logout", "Cerrar sesión")
    ∷ ("common.cancel", "Cancelar")
    ∷ ("common.hostname", "Hostname")
    ∷ ("common.port", "Puerto")
    ∷ ("common.status", "Estado")
    ∷ ("common.daysLeft", "Días restantes")
    ∷ ("common.actions", "Acciones")
    ∷ ("common.checkNow", "Comprobar ahora")
    ∷ ("common.edit", "Editar")
    ∷ ("common.delete", "Eliminar")
    ∷ ("common.name", "Nombre")
    ∷ ("common.type", "Tipo")
    ∷ ("common.enabled", "Habilitado")
    ∷ ("common.none", "—")
    ∷ ("common.targetIp", "IP fijada")
    ∷ ("common.resolvedIp", "IP resuelta")
    ∷ ("common.validFrom", "Válido desde")
    ∷ ("common.validTo", "Válido hasta")
    ∷ ("common.lastChecked", "Última comprobación")
    ∷ ("common.commonName", "Nombre común")
    ∷ ("common.issuer", "Emisor")
    ∷ ("common.subject", "Sujeto")
    ∷ ("common.serialNumber", "Número de serie")
    ∷ ("common.fingerprint", "Huella SHA-256")
    ∷ ("common.signatureAlgorithm", "Algoritmo de firma")
    ∷ ("common.san", "SAN")
    ∷ ("nav.domains", "Dominios")
    ∷ ("nav.notifications", "Notificaciones")
    ∷ ("nav.admin", "Admin")
    ∷ ("shell.title", "Monitoreo de certificados SSL")
    ∷ ("role.super_admin", "Superadministrador")
    ∷ ("role.tenant_owner", "Propietario del tenant")
    ∷ ("status.pending", "Pendiente")
    ∷ ("status.healthy", "Correcto")
    ∷ ("status.error", "Error")
    ∷ ("endpointType.email", "Correo")
    ∷ ("endpointType.telegram", "Telegram")
    ∷ ("endpointType.webhook", "Webhook")
    ∷ ("validation.hostnameRequired", "El hostname es obligatorio")
    ∷ ("validation.portInvalid", "El puerto debe ser un entero válido")
    ∷ ("validation.portRange", "El puerto debe estar entre 1 y 65535")
    ∷ ("validation.minInterval", "El intervalo mínimo es de 60 segundos")
    ∷ ("validation.nameRequired", "El nombre es obligatorio")
    ∷ ("validation.recipientEmailRequired", "El correo del destinatario es obligatorio")
    ∷ ("validation.telegramChatIdRequired", "El chat ID de Telegram es obligatorio")
    ∷ ("validation.webhookUrlRequired", "La URL del webhook es obligatoria")
    ∷ ("auth.signInTitle", "Iniciar sesión")
    ∷ (
      "auth.signInDescription",
      "Inicia sesión con tu nombre de usuario para gestionar el monitoreo SSL, las notificaciones y la configuración de administración.",
    )
    ∷ ("auth.signIn", "Iniciar sesión")
    ∷ ("auth.createAccount", "Crear cuenta")
    ∷ ("auth.forgotPasswordLink", "¿Olvidaste la contraseña?")
    ∷ ("auth.backToLogin", "Volver al inicio")
    ∷ ("auth.workspaceName", "Nombre del espacio")
    ∷ (
      "auth.createAccountDescription",
      "Crea una cuenta solo con nombre de usuario y contraseña. El correo puede vincularse más tarde desde el panel.",
    )
    ∷ ("auth.createAccountButton", "Crear cuenta")
    ∷ ("auth.alreadyHaveAccount", "¿Ya tienes una cuenta?")
    ∷ ("auth.registrationSuccess", "Registro completado. Ya puedes iniciar sesión.")
    ∷ ("auth.registrationFallbackError", "No se pudo registrar")
    ∷ ("auth.loginFallbackError", "No se pudo iniciar sesión")
    ∷ ("auth.forgotPasswordTitle", "Olvidé mi contraseña")
    ∷ (
      "auth.forgotPasswordDescription",
      "Introduce tu nombre de usuario o correo vinculado. Si la cuenta tiene un correo vinculado, enviaremos un enlace de restablecimiento.",
    )
    ∷ ("auth.usernameOrEmail", "Nombre de usuario o correo vinculado")
    ∷ (
      "auth.forgotPasswordSuccess",
      "Si la dirección existe, se ha enviado un enlace de restablecimiento.",
    )
    ∷ ("auth.sendResetLink", "Enviar enlace")
    ∷ ("auth.resetPasswordTitle", "Restablecer contraseña")
    ∷ ("auth.resetPasswordDescription", "Usa el token enviado a tu correo.")
    ∷ ("auth.resetPasswordButton", "Restablecer contraseña")
    ∷ ("auth.resetPasswordFallbackError", "No se pudo restablecer la contraseña")
    ∷ ("auth.missingResetToken", "Falta el token en la URL.")
    ∷ ("auth.verifyEmailTitle", "Verificar correo")
    ∷ (
      "auth.verifyEmailDescription",
      "Completa la verificación para habilitar el acceso de los propietarios de tenant.",
    )
    ∷ ("auth.verifyingEmail", "Verificando tu correo…")
    ∷ ("auth.verifyEmailSuccess", "Correo verificado correctamente. Ya puedes iniciar sesión.")
    ∷ ("auth.verifyEmailFallbackError", "No se pudo verificar el correo")
    ∷ ("auth.missingVerifyToken", "Falta el token de verificación.")
    ∷ ("auth.needNewAccount", "¿Necesitas una cuenta nueva?")
    ∷ ("auth.registerAgain", "Registrarse otra vez")
    ∷ ("domains.addTitle", "Agregar dominio")
    ∷ ("domains.editTitle", "Editar dominio")
    ∷ (
      "domains.formDescription",
      "Agrega hostnames TLS y define cada cuánto el worker pool volverá a comprobar los certificados.",
    )
    ∷ ("domains.addButton", "Agregar dominio")
    ∷ ("domains.saveButton", "Guardar cambios")
    ∷ ("domains.managedTitle", "Dominios gestionados")
    ∷ (
      "domains.managedDescription", "Supervisa estado, vencimiento y análisis manuales del tenant.",
    )
    ∷ ("domains.empty", "Aún no se han agregado dominios.")
    ∷ ("domains.hostnamePlaceholder", "example.com")
    ∷ ("domains.targetIpPlaceholder", "203.0.113.10")
    ∷ (
      "domains.targetIpHint",
      "Opcional. Si se establece, Certwarden se conecta a esta IP y sigue enviando el hostname como SNI. Déjalo vacío para usar DNS automáticamente.",
    )
    ∷ ("domains.autoResolve", "DNS automático")
    ∷ ("domains.checkIntervalLabel", "Intervalo de comprobación (segundos)")
    ∷ ("domains.portLabel", "Puerto {{port}}")
    ∷ ("domains.nextCheck", "Próxima comprobación")
    ∷ ("domains.lastSuccessful", "Última comprobación correcta")
    ∷ (
      "domains.noCertificateData",
      "Los detalles del certificado aparecerán tras la primera comprobación TLS correcta.",
    )
    ∷ ("domains.detectionNotes", "Ruta de detección")
    ∷ ("domains.targetIpSummary", "Ruta fijada: {{value}}")
    ∷ ("domains.resolvedIpSummary", "IP real de conexión: {{value}}")
    ∷ ("domains.noTenantDomains", "Este tenant aún no tiene dominios.")
    ∷ ("notifications.addEndpointTitle", "Agregar endpoint de notificación")
    ∷ ("notifications.editEndpointTitle", "Editar endpoint de notificación")
    ∷ (
      "notifications.endpointDescription",
      "Administra destinatarios por correo, chat IDs de Telegram y webhooks genéricos.",
    )
    ∷ ("notifications.endpointListTitle", "Endpoints de notificación")
    ∷ (
      "notifications.endpointListDescription",
      "Vincula estos endpoints a políticas predeterminadas o por dominio.",
    )
    ∷ ("notifications.noEndpoints", "Aún no hay endpoints configurados.")
    ∷ ("notifications.defaultPolicyTitle", "Política predeterminada del tenant")
    ∷ (
      "notifications.defaultPolicyDescription",
      "Se aplica a todos los dominios salvo que exista una anulación.",
    )
    ∷ ("notifications.overridePolicyTitle", "Política de anulación por dominio")
    ∷ (
      "notifications.overridePolicyDescription",
      "Anula umbrales y endpoints para un único dominio.",
    )
    ∷ ("notifications.selectDomain", "Selecciona un dominio")
    ∷ ("notifications.chooseDomainToEdit", "Elige un dominio para editar su anulación.")
    ∷ ("notifications.saveDefaultPolicy", "Guardar política predeterminada")
    ∷ ("notifications.saveDomainPolicy", "Guardar política del dominio")
    ∷ ("notifications.saveEndpoint", "Guardar endpoint")
    ∷ ("notifications.addEndpoint", "Agregar endpoint")
    ∷ []

unfoldable pub es_dictionary : List (String × String)
unfolding es_first es_rest
es_dictionary = es_first ++ es_rest
