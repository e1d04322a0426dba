-- ===== src/Translation/Messages/Spanish/Rest.antt =====
-- The entries of `messages["es"]` in apps/web/src/lib/i18n.tsx, the second half.
use go_check_ssl.Prelude.{String, List, ◌∷◌, []}

unfoldable pub es_rest : List (String × String)
es_rest =
    ("notifications.recipientEmailLabel", "Correo del destinatario")
    ∷ ("notifications.telegramChatIdLabel", "Chat ID de Telegram")
    ∷ ("notifications.webhookUrlLabel", "URL del webhook")
    ∷ ("notifications.authHeaderName", "Nombre del header de autenticación")
    ∷ ("notifications.authHeaderValue", "Valor del header de autenticación")
    ∷ ("notifications.primaryEmailPlaceholder", "recipient@example.com")
    ∷ ("notifications.telegramChatPlaceholder", "123456789")
    ∷ ("notifications.webhookUrlPlaceholder", "https://example.com/webhook")
    ∷ ("notifications.authHeaderNamePlaceholder", "X-Webhook-Token")
    ∷ ("notifications.authHeaderValuePlaceholder", "secret")
    ∷ ("notifications.thresholdsLabel", "Umbrales (días, separados por comas)")
    ∷ ("notifications.thresholdsPlaceholder", "30, 7, 1")
    ∷ ("notifications.currentThresholdInput", "Entrada actual: {{value}}")
    ∷ ("notifications.channels", "Canales")
    ∷ ("admin.platformSettingsTitle", "Configuración de la plataforma")
    ∷ (
      "admin.platformSettingsDescription",
      "Controla el registro de autoservicio y administra los espacios de tenant.",
    )
    ∷ ("admin.registrationTitle", "Registro")
    ∷ ("admin.registrationEnabledDescription", "Los nuevos usuarios pueden crear cuentas.")
    ∷ ("admin.registrationDisabledDescription", "El registro está deshabilitado actualmente.")
    ∷ ("admin.disableRegistration", "Deshabilitar registro")
    ∷ ("admin.enableRegistration", "Habilitar registro")
    ∷ ("admin.tenantsTitle", "Tenants")
    ∷ (
      "admin.tenantsDescription",
      "Revisa el estado de los tenants en una tabla escalable y abre cada espacio para deshabilitarlo, borrar el tenant o actualizar su contraseña.",
    )
    ∷ ("admin.selectedWorkspaceTitle", "Espacio seleccionado")
    ∷ ("admin.selectedWorkspaceDescription", "{{email}} · {{tenant}}")
    ∷ ("admin.createTenantDomainTitle", "Crear dominio para el tenant")
    ∷ ("admin.editTenantDomainTitle", "Editar dominio")
    ∷ ("admin.tenantDomainsTitle", "Dominios del tenant")
    ∷ ("admin.tenantDomainMeta", "Estado: {{status}} · Días: {{days}}")
    ∷ ("admin.createEndpointTitle", "Crear endpoint")
    ∷ ("admin.editEndpointTitle", "Editar endpoint")
    ∷ ("admin.tenantEndpointsTitle", "Endpoints del tenant")
    ∷ ("admin.tenantPoliciesTitle", "Políticas del tenant")
    ∷ ("admin.saveDomain", "Guardar dominio")
    ∷ ("admin.saveEndpoint", "Guardar endpoint")
    ∷ ("admin.addEndpoint", "Agregar endpoint")
    ∷ ("admin.selectDomainOverride", "Selecciona una anulación de dominio")
    ∷ ("admin.saveOverridePolicy", "Guardar anulación")
    ∷ (
      "admin.selectDomainForOverride",
      "Selecciona un dominio arriba para gestionar su política de anulación.",
    )
    ∷ ("common.username", "Nombre de usuario")
    ∷ ("common.save", "Guardar")
    ∷ ("common.expand", "Expandir")
    ∷ ("common.collapse", "Contraer")
    ∷ ("nav.settings", "Cuenta")
    ∷ ("nav.backToWorkspace", "Espacio")
    ∷ ("shell.adminTitle", "Centro de control de tenants")
    ∷ ("domains.intervalPresetLabel", "Cadencia de comprobación")
    ∷ (
      "domains.intervalPresetHint",
      "Elige una cadencia en días o cambia a un intervalo personalizado en segundos.",
    )
    ∷ ("domains.intervalPresetDays", "Cada {{days}} días")
    ∷ ("domains.intervalCustomOption", "Segundos personalizados")
    ∷ ("domains.customIntervalLabel", "Intervalo personalizado (segundos)")
    ∷ (
      "domains.customIntervalHint",
      "Si introduces un valor aquí, sustituirá la cadencia predefinida.",
    )
    ∷ ("domains.checkIntervalCompact", "Cadencia")
    ∷ ("settings.title", "Configuración de la cuenta")
    ∷ (
      "settings.description",
      "Gestiona tu nombre de usuario y vincula opcionalmente un correo para notificaciones o recuperación de contraseña.",
    )
    ∷ ("settings.optionalEmailPlaceholder", "name@example.com")
    ∷ (
      "settings.emailHint",
      "El correo es opcional. Más tarde puedes usarlo para notificaciones y recuperación de contraseña.",
    )
    ∷ ("settings.publicPageTitle", "Página pública de estado")
    ∷ (
      "settings.publicPageDescription",
      "Personaliza el título, subtítulo y texto visible de la página pública de estado.",
    )
    ∷ ("settings.publicPageTitleLabel", "Título público")
    ∷ ("settings.publicPageTitlePlaceholder", "Ej.: Production SSL Status")
    ∷ (
      "settings.publicPageTitleHint", "Si lo dejas vacío, se usará el nombre actual del workspace.",
    )
    ∷ ("settings.publicPageSubtitleLabel", "Subtítulo público")
    ∷ (
      "settings.publicPageSubtitlePlaceholder",
      "Ej.: Vista en tiempo real del estado SSL y vencimientos",
    )
    ∷ (
      "settings.publicPageSubtitleHint",
      "Si lo dejas vacío, se mostrará el texto descriptivo por defecto.",
    )
    ∷ ("settings.publicPageUrlLabel", "URL pública")
    ∷ ("settings.publicPagePreview", "Vista previa")
    ∷ ("settings.openPublicPage", "Abrir página pública")
    ∷ ("settings.saveSuccess", "La configuración de la cuenta se ha actualizado.")
    ∷ ("settings.saveError", "No se pudo actualizar la configuración de la cuenta.")
    ∷ ("settings.noEmailBound", "Sin correo vinculado")
    ∷ ("dashboard.overviewTitle", "Resumen de monitoreo")
    ∷ (
      "dashboard.overviewDescription",
      "Consulta el estado actual de los certificados, las incidencias y el próximo vencimiento.",
    )
    ∷ ("dashboard.loadingOverview", "Cargando resumen…")
    ∷ ("dashboard.overallStatus", "Estado general")
    ∷ ("dashboard.publicPageTitle", "Página pública de estado")
    ∷ (
      "dashboard.publicPageDescription",
      "Muestra el estado público del tenant y ábrelo con un clic.",
    )
    ∷ ("dashboard.currentHeadline", "Título actual")
    ∷ ("dashboard.publicUrl", "URL pública")
    ∷ ("dashboard.openPublicPage", "Abrir página pública")
    ∷ ("dashboard.customizePublicPage", "Personalizar página pública")
    ∷ ("admin.activeBadge", "Activo")
    ∷ ("admin.disabledBadge", "Deshabilitado")
    ∷ ("admin.domainCountLabel", "Dominios")
    ∷ ("admin.healthyCountLabel", "Correctos")
    ∷ ("admin.pendingCountLabel", "Pendientes")
    ∷ ("admin.errorCountLabel", "Errores")
    ∷ ("admin.searchLabel", "Buscar tenant")
    ∷ ("admin.searchPlaceholder", "Busca por workspace, usuario, correo o ID")
    ∷ ("admin.manageTenant", "Gestionar")
    ∷ ("admin.noTenants", "No hay espacios de tenant disponibles.")
    ∷ ("admin.noTenantMatches", "No hay tenants que coincidan con la búsqueda actual.")
    ∷ ("admin.tenantDetailDescription", "Tenant ID #{{tenantId}}")
    ∷ ("admin.publicStatusPage", "Página pública de estado")
    ∷ ("admin.tenantAccessTitle", "Control de acceso del tenant")
    ∷ (
      "admin.tenantAccessDescription",
      "Deshabilita el acceso de inmediato, elimina el tenant o cambia la contraseña del propietario.",
    )
    ∷ ("admin.enableTenant", "Habilitar tenant")
    ∷ ("admin.disableTenant", "Deshabilitar tenant")
    ∷ ("admin.deleteTenant", "Eliminar tenant")
    ∷ ("admin.resetPasswordTitle", "Restablecer contraseña del tenant")
    ∷ (
      "admin.resetPasswordDescription",
      "Actualiza la contraseña del propietario del tenant y revoca las sesiones existentes.",
    )
    ∷ ("admin.updateTenantPassword", "Actualizar contraseña")
    ∷ ("admin.tenantDisabledSuccess", "El tenant ha sido deshabilitado.")
    ∷ ("admin.tenantEnabledSuccess", "El tenant ha sido habilitado.")
    ∷ ("admin.tenantDeletedSuccess", "El tenant ha sido eliminado.")
    ∷ ("admin.passwordUpdatedSuccess", "La contraseña del tenant ha sido actualizada.")
    ∷ ("admin.passwordUpdateError", "No se pudo actualizar la contraseña del tenant.")
    ∷ ("admin.tenantStatusError", "No se pudo actualizar el estado del tenant.")
    ∷ ("admin.tenantDeleteError", "No se pudo eliminar el tenant.")
    ∷ (
      "admin.selectTenantPrompt",
      "Selecciona un tenant para gestionar su acceso y su página pública de estado.",
    )
    ∷ ("statusPage.titleFallback", "Estado de certificados")
    ∷ ("statusPage.subtitle", "Vista en tiempo real del estado SSL y de las fechas de vencimiento.")
    ∷ (
      "statusPage.subtitleFallback",
      "Vista en tiempo real del estado SSL y de las fechas de vencimiento.",
    )
    ∷ ("statusPage.signIn", "Iniciar sesión")
    ∷ ("statusPage.totalMonitors", "Dominios")
    ∷ ("statusPage.healthyMonitors", "Correctos")
    ∷ ("statusPage.pendingMonitors", "Pendientes")
    ∷ ("statusPage.nextExpiry", "Próximo vencimiento")
    ∷ ("statusPage.domainOverview", "Monitores de certificados")
    ∷ ("statusPage.empty", "No hay monitores públicos disponibles para este tenant.")
    ∷ []
