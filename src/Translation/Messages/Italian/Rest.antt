-- ===== src/Translation/Messages/Italian/Rest.antt =====
-- The entries of `messages["it"]` in apps/web/src/lib/i18n.tsx, the second half.
use go_check_ssl.Prelude.{String, List, ◌∷◌, []}

unfoldable pub it_rest : List (String × String)
it_rest =
    ("notifications.overridePolicyTitle", "Politica di sostituzione del dominio")
    ∷ ("domains.noTenantDomains", "Nessun dominio tenant ancora.")
    ∷ ("notifications.editEndpointTitle", "Modifica endpoint di notifica")
    ∷ ("domains.resolvedIpSummary", "IP di connessione osservato: {{value}}")
    ∷ (
      "notifications.defaultPolicyDescription",
      "Applicato a tutti i domini a meno che non esista una sostituzione del dominio.",
    )
    ∷ (
      "notifications.chooseDomainToEdit",
      "Scegli un dominio per modificare la sua politica di sostituzione.",
    )
    ∷ ("notifications.noEndpoints", "Nessun endpoint ancora configurato.")
    ∷ ("notifications.defaultPolicyTitle", "Criterio tenant predefinito")
    ∷ ("notifications.saveDomainPolicy", "Salva la policy del dominio")
    ∷ ("notifications.saveEndpoint", "Salva punto finale")
    ∷ ("notifications.selectDomain", "Seleziona un dominio")
    ∷ ("notifications.addEndpoint", "Aggiungi punto finale")
    ∷ ("notifications.primaryEmailPlaceholder", "destinatario@esempio.com")
    ∷ (
      "notifications.overridePolicyDescription",
      "Sostituisci soglie e associazioni di endpoint per un singolo dominio.",
    )
    ∷ ("notifications.webhookUrlPlaceholder", "https://example.com/webhook")
    ∷ ("notifications.telegramChatPlaceholder", "123456789")
    ∷ ("notifications.authHeaderValuePlaceholder", "segreto")
    ∷ ("notifications.saveDefaultPolicy", "Salva la policy predefinita")
    ∷ ("notifications.webhookUrlLabel", "Webhook URL")
    ∷ ("notifications.authHeaderName", "Nome dell'intestazione di autenticazione")
    ∷ ("notifications.authHeaderValue", "Valore dell'intestazione di autenticazione")
    ∷ ("notifications.telegramChatIdLabel", "Telegram chatta ID")
    ∷ ("settings.title", "Impostazioni dell'account")
    ∷ (
      "settings.description",
      "Gestisci il tuo nome utente e associa un indirizzo email opzionale per le notifiche o il recupero della password.",
    )
    ∷ ("notifications.recipientEmailLabel", "E-mail del destinatario")
    ∷ ("notifications.thresholdsLabel", "Soglie (giorni, separati da virgole)")
    ∷ ("notifications.currentThresholdInput", "Ingresso corrente: {{value}}")
    ∷ ("notifications.channels", "Canali")
    ∷ ("notifications.authHeaderNamePlaceholder", "X-Webhook-Token")
    ∷ ("settings.publicPageTitle", "Pagina di stato pubblica")
    ∷ ("notifications.thresholdsPlaceholder", "30, 7, 1")
    ∷ ("settings.optionalEmailPlaceholder", "nome@esempio.com")
    ∷ (
      "settings.publicPageSubtitleHint",
      "Lascia vuoto questo campo per mostrare la copia descrittiva predefinita.",
    )
    ∷ (
      "settings.publicPageDescription",
      "Personalizza il titolo, il sottotitolo e la copia rivolta verso l'esterno della tua pagina di stato pubblica.",
    )
    ∷ (
      "settings.publicPageTitleHint",
      "Lascia vuoto questo campo per utilizzare il tuo nome workspace attuale.",
    )
    ∷ (
      "settings.publicPageSubtitlePlaceholder",
      "Esempio: panoramica in tempo reale sullo stato e sulla scadenza del SSL",
    )
    ∷ (
      "settings.emailHint",
      "Questa email è facoltativa. Puoi usarlo per le notifiche e il recupero della password in un secondo momento.",
    )
    ∷ ("settings.publicPagePreview", "Anteprima")
    ∷ ("settings.publicPageTitleLabel", "Titolo della pagina pubblica")
    ∷ ("settings.openPublicPage", "Apri la pagina pubblica")
    ∷ ("settings.noEmailBound", "Nessun vincolo e-mail")
    ∷ ("settings.publicPageSubtitleLabel", "Sottotitolo della pagina pubblica")
    ∷ ("settings.publicPageTitlePlaceholder", "Esempio: Stato produzione SSL")
    ∷ ("dashboard.publicPageTitle", "Pagina di stato pubblica")
    ∷ ("settings.publicPageUrlLabel", "Pagina pubblica URL")
    ∷ ("dashboard.loadingOverview", "Caricamento panoramica del monitoraggio…")
    ∷ ("settings.saveSuccess", "Impostazioni dell'account aggiornate.")
    ∷ ("settings.saveError", "Impossibile aggiornare le impostazioni dell'account")
    ∷ ("dashboard.openPublicPage", "Apri la pagina pubblica")
    ∷ ("dashboard.overallStatus", "Stato generale")
    ∷ ("admin.platformSettingsTitle", "Impostazioni della piattaforma")
    ∷ ("dashboard.publicUrl", "Pubblico URL")
    ∷ ("dashboard.customizePublicPage", "Personalizza la pagina pubblica")
    ∷ ("dashboard.overviewTitle", "Panoramica del monitoraggio")
    ∷ ("admin.registrationTitle", "Registrazione")
    ∷ (
      "dashboard.publicPageDescription",
      "Esponi pubblicamente lo stato attuale del tuo certificato e visualizzalo con un clic.",
    )
    ∷ (
      "dashboard.overviewDescription",
      "Visualizza lo stato dei certificati, il conteggio dei problemi e la prossima scadenza da un'unica posizione.",
    )
    ∷ ("dashboard.currentHeadline", "Titolo attuale")
    ∷ (
      "admin.tenantsDescription",
      "Esamina lo stato tenant in una tabella scalabile, quindi apri un workspace per disabilitare l'accesso, reimpostare le password o eliminare tenant.",
    )
    ∷ ("admin.tenantsTitle", "Inquilini")
    ∷ ("admin.registrationDisabledDescription", "La registrazione è attualmente disabilitata.")
    ∷ ("admin.registrationEnabledDescription", "I nuovi utenti possono creare account.")
    ∷ ("admin.disableRegistration", "Disabilita la registrazione")
    ∷ ("admin.selectedWorkspaceTitle", "Selezionato workspace")
    ∷ (
      "admin.platformSettingsDescription",
      "Controlla la registrazione self-service e gestisci tenant workspaces.",
    )
    ∷ ("admin.enableRegistration", "Abilita la registrazione")
    ∷ ("admin.editTenantDomainTitle", "Modifica dominio")
    ∷ ("admin.searchLabel", "Cerca tenant")
    ∷ ("admin.tenantDomainsTitle", "Domini inquilini")
    ∷ ("admin.selectedWorkspaceDescription", "{{email}} · {{tenant}}")
    ∷ ("admin.tenantDomainMeta", "Stato: {{status}} · Giorni: {{days}}")
    ∷ ("admin.createTenantDomainTitle", "Crea dominio per tenant")
    ∷ ("admin.searchPlaceholder", "Cerca per workspace, nome utente, email o ID")
    ∷ ("admin.saveEndpoint", "Salva punto finale")
    ∷ ("admin.tenantPoliciesTitle", "Politiche degli inquilini")
    ∷ ("admin.saveOverridePolicy", "Salva criterio di sostituzione")
    ∷ ("admin.createEndpointTitle", "Crea punto finale")
    ∷ ("admin.editEndpointTitle", "Modifica punto finale")
    ∷ ("admin.tenantEndpointsTitle", "Endpoint del tenant")
    ∷ ("admin.activeBadge", "Attivo")
    ∷ ("admin.disabledBadge", "Disabilitato")
    ∷ ("admin.domainCountLabel", "Domini")
    ∷ ("admin.healthyCountLabel", "Salutare")
    ∷ ("admin.pendingCountLabel", "In attesa di")
    ∷ ("admin.manageTenant", "Gestisci")
    ∷ ("admin.saveDomain", "Salva dominio")
    ∷ (
      "admin.selectDomainForOverride",
      "Seleziona un dominio qui sopra per gestirne la politica di sostituzione.",
    )
    ∷ ("admin.selectDomainOverride", "Seleziona una sostituzione del dominio")
    ∷ ("admin.addEndpoint", "Aggiungi punto finale")
    ∷ ("admin.publicStatusPage", "Pagina di stato pubblica")
    ∷ ("admin.errorCountLabel", "Errori")
    ∷ ("admin.noTenantMatches", "Nessun tenant corrisponde alla ricerca corrente.")
    ∷ ("admin.noTenants", "Nessun tenant workspace disponibile.")
    ∷ ("admin.tenantDetailDescription", "Locatario ID #{{tenantId}}")
    ∷ (
      "admin.resetPasswordDescription",
      "Ciò aggiorna la password del proprietario tenant e revoca le sessioni esistenti.",
    )
    ∷ ("admin.enableTenant", "Abilita tenant")
    ∷ ("admin.deleteTenant", "Elimina tenant")
    ∷ ("admin.tenantAccessTitle", "Controllo degli accessi degli inquilini")
    ∷ ("admin.resetPasswordTitle", "Reimposta la password tenant")
    ∷ ("admin.disableTenant", "Disattiva tenant")
    ∷ (
      "admin.tenantAccessDescription",
      "Disabilita immediatamente l'accesso, rimuovi tenant o ruota la password del proprietario tenant.",
    )
    ∷ ("admin.tenantDisabledSuccess", "L'inquilino è stato disabilitato.")
    ∷ ("admin.tenantEnabledSuccess", "L'inquilino è stato abilitato.")
    ∷ ("admin.updateTenantPassword", "Aggiorna la password tenant")
    ∷ ("admin.tenantDeletedSuccess", "L'inquilino è stato eliminato.")
    ∷ ("admin.passwordUpdateError", "Impossibile aggiornare la password tenant.")
    ∷ ("admin.passwordUpdatedSuccess", "La password dell'inquilino è stata aggiornata.")
    ∷ ("admin.tenantDeleteError", "Impossibile eliminare tenant.")
    ∷ ("admin.tenantStatusError", "Impossibile aggiornare lo stato tenant.")
    ∷ ("statusPage.signIn", "Registrazione")
    ∷ ("statusPage.healthyMonitors", "Salutare")
    ∷ ("statusPage.totalMonitors", "Domini")
    ∷ ("statusPage.pendingMonitors", "In attesa di")
    ∷ (
      "statusPage.subtitleFallback",
      "Panoramica in tempo reale sullo stato e sulla scadenza del certificato SSL.",
    )
    ∷ (
      "statusPage.subtitle",
      "Panoramica in tempo reale sullo stato e sulla scadenza del certificato SSL.",
    )
    ∷ (
      "admin.selectTenantPrompt",
      "Seleziona un tenant per gestirne l'accesso e la pagina di stato pubblico.",
    )
    ∷ ("statusPage.nextExpiry", "Prossima scadenza")
    ∷ ("statusPage.domainOverview", "Monitoraggio dei certificati")
    ∷ ("statusPage.titleFallback", "Stato del certificato")
    ∷ ("statusPage.empty", "Nessun monitor pubblico disponibile per questo tenant.")
    ∷ []
