-- ===== src/Translation/Messages/Italian.antt =====
-- The entries of `messages["it"]` in apps/web/src/lib/i18n.tsx, in their order: the first half, and all.
mod Rest
use go_check_ssl.Prelude.{String, List, ◌∷◌, [], ◌++◌}
use go_check_ssl.Translation.Messages.Italian.Rest.{it_rest}

unfoldable pub it_first : List (String × String)
it_first =
    ("common.language", "Lingua")
    ∷ ("common.email", "Email")
    ∷ ("common.logout", "Esci")
    ∷ ("common.password", "Password")
    ∷ ("common.username", "Nome utente")
    ∷ ("common.port", "Porta")
    ∷ ("common.cancel", "Cancellare")
    ∷ ("common.status", "Stato")
    ∷ ("common.checkNow", "Controlla ora")
    ∷ ("common.edit", "Modifica")
    ∷ ("common.actions", "Azioni")
    ∷ ("common.delete", "Elimina")
    ∷ ("common.save", "Salva")
    ∷ ("common.expand", "Espandi")
    ∷ ("common.name", "Nome")
    ∷ ("common.type", "Tipo")
    ∷ ("common.collapse", "Comprimi")
    ∷ ("common.enabled", "Abilitato")
    ∷ ("common.none", "—")
    ∷ ("common.hostname", "Nome host")
    ∷ ("common.daysLeft", "Giorni rimasti")
    ∷ ("common.targetIp", "IP fisso")
    ∷ ("common.resolvedIp", "IP risolto")
    ∷ ("common.issuer", "Emittente")
    ∷ ("common.subject", "Soggetto")
    ∷ ("common.loadingDomains", "Caricamento domini…")
    ∷ ("common.validTo", "Valido fino al")
    ∷ ("common.validFrom", "Valido dal")
    ∷ ("common.newPassword", "Nuova password")
    ∷ ("common.loadingSession", "Caricamento sessione...")
    ∷ ("common.san", "SANs")
    ∷ ("nav.settings", "Account")
    ∷ ("nav.admin", "Ammin")
    ∷ ("nav.notifications", "Notifiche")
    ∷ ("nav.backToWorkspace", "Workspace")
    ∷ ("common.signatureAlgorithm", "Algoritmo di firma")
    ∷ ("common.serialNumber", "Numero di serie")
    ∷ ("common.commonName", "Nome comune")
    ∷ ("common.lastChecked", "Ultimo controllo")
    ∷ ("nav.domains", "Domini")
    ∷ ("common.fingerprint", "SHA-256 Impronta digitale")
    ∷ ("status.pending", "In attesa")
    ∷ ("status.healthy", "Sano")
    ∷ ("status.error", "Errore")
    ∷ ("endpointType.email", "Email")
    ∷ ("endpointType.telegram", "Telegram")
    ∷ ("endpointType.webhook", "Webhook")
    ∷ ("shell.title", "Monitoraggio certificati SSL")
    ∷ ("validation.portInvalid", "La porta deve essere un numero intero valido")
    ∷ ("validation.nameRequired", "Il nome è obbligatorio")
    ∷ ("shell.adminTitle", "Centro di controllo tenant")
    ∷ ("validation.hostnameRequired", "Il nome host è obbligatorio")
    ∷ ("role.tenant_owner", "Proprietario del tenant")
    ∷ ("role.super_admin", "Super amministratore")
    ∷ ("auth.signIn", "Registrazione")
    ∷ ("validation.recipientEmailRequired", "L'e-mail del destinatario è obbligatoria")
    ∷ ("auth.signInTitle", "Registrazione")
    ∷ ("validation.portRange", "La porta deve essere compresa tra 1 e 65535")
    ∷ ("validation.telegramChatIdRequired", "Telegramchat ID è obbligatoria")
    ∷ ("validation.webhookUrlRequired", "Webhook URL è obbligatorio")
    ∷ ("validation.minInterval", "L'intervallo minimo è 60 secondi")
    ∷ ("auth.createAccount", "Creare un account")
    ∷ ("auth.forgotPasswordLink", "Ha dimenticato la password?")
    ∷ ("auth.createAccountButton", "Creare un account")
    ∷ (
      "auth.signInDescription",
      "Accedi con il tuo nome utente per gestire il monitoraggio SSL, le notifiche e le impostazioni di amministrazione.",
    )
    ∷ ("auth.forgotPasswordTitle", "Ha dimenticato la password")
    ∷ ("auth.workspaceName", "Workspace nome")
    ∷ ("auth.loginFallbackError", "Impossibile accedere")
    ∷ ("auth.registrationSuccess", "Registrazione riuscita. Puoi accedere adesso.")
    ∷ ("auth.alreadyHaveAccount", "Hai già un account?")
    ∷ ("auth.backToLogin", "Torna al login")
    ∷ ("auth.sendResetLink", "Invia collegamento di reimpostazione")
    ∷ ("auth.registrationFallbackError", "Impossibile registrarsi")
    ∷ (
      "auth.createAccountDescription",
      "Crea un account con solo un nome utente e una password. Email può essere associato in seguito dalla dashboard.",
    )
    ∷ (
      "auth.forgotPasswordDescription",
      "Inserisci il tuo nome utente o l'indirizzo email associato. Se esiste un'e-mail associata, invieremo un collegamento di reimpostazione.",
    )
    ∷ (
      "auth.forgotPasswordSuccess",
      "Se l'indirizzo esiste, è stato inviato un collegamento di ripristino.",
    )
    ∷ ("auth.usernameOrEmail", "Nome utente o email associata")
    ∷ ("auth.resetPasswordFallbackError", "Impossibile reimpostare la password")
    ∷ ("auth.resetPasswordTitle", "Reimposta la password")
    ∷ ("auth.verifyEmailTitle", "Verifica l'e-mail")
    ∷ ("auth.verifyingEmail", "Verifica della tua email...")
    ∷ ("auth.resetPasswordDescription", "Utilizza il token di ripristino inviato alla tua email.")
    ∷ ("auth.resetPasswordButton", "Reimposta la password")
    ∷ ("auth.missingResetToken", "Token mancante in URL.")
    ∷ (
      "auth.verifyEmailDescription",
      "Completa la verifica email per sbloccare l'accesso per gli account del proprietario tenant.",
    )
    ∷ ("auth.needNewAccount", "Hai bisogno di un nuovo account?")
    ∷ ("domains.addTitle", "Aggiungi dominio")
    ∷ ("domains.addButton", "Aggiungi dominio")
    ∷ ("domains.saveButton", "Salva modifiche")
    ∷ ("domains.editTitle", "Modifica dominio")
    ∷ (
      "domains.formDescription",
      "Aggiungi nomi host TLS e imposta la frequenza con cui il pool di nodi di lavoro deve ricontrollare i certificati.",
    )
    ∷ ("auth.verifyEmailFallbackError", "Impossibile verificare l'e-mail")
    ∷ ("auth.registerAgain", "Registrati di nuovo")
    ∷ ("domains.hostnamePlaceholder", "esempio.com")
    ∷ ("auth.missingVerifyToken", "Token di verifica mancante.")
    ∷ ("auth.verifyEmailSuccess", "Email verificato correttamente. Ora puoi accedere.")
    ∷ (
      "domains.targetIpHint",
      "Opzionale. Se impostato, Certwarden si connette a questo IP e invia comunque il nome host come SNI. Lascia vuoto per utilizzare automaticamente la risoluzione DNS.",
    )
    ∷ (
      "domains.managedDescription",
      "Monitora lo stato, la scadenza e le scansioni manuali per il tuo tenant.",
    )
    ∷ ("domains.checkIntervalLabel", "Intervallo di controllo (secondi)")
    ∷ ("domains.intervalPresetLabel", "Controlla la cadenza")
    ∷ ("domains.empty", "Nessun dominio ancora aggiunto.")
    ∷ ("domains.managedTitle", "Domini gestiti")
    ∷ ("domains.intervalPresetDays", "{{days}} intervallo di giorni")
    ∷ ("domains.autoResolve", "Automatico DNS")
    ∷ ("domains.targetIpPlaceholder", "203.0.113.10")
    ∷ ("domains.checkIntervalCompact", "Cadenza")
    ∷ (
      "domains.intervalPresetHint",
      "Scegli una cadenza basata sui giorni o passa a un intervallo personalizzato basato sui secondi.",
    )
    ∷ ("domains.customIntervalLabel", "Intervallo personalizzato (secondi)")
    ∷ (
      "domains.customIntervalHint",
      "Se inserisci un valore qui, sovrascrive la cadenza preimpostata.",
    )
    ∷ (
      "domains.noCertificateData",
      "I dettagli del certificato verranno visualizzati dopo la prima scansione TLS riuscita.",
    )
    ∷ ("domains.portLabel", "Porto {{port}}")
    ∷ ("domains.detectionNotes", "Percorso di rilevamento")
    ∷ ("domains.nextCheck", "Prossimo controllo")
    ∷ ("domains.intervalCustomOption", "Secondi personalizzati")
    ∷ ("domains.lastSuccessful", "Ultima scansione riuscita")
    ∷ ("notifications.endpointListTitle", "Endpoint di notifica")
    ∷ ("domains.targetIpSummary", "Percorso segnalato: {{value}}")
    ∷ (
      "notifications.endpointListDescription",
      "Associa questi endpoint alle policy di soglia predefinite o per dominio.",
    )
    ∷ (
      "notifications.endpointDescription",
      "Gestisci destinatari email, Telegram chat ID e webhook generici.",
    )
    ∷ ("notifications.addEndpointTitle", "Aggiungi endpoint di notifica")
    ∷ []

unfoldable pub it_dictionary : List (String × String)
unfolding it_first it_rest
it_dictionary = it_first ++ it_rest
