-- ===== src/Translation/Messages/German.antt =====
-- The entries of `messages["de"]` in apps/web/src/lib/i18n.tsx, in their order: the first half, and all.
mod Rest
use go_check_ssl.Prelude.{String, List, ◌∷◌, [], ◌++◌}
use go_check_ssl.Translation.Messages.German.Rest.{de_rest}

unfoldable pub de_first : List (String × String)
de_first =
    ("common.language", "Sprache")
    ∷ ("common.newPassword", "Neues Passwort")
    ∷ ("common.password", "Passwort")
    ∷ ("common.port", "Port")
    ∷ ("common.cancel", "Stornieren")
    ∷ ("common.status", "Status")
    ∷ ("common.actions", "Aktionen")
    ∷ ("common.logout", "Abmelden")
    ∷ ("common.edit", "Bearbeiten")
    ∷ ("common.daysLeft", "Tage übrig")
    ∷ ("common.username", "Benutzername")
    ∷ ("common.email", "E-Mail")
    ∷ ("common.delete", "Löschen")
    ∷ ("common.loadingSession", "Sitzung wird geladen…")
    ∷ ("common.loadingDomains", "Domains werden geladen…")
    ∷ ("common.hostname", "Hostname")
    ∷ ("common.save", "Speichern")
    ∷ ("common.expand", "Aufklappen")
    ∷ ("common.collapse", "Einklappen")
    ∷ ("common.name", "Name")
    ∷ ("common.checkNow", "Jetzt prüfen")
    ∷ ("common.none", "—")
    ∷ ("common.enabled", "Aktiviert")
    ∷ ("common.type", "Typ")
    ∷ ("common.subject", "Subjekt")
    ∷ ("common.serialNumber", "Seriennummer")
    ∷ ("common.resolvedIp", "Aufgelöste IP")
    ∷ ("common.validTo", "Gültig bis")
    ∷ ("common.targetIp", "Feste IP")
    ∷ ("common.validFrom", "Gültig ab")
    ∷ ("common.lastChecked", "Zuletzt geprüft")
    ∷ ("common.issuer", "Aussteller")
    ∷ ("common.commonName", "Common Name")
    ∷ ("common.fingerprint", "SHA-256 Fingerabdruck")
    ∷ ("nav.notifications", "Benachrichtigungen")
    ∷ ("common.san", "SANs")
    ∷ ("role.super_admin", "Super-Administrator")
    ∷ ("nav.admin", "Admin")
    ∷ ("status.pending", "Ausstehend")
    ∷ ("nav.backToWorkspace", "Arbeitsbereich")
    ∷ ("nav.domains", "Domänen")
    ∷ ("status.healthy", "In Ordnung")
    ∷ ("shell.adminTitle", "Tenant-Kontrollzentrum")
    ∷ ("status.error", "Fehler")
    ∷ ("shell.title", "SSL-Zertifikatsüberwachung")
    ∷ ("endpointType.telegram", "Telegram")
    ∷ ("common.signatureAlgorithm", "Signaturalgorithmus")
    ∷ ("endpointType.webhook", "Webhook")
    ∷ ("nav.settings", "Konto")
    ∷ ("validation.hostnameRequired", "Hostname ist erforderlich")
    ∷ ("validation.nameRequired", "Name ist erforderlich")
    ∷ ("endpointType.email", "Email")
    ∷ ("role.tenant_owner", "Tenant-Eigentümer")
    ∷ ("auth.signInTitle", "anmelden")
    ∷ ("auth.signIn", "anmelden")
    ∷ (
      "auth.signInDescription",
      "Melden Sie sich mit Ihrem Benutzernamen an, um die Überwachung, Benachrichtigungen und Administratoreinstellungen von SSL zu verwalten.",
    )
    ∷ ("auth.forgotPasswordLink", "Passwort vergessen?")
    ∷ ("auth.createAccount", "Benutzerkonto erstellen")
    ∷ ("validation.portRange", "Der Port muss zwischen 1 und 65535 liegen")
    ∷ ("validation.minInterval", "Das Mindestintervall beträgt 60 Sekunden")
    ∷ ("validation.recipientEmailRequired", "Die E-Mail-Adresse des Empfängers ist erforderlich")
    ∷ ("validation.portInvalid", "Port muss eine gültige Ganzzahl sein")
    ∷ ("validation.telegramChatIdRequired", "Telegram Chat ID ist erforderlich")
    ∷ ("validation.webhookUrlRequired", "Webhook URL ist erforderlich")
    ∷ ("auth.alreadyHaveAccount", "Sie haben bereits ein Konto?")
    ∷ ("auth.createAccountButton", "Benutzerkonto erstellen")
    ∷ ("auth.forgotPasswordTitle", "Passwort vergessen")
    ∷ ("auth.workspaceName", "Workspace Name")
    ∷ ("auth.loginFallbackError", "Anmeldung nicht möglich")
    ∷ ("auth.sendResetLink", "Link zum Zurücksetzen senden")
    ∷ ("auth.usernameOrEmail", "Benutzername oder gebundene E-Mail")
    ∷ ("auth.registrationSuccess", "Registrierung erfolgreich. Sie können sich jetzt anmelden.")
    ∷ ("auth.backToLogin", "Zurück zum Login")
    ∷ ("auth.resetPasswordTitle", "Passwort zurücksetzen")
    ∷ ("auth.registrationFallbackError", "Registrierung nicht möglich")
    ∷ (
      "auth.forgotPasswordSuccess",
      "Wenn die Adresse vorhanden ist, wurde ein Reset-Link gesendet.",
    )
    ∷ (
      "auth.createAccountDescription",
      "Erstellen Sie ein Konto mit nur einem Benutzernamen und einem Passwort. Email kann später über das Dashboard gebunden werden.",
    )
    ∷ (
      "auth.forgotPasswordDescription",
      "Geben Sie Ihren Benutzernamen oder Ihre gebundene E-Mail-Adresse ein. Wenn eine gebundene E-Mail vorhanden ist, senden wir einen Link zum Zurücksetzen.",
    )
    ∷ ("auth.resetPasswordDescription", "Verwenden Sie das an Ihre E-Mail gesendete Reset-Token.")
    ∷ ("auth.resetPasswordButton", "Passwort zurücksetzen")
    ∷ ("auth.verifyEmailTitle", "E-Mail bestätigen")
    ∷ ("auth.verifyingEmail", "Ihre E-Mail-Adresse wird überprüft …")
    ∷ ("auth.registerAgain", "Registrieren Sie sich erneut")
    ∷ ("auth.resetPasswordFallbackError", "Passwort kann nicht zurückgesetzt werden")
    ∷ ("auth.verifyEmailFallbackError", "E-Mail konnte nicht bestätigt werden")
    ∷ ("auth.needNewAccount", "Benötigen Sie ein neues Konto?")
    ∷ ("auth.missingResetToken", "Fehlendes Token in URL.")
    ∷ ("auth.missingVerifyToken", "Fehlendes Bestätigungstoken.")
    ∷ ("domains.saveButton", "Änderungen speichern")
    ∷ (
      "auth.verifyEmailDescription",
      "Schließen Sie die E-Mail-Bestätigung ab, um die Anmeldung für tenant-Inhaberkonten freizuschalten.",
    )
    ∷ ("auth.verifyEmailSuccess", "Email erfolgreich verifiziert. Sie können sich jetzt anmelden.")
    ∷ ("domains.addButton", "Domäne hinzufügen")
    ∷ ("domains.addTitle", "Domäne hinzufügen")
    ∷ ("domains.editTitle", "Domäne bearbeiten")
    ∷ ("domains.hostnamePlaceholder", "example.com")
    ∷ ("domains.managedTitle", "Verwaltete Domänen")
    ∷ ("domains.empty", "Es wurden noch keine Domains hinzugefügt.")
    ∷ (
      "domains.formDescription",
      "Fügen Sie TLS Hostnamen hinzu und legen Sie fest, wie oft der Worker-Pool Zertifikate erneut überprüfen soll.",
    )
    ∷ (
      "domains.managedDescription",
      "Überwachen Sie Status, Ablauf und manuelle Scans für Ihr tenant.",
    )
    ∷ (
      "domains.targetIpHint",
      "Optional. Wenn festgelegt, stellt Certwarden eine Verbindung zu dieser IP her und sendet den Hostnamen weiterhin als SNI. Lassen Sie das Feld leer, um automatisch die Auflösung DNS zu verwenden.",
    )
    ∷ ("domains.autoResolve", "Automatisch DNS")
    ∷ ("domains.intervalPresetLabel", "Überprüfen Sie die Trittfrequenz")
    ∷ ("domains.checkIntervalLabel", "Prüfintervall (Sekunden)")
    ∷ ("domains.intervalCustomOption", "Benutzerdefinierte Sekunden")
    ∷ ("domains.targetIpPlaceholder", "203.0.113.10")
    ∷ ("domains.intervalPresetDays", "{{days}} Tagesintervall")
    ∷ ("domains.checkIntervalCompact", "Kadenz")
    ∷ ("domains.customIntervalLabel", "Benutzerdefiniertes Intervall (Sekunden)")
    ∷ (
      "domains.intervalPresetHint",
      "Wählen Sie einen tagesbasierten Rhythmus oder wechseln Sie zu einem benutzerdefinierten sekundenbasierten Intervall.",
    )
    ∷ ("domains.resolvedIpSummary", "Beobachtete Verbindungs-IP: {{value}}")
    ∷ (
      "domains.customIntervalHint",
      "Wenn Sie hier einen Wert eingeben, überschreibt dieser die voreingestellte Kadenz.",
    )
    ∷ ("domains.nextCheck", "Nächste Kontrolle")
    ∷ ("domains.lastSuccessful", "Letzter erfolgreicher Scan")
    ∷ ("domains.portLabel", "Port {{port}}")
    ∷ ("domains.targetIpSummary", "Angepinnte Route: {{value}}")
    ∷ ("domains.noTenantDomains", "Noch keine tenant-Domains.")
    ∷ ("domains.detectionNotes", "Erkennungspfad")
    ∷ ("notifications.endpointListTitle", "Benachrichtigungsendpunkte")
    ∷ (
      "domains.noCertificateData",
      "Die Zertifikatsdetails werden nach dem ersten erfolgreichen TLS-Scan angezeigt.",
    )
    ∷ (
      "notifications.endpointListDescription",
      "Binden Sie diese Endpunkte an Standard- oder domänenspezifische Schwellenwertrichtlinien.",
    )
    ∷ []

unfoldable pub de_dictionary : List (String × String)
unfolding de_first de_rest
de_dictionary = de_first ++ de_rest
