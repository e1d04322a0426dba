-- ===== src/Translation/Messages/German/Rest.antt =====
-- The entries of `messages["de"]` in apps/web/src/lib/i18n.tsx, the second half.
use go_check_ssl.Prelude.{String, List, ◌∷◌, []}

unfoldable pub de_rest : List (String × String)
de_rest =
    ("notifications.editEndpointTitle", "Benachrichtigungsendpunkt bearbeiten")
    ∷ ("notifications.noEndpoints", "Noch keine Endpunkte konfiguriert.")
    ∷ ("notifications.addEndpointTitle", "Benachrichtigungsendpunkt hinzufügen")
    ∷ (
      "notifications.endpointDescription",
      "Verwalten Sie E-Mail-Empfänger, Telegram Chat-IDs und generische Webhooks.",
    )
    ∷ (
      "notifications.defaultPolicyDescription",
      "Wird auf alle Domänen angewendet, sofern keine Domänenüberschreibung vorhanden ist.",
    )
    ∷ ("notifications.defaultPolicyTitle", "Standardrichtlinie tenant")
    ∷ ("notifications.overridePolicyTitle", "Richtlinie zur Domänenüberschreibung")
    ∷ ("notifications.selectDomain", "Wählen Sie eine Domäne aus")
    ∷ ("notifications.saveDefaultPolicy", "Standardrichtlinie speichern")
    ∷ ("notifications.webhookUrlLabel", "Webhook URL")
    ∷ ("notifications.saveEndpoint", "Endpunkt speichern")
    ∷ ("notifications.saveDomainPolicy", "Domänenrichtlinie speichern")
    ∷ (
      "notifications.chooseDomainToEdit",
      "Wählen Sie eine Domäne aus, um deren Außerkraftsetzungsrichtlinie zu bearbeiten.",
    )
    ∷ ("notifications.telegramChatPlaceholder", "123456789")
    ∷ (
      "notifications.overridePolicyDescription",
      "Überschreiben Sie Schwellenwerte und Endpunktbindungen für eine einzelne Domäne.",
    )
    ∷ ("notifications.telegramChatIdLabel", "Telegram Chat ID")
    ∷ ("notifications.recipientEmailLabel", "E-Mail des Empfängers")
    ∷ ("notifications.authHeaderName", "Name des Auth-Headers")
    ∷ ("notifications.webhookUrlPlaceholder", "https://example.com/webhook")
    ∷ ("notifications.primaryEmailPlaceholder", "empfänger@example.com")
    ∷ ("notifications.addEndpoint", "Endpunkt hinzufügen")
    ∷ ("notifications.channels", "Kanäle")
    ∷ ("notifications.authHeaderValuePlaceholder", "Geheimnis")
    ∷ ("notifications.authHeaderValue", "Auth-Header-Wert")
    ∷ ("notifications.currentThresholdInput", "Aktueller Eingang: {{value}}")
    ∷ ("notifications.authHeaderNamePlaceholder", "X-Webhook-Token")
    ∷ ("settings.optionalEmailPlaceholder", "name@example.com")
    ∷ ("settings.title", "Kontoeinstellungen")
    ∷ ("settings.publicPageTitle", "Öffentliche Statusseite")
    ∷ ("settings.publicPageTitlePlaceholder", "Beispiel: Produktionsstatus SSL")
    ∷ ("notifications.thresholdsLabel", "Schwellenwerte (Tage, durch Kommas getrennt)")
    ∷ (
      "settings.publicPageTitleHint",
      "Lassen Sie dieses Feld leer, um Ihren aktuellen workspace-Namen zu verwenden.",
    )
    ∷ ("notifications.thresholdsPlaceholder", "30, 7, 1")
    ∷ (
      "settings.publicPageDescription",
      "Passen Sie Titel, Untertitel und nach außen gerichtete Kopie für Ihre öffentliche Statusseite an.",
    )
    ∷ (
      "settings.publicPageSubtitleHint",
      "Lassen Sie dieses Feld leer, um die standardmäßige beschreibende Kopie anzuzeigen.",
    )
    ∷ (
      "settings.description",
      "Verwalten Sie Ihren Benutzernamen und binden Sie eine optionale E-Mail-Adresse für Benachrichtigungen oder die Passwortwiederherstellung ein.",
    )
    ∷ ("settings.publicPagePreview", "Vorschau")
    ∷ ("settings.publicPageUrlLabel", "Öffentliche Seite URL")
    ∷ ("settings.publicPageSubtitleLabel", "Untertitel der öffentlichen Seite")
    ∷ ("settings.publicPageTitleLabel", "Titel der öffentlichen Seite")
    ∷ ("settings.saveSuccess", "Kontoeinstellungen aktualisiert.")
    ∷ ("settings.saveError", "Kontoeinstellungen können nicht aktualisiert werden")
    ∷ (
      "settings.publicPageSubtitlePlaceholder",
      "Beispiel: Live-Übersicht über Zustand und Ablauf von SSL",
    )
    ∷ (
      "dashboard.overviewDescription",
      "Sehen Sie den Zustand des Zertifikats, die Anzahl der Probleme und den nächsten Ablauf von einem Ort aus.",
    )
    ∷ ("settings.noEmailBound", "Keine E-Mail-Bindung")
    ∷ ("settings.openPublicPage", "Öffentliche Seite öffnen")
    ∷ ("dashboard.overallStatus", "Gesamtstatus")
    ∷ ("dashboard.overviewTitle", "Überwachungsübersicht")
    ∷ ("dashboard.currentHeadline", "Aktuelle Schlagzeile")
    ∷ ("dashboard.publicPageTitle", "Öffentliche Statusseite")
    ∷ (
      "dashboard.publicPageDescription",
      "Stellen Sie Ihren aktuellen Zertifikatsstatus öffentlich zur Verfügung und springen Sie mit einem Klick dorthin.",
    )
    ∷ ("dashboard.openPublicPage", "Öffentliche Seite öffnen")
    ∷ ("admin.registrationTitle", "Anmeldung")
    ∷ (
      "settings.emailHint",
      "Diese E-Mail ist optional. Sie können es später für Benachrichtigungen und die Passwortwiederherstellung verwenden.",
    )
    ∷ ("admin.registrationEnabledDescription", "Neue Benutzer können Konten erstellen.")
    ∷ ("dashboard.loadingOverview", "Überwachungsübersicht wird geladen…")
    ∷ ("admin.tenantsTitle", "Mieter")
    ∷ ("dashboard.publicUrl", "Öffentlich URL")
    ∷ ("admin.platformSettingsTitle", "Plattformeinstellungen")
    ∷ ("dashboard.customizePublicPage", "Öffentliche Seite anpassen")
    ∷ ("admin.disableRegistration", "Registrierung deaktivieren")
    ∷ (
      "admin.platformSettingsDescription",
      "Steuern Sie die Self-Service-Registrierung und verwalten Sie tenant workspaces.",
    )
    ∷ ("admin.registrationDisabledDescription", "Die Registrierung ist derzeit deaktiviert.")
    ∷ ("admin.editTenantDomainTitle", "Domäne bearbeiten")
    ∷ ("admin.searchPlaceholder", "Nach Arbeitsbereich, Benutzername, E-Mail oder ID suchen")
    ∷ (
      "admin.tenantsDescription",
      "Überprüfen Sie den Status von tenant in einer skalierbaren Tabelle und öffnen Sie dann einen workspace, um den Zugriff zu deaktivieren, Passwörter zurückzusetzen oder den tenant zu löschen.",
    )
    ∷ ("admin.searchLabel", "Tenant suchen")
    ∷ ("admin.selectedWorkspaceTitle", "Ausgewählt workspace")
    ∷ ("admin.tenantDomainsTitle", "Mandantendomänen")
    ∷ ("admin.enableRegistration", "Registrierung aktivieren")
    ∷ ("admin.createEndpointTitle", "Endpunkt erstellen")
    ∷ ("admin.selectedWorkspaceDescription", "{{email}} · {{tenant}}")
    ∷ ("admin.saveDomain", "Domain speichern")
    ∷ ("admin.tenantPoliciesTitle", "Mieterrichtlinien")
    ∷ ("admin.tenantEndpointsTitle", "Mandantenendpunkte")
    ∷ ("admin.addEndpoint", "Endpunkt hinzufügen")
    ∷ ("admin.activeBadge", "Aktiv")
    ∷ ("admin.tenantDomainMeta", "Status: {{status}} · Tage: {{days}}")
    ∷ ("admin.createTenantDomainTitle", "Domain für tenant erstellen")
    ∷ ("admin.disabledBadge", "Deaktiviert")
    ∷ ("admin.domainCountLabel", "Domänen")
    ∷ ("admin.healthyCountLabel", "Gesund")
    ∷ ("admin.manageTenant", "Verwalten")
    ∷ ("admin.pendingCountLabel", "Ausstehend")
    ∷ ("admin.saveEndpoint", "Endpunkt speichern")
    ∷ ("admin.editEndpointTitle", "Endpunkt bearbeiten")
    ∷ ("admin.errorCountLabel", "Fehler")
    ∷ ("admin.saveOverridePolicy", "Außerkraftsetzungsrichtlinie speichern")
    ∷ ("admin.selectDomainOverride", "Wählen Sie eine Domänenüberschreibung aus")
    ∷ (
      "admin.selectDomainForOverride",
      "Wählen Sie oben eine Domäne aus, um deren Außerkraftsetzungsrichtlinie zu verwalten.",
    )
    ∷ ("admin.enableTenant", "tenant aktivieren")
    ∷ ("admin.noTenants", "Keine tenant workspaces verfügbar.")
    ∷ ("admin.noTenantMatches", "Keine Tenants entsprechen der aktuellen Suche.")
    ∷ (
      "admin.resetPasswordDescription",
      "Dadurch wird das Passwort des tenant-Besitzers aktualisiert und bestehende Sitzungen widerrufen.",
    )
    ∷ ("admin.tenantDetailDescription", "Mieter ID #{{tenantId}}")
    ∷ (
      "admin.tenantAccessDescription",
      "Deaktivieren Sie den Zugriff sofort, entfernen Sie tenant oder ändern Sie das Passwort des tenant-Besitzers.",
    )
    ∷ ("admin.deleteTenant", "tenant löschen")
    ∷ ("admin.updateTenantPassword", "Aktualisieren Sie das Passwort tenant")
    ∷ ("admin.disableTenant", "tenant deaktivieren")
    ∷ ("admin.resetPasswordTitle", "tenant Passwort zurücksetzen")
    ∷ ("admin.tenantDisabledSuccess", "Der Mieter wurde deaktiviert.")
    ∷ ("admin.tenantAccessTitle", "Zugangskontrolle für Mieter")
    ∷ ("admin.publicStatusPage", "Öffentliche Statusseite")
    ∷ ("admin.tenantEnabledSuccess", "Der Mieter wurde aktiviert.")
    ∷ ("statusPage.titleFallback", "Zertifikatsstatus")
    ∷ (
      "admin.selectTenantPrompt",
      "Wählen Sie einen tenant aus, um dessen Zugriff und öffentliche Statusseite zu verwalten.",
    )
    ∷ ("admin.tenantDeletedSuccess", "Mieter wurde gelöscht.")
    ∷ ("admin.passwordUpdatedSuccess", "Das Mieterpasswort wurde aktualisiert.")
    ∷ ("admin.passwordUpdateError", "Das Passwort für tenant konnte nicht aktualisiert werden.")
    ∷ ("admin.tenantDeleteError", "tenant konnte nicht gelöscht werden.")
    ∷ ("admin.tenantStatusError", "Der Status von tenant kann nicht aktualisiert werden.")
    ∷ ("statusPage.healthyMonitors", "Gesund")
    ∷ ("statusPage.pendingMonitors", "Ausstehend")
    ∷ ("statusPage.totalMonitors", "Domänen")
    ∷ ("statusPage.signIn", "anmelden")
    ∷ ("statusPage.subtitleFallback", "Live-Übersicht über Zustand und Ablauf des Zertifikats SSL.")
    ∷ ("statusPage.domainOverview", "Zertifikatsmonitore")
    ∷ ("statusPage.nextExpiry", "Nächster Ablauf")
    ∷ ("statusPage.empty", "Für diesen tenant sind keine öffentlichen Monitore verfügbar.")
    ∷ ("statusPage.subtitle", "Live-Übersicht über Zustand und Ablauf des Zertifikats SSL.")
    ∷ []
