-- ===== src/Translation/Messages/French/Rest.antt =====
-- The entries of `messages["fr"]` in apps/web/src/lib/i18n.tsx, the second half.
use go_check_ssl.Prelude.{String, List, ◌∷◌, []}

unfoldable pub fr_rest : List (String × String)
fr_rest =
    ("notifications.recipientEmailLabel", "E-mail du destinataire")
    ∷ ("notifications.telegramChatIdLabel", "Identifiant Telegram")
    ∷ ("notifications.webhookUrlLabel", "URL du webhook")
    ∷ ("notifications.authHeaderName", "Nom de l’en-tête d’authentification")
    ∷ ("notifications.authHeaderValue", "Valeur de l’en-tête d’authentification")
    ∷ ("notifications.primaryEmailPlaceholder", "recipient@example.com")
    ∷ ("notifications.telegramChatPlaceholder", "123456789")
    ∷ ("notifications.webhookUrlPlaceholder", "https://example.com/webhook")
    ∷ ("notifications.authHeaderNamePlaceholder", "X-Webhook-Token")
    ∷ ("notifications.authHeaderValuePlaceholder", "secret")
    ∷ ("notifications.thresholdsLabel", "Seuils (jours, séparés par des virgules)")
    ∷ ("notifications.thresholdsPlaceholder", "30, 7, 1")
    ∷ ("notifications.currentThresholdInput", "Entrée actuelle : {{value}}")
    ∷ ("notifications.channels", "Canaux")
    ∷ ("admin.platformSettingsTitle", "Paramètres de la plateforme")
    ∷ (
      "admin.platformSettingsDescription",
      "Contrôlez l’inscription libre et gérez les espaces locataires.",
    )
    ∷ ("admin.registrationTitle", "Inscription")
    ∷ ("admin.registrationEnabledDescription", "Les nouveaux utilisateurs peuvent créer un compte.")
    ∷ ("admin.registrationDisabledDescription", "L’inscription est actuellement désactivée.")
    ∷ ("admin.disableRegistration", "Désactiver l’inscription")
    ∷ ("admin.enableRegistration", "Activer l’inscription")
    ∷ ("admin.tenantsTitle", "Locataires")
    ∷ (
      "admin.tenantsDescription",
      "Consultez l’état des locataires dans un tableau évolutif, puis ouvrez un espace pour le désactiver, réinitialiser le mot de passe ou le supprimer.",
    )
    ∷ ("admin.selectedWorkspaceTitle", "Espace sélectionné")
    ∷ ("admin.selectedWorkspaceDescription", "{{email}} · {{tenant}}")
    ∷ ("admin.createTenantDomainTitle", "Créer un domaine pour le locataire")
    ∷ ("admin.editTenantDomainTitle", "Modifier le domaine")
    ∷ ("admin.tenantDomainsTitle", "Domaines du locataire")
    ∷ ("admin.tenantDomainMeta", "Statut : {{status}} · Jours : {{days}}")
    ∷ ("admin.createEndpointTitle", "Créer un point")
    ∷ ("admin.editEndpointTitle", "Modifier le point")
    ∷ ("admin.tenantEndpointsTitle", "Points du locataire")
    ∷ ("admin.tenantPoliciesTitle", "Politiques du locataire")
    ∷ ("admin.saveDomain", "Enregistrer le domaine")
    ∷ ("admin.saveEndpoint", "Enregistrer le point")
    ∷ ("admin.addEndpoint", "Ajouter le point")
    ∷ ("admin.selectDomainOverride", "Sélectionner une surcharge de domaine")
    ∷ ("admin.saveOverridePolicy", "Enregistrer la surcharge")
    ∷ (
      "admin.selectDomainForOverride", "Sélectionnez un domaine ci-dessus pour gérer sa surcharge.",
    )
    ∷ ("common.username", "Nom d’utilisateur")
    ∷ ("common.save", "Enregistrer")
    ∷ ("common.expand", "Développer")
    ∷ ("common.collapse", "Réduire")
    ∷ ("nav.settings", "Compte")
    ∷ ("nav.backToWorkspace", "Espace")
    ∷ ("shell.adminTitle", "Centre de contrôle des locataires")
    ∷ ("domains.intervalPresetLabel", "Cadence de vérification")
    ∷ (
      "domains.intervalPresetHint",
      "Choisissez une cadence en jours, ou passez à un intervalle personnalisé en secondes.",
    )
    ∷ ("domains.intervalPresetDays", "Tous les {{days}} jours")
    ∷ ("domains.intervalCustomOption", "Secondes personnalisées")
    ∷ ("domains.customIntervalLabel", "Intervalle personnalisé (secondes)")
    ∷ (
      "domains.customIntervalHint",
      "Si vous renseignez une valeur ici, elle remplace la cadence prédéfinie.",
    )
    ∷ ("domains.checkIntervalCompact", "Cadence")
    ∷ ("settings.title", "Paramètres du compte")
    ∷ (
      "settings.description",
      "Gérez votre nom d’utilisateur et liez éventuellement une adresse e-mail pour les notifications ou la récupération du mot de passe.",
    )
    ∷ ("settings.optionalEmailPlaceholder", "name@example.com")
    ∷ (
      "settings.emailHint",
      "L’e-mail est facultatif. Vous pourrez l’utiliser plus tard pour les notifications ou la récupération du mot de passe.",
    )
    ∷ ("settings.publicPageTitle", "Page d’état publique")
    ∷ (
      "settings.publicPageDescription",
      "Personnalisez le titre, le sous-titre et le texte visible de votre page d’état publique.",
    )
    ∷ ("settings.publicPageTitleLabel", "Titre public")
    ∷ ("settings.publicPageTitlePlaceholder", "Ex. : Production SSL Status")
    ∷ (
      "settings.publicPageTitleHint",
      "Laissez vide pour utiliser le nom actuel de l’espace de travail.",
    )
    ∷ ("settings.publicPageSubtitleLabel", "Sous-titre public")
    ∷ (
      "settings.publicPageSubtitlePlaceholder",
      "Ex. : Vue en temps réel de l’état SSL et des expirations",
    )
    ∷ (
      "settings.publicPageSubtitleHint",
      "Laissez vide pour afficher le texte descriptif par défaut.",
    )
    ∷ ("settings.publicPageUrlLabel", "URL publique")
    ∷ ("settings.publicPagePreview", "Aperçu")
    ∷ ("settings.openPublicPage", "Ouvrir la page publique")
    ∷ ("settings.saveSuccess", "Les paramètres du compte ont été mis à jour.")
    ∷ ("settings.saveError", "Impossible de mettre à jour les paramètres du compte.")
    ∷ ("settings.noEmailBound", "Aucun e-mail lié")
    ∷ ("dashboard.overviewTitle", "Vue d’ensemble")
    ∷ (
      "dashboard.overviewDescription",
      "Consultez rapidement l’état SSL, les anomalies et la prochaine expiration.",
    )
    ∷ ("dashboard.loadingOverview", "Chargement de la vue d’ensemble…")
    ∷ ("dashboard.overallStatus", "État global")
    ∷ ("dashboard.publicPageTitle", "Page d’état publique")
    ∷ (
      "dashboard.publicPageDescription",
      "Exposez l’état public actuel du locataire et ouvrez-le en un clic.",
    )
    ∷ ("dashboard.currentHeadline", "Titre actuel")
    ∷ ("dashboard.publicUrl", "URL publique")
    ∷ ("dashboard.openPublicPage", "Ouvrir la page publique")
    ∷ ("dashboard.customizePublicPage", "Personnaliser la page publique")
    ∷ ("admin.activeBadge", "Actif")
    ∷ ("admin.disabledBadge", "Désactivé")
    ∷ ("admin.domainCountLabel", "Domaines")
    ∷ ("admin.healthyCountLabel", "Sains")
    ∷ ("admin.pendingCountLabel", "En attente")
    ∷ ("admin.errorCountLabel", "Erreurs")
    ∷ ("admin.searchLabel", "Rechercher un locataire")
    ∷ ("admin.searchPlaceholder", "Rechercher par espace, identifiant, e-mail ou ID")
    ∷ ("admin.manageTenant", "Gérer")
    ∷ ("admin.noTenants", "Aucun espace locataire disponible.")
    ∷ ("admin.noTenantMatches", "Aucun locataire ne correspond à la recherche.")
    ∷ ("admin.tenantDetailDescription", "ID du locataire #{{tenantId}}")
    ∷ ("admin.publicStatusPage", "Page d’état publique")
    ∷ ("admin.tenantAccessTitle", "Contrôle d’accès du locataire")
    ∷ (
      "admin.tenantAccessDescription",
      "Désactivez immédiatement l’accès, supprimez le locataire ou réinitialisez le mot de passe du propriétaire.",
    )
    ∷ ("admin.enableTenant", "Activer le locataire")
    ∷ ("admin.disableTenant", "Désactiver le locataire")
    ∷ ("admin.deleteTenant", "Supprimer le locataire")
    ∷ ("admin.resetPasswordTitle", "Réinitialiser le mot de passe du locataire")
    ∷ (
      "admin.resetPasswordDescription",
      "Met à jour le mot de passe du propriétaire du locataire et révoque les sessions existantes.",
    )
    ∷ ("admin.updateTenantPassword", "Mettre à jour le mot de passe")
    ∷ ("admin.tenantDisabledSuccess", "Le locataire a été désactivé.")
    ∷ ("admin.tenantEnabledSuccess", "Le locataire a été activé.")
    ∷ ("admin.tenantDeletedSuccess", "Le locataire a été supprimé.")
    ∷ ("admin.passwordUpdatedSuccess", "Le mot de passe du locataire a été mis à jour.")
    ∷ ("admin.passwordUpdateError", "Impossible de mettre à jour le mot de passe du locataire.")
    ∷ ("admin.tenantStatusError", "Impossible de mettre à jour l’état du locataire.")
    ∷ ("admin.tenantDeleteError", "Impossible de supprimer le locataire.")
    ∷ (
      "admin.selectTenantPrompt",
      "Sélectionnez un locataire pour gérer son accès et sa page d’état publique.",
    )
    ∷ ("statusPage.titleFallback", "État des certificats")
    ∷ ("statusPage.subtitle", "Vue en temps réel de l’état SSL et des dates d’expiration.")
    ∷ ("statusPage.subtitleFallback", "Vue en temps réel de l’état SSL et des dates d’expiration.")
    ∷ ("statusPage.signIn", "Se connecter")
    ∷ ("statusPage.totalMonitors", "Domaines")
    ∷ ("statusPage.healthyMonitors", "Sains")
    ∷ ("statusPage.pendingMonitors", "En attente")
    ∷ ("statusPage.nextExpiry", "Prochaine expiration")
    ∷ ("statusPage.domainOverview", "Moniteurs de certificats")
    ∷ ("statusPage.empty", "Aucun moniteur public disponible pour ce locataire.")
    ∷ []
