-- ===== src/Translation/Messages/French.antt =====
-- The entries of `messages["fr"]` in apps/web/src/lib/i18n.tsx, in their order: the first half, and all.
mod Rest
use go_check_ssl.Prelude.{String, List, ◌∷◌, [], ◌++◌}
use go_check_ssl.Translation.Messages.French.Rest.{fr_rest}

unfoldable pub fr_first : List (String × String)
fr_first =
    ("common.loadingSession", "Chargement de la session…")
    ∷ ("common.loadingDomains", "Chargement des domaines…")
    ∷ ("common.language", "Langue")
    ∷ ("common.email", "E-mail")
    ∷ ("common.password", "Mot de passe")
    ∷ ("common.newPassword", "Nouveau mot de passe")
    ∷ ("common.logout", "Déconnexion")
    ∷ ("common.cancel", "Annuler")
    ∷ ("common.hostname", "Nom d’hôte")
    ∷ ("common.port", "Port")
    ∷ ("common.status", "Statut")
    ∷ ("common.daysLeft", "Jours restants")
    ∷ ("common.actions", "Actions")
    ∷ ("common.checkNow", "Vérifier maintenant")
    ∷ ("common.edit", "Modifier")
    ∷ ("common.delete", "Supprimer")
    ∷ ("common.name", "Nom")
    ∷ ("common.type", "Type")
    ∷ ("common.enabled", "Activé")
    ∷ ("common.none", "—")
    ∷ ("common.targetIp", "IP cible")
    ∷ ("common.resolvedIp", "IP résolue")
    ∷ ("common.validFrom", "Valide à partir du")
    ∷ ("common.validTo", "Valide jusqu'au")
    ∷ ("common.lastChecked", "Dernière vérification")
    ∷ ("common.commonName", "Nom commun")
    ∷ ("common.issuer", "Émetteur")
    ∷ ("common.subject", "Sujet")
    ∷ ("common.serialNumber", "Numéro de série")
    ∷ ("common.fingerprint", "Empreinte SHA-256")
    ∷ ("common.signatureAlgorithm", "Algorithme de signature")
    ∷ ("common.san", "Noms alternatifs")
    ∷ ("nav.domains", "Domaines")
    ∷ ("nav.notifications", "Notifications")
    ∷ ("nav.admin", "Admin")
    ∷ ("shell.title", "Surveillance des certificats SSL")
    ∷ ("role.super_admin", "Super administrateur")
    ∷ ("role.tenant_owner", "Propriétaire du locataire")
    ∷ ("status.pending", "En attente")
    ∷ ("status.healthy", "Sain")
    ∷ ("status.error", "Erreur")
    ∷ ("endpointType.email", "E-mail")
    ∷ ("endpointType.telegram", "Telegram")
    ∷ ("endpointType.webhook", "Webhook")
    ∷ ("validation.hostnameRequired", "Le nom d’hôte est requis")
    ∷ ("validation.portInvalid", "Le port doit être un entier valide")
    ∷ ("validation.portRange", "Le port doit être compris entre 1 et 65535")
    ∷ ("validation.minInterval", "L’intervalle minimum est de 60 secondes")
    ∷ ("validation.nameRequired", "Le nom est requis")
    ∷ ("validation.recipientEmailRequired", "L’adresse e-mail du destinataire est requise")
    ∷ ("validation.telegramChatIdRequired", "L’identifiant Telegram est requis")
    ∷ ("validation.webhookUrlRequired", "L’URL du webhook est requise")
    ∷ ("auth.signInTitle", "Connexion")
    ∷ (
      "auth.signInDescription",
      "Connectez-vous avec votre nom d’utilisateur pour gérer la surveillance SSL, les notifications et les paramètres d’administration.",
    )
    ∷ ("auth.signIn", "Connexion")
    ∷ ("auth.createAccount", "Créer un compte")
    ∷ ("auth.forgotPasswordLink", "Mot de passe oublié ?")
    ∷ ("auth.backToLogin", "Retour à la connexion")
    ∷ ("auth.workspaceName", "Nom de l’espace")
    ∷ (
      "auth.createAccountDescription",
      "Créez un compte avec un nom d’utilisateur et un mot de passe. L’e-mail pourra être lié plus tard depuis le tableau de bord.",
    )
    ∷ ("auth.createAccountButton", "Créer un compte")
    ∷ ("auth.alreadyHaveAccount", "Vous avez déjà un compte ?")
    ∷ ("auth.registrationSuccess", "Inscription réussie. Vous pouvez maintenant vous connecter.")
    ∷ ("auth.registrationFallbackError", "Impossible de s’inscrire")
    ∷ ("auth.loginFallbackError", "Impossible de se connecter")
    ∷ ("auth.forgotPasswordTitle", "Mot de passe oublié")
    ∷ (
      "auth.forgotPasswordDescription",
      "Saisissez votre nom d’utilisateur ou votre e-mail lié. Si un e-mail lié existe, nous enverrons un lien de réinitialisation.",
    )
    ∷ ("auth.usernameOrEmail", "Nom d’utilisateur ou e-mail lié")
    ∷ (
      "auth.forgotPasswordSuccess",
      "Si l’adresse existe, un lien de réinitialisation a été envoyé.",
    )
    ∷ ("auth.sendResetLink", "Envoyer le lien")
    ∷ ("auth.resetPasswordTitle", "Réinitialiser le mot de passe")
    ∷ ("auth.resetPasswordDescription", "Utilisez le jeton reçu par e-mail.")
    ∷ ("auth.resetPasswordButton", "Réinitialiser le mot de passe")
    ∷ ("auth.resetPasswordFallbackError", "Impossible de réinitialiser le mot de passe")
    ∷ ("auth.missingResetToken", "Jeton manquant dans l’URL.")
    ∷ ("auth.verifyEmailTitle", "Vérifier l’e-mail")
    ∷ (
      "auth.verifyEmailDescription",
      "Terminez la vérification de l’e-mail pour autoriser la connexion des propriétaires de locataire.",
    )
    ∷ ("auth.verifyingEmail", "Vérification de votre e-mail…")
    ∷ (
      "auth.verifyEmailSuccess",
      "E-mail vérifié avec succès. Vous pouvez maintenant vous connecter.",
    )
    ∷ ("auth.verifyEmailFallbackError", "Impossible de vérifier l’e-mail")
    ∷ ("auth.missingVerifyToken", "Jeton de vérification manquant.")
    ∷ ("auth.needNewAccount", "Besoin d’un nouveau compte ?")
    ∷ ("auth.registerAgain", "S’inscrire à nouveau")
    ∷ ("domains.addTitle", "Ajouter un domaine")
    ∷ ("domains.editTitle", "Modifier le domaine")
    ∷ (
      "domains.formDescription",
      "Ajoutez des hôtes TLS et définissez la fréquence de recontrôle du pool de workers.",
    )
    ∷ ("domains.addButton", "Ajouter le domaine")
    ∷ ("domains.saveButton", "Enregistrer les modifications")
    ∷ ("domains.managedTitle", "Domaines surveillés")
    ∷ (
      "domains.managedDescription",
      "Surveillez l’état, l’expiration et les scans manuels de votre locataire.",
    )
    ∷ ("domains.empty", "Aucun domaine ajouté pour le moment.")
    ∷ ("domains.hostnamePlaceholder", "example.com")
    ∷ ("domains.targetIpPlaceholder", "203.0.113.10")
    ∷ (
      "domains.targetIpHint",
      "Facultatif. Si renseignée, Certwarden se connecte à cette IP tout en envoyant le nom d’hôte en SNI. Laissez vide pour utiliser la résolution DNS.",
    )
    ∷ ("domains.autoResolve", "DNS automatique")
    ∷ ("domains.checkIntervalLabel", "Intervalle de vérification (secondes)")
    ∷ ("domains.portLabel", "Port {{port}}")
    ∷ ("domains.nextCheck", "Prochaine vérification")
    ∷ ("domains.lastSuccessful", "Dernière vérification réussie")
    ∷ (
      "domains.noCertificateData",
      "Les détails du certificat apparaîtront après la première vérification TLS réussie.",
    )
    ∷ ("domains.detectionNotes", "Chemin de détection")
    ∷ ("domains.targetIpSummary", "Route épinglée : {{value}}")
    ∷ ("domains.resolvedIpSummary", "IP réellement utilisée : {{value}}")
    ∷ ("domains.noTenantDomains", "Aucun domaine pour ce locataire.")
    ∷ ("notifications.addEndpointTitle", "Ajouter un point de notification")
    ∷ ("notifications.editEndpointTitle", "Modifier le point de notification")
    ∷ (
      "notifications.endpointDescription",
      "Gérez les destinataires e-mail, les identifiants Telegram et les webhooks génériques.",
    )
    ∷ ("notifications.endpointListTitle", "Points de notification")
    ∷ (
      "notifications.endpointListDescription",
      "Associez ces points aux politiques par défaut ou par domaine.",
    )
    ∷ ("notifications.noEndpoints", "Aucun point configuré pour le moment.")
    ∷ ("notifications.defaultPolicyTitle", "Politique locataire par défaut")
    ∷ (
      "notifications.defaultPolicyDescription",
      "Appliquée à tous les domaines sauf en cas de surcharge spécifique.",
    )
    ∷ ("notifications.overridePolicyTitle", "Politique de surcharge par domaine")
    ∷ (
      "notifications.overridePolicyDescription",
      "Surchargez les seuils et les canaux pour un domaine unique.",
    )
    ∷ ("notifications.selectDomain", "Sélectionner un domaine")
    ∷ ("notifications.chooseDomainToEdit", "Choisissez un domaine pour modifier sa politique.")
    ∷ ("notifications.saveDefaultPolicy", "Enregistrer la politique par défaut")
    ∷ ("notifications.saveDomainPolicy", "Enregistrer la politique du domaine")
    ∷ ("notifications.saveEndpoint", "Enregistrer le point")
    ∷ ("notifications.addEndpoint", "Ajouter le point")
    ∷ []

unfoldable pub fr_dictionary : List (String × String)
unfolding fr_first fr_rest
fr_dictionary = fr_first ++ fr_rest
