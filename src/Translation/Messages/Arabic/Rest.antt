-- ===== src/Translation/Messages/Arabic/Rest.antt =====
-- The entries of `messages["ar"]` in apps/web/src/lib/i18n.tsx, the second half.
use go_check_ssl.Prelude.{String, List, ◌∷◌, []}

unfoldable pub ar_rest : List (String × String)
ar_rest =
    (
      "notifications.defaultPolicyTitle",
      "\u{633}\u{64a}\u{627}\u{633}\u{629} tenant \u{627}\u{644}\u{627}\u{641}\u{62a}\u{631}\u{627}\u{636}\u{64a}\u{629}",
    )
    ∷ (
      "domains.noTenantDomains",
      "\u{644}\u{627} \u{64a}\u{648}\u{62c}\u{62f} \u{646}\u{637}\u{627}\u{642}\u{627}\u{62a} tenant \u{62d}\u{62a}\u{649} \u{627}\u{644}\u{622}\u{646}.",
    )
    ∷ (
      "notifications.editEndpointTitle",
      "\u{62a}\u{62d}\u{631}\u{64a}\u{631} \u{646}\u{642}\u{637}\u{629} \u{646}\u{647}\u{627}\u{64a}\u{629} \u{627}\u{644}\u{625}\u{62e}\u{637}\u{627}\u{631}",
    )
    ∷ (
      "domains.resolvedIpSummary",
      "\u{639}\u{646}\u{648}\u{627}\u{646} IP \u{644}\u{644}\u{627}\u{62a}\u{635}\u{627}\u{644} \u{627}\u{644}\u{645}\u{644}\u{62d}\u{648}\u{638}: {{value}}",
    )
    ∷ (
      "notifications.overridePolicyTitle",
      "\u{633}\u{64a}\u{627}\u{633}\u{629} \u{62a}\u{62c}\u{627}\u{648}\u{632} \u{627}\u{644}\u{645}\u{62c}\u{627}\u{644}",
    )
    ∷ (
      "notifications.selectDomain",
      "\u{62d}\u{62f}\u{62f} \u{627}\u{644}\u{645}\u{62c}\u{627}\u{644}",
    )
    ∷ (
      "notifications.noEndpoints",
      "\u{644}\u{645} \u{64a}\u{62a}\u{645} \u{62a}\u{643}\u{648}\u{64a}\u{646} \u{646}\u{642}\u{627}\u{637} \u{627}\u{644}\u{646}\u{647}\u{627}\u{64a}\u{629} \u{62d}\u{62a}\u{649} \u{627}\u{644}\u{622}\u{646}.",
    )
    ∷ (
      "notifications.chooseDomainToEdit",
      "\u{627}\u{62e}\u{62a}\u{631} \u{645}\u{62c}\u{627}\u{644}ً\u{627} \u{644}\u{62a}\u{639}\u{62f}\u{64a}\u{644} \u{633}\u{64a}\u{627}\u{633}\u{629} \u{627}\u{644}\u{62a}\u{62c}\u{627}\u{648}\u{632} \u{627}\u{644}\u{62e}\u{627}\u{635}\u{629} \u{628}\u{647}.",
    )
    ∷ (
      "notifications.defaultPolicyDescription",
      "\u{64a}\u{62a}\u{645} \u{62a}\u{637}\u{628}\u{64a}\u{642}\u{647} \u{639}\u{644}\u{649} \u{643}\u{627}\u{641}\u{629} \u{627}\u{644}\u{646}\u{637}\u{627}\u{642}\u{627}\u{62a} \u{645}\u{627} \u{644}\u{645} \u{64a}\u{643}\u{646} \u{647}\u{646}\u{627}\u{643} \u{62a}\u{62c}\u{627}\u{648}\u{632} \u{644}\u{644}\u{646}\u{637}\u{627}\u{642}.",
    )
    ∷ (
      "notifications.overridePolicyDescription",
      "\u{62a}\u{62c}\u{627}\u{648}\u{632} \u{627}\u{644}\u{639}\u{62a}\u{628}\u{627}\u{62a} \u{648}\u{627}\u{631}\u{62a}\u{628}\u{627}\u{637}\u{627}\u{62a} \u{646}\u{642}\u{637}\u{629} \u{627}\u{644}\u{646}\u{647}\u{627}\u{64a}\u{629} \u{644}\u{645}\u{62c}\u{627}\u{644} \u{648}\u{627}\u{62d}\u{62f}.",
    )
    ∷ (
      "notifications.saveDefaultPolicy",
      "\u{62d}\u{641}\u{638} \u{627}\u{644}\u{633}\u{64a}\u{627}\u{633}\u{629} \u{627}\u{644}\u{627}\u{641}\u{62a}\u{631}\u{627}\u{636}\u{64a}\u{629}",
    )
    ∷ (
      "notifications.authHeaderName",
      "\u{627}\u{633}\u{645} \u{631}\u{623}\u{633} \u{627}\u{644}\u{645}\u{635}\u{627}\u{62f}\u{642}\u{629}",
    )
    ∷ (
      "notifications.telegramChatIdLabel",
      "Telegram \u{627}\u{644}\u{62f}\u{631}\u{62f}\u{634}\u{629} ID",
    )
    ∷ ("notifications.webhookUrlLabel", "Webhook URL")
    ∷ (
      "notifications.saveEndpoint",
      "\u{62d}\u{641}\u{638} \u{646}\u{642}\u{637}\u{629} \u{627}\u{644}\u{646}\u{647}\u{627}\u{64a}\u{629}",
    )
    ∷ ("notifications.webhookUrlPlaceholder", "https://example.com/webhook")
    ∷ ("notifications.authHeaderValuePlaceholder", "\u{633}\u{631}")
    ∷ (
      "notifications.addEndpoint",
      "\u{623}\u{636}\u{641} \u{646}\u{642}\u{637}\u{629} \u{627}\u{644}\u{646}\u{647}\u{627}\u{64a}\u{629}",
    )
    ∷ (
      "notifications.recipientEmailLabel",
      "\u{627}\u{644}\u{628}\u{631}\u{64a}\u{62f} \u{627}\u{644}\u{625}\u{644}\u{643}\u{62a}\u{631}\u{648}\u{646}\u{64a} \u{644}\u{644}\u{645}\u{633}\u{62a}\u{644}\u{645}",
    )
    ∷ (
      "notifications.saveDomainPolicy",
      "\u{62d}\u{641}\u{638} \u{633}\u{64a}\u{627}\u{633}\u{629} \u{627}\u{644}\u{645}\u{62c}\u{627}\u{644}",
    )
    ∷ ("notifications.channels", "\u{627}\u{644}\u{642}\u{646}\u{648}\u{627}\u{62a}")
    ∷ (
      "settings.title",
      "\u{625}\u{639}\u{62f}\u{627}\u{62f}\u{627}\u{62a} \u{627}\u{644}\u{62d}\u{633}\u{627}\u{628}",
    )
    ∷ (
      "notifications.authHeaderNamePlaceholder",
      "X-Webhook-\u{627}\u{644}\u{631}\u{645}\u{632} \u{627}\u{644}\u{645}\u{645}\u{64a}\u{632}",
    )
    ∷ ("notifications.thresholdsPlaceholder", "30، 7، 1")
    ∷ ("settings.optionalEmailPlaceholder", "name@example.com")
    ∷ ("notifications.telegramChatPlaceholder", "123456789")
    ∷ (
      "notifications.currentThresholdInput",
      "\u{627}\u{644}\u{625}\u{62f}\u{62e}\u{627}\u{644} \u{627}\u{644}\u{62d}\u{627}\u{644}\u{64a}: {{value}}",
    )
    ∷ (
      "notifications.primaryEmailPlaceholder",
      "\u{627}\u{644}\u{645}\u{62a}\u{644}\u{642}\u{64a}@example.com",
    )
    ∷ (
      "notifications.authHeaderValue",
      "\u{642}\u{64a}\u{645}\u{629} \u{631}\u{623}\u{633} \u{627}\u{644}\u{645}\u{635}\u{627}\u{62f}\u{642}\u{629}",
    )
    ∷ (
      "notifications.thresholdsLabel",
      "\u{627}\u{644}\u{62d}\u{62f}\u{648}\u{62f} (\u{627}\u{644}\u{623}\u{64a}\u{627}\u{645}، \u{645}\u{641}\u{635}\u{648}\u{644}\u{629} \u{628}\u{641}\u{648}\u{627}\u{635}\u{644})",
    )
    ∷ (
      "settings.description",
      "\u{625}\u{62f}\u{627}\u{631}\u{629} \u{627}\u{633}\u{645} \u{627}\u{644}\u{645}\u{633}\u{62a}\u{62e}\u{62f}\u{645} \u{627}\u{644}\u{62e}\u{627}\u{635} \u{628}\u{643} \u{648}\u{631}\u{628}\u{637} \u{639}\u{646}\u{648}\u{627}\u{646} \u{628}\u{631}\u{64a}\u{62f} \u{625}\u{644}\u{643}\u{62a}\u{631}\u{648}\u{646}\u{64a} \u{627}\u{62e}\u{62a}\u{64a}\u{627}\u{631}\u{64a} \u{644}\u{644}\u{625}\u{634}\u{639}\u{627}\u{631}\u{627}\u{62a} \u{623}\u{648} \u{627}\u{633}\u{62a}\u{639}\u{627}\u{62f}\u{629} \u{643}\u{644}\u{645}\u{629} \u{627}\u{644}\u{645}\u{631}\u{648}\u{631}.",
    )
    ∷ (
      "settings.emailHint",
      "\u{647}\u{630}\u{627} \u{627}\u{644}\u{628}\u{631}\u{64a}\u{62f} \u{627}\u{644}\u{625}\u{644}\u{643}\u{62a}\u{631}\u{648}\u{646}\u{64a} \u{627}\u{62e}\u{62a}\u{64a}\u{627}\u{631}\u{64a}. \u{64a}\u{645}\u{643}\u{646}\u{643} \u{627}\u{633}\u{62a}\u{62e}\u{62f}\u{627}\u{645}\u{647} \u{644}\u{644}\u{625}\u{634}\u{639}\u{627}\u{631}\u{627}\u{62a} \u{648}\u{627}\u{633}\u{62a}\u{639}\u{627}\u{62f}\u{629} \u{643}\u{644}\u{645}\u{629} \u{627}\u{644}\u{645}\u{631}\u{648}\u{631} \u{644}\u{627}\u{62d}\u{642}ً\u{627}.",
    )
    ∷ (
      "settings.publicPageTitle",
      "\u{635}\u{641}\u{62d}\u{629} \u{627}\u{644}\u{62d}\u{627}\u{644}\u{629} \u{627}\u{644}\u{639}\u{627}\u{645}\u{629}",
    )
    ∷ (
      "settings.publicPageSubtitlePlaceholder",
      "\u{645}\u{62b}\u{627}\u{644}: \u{646}\u{638}\u{631}\u{629} \u{639}\u{627}\u{645}\u{629} \u{645}\u{628}\u{627}\u{634}\u{631}\u{629} \u{639}\u{644}\u{649} \u{635}\u{62d}\u{629} SSL \u{648}\u{627}\u{646}\u{62a}\u{647}\u{627}\u{621} \u{627}\u{644}\u{635}\u{644}\u{627}\u{62d}\u{64a}\u{629}",
    )
    ∷ (
      "settings.publicPageTitlePlaceholder",
      "\u{645}\u{62b}\u{627}\u{644}: \u{62d}\u{627}\u{644}\u{629} \u{627}\u{644}\u{625}\u{646}\u{62a}\u{627}\u{62c} SSL",
    )
    ∷ (
      "settings.publicPageDescription",
      "\u{642}\u{645} \u{628}\u{62a}\u{62e}\u{635}\u{64a}\u{635} \u{627}\u{644}\u{639}\u{646}\u{648}\u{627}\u{646} \u{648}\u{627}\u{644}\u{639}\u{646}\u{648}\u{627}\u{646} \u{627}\u{644}\u{641}\u{631}\u{639}\u{64a} \u{648}\u{627}\u{644}\u{646}\u{633}\u{62e}\u{629} \u{627}\u{644}\u{645}\u{648}\u{627}\u{62c}\u{647}\u{629} \u{644}\u{644}\u{62e}\u{627}\u{631}\u{62c} \u{644}\u{635}\u{641}\u{62d}\u{629} \u{627}\u{644}\u{62d}\u{627}\u{644}\u{629} \u{627}\u{644}\u{639}\u{627}\u{645}\u{629} \u{627}\u{644}\u{62e}\u{627}\u{635}\u{629} \u{628}\u{643}.",
    )
    ∷ (
      "settings.publicPageTitleLabel",
      "\u{639}\u{646}\u{648}\u{627}\u{646} \u{627}\u{644}\u{635}\u{641}\u{62d}\u{629} \u{627}\u{644}\u{639}\u{627}\u{645}\u{629}",
    )
    ∷ ("settings.publicPagePreview", "\u{645}\u{639}\u{627}\u{64a}\u{646}\u{629}")
    ∷ (
      "settings.saveError",
      "\u{63a}\u{64a}\u{631} \u{642}\u{627}\u{62f}\u{631} \u{639}\u{644}\u{649} \u{62a}\u{62d}\u{62f}\u{64a}\u{62b} \u{625}\u{639}\u{62f}\u{627}\u{62f}\u{627}\u{62a} \u{627}\u{644}\u{62d}\u{633}\u{627}\u{628}",
    )
    ∷ (
      "settings.saveSuccess",
      "\u{62a}\u{645} \u{62a}\u{62d}\u{62f}\u{64a}\u{62b} \u{625}\u{639}\u{62f}\u{627}\u{62f}\u{627}\u{62a} \u{627}\u{644}\u{62d}\u{633}\u{627}\u{628}.",
    )
    ∷ (
      "settings.publicPageTitleHint",
      "\u{627}\u{62a}\u{631}\u{643} \u{647}\u{630}\u{627} \u{627}\u{644}\u{62d}\u{642}\u{644} \u{641}\u{627}\u{631}\u{63a}ً\u{627} \u{644}\u{627}\u{633}\u{62a}\u{62e}\u{62f}\u{627}\u{645} \u{627}\u{633}\u{645}\u{643} \u{627}\u{644}\u{62d}\u{627}\u{644}\u{64a} workspace.",
    )
    ∷ (
      "settings.openPublicPage",
      "\u{641}\u{62a}\u{62d} \u{627}\u{644}\u{635}\u{641}\u{62d}\u{629} \u{627}\u{644}\u{639}\u{627}\u{645}\u{629}",
    )
    ∷ (
      "settings.publicPageSubtitleLabel",
      "\u{627}\u{644}\u{639}\u{646}\u{648}\u{627}\u{646} \u{627}\u{644}\u{641}\u{631}\u{639}\u{64a} \u{644}\u{644}\u{635}\u{641}\u{62d}\u{629} \u{627}\u{644}\u{639}\u{627}\u{645}\u{629}",
    )
    ∷ (
      "dashboard.publicPageTitle",
      "\u{635}\u{641}\u{62d}\u{629} \u{627}\u{644}\u{62d}\u{627}\u{644}\u{629} \u{627}\u{644}\u{639}\u{627}\u{645}\u{629}",
    )
    ∷ (
      "settings.noEmailBound",
      "\u{644}\u{627} \u{64a}\u{648}\u{62c}\u{62f} \u{628}\u{631}\u{64a}\u{62f} \u{625}\u{644}\u{643}\u{62a}\u{631}\u{648}\u{646}\u{64a} \u{645}\u{644}\u{632}\u{645}",
    )
    ∷ (
      "settings.publicPageUrlLabel",
      "\u{627}\u{644}\u{635}\u{641}\u{62d}\u{629} \u{627}\u{644}\u{639}\u{627}\u{645}\u{629} URL",
    )
    ∷ (
      "dashboard.overviewTitle",
      "\u{646}\u{638}\u{631}\u{629} \u{639}\u{627}\u{645}\u{629} \u{639}\u{644}\u{649} \u{627}\u{644}\u{645}\u{631}\u{627}\u{642}\u{628}\u{629}",
    )
    ∷ (
      "settings.publicPageSubtitleHint",
      "\u{627}\u{62a}\u{631}\u{643} \u{647}\u{630}\u{627} \u{641}\u{627}\u{631}\u{63a}ً\u{627} \u{644}\u{625}\u{638}\u{647}\u{627}\u{631} \u{627}\u{644}\u{646}\u{633}\u{62e}\u{629} \u{627}\u{644}\u{648}\u{635}\u{641}\u{64a}\u{629} \u{627}\u{644}\u{627}\u{641}\u{62a}\u{631}\u{627}\u{636}\u{64a}\u{629}.",
    )
    ∷ (
      "dashboard.openPublicPage",
      "\u{641}\u{62a}\u{62d} \u{627}\u{644}\u{635}\u{641}\u{62d}\u{629} \u{627}\u{644}\u{639}\u{627}\u{645}\u{629}",
    )
    ∷ (
      "dashboard.overviewDescription",
      "\u{631}\u{627}\u{62c}\u{639} \u{635}\u{62d}\u{629} \u{627}\u{644}\u{634}\u{647}\u{627}\u{62f}\u{629} \u{648}\u{639}\u{62f}\u{62f} \u{627}\u{644}\u{645}\u{634}\u{643}\u{644}\u{627}\u{62a} \u{648}\u{627}\u{646}\u{62a}\u{647}\u{627}\u{621} \u{627}\u{644}\u{635}\u{644}\u{627}\u{62d}\u{64a}\u{629} \u{627}\u{644}\u{62a}\u{627}\u{644}\u{64a} \u{645}\u{646} \u{645}\u{643}\u{627}\u{646} \u{648}\u{627}\u{62d}\u{62f}.",
    )
    ∷ (
      "dashboard.loadingOverview",
      "\u{62c}\u{627}\u{631}ٍ \u{62a}\u{62d}\u{645}\u{64a}\u{644} \u{627}\u{644}\u{646}\u{638}\u{631}\u{629} \u{627}\u{644}\u{639}\u{627}\u{645}\u{629} \u{639}\u{644}\u{649} \u{627}\u{644}\u{645}\u{631}\u{627}\u{642}\u{628}\u{629}…",
    )
    ∷ ("admin.registrationTitle", "\u{62a}\u{633}\u{62c}\u{64a}\u{644}")
    ∷ (
      "admin.platformSettingsDescription",
      "\u{627}\u{644}\u{62a}\u{62d}\u{643}\u{645} \u{641}\u{64a} \u{62a}\u{633}\u{62c}\u{64a}\u{644} \u{627}\u{644}\u{62e}\u{62f}\u{645}\u{629} \u{627}\u{644}\u{630}\u{627}\u{62a}\u{64a}\u{629} \u{648}\u{625}\u{62f}\u{627}\u{631}\u{629} tenant workspaces.",
    )
    ∷ (
      "dashboard.publicPageDescription",
      "\u{627}\u{643}\u{634}\u{641} \u{639}\u{646} \u{62d}\u{627}\u{644}\u{629} \u{634}\u{647}\u{627}\u{62f}\u{62a}\u{643} \u{627}\u{644}\u{62d}\u{627}\u{644}\u{64a}\u{629} \u{639}\u{644}\u{646}ً\u{627} \u{648}\u{627}\u{646}\u{62a}\u{642}\u{644} \u{625}\u{644}\u{64a}\u{647}\u{627} \u{628}\u{646}\u{642}\u{631}\u{629} \u{648}\u{627}\u{62d}\u{62f}\u{629}.",
    )
    ∷ (
      "admin.registrationEnabledDescription",
      "\u{64a}\u{645}\u{643}\u{646} \u{644}\u{644}\u{645}\u{633}\u{62a}\u{62e}\u{62f}\u{645}\u{64a}\u{646} \u{627}\u{644}\u{62c}\u{62f}\u{62f} \u{625}\u{646}\u{634}\u{627}\u{621} \u{62d}\u{633}\u{627}\u{628}\u{627}\u{62a}.",
    )
    ∷ (
      "admin.registrationDisabledDescription",
      "\u{627}\u{644}\u{62a}\u{633}\u{62c}\u{64a}\u{644} \u{645}\u{639}\u{637}\u{644} \u{62d}\u{627}\u{644}\u{64a}\u{627}.",
    )
    ∷ ("dashboard.publicUrl", "\u{639}\u{627}\u{645} URL")
    ∷ (
      "dashboard.currentHeadline",
      "\u{627}\u{644}\u{639}\u{646}\u{648}\u{627}\u{646} \u{627}\u{644}\u{62d}\u{627}\u{644}\u{64a}",
    )
    ∷ (
      "admin.platformSettingsTitle",
      "\u{625}\u{639}\u{62f}\u{627}\u{62f}\u{627}\u{62a} \u{627}\u{644}\u{645}\u{646}\u{635}\u{629}",
    )
    ∷ (
      "dashboard.customizePublicPage",
      "\u{62a}\u{62e}\u{635}\u{64a}\u{635} \u{627}\u{644}\u{635}\u{641}\u{62d}\u{629} \u{627}\u{644}\u{639}\u{627}\u{645}\u{629}",
    )
    ∷ (
      "dashboard.overallStatus",
      "\u{627}\u{644}\u{648}\u{636}\u{639} \u{627}\u{644}\u{639}\u{627}\u{645}",
    )
    ∷ (
      "admin.searchPlaceholder",
      "\u{627}\u{628}\u{62d}\u{62b} \u{628}\u{627}\u{633}\u{645} \u{627}\u{644}\u{645}\u{633}\u{627}\u{62d}\u{629} \u{623}\u{648} \u{627}\u{633}\u{645} \u{627}\u{644}\u{645}\u{633}\u{62a}\u{62e}\u{62f}\u{645} \u{623}\u{648} \u{627}\u{644}\u{628}\u{631}\u{64a}\u{62f} \u{627}\u{644}\u{625}\u{644}\u{643}\u{62a}\u{631}\u{648}\u{646}\u{64a} \u{623}\u{648} \u{627}\u{644}\u{645}\u{639}\u{631}ّ\u{641}",
    )
    ∷ (
      "admin.disableRegistration",
      "\u{62a}\u{639}\u{637}\u{64a}\u{644} \u{627}\u{644}\u{62a}\u{633}\u{62c}\u{64a}\u{644}",
    )
    ∷ (
      "admin.searchLabel",
      "\u{627}\u{644}\u{628}\u{62d}\u{62b} \u{639}\u{646} \u{645}\u{633}\u{62a}\u{623}\u{62c}\u{631}",
    )
    ∷ (
      "admin.tenantsDescription",
      "\u{642}\u{645} \u{628}\u{645}\u{631}\u{627}\u{62c}\u{639}\u{629} \u{62d}\u{627}\u{644}\u{629} tenant \u{641}\u{64a} \u{62c}\u{62f}\u{648}\u{644} \u{642}\u{627}\u{628}\u{644} \u{644}\u{644}\u{62a}\u{648}\u{633}\u{639}، \u{62b}\u{645} \u{627}\u{641}\u{62a}\u{62d} workspace \u{644}\u{62a}\u{639}\u{637}\u{64a}\u{644} \u{627}\u{644}\u{648}\u{635}\u{648}\u{644} \u{623}\u{648} \u{625}\u{639}\u{627}\u{62f}\u{629} \u{62a}\u{639}\u{64a}\u{64a}\u{646} \u{643}\u{644}\u{645}\u{627}\u{62a} \u{627}\u{644}\u{645}\u{631}\u{648}\u{631} \u{623}\u{648} \u{62d}\u{630}\u{641} tenant.",
    )
    ∷ ("admin.selectedWorkspaceDescription", "{{email}} · {{tenant}}")
    ∷ (
      "admin.editTenantDomainTitle",
      "\u{62a}\u{62d}\u{631}\u{64a}\u{631} \u{627}\u{644}\u{645}\u{62c}\u{627}\u{644}",
    )
    ∷ (
      "admin.createTenantDomainTitle",
      "\u{625}\u{646}\u{634}\u{627}\u{621} \u{646}\u{637}\u{627}\u{642} \u{644}\u{640} tenant",
    )
    ∷ (
      "admin.tenantsTitle",
      "\u{627}\u{644}\u{645}\u{633}\u{62a}\u{623}\u{62c}\u{631}\u{64a}\u{646}",
    )
    ∷ (
      "admin.selectedWorkspaceTitle",
      "\u{62a}\u{645} \u{627}\u{644}\u{62a}\u{62d}\u{62f}\u{64a}\u{62f} workspace",
    )
    ∷ (
      "admin.tenantDomainsTitle",
      "\u{645}\u{62c}\u{627}\u{644}\u{627}\u{62a} \u{627}\u{644}\u{645}\u{633}\u{62a}\u{623}\u{62c}\u{631}",
    )
    ∷ (
      "admin.createEndpointTitle",
      "\u{625}\u{646}\u{634}\u{627}\u{621} \u{646}\u{642}\u{637}\u{629} \u{627}\u{644}\u{646}\u{647}\u{627}\u{64a}\u{629}",
    )
    ∷ (
      "admin.enableRegistration",
      "\u{62a}\u{645}\u{643}\u{64a}\u{646} \u{627}\u{644}\u{62a}\u{633}\u{62c}\u{64a}\u{644}",
    )
    ∷ (
      "admin.editEndpointTitle",
      "\u{62a}\u{62d}\u{631}\u{64a}\u{631} \u{646}\u{642}\u{637}\u{629} \u{627}\u{644}\u{646}\u{647}\u{627}\u{64a}\u{629}",
    )
    ∷ (
      "admin.saveEndpoint",
      "\u{62d}\u{641}\u{638} \u{646}\u{642}\u{637}\u{629} \u{627}\u{644}\u{646}\u{647}\u{627}\u{64a}\u{629}",
    )
    ∷ (
      "admin.addEndpoint",
      "\u{623}\u{636}\u{641} \u{646}\u{642}\u{637}\u{629} \u{627}\u{644}\u{646}\u{647}\u{627}\u{64a}\u{629}",
    )
    ∷ ("admin.activeBadge", "\u{646}\u{634}\u{64a}\u{637}")
    ∷ ("admin.disabledBadge", "\u{639}\u{627}\u{62c}\u{632}")
    ∷ (
      "admin.tenantDomainMeta",
      "\u{627}\u{644}\u{62d}\u{627}\u{644}\u{629}: {{status}} · \u{627}\u{644}\u{623}\u{64a}\u{627}\u{645}: {{days}}",
    )
    ∷ ("admin.domainCountLabel", "\u{627}\u{644}\u{645}\u{62c}\u{627}\u{644}\u{627}\u{62a}")
    ∷ ("admin.healthyCountLabel", "\u{635}\u{62d}\u{64a}\u{62d}")
    ∷ (
      "admin.pendingCountLabel",
      "\u{642}\u{64a}\u{62f} \u{627}\u{644}\u{627}\u{646}\u{62a}\u{638}\u{627}\u{631}",
    )
    ∷ ("admin.manageTenant", "\u{625}\u{62f}\u{627}\u{631}\u{629}")
    ∷ (
      "admin.selectDomainForOverride",
      "\u{62d}\u{62f}\u{62f} \u{627}\u{644}\u{645}\u{62c}\u{627}\u{644} \u{623}\u{639}\u{644}\u{627}\u{647} \u{644}\u{625}\u{62f}\u{627}\u{631}\u{629} \u{633}\u{64a}\u{627}\u{633}\u{629} \u{627}\u{644}\u{62a}\u{62c}\u{627}\u{648}\u{632} \u{627}\u{644}\u{62e}\u{627}\u{635}\u{629} \u{628}\u{647}.",
    )
    ∷ (
      "admin.tenantEndpointsTitle",
      "\u{646}\u{642}\u{627}\u{637} \u{646}\u{647}\u{627}\u{64a}\u{629} \u{627}\u{644}\u{645}\u{633}\u{62a}\u{623}\u{62c}\u{631}",
    )
    ∷ ("admin.errorCountLabel", "\u{623}\u{62e}\u{637}\u{627}\u{621}")
    ∷ (
      "admin.selectDomainOverride",
      "\u{62d}\u{62f}\u{62f} \u{62a}\u{62c}\u{627}\u{648}\u{632} \u{627}\u{644}\u{645}\u{62c}\u{627}\u{644}",
    )
    ∷ (
      "admin.tenantPoliciesTitle",
      "\u{633}\u{64a}\u{627}\u{633}\u{627}\u{62a} \u{627}\u{644}\u{645}\u{633}\u{62a}\u{623}\u{62c}\u{631}",
    )
    ∷ (
      "admin.saveOverridePolicy",
      "\u{62d}\u{641}\u{638} \u{633}\u{64a}\u{627}\u{633}\u{629} \u{627}\u{644}\u{62a}\u{62c}\u{627}\u{648}\u{632}",
    )
    ∷ (
      "admin.publicStatusPage",
      "\u{635}\u{641}\u{62d}\u{629} \u{627}\u{644}\u{62d}\u{627}\u{644}\u{629} \u{627}\u{644}\u{639}\u{627}\u{645}\u{629}",
    )
    ∷ ("admin.saveDomain", "\u{62d}\u{641}\u{638} \u{627}\u{644}\u{645}\u{62c}\u{627}\u{644}")
    ∷ (
      "admin.noTenantMatches",
      "\u{644}\u{627} \u{64a}\u{648}\u{62c}\u{62f} \u{645}\u{633}\u{62a}\u{623}\u{62c}\u{631}\u{648}\u{646} \u{64a}\u{637}\u{627}\u{628}\u{642}\u{648}\u{646} \u{627}\u{644}\u{628}\u{62d}\u{62b} \u{627}\u{644}\u{62d}\u{627}\u{644}\u{64a}.",
    )
    ∷ (
      "admin.tenantAccessDescription",
      "\u{642}\u{645} \u{628}\u{62a}\u{639}\u{637}\u{64a}\u{644} \u{627}\u{644}\u{648}\u{635}\u{648}\u{644} \u{639}\u{644}\u{649} \u{627}\u{644}\u{641}\u{648}\u{631}، \u{623}\u{648} \u{642}\u{645} \u{628}\u{625}\u{632}\u{627}\u{644}\u{629} tenant، \u{623}\u{648} \u{642}\u{645} \u{628}\u{62a}\u{62f}\u{648}\u{64a}\u{631} \u{643}\u{644}\u{645}\u{629} \u{645}\u{631}\u{648}\u{631} \u{645}\u{627}\u{644}\u{643} tenant.",
    )
    ∷ (
      "admin.tenantAccessTitle",
      "\u{627}\u{644}\u{62a}\u{62d}\u{643}\u{645} \u{641}\u{64a} \u{648}\u{635}\u{648}\u{644} \u{627}\u{644}\u{645}\u{633}\u{62a}\u{623}\u{62c}\u{631}",
    )
    ∷ ("admin.deleteTenant", "\u{62d}\u{630}\u{641} tenant")
    ∷ ("admin.disableTenant", "\u{62a}\u{639}\u{637}\u{64a}\u{644} tenant")
    ∷ (
      "admin.resetPasswordDescription",
      "\u{64a}\u{624}\u{62f}\u{64a} \u{647}\u{630}\u{627} \u{625}\u{644}\u{649} \u{62a}\u{62d}\u{62f}\u{64a}\u{62b} \u{643}\u{644}\u{645}\u{629} \u{645}\u{631}\u{648}\u{631} \u{645}\u{627}\u{644}\u{643} tenant \u{648}\u{625}\u{644}\u{63a}\u{627}\u{621} \u{627}\u{644}\u{62c}\u{644}\u{633}\u{627}\u{62a} \u{627}\u{644}\u{62d}\u{627}\u{644}\u{64a}\u{629}.",
    )
    ∷ ("admin.enableTenant", "\u{62a}\u{645}\u{643}\u{64a}\u{646} tenant")
    ∷ (
      "admin.noTenants",
      "\u{644}\u{627} \u{64a}\u{648}\u{62c}\u{62f} tenant workspaces \u{645}\u{62a}\u{627}\u{62d}.",
    )
    ∷ (
      "admin.tenantDetailDescription",
      "\u{627}\u{644}\u{645}\u{633}\u{62a}\u{623}\u{62c}\u{631} ID #{{tenantId}}",
    )
    ∷ (
      "admin.resetPasswordTitle",
      "\u{625}\u{639}\u{627}\u{62f}\u{629} \u{62a}\u{639}\u{64a}\u{64a}\u{646} \u{643}\u{644}\u{645}\u{629} \u{627}\u{644}\u{645}\u{631}\u{648}\u{631} tenant",
    )
    ∷ (
      "admin.updateTenantPassword",
      "\u{62a}\u{62d}\u{62f}\u{64a}\u{62b} \u{643}\u{644}\u{645}\u{629} \u{627}\u{644}\u{645}\u{631}\u{648}\u{631} tenant",
    )
    ∷ (
      "admin.tenantEnabledSuccess",
      "\u{62a}\u{645} \u{62a}\u{645}\u{643}\u{64a}\u{646} \u{627}\u{644}\u{645}\u{633}\u{62a}\u{623}\u{62c}\u{631}.",
    )
    ∷ (
      "admin.tenantDeletedSuccess",
      "\u{62a}\u{645} \u{62d}\u{630}\u{641} \u{627}\u{644}\u{645}\u{633}\u{62a}\u{623}\u{62c}\u{631}.",
    )
    ∷ (
      "admin.tenantStatusError",
      "\u{63a}\u{64a}\u{631} \u{642}\u{627}\u{62f}\u{631} \u{639}\u{644}\u{649} \u{62a}\u{62d}\u{62f}\u{64a}\u{62b} \u{62d}\u{627}\u{644}\u{629} tenant.",
    )
    ∷ (
      "admin.tenantDeleteError",
      "\u{63a}\u{64a}\u{631} \u{642}\u{627}\u{62f}\u{631} \u{639}\u{644}\u{649} \u{62d}\u{630}\u{641} tenant.",
    )
    ∷ (
      "admin.tenantDisabledSuccess",
      "\u{62a}\u{645} \u{62a}\u{639}\u{637}\u{64a}\u{644} \u{627}\u{644}\u{645}\u{633}\u{62a}\u{623}\u{62c}\u{631}.",
    )
    ∷ (
      "admin.passwordUpdatedSuccess",
      "\u{62a}\u{645} \u{62a}\u{62d}\u{62f}\u{64a}\u{62b} \u{643}\u{644}\u{645}\u{629} \u{645}\u{631}\u{648}\u{631} \u{627}\u{644}\u{645}\u{633}\u{62a}\u{623}\u{62c}\u{631}.",
    )
    ∷ ("statusPage.healthyMonitors", "\u{635}\u{62d}\u{64a}\u{62d}")
    ∷ (
      "statusPage.signIn",
      "\u{62a}\u{633}\u{62c}\u{64a}\u{644} \u{627}\u{644}\u{62f}\u{62e}\u{648}\u{644}",
    )
    ∷ (
      "admin.selectTenantPrompt",
      "\u{62d}\u{62f}\u{62f} tenant \u{644}\u{625}\u{62f}\u{627}\u{631}\u{629} \u{627}\u{644}\u{648}\u{635}\u{648}\u{644} \u{625}\u{644}\u{64a}\u{647} \u{648}\u{635}\u{641}\u{62d}\u{629} \u{627}\u{644}\u{62d}\u{627}\u{644}\u{629} \u{627}\u{644}\u{639}\u{627}\u{645}\u{629} \u{627}\u{644}\u{62e}\u{627}\u{635}\u{629} \u{628}\u{647}.",
    )
    ∷ (
      "statusPage.subtitle",
      "\u{646}\u{638}\u{631}\u{629} \u{639}\u{627}\u{645}\u{629} \u{645}\u{628}\u{627}\u{634}\u{631}\u{629} \u{639}\u{644}\u{649} \u{635}\u{62d}\u{629} \u{634}\u{647}\u{627}\u{62f}\u{629} SSL \u{648}\u{627}\u{646}\u{62a}\u{647}\u{627}\u{621} \u{635}\u{644}\u{627}\u{62d}\u{64a}\u{62a}\u{647}\u{627}.",
    )
    ∷ ("statusPage.totalMonitors", "\u{627}\u{644}\u{645}\u{62c}\u{627}\u{644}\u{627}\u{62a}")
    ∷ (
      "statusPage.pendingMonitors",
      "\u{642}\u{64a}\u{62f} \u{627}\u{644}\u{627}\u{646}\u{62a}\u{638}\u{627}\u{631}",
    )
    ∷ (
      "admin.passwordUpdateError",
      "\u{63a}\u{64a}\u{631} \u{642}\u{627}\u{62f}\u{631} \u{639}\u{644}\u{649} \u{62a}\u{62d}\u{62f}\u{64a}\u{62b} \u{643}\u{644}\u{645}\u{629} \u{627}\u{644}\u{645}\u{631}\u{648}\u{631} tenant.",
    )
    ∷ (
      "statusPage.titleFallback",
      "\u{62d}\u{627}\u{644}\u{629} \u{627}\u{644}\u{634}\u{647}\u{627}\u{62f}\u{629}",
    )
    ∷ (
      "statusPage.empty",
      "\u{644}\u{627} \u{62a}\u{62a}\u{648}\u{641}\u{631} \u{623}\u{62c}\u{647}\u{632}\u{629} \u{645}\u{631}\u{627}\u{642}\u{628}\u{629} \u{639}\u{627}\u{645}\u{629} \u{644}\u{647}\u{630}\u{627} tenant.",
    )
    ∷ (
      "statusPage.subtitleFallback",
      "\u{646}\u{638}\u{631}\u{629} \u{639}\u{627}\u{645}\u{629} \u{645}\u{628}\u{627}\u{634}\u{631}\u{629} \u{639}\u{644}\u{649} \u{635}\u{62d}\u{629} \u{634}\u{647}\u{627}\u{62f}\u{629} SSL \u{648}\u{627}\u{646}\u{62a}\u{647}\u{627}\u{621} \u{635}\u{644}\u{627}\u{62d}\u{64a}\u{62a}\u{647}\u{627}.",
    )
    ∷ (
      "statusPage.nextExpiry",
      "\u{627}\u{646}\u{62a}\u{647}\u{627}\u{621} \u{627}\u{644}\u{635}\u{644}\u{627}\u{62d}\u{64a}\u{629} \u{627}\u{644}\u{645}\u{642}\u{628}\u{644}",
    )
    ∷ (
      "statusPage.domainOverview",
      "\u{645}\u{631}\u{627}\u{642}\u{628}\u{648} \u{627}\u{644}\u{634}\u{647}\u{627}\u{62f}\u{627}\u{62a}",
    )
    ∷ []
