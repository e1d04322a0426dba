-- ===== src/Translation/Messages/Arabic.antt =====
-- The entries of `messages["ar"]` in apps/web/src/lib/i18n.tsx, in their order: the first half, and all.
mod Rest
use go_check_ssl.Prelude.{String, List, ◌∷◌, [], ◌++◌}
use go_check_ssl.Translation.Messages.Arabic.Rest.{ar_rest}

unfoldable pub ar_first : List (String × String)
ar_first =
    (
      "common.newPassword",
      "\u{643}\u{644}\u{645}\u{629} \u{627}\u{644}\u{645}\u{631}\u{648}\u{631} \u{627}\u{644}\u{62c}\u{62f}\u{64a}\u{62f}\u{629}",
    )
    ∷ (
      "common.username",
      "\u{627}\u{633}\u{645} \u{627}\u{644}\u{645}\u{633}\u{62a}\u{62e}\u{62f}\u{645}",
    )
    ∷ ("common.language", "\u{644}\u{63a}\u{629}")
    ∷ (
      "common.logout",
      "\u{62a}\u{633}\u{62c}\u{64a}\u{644} \u{627}\u{644}\u{62e}\u{631}\u{648}\u{62c}",
    )
    ∷ ("common.password", "\u{643}\u{644}\u{645}\u{629} \u{627}\u{644}\u{645}\u{631}\u{648}\u{631}")
    ∷ ("common.status", "\u{62d}\u{627}\u{644}\u{629}")
    ∷ ("common.port", "\u{627}\u{644}\u{645}\u{646}\u{641}\u{630}")
    ∷ ("common.checkNow", "\u{62a}\u{62d}\u{642}\u{642} \u{627}\u{644}\u{622}\u{646}")
    ∷ ("common.actions", "\u{627}\u{644}\u{625}\u{62c}\u{631}\u{627}\u{621}\u{627}\u{62a}")
    ∷ ("common.edit", "\u{62a}\u{639}\u{62f}\u{64a}\u{644}")
    ∷ ("common.delete", "\u{62d}\u{630}\u{641}")
    ∷ ("common.cancel", "\u{64a}\u{644}\u{63a}\u{64a}")
    ∷ ("common.save", "\u{62d}\u{641}\u{638}")
    ∷ ("common.expand", "\u{62a}\u{648}\u{633}\u{64a}\u{639}")
    ∷ ("common.collapse", "\u{637}\u{64a}")
    ∷ ("common.type", "\u{627}\u{644}\u{646}\u{648}\u{639}")
    ∷ ("common.enabled", "\u{645}\u{641}\u{639}ّ\u{644}")
    ∷ ("common.none", "—")
    ∷ ("common.name", "\u{627}\u{633}\u{645}")
    ∷ ("common.validFrom", "\u{635}\u{627}\u{644}\u{62d} \u{645}\u{646}")
    ∷ (
      "common.resolvedIp",
      "\u{639}\u{646}\u{648}\u{627}\u{646} IP \u{627}\u{644}\u{646}\u{627}\u{62a}\u{62c}",
    )
    ∷ (
      "common.loadingSession",
      "\u{62c}\u{627}\u{631}ٍ \u{62a}\u{62d}\u{645}\u{64a}\u{644} \u{627}\u{644}\u{62c}\u{644}\u{633}\u{629}…",
    )
    ∷ (
      "common.commonName",
      "\u{627}\u{644}\u{627}\u{633}\u{645} \u{627}\u{644}\u{634}\u{627}\u{626}\u{639}",
    )
    ∷ ("common.hostname", "\u{627}\u{633}\u{645} \u{627}\u{644}\u{645}\u{636}\u{64a}\u{641}")
    ∷ (
      "common.daysLeft",
      "\u{627}\u{644}\u{623}\u{64a}\u{627}\u{645} \u{627}\u{644}\u{645}\u{62a}\u{628}\u{642}\u{64a}\u{629}",
    )
    ∷ (
      "common.email",
      "\u{627}\u{644}\u{628}\u{631}\u{64a}\u{62f} \u{627}\u{644}\u{625}\u{644}\u{643}\u{62a}\u{631}\u{648}\u{646}\u{64a}",
    )
    ∷ (
      "common.loadingDomains",
      "\u{62c}\u{627}\u{631}ٍ \u{62a}\u{62d}\u{645}\u{64a}\u{644} \u{627}\u{644}\u{646}\u{637}\u{627}\u{642}\u{627}\u{62a}…",
    )
    ∷ ("common.targetIp", "\u{639}\u{646}\u{648}\u{627}\u{646} IP \u{645}\u{62b}\u{628}\u{62a}")
    ∷ ("common.serialNumber", "\u{631}\u{642}\u{645} \u{633}\u{631}\u{64a}")
    ∷ ("common.subject", "\u{627}\u{644}\u{645}\u{648}\u{636}\u{648}\u{639}")
    ∷ ("nav.notifications", "\u{625}\u{634}\u{639}\u{627}\u{631}\u{627}\u{62a}")
    ∷ ("nav.settings", "\u{62d}\u{633}\u{627}\u{628}")
    ∷ ("nav.admin", "\u{627}\u{644}\u{625}\u{62f}\u{627}\u{631}\u{629}")
    ∷ (
      "nav.backToWorkspace",
      "\u{645}\u{633}\u{627}\u{62d}\u{629} \u{627}\u{644}\u{639}\u{645}\u{644}",
    )
    ∷ ("common.validTo", "\u{635}\u{627}\u{644}\u{62d} \u{62d}\u{62a}\u{649}")
    ∷ ("common.san", "SANs")
    ∷ ("common.lastChecked", "\u{622}\u{62e}\u{631} \u{641}\u{62d}\u{635}")
    ∷ ("common.issuer", "\u{62c}\u{647}\u{629} \u{627}\u{644}\u{625}\u{635}\u{62f}\u{627}\u{631}")
    ∷ (
      "status.pending",
      "\u{642}\u{64a}\u{62f} \u{627}\u{644}\u{627}\u{646}\u{62a}\u{638}\u{627}\u{631}",
    )
    ∷ (
      "common.signatureAlgorithm",
      "\u{62e}\u{648}\u{627}\u{631}\u{632}\u{645}\u{64a}\u{629} \u{627}\u{644}\u{62a}\u{648}\u{642}\u{64a}\u{639}",
    )
    ∷ ("nav.domains", "\u{627}\u{644}\u{645}\u{62c}\u{627}\u{644}\u{627}\u{62a}")
    ∷ ("status.healthy", "\u{633}\u{644}\u{64a}\u{645}")
    ∷ (
      "common.fingerprint",
      "SHA-256 \u{628}\u{635}\u{645}\u{629} \u{627}\u{644}\u{625}\u{635}\u{628}\u{639}",
    )
    ∷ ("status.error", "\u{62e}\u{637}\u{623}")
    ∷ ("endpointType.email", "Email")
    ∷ ("endpointType.telegram", "Telegram")
    ∷ ("endpointType.webhook", "Webhook")
    ∷ (
      "shell.title",
      "\u{645}\u{631}\u{627}\u{642}\u{628}\u{629} \u{634}\u{647}\u{627}\u{62f}\u{627}\u{62a} SSL",
    )
    ∷ (
      "validation.minInterval",
      "\u{627}\u{644}\u{62d}\u{62f} \u{627}\u{644}\u{623}\u{62f}\u{646}\u{649} \u{644}\u{644}\u{641}\u{627}\u{635}\u{644} \u{627}\u{644}\u{632}\u{645}\u{646}\u{64a} \u{647}\u{648} 60 \u{62b}\u{627}\u{646}\u{64a}\u{629}",
    )
    ∷ (
      "shell.adminTitle",
      "\u{645}\u{631}\u{643}\u{632} \u{625}\u{62f}\u{627}\u{631}\u{629} \u{627}\u{644}\u{645}\u{633}\u{62a}\u{623}\u{62c}\u{631}\u{64a}\u{646}",
    )
    ∷ (
      "validation.hostnameRequired",
      "\u{627}\u{633}\u{645} \u{627}\u{644}\u{645}\u{636}\u{64a}\u{641} \u{645}\u{637}\u{644}\u{648}\u{628}",
    )
    ∷ (
      "role.tenant_owner",
      "\u{645}\u{627}\u{644}\u{643} \u{627}\u{644}\u{645}\u{633}\u{62a}\u{623}\u{62c}\u{631}",
    )
    ∷ (
      "validation.portRange",
      "\u{64a}\u{62c}\u{628} \u{623}\u{646} \u{64a}\u{643}\u{648}\u{646} \u{627}\u{644}\u{645}\u{646}\u{641}\u{630} \u{628}\u{64a}\u{646} 1 \u{648}65535",
    )
    ∷ (
      "auth.signInTitle",
      "\u{62a}\u{633}\u{62c}\u{64a}\u{644} \u{627}\u{644}\u{62f}\u{62e}\u{648}\u{644}",
    )
    ∷ (
      "validation.portInvalid",
      "\u{64a}\u{62c}\u{628} \u{623}\u{646} \u{64a}\u{643}\u{648}\u{646} \u{627}\u{644}\u{645}\u{646}\u{641}\u{630} \u{639}\u{62f}\u{62f}ً\u{627} \u{635}\u{62d}\u{64a}\u{62d}ً\u{627} \u{635}\u{627}\u{644}\u{62d}ً\u{627}",
    )
    ∷ (
      "auth.signIn",
      "\u{62a}\u{633}\u{62c}\u{64a}\u{644} \u{627}\u{644}\u{62f}\u{62e}\u{648}\u{644}",
    )
    ∷ ("auth.createAccount", "\u{625}\u{646}\u{634}\u{627}\u{621} \u{62d}\u{633}\u{627}\u{628}")
    ∷ (
      "validation.nameRequired",
      "\u{627}\u{644}\u{627}\u{633}\u{645} \u{645}\u{637}\u{644}\u{648}\u{628}",
    )
    ∷ (
      "role.super_admin",
      "\u{627}\u{644}\u{645}\u{634}\u{631}\u{641} \u{627}\u{644}\u{639}\u{627}\u{645}",
    )
    ∷ (
      "auth.forgotPasswordLink",
      "\u{647}\u{644} \u{646}\u{633}\u{64a}\u{62a} \u{643}\u{644}\u{645}\u{629} \u{627}\u{644}\u{633}\u{631}\u{61f}",
    )
    ∷ ("validation.webhookUrlRequired", "Webhook URL \u{645}\u{637}\u{644}\u{648}\u{628}")
    ∷ (
      "validation.telegramChatIdRequired",
      "Telegram \u{627}\u{644}\u{62f}\u{631}\u{62f}\u{634}\u{629} ID \u{645}\u{637}\u{644}\u{648}\u{628}\u{629}",
    )
    ∷ (
      "validation.recipientEmailRequired",
      "\u{627}\u{644}\u{628}\u{631}\u{64a}\u{62f} \u{627}\u{644}\u{625}\u{644}\u{643}\u{62a}\u{631}\u{648}\u{646}\u{64a} \u{644}\u{644}\u{645}\u{633}\u{62a}\u{644}\u{645} \u{645}\u{637}\u{644}\u{648}\u{628}",
    )
    ∷ (
      "auth.createAccountButton",
      "\u{625}\u{646}\u{634}\u{627}\u{621} \u{62d}\u{633}\u{627}\u{628}",
    )
    ∷ (
      "auth.signInDescription",
      "\u{642}\u{645} \u{628}\u{62a}\u{633}\u{62c}\u{64a}\u{644} \u{627}\u{644}\u{62f}\u{62e}\u{648}\u{644} \u{628}\u{627}\u{633}\u{62a}\u{62e}\u{62f}\u{627}\u{645} \u{627}\u{633}\u{645} \u{627}\u{644}\u{645}\u{633}\u{62a}\u{62e}\u{62f}\u{645} \u{627}\u{644}\u{62e}\u{627}\u{635} \u{628}\u{643} \u{644}\u{625}\u{62f}\u{627}\u{631}\u{629} \u{645}\u{631}\u{627}\u{642}\u{628}\u{629} SSL \u{648}\u{627}\u{644}\u{625}\u{634}\u{639}\u{627}\u{631}\u{627}\u{62a} \u{648}\u{625}\u{639}\u{62f}\u{627}\u{62f}\u{627}\u{62a} \u{627}\u{644}\u{645}\u{634}\u{631}\u{641}.",
    )
    ∷ (
      "auth.backToLogin",
      "\u{627}\u{644}\u{639}\u{648}\u{62f}\u{629} \u{644}\u{62a}\u{633}\u{62c}\u{64a}\u{644} \u{627}\u{644}\u{62f}\u{62e}\u{648}\u{644}",
    )
    ∷ ("auth.workspaceName", "Workspace \u{627}\u{644}\u{627}\u{633}\u{645}")
    ∷ (
      "auth.forgotPasswordTitle",
      "\u{647}\u{644} \u{646}\u{633}\u{64a}\u{62a} \u{643}\u{644}\u{645}\u{629} \u{627}\u{644}\u{633}\u{631}",
    )
    ∷ (
      "auth.alreadyHaveAccount",
      "\u{647}\u{644} \u{644}\u{62f}\u{64a}\u{643} \u{62d}\u{633}\u{627}\u{628} \u{628}\u{627}\u{644}\u{641}\u{639}\u{644}\u{61f}",
    )
    ∷ (
      "auth.registrationFallbackError",
      "\u{63a}\u{64a}\u{631} \u{642}\u{627}\u{62f}\u{631} \u{639}\u{644}\u{649} \u{627}\u{644}\u{62a}\u{633}\u{62c}\u{64a}\u{644}",
    )
    ∷ (
      "auth.registrationSuccess",
      "\u{62a}\u{645} \u{627}\u{644}\u{62a}\u{633}\u{62c}\u{64a}\u{644} \u{628}\u{646}\u{62c}\u{627}\u{62d}. \u{64a}\u{645}\u{643}\u{646}\u{643} \u{62a}\u{633}\u{62c}\u{64a}\u{644} \u{627}\u{644}\u{62f}\u{62e}\u{648}\u{644} \u{627}\u{644}\u{622}\u{646}.",
    )
    ∷ (
      "auth.usernameOrEmail",
      "\u{627}\u{633}\u{645} \u{627}\u{644}\u{645}\u{633}\u{62a}\u{62e}\u{62f}\u{645} \u{623}\u{648} \u{627}\u{644}\u{628}\u{631}\u{64a}\u{62f} \u{627}\u{644}\u{625}\u{644}\u{643}\u{62a}\u{631}\u{648}\u{646}\u{64a} \u{627}\u{644}\u{645}\u{642}\u{64a}\u{62f}",
    )
    ∷ (
      "auth.loginFallbackError",
      "\u{63a}\u{64a}\u{631} \u{642}\u{627}\u{62f}\u{631} \u{639}\u{644}\u{649} \u{62a}\u{633}\u{62c}\u{64a}\u{644} \u{627}\u{644}\u{62f}\u{62e}\u{648}\u{644}",
    )
    ∷ (
      "auth.createAccountDescription",
      "\u{625}\u{646}\u{634}\u{627}\u{621} \u{62d}\u{633}\u{627}\u{628} \u{628}\u{627}\u{633}\u{645} \u{645}\u{633}\u{62a}\u{62e}\u{62f}\u{645} \u{648}\u{643}\u{644}\u{645}\u{629} \u{645}\u{631}\u{648}\u{631} \u{641}\u{642}\u{637}. \u{64a}\u{645}\u{643}\u{646} \u{631}\u{628}\u{637} Email \u{644}\u{627}\u{62d}\u{642}ً\u{627} \u{645}\u{646} \u{644}\u{648}\u{62d}\u{629} \u{627}\u{644}\u{645}\u{639}\u{644}\u{648}\u{645}\u{627}\u{62a}.",
    )
    ∷ (
      "auth.forgotPasswordDescription",
      "\u{623}\u{62f}\u{62e}\u{644} \u{627}\u{633}\u{645} \u{627}\u{644}\u{645}\u{633}\u{62a}\u{62e}\u{62f}\u{645} \u{627}\u{644}\u{62e}\u{627}\u{635} \u{628}\u{643} \u{623}\u{648} \u{639}\u{646}\u{648}\u{627}\u{646} \u{627}\u{644}\u{628}\u{631}\u{64a}\u{62f} \u{627}\u{644}\u{625}\u{644}\u{643}\u{62a}\u{631}\u{648}\u{646}\u{64a} \u{627}\u{644}\u{645}\u{642}\u{64a}\u{62f}. \u{641}\u{64a} \u{62d}\u{627}\u{644}\u{629} \u{648}\u{62c}\u{648}\u{62f} \u{628}\u{631}\u{64a}\u{62f} \u{625}\u{644}\u{643}\u{62a}\u{631}\u{648}\u{646}\u{64a} \u{645}\u{631}\u{62a}\u{628}\u{637}، \u{641}\u{633}\u{646}\u{631}\u{633}\u{644} \u{631}\u{627}\u{628}\u{637} \u{625}\u{639}\u{627}\u{62f}\u{629} \u{627}\u{644}\u{62a}\u{639}\u{64a}\u{64a}\u{646}.",
    )
    ∷ (
      "auth.forgotPasswordSuccess",
      "\u{625}\u{630}\u{627} \u{643}\u{627}\u{646} \u{627}\u{644}\u{639}\u{646}\u{648}\u{627}\u{646} \u{645}\u{648}\u{62c}\u{648}\u{62f}ً\u{627}، \u{641}\u{633}\u{64a}\u{62a}\u{645} \u{625}\u{631}\u{633}\u{627}\u{644} \u{631}\u{627}\u{628}\u{637} \u{625}\u{639}\u{627}\u{62f}\u{629} \u{627}\u{644}\u{62a}\u{639}\u{64a}\u{64a}\u{646}.",
    )
    ∷ (
      "auth.sendResetLink",
      "\u{625}\u{631}\u{633}\u{627}\u{644} \u{631}\u{627}\u{628}\u{637} \u{625}\u{639}\u{627}\u{62f}\u{629} \u{627}\u{644}\u{62a}\u{639}\u{64a}\u{64a}\u{646}",
    )
    ∷ (
      "auth.resetPasswordDescription",
      "\u{627}\u{633}\u{62a}\u{62e}\u{62f}\u{645} \u{631}\u{645}\u{632} \u{625}\u{639}\u{627}\u{62f}\u{629} \u{627}\u{644}\u{62a}\u{639}\u{64a}\u{64a}\u{646} \u{627}\u{644}\u{630}\u{64a} \u{62a}\u{645} \u{625}\u{631}\u{633}\u{627}\u{644}\u{647} \u{625}\u{644}\u{649} \u{628}\u{631}\u{64a}\u{62f}\u{643} \u{627}\u{644}\u{625}\u{644}\u{643}\u{62a}\u{631}\u{648}\u{646}\u{64a}.",
    )
    ∷ (
      "auth.resetPasswordButton",
      "\u{625}\u{639}\u{627}\u{62f}\u{629} \u{62a}\u{639}\u{64a}\u{64a}\u{646} \u{643}\u{644}\u{645}\u{629} \u{627}\u{644}\u{645}\u{631}\u{648}\u{631}",
    )
    ∷ (
      "auth.resetPasswordTitle",
      "\u{625}\u{639}\u{627}\u{62f}\u{629} \u{62a}\u{639}\u{64a}\u{64a}\u{646} \u{643}\u{644}\u{645}\u{629} \u{627}\u{644}\u{645}\u{631}\u{648}\u{631}",
    )
    ∷ (
      "auth.missingResetToken",
      "\u{627}\u{644}\u{631}\u{645}\u{632} \u{627}\u{644}\u{645}\u{645}\u{64a}\u{632} \u{645}\u{641}\u{642}\u{648}\u{62f} \u{641}\u{64a} URL.",
    )
    ∷ (
      "auth.resetPasswordFallbackError",
      "\u{63a}\u{64a}\u{631} \u{642}\u{627}\u{62f}\u{631} \u{639}\u{644}\u{649} \u{625}\u{639}\u{627}\u{62f}\u{629} \u{62a}\u{639}\u{64a}\u{64a}\u{646} \u{643}\u{644}\u{645}\u{629} \u{627}\u{644}\u{645}\u{631}\u{648}\u{631}",
    )
    ∷ (
      "auth.verifyEmailTitle",
      "\u{627}\u{644}\u{62a}\u{62d}\u{642}\u{642} \u{645}\u{646} \u{627}\u{644}\u{628}\u{631}\u{64a}\u{62f} \u{627}\u{644}\u{625}\u{644}\u{643}\u{62a}\u{631}\u{648}\u{646}\u{64a}",
    )
    ∷ (
      "auth.verifyEmailDescription",
      "\u{623}\u{643}\u{645}\u{644} \u{627}\u{644}\u{62a}\u{62d}\u{642}\u{642} \u{645}\u{646} \u{627}\u{644}\u{628}\u{631}\u{64a}\u{62f} \u{627}\u{644}\u{625}\u{644}\u{643}\u{62a}\u{631}\u{648}\u{646}\u{64a} \u{644}\u{625}\u{644}\u{63a}\u{627}\u{621} \u{642}\u{641}\u{644} \u{62a}\u{633}\u{62c}\u{64a}\u{644} \u{627}\u{644}\u{62f}\u{62e}\u{648}\u{644} \u{644}\u{62d}\u{633}\u{627}\u{628}\u{627}\u{62a} \u{627}\u{644}\u{645}\u{627}\u{644}\u{643} tenant.",
    )
    ∷ (
      "auth.verifyEmailSuccess",
      "\u{62a}\u{645} \u{627}\u{644}\u{62a}\u{62d}\u{642}\u{642} \u{645}\u{646} Email \u{628}\u{646}\u{62c}\u{627}\u{62d}. \u{64a}\u{645}\u{643}\u{646}\u{643} \u{627}\u{644}\u{622}\u{646} \u{62a}\u{633}\u{62c}\u{64a}\u{644} \u{627}\u{644}\u{62f}\u{62e}\u{648}\u{644}.",
    )
    ∷ (
      "auth.missingVerifyToken",
      "\u{631}\u{645}\u{632} \u{627}\u{644}\u{62a}\u{62d}\u{642}\u{642} \u{645}\u{641}\u{642}\u{648}\u{62f}.",
    )
    ∷ (
      "auth.verifyingEmail",
      "\u{62c}\u{627}\u{631}ٍ \u{627}\u{644}\u{62a}\u{62d}\u{642}\u{642} \u{645}\u{646} \u{628}\u{631}\u{64a}\u{62f}\u{643} \u{627}\u{644}\u{625}\u{644}\u{643}\u{62a}\u{631}\u{648}\u{646}\u{64a}...",
    )
    ∷ (
      "auth.needNewAccount",
      "\u{647}\u{644} \u{62a}\u{62d}\u{62a}\u{627}\u{62c} \u{625}\u{644}\u{649} \u{62d}\u{633}\u{627}\u{628} \u{62c}\u{62f}\u{64a}\u{62f}\u{61f}",
    )
    ∷ (
      "auth.verifyEmailFallbackError",
      "\u{63a}\u{64a}\u{631} \u{642}\u{627}\u{62f}\u{631} \u{639}\u{644}\u{649} \u{627}\u{644}\u{62a}\u{62d}\u{642}\u{642} \u{645}\u{646} \u{627}\u{644}\u{628}\u{631}\u{64a}\u{62f} \u{627}\u{644}\u{625}\u{644}\u{643}\u{62a}\u{631}\u{648}\u{646}\u{64a}",
    )
    ∷ ("domains.addTitle", "\u{623}\u{636}\u{641} \u{627}\u{644}\u{645}\u{62c}\u{627}\u{644}")
    ∷ (
      "auth.registerAgain",
      "\u{633}\u{62c}\u{644} \u{645}\u{631}\u{629} \u{623}\u{62e}\u{631}\u{649}",
    )
    ∷ (
      "domains.editTitle",
      "\u{62a}\u{62d}\u{631}\u{64a}\u{631} \u{627}\u{644}\u{645}\u{62c}\u{627}\u{644}",
    )
    ∷ ("domains.addButton", "\u{623}\u{636}\u{641} \u{627}\u{644}\u{645}\u{62c}\u{627}\u{644}")
    ∷ (
      "domains.formDescription",
      "\u{623}\u{636}\u{641} \u{623}\u{633}\u{645}\u{627}\u{621} \u{627}\u{644}\u{645}\u{636}\u{64a}\u{641}\u{64a}\u{646} TLS \u{648}\u{642}\u{645} \u{628}\u{62a}\u{639}\u{64a}\u{64a}\u{646} \u{639}\u{62f}\u{62f} \u{627}\u{644}\u{645}\u{631}\u{627}\u{62a} \u{627}\u{644}\u{62a}\u{64a} \u{64a}\u{62c}\u{628} \u{623}\u{646} \u{64a}\u{642}\u{648}\u{645} \u{641}\u{64a}\u{647}\u{627} \u{645}\u{62c}\u{645}\u{639} \u{627}\u{644}\u{639}\u{645}\u{627}\u{644} \u{628}\u{625}\u{639}\u{627}\u{62f}\u{629} \u{627}\u{644}\u{62a}\u{62d}\u{642}\u{642} \u{645}\u{646} \u{627}\u{644}\u{634}\u{647}\u{627}\u{62f}\u{627}\u{62a}.",
    )
    ∷ (
      "domains.managedDescription",
      "\u{645}\u{631}\u{627}\u{642}\u{628}\u{629} \u{627}\u{644}\u{62d}\u{627}\u{644}\u{629} \u{648}\u{627}\u{646}\u{62a}\u{647}\u{627}\u{621} \u{627}\u{644}\u{635}\u{644}\u{627}\u{62d}\u{64a}\u{629} \u{648}\u{639}\u{645}\u{644}\u{64a}\u{627}\u{62a} \u{627}\u{644}\u{641}\u{62d}\u{635} \u{627}\u{644}\u{64a}\u{62f}\u{648}\u{64a} \u{644}\u{62c}\u{647}\u{627}\u{632} tenant.",
    )
    ∷ (
      "domains.empty",
      "\u{644}\u{645} \u{62a}\u{62a}\u{645} \u{625}\u{636}\u{627}\u{641}\u{629} \u{623}\u{64a} \u{646}\u{637}\u{627}\u{642}\u{627}\u{62a} \u{62d}\u{62a}\u{649} \u{627}\u{644}\u{622}\u{646}.",
    )
    ∷ ("domains.hostnamePlaceholder", "example.com")
    ∷ (
      "domains.managedTitle",
      "\u{627}\u{644}\u{646}\u{637}\u{627}\u{642}\u{627}\u{62a} \u{627}\u{644}\u{645}ُ\u{62f}\u{627}\u{631}\u{629}",
    )
    ∷ (
      "domains.saveButton",
      "\u{62d}\u{641}\u{638} \u{627}\u{644}\u{62a}\u{63a}\u{64a}\u{64a}\u{631}\u{627}\u{62a}",
    )
    ∷ ("domains.autoResolve", "\u{62a}\u{644}\u{642}\u{627}\u{626}\u{64a} DNS")
    ∷ (
      "domains.intervalPresetHint",
      "\u{627}\u{62e}\u{62a}\u{631} \u{625}\u{64a}\u{642}\u{627}\u{639}ً\u{627} \u{64a}\u{639}\u{62a}\u{645}\u{62f} \u{639}\u{644}\u{649} \u{627}\u{644}\u{64a}\u{648}\u{645}، \u{623}\u{648} \u{642}\u{645} \u{628}\u{627}\u{644}\u{62a}\u{628}\u{62f}\u{64a}\u{644} \u{625}\u{644}\u{649} \u{641}\u{627}\u{635}\u{644} \u{632}\u{645}\u{646}\u{64a} \u{645}\u{62e}\u{635}\u{635} \u{64a}\u{639}\u{62a}\u{645}\u{62f} \u{639}\u{644}\u{649} \u{627}\u{644}\u{62b}\u{627}\u{646}\u{64a}\u{629}.",
    )
    ∷ (
      "domains.checkIntervalLabel",
      "\u{627}\u{644}\u{62a}\u{62d}\u{642}\u{642} \u{645}\u{646} \u{627}\u{644}\u{641}\u{627}\u{635}\u{644} \u{627}\u{644}\u{632}\u{645}\u{646}\u{64a} (\u{62b}\u{648}\u{627}\u{646}\u{64a})",
    )
    ∷ (
      "domains.intervalPresetDays",
      "{{days}} \u{641}\u{627}\u{635}\u{644} \u{632}\u{645}\u{646}\u{64a}",
    )
    ∷ (
      "domains.intervalCustomOption",
      "\u{62b}\u{648}\u{627}\u{646}\u{64a} \u{645}\u{62e}\u{635}\u{635}\u{629}",
    )
    ∷ (
      "domains.targetIpHint",
      "\u{62e}\u{64a}\u{627}\u{631}\u{64a}. \u{639}\u{646}\u{62f} \u{627}\u{644}\u{62a}\u{639}\u{64a}\u{64a}\u{646}، \u{64a}\u{62a}\u{635}\u{644} Certwarden \u{628}\u{639}\u{646}\u{648}\u{627}\u{646} IP \u{647}\u{630}\u{627} \u{648}\u{64a}\u{633}\u{62a}\u{645}\u{631} \u{641}\u{64a} \u{625}\u{631}\u{633}\u{627}\u{644} \u{627}\u{633}\u{645} \u{627}\u{644}\u{645}\u{636}\u{64a}\u{641} \u{643}\u{640} SNI. \u{627}\u{62a}\u{631}\u{643}\u{647} \u{641}\u{627}\u{631}\u{63a}ً\u{627} \u{644}\u{627}\u{633}\u{62a}\u{62e}\u{62f}\u{627}\u{645} \u{62f}\u{642}\u{629} DNS \u{62a}\u{644}\u{642}\u{627}\u{626}\u{64a}ً\u{627}.",
    )
    ∷ (
      "domains.customIntervalLabel",
      "\u{627}\u{644}\u{641}\u{627}\u{635}\u{644} \u{627}\u{644}\u{632}\u{645}\u{646}\u{64a} \u{627}\u{644}\u{645}\u{62e}\u{635}\u{635} (\u{62b}\u{648}\u{627}\u{646}\u{64a})",
    )
    ∷ ("domains.checkIntervalCompact", "\u{625}\u{64a}\u{642}\u{627}\u{639}")
    ∷ (
      "domains.noCertificateData",
      "\u{633}\u{62a}\u{638}\u{647}\u{631} \u{62a}\u{641}\u{627}\u{635}\u{64a}\u{644} \u{627}\u{644}\u{634}\u{647}\u{627}\u{62f}\u{629} \u{628}\u{639}\u{62f} \u{623}\u{648}\u{644} \u{639}\u{645}\u{644}\u{64a}\u{629} \u{641}\u{62d}\u{635} \u{646}\u{627}\u{62c}\u{62d}\u{629} \u{644}\u{640} TLS.",
    )
    ∷ (
      "domains.customIntervalHint",
      "\u{625}\u{630}\u{627} \u{642}\u{645}\u{62a} \u{628}\u{625}\u{62f}\u{62e}\u{627}\u{644} \u{642}\u{64a}\u{645}\u{629} \u{647}\u{646}\u{627}، \u{641}\u{625}\u{646}\u{647}\u{627} \u{633}\u{62a}\u{62a}\u{62c}\u{627}\u{648}\u{632} \u{627}\u{644}\u{625}\u{64a}\u{642}\u{627}\u{639} \u{627}\u{644}\u{645}\u{62d}\u{62f}\u{62f} \u{645}\u{633}\u{628}\u{642}ً\u{627}.",
    )
    ∷ ("domains.detectionNotes", "\u{645}\u{633}\u{627}\u{631} \u{627}\u{644}\u{643}\u{634}\u{641}")
    ∷ (
      "domains.nextCheck",
      "\u{627}\u{644}\u{627}\u{62e}\u{62a}\u{64a}\u{627}\u{631} \u{627}\u{644}\u{62a}\u{627}\u{644}\u{64a}",
    )
    ∷ ("domains.portLabel", "\u{627}\u{644}\u{645}\u{646}\u{641}\u{630} {{port}}")
    ∷ (
      "domains.intervalPresetLabel",
      "\u{62a}\u{62d}\u{642}\u{642} \u{645}\u{646} \u{627}\u{644}\u{625}\u{64a}\u{642}\u{627}\u{639}",
    )
    ∷ ("domains.targetIpPlaceholder", "203.0.113.10")
    ∷ (
      "notifications.endpointListTitle",
      "\u{646}\u{642}\u{627}\u{637} \u{646}\u{647}\u{627}\u{64a}\u{629} \u{627}\u{644}\u{625}\u{62e}\u{637}\u{627}\u{631}",
    )
    ∷ (
      "domains.targetIpSummary",
      "\u{627}\u{644}\u{645}\u{633}\u{627}\u{631} \u{627}\u{644}\u{645}\u{62b}\u{628}\u{62a}: {{value}}",
    )
    ∷ (
      "domains.lastSuccessful",
      "\u{622}\u{62e}\u{631} \u{641}\u{62d}\u{635} \u{646}\u{627}\u{62c}\u{62d}",
    )
    ∷ (
      "notifications.endpointDescription",
      "\u{625}\u{62f}\u{627}\u{631}\u{629} \u{645}\u{633}\u{62a}\u{644}\u{645}\u{64a} \u{627}\u{644}\u{628}\u{631}\u{64a}\u{62f} \u{627}\u{644}\u{625}\u{644}\u{643}\u{62a}\u{631}\u{648}\u{646}\u{64a}، \u{648}Telegram \u{627}\u{644}\u{62f}\u{631}\u{62f}\u{634}\u{629} ID، \u{648}\u{62e}\u{637}\u{627}\u{641}\u{627}\u{62a} \u{627}\u{644}\u{648}\u{64a}\u{628} \u{627}\u{644}\u{639}\u{627}\u{645}\u{629}.",
    )
    ∷ (
      "notifications.endpointListDescription",
      "\u{642}\u{645} \u{628}\u{631}\u{628}\u{637} \u{646}\u{642}\u{627}\u{637} \u{627}\u{644}\u{646}\u{647}\u{627}\u{64a}\u{629} \u{647}\u{630}\u{647} \u{628}\u{633}\u{64a}\u{627}\u{633}\u{627}\u{62a} \u{627}\u{644}\u{639}\u{62a}\u{628}\u{629} \u{627}\u{644}\u{627}\u{641}\u{62a}\u{631}\u{627}\u{636}\u{64a}\u{629} \u{623}\u{648} \u{644}\u{643}\u{644} \u{645}\u{62c}\u{627}\u{644}.",
    )
    ∷ (
      "notifications.addEndpointTitle",
      "\u{625}\u{636}\u{627}\u{641}\u{629} \u{646}\u{642}\u{637}\u{629} \u{646}\u{647}\u{627}\u{64a}\u{629} \u{627}\u{644}\u{625}\u{62e}\u{637}\u{627}\u{631}",
    )
    ∷ []

unfoldable pub ar_dictionary : List (String × String)
unfolding ar_first ar_rest
ar_dictionary = ar_first ++ ar_rest
