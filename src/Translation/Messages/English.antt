-- ===== src/Translation/Messages/English.antt =====
-- The entries of `enMessages` in apps/web/src/lib/i18n.tsx, in their order: the first half, and all.
mod Rest
use go_check_ssl.Prelude.{String, List, ◌∷◌, [], ◌++◌}
use go_check_ssl.Translation.Messages.English.Rest.{en_rest}

unfoldable pub en_first : List (String × String)
en_first =
    ("common.loadingSession", "Loading session…")
    ∷ ("common.loadingDomains", "Loading domains…")
    ∷ ("common.language", "Language")
    ∷ ("common.email", "Email")
    ∷ ("common.username", "Username")
    ∷ ("common.password", "Password")
    ∷ ("common.newPassword", "New password")
    ∷ ("common.logout", "Logout")
    ∷ ("common.cancel", "Cancel")
    ∷ ("common.hostname", "Hostname")
    ∷ ("common.port", "Port")
    ∷ ("common.status", "Status")
    ∷ ("common.daysLeft", "Days left")
    ∷ ("common.actions", "Actions")
    ∷ ("common.checkNow", "Check now")
    ∷ ("common.checking", "Checking…")
    ∷ ("common.edit", "Edit")
    ∷ ("common.delete", "Delete")
    ∷ ("common.save", "Save")
    ∷ ("common.expand", "Expand")
    ∷ ("common.collapse", "Collapse")
    ∷ ("common.name", "Name")
    ∷ ("common.type", "Type")
    ∷ ("common.enabled", "Enabled")
    ∷ ("common.none", "—")
    ∷ ("common.targetIp", "Pinned IP")
    ∷ ("common.resolvedIp", "Resolved IP")
    ∷ ("common.validFrom", "Valid from")
    ∷ ("common.validTo", "Valid to")
    ∷ ("common.lastChecked", "Last checked")
    ∷ ("common.commonName", "Common Name")
    ∷ ("common.issuer", "Issuer")
    ∷ ("common.subject", "Subject")
    ∷ ("common.serialNumber", "Serial Number")
    ∷ ("common.fingerprint", "SHA-256 Fingerprint")
    ∷ ("common.signatureAlgorithm", "Signature Algorithm")
    ∷ ("common.san", "SANs")
    ∷ ("nav.domains", "Domains")
    ∷ ("nav.notifications", "Notifications")
    ∷ ("nav.settings", "Account")
    ∷ ("nav.admin", "Admin")
    ∷ ("nav.backToWorkspace", "Workspace")
    ∷ ("shell.title", "SSL certificate monitoring")
    ∷ ("shell.adminTitle", "Tenant control center")
    ∷ ("role.super_admin", "Super admin")
    ∷ ("role.tenant_owner", "Tenant owner")
    ∷ ("status.pending", "Pending")
    ∷ ("status.healthy", "Healthy")
    ∷ ("status.error", "Error")
    ∷ ("endpointType.email", "Email")
    ∷ ("endpointType.telegram", "Telegram")
    ∷ ("endpointType.webhook", "Webhook")
    ∷ ("validation.hostnameRequired", "Hostname is required")
    ∷ ("validation.portInvalid", "Port must be a valid integer")
    ∷ ("validation.portRange", "Port must be between 1 and 65535")
    ∷ ("validation.minInterval", "Minimum interval is 60 seconds")
    ∷ ("validation.nameRequired", "Name is required")
    ∷ ("validation.recipientEmailRequired", "Recipient email is required")
    ∷ ("validation.telegramBotTokenRequired", "Telegram bot token is required")
    ∷ ("validation.telegramChatIdRequired", "Telegram chat ID is required")
    ∷ ("validation.webhookUrlRequired", "Webhook URL is required")
    ∷ ("auth.signInTitle", "Sign in")
    ∷ (
      "auth.signInDescription",
      "Sign in with your username to manage SSL monitoring, notifications, and admin settings.",
    )
    ∷ ("auth.signIn", "Sign in")
    ∷ ("auth.createAccount", "Create account")
    ∷ ("auth.forgotPasswordLink", "Forgot password?")
    ∷ ("auth.backToLogin", "Back to login")
    ∷ ("auth.workspaceName", "Workspace name")
    ∷ (
      "auth.createAccountDescription",
      "Create an account with just a username and password. Email can be bound later from the dashboard.",
    )
    ∷ ("auth.createAccountButton", "Create account")
    ∷ ("auth.alreadyHaveAccount", "Already have an account?")
    ∷ ("auth.registrationSuccess", "Registration successful. You can sign in now.")
    ∷ ("auth.registrationFallbackError", "Unable to register")
    ∷ ("auth.loginFallbackError", "Unable to login")
    ∷ ("auth.forgotPasswordTitle", "Forgot password")
    ∷ (
      "auth.forgotPasswordDescription",
      "Enter your username or bound email address. If a bound email exists, we'll send a reset link.",
    )
    ∷ ("auth.forgotPasswordSuccess", "If the address exists, a reset link has been sent.")
    ∷ ("auth.usernameOrEmail", "Username or bound email")
    ∷ ("auth.sendResetLink", "Send reset link")
    ∷ ("auth.resetPasswordTitle", "Reset password")
    ∷ ("auth.resetPasswordDescription", "Use the reset token sent to your email.")
    ∷ ("auth.resetPasswordButton", "Reset password")
    ∷ ("auth.resetPasswordFallbackError", "Unable to reset password")
    ∷ ("auth.missingResetToken", "Missing token in URL.")
    ∷ ("auth.verifyEmailTitle", "Verify email")
    ∷ (
      "auth.verifyEmailDescription",
      "Complete email verification to unlock login for tenant owner accounts.",
    )
    ∷ ("auth.verifyingEmail", "Verifying your email…")
    ∷ ("auth.verifyEmailSuccess", "Email verified successfully. You can now sign in.")
    ∷ ("auth.verifyEmailFallbackError", "Unable to verify email")
    ∷ ("auth.missingVerifyToken", "Missing verification token.")
    ∷ ("auth.needNewAccount", "Need a new account?")
    ∷ ("auth.registerAgain", "Register again")
    ∷ ("domains.addTitle", "Add domain")
    ∷ ("domains.editTitle", "Edit domain")
    ∷ (
      "domains.formDescription",
      "Add TLS hostnames and set how often the worker pool should re-check certificates.",
    )
    ∷ ("domains.addButton", "Add domain")
    ∷ ("domains.saveButton", "Save changes")
    ∷ ("domains.managedTitle", "Managed domains")
    ∷ ("domains.managedDescription", "Monitor status, expiry, and manual scans for your tenant.")
    ∷ ("domains.empty", "No domains added yet.")
    ∷ ("domains.hostnamePlaceholder", "example.com")
    ∷ ("domains.targetIpPlaceholder", "203.0.113.10")
    ∷ (
      "domains.targetIpHint",
      "Optional. When set, Certwarden connects to this IP and still sends the hostname as SNI. Leave blank to use DNS resolution automatically.",
    )
    ∷ ("domains.autoResolve", "Automatic DNS")
    ∷ ("domains.checkIntervalLabel", "Check interval (seconds)")
    ∷ ("domains.intervalPresetLabel", "Check cadence")
    ∷ (
      "domains.intervalPresetHint",
      "Choose a day-based cadence, or switch to a custom second-based interval.",
    )
    ∷ ("domains.intervalPresetDays", "{{days}} day interval")
    ∷ ("domains.intervalCustomOption", "Custom seconds")
    ∷ ("domains.customIntervalLabel", "Custom interval (seconds)")
    ∷ ("domains.customIntervalHint", "If you enter a value here, it overrides the preset cadence.")
    ∷ ("domains.checkIntervalCompact", "Cadence")
    ∷ ("domains.portLabel", "Port {{port}}")
    ∷ ("domains.nextCheck", "Next check")
    ∷ ("domains.lastSuccessful", "Last successful scan")
    ∷ (
      "domains.noCertificateData",
      "Certificate details will appear after the first successful TLS scan.",
    )
    ∷ ("domains.detectionNotes", "Detection path")
    ∷ ("domains.targetIpSummary", "Pinned route: {{value}}")
    ∷ ("domains.resolvedIpSummary", "Observed connection IP: {{value}}")
    ∷ ("domains.noTenantDomains", "No tenant domains yet.")
    ∷ ("notifications.addEndpointTitle", "Add notification endpoint")
    ∷ ("notifications.editEndpointTitle", "Edit notification endpoint")
    ∷ (
      "notifications.endpointDescription",
      "Manage email recipients, tenant-specific Telegram bots, and generic webhooks.",
    )
    ∷ ("notifications.endpointListTitle", "Notification endpoints")
    ∷ (
      "notifications.endpointListDescription",
      "Bind these endpoints to default or per-domain threshold policies.",
    )
    ∷ ("notifications.noEndpoints", "No endpoints configured yet.")
    ∷ ("notifications.defaultPolicyTitle", "Default tenant policy")
    ∷ (
      "notifications.defaultPolicyDescription",
      "Applied to all domains unless a domain override exists.",
    )
    ∷ ("notifications.overridePolicyTitle", "Domain override policy")
    ∷ (
      "notifications.overridePolicyDescription",
      "Override thresholds and endpoint bindings for a single domain.",
    )
    ∷ ("notifications.selectDomain", "Select a domain")
    ∷ ("notifications.chooseDomainToEdit", "Choose a domain to edit its override policy.")
    ∷ ("notifications.saveDefaultPolicy", "Save default policy")
    ∷ ("notifications.saveDomainPolicy", "Save domain policy")
    ∷ ("notifications.saveEndpoint", "Save endpoint")
    ∷ ("notifications.addEndpoint", "Add endpoint")
    ∷ ("notifications.testAction", "Send test")
    ∷ ("notifications.testingAction", "Testing…")
    ∷ ("notifications.testSuccess", "Test notification sent to {{name}}.")
    ∷ ("notifications.testError", "Unable to send a test notification.")
    ∷ ("notifications.endpointCreatedSuccess", "Notification endpoint created.")
    ∷ ("notifications.endpointUpdatedSuccess", "Notification endpoint updated.")
    ∷ ("notifications.endpointDeletedSuccess", "Notification endpoint deleted.")
    ∷ ("notifications.endpointSaveError", "Unable to save the notification endpoint.")
    ∷ ("notifications.endpointDeleteError", "Unable to delete the notification endpoint.")
    ∷ []

unfoldable pub en_dictionary : List (String × String)
unfolding en_first en_rest
en_dictionary = en_first ++ en_rest
