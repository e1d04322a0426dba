-- ===== src/Translation/Messages/English/Rest.antt =====
-- The entries of `enMessages` in apps/web/src/lib/i18n.tsx, the second half.
use go_check_ssl.Prelude.{String, List, ◌∷◌, []}

unfoldable pub en_rest : List (String × String)
en_rest =
    ("notifications.destinationLabel", "Destination")
    ∷ ("notifications.telegramBotReady", "Bot token configured")
    ∷ ("notifications.emailDeliveryReady", "Email delivery")
    ∷ ("notifications.recipientEmailLabel", "Recipient email")
    ∷ ("notifications.telegramBotTokenLabel", "Telegram bot token")
    ∷ ("notifications.telegramChatIdLabel", "Telegram chat ID")
    ∷ ("notifications.webhookUrlLabel", "Webhook URL")
    ∷ ("notifications.authHeaderName", "Auth header name")
    ∷ ("notifications.authHeaderValue", "Auth header value")
    ∷ ("notifications.primaryEmailPlaceholder", "recipient@example.com")
    ∷ ("notifications.telegramBotTokenPlaceholder", "123456789:AAExampleTenantBotToken")
    ∷ ("notifications.telegramChatPlaceholder", "123456789")
    ∷ ("notifications.webhookUrlPlaceholder", "https://example.com/webhook")
    ∷ ("notifications.authHeaderNamePlaceholder", "X-Webhook-Token")
    ∷ ("notifications.authHeaderValuePlaceholder", "secret")
    ∷ ("notifications.thresholdsLabel", "Thresholds (days, comma separated)")
    ∷ ("notifications.thresholdsPlaceholder", "30, 7, 1")
    ∷ ("notifications.currentThresholdInput", "Current input: {{value}}")
    ∷ ("notifications.channels", "Channels")
    ∷ ("settings.title", "Account settings")
    ∷ (
      "settings.description",
      "Manage your username and bind an optional email address for notifications or password recovery.",
    )
    ∷ ("settings.optionalEmailPlaceholder", "name@example.com")
    ∷ (
      "settings.emailHint",
      "This email is optional. You can use it for notifications and password recovery later.",
    )
    ∷ ("settings.publicPageTitle", "Public status page")
    ∷ (
      "settings.publicPageDescription",
      "Customize the title, subtitle, and outward-facing copy for your public status page.",
    )
    ∷ ("settings.publicPageTitleLabel", "Public page title")
    ∷ ("settings.publicPageTitlePlaceholder", "Example: Production SSL Status")
    ∷ ("settings.publicPageTitleHint", "Leave this blank to use your current workspace name.")
    ∷ ("settings.publicPageSubtitleLabel", "Public page subtitle")
    ∷ ("settings.publicPageSubtitlePlaceholder", "Example: Live SSL health and expiry overview")
    ∷ ("settings.publicPageSubtitleHint", "Leave this blank to show the default descriptive copy.")
    ∷ ("settings.publicPageUrlLabel", "Public page URL")
    ∷ ("settings.publicPagePreview", "Preview")
    ∷ ("settings.openPublicPage", "Open public page")
    ∷ ("settings.saveSuccess", "Account settings updated.")
    ∷ ("settings.saveError", "Unable to update account settings")
    ∷ ("settings.noEmailBound", "No email bound")
    ∷ ("dashboard.overviewTitle", "Monitoring overview")
    ∷ (
      "dashboard.overviewDescription",
      "See certificate health, problem counts, and the next expiry from one place.",
    )
    ∷ ("dashboard.loadingOverview", "Loading monitoring overview…")
    ∷ ("dashboard.overallStatus", "Overall status")
    ∷ ("dashboard.publicPageTitle", "Public status page")
    ∷ (
      "dashboard.publicPageDescription",
      "Expose your current certificate status publicly and jump to it in one click.",
    )
    ∷ ("dashboard.currentHeadline", "Current headline")
    ∷ ("dashboard.publicUrl", "Public URL")
    ∷ ("dashboard.openPublicPage", "Open public page")
    ∷ ("dashboard.customizePublicPage", "Customize public page")
    ∷ ("admin.platformSettingsTitle", "Platform settings")
    ∷ (
      "admin.platformSettingsDescription",
      "Control self-service registration and manage tenant workspaces.",
    )
    ∷ ("admin.registrationTitle", "Registration")
    ∷ ("admin.registrationEnabledDescription", "New users can create accounts.")
    ∷ ("admin.registrationDisabledDescription", "Registration is currently disabled.")
    ∷ ("admin.disableRegistration", "Disable registration")
    ∷ ("admin.enableRegistration", "Enable registration")
    ∷ ("admin.tenantsTitle", "Tenants")
    ∷ (
      "admin.tenantsDescription",
      "Review tenant status in a scalable table, then open a workspace to disable access, reset passwords, or delete the tenant.",
    )
    ∷ ("admin.searchLabel", "Find tenant")
    ∷ ("admin.searchPlaceholder", "Search by workspace, username, email, or ID")
    ∷ ("admin.selectedWorkspaceTitle", "Selected workspace")
    ∷ ("admin.selectedWorkspaceDescription", "{{email}} · {{tenant}}")
    ∷ ("admin.createTenantDomainTitle", "Create domain for tenant")
    ∷ ("admin.editTenantDomainTitle", "Edit domain")
    ∷ ("admin.tenantDomainsTitle", "Tenant domains")
    ∷ ("admin.tenantDomainMeta", "Status: {{status}} · Days: {{days}}")
    ∷ ("admin.createEndpointTitle", "Create endpoint")
    ∷ ("admin.editEndpointTitle", "Edit endpoint")
    ∷ ("admin.tenantEndpointsTitle", "Tenant endpoints")
    ∷ ("admin.tenantPoliciesTitle", "Tenant policies")
    ∷ ("admin.saveDomain", "Save domain")
    ∷ ("admin.saveEndpoint", "Save endpoint")
    ∷ ("admin.addEndpoint", "Add endpoint")
    ∷ ("admin.selectDomainOverride", "Select a domain override")
    ∷ ("admin.saveOverridePolicy", "Save override policy")
    ∷ ("admin.selectDomainForOverride", "Select a domain above to manage its override policy.")
    ∷ ("admin.activeBadge", "Active")
    ∷ ("admin.disabledBadge", "Disabled")
    ∷ ("admin.domainCountLabel", "Domains")
    ∷ ("admin.healthyCountLabel", "Healthy")
    ∷ ("admin.pendingCountLabel", "Pending")
    ∷ ("admin.errorCountLabel", "Errors")
    ∷ ("admin.manageTenant", "Manage")
    ∷ ("admin.noTenants", "No tenant workspaces available.")
    ∷ ("admin.noTenantMatches", "No tenants match the current search.")
    ∷ ("admin.tenantDetailDescription", "Tenant ID #{{tenantId}}")
    ∷ ("admin.publicStatusPage", "Public status page")
    ∷ ("admin.tenantAccessTitle", "Tenant access control")
    ∷ (
      "admin.tenantAccessDescription",
      "Disable access immediately, remove the tenant, or rotate the tenant owner's password.",
    )
    ∷ ("admin.detailsAction", "Details")
    ∷ ("admin.accessAction", "Access control")
    ∷ ("admin.passwordAction", "Reset password")
    ∷ ("admin.paginationSummary", "Showing {{from}}–{{to}} of {{total}} tenants")
    ∷ ("admin.previousPage", "Previous")
    ∷ ("admin.nextPage", "Next")
    ∷ ("admin.loadingTenantDetail", "Loading tenant details…")
    ∷ ("admin.statusFilterLabel", "Status filter")
    ∷ ("admin.filterAllStatuses", "All statuses")
    ∷ ("admin.filterActive", "Active only")
    ∷ ("admin.filterDisabled", "Disabled only")
    ∷ ("admin.quickFiltersLabel", "Quick filters")
    ∷ ("admin.quickFiltersDescription", "Filter tenant rows by domain volume and live error count.")
    ∷ ("admin.quickFilterAll", "All tenants")
    ∷ ("admin.quickFilterHasDomains", "Has domains")
    ∷ ("admin.quickFilterHasErrors", "Has errors")
    ∷ ("admin.bulkActionsLabel", "Bulk actions")
    ∷ ("admin.selectedCount", "{{count}} tenants selected")
    ∷ ("admin.clearSelection", "Clear selection")
    ∷ ("admin.enableSelected", "Enable selected")
    ∷ ("admin.disableSelected", "Disable selected")
    ∷ ("admin.deleteSelected", "Delete selected")
    ∷ ("admin.selectCurrentPage", "Select current page")
    ∷ ("admin.selectTenant", "Select tenant")
    ∷ ("admin.selectTenantsFirst", "Select at least one tenant first.")
    ∷ ("admin.bulkDeleteConfirm", "Delete {{count}} selected tenants permanently?")
    ∷ ("admin.bulkEnableSuccess", "{{count}} tenants enabled.")
    ∷ ("admin.bulkDisableSuccess", "{{count}} tenants disabled.")
    ∷ ("admin.bulkDeleteSuccess", "{{count}} tenants deleted.")
    ∷ ("admin.bulkPartialSuccess", "{{success}} of {{total}} tenants were processed successfully.")
    ∷ (
      "admin.deleteTenantDescription",
      "Delete the tenant workspace permanently. This also removes its domains, notification endpoints, and monitoring history.",
    )
    ∷ ("admin.passwordRequired", "A new password is required.")
    ∷ ("admin.passwordMinLength", "The new password must be at least 8 characters.")
    ∷ ("admin.enableTenant", "Enable tenant")
    ∷ ("admin.disableTenant", "Disable tenant")
    ∷ ("admin.deleteTenant", "Delete tenant")
    ∷ ("admin.resetPasswordTitle", "Reset tenant password")
    ∷ (
      "admin.resetPasswordDescription",
      "This updates the tenant owner's password and revokes existing sessions.",
    )
    ∷ ("admin.updateTenantPassword", "Update tenant password")
    ∷ ("admin.tenantDisabledSuccess", "Tenant has been disabled.")
    ∷ ("admin.tenantEnabledSuccess", "Tenant has been enabled.")
    ∷ ("admin.tenantDeletedSuccess", "Tenant has been deleted.")
    ∷ ("admin.passwordUpdatedSuccess", "Tenant password has been updated.")
    ∷ ("admin.passwordUpdateError", "Unable to update tenant password.")
    ∷ ("admin.tenantStatusError", "Unable to update tenant status.")
    ∷ ("admin.tenantDeleteError", "Unable to delete tenant.")
    ∷ ("admin.selectTenantPrompt", "Select a tenant to manage its access and public status page.")
    ∷ ("statusPage.titleFallback", "Certificate status")
    ∷ ("statusPage.subtitle", "Live SSL certificate health and expiry overview.")
    ∷ ("statusPage.subtitleFallback", "Live SSL certificate health and expiry overview.")
    ∷ ("statusPage.signIn", "Sign in")
    ∷ ("statusPage.totalMonitors", "Domains")
    ∷ ("statusPage.healthyMonitors", "Healthy")
    ∷ ("statusPage.pendingMonitors", "Pending")
    ∷ ("statusPage.nextExpiry", "Next expiry")
    ∷ ("statusPage.domainOverview", "Certificate monitors")
    ∷ ("statusPage.empty", "No public monitors are available for this tenant.")
    ∷ []
