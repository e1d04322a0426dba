-- ===== src/Translation/Messages/SimplifiedChinese/Rest.antt =====
-- The entries of `messages["zh-CN"]` in apps/web/src/lib/i18n.tsx, the second half.
use go_check_ssl.Prelude.{String, List, ◌∷◌, []}

unfoldable pub zh_cn_rest : List (String × String)
zh_cn_rest =
    ("notifications.testingAction", "测试中…")
    ∷ ("notifications.testSuccess", "已向 {{name}} 发送测试通知。")
    ∷ ("notifications.testError", "发送测试通知失败。")
    ∷ ("notifications.endpointCreatedSuccess", "通知端点已创建。")
    ∷ ("notifications.endpointUpdatedSuccess", "通知端点已更新。")
    ∷ ("notifications.endpointDeletedSuccess", "通知端点已删除。")
    ∷ ("notifications.endpointSaveError", "保存通知端点失败。")
    ∷ ("notifications.endpointDeleteError", "删除通知端点失败。")
    ∷ ("notifications.destinationLabel", "目标地址")
    ∷ ("notifications.telegramBotReady", "已配置 Bot Token")
    ∷ ("notifications.emailDeliveryReady", "邮件投递")
    ∷ ("notifications.recipientEmailLabel", "收件邮箱")
    ∷ ("notifications.telegramBotTokenLabel", "Telegram Bot Token")
    ∷ ("notifications.telegramChatIdLabel", "Telegram Chat ID")
    ∷ ("notifications.webhookUrlLabel", "Webhook URL")
    ∷ ("notifications.authHeaderName", "鉴权 Header 名称")
    ∷ ("notifications.authHeaderValue", "鉴权 Header 值")
    ∷ ("notifications.primaryEmailPlaceholder", "recipient@example.com")
    ∷ ("notifications.telegramBotTokenPlaceholder", "123456789:AAExampleTenantBotToken")
    ∷ ("notifications.telegramChatPlaceholder", "123456789")
    ∷ ("notifications.webhookUrlPlaceholder", "https://example.com/webhook")
    ∷ ("notifications.authHeaderNamePlaceholder", "X-Webhook-Token")
    ∷ ("notifications.authHeaderValuePlaceholder", "secret")
    ∷ ("notifications.thresholdsLabel", "阈值（天，逗号分隔）")
    ∷ ("notifications.thresholdsPlaceholder", "30, 7, 1")
    ∷ ("notifications.currentThresholdInput", "当前输入：{{value}}")
    ∷ ("notifications.channels", "通知渠道")
    ∷ ("settings.title", "账号设置")
    ∷ ("settings.description", "管理用户名，并绑定可选邮箱用于通知或找回密码。")
    ∷ ("settings.optionalEmailPlaceholder", "name@example.com")
    ∷ ("settings.emailHint", "邮箱不是必填项，后续可用于通知和密码找回。")
    ∷ ("settings.publicPageTitle", "公开状态页")
    ∷ ("settings.publicPageDescription", "自定义公开状态页的标题、副标题和对外展示文案。")
    ∷ ("settings.publicPageTitleLabel", "公开页标题")
    ∷ ("settings.publicPageTitlePlaceholder", "例如：Production SSL Status")
    ∷ ("settings.publicPageTitleHint", "留空时默认使用当前工作区名称。")
    ∷ ("settings.publicPageSubtitleLabel", "公开页副标题")
    ∷ ("settings.publicPageSubtitlePlaceholder", "例如：实时展示 SSL 证书状态与到期时间")
    ∷ ("settings.publicPageSubtitleHint", "留空时显示默认说明文案。")
    ∷ ("settings.publicPageUrlLabel", "公开页地址")
    ∷ ("settings.publicPagePreview", "预览")
    ∷ ("settings.openPublicPage", "打开公开状态页")
    ∷ ("settings.saveSuccess", "账号设置已更新。")
    ∷ ("settings.saveError", "更新账号设置失败")
    ∷ ("settings.noEmailBound", "未绑定邮箱")
    ∷ ("dashboard.overviewTitle", "监控总览")
    ∷ ("dashboard.overviewDescription", "集中查看当前工作区的证书健康状态、异常数量和最近到期时间。")
    ∷ ("dashboard.loadingOverview", "正在加载监控总览…")
    ∷ ("dashboard.overallStatus", "整体状态")
    ∷ ("dashboard.publicPageTitle", "公开状态页")
    ∷ ("dashboard.publicPageDescription", "公开展示当前租户的证书状态，并在需要时直接跳转访问。")
    ∷ ("dashboard.currentHeadline", "当前标题")
    ∷ ("dashboard.publicUrl", "访问地址")
    ∷ ("dashboard.openPublicPage", "打开公开状态页")
    ∷ ("dashboard.customizePublicPage", "自定义公开页")
    ∷ ("admin.platformSettingsTitle", "平台设置")
    ∷ ("admin.platformSettingsDescription", "控制自助注册并管理租户工作区。")
    ∷ ("admin.registrationTitle", "注册")
    ∷ ("admin.registrationEnabledDescription", "新用户可以自行创建账号。")
    ∷ ("admin.registrationDisabledDescription", "当前已关闭注册。")
    ∷ ("admin.disableRegistration", "关闭注册")
    ∷ ("admin.enableRegistration", "开启注册")
    ∷ ("admin.tenantsTitle", "租户")
    ∷ ("admin.tenantsDescription", "在可扩展的租户表格中查看状态，再进入详情执行禁用、删除租户或重置密码。")
    ∷ ("admin.searchLabel", "查找租户")
    ∷ ("admin.searchPlaceholder", "按工作区、用户名、邮箱或 ID 搜索")
    ∷ ("admin.activeBadge", "启用中")
    ∷ ("admin.disabledBadge", "已禁用")
    ∷ ("admin.domainCountLabel", "域名数")
    ∷ ("admin.healthyCountLabel", "正常")
    ∷ ("admin.pendingCountLabel", "待检测")
    ∷ ("admin.errorCountLabel", "异常")
    ∷ ("admin.manageTenant", "管理")
    ∷ ("admin.noTenants", "当前没有可管理的租户。")
    ∷ ("admin.noTenantMatches", "当前筛选条件下没有匹配的租户。")
    ∷ ("admin.tenantDetailDescription", "租户 ID #{{tenantId}}")
    ∷ ("admin.publicStatusPage", "公开状态页")
    ∷ ("admin.tenantAccessTitle", "租户访问控制")
    ∷ ("admin.tenantAccessDescription", "可以立即禁用租户访问、删除租户，或重置租户拥有者密码。")
    ∷ ("admin.detailsAction", "详情")
    ∷ ("admin.accessAction", "访问控制")
    ∷ ("admin.passwordAction", "重置密码")
    ∷ ("admin.paginationSummary", "显示第 {{from}}–{{to}} 条，共 {{total}} 个租户")
    ∷ ("admin.previousPage", "上一页")
    ∷ ("admin.nextPage", "下一页")
    ∷ ("admin.loadingTenantDetail", "正在加载租户详情…")
    ∷ ("admin.statusFilterLabel", "状态筛选")
    ∷ ("admin.filterAllStatuses", "全部状态")
    ∷ ("admin.filterActive", "仅启用")
    ∷ ("admin.filterDisabled", "仅禁用")
    ∷ ("admin.quickFiltersLabel", "快速筛选")
    ∷ ("admin.quickFiltersDescription", "按域名数量和实时异常数量快速过滤租户。")
    ∷ ("admin.quickFilterAll", "全部租户")
    ∷ ("admin.quickFilterHasDomains", "有域名")
    ∷ ("admin.quickFilterHasErrors", "有异常")
    ∷ ("admin.bulkActionsLabel", "批量操作")
    ∷ ("admin.selectedCount", "已选择 {{count}} 个租户")
    ∷ ("admin.clearSelection", "清空选择")
    ∷ ("admin.enableSelected", "批量启用")
    ∷ ("admin.disableSelected", "批量禁用")
    ∷ ("admin.deleteSelected", "批量删除")
    ∷ ("admin.selectCurrentPage", "选择当前页")
    ∷ ("admin.selectTenant", "选择租户")
    ∷ ("admin.selectTenantsFirst", "请至少先选择一个租户。")
    ∷ ("admin.bulkDeleteConfirm", "确认永久删除已选择的 {{count}} 个租户吗？")
    ∷ ("admin.bulkEnableSuccess", "已启用 {{count}} 个租户。")
    ∷ ("admin.bulkDisableSuccess", "已禁用 {{count}} 个租户。")
    ∷ ("admin.bulkDeleteSuccess", "已删除 {{count}} 个租户。")
    ∷ ("admin.bulkPartialSuccess", "{{total}} 个租户中有 {{success}} 个处理成功。")
    ∷ ("admin.deleteTenantDescription", "永久删除该租户工作区，同时移除其域名、通知端点和监控历史。")
    ∷ ("admin.passwordRequired", "请输入新密码。")
    ∷ ("admin.passwordMinLength", "新密码至少需要 8 个字符。")
    ∷ ("admin.enableTenant", "启用租户")
    ∷ ("admin.disableTenant", "禁用租户")
    ∷ ("admin.deleteTenant", "删除租户")
    ∷ ("admin.resetPasswordTitle", "重置租户密码")
    ∷ ("admin.resetPasswordDescription", "这里会直接修改租户拥有者密码，并撤销现有登录会话。")
    ∷ ("admin.updateTenantPassword", "更新租户密码")
    ∷ ("admin.tenantDisabledSuccess", "租户已禁用。")
    ∷ ("admin.tenantEnabledSuccess", "租户已启用。")
    ∷ ("admin.tenantDeletedSuccess", "租户已删除。")
    ∷ ("admin.passwordUpdatedSuccess", "租户密码已更新。")
    ∷ ("admin.passwordUpdateError", "更新租户密码失败。")
    ∷ ("admin.tenantStatusError", "更新租户状态失败。")
    ∷ ("admin.tenantDeleteError", "删除租户失败。")
    ∷ ("admin.selectTenantPrompt", "请选择一个租户来管理其访问权限和公开状态页。")
    ∷ ("statusPage.titleFallback", "证书状态")
    ∷ ("statusPage.subtitle", "实时展示当前 SSL 证书健康状态与到期时间。")
    ∷ ("statusPage.subtitleFallback", "实时展示当前 SSL 证书健康状态与到期时间。")
    ∷ ("statusPage.signIn", "进入后台")
    ∷ ("statusPage.totalMonitors", "域名数")
    ∷ ("statusPage.healthyMonitors", "正常")
    ∷ ("statusPage.pendingMonitors", "待检测")
    ∷ ("statusPage.nextExpiry", "最近到期")
    ∷ ("statusPage.domainOverview", "证书监控列表")
    ∷ ("statusPage.empty", "该租户暂时没有可公开展示的监控项。")
    ∷ []
