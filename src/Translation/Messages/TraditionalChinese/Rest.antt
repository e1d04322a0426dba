-- ===== src/Translation/Messages/TraditionalChinese/Rest.antt =====
-- The entries of `messages["zh-TW"]` in apps/web/src/lib/i18n.tsx, the second half.
use go_check_ssl.Prelude.{String, List, ◌∷◌, []}

unfoldable pub zh_tw_rest : List (String × String)
zh_tw_rest =
    ("notifications.testingAction", "測試中…")
    ∷ ("notifications.testSuccess", "已向 {{name}} 發送測試通知。")
    ∷ ("notifications.testError", "發送測試通知失敗。")
    ∷ ("notifications.endpointCreatedSuccess", "通知端點已建立。")
    ∷ ("notifications.endpointUpdatedSuccess", "通知端點已更新。")
    ∷ ("notifications.endpointDeletedSuccess", "通知端點已刪除。")
    ∷ ("notifications.endpointSaveError", "儲存通知端點失敗。")
    ∷ ("notifications.endpointDeleteError", "刪除通知端點失敗。")
    ∷ ("notifications.destinationLabel", "目標位址")
    ∷ ("notifications.telegramBotReady", "已設定 Bot Token")
    ∷ ("notifications.emailDeliveryReady", "郵件投遞")
    ∷ ("notifications.recipientEmailLabel", "收件電子郵件")
    ∷ ("notifications.telegramBotTokenLabel", "Telegram Bot Token")
    ∷ ("notifications.telegramChatIdLabel", "Telegram Chat ID")
    ∷ ("notifications.webhookUrlLabel", "Webhook URL")
    ∷ ("notifications.authHeaderName", "驗證 Header 名稱")
    ∷ ("notifications.authHeaderValue", "驗證 Header 值")
    ∷ ("notifications.primaryEmailPlaceholder", "recipient@example.com")
    ∷ ("notifications.telegramBotTokenPlaceholder", "123456789:AAExampleTenantBotToken")
    ∷ ("notifications.telegramChatPlaceholder", "123456789")
    ∷ ("notifications.webhookUrlPlaceholder", "https://example.com/webhook")
    ∷ ("notifications.authHeaderNamePlaceholder", "X-Webhook-Token")
    ∷ ("notifications.authHeaderValuePlaceholder", "secret")
    ∷ ("notifications.thresholdsLabel", "閾值（天，以逗號分隔）")
    ∷ ("notifications.thresholdsPlaceholder", "30, 7, 1")
    ∷ ("notifications.currentThresholdInput", "目前輸入：{{value}}")
    ∷ ("notifications.channels", "通知管道")
    ∷ ("settings.title", "帳號設定")
    ∷ ("settings.description", "管理使用者名稱，並綁定可選電子郵件以用於通知或密碼重設。")
    ∷ ("settings.optionalEmailPlaceholder", "name@example.com")
    ∷ ("settings.emailHint", "電子郵件不是必填，之後可用於通知與密碼找回。")
    ∷ ("settings.publicPageTitle", "公開狀態頁")
    ∷ ("settings.publicPageDescription", "自訂公開狀態頁的標題、副標題與對外展示文案。")
    ∷ ("settings.publicPageTitleLabel", "公開頁標題")
    ∷ ("settings.publicPageTitlePlaceholder", "例如：Production SSL Status")
    ∷ ("settings.publicPageTitleHint", "留空時預設使用目前工作區名稱。")
    ∷ ("settings.publicPageSubtitleLabel", "公開頁副標題")
    ∷ ("settings.publicPageSubtitlePlaceholder", "例如：即時展示 SSL 憑證狀態與到期時間")
    ∷ ("settings.publicPageSubtitleHint", "留空時會顯示預設說明文字。")
    ∷ ("settings.publicPageUrlLabel", "公開頁位址")
    ∷ ("settings.publicPagePreview", "預覽")
    ∷ ("settings.openPublicPage", "開啟公開狀態頁")
    ∷ ("settings.saveSuccess", "帳號設定已更新。")
    ∷ ("settings.saveError", "更新帳號設定失敗")
    ∷ ("settings.noEmailBound", "尚未綁定電子郵件")
    ∷ ("dashboard.overviewTitle", "監控總覽")
    ∷ ("dashboard.overviewDescription", "集中檢視目前工作區的憑證健康狀態、異常數量與最近到期時間。")
    ∷ ("dashboard.loadingOverview", "正在載入監控總覽…")
    ∷ ("dashboard.overallStatus", "整體狀態")
    ∷ ("dashboard.publicPageTitle", "公開狀態頁")
    ∷ ("dashboard.publicPageDescription", "公開展示目前租戶的憑證狀態，必要時可直接開啟。")
    ∷ ("dashboard.currentHeadline", "目前標題")
    ∷ ("dashboard.publicUrl", "存取位址")
    ∷ ("dashboard.openPublicPage", "開啟公開狀態頁")
    ∷ ("dashboard.customizePublicPage", "自訂公開頁")
    ∷ ("admin.platformSettingsTitle", "平台設定")
    ∷ ("admin.platformSettingsDescription", "控制自助註冊並管理租戶工作區。")
    ∷ ("admin.registrationTitle", "註冊")
    ∷ ("admin.registrationEnabledDescription", "新使用者可以自行建立帳號。")
    ∷ ("admin.registrationDisabledDescription", "目前已停用註冊。")
    ∷ ("admin.disableRegistration", "停用註冊")
    ∷ ("admin.enableRegistration", "啟用註冊")
    ∷ ("admin.tenantsTitle", "租戶")
    ∷ ("admin.tenantsDescription", "在可擴展的租戶表格中查看狀態，再進入詳情執行停用、刪除租戶或重設密碼。")
    ∷ ("admin.searchLabel", "查找租戶")
    ∷ ("admin.searchPlaceholder", "按工作區、使用者名稱、電子郵件或 ID 搜尋")
    ∷ ("admin.activeBadge", "啟用中")
    ∷ ("admin.disabledBadge", "已停用")
    ∷ ("admin.domainCountLabel", "網域數")
    ∷ ("admin.healthyCountLabel", "正常")
    ∷ ("admin.pendingCountLabel", "待檢查")
    ∷ ("admin.errorCountLabel", "異常")
    ∷ ("admin.manageTenant", "管理")
    ∷ ("admin.noTenants", "目前沒有可管理的租戶。")
    ∷ ("admin.noTenantMatches", "目前篩選條件下沒有符合的租戶。")
    ∷ ("admin.tenantDetailDescription", "租戶 ID #{{tenantId}}")
    ∷ ("admin.publicStatusPage", "公開狀態頁")
    ∷ ("admin.tenantAccessTitle", "租戶存取控制")
    ∷ ("admin.tenantAccessDescription", "可立即停用租戶、刪除租戶，或重設租戶擁有者密碼。")
    ∷ ("admin.detailsAction", "詳情")
    ∷ ("admin.accessAction", "存取控制")
    ∷ ("admin.passwordAction", "重設密碼")
    ∷ ("admin.paginationSummary", "顯示第 {{from}}–{{to}} 筆，共 {{total}} 個租戶")
    ∷ ("admin.previousPage", "上一頁")
    ∷ ("admin.nextPage", "下一頁")
    ∷ ("admin.loadingTenantDetail", "正在載入租戶詳情…")
    ∷ ("admin.statusFilterLabel", "狀態篩選")
    ∷ ("admin.filterAllStatuses", "全部狀態")
    ∷ ("admin.filterActive", "僅啟用")
    ∷ ("admin.filterDisabled", "僅停用")
    ∷ ("admin.quickFiltersLabel", "快速篩選")
    ∷ ("admin.quickFiltersDescription", "依網域數量與即時異常數量快速篩選租戶。")
    ∷ ("admin.quickFilterAll", "全部租戶")
    ∷ ("admin.quickFilterHasDomains", "有網域")
    ∷ ("admin.quickFilterHasErrors", "有異常")
    ∷ ("admin.bulkActionsLabel", "批量操作")
    ∷ ("admin.selectedCount", "已選擇 {{count}} 個租戶")
    ∷ ("admin.clearSelection", "清除選擇")
    ∷ ("admin.enableSelected", "批量啟用")
    ∷ ("admin.disableSelected", "批量停用")
    ∷ ("admin.deleteSelected", "批量刪除")
    ∷ ("admin.selectCurrentPage", "選取目前頁面")
    ∷ ("admin.selectTenant", "選取租戶")
    ∷ ("admin.selectTenantsFirst", "請至少先選擇一個租戶。")
    ∷ ("admin.bulkDeleteConfirm", "確認永久刪除已選取的 {{count}} 個租戶嗎？")
    ∷ ("admin.bulkEnableSuccess", "已啟用 {{count}} 個租戶。")
    ∷ ("admin.bulkDisableSuccess", "已停用 {{count}} 個租戶。")
    ∷ ("admin.bulkDeleteSuccess", "已刪除 {{count}} 個租戶。")
    ∷ ("admin.bulkPartialSuccess", "{{total}} 個租戶中有 {{success}} 個處理成功。")
    ∷ ("admin.deleteTenantDescription", "永久刪除此租戶工作區，並移除其網域、通知端點與監控歷史。")
    ∷ ("admin.passwordRequired", "請輸入新密碼。")
    ∷ ("admin.passwordMinLength", "新密碼至少需要 8 個字元。")
    ∷ ("admin.enableTenant", "啟用租戶")
    ∷ ("admin.disableTenant", "停用租戶")
    ∷ ("admin.deleteTenant", "刪除租戶")
    ∷ ("admin.resetPasswordTitle", "重設租戶密碼")
    ∷ ("admin.resetPasswordDescription", "這會直接更新租戶擁有者密碼並撤銷現有登入工作階段。")
    ∷ ("admin.updateTenantPassword", "更新租戶密碼")
    ∷ ("admin.tenantDisabledSuccess", "租戶已停用。")
    ∷ ("admin.tenantEnabledSuccess", "租戶已啟用。")
    ∷ ("admin.tenantDeletedSuccess", "租戶已刪除。")
    ∷ ("admin.passwordUpdatedSuccess", "租戶密碼已更新。")
    ∷ ("admin.passwordUpdateError", "更新租戶密碼失敗。")
    ∷ ("admin.tenantStatusError", "更新租戶狀態失敗。")
    ∷ ("admin.tenantDeleteError", "刪除租戶失敗。")
    ∷ ("admin.selectTenantPrompt", "請選擇一個租戶來管理其存取權限與公開狀態頁。")
    ∷ ("statusPage.titleFallback", "憑證狀態")
    ∷ ("statusPage.subtitle", "即時展示目前 SSL 憑證健康狀態與到期時間。")
    ∷ ("statusPage.subtitleFallback", "即時展示目前 SSL 憑證健康狀態與到期時間。")
    ∷ ("statusPage.signIn", "進入後台")
    ∷ ("statusPage.totalMonitors", "網域數")
    ∷ ("statusPage.healthyMonitors", "正常")
    ∷ ("statusPage.pendingMonitors", "待檢查")
    ∷ ("statusPage.nextExpiry", "最近到期")
    ∷ ("statusPage.domainOverview", "憑證監控列表")
    ∷ ("statusPage.empty", "此租戶目前沒有可公開顯示的監控項目。")
    ∷ []
