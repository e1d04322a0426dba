-- ===== src/Translation/Messages/TraditionalChinese.antt =====
-- The entries of `messages["zh-TW"]` in apps/web/src/lib/i18n.tsx, in their order: the first half, and all.
mod Rest
use go_check_ssl.Prelude.{String, List, ◌∷◌, [], ◌++◌}
use go_check_ssl.Translation.Messages.TraditionalChinese.Rest.{zh_tw_rest}

unfoldable pub zh_tw_first : List (String × String)
zh_tw_first =
    ("common.loadingSession", "正在載入工作階段…")
    ∷ ("common.loadingDomains", "正在載入網域…")
    ∷ ("common.language", "語言")
    ∷ ("common.email", "電子郵件")
    ∷ ("common.username", "使用者名稱")
    ∷ ("common.password", "密碼")
    ∷ ("common.newPassword", "新密碼")
    ∷ ("common.logout", "登出")
    ∷ ("common.cancel", "取消")
    ∷ ("common.hostname", "主機名稱")
    ∷ ("common.port", "連接埠")
    ∷ ("common.status", "狀態")
    ∷ ("common.daysLeft", "剩餘天數")
    ∷ ("common.actions", "操作")
    ∷ ("common.checkNow", "立即檢查")
    ∷ ("common.checking", "檢查中…")
    ∷ ("common.edit", "編輯")
    ∷ ("common.delete", "刪除")
    ∷ ("common.save", "儲存")
    ∷ ("common.expand", "展開")
    ∷ ("common.collapse", "收合")
    ∷ ("common.name", "名稱")
    ∷ ("common.type", "類型")
    ∷ ("common.enabled", "啟用")
    ∷ ("common.none", "—")
    ∷ ("common.targetIp", "指定 IP")
    ∷ ("common.resolvedIp", "檢測 IP")
    ∷ ("common.validFrom", "生效時間")
    ∷ ("common.validTo", "到期時間")
    ∷ ("common.lastChecked", "最近檢查")
    ∷ ("common.commonName", "通用名稱")
    ∷ ("common.issuer", "簽發機構")
    ∷ ("common.subject", "主體")
    ∷ ("common.serialNumber", "序號")
    ∷ ("common.fingerprint", "SHA-256 指紋")
    ∷ ("common.signatureAlgorithm", "簽章演算法")
    ∷ ("common.san", "替代名稱")
    ∷ ("nav.domains", "網域")
    ∷ ("nav.notifications", "通知")
    ∷ ("nav.settings", "帳號設定")
    ∷ ("nav.admin", "管理")
    ∷ ("nav.backToWorkspace", "租戶後台")
    ∷ ("shell.title", "SSL 憑證監控")
    ∷ ("shell.adminTitle", "租戶控制台")
    ∷ ("role.super_admin", "超級管理員")
    ∷ ("role.tenant_owner", "租戶擁有者")
    ∷ ("status.pending", "待檢查")
    ∷ ("status.healthy", "正常")
    ∷ ("status.error", "異常")
    ∷ ("endpointType.email", "電子郵件")
    ∷ ("endpointType.telegram", "Telegram")
    ∷ ("endpointType.webhook", "Webhook")
    ∷ ("validation.hostnameRequired", "主機名稱不可為空")
    ∷ ("validation.portInvalid", "連接埠必須是有效整數")
    ∷ ("validation.portRange", "連接埠必須介於 1 到 65535 之間")
    ∷ ("validation.minInterval", "最小檢查間隔為 60 秒")
    ∷ ("validation.nameRequired", "名稱不可為空")
    ∷ ("validation.recipientEmailRequired", "收件電子郵件不可為空")
    ∷ ("validation.telegramBotTokenRequired", "Telegram Bot Token 不可為空")
    ∷ ("validation.telegramChatIdRequired", "Telegram Chat ID 不可為空")
    ∷ ("validation.webhookUrlRequired", "Webhook URL 不可為空")
    ∷ ("auth.signInTitle", "登入")
    ∷ ("auth.signInDescription", "使用使用者名稱登入後即可管理 SSL 監控、通知管道與後台設定。")
    ∷ ("auth.signIn", "登入")
    ∷ ("auth.createAccount", "建立帳號")
    ∷ ("auth.forgotPasswordLink", "忘記密碼？")
    ∷ ("auth.backToLogin", "返回登入")
    ∷ ("auth.workspaceName", "工作區名稱")
    ∷ ("auth.createAccountDescription", "註冊時只需要使用者名稱與密碼，電子郵件可在後台再綁定。")
    ∷ ("auth.createAccountButton", "建立帳號")
    ∷ ("auth.alreadyHaveAccount", "已經有帳號？")
    ∷ ("auth.registrationSuccess", "註冊成功，現在可以直接登入。")
    ∷ ("auth.registrationFallbackError", "註冊失敗")
    ∷ ("auth.loginFallbackError", "登入失敗")
    ∷ ("auth.forgotPasswordTitle", "忘記密碼")
    ∷ ("auth.forgotPasswordDescription", "輸入使用者名稱或已綁定電子郵件；若帳號已綁定電子郵件，我們會寄出重設連結。")
    ∷ ("auth.forgotPasswordSuccess", "若該地址存在，已送出重設連結。")
    ∷ ("auth.usernameOrEmail", "使用者名稱或已綁定電子郵件")
    ∷ ("auth.sendResetLink", "傳送重設連結")
    ∷ ("auth.resetPasswordTitle", "重設密碼")
    ∷ ("auth.resetPasswordDescription", "使用寄送到電子郵件中的重設令牌。")
    ∷ ("auth.resetPasswordButton", "重設密碼")
    ∷ ("auth.resetPasswordFallbackError", "重設密碼失敗")
    ∷ ("auth.missingResetToken", "URL 中缺少令牌。")
    ∷ ("auth.verifyEmailTitle", "驗證電子郵件")
    ∷ ("auth.verifyEmailDescription", "完成電子郵件驗證後，租戶擁有者帳號才能登入。")
    ∷ ("auth.verifyingEmail", "正在驗證電子郵件…")
    ∷ ("auth.verifyEmailSuccess", "電子郵件驗證成功，現在可以登入。")
    ∷ ("auth.verifyEmailFallbackError", "電子郵件驗證失敗")
    ∷ ("auth.missingVerifyToken", "缺少驗證令牌。")
    ∷ ("auth.needNewAccount", "需要新的帳號？")
    ∷ ("auth.registerAgain", "重新註冊")
    ∷ ("domains.addTitle", "新增網域")
    ∷ ("domains.editTitle", "編輯網域")
    ∷ ("domains.formDescription", "新增 TLS 主機名稱，並設定 worker pool 重新檢查憑證的頻率。")
    ∷ ("domains.addButton", "新增網域")
    ∷ ("domains.saveButton", "儲存變更")
    ∷ ("domains.managedTitle", "管理中的網域")
    ∷ ("domains.managedDescription", "檢視目前租戶的狀態、到期時間與手動掃描結果。")
    ∷ ("domains.empty", "尚未新增任何網域。")
    ∷ ("domains.hostnamePlaceholder", "example.com")
    ∷ ("domains.targetIpPlaceholder", "203.0.113.10")
    ∷ ("domains.targetIpHint", "選填。填寫後會直接連到該 IP，並仍以主機名稱送出 SNI；留空時會自動使用 DNS 解析。")
    ∷ ("domains.autoResolve", "自動 DNS")
    ∷ ("domains.checkIntervalLabel", "檢查間隔（秒）")
    ∷ ("domains.intervalPresetLabel", "檢查週期")
    ∷ ("domains.intervalPresetHint", "優先選擇按天預設；若填寫自訂秒數，將覆蓋預設週期。")
    ∷ ("domains.intervalPresetDays", "{{days}} 天")
    ∷ ("domains.intervalCustomOption", "自訂秒數")
    ∷ ("domains.customIntervalLabel", "自訂間隔（秒）")
    ∷ ("domains.customIntervalHint", "填寫後會直接依此秒數儲存。")
    ∷ ("domains.checkIntervalCompact", "檢查週期")
    ∷ ("domains.portLabel", "連接埠 {{port}}")
    ∷ ("domains.nextCheck", "下次檢查")
    ∷ ("domains.lastSuccessful", "最近成功檢查")
    ∷ ("domains.noCertificateData", "首次成功完成 TLS 檢查後，這裡會顯示憑證詳細資料。")
    ∷ ("domains.detectionNotes", "檢測路徑")
    ∷ ("domains.targetIpSummary", "指定路由：{{value}}")
    ∷ ("domains.resolvedIpSummary", "實際連線 IP：{{value}}")
    ∷ ("domains.noTenantDomains", "此租戶尚未建立網域。")
    ∷ ("notifications.addEndpointTitle", "新增通知端點")
    ∷ ("notifications.editEndpointTitle", "編輯通知端點")
    ∷ ("notifications.endpointDescription", "管理電子郵件收件者、租戶自訂 Telegram Bot 與通用 Webhook。")
    ∷ ("notifications.endpointListTitle", "通知端點")
    ∷ ("notifications.endpointListDescription", "將這些端點綁定到預設策略或每個網域的閾值策略。")
    ∷ ("notifications.noEndpoints", "尚未設定任何通知端點。")
    ∷ ("notifications.defaultPolicyTitle", "預設租戶策略")
    ∷ ("notifications.defaultPolicyDescription", "若網域沒有獨立覆蓋策略，將套用此設定。")
    ∷ ("notifications.overridePolicyTitle", "網域覆蓋策略")
    ∷ ("notifications.overridePolicyDescription", "為單一網域覆蓋閾值與通知綁定。")
    ∷ ("notifications.selectDomain", "選擇網域")
    ∷ ("notifications.chooseDomainToEdit", "請選擇要編輯覆蓋策略的網域。")
    ∷ ("notifications.saveDefaultPolicy", "儲存預設策略")
    ∷ ("notifications.saveDomainPolicy", "儲存網域策略")
    ∷ ("notifications.saveEndpoint", "儲存端點")
    ∷ ("notifications.addEndpoint", "新增端點")
    ∷ ("notifications.testAction", "發送測試")
    ∷ []

unfoldable pub zh_tw_dictionary : List (String × String)
unfolding zh_tw_first zh_tw_rest
zh_tw_dictionary = zh_tw_first ++ zh_tw_rest
