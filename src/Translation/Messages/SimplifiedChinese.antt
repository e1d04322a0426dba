-- ===== src/Translation/Messages/SimplifiedChinese.antt =====
-- The entries of `messages["zh-CN"]` in apps/web/src/lib/i18n.tsx, in their order: the first half, and all.
mod Rest
use go_check_ssl.Prelude.{String, List, ◌∷◌, [], ◌++◌}
use go_check_ssl.Translation.Messages.SimplifiedChinese.Rest.{zh_cn_rest}

unfoldable pub zh_cn_first : List (String × String)
zh_cn_first =
    ("common.loadingSession", "正在加载会话…")
    ∷ ("common.loadingDomains", "正在加载域名…")
    ∷ ("common.language", "语言")
    ∷ ("common.email", "邮箱")
    ∷ ("common.username", "用户名")
    ∷ ("common.password", "密码")
    ∷ ("common.newPassword", "新密码")
    ∷ ("common.logout", "退出登录")
    ∷ ("common.cancel", "取消")
    ∷ ("common.hostname", "主机名")
    ∷ ("common.port", "端口")
    ∷ ("common.status", "状态")
    ∷ ("common.daysLeft", "剩余天数")
    ∷ ("common.actions", "操作")
    ∷ ("common.checkNow", "立即检测")
    ∷ ("common.checking", "检测中…")
    ∷ ("common.edit", "编辑")
    ∷ ("common.delete", "删除")
    ∷ ("common.save", "保存")
    ∷ ("common.expand", "展开")
    ∷ ("common.collapse", "收起")
    ∷ ("common.name", "名称")
    ∷ ("common.type", "类型")
    ∷ ("common.enabled", "启用")
    ∷ ("common.none", "—")
    ∷ ("common.targetIp", "指定 IP")
    ∷ ("common.resolvedIp", "检测 IP")
    ∷ ("common.validFrom", "生效时间")
    ∷ ("common.validTo", "到期时间")
    ∷ ("common.lastChecked", "最近检测")
    ∷ ("common.commonName", "通用名称")
    ∷ ("common.issuer", "颁发机构")
    ∷ ("common.subject", "主题")
    ∷ ("common.serialNumber", "序列号")
    ∷ ("common.fingerprint", "SHA-256 指纹")
    ∷ ("common.signatureAlgorithm", "签名算法")
    ∷ ("common.san", "备用名称")
    ∷ ("nav.domains", "域名")
    ∷ ("nav.notifications", "通知")
    ∷ ("nav.settings", "账号设置")
    ∷ ("nav.admin", "管理")
    ∷ ("nav.backToWorkspace", "租户后台")
    ∷ ("shell.title", "SSL 证书监控")
    ∷ ("shell.adminTitle", "租户控制台")
    ∷ ("role.super_admin", "超级管理员")
    ∷ ("role.tenant_owner", "租户拥有者")
    ∷ ("status.pending", "待检测")
    ∷ ("status.healthy", "正常")
    ∷ ("status.error", "异常")
    ∷ ("endpointType.email", "邮箱")
    ∷ ("endpointType.telegram", "Telegram")
    ∷ ("endpointType.webhook", "Webhook")
    ∷ ("validation.hostnameRequired", "主机名不能为空")
    ∷ ("validation.portInvalid", "端口必须是有效整数")
    ∷ ("validation.portRange", "端口必须在 1 到 65535 之间")
    ∷ ("validation.minInterval", "最小检测间隔为 60 秒")
    ∷ ("validation.nameRequired", "名称不能为空")
    ∷ ("validation.recipientEmailRequired", "收件邮箱不能为空")
    ∷ ("validation.telegramBotTokenRequired", "Telegram Bot Token 不能为空")
    ∷ ("validation.telegramChatIdRequired", "Telegram Chat ID 不能为空")
    ∷ ("validation.webhookUrlRequired", "Webhook URL 不能为空")
    ∷ ("auth.signInTitle", "登录")
    ∷ ("auth.signInDescription", "使用用户名登录后可管理 SSL 监控、通知渠道和后台设置。")
    ∷ ("auth.signIn", "登录")
    ∷ ("auth.createAccount", "创建账号")
    ∷ ("auth.forgotPasswordLink", "忘记密码？")
    ∷ ("auth.backToLogin", "返回登录")
    ∷ ("auth.workspaceName", "工作区名称")
    ∷ ("auth.createAccountDescription", "注册时只需要用户名和密码，邮箱可以在进入后台后再绑定。")
    ∷ ("auth.createAccountButton", "创建账号")
    ∷ ("auth.alreadyHaveAccount", "已有账号？")
    ∷ ("auth.registrationSuccess", "注册成功，现在可以直接登录。")
    ∷ ("auth.registrationFallbackError", "注册失败")
    ∷ ("auth.loginFallbackError", "登录失败")
    ∷ ("auth.forgotPasswordTitle", "忘记密码")
    ∷ ("auth.forgotPasswordDescription", "输入用户名或已绑定邮箱；如果账号已绑定邮箱，我们会发送重置链接。")
    ∷ ("auth.forgotPasswordSuccess", "如果该地址存在，已发送重置链接。")
    ∷ ("auth.usernameOrEmail", "用户名或已绑定邮箱")
    ∷ ("auth.sendResetLink", "发送重置链接")
    ∷ ("auth.resetPasswordTitle", "重置密码")
    ∷ ("auth.resetPasswordDescription", "使用发送到你邮箱中的重置令牌。")
    ∷ ("auth.resetPasswordButton", "重置密码")
    ∷ ("auth.resetPasswordFallbackError", "重置密码失败")
    ∷ ("auth.missingResetToken", "URL 中缺少令牌。")
    ∷ ("auth.verifyEmailTitle", "验证邮箱")
    ∷ ("auth.verifyEmailDescription", "完成邮箱验证后，租户拥有者账号才可登录。")
    ∷ ("auth.verifyingEmail", "正在验证邮箱…")
    ∷ ("auth.verifyEmailSuccess", "邮箱验证成功，现在可以登录。")
    ∷ ("auth.verifyEmailFallbackError", "邮箱验证失败")
    ∷ ("auth.missingVerifyToken", "缺少验证令牌。")
    ∷ ("auth.needNewAccount", "需要重新创建账号？")
    ∷ ("auth.registerAgain", "重新注册")
    ∷ ("domains.addTitle", "添加域名")
    ∷ ("domains.editTitle", "编辑域名")
    ∷ ("domains.formDescription", "添加 TLS 主机名，并设置协程池重新检测证书的间隔。")
    ∷ ("domains.addButton", "添加域名")
    ∷ ("domains.saveButton", "保存修改")
    ∷ ("domains.managedTitle", "已管理域名")
    ∷ ("domains.managedDescription", "查看当前租户的状态、过期时间和手动扫描结果。")
    ∷ ("domains.empty", "还没有添加任何域名。")
    ∷ ("domains.hostnamePlaceholder", "example.com")
    ∷ ("domains.targetIpPlaceholder", "203.0.113.10")
    ∷ ("domains.targetIpHint", "可选。填写后将直接连接该 IP，并继续使用主机名发送 SNI；留空时自动通过 DNS 解析。")
    ∷ ("domains.autoResolve", "自动 DNS")
    ∷ ("domains.checkIntervalLabel", "检测间隔（秒）")
    ∷ ("domains.intervalPresetLabel", "检测周期")
    ∷ ("domains.intervalPresetHint", "优先选择按天预设；如果你填写自定义秒数，则会覆盖预设周期。")
    ∷ ("domains.intervalPresetDays", "{{days}} 天")
    ∷ ("domains.intervalCustomOption", "自定义秒数")
    ∷ ("domains.customIntervalLabel", "自定义间隔（秒）")
    ∷ ("domains.customIntervalHint", "填写后将直接按这里的秒数保存。")
    ∷ ("domains.checkIntervalCompact", "检测周期")
    ∷ ("domains.portLabel", "端口 {{port}}")
    ∷ ("domains.nextCheck", "下次检测")
    ∷ ("domains.lastSuccessful", "最近成功检测")
    ∷ ("domains.noCertificateData", "首次成功完成 TLS 检测后，这里会显示证书详情。")
    ∷ ("domains.detectionNotes", "检测链路")
    ∷ ("domains.targetIpSummary", "指定路由：{{value}}")
    ∷ ("domains.resolvedIpSummary", "实际连接 IP：{{value}}")
    ∷ ("domains.noTenantDomains", "该租户还没有域名。")
    ∷ ("notifications.addEndpointTitle", "添加通知端点")
    ∷ ("notifications.editEndpointTitle", "编辑通知端点")
    ∷ ("notifications.endpointDescription", "管理邮箱收件人、租户自定义 Telegram Bot，以及通用 Webhook。")
    ∷ ("notifications.endpointListTitle", "通知端点")
    ∷ ("notifications.endpointListDescription", "将这些端点绑定到默认策略或域名级阈值策略。")
    ∷ ("notifications.noEndpoints", "还没有配置通知端点。")
    ∷ ("notifications.defaultPolicyTitle", "默认租户策略")
    ∷ ("notifications.defaultPolicyDescription", "当域名没有单独覆盖策略时统一应用。")
    ∷ ("notifications.overridePolicyTitle", "域名覆盖策略")
    ∷ ("notifications.overridePolicyDescription", "为单个域名单独覆盖阈值和通知绑定。")
    ∷ ("notifications.selectDomain", "选择域名")
    ∷ ("notifications.chooseDomainToEdit", "请选择一个域名来编辑覆盖策略。")
    ∷ ("notifications.saveDefaultPolicy", "保存默认策略")
    ∷ ("notifications.saveDomainPolicy", "保存域名策略")
    ∷ ("notifications.saveEndpoint", "保存端点")
    ∷ ("notifications.addEndpoint", "添加端点")
    ∷ ("notifications.testAction", "发送测试")
    ∷ []

unfoldable pub zh_cn_dictionary : List (String × String)
unfolding zh_cn_first zh_cn_rest
zh_cn_dictionary = zh_cn_first ++ zh_cn_rest
