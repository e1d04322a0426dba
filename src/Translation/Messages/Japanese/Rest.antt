-- ===== src/Translation/Messages/Japanese/Rest.antt =====
-- The entries of `messages["ja"]` in apps/web/src/lib/i18n.tsx, the second half.
use go_check_ssl.Prelude.{String, List, ◌∷◌, []}

unfoldable pub ja_rest : List (String × String)
ja_rest =
    ("notifications.recipientEmailLabel", "受信メールアドレス")
    ∷ ("notifications.telegramChatIdLabel", "Telegram Chat ID")
    ∷ ("notifications.webhookUrlLabel", "Webhook URL")
    ∷ ("notifications.authHeaderName", "認証ヘッダー名")
    ∷ ("notifications.authHeaderValue", "認証ヘッダー値")
    ∷ ("notifications.primaryEmailPlaceholder", "recipient@example.com")
    ∷ ("notifications.telegramChatPlaceholder", "123456789")
    ∷ ("notifications.webhookUrlPlaceholder", "https://example.com/webhook")
    ∷ ("notifications.authHeaderNamePlaceholder", "X-Webhook-Token")
    ∷ ("notifications.authHeaderValuePlaceholder", "secret")
    ∷ ("notifications.thresholdsLabel", "閾値（日、カンマ区切り）")
    ∷ ("notifications.thresholdsPlaceholder", "30, 7, 1")
    ∷ ("notifications.currentThresholdInput", "現在の入力: {{value}}")
    ∷ ("notifications.channels", "チャネル")
    ∷ ("admin.platformSettingsTitle", "プラットフォーム設定")
    ∷ ("admin.platformSettingsDescription", "セルフ登録を制御し、テナント領域を管理します。")
    ∷ ("admin.registrationTitle", "登録")
    ∷ ("admin.registrationEnabledDescription", "新規ユーザーはアカウントを作成できます。")
    ∷ ("admin.registrationDisabledDescription", "現在、登録は無効です。")
    ∷ ("admin.disableRegistration", "登録を無効化")
    ∷ ("admin.enableRegistration", "登録を有効化")
    ∷ ("admin.tenantsTitle", "テナント")
    ∷ ("admin.tenantsDescription", "拡張しやすいテーブルでテナント状態を確認し、詳細画面から無効化・削除・パスワード更新を行えます。")
    ∷ ("admin.selectedWorkspaceTitle", "選択中のワークスペース")
    ∷ ("admin.selectedWorkspaceDescription", "{{email}} · {{tenant}}")
    ∷ ("admin.createTenantDomainTitle", "テナント用ドメインを作成")
    ∷ ("admin.editTenantDomainTitle", "ドメインを編集")
    ∷ ("admin.tenantDomainsTitle", "テナントのドメイン")
    ∷ ("admin.tenantDomainMeta", "状態: {{status}} · 残り: {{days}} 日")
    ∷ ("admin.createEndpointTitle", "通知先を作成")
    ∷ ("admin.editEndpointTitle", "通知先を編集")
    ∷ ("admin.tenantEndpointsTitle", "テナントの通知先")
    ∷ ("admin.tenantPoliciesTitle", "テナントポリシー")
    ∷ ("admin.saveDomain", "ドメインを保存")
    ∷ ("admin.saveEndpoint", "通知先を保存")
    ∷ ("admin.addEndpoint", "通知先を追加")
    ∷ ("admin.selectDomainOverride", "ドメイン上書きを選択")
    ∷ ("admin.saveOverridePolicy", "上書きを保存")
    ∷ ("admin.selectDomainForOverride", "上のドメインを選択して上書きポリシーを管理してください。")
    ∷ ("common.username", "ユーザー名")
    ∷ ("common.save", "保存")
    ∷ ("common.expand", "展開")
    ∷ ("common.collapse", "折りたたむ")
    ∷ ("nav.settings", "アカウント")
    ∷ ("nav.backToWorkspace", "ワークスペース")
    ∷ ("shell.adminTitle", "テナント管理センター")
    ∷ ("domains.intervalPresetLabel", "確認周期")
    ∷ ("domains.intervalPresetHint", "日単位のプリセットを選ぶか、秒単位のカスタム間隔に切り替えてください。")
    ∷ ("domains.intervalPresetDays", "{{days}} 日ごと")
    ∷ ("domains.intervalCustomOption", "秒数を指定")
    ∷ ("domains.customIntervalLabel", "カスタム間隔（秒）")
    ∷ ("domains.customIntervalHint", "ここに値を入力すると、プリセット周期より優先されます。")
    ∷ ("domains.checkIntervalCompact", "周期")
    ∷ ("settings.title", "アカウント設定")
    ∷ ("settings.description", "ユーザー名を管理し、必要に応じて通知やパスワード再設定用のメールアドレスを紐付けます。")
    ∷ ("settings.optionalEmailPlaceholder", "name@example.com")
    ∷ ("settings.emailHint", "メールアドレスは任意です。後から通知やパスワード再設定に使えます。")
    ∷ ("settings.publicPageTitle", "公開ステータスページ")
    ∷ ("settings.publicPageDescription", "公開ステータスページのタイトル、副題、表示文言を設定します。")
    ∷ ("settings.publicPageTitleLabel", "公開ページのタイトル")
    ∷ ("settings.publicPageTitlePlaceholder", "例: Production SSL Status")
    ∷ ("settings.publicPageTitleHint", "未入力の場合は現在のワークスペース名を使用します。")
    ∷ ("settings.publicPageSubtitleLabel", "公開ページのサブタイトル")
    ∷ ("settings.publicPageSubtitlePlaceholder", "例: SSL 証明書の状態と期限をリアルタイム表示")
    ∷ ("settings.publicPageSubtitleHint", "未入力の場合は既定の説明文を表示します。")
    ∷ ("settings.publicPageUrlLabel", "公開ページ URL")
    ∷ ("settings.publicPagePreview", "プレビュー")
    ∷ ("settings.openPublicPage", "公開ページを開く")
    ∷ ("settings.saveSuccess", "アカウント設定を更新しました。")
    ∷ ("settings.saveError", "アカウント設定を更新できませんでした。")
    ∷ ("settings.noEmailBound", "メール未登録")
    ∷ ("dashboard.overviewTitle", "監視サマリー")
    ∷ ("dashboard.overviewDescription", "現在の証明書状態、異常件数、直近の期限をまとめて確認します。")
    ∷ ("dashboard.loadingOverview", "監視サマリーを読み込み中…")
    ∷ ("dashboard.overallStatus", "全体ステータス")
    ∷ ("dashboard.publicPageTitle", "公開ステータスページ")
    ∷ ("dashboard.publicPageDescription", "現在のテナント公開ページを確認し、すぐに開けます。")
    ∷ ("dashboard.currentHeadline", "現在の見出し")
    ∷ ("dashboard.publicUrl", "公開 URL")
    ∷ ("dashboard.openPublicPage", "公開ページを開く")
    ∷ ("dashboard.customizePublicPage", "公開ページを編集")
    ∷ ("admin.activeBadge", "有効")
    ∷ ("admin.disabledBadge", "無効")
    ∷ ("admin.domainCountLabel", "ドメイン数")
    ∷ ("admin.healthyCountLabel", "正常")
    ∷ ("admin.pendingCountLabel", "保留")
    ∷ ("admin.errorCountLabel", "エラー")
    ∷ ("admin.searchLabel", "テナントを検索")
    ∷ ("admin.searchPlaceholder", "ワークスペース名、ユーザー名、メール、ID で検索")
    ∷ ("admin.manageTenant", "管理")
    ∷ ("admin.noTenants", "利用可能なテナントがありません。")
    ∷ ("admin.noTenantMatches", "現在の検索条件に一致するテナントはありません。")
    ∷ ("admin.tenantDetailDescription", "テナント ID #{{tenantId}}")
    ∷ ("admin.publicStatusPage", "公開ステータスページ")
    ∷ ("admin.tenantAccessTitle", "テナントアクセス制御")
    ∷ ("admin.tenantAccessDescription", "アクセスを即時停止したり、テナント削除や所有者パスワード更新を行えます。")
    ∷ ("admin.enableTenant", "テナントを有効化")
    ∷ ("admin.disableTenant", "テナントを無効化")
    ∷ ("admin.deleteTenant", "テナントを削除")
    ∷ ("admin.resetPasswordTitle", "テナントパスワードを更新")
    ∷ ("admin.resetPasswordDescription", "所有者のパスワードを更新し、既存セッションを失効させます。")
    ∷ ("admin.updateTenantPassword", "パスワードを更新")
    ∷ ("admin.tenantDisabledSuccess", "テナントを無効化しました。")
    ∷ ("admin.tenantEnabledSuccess", "テナントを有効化しました。")
    ∷ ("admin.tenantDeletedSuccess", "テナントを削除しました。")
    ∷ ("admin.passwordUpdatedSuccess", "テナントのパスワードを更新しました。")
    ∷ ("admin.passwordUpdateError", "テナントのパスワードを更新できませんでした。")
    ∷ ("admin.tenantStatusError", "テナントの状態を更新できませんでした。")
    ∷ ("admin.tenantDeleteError", "テナントを削除できませんでした。")
    ∷ ("admin.selectTenantPrompt", "アクセス権と公開ステータスページを管理するテナントを選択してください。")
    ∷ ("statusPage.titleFallback", "証明書ステータス")
    ∷ ("statusPage.subtitle", "現在の SSL 証明書の健全性と有効期限をリアルタイムで表示します。")
    ∷ ("statusPage.subtitleFallback", "現在の SSL 証明書の健全性と有効期限をリアルタイムで表示します。")
    ∷ ("statusPage.signIn", "サインイン")
    ∷ ("statusPage.totalMonitors", "ドメイン数")
    ∷ ("statusPage.healthyMonitors", "正常")
    ∷ ("statusPage.pendingMonitors", "保留")
    ∷ ("statusPage.nextExpiry", "次の期限切れ")
    ∷ ("statusPage.domainOverview", "証明書モニター")
    ∷ ("statusPage.empty", "このテナントで公開中のモニターはありません。")
    ∷ []
