-- ===== src/Translation/Messages/Japanese.antt =====
-- The entries of `messages["ja"]` in apps/web/src/lib/i18n.tsx, in their order: the first half, and all.
mod Rest
use go_check_ssl.Prelude.{String, List, ◌∷◌, [], ◌++◌}
use go_check_ssl.Translation.Messages.Japanese.Rest.{ja_rest}

unfoldable pub ja_first : List (String × String)
ja_first =
    ("common.loadingSession", "セッションを読み込み中…")
    ∷ ("common.loadingDomains", "ドメインを読み込み中…")
    ∷ ("common.language", "言語")
    ∷ ("common.email", "メールアドレス")
    ∷ ("common.password", "パスワード")
    ∷ ("common.newPassword", "新しいパスワード")
    ∷ ("common.logout", "ログアウト")
    ∷ ("common.cancel", "キャンセル")
    ∷ ("common.hostname", "ホスト名")
    ∷ ("common.port", "ポート")
    ∷ ("common.status", "状態")
    ∷ ("common.daysLeft", "残り日数")
    ∷ ("common.actions", "操作")
    ∷ ("common.checkNow", "今すぐ確認")
    ∷ ("common.edit", "編集")
    ∷ ("common.delete", "削除")
    ∷ ("common.name", "名前")
    ∷ ("common.type", "種類")
    ∷ ("common.enabled", "有効")
    ∷ ("common.none", "—")
    ∷ ("common.targetIp", "指定 IP")
    ∷ ("common.resolvedIp", "接続先 IP")
    ∷ ("common.validFrom", "有効開始")
    ∷ ("common.validTo", "有効期限")
    ∷ ("common.lastChecked", "最終確認")
    ∷ ("common.commonName", "コモンネーム")
    ∷ ("common.issuer", "発行者")
    ∷ ("common.subject", "サブジェクト")
    ∷ ("common.serialNumber", "シリアル番号")
    ∷ ("common.fingerprint", "SHA-256 フィンガープリント")
    ∷ ("common.signatureAlgorithm", "署名アルゴリズム")
    ∷ ("common.san", "SAN")
    ∷ ("nav.domains", "ドメイン")
    ∷ ("nav.notifications", "通知")
    ∷ ("nav.admin", "管理")
    ∷ ("shell.title", "SSL 証明書監視")
    ∷ ("role.super_admin", "スーパー管理者")
    ∷ ("role.tenant_owner", "テナント所有者")
    ∷ ("status.pending", "保留中")
    ∷ ("status.healthy", "正常")
    ∷ ("status.error", "エラー")
    ∷ ("endpointType.email", "メール")
    ∷ ("endpointType.telegram", "Telegram")
    ∷ ("endpointType.webhook", "Webhook")
    ∷ ("validation.hostnameRequired", "ホスト名は必須です")
    ∷ ("validation.portInvalid", "ポートは有効な整数である必要があります")
    ∷ ("validation.portRange", "ポートは 1 から 65535 の範囲で入力してください")
    ∷ ("validation.minInterval", "最小間隔は 60 秒です")
    ∷ ("validation.nameRequired", "名前は必須です")
    ∷ ("validation.recipientEmailRequired", "受信メールアドレスは必須です")
    ∷ ("validation.telegramChatIdRequired", "Telegram Chat ID は必須です")
    ∷ ("validation.webhookUrlRequired", "Webhook URL は必須です")
    ∷ ("auth.signInTitle", "サインイン")
    ∷ ("auth.signInDescription", "SSL 監視、通知、管理設定を行うにはユーザー名でログインしてください。")
    ∷ ("auth.signIn", "サインイン")
    ∷ ("auth.createAccount", "アカウント作成")
    ∷ ("auth.forgotPasswordLink", "パスワードをお忘れですか？")
    ∷ ("auth.backToLogin", "ログインに戻る")
    ∷ ("auth.workspaceName", "ワークスペース名")
    ∷ ("auth.createAccountDescription", "ユーザー名とパスワードだけで登録できます。メールアドレスは後からダッシュボードで紐付けできます。")
    ∷ ("auth.createAccountButton", "アカウントを作成")
    ∷ ("auth.alreadyHaveAccount", "既にアカウントをお持ちですか？")
    ∷ ("auth.registrationSuccess", "登録が完了しました。すぐにログインできます。")
    ∷ ("auth.registrationFallbackError", "登録に失敗しました")
    ∷ ("auth.loginFallbackError", "ログインできませんでした")
    ∷ ("auth.forgotPasswordTitle", "パスワード再設定")
    ∷ (
      "auth.forgotPasswordDescription", "ユーザー名または紐付け済みメールアドレスを入力してください。紐付け済みメールがある場合は再設定リンクを送信します。",
    )
    ∷ ("auth.usernameOrEmail", "ユーザー名または紐付け済みメール")
    ∷ ("auth.forgotPasswordSuccess", "アドレスが存在する場合、再設定リンクを送信しました。")
    ∷ ("auth.sendResetLink", "再設定リンクを送信")
    ∷ ("auth.resetPasswordTitle", "パスワードを再設定")
    ∷ ("auth.resetPasswordDescription", "メールで受け取ったトークンを使用してください。")
    ∷ ("auth.resetPasswordButton", "パスワードを再設定")
    ∷ ("auth.resetPasswordFallbackError", "パスワードを再設定できませんでした")
    ∷ ("auth.missingResetToken", "URL にトークンがありません。")
    ∷ ("auth.verifyEmailTitle", "メール認証")
    ∷ ("auth.verifyEmailDescription", "テナント所有者アカウントのログインを有効にするにはメール認証を完了してください。")
    ∷ ("auth.verifyingEmail", "メールを認証中…")
    ∷ ("auth.verifyEmailSuccess", "メール認証が完了しました。ログインできます。")
    ∷ ("auth.verifyEmailFallbackError", "メールを認証できませんでした")
    ∷ ("auth.missingVerifyToken", "認証トークンがありません。")
    ∷ ("auth.needNewAccount", "新しいアカウントが必要ですか？")
    ∷ ("auth.registerAgain", "もう一度登録")
    ∷ ("domains.addTitle", "ドメインを追加")
    ∷ ("domains.editTitle", "ドメインを編集")
    ∷ ("domains.formDescription", "TLS ホスト名を追加し、証明書の再確認間隔を設定します。")
    ∷ ("domains.addButton", "ドメインを追加")
    ∷ ("domains.saveButton", "変更を保存")
    ∷ ("domains.managedTitle", "管理対象ドメイン")
    ∷ ("domains.managedDescription", "状態、有効期限、手動スキャン結果を確認します。")
    ∷ ("domains.empty", "まだドメインがありません。")
    ∷ ("domains.hostnamePlaceholder", "example.com")
    ∷ ("domains.targetIpPlaceholder", "203.0.113.10")
    ∷ ("domains.targetIpHint", "任意です。入力するとその IP に直接接続し、SNI にはホスト名を送ります。空欄なら DNS 解決を自動で使います。")
    ∷ ("domains.autoResolve", "自動 DNS")
    ∷ ("domains.checkIntervalLabel", "確認間隔（秒）")
    ∷ ("domains.portLabel", "ポート {{port}}")
    ∷ ("domains.nextCheck", "次回確認")
    ∷ ("domains.lastSuccessful", "最終成功スキャン")
    ∷ ("domains.noCertificateData", "最初の TLS スキャンが成功すると、ここに証明書の詳細が表示されます。")
    ∷ ("domains.detectionNotes", "検査経路")
    ∷ ("domains.targetIpSummary", "固定ルート: {{value}}")
    ∷ ("domains.resolvedIpSummary", "実際の接続 IP: {{value}}")
    ∷ ("domains.noTenantDomains", "このテナントにはまだドメインがありません。")
    ∷ ("notifications.addEndpointTitle", "通知先を追加")
    ∷ ("notifications.editEndpointTitle", "通知先を編集")
    ∷ ("notifications.endpointDescription", "メール宛先、Telegram Chat ID、汎用 Webhook を管理します。")
    ∷ ("notifications.endpointListTitle", "通知先")
    ∷ ("notifications.endpointListDescription", "これらの通知先を既定ポリシーまたはドメイン別ポリシーに紐付けます。")
    ∷ ("notifications.noEndpoints", "通知先はまだ設定されていません。")
    ∷ ("notifications.defaultPolicyTitle", "既定のテナントポリシー")
    ∷ ("notifications.defaultPolicyDescription", "ドメイン固有の上書きがない場合に適用されます。")
    ∷ ("notifications.overridePolicyTitle", "ドメイン上書きポリシー")
    ∷ ("notifications.overridePolicyDescription", "単一ドメインの閾値と通知先を上書きします。")
    ∷ ("notifications.selectDomain", "ドメインを選択")
    ∷ ("notifications.chooseDomainToEdit", "上書きポリシーを編集するドメインを選択してください。")
    ∷ ("notifications.saveDefaultPolicy", "既定ポリシーを保存")
    ∷ ("notifications.saveDomainPolicy", "ドメインポリシーを保存")
    ∷ ("notifications.saveEndpoint", "通知先を保存")
    ∷ ("notifications.addEndpoint", "通知先を追加")
    ∷ []

unfoldable pub ja_dictionary : List (String × String)
unfolding ja_first ja_rest
ja_dictionary = ja_first ++ ja_rest
