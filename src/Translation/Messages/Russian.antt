-- ===== src/Translation/Messages/Russian.antt =====
-- The entries of `messages["ru"]` in apps/web/src/lib/i18n.tsx, in their order: the first half, and all.
mod Rest
use go_check_ssl.Prelude.{String, List, ◌∷◌, [], ◌++◌}
use go_check_ssl.Translation.Messages.Russian.Rest.{ru_rest}

unfoldable pub ru_first : List (String × String)
ru_first =
    ("common.loadingSession", "Загрузка сессии…")
    ∷ ("common.loadingDomains", "Загрузка доменов…")
    ∷ ("common.language", "Язык")
    ∷ ("common.email", "Эл. почта")
    ∷ ("common.password", "Пароль")
    ∷ ("common.newPassword", "Новый пароль")
    ∷ ("common.logout", "Выйти")
    ∷ ("common.cancel", "Отмена")
    ∷ ("common.hostname", "Имя хоста")
    ∷ ("common.port", "Порт")
    ∷ ("common.status", "Статус")
    ∷ ("common.daysLeft", "Дней осталось")
    ∷ ("common.actions", "Действия")
    ∷ ("common.checkNow", "Проверить сейчас")
    ∷ ("common.edit", "Изменить")
    ∷ ("common.delete", "Удалить")
    ∷ ("common.name", "Название")
    ∷ ("common.type", "Тип")
    ∷ ("common.enabled", "Включено")
    ∷ ("common.none", "—")
    ∷ ("common.targetIp", "Заданный IP")
    ∷ ("common.resolvedIp", "Определённый IP")
    ∷ ("common.validFrom", "Действует с")
    ∷ ("common.validTo", "Действует до")
    ∷ ("common.lastChecked", "Последняя проверка")
    ∷ ("common.commonName", "Общее имя")
    ∷ ("common.issuer", "Издатель")
    ∷ ("common.subject", "Субъект")
    ∷ ("common.serialNumber", "Серийный номер")
    ∷ ("common.fingerprint", "SHA-256 отпечаток")
    ∷ ("common.signatureAlgorithm", "Алгоритм подписи")
    ∷ ("common.san", "SAN")
    ∷ ("nav.domains", "Домены")
    ∷ ("nav.notifications", "Уведомления")
    ∷ ("nav.admin", "Админ")
    ∷ ("shell.title", "Мониторинг SSL-сертификатов")
    ∷ ("role.super_admin", "Суперадмин")
    ∷ ("role.tenant_owner", "Владелец арендатора")
    ∷ ("status.pending", "Ожидает")
    ∷ ("status.healthy", "Норма")
    ∷ ("status.error", "Ошибка")
    ∷ ("endpointType.email", "Эл. почта")
    ∷ ("endpointType.telegram", "Telegram")
    ∷ ("endpointType.webhook", "Webhook")
    ∷ ("validation.hostnameRequired", "Имя хоста обязательно")
    ∷ ("validation.portInvalid", "Порт должен быть корректным целым числом")
    ∷ ("validation.portRange", "Порт должен быть в диапазоне от 1 до 65535")
    ∷ ("validation.minInterval", "Минимальный интервал — 60 секунд")
    ∷ ("validation.nameRequired", "Название обязательно")
    ∷ ("validation.recipientEmailRequired", "Адрес получателя обязателен")
    ∷ ("validation.telegramChatIdRequired", "Telegram chat ID обязателен")
    ∷ ("validation.webhookUrlRequired", "URL webhook обязателен")
    ∷ ("auth.signInTitle", "Вход")
    ∷ (
      "auth.signInDescription",
      "Войдите по имени пользователя, чтобы управлять SSL-мониторингом, уведомлениями и настройками администратора.",
    )
    ∷ ("auth.signIn", "Войти")
    ∷ ("auth.createAccount", "Создать аккаунт")
    ∷ ("auth.forgotPasswordLink", "Забыли пароль?")
    ∷ ("auth.backToLogin", "Назад ко входу")
    ∷ ("auth.workspaceName", "Название рабочего пространства")
    ∷ (
      "auth.createAccountDescription",
      "Создайте аккаунт только с именем пользователя и паролем. Почту можно привязать позже в панели.",
    )
    ∷ ("auth.createAccountButton", "Создать аккаунт")
    ∷ ("auth.alreadyHaveAccount", "Уже есть аккаунт?")
    ∷ ("auth.registrationSuccess", "Регистрация успешна. Теперь можно войти.")
    ∷ ("auth.registrationFallbackError", "Не удалось зарегистрироваться")
    ∷ ("auth.loginFallbackError", "Не удалось войти")
    ∷ ("auth.forgotPasswordTitle", "Сброс пароля")
    ∷ (
      "auth.forgotPasswordDescription",
      "Введите имя пользователя или привязанный e-mail. Если у аккаунта есть привязанный адрес, мы отправим ссылку для сброса.",
    )
    ∷ ("auth.usernameOrEmail", "Имя пользователя или привязанный e-mail")
    ∷ ("auth.forgotPasswordSuccess", "Если адрес существует, ссылка для сброса уже отправлена.")
    ∷ ("auth.sendResetLink", "Отправить ссылку")
    ∷ ("auth.resetPasswordTitle", "Новый пароль")
    ∷ ("auth.resetPasswordDescription", "Используйте токен, отправленный на вашу почту.")
    ∷ ("auth.resetPasswordButton", "Сбросить пароль")
    ∷ ("auth.resetPasswordFallbackError", "Не удалось сбросить пароль")
    ∷ ("auth.missingResetToken", "В URL отсутствует токен.")
    ∷ ("auth.verifyEmailTitle", "Подтверждение почты")
    ∷ (
      "auth.verifyEmailDescription",
      "Подтвердите почту, чтобы открыть вход для владельцев арендаторов.",
    )
    ∷ ("auth.verifyingEmail", "Подтверждаем вашу почту…")
    ∷ ("auth.verifyEmailSuccess", "Почта успешно подтверждена. Теперь можно войти.")
    ∷ ("auth.verifyEmailFallbackError", "Не удалось подтвердить почту")
    ∷ ("auth.missingVerifyToken", "Отсутствует токен подтверждения.")
    ∷ ("auth.needNewAccount", "Нужен новый аккаунт?")
    ∷ ("auth.registerAgain", "Зарегистрироваться снова")
    ∷ ("domains.addTitle", "Добавить домен")
    ∷ ("domains.editTitle", "Изменить домен")
    ∷ (
      "domains.formDescription",
      "Добавьте TLS-хосты и задайте частоту повторной проверки сертификатов пулом воркеров.",
    )
    ∷ ("domains.addButton", "Добавить домен")
    ∷ ("domains.saveButton", "Сохранить изменения")
    ∷ ("domains.managedTitle", "Управляемые домены")
    ∷ ("domains.managedDescription", "Отслеживайте состояние, срок действия и ручные проверки.")
    ∷ ("domains.empty", "Домены еще не добавлены.")
    ∷ ("domains.hostnamePlaceholder", "example.com")
    ∷ ("domains.targetIpPlaceholder", "203.0.113.10")
    ∷ (
      "domains.targetIpHint",
      "Необязательно. Если указано, Certwarden подключается к этому IP и всё равно отправляет имя хоста через SNI. Оставьте пустым для автоматического DNS.",
    )
    ∷ ("domains.autoResolve", "Авто DNS")
    ∷ ("domains.checkIntervalLabel", "Интервал проверки (секунды)")
    ∷ ("domains.portLabel", "Порт {{port}}")
    ∷ ("domains.nextCheck", "Следующая проверка")
    ∷ ("domains.lastSuccessful", "Последняя успешная проверка")
    ∷ (
      "domains.noCertificateData",
      "Данные сертификата появятся после первой успешной TLS-проверки.",
    )
    ∷ ("domains.detectionNotes", "Маршрут проверки")
    ∷ ("domains.targetIpSummary", "Заданный маршрут: {{value}}")
    ∷ ("domains.resolvedIpSummary", "Фактический IP подключения: {{value}}")
    ∷ ("domains.noTenantDomains", "У этого арендатора пока нет доменов.")
    ∷ ("notifications.addEndpointTitle", "Добавить канал уведомлений")
    ∷ ("notifications.editEndpointTitle", "Изменить канал уведомлений")
    ∷ (
      "notifications.endpointDescription",
      "Управляйте получателями по e-mail, chat ID Telegram и универсальными webhook.",
    )
    ∷ ("notifications.endpointListTitle", "Каналы уведомлений")
    ∷ (
      "notifications.endpointListDescription",
      "Привяжите эти каналы к политике по умолчанию или к домену.",
    )
    ∷ ("notifications.noEndpoints", "Каналы пока не настроены.")
    ∷ ("notifications.defaultPolicyTitle", "Политика арендатора по умолчанию")
    ∷ (
      "notifications.defaultPolicyDescription",
      "Применяется ко всем доменам, если нет отдельного переопределения.",
    )
    ∷ ("notifications.overridePolicyTitle", "Переопределение политики домена")
    ∷ (
      "notifications.overridePolicyDescription",
      "Переопределите пороги и привязки каналов для одного домена.",
    )
    ∷ ("notifications.selectDomain", "Выберите домен")
    ∷ ("notifications.chooseDomainToEdit", "Выберите домен для редактирования переопределения.")
    ∷ ("notifications.saveDefaultPolicy", "Сохранить политику по умолчанию")
    ∷ ("notifications.saveDomainPolicy", "Сохранить политику домена")
    ∷ ("notifications.saveEndpoint", "Сохранить канал")
    ∷ ("notifications.addEndpoint", "Добавить канал")
    ∷ []

unfoldable pub ru_dictionary : List (String × String)
unfolding ru_first ru_rest
ru_dictionary = ru_first ++ ru_rest
