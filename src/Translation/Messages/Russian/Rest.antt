-- ===== src/Translation/Messages/Russian/Rest.antt =====
-- The entries of `messages["ru"]` in apps/web/src/lib/i18n.tsx, the second half.
use go_check_ssl.Prelude.{String, List, ◌∷◌, []}

unfoldable pub ru_rest : List (String × String)
ru_rest =
    ("notifications.recipientEmailLabel", "E-mail получателя")
    ∷ ("notifications.telegramChatIdLabel", "Telegram chat ID")
    ∷ ("notifications.webhookUrlLabel", "Webhook URL")
    ∷ ("notifications.authHeaderName", "Имя auth-заголовка")
    ∷ ("notifications.authHeaderValue", "Значение auth-заголовка")
    ∷ ("notifications.primaryEmailPlaceholder", "recipient@example.com")
    ∷ ("notifications.telegramChatPlaceholder", "123456789")
    ∷ ("notifications.webhookUrlPlaceholder", "https://example.com/webhook")
    ∷ ("notifications.authHeaderNamePlaceholder", "X-Webhook-Token")
    ∷ ("notifications.authHeaderValuePlaceholder", "secret")
    ∷ ("notifications.thresholdsLabel", "Пороги (дни, через запятую)")
    ∷ ("notifications.thresholdsPlaceholder", "30, 7, 1")
    ∷ ("notifications.currentThresholdInput", "Текущий ввод: {{value}}")
    ∷ ("notifications.channels", "Каналы")
    ∷ ("admin.platformSettingsTitle", "Настройки платформы")
    ∷ (
      "admin.platformSettingsDescription",
      "Управляйте саморегистрацией и рабочими пространствами арендаторов.",
    )
    ∷ ("admin.registrationTitle", "Регистрация")
    ∷ ("admin.registrationEnabledDescription", "Новые пользователи могут создавать аккаунты.")
    ∷ ("admin.registrationDisabledDescription", "Регистрация сейчас отключена.")
    ∷ ("admin.disableRegistration", "Отключить регистрацию")
    ∷ ("admin.enableRegistration", "Включить регистрацию")
    ∷ ("admin.tenantsTitle", "Арендаторы")
    ∷ (
      "admin.tenantsDescription",
      "Просматривайте арендаторов в масштабируемой таблице, а затем открывайте карточку для блокировки, удаления или смены пароля.",
    )
    ∷ ("admin.selectedWorkspaceTitle", "Выбранное пространство")
    ∷ ("admin.selectedWorkspaceDescription", "{{email}} · {{tenant}}")
    ∷ ("admin.createTenantDomainTitle", "Создать домен для арендатора")
    ∷ ("admin.editTenantDomainTitle", "Изменить домен")
    ∷ ("admin.tenantDomainsTitle", "Домены арендатора")
    ∷ ("admin.tenantDomainMeta", "Статус: {{status}} · Дней: {{days}}")
    ∷ ("admin.createEndpointTitle", "Создать канал")
    ∷ ("admin.editEndpointTitle", "Изменить канал")
    ∷ ("admin.tenantEndpointsTitle", "Каналы арендатора")
    ∷ ("admin.tenantPoliciesTitle", "Политики арендатора")
    ∷ ("admin.saveDomain", "Сохранить домен")
    ∷ ("admin.saveEndpoint", "Сохранить канал")
    ∷ ("admin.addEndpoint", "Добавить канал")
    ∷ ("admin.selectDomainOverride", "Выберите переопределение домена")
    ∷ ("admin.saveOverridePolicy", "Сохранить переопределение")
    ∷ (
      "admin.selectDomainForOverride", "Выберите домен выше, чтобы управлять его переопределением.",
    )
    ∷ ("common.username", "Имя пользователя")
    ∷ ("common.save", "Сохранить")
    ∷ ("common.expand", "Развернуть")
    ∷ ("common.collapse", "Свернуть")
    ∷ ("nav.settings", "Аккаунт")
    ∷ ("nav.backToWorkspace", "Рабочее пространство")
    ∷ ("shell.adminTitle", "Центр управления арендаторами")
    ∷ ("domains.intervalPresetLabel", "Период проверки")
    ∷ (
      "domains.intervalPresetHint",
      "Выберите период в днях или переключитесь на пользовательский интервал в секундах.",
    )
    ∷ ("domains.intervalPresetDays", "Каждые {{days}} дн.")
    ∷ ("domains.intervalCustomOption", "Свои секунды")
    ∷ ("domains.customIntervalLabel", "Пользовательский интервал (секунды)")
    ∷ (
      "domains.customIntervalHint",
      "Если указать значение здесь, оно заменит предустановленный период.",
    )
    ∷ ("domains.checkIntervalCompact", "Период")
    ∷ ("settings.title", "Настройки аккаунта")
    ∷ (
      "settings.description",
      "Управляйте именем пользователя и при необходимости привяжите e-mail для уведомлений или восстановления пароля.",
    )
    ∷ ("settings.optionalEmailPlaceholder", "name@example.com")
    ∷ (
      "settings.emailHint",
      "E-mail необязателен. Позже его можно использовать для уведомлений и восстановления пароля.",
    )
    ∷ ("settings.publicPageTitle", "Публичная страница статуса")
    ∷ (
      "settings.publicPageDescription",
      "Настройте заголовок, подзаголовок и внешний текст публичной страницы статуса.",
    )
    ∷ ("settings.publicPageTitleLabel", "Заголовок публичной страницы")
    ∷ ("settings.publicPageTitlePlaceholder", "Например: Production SSL Status")
    ∷ (
      "settings.publicPageTitleHint",
      "Если оставить пустым, будет использовано имя текущего рабочего пространства.",
    )
    ∷ ("settings.publicPageSubtitleLabel", "Подзаголовок публичной страницы")
    ∷ (
      "settings.publicPageSubtitlePlaceholder",
      "Например: Актуальный статус SSL и сроки действия сертификатов",
    )
    ∷ (
      "settings.publicPageSubtitleHint",
      "Если оставить пустым, будет показано описание по умолчанию.",
    )
    ∷ ("settings.publicPageUrlLabel", "Публичный URL")
    ∷ ("settings.publicPagePreview", "Предпросмотр")
    ∷ ("settings.openPublicPage", "Открыть публичную страницу")
    ∷ ("settings.saveSuccess", "Настройки аккаунта обновлены.")
    ∷ ("settings.saveError", "Не удалось обновить настройки аккаунта.")
    ∷ ("settings.noEmailBound", "E-mail не привязан")
    ∷ ("dashboard.overviewTitle", "Обзор мониторинга")
    ∷ (
      "dashboard.overviewDescription",
      "Смотрите текущее состояние сертификатов, количество проблем и ближайшее истечение.",
    )
    ∷ ("dashboard.loadingOverview", "Загрузка обзора…")
    ∷ ("dashboard.overallStatus", "Общий статус")
    ∷ ("dashboard.publicPageTitle", "Публичная страница статуса")
    ∷ (
      "dashboard.publicPageDescription",
      "Показывайте публичный статус арендатора и открывайте страницу в один клик.",
    )
    ∷ ("dashboard.currentHeadline", "Текущий заголовок")
    ∷ ("dashboard.publicUrl", "Публичный URL")
    ∷ ("dashboard.openPublicPage", "Открыть публичную страницу")
    ∷ ("dashboard.customizePublicPage", "Настроить публичную страницу")
    ∷ ("admin.activeBadge", "Активен")
    ∷ ("admin.disabledBadge", "Отключён")
    ∷ ("admin.domainCountLabel", "Домены")
    ∷ ("admin.healthyCountLabel", "Исправно")
    ∷ ("admin.pendingCountLabel", "Ожидает")
    ∷ ("admin.errorCountLabel", "Ошибки")
    ∷ ("admin.searchLabel", "Найти арендатора")
    ∷ ("admin.searchPlaceholder", "Поиск по пространству, имени пользователя, e-mail или ID")
    ∷ ("admin.manageTenant", "Управлять")
    ∷ ("admin.noTenants", "Доступных арендаторов нет.")
    ∷ ("admin.noTenantMatches", "По текущему запросу арендаторы не найдены.")
    ∷ ("admin.tenantDetailDescription", "ID арендатора #{{tenantId}}")
    ∷ ("admin.publicStatusPage", "Публичная страница статуса")
    ∷ ("admin.tenantAccessTitle", "Управление доступом арендатора")
    ∷ (
      "admin.tenantAccessDescription",
      "Можно сразу отключить доступ, удалить арендатора или сменить пароль владельца.",
    )
    ∷ ("admin.enableTenant", "Включить арендатора")
    ∷ ("admin.disableTenant", "Отключить арендатора")
    ∷ ("admin.deleteTenant", "Удалить арендатора")
    ∷ ("admin.resetPasswordTitle", "Сбросить пароль арендатора")
    ∷ (
      "admin.resetPasswordDescription",
      "Обновляет пароль владельца арендатора и отзывает существующие сессии.",
    )
    ∷ ("admin.updateTenantPassword", "Обновить пароль")
    ∷ ("admin.tenantDisabledSuccess", "Арендатор отключён.")
    ∷ ("admin.tenantEnabledSuccess", "Арендатор включён.")
    ∷ ("admin.tenantDeletedSuccess", "Арендатор удалён.")
    ∷ ("admin.passwordUpdatedSuccess", "Пароль арендатора обновлён.")
    ∷ ("admin.passwordUpdateError", "Не удалось обновить пароль арендатора.")
    ∷ ("admin.tenantStatusError", "Не удалось обновить статус арендатора.")
    ∷ ("admin.tenantDeleteError", "Не удалось удалить арендатора.")
    ∷ (
      "admin.selectTenantPrompt",
      "Выберите арендатора, чтобы управлять его доступом и публичной страницей статуса.",
    )
    ∷ ("statusPage.titleFallback", "Статус сертификатов")
    ∷ ("statusPage.subtitle", "Актуальный обзор состояния SSL и сроков действия сертификатов.")
    ∷ (
      "statusPage.subtitleFallback",
      "Актуальный обзор состояния SSL и сроков действия сертификатов.",
    )
    ∷ ("statusPage.signIn", "Войти")
    ∷ ("statusPage.totalMonitors", "Домены")
    ∷ ("statusPage.healthyMonitors", "Исправно")
    ∷ ("statusPage.pendingMonitors", "Ожидает")
    ∷ ("statusPage.nextExpiry", "Ближайшее истечение")
    ∷ ("statusPage.domainOverview", "Мониторы сертификатов")
    ∷ ("statusPage.empty", "Для этого арендатора нет публичных мониторов.")
    ∷ []
