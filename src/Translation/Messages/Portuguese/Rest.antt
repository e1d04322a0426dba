-- ===== src/Translation/Messages/Portuguese/Rest.antt =====
-- The entries of `messages["pt"]` in apps/web/src/lib/i18n.tsx, the second half.
use go_check_ssl.Prelude.{String, List, ◌∷◌, []}

unfoldable pub pt_rest : List (String × String)
pt_rest =
    ("notifications.noEndpoints", "Nenhum endpoint configurado ainda.")
    ∷ ("notifications.endpointListTitle", "Pontos de extremidade de notificação")
    ∷ (
      "notifications.endpointListDescription",
      "Vincule esses pontos de extremidade às políticas de limite padrão ou por domínio.",
    )
    ∷ ("notifications.overridePolicyTitle", "Política de substituição de domínio")
    ∷ (
      "notifications.endpointDescription",
      "Gerencie destinatários de e-mail, Telegram bate-papos IDs e webhooks genéricos.",
    )
    ∷ (
      "notifications.defaultPolicyDescription",
      "Aplicado a todos os domínios, a menos que exista uma substituição de domínio.",
    )
    ∷ (
      "notifications.overridePolicyDescription",
      "Substitua limites e ligações de endpoint para um único domínio.",
    )
    ∷ ("notifications.saveDefaultPolicy", "Salvar política padrão")
    ∷ ("notifications.defaultPolicyTitle", "Política tenant padrão")
    ∷ ("notifications.recipientEmailLabel", "E-mail do destinatário")
    ∷ ("notifications.webhookUrlLabel", "Webhook URL")
    ∷ ("notifications.telegramChatIdLabel", "Telegram bate-papo ID")
    ∷ ("notifications.authHeaderName", "Nome do cabeçalho de autenticação")
    ∷ ("notifications.saveEndpoint", "Salvar ponto de extremidade")
    ∷ ("notifications.selectDomain", "Selecione um domínio")
    ∷ (
      "notifications.chooseDomainToEdit",
      "Escolha um domínio para editar sua política de substituição.",
    )
    ∷ ("notifications.addEndpoint", "Adicionar ponto de extremidade")
    ∷ ("notifications.primaryEmailPlaceholder", "destinatário@exemplo.com")
    ∷ ("notifications.webhookUrlPlaceholder", "https://example.com/webhook")
    ∷ ("notifications.authHeaderValuePlaceholder", "segredo")
    ∷ ("notifications.channels", "Canais")
    ∷ ("settings.title", "Configurações de Conta")
    ∷ ("notifications.saveDomainPolicy", "Salvar política de domínio")
    ∷ ("settings.optionalEmailPlaceholder", "nome@exemplo.com")
    ∷ (
      "settings.description",
      "Gerencie seu nome de usuário e vincule um endereço de e-mail opcional para notificações ou recuperação de senha.",
    )
    ∷ ("notifications.currentThresholdInput", "Entrada atual: {{value}}")
    ∷ ("notifications.authHeaderNamePlaceholder", "X-Webhook-Token")
    ∷ ("notifications.authHeaderValue", "Valor do cabeçalho de autenticação")
    ∷ ("notifications.telegramChatPlaceholder", "123456789")
    ∷ ("notifications.thresholdsPlaceholder", "30, 7, 1")
    ∷ ("notifications.thresholdsLabel", "Limites (dias, separados por vírgula)")
    ∷ ("settings.publicPageTitlePlaceholder", "Exemplo: Status de produção SSL")
    ∷ ("settings.publicPageTitle", "Página de status público")
    ∷ ("settings.publicPageTitleLabel", "Título da página pública")
    ∷ ("settings.publicPageSubtitleLabel", "Legenda da página pública")
    ∷ (
      "settings.publicPageDescription",
      "Personalize o título, o subtítulo e a cópia externa de sua página de status pública.",
    )
    ∷ ("settings.publicPageSubtitleHint", "Deixe em branco para mostrar a cópia descritiva padrão.")
    ∷ ("settings.saveSuccess", "Configurações da conta atualizadas.")
    ∷ ("settings.publicPageTitleHint", "Deixe em branco para usar seu nome workspace atual.")
    ∷ (
      "settings.publicPageSubtitlePlaceholder",
      "Exemplo: Visão geral da integridade e expiração do SSL ativo",
    )
    ∷ (
      "settings.emailHint",
      "Este e-mail é opcional. Você pode usá-lo para notificações e recuperação de senha posteriormente.",
    )
    ∷ ("settings.saveError", "Não foi possível atualizar as configurações da conta")
    ∷ ("settings.openPublicPage", "Abrir página pública")
    ∷ ("settings.publicPagePreview", "Visualização")
    ∷ ("settings.publicPageUrlLabel", "Página pública URL")
    ∷ ("dashboard.overviewTitle", "Visão geral do monitoramento")
    ∷ ("dashboard.publicPageTitle", "Página de status público")
    ∷ ("dashboard.openPublicPage", "Abrir página pública")
    ∷ (
      "dashboard.overviewDescription",
      "Veja a integridade do certificado, a contagem de problemas e a próxima expiração em um só lugar.",
    )
    ∷ (
      "dashboard.publicPageDescription",
      "Exponha publicamente o status atual do seu certificado e acesse-o com um clique.",
    )
    ∷ ("dashboard.publicUrl", "Público URL")
    ∷ ("settings.noEmailBound", "Nenhum e-mail vinculado")
    ∷ ("admin.registrationTitle", "Cadastro")
    ∷ ("dashboard.currentHeadline", "Título atual")
    ∷ ("dashboard.loadingOverview", "Carregando visão geral do monitoramento…")
    ∷ ("dashboard.overallStatus", "Estado geral")
    ∷ ("dashboard.customizePublicPage", "Personalizar página pública")
    ∷ ("admin.enableRegistration", "Habilitar registro")
    ∷ ("admin.tenantsTitle", "Inquilinos")
    ∷ ("admin.disableRegistration", "Desativar registro")
    ∷ ("admin.platformSettingsTitle", "Configurações da plataforma")
    ∷ (
      "admin.platformSettingsDescription",
      "Controle o registro de autoatendimento e gerencie tenant workspaces.",
    )
    ∷ ("admin.registrationEnabledDescription", "Novos usuários podem criar contas.")
    ∷ ("admin.registrationDisabledDescription", "O registro está desativado no momento.")
    ∷ ("admin.editTenantDomainTitle", "Editar domínio")
    ∷ (
      "admin.tenantsDescription",
      "Revise o status de tenant em uma tabela escalonável e abra um workspace para desativar o acesso, redefinir senhas ou excluir tenant.",
    )
    ∷ ("admin.selectedWorkspaceDescription", "{{email}} · {{tenant}}")
    ∷ ("admin.createTenantDomainTitle", "Criar domínio para tenant")
    ∷ ("admin.searchPlaceholder", "Busque por workspace, usuário, e-mail ou ID")
    ∷ ("admin.tenantDomainMeta", "Status: {{status}} · Dias: {{days}}")
    ∷ ("admin.tenantEndpointsTitle", "Pontos de extremidade do locatário")
    ∷ ("admin.tenantDomainsTitle", "Domínios de locatário")
    ∷ ("admin.searchLabel", "Buscar tenant")
    ∷ ("admin.selectedWorkspaceTitle", "Selecionado workspace")
    ∷ ("admin.editEndpointTitle", "Editar ponto de extremidade")
    ∷ ("admin.saveEndpoint", "Salvar ponto de extremidade")
    ∷ ("admin.activeBadge", "Ativo")
    ∷ ("admin.addEndpoint", "Adicionar ponto de extremidade")
    ∷ ("admin.disabledBadge", "Desabilitado")
    ∷ ("admin.domainCountLabel", "Domínios")
    ∷ ("admin.pendingCountLabel", "Pendente")
    ∷ (
      "admin.selectDomainForOverride",
      "Selecione um domínio acima para gerenciar sua política de substituição.",
    )
    ∷ ("admin.errorCountLabel", "Erros")
    ∷ ("admin.manageTenant", "Gerenciar")
    ∷ ("admin.healthyCountLabel", "Saudável")
    ∷ ("admin.saveDomain", "Salvar domínio")
    ∷ ("admin.tenantPoliciesTitle", "Políticas de inquilino")
    ∷ ("admin.selectDomainOverride", "Selecione uma substituição de domínio")
    ∷ ("admin.createEndpointTitle", "Criar ponto de extremidade")
    ∷ ("admin.enableTenant", "Ativar tenant")
    ∷ ("admin.saveOverridePolicy", "Salvar política de substituição")
    ∷ ("admin.tenantAccessTitle", "Controle de acesso do locatário")
    ∷ ("admin.noTenantMatches", "Nenhum tenant corresponde à busca atual.")
    ∷ ("admin.tenantDetailDescription", "Inquilino ID #{{tenantId}}")
    ∷ (
      "admin.tenantAccessDescription",
      "Desative o acesso imediatamente, remova o tenant ou alterne a senha do proprietário do tenant.",
    )
    ∷ ("admin.noTenants", "Não há tenant workspace disponíveis.")
    ∷ ("admin.publicStatusPage", "Página de status público")
    ∷ ("admin.resetPasswordTitle", "Redefinir senha tenant")
    ∷ ("admin.tenantEnabledSuccess", "O locatário foi habilitado.")
    ∷ ("admin.disableTenant", "Desativar tenant")
    ∷ ("admin.updateTenantPassword", "Atualizar senha tenant")
    ∷ ("admin.deleteTenant", "Excluir tenant")
    ∷ (
      "admin.resetPasswordDescription",
      "Isso atualiza a senha do proprietário tenant e revoga as sessões existentes.",
    )
    ∷ ("admin.passwordUpdateError", "Não foi possível atualizar a senha tenant.")
    ∷ ("admin.tenantStatusError", "Não foi possível atualizar o status de tenant.")
    ∷ ("admin.tenantDisabledSuccess", "O inquilino foi desativado.")
    ∷ ("statusPage.signIn", "Entrar")
    ∷ ("statusPage.totalMonitors", "Domínios")
    ∷ ("admin.passwordUpdatedSuccess", "A senha do locatário foi atualizada.")
    ∷ ("statusPage.healthyMonitors", "Saudável")
    ∷ ("statusPage.pendingMonitors", "Pendente")
    ∷ ("statusPage.nextExpiry", "Próxima expiração")
    ∷ ("statusPage.subtitle", "Visão geral da integridade e expiração do certificado SSL ativo.")
    ∷ (
      "statusPage.subtitleFallback",
      "Visão geral da integridade e expiração do certificado SSL ativo.",
    )
    ∷ ("admin.tenantDeleteError", "Não foi possível excluir tenant.")
    ∷ ("admin.tenantDeletedSuccess", "O locatário foi excluído.")
    ∷ ("statusPage.domainOverview", "Monitores de certificado")
    ∷ ("statusPage.titleFallback", "Status do certificado")
    ∷ (
      "admin.selectTenantPrompt",
      "Selecione um tenant para gerenciar sua página de acesso e status público.",
    )
    ∷ ("statusPage.empty", "Nenhum monitor público está disponível para este tenant.")
    ∷ []
