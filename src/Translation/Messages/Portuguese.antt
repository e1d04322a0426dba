-- ===== src/Translation/Messages/Portuguese.antt =====
-- The entries of `messages["pt"]` in apps/web/src/lib/i18n.tsx, in their order: the first half, and all.
mod Rest
use go_check_ssl.Prelude.{String, List, ◌∷◌, [], ◌++◌}
use go_check_ssl.Translation.Messages.Portuguese.Rest.{pt_rest}

unfoldable pub pt_first : List (String × String)
pt_first =
    ("common.language", "Linguagem")
    ∷ ("common.newPassword", "Nova Senha")
    ∷ ("common.username", "Nome de usuário")
    ∷ ("common.password", "Senha")
    ∷ ("common.cancel", "Cancelar")
    ∷ ("common.port", "Porta")
    ∷ ("common.status", "Status")
    ∷ ("common.actions", "Ações")
    ∷ ("common.logout", "Sair")
    ∷ ("common.edit", "Editar")
    ∷ ("common.delete", "Excluir")
    ∷ ("common.expand", "Expandir")
    ∷ ("common.collapse", "Recolher")
    ∷ ("common.save", "Salvar")
    ∷ ("common.name", "Nome")
    ∷ ("common.type", "Tipo")
    ∷ ("common.loadingDomains", "Carregando domínios…")
    ∷ ("common.none", "-")
    ∷ ("common.loadingSession", "Carregando sessão…")
    ∷ ("common.checkNow", "Verifique agora")
    ∷ ("common.hostname", "Nome do host")
    ∷ ("common.email", "E-mail")
    ∷ ("common.daysLeft", "Dias restantes")
    ∷ ("common.enabled", "Ativado")
    ∷ ("common.commonName", "Nome comum")
    ∷ ("common.lastChecked", "Última verificação")
    ∷ ("common.subject", "Assunto")
    ∷ ("common.serialNumber", "Número de série")
    ∷ ("common.san", "SANs")
    ∷ ("common.issuer", "Emissor")
    ∷ ("common.targetIp", "IP fixo")
    ∷ ("common.validTo", "Válido até")
    ∷ ("nav.settings", "Conta")
    ∷ ("nav.admin", "Administrador")
    ∷ ("nav.notifications", "Notificações")
    ∷ ("common.resolvedIp", "IP resolvido")
    ∷ ("common.validFrom", "Válido a partir de")
    ∷ ("common.fingerprint", "SHA-256 Impressão digital")
    ∷ ("common.signatureAlgorithm", "Algoritmo de assinatura")
    ∷ ("nav.backToWorkspace", "Workspace")
    ∷ ("status.healthy", "Saudável")
    ∷ ("status.error", "Erro")
    ∷ ("endpointType.email", "Email")
    ∷ ("endpointType.telegram", "Telegram")
    ∷ ("status.pending", "Pendente")
    ∷ ("nav.domains", "Domínios")
    ∷ ("endpointType.webhook", "Webhook")
    ∷ ("validation.portRange", "A porta deve estar entre 1 e 65535")
    ∷ ("validation.portInvalid", "A porta deve ser um número inteiro válido")
    ∷ ("shell.title", "Monitoramento de certificados SSL")
    ∷ ("validation.recipientEmailRequired", "O e-mail do destinatário é obrigatório")
    ∷ ("validation.nameRequired", "O nome é obrigatório")
    ∷ ("role.tenant_owner", "Proprietário do tenant")
    ∷ ("auth.signInTitle", "Entrar")
    ∷ ("auth.signIn", "Entrar")
    ∷ ("auth.createAccount", "Criar uma conta")
    ∷ ("shell.adminTitle", "Central de controle de tenants")
    ∷ ("validation.hostnameRequired", "O nome do host é obrigatório")
    ∷ ("role.super_admin", "Superadministrador")
    ∷ ("auth.forgotPasswordLink", "Esqueceu sua senha?")
    ∷ ("auth.createAccountButton", "Criar uma conta")
    ∷ ("auth.alreadyHaveAccount", "Já tem uma conta?")
    ∷ ("validation.minInterval", "O intervalo mínimo é de 60 segundos")
    ∷ ("validation.telegramChatIdRequired", "Telegram bate-papo ID é obrigatório")
    ∷ ("validation.webhookUrlRequired", "Webhook URL é obrigatório")
    ∷ (
      "auth.signInDescription",
      "Faça login com seu nome de usuário para gerenciar SSL monitoramento, notificações e configurações administrativas.",
    )
    ∷ ("auth.forgotPasswordTitle", "Esqueceu sua senha")
    ∷ (
      "auth.createAccountDescription",
      "Crie uma conta com apenas um nome de usuário e senha. Email pode ser vinculado posteriormente no painel.",
    )
    ∷ ("auth.forgotPasswordSuccess", "Se o endereço existir, um link de redefinição foi enviado.")
    ∷ ("auth.workspaceName", "Workspace nome")
    ∷ ("auth.backToLogin", "Voltar ao login")
    ∷ ("auth.usernameOrEmail", "Nome de usuário ou e-mail vinculado")
    ∷ ("auth.registrationFallbackError", "Não foi possível registrar")
    ∷ ("auth.registrationSuccess", "Registro realizado com sucesso. Você pode fazer login agora.")
    ∷ ("auth.loginFallbackError", "Não foi possível fazer login")
    ∷ (
      "auth.forgotPasswordDescription",
      "Digite seu nome de usuário ou endereço de e-mail vinculado. Se existir um e-mail vinculado, enviaremos um link de redefinição.",
    )
    ∷ ("auth.verifyEmailTitle", "Verificar e-mail")
    ∷ ("auth.resetPasswordDescription", "Use o token de redefinição enviado para seu e-mail.")
    ∷ ("auth.resetPasswordTitle", "Redefinir senha")
    ∷ ("auth.resetPasswordFallbackError", "Não foi possível redefinir a senha")
    ∷ ("auth.verifyingEmail", "Verificando seu e-mail…")
    ∷ (
      "auth.verifyEmailDescription",
      "Conclua a verificação de e-mail para desbloquear o login de tenant contas de proprietário.",
    )
    ∷ ("auth.resetPasswordButton", "Redefinir senha")
    ∷ ("auth.sendResetLink", "Enviar link de redefinição")
    ∷ ("auth.missingResetToken", "Token ausente em URL.")
    ∷ ("auth.missingVerifyToken", "Token de verificação ausente.")
    ∷ ("auth.verifyEmailSuccess", "Email verificado com sucesso. Agora você pode fazer login.")
    ∷ ("domains.saveButton", "Salvar alterações")
    ∷ ("auth.needNewAccount", "Precisa de uma nova conta?")
    ∷ ("auth.verifyEmailFallbackError", "Não foi possível verificar o e-mail")
    ∷ ("domains.editTitle", "Editar domínio")
    ∷ ("auth.registerAgain", "Registre-se novamente")
    ∷ ("domains.managedTitle", "Domínios gerenciados")
    ∷ ("domains.addTitle", "Adicionar domínio")
    ∷ (
      "domains.managedDescription",
      "Monitore o status, a validade e as verificações manuais do seu tenant.",
    )
    ∷ ("domains.addButton", "Adicionar domínio")
    ∷ (
      "domains.formDescription",
      "Adicione nomes de host TLS e defina com que frequência o pool de trabalhadores deve verificar novamente os certificados.",
    )
    ∷ ("domains.autoResolve", "DNS Automático")
    ∷ ("domains.targetIpPlaceholder", "203.0.113.10")
    ∷ ("domains.empty", "Nenhum domínio adicionado ainda.")
    ∷ ("domains.intervalPresetDays", "Intervalo de {{days}} dias")
    ∷ ("domains.hostnamePlaceholder", "exemplo.com")
    ∷ ("domains.checkIntervalLabel", "Intervalo de verificação (segundos)")
    ∷ (
      "domains.targetIpHint",
      "Opcional. Quando definido, Certwarden se conecta a este IP e ainda envia o nome do host como SNI. Deixe em branco para usar a resolução DNS automaticamente.",
    )
    ∷ (
      "domains.intervalPresetHint",
      "Escolha uma cadência baseada em dias ou mude para um intervalo personalizado baseado em segundos.",
    )
    ∷ ("domains.checkIntervalCompact", "Cadência")
    ∷ (
      "domains.customIntervalHint",
      "Se você inserir um valor aqui, ele substituirá a cadência predefinida.",
    )
    ∷ ("domains.customIntervalLabel", "Intervalo personalizado (segundos)")
    ∷ ("domains.intervalPresetLabel", "Verifique a cadência")
    ∷ ("domains.lastSuccessful", "Última verificação bem-sucedida")
    ∷ ("domains.portLabel", "Porta {{port}}")
    ∷ ("domains.intervalCustomOption", "Segundos personalizados")
    ∷ ("domains.noTenantDomains", "Ainda não há tenant domínios.")
    ∷ ("domains.targetIpSummary", "Rota fixada: {{value}}")
    ∷ ("domains.detectionNotes", "Caminho de detecção")
    ∷ (
      "domains.noCertificateData",
      "Os detalhes do certificado aparecerão após a primeira verificação TLS bem-sucedida.",
    )
    ∷ ("domains.resolvedIpSummary", "IP de conexão observado: {{value}}")
    ∷ ("notifications.addEndpointTitle", "Adicionar endpoint de notificação")
    ∷ ("notifications.editEndpointTitle", "Editar endpoint de notificação")
    ∷ ("domains.nextCheck", "Próxima verificação")
    ∷ []

unfoldable pub pt_dictionary : List (String × String)
unfolding pt_first pt_rest
pt_dictionary = pt_first ++ pt_rest
