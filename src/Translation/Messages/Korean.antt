-- ===== src/Translation/Messages/Korean.antt =====
-- The entries of `messages["ko"]` in apps/web/src/lib/i18n.tsx, in their order: the first half, and all.
mod Rest
use go_check_ssl.Prelude.{String, List, ◌∷◌, [], ◌++◌}
use go_check_ssl.Translation.Messages.Korean.Rest.{ko_rest}

unfoldable pub ko_first : List (String × String)
ko_first =
    ("common.logout", "로그아웃")
    ∷ ("common.language", "언어")
    ∷ ("common.email", "이메일")
    ∷ ("common.password", "비밀번호")
    ∷ ("common.username", "사용자 이름")
    ∷ ("common.hostname", "호스트 이름")
    ∷ ("common.port", "포트")
    ∷ ("common.status", "상태")
    ∷ ("common.checkNow", "지금 확인하세요")
    ∷ ("common.actions", "작업")
    ∷ ("common.edit", "수정")
    ∷ ("common.cancel", "취소")
    ∷ ("common.delete", "삭제")
    ∷ ("common.save", "저장")
    ∷ ("common.expand", "펼치기")
    ∷ ("common.collapse", "접기")
    ∷ ("common.type", "유형")
    ∷ ("common.name", "이름")
    ∷ ("common.enabled", "활성화됨")
    ∷ ("common.none", "—")
    ∷ ("common.daysLeft", "남은 일수")
    ∷ ("common.loadingDomains", "도메인 로드 중…")
    ∷ ("common.loadingSession", "세션 로드 중…")
    ∷ ("common.lastChecked", "마지막 확인")
    ∷ ("common.subject", "주체")
    ∷ ("common.validTo", "유효 종료일")
    ∷ ("common.targetIp", "고정 IP")
    ∷ ("common.validFrom", "유효 시작일")
    ∷ ("common.commonName", "공통 이름")
    ∷ ("common.san", "SANs")
    ∷ ("nav.notifications", "알림")
    ∷ ("nav.domains", "도메인")
    ∷ ("nav.settings", "계정")
    ∷ ("nav.admin", "관리자")
    ∷ ("common.newPassword", "새 비밀번호")
    ∷ ("nav.backToWorkspace", "워크스페이스")
    ∷ ("common.fingerprint", "SHA-256 지문")
    ∷ ("common.resolvedIp", "확인된 IP")
    ∷ ("common.issuer", "발급 기관")
    ∷ ("common.signatureAlgorithm", "서명 알고리즘")
    ∷ ("status.pending", "대기 중")
    ∷ ("status.healthy", "정상")
    ∷ ("status.error", "오류")
    ∷ ("endpointType.telegram", "Telegram")
    ∷ ("common.serialNumber", "일련번호")
    ∷ ("shell.adminTitle", "테넌트 제어 센터")
    ∷ ("endpointType.email", "Email")
    ∷ ("endpointType.webhook", "Webhook")
    ∷ ("validation.nameRequired", "이름은 필수입니다")
    ∷ ("shell.title", "SSL 인증서 모니터링")
    ∷ ("validation.portRange", "포트는 1에서 65535 사이여야 합니다.")
    ∷ ("role.super_admin", "슈퍼 관리자")
    ∷ ("validation.portInvalid", "포트는 유효한 정수여야 합니다.")
    ∷ ("validation.recipientEmailRequired", "수신자 이메일이 필요합니다")
    ∷ ("validation.hostnameRequired", "호스트 이름이 필요합니다")
    ∷ ("validation.minInterval", "최소 간격은 60초입니다.")
    ∷ ("role.tenant_owner", "테넌트 소유자")
    ∷ ("auth.signInTitle", "로그인")
    ∷ ("validation.webhookUrlRequired", "Webhook URL이(가) 필요합니다")
    ∷ ("auth.forgotPasswordLink", "비밀번호를 잊으셨나요?")
    ∷ ("auth.createAccount", "계정 만들기")
    ∷ ("auth.signIn", "로그인")
    ∷ ("auth.backToLogin", "로그인으로 돌아가기")
    ∷ ("auth.alreadyHaveAccount", "이미 계정이 있나요?")
    ∷ ("auth.createAccountButton", "계정 만들기")
    ∷ ("auth.forgotPasswordTitle", "비밀번호를 잊으셨나요?")
    ∷ ("validation.telegramChatIdRequired", "Telegram 채팅 ID이(가) 필요합니다")
    ∷ (
      "auth.forgotPasswordDescription",
      "사용자 이름이나 바인딩된 이메일 주소를 입력하세요. 바인딩된 이메일이 존재하는 경우 재설정 링크를 보내드립니다.",
    )
    ∷ (
      "auth.createAccountDescription",
      "사용자 이름과 비밀번호만으로 계정을 만드세요. Email은(는) 나중에 대시보드에서 바인딩할 수 있습니다.",
    )
    ∷ ("auth.signInDescription", "SSL 모니터링, 알림 및 관리자 설정을 관리하려면 사용자 이름으로 로그인하세요.")
    ∷ ("auth.loginFallbackError", "로그인할 수 없습니다")
    ∷ ("auth.registrationSuccess", "등록이 완료되었습니다. 지금 로그인할 수 있습니다.")
    ∷ ("auth.registrationFallbackError", "등록할 수 없습니다")
    ∷ ("auth.workspaceName", "Workspace 이름")
    ∷ ("auth.resetPasswordTitle", "비밀번호 재설정")
    ∷ ("auth.resetPasswordButton", "비밀번호 재설정")
    ∷ ("auth.resetPasswordFallbackError", "비밀번호를 재설정할 수 없습니다.")
    ∷ ("auth.sendResetLink", "재설정 링크 보내기")
    ∷ ("auth.usernameOrEmail", "사용자 이름 또는 바인딩된 이메일")
    ∷ ("auth.forgotPasswordSuccess", "주소가 존재하는 경우 재설정 링크가 전송된 것입니다.")
    ∷ ("auth.verifyingEmail", "이메일을 확인하는 중…")
    ∷ ("auth.verifyEmailDescription", "tenant 소유자 계정의 로그인을 잠금 해제하려면 이메일 확인을 완료하세요.")
    ∷ ("auth.missingResetToken", "URL에 토큰이 없습니다.")
    ∷ ("auth.verifyEmailTitle", "이메일 확인")
    ∷ ("auth.missingVerifyToken", "확인 토큰이 누락되었습니다.")
    ∷ ("domains.addTitle", "도메인 추가")
    ∷ ("domains.addButton", "도메인 추가")
    ∷ ("auth.verifyEmailFallbackError", "이메일을 확인할 수 없습니다")
    ∷ ("auth.verifyEmailSuccess", "Email이(가) 성공적으로 확인되었습니다. 이제 로그인할 수 있습니다.")
    ∷ ("domains.saveButton", "변경사항 저장")
    ∷ ("domains.formDescription", "TLS 호스트 이름을 추가하고 작업자 풀이 인증서를 다시 확인해야 하는 빈도를 설정합니다.")
    ∷ ("domains.hostnamePlaceholder", "example.com")
    ∷ ("domains.empty", "아직 추가된 도메인이 없습니다.")
    ∷ ("domains.editTitle", "도메인 수정")
    ∷ ("auth.needNewAccount", "새 계정이 필요하십니까?")
    ∷ ("auth.resetPasswordDescription", "이메일로 전송된 재설정 토큰을 사용하세요.")
    ∷ ("domains.autoResolve", "자동 DNS")
    ∷ ("domains.checkIntervalLabel", "확인 간격(초)")
    ∷ ("domains.targetIpPlaceholder", "203.0.113.10")
    ∷ ("auth.registerAgain", "다시 등록하세요")
    ∷ ("domains.managedTitle", "관리되는 도메인")
    ∷ ("domains.intervalCustomOption", "맞춤 초")
    ∷ ("domains.intervalPresetLabel", "케이던스 확인")
    ∷ ("domains.checkIntervalCompact", "운율")
    ∷ ("domains.managedDescription", "tenant의 상태, 만료 및 수동 검사를 모니터링하세요.")
    ∷ (
      "domains.targetIpHint",
      "선택 과목. 설정되면 Certwarden은(는) 이 IP에 연결하고 여전히 호스트 이름을 SNI로 보냅니다. DNS 해상도를 자동으로 사용하려면 비워두세요.",
    )
    ∷ ("domains.portLabel", "포트 {{port}}")
    ∷ ("domains.customIntervalHint", "여기에 값을 입력하면 사전 설정된 케이던스가 재정의됩니다.")
    ∷ ("domains.customIntervalLabel", "사용자 정의 간격(초)")
    ∷ ("domains.intervalPresetHint", "일별 케이던스를 선택하거나 사용자 정의 초 기반 간격으로 전환하세요.")
    ∷ ("domains.detectionNotes", "탐지 경로")
    ∷ ("domains.noCertificateData", "첫 번째 성공적인 TLS 스캔 후에 인증서 세부정보가 표시됩니다.")
    ∷ ("domains.lastSuccessful", "마지막으로 성공한 스캔")
    ∷ ("domains.intervalPresetDays", "{{days}}일 간격")
    ∷ ("domains.nextCheck", "다음 확인")
    ∷ ("notifications.endpointDescription", "이메일 수신자, Telegram 채팅 ID 및 일반 웹훅을 관리하세요.")
    ∷ ("notifications.editEndpointTitle", "알림 엔드포인트 편집")
    ∷ ("notifications.endpointListDescription", "이러한 끝점을 기본 또는 도메인별 임계값 정책에 바인딩합니다.")
    ∷ ("domains.targetIpSummary", "고정된 경로: {{value}}")
    ∷ ("domains.noTenantDomains", "아직 tenant 도메인이 없습니다.")
    ∷ []

unfoldable pub ko_dictionary : List (String × String)
unfolding ko_first ko_rest
ko_dictionary = ko_first ++ ko_rest
