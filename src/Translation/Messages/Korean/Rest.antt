-- ===== src/Translation/Messages/Korean/Rest.antt =====
-- The entries of `messages["ko"]` in apps/web/src/lib/i18n.tsx, the second half.
use go_check_ssl.Prelude.{String, List, ◌∷◌, []}

unfoldable pub ko_rest : List (String × String)
ko_rest =
    ("notifications.endpointListTitle", "알림 엔드포인트")
    ∷ ("notifications.defaultPolicyTitle", "기본 tenant 정책")
    ∷ ("domains.resolvedIpSummary", "관찰된 연결 IP: {{value}}")
    ∷ ("notifications.defaultPolicyDescription", "도메인 재정의가 존재하지 않는 한 모든 도메인에 적용됩니다.")
    ∷ ("notifications.addEndpointTitle", "알림 엔드포인트 추가")
    ∷ ("notifications.saveDomainPolicy", "도메인 정책 저장")
    ∷ ("notifications.selectDomain", "도메인 선택")
    ∷ ("notifications.overridePolicyTitle", "도메인 재정의 정책")
    ∷ ("notifications.saveEndpoint", "엔드포인트 저장")
    ∷ ("notifications.saveDefaultPolicy", "기본 정책 저장")
    ∷ ("notifications.overridePolicyDescription", "단일 도메인에 대한 임계값 및 엔드포인트 바인딩을 재정의합니다.")
    ∷ ("notifications.webhookUrlLabel", "Webhook URL")
    ∷ ("notifications.chooseDomainToEdit", "재정의 정책을 편집하려면 도메인을 선택하세요.")
    ∷ ("notifications.telegramChatPlaceholder", "123456789")
    ∷ ("notifications.noEndpoints", "아직 구성된 엔드포인트가 없습니다.")
    ∷ ("notifications.webhookUrlPlaceholder", "https://example.com/webhook")
    ∷ ("notifications.telegramChatIdLabel", "Telegram 채팅 ID")
    ∷ ("notifications.authHeaderValuePlaceholder", "비밀")
    ∷ ("notifications.authHeaderName", "인증 헤더 이름")
    ∷ ("notifications.authHeaderValue", "인증 헤더 값")
    ∷ ("notifications.recipientEmailLabel", "수신자 이메일")
    ∷ ("notifications.channels", "채널")
    ∷ ("settings.title", "계정 설정")
    ∷ ("notifications.primaryEmailPlaceholder", "수신자@example.com")
    ∷ ("notifications.currentThresholdInput", "현재 입력: {{value}}")
    ∷ ("settings.optionalEmailPlaceholder", "이름@example.com")
    ∷ ("notifications.thresholdsPlaceholder", "30, 7, 1")
    ∷ ("settings.description", "사용자 이름을 관리하고 알림 또는 비밀번호 복구를 위해 선택적 이메일 주소를 바인딩하세요.")
    ∷ ("notifications.addEndpoint", "엔드포인트 추가")
    ∷ ("notifications.thresholdsLabel", "임계값(일, 쉼표로 구분)")
    ∷ ("settings.publicPageTitlePlaceholder", "예: 생산 SSL 상태")
    ∷ ("notifications.authHeaderNamePlaceholder", "X-Webhook-토큰")
    ∷ ("settings.publicPageTitle", "공개 상태 페이지")
    ∷ ("settings.publicPageSubtitlePlaceholder", "예: 실시간 SSL 상태 및 만료 개요")
    ∷ ("settings.publicPagePreview", "시사")
    ∷ ("settings.publicPageDescription", "공개 상태 페이지의 제목, 부제 및 외부 사본을 사용자 정의하십시오.")
    ∷ ("settings.publicPageTitleHint", "현재 workspace 이름을 사용하려면 이 항목을 비워 두세요.")
    ∷ ("settings.emailHint", "이 이메일은 선택사항입니다. 나중에 알림 및 비밀번호 복구에 사용할 수 있습니다.")
    ∷ ("settings.publicPageSubtitleHint", "기본 설명 사본을 표시하려면 이 항목을 비워 두세요.")
    ∷ ("dashboard.overviewTitle", "모니터링 개요")
    ∷ ("settings.publicPageUrlLabel", "공개 페이지 URL")
    ∷ ("settings.publicPageTitleLabel", "공개 페이지 제목")
    ∷ ("settings.saveSuccess", "계정 설정이 업데이트되었습니다.")
    ∷ ("dashboard.loadingOverview", "모니터링 개요 로드 중…")
    ∷ ("settings.noEmailBound", "이메일 바인딩 없음")
    ∷ ("settings.openPublicPage", "공개 페이지 열기")
    ∷ ("settings.publicPageSubtitleLabel", "공개 페이지 자막")
    ∷ ("dashboard.publicPageTitle", "공개 상태 페이지")
    ∷ ("dashboard.overviewDescription", "인증서 상태, 문제 수, 다음 만료일을 한 곳에서 확인하세요.")
    ∷ ("dashboard.openPublicPage", "공개 페이지 열기")
    ∷ ("settings.saveError", "계정 설정을 업데이트할 수 없습니다.")
    ∷ ("admin.registrationTitle", "등록")
    ∷ ("dashboard.publicPageDescription", "현재 인증서 상태를 공개적으로 공개하고 한 번의 클릭으로 해당 인증서로 이동하세요.")
    ∷ ("dashboard.publicUrl", "공개 URL")
    ∷ ("admin.platformSettingsTitle", "플랫폼 설정")
    ∷ ("dashboard.currentHeadline", "현재 헤드라인")
    ∷ ("admin.tenantsTitle", "임차인")
    ∷ ("dashboard.overallStatus", "전반적인 상태")
    ∷ ("admin.registrationEnabledDescription", "신규 사용자는 계정을 생성할 수 있습니다.")
    ∷ ("admin.registrationDisabledDescription", "현재 등록이 비활성화되어 있습니다.")
    ∷ ("dashboard.customizePublicPage", "공개 페이지 사용자 정의")
    ∷ ("admin.searchPlaceholder", "워크스페이스, 사용자 이름, 이메일 또는 ID로 검색")
    ∷ ("admin.platformSettingsDescription", "셀프 서비스 등록을 제어하고 tenant workspace을(를) 관리합니다.")
    ∷ (
      "admin.tenantsDescription",
      "확장 가능한 테이블에서 tenant 상태를 검토한 다음 workspace을 열어 액세스를 비활성화하거나 비밀번호를 재설정하거나 tenant을 삭제하세요.",
    )
    ∷ ("admin.selectedWorkspaceTitle", "workspace 선택됨")
    ∷ ("admin.disableRegistration", "등록 비활성화")
    ∷ ("admin.enableRegistration", "등록 활성화")
    ∷ ("admin.createEndpointTitle", "엔드포인트 생성")
    ∷ ("admin.tenantEndpointsTitle", "테넌트 엔드포인트")
    ∷ ("admin.editEndpointTitle", "엔드포인트 편집")
    ∷ ("admin.editTenantDomainTitle", "도메인 수정")
    ∷ ("admin.selectedWorkspaceDescription", "{{email}} · {{tenant}}")
    ∷ ("admin.tenantDomainsTitle", "테넌트 도메인")
    ∷ ("admin.tenantPoliciesTitle", "임차인 정책")
    ∷ ("admin.tenantDomainMeta", "상태: {{status}} · 일수: {{days}}")
    ∷ ("admin.createTenantDomainTitle", "tenant에 대한 도메인 만들기")
    ∷ ("admin.activeBadge", "활동적인")
    ∷ ("admin.searchLabel", "테넌트 검색")
    ∷ ("admin.domainCountLabel", "도메인")
    ∷ ("admin.healthyCountLabel", "건강한")
    ∷ ("admin.disabledBadge", "장애가 있는")
    ∷ ("admin.pendingCountLabel", "보류 중")
    ∷ ("admin.errorCountLabel", "오류")
    ∷ ("admin.selectDomainOverride", "도메인 재정의 선택")
    ∷ ("admin.selectDomainForOverride", "재정의 정책을 관리하려면 위에서 도메인을 선택하세요.")
    ∷ ("admin.manageTenant", "관리")
    ∷ ("admin.publicStatusPage", "공개 상태 페이지")
    ∷ ("admin.saveDomain", "도메인 저장")
    ∷ ("admin.saveEndpoint", "엔드포인트 저장")
    ∷ ("admin.addEndpoint", "엔드포인트 추가")
    ∷ ("admin.saveOverridePolicy", "재정의 정책 저장")
    ∷ ("admin.noTenantMatches", "현재 검색 조건과 일치하는 테넌트가 없습니다.")
    ∷ ("admin.tenantDetailDescription", "세입자 ID #{{tenantId}}")
    ∷ ("admin.noTenants", "tenant workspace을(를) 사용할 수 없습니다.")
    ∷ ("admin.deleteTenant", "tenant 삭제")
    ∷ ("admin.disableTenant", "tenant 비활성화")
    ∷ ("admin.enableTenant", "tenant 활성화")
    ∷ ("admin.tenantAccessTitle", "테넌트 액세스 제어")
    ∷ ("admin.tenantAccessDescription", "즉시 액세스를 비활성화하거나 tenant을(를) 제거하거나 tenant 소유자 비밀번호를 교체하세요.")
    ∷ ("admin.resetPasswordDescription", "그러면 tenant 소유자의 비밀번호가 업데이트되고 기존 세션이 취소됩니다.")
    ∷ ("admin.passwordUpdatedSuccess", "테넌트 비밀번호가 업데이트되었습니다.")
    ∷ ("admin.resetPasswordTitle", "tenant 비밀번호 재설정")
    ∷ ("admin.tenantDeletedSuccess", "테넌트가 삭제되었습니다.")
    ∷ ("admin.tenantEnabledSuccess", "테넌트가 활성화되었습니다.")
    ∷ ("admin.updateTenantPassword", "tenant 비밀번호 업데이트")
    ∷ ("admin.tenantDisabledSuccess", "테넌트가 비활성화되었습니다.")
    ∷ ("admin.tenantStatusError", "tenant 상태를 업데이트할 수 없습니다.")
    ∷ ("statusPage.signIn", "로그인")
    ∷ ("statusPage.totalMonitors", "도메인")
    ∷ ("statusPage.healthyMonitors", "건강한")
    ∷ ("statusPage.pendingMonitors", "보류 중")
    ∷ ("admin.selectTenantPrompt", "액세스 및 공개 상태 페이지를 관리하려면 tenant을(를) 선택하세요.")
    ∷ ("statusPage.nextExpiry", "다음 만료")
    ∷ ("statusPage.domainOverview", "인증서 모니터")
    ∷ ("statusPage.titleFallback", "인증서 상태")
    ∷ ("statusPage.subtitleFallback", "실시간 SSL 인증서 상태 및 만료 개요.")
    ∷ ("statusPage.subtitle", "실시간 SSL 인증서 상태 및 만료 개요.")
    ∷ ("statusPage.empty", "이 tenant에 사용할 수 있는 공개 모니터가 없습니다.")
    ∷ ("admin.passwordUpdateError", "tenant 비밀번호를 업데이트할 수 없습니다.")
    ∷ ("admin.tenantDeleteError", "tenant을(를) 삭제할 수 없습니다.")
    ∷ []
