-- ===== src/Translation/Messages/Hindi/Rest.antt =====
-- The entries of `messages["hi"]` in apps/web/src/lib/i18n.tsx, the second half.
use go_check_ssl.Prelude.{String, List, ◌∷◌, []}

unfoldable pub hi_rest : List (String × String)
hi_rest =
    ("notifications.editEndpointTitle", "अधिसूचना समापन बिंदु संपादित करें")
    ∷ ("domains.resolvedIpSummary", "देखा गया कनेक्शन आईपी: {{value}}")
    ∷ (
      "notifications.endpointDescription",
      "ईमेल प्राप्तकर्ता, Telegram चैट IDs, और सामान्य वेबहुक प्रबंधित करें।",
    )
    ∷ (
      "notifications.chooseDomainToEdit",
      "इसकी ओवरराइड नीति को संपादित करने के लिए एक डोमेन चुनें।",
    )
    ∷ ("notifications.noEndpoints", "अभी तक कोई समापन बिंदु कॉन्फ़िगर नहीं किया गया है.")
    ∷ ("notifications.overridePolicyTitle", "डोमेन ओवरराइड नीति")
    ∷ (
      "notifications.overridePolicyDescription",
      "एकल डोमेन के लिए थ्रेशोल्ड और एंडपॉइंट बाइंडिंग को ओवरराइड करें।",
    )
    ∷ (
      "notifications.endpointListDescription",
      "इन समापन बिंदुओं को डिफ़ॉल्ट या प्रति-डोमेन सीमा नीतियों से बांधें।",
    )
    ∷ ("notifications.saveDefaultPolicy", "डिफ़ॉल्ट नीति सहेजें")
    ∷ ("notifications.selectDomain", "एक डोमेन चुनें")
    ∷ (
      "notifications.defaultPolicyDescription",
      "जब तक कोई डोमेन ओवरराइड मौजूद न हो, सभी डोमेन पर लागू होता है।",
    )
    ∷ ("notifications.saveDomainPolicy", "डोमेन नीति सहेजें")
    ∷ ("notifications.webhookUrlLabel", "Webhook URL")
    ∷ ("notifications.addEndpoint", "समापनबिंदु जोड़ें")
    ∷ ("notifications.telegramChatIdLabel", "Telegram चैट ID")
    ∷ ("notifications.authHeaderName", "प्रामाणिक शीर्षलेख नाम")
    ∷ ("notifications.recipientEmailLabel", "प्राप्तकर्ता ईमेल")
    ∷ ("notifications.authHeaderValue", "प्रामाणिक शीर्षलेख मान")
    ∷ ("notifications.authHeaderValuePlaceholder", "गुप्त")
    ∷ ("notifications.webhookUrlPlaceholder", "https://example.com/webhook")
    ∷ ("notifications.channels", "चैनल")
    ∷ ("notifications.thresholdsLabel", "सीमाएँ (दिन, अल्पविराम से अलग)")
    ∷ ("settings.title", "अकाउंट सेटिंग")
    ∷ ("notifications.primaryEmailPlaceholder", "Recipient@example.com")
    ∷ ("notifications.saveEndpoint", "समापनबिंदु सहेजें")
    ∷ ("settings.optionalEmailPlaceholder", "name@example.com")
    ∷ ("notifications.authHeaderNamePlaceholder", "X-Webhook-टोकन")
    ∷ ("notifications.thresholdsPlaceholder", "30, 7, 1")
    ∷ ("notifications.telegramChatPlaceholder", "123456789")
    ∷ (
      "settings.description",
      "अपना उपयोगकर्ता नाम प्रबंधित करें और सूचनाओं या पासवर्ड पुनर्प्राप्ति के लिए एक वैकल्पिक ईमेल पता बांधें।",
    )
    ∷ ("settings.publicPageTitleLabel", "सार्वजनिक पृष्ठ शीर्षक")
    ∷ ("settings.publicPageTitle", "सार्वजनिक स्थिति पृष्ठ")
    ∷ ("notifications.currentThresholdInput", "वर्तमान इनपुट: {{value}}")
    ∷ (
      "settings.publicPageDescription",
      "अपने सार्वजनिक स्थिति पृष्ठ के लिए शीर्षक, उपशीर्षक और जावक-मुखी प्रतिलिपि को अनुकूलित करें।",
    )
    ∷ ("settings.publicPageTitlePlaceholder", "उदाहरण: उत्पादन SSL स्थिति")
    ∷ ("settings.publicPagePreview", "पूर्व दर्शन")
    ∷ (
      "settings.publicPageSubtitleHint",
      "डिफ़ॉल्ट वर्णनात्मक प्रति दिखाने के लिए इसे खाली छोड़ दें।",
    )
    ∷ ("settings.publicPageSubtitlePlaceholder", "उदाहरण: लाइव SSL स्वास्थ्य और समाप्ति अवलोकन")
    ∷ (
      "settings.emailHint",
      "यह ईमेल वैकल्पिक है. आप इसे बाद में नोटिफिकेशन और पासवर्ड रिकवरी के लिए उपयोग कर सकते हैं।",
    )
    ∷ ("settings.noEmailBound", "कोई ईमेल बाध्यता नहीं")
    ∷ (
      "settings.publicPageTitleHint",
      "अपने वर्तमान workspace नाम का उपयोग करने के लिए इसे खाली छोड़ दें।",
    )
    ∷ ("settings.publicPageUrlLabel", "सार्वजनिक पृष्ठ URL")
    ∷ ("dashboard.overallStatus", "समग्र स्थिति")
    ∷ ("settings.openPublicPage", "सार्वजनिक पृष्ठ खोलें")
    ∷ ("dashboard.publicPageTitle", "सार्वजनिक स्थिति पृष्ठ")
    ∷ ("settings.publicPageSubtitleLabel", "सार्वजनिक पृष्ठ उपशीर्षक")
    ∷ ("settings.saveSuccess", "खाता सेटिंग अपडेट की गईं.")
    ∷ ("settings.saveError", "खाता सेटिंग अपडेट करने में असमर्थ")
    ∷ ("dashboard.overviewTitle", "निगरानी सिंहावलोकन")
    ∷ ("dashboard.publicUrl", "सार्वजनिक URL")
    ∷ ("dashboard.currentHeadline", "वर्तमान शीर्षक")
    ∷ ("admin.registrationTitle", "पंजीकरण")
    ∷ (
      "dashboard.overviewDescription",
      "प्रमाणपत्र स्वास्थ्य, समस्या गणना और एक ही स्थान से अगली समाप्ति देखें।",
    )
    ∷ ("dashboard.loadingOverview", "निगरानी अवलोकन लोड हो रहा है...")
    ∷ ("dashboard.customizePublicPage", "सार्वजनिक पृष्ठ को अनुकूलित करें")
    ∷ (
      "dashboard.publicPageDescription",
      "अपनी वर्तमान प्रमाणपत्र स्थिति को सार्वजनिक रूप से उजागर करें और एक क्लिक में उस तक पहुंचें।",
    )
    ∷ (
      "admin.platformSettingsDescription",
      "स्व-सेवा पंजीकरण को नियंत्रित करें और tenant workspaces प्रबंधित करें।",
    )
    ∷ ("admin.platformSettingsTitle", "प्लेटफ़ॉर्म सेटिंग")
    ∷ ("admin.tenantsTitle", "किरायेदारों")
    ∷ ("admin.enableRegistration", "पंजीकरण सक्षम करें")
    ∷ ("admin.disableRegistration", "पंजीकरण अक्षम करें")
    ∷ ("admin.searchLabel", "टेनेंट खोजें")
    ∷ ("admin.registrationEnabledDescription", "नये उपयोगकर्ता खाते बना सकते हैं.")
    ∷ ("admin.registrationDisabledDescription", "पंजीकरण फिलहाल अक्षम है.")
    ∷ ("admin.editTenantDomainTitle", "डोमेन संपादित करें")
    ∷ ("dashboard.openPublicPage", "सार्वजनिक पृष्ठ खोलें")
    ∷ ("admin.searchPlaceholder", "वर्कस्पेस, उपयोगकर्ता नाम, ईमेल या ID से खोजें")
    ∷ ("admin.selectedWorkspaceTitle", "चयनितworkspace")
    ∷ ("admin.selectedWorkspaceDescription", "{{email}} · {{tenant}}")
    ∷ ("admin.tenantDomainsTitle", "किरायेदार डोमेन")
    ∷ (
      "admin.tenantsDescription",
      "स्केलेबल तालिका में tenant स्थिति की समीक्षा करें, फिर पहुंच अक्षम करने, पासवर्ड रीसेट करने या tenant को हटाने के लिए workspace खोलें।",
    )
    ∷ ("admin.saveEndpoint", "समापनबिंदु सहेजें")
    ∷ ("admin.createTenantDomainTitle", "tenant के लिए डोमेन बनाएं")
    ∷ ("admin.tenantDomainMeta", "स्थिति: {{status}} · दिन: {{days}}")
    ∷ ("admin.saveDomain", "डोमेन सहेजें")
    ∷ ("admin.createEndpointTitle", "समापनबिंदु बनाएं")
    ∷ ("admin.tenantPoliciesTitle", "किरायेदार नीतियां")
    ∷ ("admin.tenantEndpointsTitle", "किरायेदार समापनबिंदु")
    ∷ ("admin.disabledBadge", "अक्षम")
    ∷ ("admin.activeBadge", "सक्रिय")
    ∷ ("admin.domainCountLabel", "डोमेन")
    ∷ ("admin.selectDomainOverride", "एक डोमेन ओवरराइड का चयन करें")
    ∷ ("admin.pendingCountLabel", "लंबित")
    ∷ ("admin.errorCountLabel", "त्रुटियाँ")
    ∷ ("admin.manageTenant", "प्रबंधित करें")
    ∷ ("admin.healthyCountLabel", "स्वस्थ")
    ∷ ("admin.addEndpoint", "समापनबिंदु जोड़ें")
    ∷ ("admin.publicStatusPage", "सार्वजनिक स्थिति पृष्ठ")
    ∷ ("admin.saveOverridePolicy", "ओवरराइड नीति सहेजें")
    ∷ ("admin.editEndpointTitle", "समापनबिंदु संपादित करें")
    ∷ ("admin.tenantAccessTitle", "किरायेदार अभिगम नियंत्रण")
    ∷ (
      "admin.selectDomainForOverride",
      "इसकी ओवरराइड नीति को प्रबंधित करने के लिए उपरोक्त एक डोमेन का चयन करें।",
    )
    ∷ ("admin.tenantDetailDescription", "किरायेदार ID #{{tenantId}}")
    ∷ ("admin.noTenants", "कोई tenant workspace उपलब्ध नहीं है।")
    ∷ ("admin.enableTenant", "tenant सक्षम करें")
    ∷ ("admin.disableTenant", "tenant अक्षम करें")
    ∷ (
      "admin.tenantAccessDescription",
      "पहुंच तुरंत अक्षम करें, tenant हटाएं, या tenant स्वामी का पासवर्ड घुमाएं।",
    )
    ∷ ("admin.resetPasswordTitle", "tenant पासवर्ड रीसेट करें")
    ∷ ("admin.updateTenantPassword", "tenant पासवर्ड अपडेट करें")
    ∷ ("admin.noTenantMatches", "मौजूदा खोज से मेल खाने वाला कोई टेनेंट नहीं मिला।")
    ∷ ("admin.tenantEnabledSuccess", "किरायेदार सक्षम किया गया है.")
    ∷ ("admin.tenantDisabledSuccess", "किरायेदार को अक्षम कर दिया गया है.")
    ∷ ("admin.tenantDeletedSuccess", "किरायेदार हटा दिया गया है.")
    ∷ ("admin.deleteTenant", "tenant हटाएं")
    ∷ ("admin.tenantStatusError", "tenant स्थिति अपडेट करने में असमर्थ.")
    ∷ ("admin.passwordUpdateError", "tenant पासवर्ड अपडेट करने में असमर्थ.")
    ∷ ("admin.passwordUpdatedSuccess", "किरायेदार पासवर्ड अपडेट कर दिया गया है.")
    ∷ ("statusPage.signIn", "दाखिल करना")
    ∷ (
      "admin.resetPasswordDescription",
      "यह tenant स्वामी का पासवर्ड अपडेट करता है और मौजूदा सत्र रद्द कर देता है।",
    )
    ∷ ("statusPage.titleFallback", "प्रमाणपत्र स्थिति")
    ∷ ("statusPage.healthyMonitors", "स्वस्थ")
    ∷ ("statusPage.pendingMonitors", "लंबित")
    ∷ ("statusPage.totalMonitors", "डोमेन")
    ∷ ("admin.tenantDeleteError", "tenant को हटाने में असमर्थ.")
    ∷ (
      "admin.selectTenantPrompt",
      "इसकी पहुंच और सार्वजनिक स्थिति पृष्ठ को प्रबंधित करने के लिए tenant चुनें।",
    )
    ∷ ("statusPage.subtitle", "लाइव SSL प्रमाणपत्र स्वास्थ्य और समाप्ति अवलोकन।")
    ∷ ("statusPage.nextExpiry", "अगली समाप्ति")
    ∷ ("statusPage.domainOverview", "प्रमाणपत्र मॉनिटर")
    ∷ ("statusPage.subtitleFallback", "लाइव SSL प्रमाणपत्र स्वास्थ्य और समाप्ति अवलोकन।")
    ∷ ("statusPage.empty", "इस tenant के लिए कोई सार्वजनिक मॉनिटर उपलब्ध नहीं है।")
    ∷ []
