-- ===== src/Translation/Messages/Hindi.antt =====
-- The entries of `messages["hi"]` in apps/web/src/lib/i18n.tsx, in their order: the first half, and all.
mod Rest
use go_check_ssl.Prelude.{String, List, ◌∷◌, [], ◌++◌}
use go_check_ssl.Translation.Messages.Hindi.Rest.{hi_rest}

unfoldable pub hi_first : List (String × String)
hi_first =
    ("common.logout", "लॉग आउट")
    ∷ ("common.password", "पासवर्ड")
    ∷ ("common.language", "भाषा")
    ∷ ("common.username", "उपयोगकर्ता नाम")
    ∷ ("common.cancel", "रद्द करना")
    ∷ ("common.hostname", "होस्ट का नाम")
    ∷ ("common.port", "पोर्ट")
    ∷ ("common.status", "स्थिति")
    ∷ ("common.actions", "कार्रवाइयाँ")
    ∷ ("common.checkNow", "अब जांचें")
    ∷ ("common.daysLeft", "दिन शेष")
    ∷ ("common.edit", "संपादित करें")
    ∷ ("common.delete", "हटाएँ")
    ∷ ("common.save", "सहेजें")
    ∷ ("common.newPassword", "नया पासवर्ड")
    ∷ ("common.expand", "विस्तार करें")
    ∷ ("common.name", "नाम")
    ∷ ("common.type", "प्रकार")
    ∷ ("common.enabled", "सक्रिय")
    ∷ ("common.collapse", "समेटें")
    ∷ ("common.validTo", "मान्य समाप्ति")
    ∷ ("common.none", "—")
    ∷ ("common.resolvedIp", "रिज़ॉल्व किया गया IP")
    ∷ ("common.targetIp", "पिन किया गया IP")
    ∷ ("common.validFrom", "मान्य प्रारंभ")
    ∷ ("common.commonName", "सामान्य नाम")
    ∷ ("common.subject", "विषय")
    ∷ ("common.loadingDomains", "डोमेन लोड हो रहा है...")
    ∷ ("common.email", "ईमेल")
    ∷ ("common.serialNumber", "क्रम संख्या")
    ∷ ("common.loadingSession", "सत्र लोड हो रहा है...")
    ∷ ("common.san", "SANs")
    ∷ ("nav.notifications", "सूचनाएं")
    ∷ ("common.lastChecked", "अंतिम जांच")
    ∷ ("nav.settings", "खाता")
    ∷ ("common.issuer", "जारीकर्ता")
    ∷ ("nav.backToWorkspace", "वर्कस्पेस")
    ∷ ("nav.domains", "डोमेन")
    ∷ ("role.super_admin", "सुपर एडमिन")
    ∷ ("shell.adminTitle", "टेनेंट नियंत्रण केंद्र")
    ∷ ("nav.admin", "व्यवस्थापक")
    ∷ ("status.pending", "लंबित")
    ∷ ("common.fingerprint", "SHA-256 फ़िंगरप्रिंट")
    ∷ ("status.error", "त्रुटि")
    ∷ ("common.signatureAlgorithm", "हस्ताक्षर एल्गोरिद्म")
    ∷ ("endpointType.email", "Email")
    ∷ ("endpointType.telegram", "Telegram")
    ∷ ("shell.title", "SSL प्रमाणपत्र निगरानी")
    ∷ ("endpointType.webhook", "Webhook")
    ∷ ("validation.nameRequired", "नाम आवश्यक है")
    ∷ ("status.healthy", "सामान्य")
    ∷ ("validation.hostnameRequired", "होस्टनाम आवश्यक है")
    ∷ ("validation.portRange", "पोर्ट 1 और 65535 के बीच होना चाहिए")
    ∷ ("validation.recipientEmailRequired", "प्राप्तकर्ता ईमेल आवश्यक है")
    ∷ ("validation.minInterval", "न्यूनतम अंतराल 60 सेकंड है")
    ∷ ("auth.signInTitle", "दाखिल करना")
    ∷ ("auth.signIn", "दाखिल करना")
    ∷ ("auth.createAccount", "खाता बनाएं")
    ∷ ("auth.backToLogin", "लॉगिन पर वापस जाएं")
    ∷ ("auth.forgotPasswordLink", "पासवर्ड भूल गए?")
    ∷ ("auth.createAccountButton", "खाता बनाएं")
    ∷ ("validation.portInvalid", "पोर्ट एक वैध पूर्णांक होना चाहिए")
    ∷ ("auth.alreadyHaveAccount", "क्या आपके पास पहले से एक खाता मौजूद है?")
    ∷ ("auth.workspaceName", "Workspace नाम")
    ∷ ("role.tenant_owner", "टेनेंट मालिक")
    ∷ ("validation.webhookUrlRequired", "Webhook URL आवश्यक है")
    ∷ ("auth.registrationSuccess", "सफल पंजीकरण। अब आप साइन इन कर सकते हैं.")
    ∷ ("auth.forgotPasswordTitle", "पासवर्ड भूल गए")
    ∷ ("auth.loginFallbackError", "लॉगिन करने में असमर्थ")
    ∷ ("auth.sendResetLink", "रीसेट लिंक भेजें")
    ∷ ("auth.registrationFallbackError", "पंजीकरण करने में असमर्थ")
    ∷ ("auth.resetPasswordTitle", "पासवर्ड रीसेट")
    ∷ ("auth.usernameOrEmail", "उपयोगकर्ता नाम या बाध्य ईमेल")
    ∷ (
      "auth.signInDescription",
      "SSL मॉनिटरिंग, नोटिफिकेशन और एडमिन सेटिंग्स को प्रबंधित करने के लिए अपने उपयोगकर्ता नाम से साइन इन करें।",
    )
    ∷ ("auth.resetPasswordButton", "पासवर्ड रीसेट")
    ∷ (
      "auth.createAccountDescription",
      "केवल उपयोगकर्ता नाम और पासवर्ड के साथ एक खाता बनाएं। Email को बाद में डैशबोर्ड से बाइंड किया जा सकता है।",
    )
    ∷ ("validation.telegramChatIdRequired", "Telegram चैट ID आवश्यक है")
    ∷ ("auth.verifyEmailTitle", "ईमेल सत्यापित करें")
    ∷ ("auth.forgotPasswordSuccess", "यदि पता मौजूद है, तो एक रीसेट लिंक भेजा गया है।")
    ∷ ("auth.resetPasswordDescription", "अपने ईमेल पर भेजे गए रीसेट टोकन का उपयोग करें।")
    ∷ ("auth.verifyingEmail", "आपका ईमेल सत्यापित किया जा रहा है...")
    ∷ ("auth.resetPasswordFallbackError", "पासवर्ड रीसेट करने में असमर्थ")
    ∷ (
      "auth.verifyEmailDescription",
      "tenant स्वामी खातों के लिए लॉगिन अनलॉक करने के लिए ईमेल सत्यापन पूरा करें।",
    )
    ∷ ("auth.verifyEmailSuccess", "Email सफलतापूर्वक सत्यापित। अब आप साइन इन कर सकते हैं.")
    ∷ ("auth.registerAgain", "पुनः पंजीकरण करें")
    ∷ ("auth.needNewAccount", "नया खाता चाहिए?")
    ∷ ("auth.missingResetToken", "URL में टोकन गुम है।")
    ∷ ("domains.addTitle", "डोमेन जोड़ें")
    ∷ ("auth.verifyEmailFallbackError", "ईमेल सत्यापित करने में असमर्थ")
    ∷ ("domains.addButton", "डोमेन जोड़ें")
    ∷ ("domains.saveButton", "परिवर्तनों को सुरक्षित करें")
    ∷ ("domains.hostnamePlaceholder", "example.com")
    ∷ (
      "auth.forgotPasswordDescription",
      "अपना उपयोगकर्ता नाम या बाध्य ईमेल पता दर्ज करें। यदि कोई बाध्य ईमेल मौजूद है, तो हम एक रीसेट लिंक भेजेंगे।",
    )
    ∷ ("domains.managedTitle", "प्रबंधित डोमेन")
    ∷ ("auth.missingVerifyToken", "सत्यापन टोकन गुम है.")
    ∷ ("domains.editTitle", "डोमेन संपादित करें")
    ∷ ("domains.targetIpPlaceholder", "203.0.113.10")
    ∷ ("domains.empty", "अभी तक कोई डोमेन नहीं जोड़ा गया.")
    ∷ (
      "domains.managedDescription",
      "अपने tenant के लिए स्थिति, समाप्ति और मैन्युअल स्कैन की निगरानी करें।",
    )
    ∷ ("domains.autoResolve", "स्वचालितDNS")
    ∷ ("domains.intervalPresetLabel", "ताल की जाँच करें")
    ∷ (
      "domains.formDescription",
      "TLS होस्टनाम जोड़ें और सेट करें कि वर्कर पूल को कितनी बार प्रमाणपत्रों की दोबारा जांच करनी चाहिए।",
    )
    ∷ ("domains.intervalPresetDays", "{{days}} दिन का अंतराल")
    ∷ ("domains.checkIntervalLabel", "जाँच अंतराल (सेकंड)")
    ∷ ("domains.checkIntervalCompact", "ताल")
    ∷ (
      "domains.targetIpHint",
      "वैकल्पिक। सेट होने पर, Certwarden इस IP से कनेक्ट होता है और फिर भी होस्टनाम को SNI के रूप में भेजता है। स्वचालित रूप से DNS रिज़ॉल्यूशन का उपयोग करने के लिए खाली छोड़ दें।",
    )
    ∷ ("domains.intervalCustomOption", "कस्टम सेकंड")
    ∷ (
      "domains.intervalPresetHint",
      "एक दिन-आधारित ताल चुनें, या कस्टम दूसरे-आधारित अंतराल पर स्विच करें।",
    )
    ∷ ("domains.customIntervalLabel", "कस्टम अंतराल (सेकंड)")
    ∷ ("domains.nextCheck", "अगली जांच")
    ∷ ("domains.portLabel", "पोर्ट {{port}}")
    ∷ ("domains.lastSuccessful", "अंतिम सफल स्कैन")
    ∷ ("domains.noCertificateData", "प्रमाणपत्र विवरण पहले सफल TLS स्कैन के बाद दिखाई देगा।")
    ∷ ("domains.detectionNotes", "पता लगाने का मार्ग")
    ∷ ("domains.targetIpSummary", "पिन किया गया मार्ग: {{value}}")
    ∷ ("notifications.addEndpointTitle", "अधिसूचना समापन बिंदु जोड़ें")
    ∷ (
      "domains.customIntervalHint",
      "यदि आप यहां कोई मान दर्ज करते हैं, तो यह पूर्व निर्धारित ताल को ओवरराइड कर देता है।",
    )
    ∷ ("domains.noTenantDomains", "अभी तक कोई tenant डोमेन नहीं है.")
    ∷ ("notifications.defaultPolicyTitle", "डिफ़ॉल्ट tenant नीति")
    ∷ ("notifications.endpointListTitle", "अधिसूचना समापनबिंदु")
    ∷ []

unfoldable pub hi_dictionary : List (String × String)
unfolding hi_first hi_rest
hi_dictionary = hi_first ++ hi_rest
