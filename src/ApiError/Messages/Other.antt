-- ===== src/ApiError/Messages/Other.antt =====
-- The texts of `localizedMessages` in apps/web/src/lib/api-error.ts: ru, ar, hi. The Arabic
-- letters are written by their numbers.
use go_check_ssl.Prelude.Text.{Text, codes}
use go_check_ssl.ApiError.Codes.{
  ApiErrorCode, invalid_credentials, registration_disabled, email_not_verified, invalid_token,
  token_expired, resource_exists, password_too_short, username_too_short, username_too_long,
  username_invalid_chars, invalid_request_body, missing_refresh_cookie, missing_bearer_token,
  invalid_access_token, missing_authenticated_user, admin_access_required, user_not_found,
  tenant_not_found, tenant_disabled, domain_not_found, endpoint_not_found, domain_already_exists,
  hostname_required, target_ip_invalid, port_out_of_range, name_required, invalid_endpoint_config,
  telegram_not_configured, frontend_assets_unavailable, no_selected_user, bad_request, unauthorized,
  forbidden, not_found, conflict, server_error,
}

unfoldable pub ru_messages : ApiErrorCode → Text
ru_messages invalid_credentials = codes "Неверное имя пользователя или пароль."
ru_messages registration_disabled = codes "Регистрация сейчас отключена."
ru_messages email_not_verified = codes "Электронная почта ещё не подтверждена."
ru_messages invalid_token = codes "Токен недействителен."
ru_messages token_expired = codes "Срок действия токена истёк."
ru_messages resource_exists = codes "Ресурс уже существует."
ru_messages password_too_short = codes "Пароль должен содержать не менее 8 символов."
ru_messages username_too_short = codes "Имя пользователя должно содержать не менее 3 символов."
ru_messages username_too_long = codes "Имя пользователя должно содержать не более 32 символов."
ru_messages username_invalid_chars =
    codes "Имя пользователя может содержать только буквы, цифры, точки, подчёркивания и дефисы."
ru_messages invalid_request_body = codes "Содержимое запроса недействительно."
ru_messages missing_refresh_cookie = codes "Отсутствует cookie для обновления сессии."
ru_messages missing_bearer_token = codes "Отсутствует токен доступа."
ru_messages invalid_access_token = codes "Токен доступа недействителен."
ru_messages missing_authenticated_user = codes "Сеанс больше недействителен. Войдите снова."
ru_messages admin_access_required = codes "Требуются права администратора."
ru_messages user_not_found = codes "Пользователь не найден."
ru_messages tenant_not_found = codes "Арендатор не найден."
ru_messages tenant_disabled = codes "Этот арендатор отключён."
ru_messages domain_not_found = codes "Домен не найден."
ru_messages endpoint_not_found = codes "Точка уведомлений не найдена."
ru_messages domain_already_exists = codes "Этот домен уже существует."
ru_messages hostname_required = codes "Имя хоста обязательно."
ru_messages target_ip_invalid = codes "Заданный IP должен быть корректным адресом IPv4 или IPv6."
ru_messages port_out_of_range = codes "Порт должен быть в диапазоне от 1 до 65535."
ru_messages name_required = codes "Имя обязательно."
ru_messages invalid_endpoint_config = codes "Конфигурация точки уведомлений недействительна."
ru_messages telegram_not_configured = codes "Токен Telegram-бота не настроен."
ru_messages frontend_assets_unavailable = codes "Фронтенд-ресурсы недоступны."
ru_messages no_selected_user = codes "Сначала выберите пользователя."
ru_messages bad_request = codes "Некорректный запрос."
ru_messages unauthorized = codes "У вас нет авторизации для этого действия."
ru_messages forbidden = codes "У вас нет прав для этого действия."
ru_messages not_found = codes "Запрошенный ресурс не найден."
ru_messages conflict = codes "Запрос конфликтует с уже существующим ресурсом."
ru_messages server_error = codes "Сервер не смог обработать запрос."

unfoldable pub ar_messages : ApiErrorCode → Text
ar_messages invalid_credentials =
    codes
      "\u{627}\u{633}\u{645} \u{627}\u{644}\u{645}\u{633}\u{62a}\u{62e}\u{62f}\u{645} \u{623}\u{648} \u{643}\u{644}\u{645}\u{629} \u{627}\u{644}\u{645}\u{631}\u{648}\u{631} \u{63a}\u{64a}\u{631} \u{635}\u{62d}\u{64a}\u{62d}\u{629}."
ar_messages registration_disabled =
    codes
      "\u{627}\u{644}\u{62a}\u{633}\u{62c}\u{64a}\u{644} \u{645}\u{639}\u{637}\u{644} \u{62d}\u{627}\u{644}\u{64a}\u{627}."
ar_messages email_not_verified =
    codes
      "Email \u{644}\u{627} \u{64a}\u{632}\u{627}\u{644} \u{627}\u{644}\u{62a}\u{62d}\u{642}\u{642} \u{645}\u{639}\u{644}\u{642}ً\u{627}."
ar_messages invalid_token =
    codes "\u{627}\u{644}\u{631}\u{645}\u{632} \u{63a}\u{64a}\u{631} \u{635}\u{627}\u{644}\u{62d}."
ar_messages token_expired =
    codes
      "\u{627}\u{646}\u{62a}\u{647}\u{62a} \u{635}\u{644}\u{627}\u{62d}\u{64a}\u{629} \u{627}\u{644}\u{631}\u{645}\u{632} \u{627}\u{644}\u{645}\u{645}\u{64a}\u{632}."
ar_messages resource_exists =
    codes
      "\u{627}\u{644}\u{645}\u{648}\u{631}\u{62f} \u{645}\u{648}\u{62c}\u{648}\u{62f} \u{628}\u{627}\u{644}\u{641}\u{639}\u{644}."
ar_messages password_too_short =
    codes
      "\u{64a}\u{62c}\u{628} \u{623}\u{646} \u{62a}\u{62a}\u{643}\u{648}\u{646} \u{643}\u{644}\u{645}\u{629} \u{627}\u{644}\u{645}\u{631}\u{648}\u{631} \u{645}\u{646} 8 \u{623}\u{62d}\u{631}\u{641} \u{639}\u{644}\u{649} \u{627}\u{644}\u{623}\u{642}\u{644}."
ar_messages username_too_short =
    codes
      "\u{64a}\u{62c}\u{628} \u{623}\u{646} \u{64a}\u{643}\u{648}\u{646} \u{627}\u{633}\u{645} \u{627}\u{644}\u{645}\u{633}\u{62a}\u{62e}\u{62f}\u{645} 3 \u{623}\u{62d}\u{631}\u{641} \u{639}\u{644}\u{649} \u{627}\u{644}\u{623}\u{642}\u{644}."
ar_messages username_too_long =
    codes
      "\u{64a}\u{62c}\u{628} \u{623}\u{646} \u{64a}\u{643}\u{648}\u{646} \u{627}\u{633}\u{645} \u{627}\u{644}\u{645}\u{633}\u{62a}\u{62e}\u{62f}\u{645} 32 \u{62d}\u{631}\u{641}ً\u{627} \u{639}\u{644}\u{649} \u{627}\u{644}\u{623}\u{643}\u{62b}\u{631}."
ar_messages username_invalid_chars =
    codes
      "\u{64a}\u{62c}\u{628} \u{623}\u{646} \u{64a}\u{62d}\u{62a}\u{648}\u{64a} \u{627}\u{633}\u{645} \u{627}\u{644}\u{645}\u{633}\u{62a}\u{62e}\u{62f}\u{645} \u{641}\u{642}\u{637} \u{639}\u{644}\u{649} \u{623}\u{62d}\u{631}\u{641} \u{648}\u{623}\u{631}\u{642}\u{627}\u{645} \u{648}\u{646}\u{642}\u{627}\u{637} \u{648}\u{634}\u{631}\u{637}\u{627}\u{62a} \u{633}\u{641}\u{644}\u{64a}\u{629} \u{648}\u{634}\u{631}\u{637}\u{627}\u{62a}."
ar_messages invalid_request_body =
    codes
      "\u{646}\u{635} \u{627}\u{644}\u{637}\u{644}\u{628} \u{63a}\u{64a}\u{631} \u{635}\u{627}\u{644}\u{62d}."
ar_messages missing_refresh_cookie =
    codes
      "\u{645}\u{644}\u{641} \u{62a}\u{639}\u{631}\u{64a}\u{641} \u{627}\u{644}\u{627}\u{631}\u{62a}\u{628}\u{627}\u{637} \u{627}\u{644}\u{62a}\u{62d}\u{62f}\u{64a}\u{62b} \u{645}\u{641}\u{642}\u{648}\u{62f}."
ar_messages missing_bearer_token =
    codes
      "\u{631}\u{645}\u{632} \u{627}\u{644}\u{648}\u{635}\u{648}\u{644} \u{645}\u{641}\u{642}\u{648}\u{62f}."
ar_messages invalid_access_token =
    codes
      "\u{631}\u{645}\u{632} \u{627}\u{644}\u{648}\u{635}\u{648}\u{644} \u{63a}\u{64a}\u{631} \u{635}\u{627}\u{644}\u{62d}."
ar_messages missing_authenticated_user =
    codes
      "\u{62c}\u{644}\u{633}\u{62a}\u{643} \u{644}\u{645} \u{62a}\u{639}\u{62f} \u{635}\u{627}\u{644}\u{62d}\u{629}. \u{627}\u{644}\u{631}\u{62c}\u{627}\u{621} \u{62a}\u{633}\u{62c}\u{64a}\u{644} \u{627}\u{644}\u{62f}\u{62e}\u{648}\u{644} \u{645}\u{631}\u{629} \u{623}\u{62e}\u{631}\u{649}."
ar_messages admin_access_required =
    codes
      "\u{645}\u{637}\u{644}\u{648}\u{628} \u{648}\u{635}\u{648}\u{644} \u{627}\u{644}\u{645}\u{634}\u{631}\u{641}."
ar_messages user_not_found =
    codes
      "\u{644}\u{627} \u{64a}\u{645}\u{643}\u{646} \u{627}\u{644}\u{639}\u{62b}\u{648}\u{631} \u{639}\u{644}\u{649} \u{627}\u{644}\u{645}\u{633}\u{62a}\u{62e}\u{62f}\u{645}."
ar_messages tenant_not_found =
    codes
      "\u{644}\u{627} \u{64a}\u{645}\u{643}\u{646} \u{627}\u{644}\u{639}\u{62b}\u{648}\u{631} \u{639}\u{644}\u{649} \u{627}\u{644}\u{645}\u{633}\u{62a}\u{623}\u{62c}\u{631}."
ar_messages tenant_disabled =
    codes
      "\u{644}\u{642}\u{62f} \u{62a}\u{645} \u{62a}\u{639}\u{637}\u{64a}\u{644} \u{647}\u{630}\u{627} \u{627}\u{644}\u{645}\u{633}\u{62a}\u{623}\u{62c}\u{631}."
ar_messages domain_not_found =
    codes
      "\u{644}\u{627} \u{64a}\u{645}\u{643}\u{646} \u{627}\u{644}\u{639}\u{62b}\u{648}\u{631} \u{639}\u{644}\u{649} \u{627}\u{644}\u{645}\u{62c}\u{627}\u{644}."
ar_messages endpoint_not_found =
    codes
      "\u{62a}\u{639}\u{630}\u{631} \u{627}\u{644}\u{639}\u{62b}\u{648}\u{631} \u{639}\u{644}\u{649} \u{646}\u{642}\u{637}\u{629} \u{646}\u{647}\u{627}\u{64a}\u{629} \u{627}\u{644}\u{625}\u{634}\u{639}\u{627}\u{631}."
ar_messages domain_already_exists =
    codes
      "\u{647}\u{630}\u{627} \u{627}\u{644}\u{645}\u{62c}\u{627}\u{644} \u{645}\u{648}\u{62c}\u{648}\u{62f} \u{628}\u{627}\u{644}\u{641}\u{639}\u{644}."
ar_messages hostname_required =
    codes
      "\u{627}\u{633}\u{645} \u{627}\u{644}\u{645}\u{636}\u{64a}\u{641} \u{645}\u{637}\u{644}\u{648}\u{628}."
ar_messages target_ip_invalid =
    codes
      "\u{64a}\u{62c}\u{628} \u{623}\u{646} \u{64a}\u{643}\u{648}\u{646} \u{639}\u{646}\u{648}\u{627}\u{646} IP \u{627}\u{644}\u{645}\u{62b}\u{628}\u{62a} \u{639}\u{646}\u{648}\u{627}\u{646} IPv4 \u{623}\u{648} IPv6 \u{635}\u{627}\u{644}\u{62d}ً\u{627}."
ar_messages port_out_of_range =
    codes
      "\u{64a}\u{62c}\u{628} \u{623}\u{646} \u{64a}\u{643}\u{648}\u{646} \u{627}\u{644}\u{645}\u{646}\u{641}\u{630} \u{628}\u{64a}\u{646} 1 \u{648}65535."
ar_messages name_required =
    codes "\u{627}\u{644}\u{627}\u{633}\u{645} \u{645}\u{637}\u{644}\u{648}\u{628}."
ar_messages invalid_endpoint_config =
    codes
      "\u{62a}\u{643}\u{648}\u{64a}\u{646} \u{646}\u{642}\u{637}\u{629} \u{646}\u{647}\u{627}\u{64a}\u{629} \u{627}\u{644}\u{625}\u{639}\u{644}\u{627}\u{645} \u{63a}\u{64a}\u{631} \u{635}\u{627}\u{644}\u{62d}."
ar_messages telegram_not_configured =
    codes
      "Telegram \u{644}\u{645} \u{64a}\u{62a}\u{645} \u{62a}\u{643}\u{648}\u{64a}\u{646} \u{631}\u{645}\u{632} \u{627}\u{644}\u{631}\u{648}\u{628}\u{648}\u{62a} \u{627}\u{644}\u{645}\u{645}\u{64a}\u{632}."
ar_messages frontend_assets_unavailable =
    codes
      "Frontend \u{627}\u{644}\u{623}\u{635}\u{648}\u{644} \u{63a}\u{64a}\u{631} \u{645}\u{62a}\u{648}\u{641}\u{631}\u{629}."
ar_messages no_selected_user =
    codes
      "\u{62d}\u{62f}\u{62f} \u{645}\u{633}\u{62a}\u{62e}\u{62f}\u{645}ً\u{627} \u{623}\u{648}\u{644}\u{627}ً."
ar_messages bad_request =
    codes "\u{627}\u{644}\u{637}\u{644}\u{628} \u{63a}\u{64a}\u{631} \u{635}\u{627}\u{644}\u{62d}."
ar_messages unauthorized =
    codes
      "\u{623}\u{646}\u{62a} \u{63a}\u{64a}\u{631} \u{645}\u{635}\u{631}\u{62d} \u{644}\u{643} \u{628}\u{647}\u{630}\u{627} \u{627}\u{644}\u{625}\u{62c}\u{631}\u{627}\u{621}."
ar_messages forbidden =
    codes
      "\u{644}\u{64a}\u{633} \u{644}\u{62f}\u{64a}\u{643} \u{625}\u{630}\u{646} \u{628}\u{647}\u{630}\u{627} \u{627}\u{644}\u{625}\u{62c}\u{631}\u{627}\u{621}."
ar_messages not_found =
    codes
      "\u{644}\u{627} \u{64a}\u{645}\u{643}\u{646} \u{627}\u{644}\u{639}\u{62b}\u{648}\u{631} \u{639}\u{644}\u{649} \u{627}\u{644}\u{645}\u{648}\u{631}\u{62f} \u{627}\u{644}\u{645}\u{637}\u{644}\u{648}\u{628}."
ar_messages conflict =
    codes
      "\u{64a}\u{62a}\u{639}\u{627}\u{631}\u{636} \u{627}\u{644}\u{637}\u{644}\u{628} \u{645}\u{639} \u{645}\u{648}\u{631}\u{62f} \u{645}\u{648}\u{62c}\u{648}\u{62f}."
ar_messages server_error =
    codes
      "\u{641}\u{634}\u{644} \u{627}\u{644}\u{62e}\u{627}\u{62f}\u{645} \u{641}\u{64a} \u{645}\u{639}\u{627}\u{644}\u{62c}\u{629} \u{627}\u{644}\u{637}\u{644}\u{628}."

unfoldable pub hi_messages : ApiErrorCode → Text
hi_messages invalid_credentials = codes "गलत उपयोगकर्ता नाम या पासवर्ड।"
hi_messages registration_disabled = codes "पंजीकरण फिलहाल अक्षम है."
hi_messages email_not_verified = codes "Email सत्यापन अभी भी लंबित है."
hi_messages invalid_token = codes "टोकन अमान्य है."
hi_messages token_expired = codes "टोकन समाप्त हो गया है."
hi_messages resource_exists = codes "संसाधन पहले से मौजूद है."
hi_messages password_too_short = codes "पासवर्ड कम से कम 8 वर्णों का होना चाहिए।"
hi_messages username_too_short = codes "उपयोगकर्ता नाम कम से कम 3 अक्षर का होना चाहिए."
hi_messages username_too_long = codes "उपयोगकर्ता नाम अधिकतम 32 अक्षर का होना चाहिए."
hi_messages username_invalid_chars =
    codes "उपयोगकर्ता नाम में केवल अक्षर, संख्याएँ, बिंदु, अंडरस्कोर और डैश हो सकते हैं।"
hi_messages invalid_request_body = codes "अनुरोध का मुख्य भाग अमान्य है."
hi_messages missing_refresh_cookie = codes "ताज़ा कुकी गायब है."
hi_messages missing_bearer_token = codes "एक्सेस टोकन गायब है."
hi_messages invalid_access_token = codes "एक्सेस टोकन अमान्य है."
hi_messages missing_authenticated_user =
    codes "अपका सत्र अब मान्य नहीं है। कृपया पुनः साइन इन करें."
hi_messages admin_access_required = codes "व्यवस्थापक पहुंच आवश्यक है."
hi_messages user_not_found = codes "उपयोगकर्ता नहीं मिल सका."
hi_messages tenant_not_found = codes "किरायेदार नहीं मिल सका."
hi_messages tenant_disabled = codes "इस किरायेदार को अक्षम कर दिया गया है."
hi_messages domain_not_found = codes "डोमेन नहीं मिल सका."
hi_messages endpoint_not_found = codes "अधिसूचना समापन बिंदु नहीं पाया जा सका."
hi_messages domain_already_exists = codes "यह डोमेन पहले से मौजूद है."
hi_messages hostname_required = codes "होस्टनाम आवश्यक है."
hi_messages target_ip_invalid = codes "पिन किया गया IP एक वैध IPv4 या IPv6 पता होना चाहिए।"
hi_messages port_out_of_range = codes "पोर्ट 1 और 65535 के बीच होना चाहिए।"
hi_messages name_required = codes "नाम आवश्यक है।"
hi_messages invalid_endpoint_config = codes "अधिसूचना समापन बिंदु कॉन्फ़िगरेशन अमान्य है."
hi_messages telegram_not_configured = codes "Telegram बॉट टोकन कॉन्फ़िगर नहीं किया गया है।"
hi_messages frontend_assets_unavailable = codes "Frontend संपत्तियां उपलब्ध नहीं हैं."
hi_messages no_selected_user = codes "पहले एक उपयोगकर्ता चुनें."
hi_messages bad_request = codes "अनुरोध अमान्य है."
hi_messages unauthorized = codes "आप इस कार्रवाई के लिए अधिकृत नहीं हैं."
hi_messages forbidden = codes "आपके पास इस कार्रवाई की अनुमति नहीं है."
hi_messages not_found = codes "अनुरोधित संसाधन नहीं मिल सका."
hi_messages conflict = codes "अनुरोध मौजूदा संसाधन के साथ टकराव करता है।"
hi_messages server_error = codes "सर्वर अनुरोध संसाधित करने में विफल रहा."
