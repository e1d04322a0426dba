-- ===== src/ApiError/Tests.antt =====
-- The cases of apps/web/src/lib/api-error.test.ts, and instances of the laws.
use go_check_ssl.Prelude.{true, false, refl, ◌≡◌, ◌⊎◌}
use go_check_ssl.Prelude.Text.{codes, text_ops, truthy}
use go_check_ssl.Api.{api_error, error}
use go_check_ssl.Locale.{zh_cn, fr, en}
use go_check_ssl.ApiError.Codes.{ApiErrorCode, message_to_code, invalid_credentials}
use go_check_ssl.ApiError.{
  get_localized_api_error_message, code_from_reason, code_of_message, normalize_message, lookup_own,
  code_from_status, localized_messages, is_prototype_member,
}
use go_check_ssl.ApiError.Laws.{Shows, ShowsFallback, one_code_or_fallback}

api_error_tests :
    (get_localized_api_error_message zh_cn (api_error 401 (codes "invalid credentials")) (codes "f")
      ≡ localized_messages zh_cn invalid_credentials)
    × (get_localized_api_error_message fr (api_error 500 (codes "unexpected boom")) (codes "f")
        ≡ codes "Le serveur n'a pas pu traiter la requête.")
    × (get_localized_api_error_message en (error (codes "No selected user")) (codes "f")
        ≡ codes "Select a user first.")
unfolding get_localized_api_error_message code_from_reason code_of_message normalize_message
    lookup_own message_to_code code_from_status localized_messages text_ops is_prototype_member
api_error_tests = (refl, refl, refl)

not_a_member : is_prototype_member (normalize_message (codes "unexpected boom")) ≡ false
unfolding is_prototype_member normalize_message text_ops
not_a_member = refl

a_member : is_prototype_member (normalize_message (codes " Constructor")) ≡ true
unfolding is_prototype_member normalize_message text_ops
a_member = refl

a_fallback : truthy (codes "f") ≡ true
unfolding codes
a_fallback = refl

one_code_or_fallback_example :
    ((c : ApiErrorCode) × Shows (error (codes "boom")) c) ⊎ ShowsFallback (error (codes "boom"))
one_code_or_fallback_example = one_code_or_fallback (error (codes "boom"))
