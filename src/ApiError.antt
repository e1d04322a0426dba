-- ===== src/ApiError.antt =====
-- apps/web/src/lib/api-error.ts: from what a request rejects with to the text that is shown.
pub mod Codes
pub mod Messages
pub mod Laws
mod Tests
use go_check_ssl.Prelude.{
  ℕ, String, Bool, true, false, Option, none, some, List, [], ◌∷◌, ◌==◌, ◌||◌, leb, if◌then◌else◌,
  ◌or◌,
}
use go_check_ssl.Prelude.Text.{Text, codes, text_eq, trim, to_lower_case}
use go_check_ssl.Api.{Thrown, api_error, error, other}
use go_check_ssl.Locale.{Locale, zh_cn, zh_tw, en, es, fr, de, ru, ar, pt, ja, ko, hi, it}
use Codes.{
  ApiErrorCode, bad_request, unauthorized, forbidden, not_found, conflict, server_error,
  message_to_code,
}
use Messages.Chinese.{zh_cn_messages, zh_tw_messages}
use Messages.Germanic.{en_messages, de_messages}
use Messages.Iberian.{es_messages, pt_messages}
use Messages.Romance.{fr_messages, it_messages}
use Messages.EastAsian.{ja_messages, ko_messages}
use Messages.Other.{ru_messages, ar_messages, hi_messages}

unfoldable pub localized_messages : Locale → ApiErrorCode → Text
unfolding zh_cn_messages zh_tw_messages en_messages es_messages fr_messages de_messages ru_messages
    ar_messages pt_messages ja_messages ko_messages hi_messages it_messages
localized_messages zh_cn = zh_cn_messages
localized_messages zh_tw = zh_tw_messages
localized_messages en = en_messages
localized_messages es = es_messages
localized_messages fr = fr_messages
localized_messages de = de_messages
localized_messages ru = ru_messages
localized_messages ar = ar_messages
localized_messages pt = pt_messages
localized_messages ja = ja_messages
localized_messages ko = ko_messages
localized_messages hi = hi_messages
localized_messages it = it_messages

unfoldable pub normalize_message : Text → Text
normalize_message message = to_lower_case (trim message)

-- What an object answers for a key: an own property, or a member of `Object.prototype`.
pub data Found : Type 0 where
  own : ApiErrorCode → Found
  inherited : Found

unfoldable pub lookup_own : List (String × ApiErrorCode) → Text → Option ApiErrorCode
lookup_own [] s = none
lookup_own ((key, c) ∷ rest) s = if text_eq (codes key) s then some c else lookup_own rest s

-- The members of `Object.prototype` whose name is in lower case.
unfoldable pub is_prototype_member : Text → Bool
is_prototype_member s = text_eq s (codes "constructor") || text_eq s (codes "__proto__")

unfoldable pub own_or_inherited : Option ApiErrorCode → Text → Option Found
own_or_inherited (some c) s = some (own c)
own_or_inherited none s = if is_prototype_member s then some inherited else none

-- `messageToCode[normalized]`
unfoldable pub code_of_message : Text → Option Found
unfolding own_or_inherited
code_of_message s = own_or_inherited (lookup_own message_to_code s) s

unfoldable pub code_from_status : ℕ → Option ApiErrorCode
code_from_status status =
    if leb 500 status
    then some server_error
    else if status == 409
    then some conflict
    else if status == 404
    then some not_found
    else if status == 403
    then some forbidden
    else if status == 401
    then some unauthorized
    else if status == 400
    then some bad_request
    else none

unfoldable pub found_own : Option ApiErrorCode → Option Found
found_own none = none
found_own (some c) = some (own c)

-- The message decides first; only an `ApiError` has a status to fall back on.
unfoldable pub code_from_message : Option Found → Option ApiErrorCode → Option Found
unfolding found_own
code_from_message (some f) by_status = some f
code_from_message none by_status = found_own by_status

unfoldable pub code_from_reason : Thrown → Option Found
unfolding code_from_message
code_from_reason other = none
code_from_reason (error message) =
    code_from_message (code_of_message (normalize_message message)) none
code_from_reason (api_error status message) =
    code_from_message (code_of_message (normalize_message message)) (code_from_status status)

-- `localizedMessages[locale][code]`: a member of `Object.prototype`, made a key, names no text.
unfoldable pub localized_entry : Locale → Found → Option Text
localized_entry locale (own c) = some (localized_messages locale c)
localized_entry locale inherited = none

-- The end of `getLocalizedApiErrorMessage`, from the code on.
unfoldable pub text_of_code : Locale → Option Found → Text → Text
unfolding localized_entry
text_of_code locale none fallback = fallback
text_of_code locale (some f) fallback = localized_entry locale f or localized_entry en f or fallback

unfoldable pub get_localized_api_error_message : Locale → Thrown → Text → Text
unfolding text_of_code
get_localized_api_error_message locale reason fallback =
    text_of_code locale (code_from_reason reason) fallback
