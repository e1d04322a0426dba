-- ===== src/ApiError/Laws.antt =====
-- Which text an error shows.
use go_check_ssl.Prelude.{
  ℕ, String, true, false, Option, none, some, List, [], ◌∷◌, ◌≡◌, ◌≢◌, refl, ap, ◌∙◌, arith, ◌≤◌,
  inl, inr, ◌⊎◌, All, All-by_check,
}
use go_check_ssl.Prelude.Text.{Text, codes, text_ops, text_eq_iff, trim, to_lower_case, truthy}
use go_check_ssl.Prelude.Text.Laws.{trim_idem, to_lower_case_idem, trim-to_lower_case}
use go_check_ssl.Api.{Thrown, api_error}
use go_check_ssl.Locale.{Locale, zh_cn, zh_tw, en, es, fr, de, ru, ar, pt, ja, ko, hi, it}
use go_check_ssl.ApiError.Codes.{
  ApiErrorCode, invalid_credentials, message_to_code, server_error, conflict, not_found, forbidden,
  unauthorized, bad_request,
}
use go_check_ssl.ApiError.{
  localized_messages, normalize_message, own, inherited, Found, own_or_inherited, code_of_message,
  lookup_own, code_from_status, code_from_message, code_from_reason, is_prototype_member,
  get_localized_api_error_message, text_of_code,
}

-- The statuses that have a text of their own.
abbrev pub IsKnownStatus : ℕ → Type 0
IsKnownStatus n = (500 ≤ n) ⊎ (n ≡ 409) ⊎ (n ≡ 404) ⊎ (n ≡ 403) ⊎ (n ≡ 401) ⊎ (n ≡ 400)

code_from_status_known :
    (n : ℕ) → IsKnownStatus n → (c : ApiErrorCode) × (code_from_status n ≡ some c)
unfolding code_from_status
code_from_status_known n (inl h) = (server_error, ground arith)
code_from_status_known n (inr (inl h)) = (conflict, rw h)
code_from_status_known n (inr (inr (inl h))) = (not_found, rw h)
code_from_status_known n (inr (inr (inr (inl h)))) = (forbidden, rw h)
code_from_status_known n (inr (inr (inr (inr (inl h))))) = (unauthorized, rw h)
code_from_status_known n (inr (inr (inr (inr (inr h))))) = (bad_request, rw h)

-- The error shows the text of `c` in every locale, whatever the fallback.
abbrev pub Shows : Thrown → ApiErrorCode → Type 0
Shows reason c =
    (l : Locale) (fallback : Text)
    → get_localized_api_error_message l reason fallback ≡ localized_messages l c

abbrev pub ShowsFallback : Thrown → Type 0
ShowsFallback reason =
    (l : Locale) (fallback : Text) → get_localized_api_error_message l reason fallback ≡ fallback

own-Shows :
    (reason : Thrown) (c : ApiErrorCode) → code_from_reason reason ≡ some (own c) → Shows reason c
unfolding get_localized_api_error_message
own-Shows reason c e l fallback = ap (λ f. text_of_code l f fallback) e

none-ShowsFallback : (reason : Thrown) → code_from_reason reason ≡ none → ShowsFallback reason
unfolding get_localized_api_error_message
none-ShowsFallback reason e l fallback = ap (λ f. text_of_code l f fallback) e

inherited-ShowsFallback :
    (reason : Thrown) → code_from_reason reason ≡ some inherited → ShowsFallback reason
unfolding get_localized_api_error_message
inherited-ShowsFallback reason e l fallback = ap (λ f. text_of_code l f fallback) e

reason_cases :
    (reason : Thrown) (f : Option Found)
    → code_from_reason reason ≡ f
    → ((c : ApiErrorCode) × Shows reason c) ⊎ ShowsFallback reason
reason_cases reason none e = inr (none-ShowsFallback reason e)
reason_cases reason (some inherited) e = inr (inherited-ShowsFallback reason e)
reason_cases reason (some (own c)) e = inl (c, own-Shows reason c e)

-- An error shows one code's text, in the user's locale, or it shows the fallback in every locale:
-- which of the two, and the code, do not depend on the locale.
pub one_code_or_fallback :
    (reason : Thrown) → ((c : ApiErrorCode) × Shows reason c) ⊎ ShowsFallback reason
one_code_or_fallback reason = reason_cases reason (code_from_reason reason) refl

not_inherited :
    (o : Option ApiErrorCode) (s : Text)
    → is_prototype_member s ≡ false
    → own_or_inherited o s ≢ some inherited
unfolding own_or_inherited
not_inherited none s h = ground arith
not_inherited (some c) s h = ground arith

own_or_status :
    (f : Option Found) (by_status : ApiErrorCode)
    → f ≢ some inherited
    → (c : ApiErrorCode) × (code_from_message f (some by_status) ≡ some (own c))
unfolding code_from_message
own_or_status none by_status h = (by_status, refl)
own_or_status (some (own c)) by_status h = (c, refl)
own_or_status (some inherited) by_status h = absurd (h refl)

-- An `ApiError` with a status that the client knows (400, 401, 403, 404, 409, 500 and above) shows
-- the text of some code in every locale, whatever its message is, but for the two messages that
-- name a member of `Object.prototype`.
known_status-Shows :
    (n : ℕ) (message : Text)
    → IsKnownStatus n
    → is_prototype_member (normalize_message message) ≡ false
    → (c : ApiErrorCode) × Shows (api_error n message) c
unfolding code_from_reason code_of_message
known_status-Shows n message k h =
    let (s, e) = code_from_status_known n k in
    let (c, q) = own_or_status (code_of_message (normalize_message message)) s (
      not_inherited (lookup_own message_to_code (normalize_message message))
        (normalize_message message) h) in
    (c, own-Shows (api_error n message) c (ap (code_from_message _) e ∙ q))

prototype_member_cases :
    (s : Text) → is_prototype_member s ≡ true → (s ≡ codes "constructor") ⊎ (s ≡ codes "__proto__")
unfolding is_prototype_member
prototype_member_cases s h =
    ground (arith, text_eq_iff s (codes "constructor"), text_eq_iff s (codes "__proto__"))

code_of_prototype_member :
    (code_of_message (codes "constructor") ≡ some inherited)
    × (code_of_message (codes "__proto__") ≡ some inherited)
unfolding code_of_message lookup_own message_to_code is_prototype_member codes
code_of_prototype_member = (refl, refl)

code_of_message_inherited :
    (s : Text) → is_prototype_member s ≡ true → code_of_message s ≡ some inherited
code_of_message_inherited s h = elim (prototype_member_cases s h) [
  | inl e ↦ rw e code_of_prototype_member.0
  | inr e ↦ rw e code_of_prototype_member.1
]

-- An `ApiError` whose message, trimmed and in lower case, is "constructor" or "__proto__" shows the
-- fallback, whatever its status: the lookup in `messageToCode` finds the member of
-- `Object.prototype`, and the status is not asked.
prototype_member-ShowsFallback :
    (n : ℕ) (message : Text)
    → is_prototype_member (normalize_message message) ≡ true
    → ShowsFallback (api_error n message)
unfolding code_from_reason code_from_message
prototype_member-ShowsFallback n message h =
    inherited-ShowsFallback (api_error n message)
      (rw (code_of_message_inherited (normalize_message message) h))

normalize_message_insensitive :
    (s : Text)
    → (normalize_message (to_lower_case s) ≡ normalize_message s)
      × (normalize_message (trim s) ≡ normalize_message s)
unfolding normalize_message
normalize_message_insensitive s = (
  ap to_lower_case (trim-to_lower_case s) ∙ to_lower_case_idem (trim s),
  ap to_lower_case (trim_idem s),
)

-- The text shown does not depend on the case of ASCII letters in the server's message, or on white
-- space around it.
message_insensitive :
    (l : Locale) (n : ℕ) (message fallback : Text)
    → (get_localized_api_error_message l (api_error n (to_lower_case message)) fallback
        ≡ get_localized_api_error_message l (api_error n message) fallback)
      × (get_localized_api_error_message l (api_error n (trim message)) fallback
          ≡ get_localized_api_error_message l (api_error n message) fallback)
unfolding get_localized_api_error_message code_from_reason
message_insensitive l n message fallback =
    let (a, b) = normalize_message_insensitive message in
    let by = λ (s : Text).
      text_of_code l (code_from_message (code_of_message s) (code_from_status n)) fallback in
    (ap by a, ap by b)

truthy-localized_messages : (l : Locale) (c : ApiErrorCode) → truthy (localized_messages l c) ≡ true
unfolding localized_messages codes
truthy-localized_messages zh_cn invalid_credentials = refl
truthy-localized_messages zh_tw invalid_credentials = refl
truthy-localized_messages en invalid_credentials = refl
truthy-localized_messages es invalid_credentials = refl
truthy-localized_messages fr invalid_credentials = refl
truthy-localized_messages de invalid_credentials = refl
truthy-localized_messages ru invalid_credentials = refl
truthy-localized_messages ar invalid_credentials = refl
truthy-localized_messages pt invalid_credentials = refl
truthy-localized_messages ja invalid_credentials = refl
truthy-localized_messages ko invalid_credentials = refl
truthy-localized_messages hi invalid_credentials = refl
truthy-localized_messages it invalid_credentials = refl
truthy-localized_messages _ _ = refl

-- With a fallback that is not empty, no error shows an empty text.
pub never_empty :
    (l : Locale) (reason : Thrown) (fallback : Text)
    → truthy fallback ≡ true
    → truthy (get_localized_api_error_message l reason fallback) ≡ true
never_empty l reason fallback h = elim (one_code_or_fallback reason) [
  | inl (c, shows) ↦ rw (shows l fallback) (truthy-localized_messages l c)
  | inr shows ↦ rw (shows l fallback) h
]

found_discrete : Discrete (Option Found)
found_discrete = hlevel

-- Checked by running the lookup on each message of the table.
table_found :
    All (λ e. code_of_message (normalize_message (codes e.0)) ≡ some (own e.1)) message_to_code
unfolding code_of_message normalize_message message_to_code lookup_own text_ops found_discrete
table_found =
    All-by_check
      (λ e. found_discrete (code_of_message (normalize_message (codes e.0))) (some (own e.1)))
      message_to_code refl

All-Shows :
    (table : List (String × ApiErrorCode))
    → All (λ e. code_of_message (normalize_message (codes e.0)) ≡ some (own e.1)) table
    → All (λ e. (n : ℕ) → Shows (api_error n (codes e.0)) e.1) table
unfolding code_from_reason code_from_message
All-Shows [] h = tt
All-Shows ((k, c) ∷ rest) (h, hs) = (
  λ n. own-Shows (api_error n (codes k)) c (ap (λ f. code_from_message f (code_from_status n)) h),
  All-Shows rest hs,
)

-- Every message of `messageToCode` shows the text of its own code, in every locale and with every status.
pub table-Shows : All (λ e. (n : ℕ) → Shows (api_error n (codes e.0)) e.1) message_to_code
table-Shows = All-Shows message_to_code table_found
