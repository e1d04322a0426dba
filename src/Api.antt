-- ===== src/Api.antt =====
-- apps/web/src/lib/api.ts. The network is a list of the replies that `fetch` is still to give, and
-- the client keeps a log of what it has sent. A promise that rejects is `threw`; the state outlives
-- it. `json()` of a body that the client does not understand rejects.

pub mod Requests
use go_check_ssl.Prelude.{
  ℕ, String, Bool, true, false, Option, none, some, List, [], ◌∷◌, ◌++◌, ◌&&◌, ◌==◌, leb,
  if◌then◌else◌, ◌or◌,
}
use go_check_ssl.Prelude.Text.{Text, codes, truthy}
use go_check_ssl.Types.{ApiUser}
use go_check_ssl.Payloads.{EndpointPayload, PolicyPayload, DomainPayload}

-- What a promise rejects with: an `ApiError`, another `Error`, or a value that is no `Error`.
pub data Thrown : Type 0 where
  api_error : (status : ℕ) (message : Text) → Thrown
  error : (message : Text) → Thrown
  other : Thrown

pub data Method : Type 0 where
  get post put delete : Method

-- The request bodies of auth.tsx and of the pages; `JSON.stringify` is the identity on them.
pub data RequestBody : Type 0 where
  empty : RequestBody
  credentials : (username password : Text) → RequestBody
  verify_token : (token : Text) → RequestBody
  for_account : (account : Text) → RequestBody
  new_password : (token password : Text) → RequestBody
  disabled : (disabled : Bool) → RequestBody
  password : (password : Text) → RequestBody
  endpoint_input : EndpointPayload → RequestBody
  policy_input : PolicyPayload → RequestBody
  domain_input : DomainPayload → RequestBody
  profile_input : (username email : Text) (title subtitle : Option Text) → RequestBody

pub record AuthPayload : Type 0 where
  pub user : ApiUser
  pub access_token : Text

-- What `response.json()` resolves to, by the fields that the callers modelled here read; `json` has
-- none of them, and `malformed` rejects.
pub data Body : Type 0 where
  auth : AuthPayload → Body
  profile : ApiUser → Body
  failure : (error : Option Text) → Body
  tested_endpoint : (name : Text) → Body
  json : Body
  undefined : Body
  malformed : Body

pub data Reply : Type 0 where
  unreachable : Reply
  response : (status : ℕ) (status_text : Text) (body : Body) → Reply

pub record Sent : Type 0 where
  pub path : Text
  pub method : Method
  pub body : RequestBody
  pub bearer : Option Text

-- The module's two variables, the state of `AuthProvider`, and the network.
pub record Client : Type 0 where
  pub access_token : Option Text
  pub has_refresh_handler : Bool
  pub user : Option ApiUser
  pub loading : Bool
  pub replies : List Reply
  pub log : List Sent

pub data Result {ℓ} (A : Type ℓ) : Type ℓ where
  done : A → Result A
  threw : Thrown → Result A

abbrev pub rejected {ℓ} : {A : Type ℓ} → Result A → Bool
rejected (done a) = false
rejected (threw e) = true

abbrev pub M : Type 0 → Type 0
M A = Client → Result A × Client

abbrev pub pure : {A : Type 0} → A → M A
pure a c = (done a, c)

abbrev pub throw : {A : Type 0} → Thrown → M A
throw e c = (threw e, c)

-- A computation that does not touch the client.
abbrev pub returns : {A : Type 0} → Result A → M A
returns r c = (r, c)

abbrev pub continue_with : {A B : Type 0} → (A → M B) → Result A × Client → Result B × Client
continue_with f (done a, c) = f a c
continue_with f (threw e, c) = (threw e, c)

abbrev pub and_then : {A B : Type 0} → Result A → (A → Result B) → Result B
and_then (done a) f = f a
and_then (threw e) f = threw e

infixl 5 ◌>>=◌ ◌>>◌
abbrev pub ◌>>=◌ : {A B : Type 0} → M A → (A → M B) → M B
◌>>=◌ m f c = continue_with f (m c)

abbrev pub ◌>>◌ : {A B : Type 0} → M A → M B → M B
m >> k = m >>= λ _. k

-- `try { m } catch (e) { h(e) }`
abbrev pub handle : {A : Type 0} → (Thrown → M A) → Result A × Client → Result A × Client
handle h (done a, c) = (done a, c)
handle h (threw e, c) = h e c

abbrev pub catch : {A : Type 0} → M A → (Thrown → M A) → M A
catch m h c = handle h (m c)

-- `try { m } finally { k }`, for a `k` that cannot throw
abbrev pub finally : {A : Type 0} → M A → (Client → Client) → M A
finally m k c = let (r, c') = m c in (r, k c')

abbrev pub modify : (Client → Client) → M (Unit {0})
modify f c = (done tt, f c)

unfoldable pub set_access_token : Option Text → Client → Client
set_access_token t c = record c { access_token = t }

unfoldable pub set_refresh_handler : Bool → Client → Client
set_refresh_handler present c = record c { has_refresh_handler = present }

-- The `Authorization` header: none for a missing or empty token.
unfoldable pub bearer_of : Option Text → Option Text
bearer_of none = none
bearer_of (some t) = if truthy t then some t else none

unfoldable pub next_reply : List Reply → Reply
next_reply [] = unreachable
next_reply (r ∷ rs) = r

unfoldable pub later_replies : List Reply → List Reply
later_replies [] = []
later_replies (r ∷ rs) = rs

-- One call of `fetch`: it takes the next reply and logs the request.
unfoldable pub fetch : Text → Method → RequestBody → Client → Reply × Client
unfolding bearer_of next_reply later_replies
fetch path method body c = (
  next_reply c.replies,
  record c {
    replies = later_replies c.replies;
    log =
        c.log
        ++ record { path = path; method = method; body = body; bearer = bearer_of c.access_token }
          ∷ [];
  },
)

-- `response.ok`
unfoldable pub is_ok : ℕ → Bool
is_ok status = leb 200 status && leb status 299

unfoldable pub read_error : Text → Body → Text
read_error status_text (failure e) = e or status_text
read_error status_text _ = status_text

unfoldable pub read_json : Body → Result Body
read_json malformed = threw (error (codes "Unexpected token"))
read_json body = done body

-- From `if (!response.ok)` to the end: what the request resolves to or rejects with.
unfoldable pub outcome : Reply → Result Body
unfolding is_ok read_error read_json
outcome unreachable = threw (error (codes "Failed to fetch"))
outcome (response status status_text body) =
    if is_ok status
    then if status == 204 then done undefined else read_json body
    else threw (api_error status (read_error status_text body))

unfoldable pub is_unauthorized : Reply → Bool
is_unauthorized unreachable = false
is_unauthorized (response status _ _) = status == 401

unfoldable pub refreshed_truthy : Option Text → Bool
refreshed_truthy none = false
refreshed_truthy (some t) = truthy t

-- `apiRequest(path, init, false)`: one `fetch`, whatever the answer.
unfoldable pub attempt : Text → Method → RequestBody → M Body
attempt path method body c = let (reply, c') = fetch path method body c in (outcome reply, c')

module _ (refresh_handler : M (Option Text)) where
  -- After a first answer of 401: refresh, and try once more if that gave a token.
  unfoldable pub retry_after_refresh : Reply → Text → Method → RequestBody → M Body
  unfolding refreshed_truthy
  retry_after_refresh reply path method body = do
    refreshed ← refresh_handler
    if refreshed_truthy refreshed then attempt path method body else returns (outcome reply)

  unfoldable pub api_request : Text → Method → RequestBody → Bool → M Body
  unfolding retry_after_refresh is_unauthorized
  api_request path method body retry c =
      let (reply, c') = fetch path method body c in
      if is_unauthorized reply && retry && c'.has_refresh_handler
      then retry_after_refresh reply path method body c'
      else (outcome reply, c')
