-- ===== src/Settings/Laws.antt =====
-- What saving the settings sends, and what the effect does to the form.
use go_check_ssl.Prelude.{
  String, true, false, Option, none, some, ◌or◌, ◌≡◌, refl, arith, inl, inr, Bool-cases, [],
  and-eq-true, ap, ◌∙◌,
}
use go_check_ssl.Prelude.Text.{Text, truthy, text_eq_iff, codes}
use go_check_ssl.Types.{ApiUser, PublicTenantStatus}
use go_check_ssl.Api.{
  Client, rejected, done, put, profile_input, profile, outcome, next_reply, is_unauthorized,
  RequestBody, Body,
}
use go_check_ssl.Api.Requests.{after_fetch, outcome_unauthorized}
use go_check_ssl.Auth.{update_profile, set_user, as_user}
use go_check_ssl.Auth.Refresh.{not_retried}
use go_check_ssl.Locale.{Locale}
use go_check_ssl.Settings.{
  SettingsState, Dependencies, dependencies, reset_values, optional_eq, unchanged, settings_effect,
  submit_settings, after_update,
}

-- The client once the server has taken the profile and answered with a user.
abbrev pub updated_client : RequestBody → ApiUser → Client → Client
updated_client body u c = set_user (some u) (after_fetch (codes "/auth/me") put body c)

accepted :
    (c : Client) (body : Body)
    → outcome (next_reply c.replies) ≡ done body
    → is_unauthorized (next_reply c.replies) ≡ false
accepted c body e = elim (Bool-cases (is_unauthorized (next_reply c.replies))) [
  | inl u ↦ ground (arith, outcome_unauthorized (next_reply c.replies) u, ap rejected e)
  | inr u ↦ u
]

update_profile-accepted :
    (username email : Text) (title subtitle : Option Text) (u : ApiUser) (c : Client)
    → outcome (next_reply c.replies) ≡ done (profile u)
    → update_profile username email title subtitle c
      ≡ (done tt, updated_client (profile_input username email title subtitle) u c)
unfolding update_profile as_user
update_profile-accepted username email title subtitle u c e =
    let body = profile_input username email title subtitle in
    rw (not_retried (codes "/auth/me") put body c (inl (accepted c (profile u) e)), e) refl

module _ (locale : Locale) (t : String → Text)
    (refetch : Option PublicTenantStatus → Client → Option PublicTenantStatus × Client) where
  -- The page after a save that the server took, by what `refetch` gave.
  abbrev pub saved : SettingsState → Option PublicTenantStatus × Client → SettingsState × Client
  saved s (status, c) = (
    record s { message = some (t "settings.saveSuccess"); error = none; public_status = status },
    c,
  )

  -- While the public status is not there, because it is still loading or because its request
  -- failed, saving the form as the effect has filled it in sends an empty title and an empty
  -- subtitle, whatever the tenant's are, and the page reports success.
  pub submit_settings_erases :
      (user u : ApiUser) (s : SettingsState) (c : Client)
      → truthy user.username ≡ true
      → s.public_status ≡ none
      → s.values ≡ reset_values (dependencies (some user) s.public_status)
      → outcome (next_reply c.replies) ≡ done (profile u)
      → submit_settings locale t refetch s c
        ≡ saved s (
            refetch none (
              updated_client
                (profile_input user.username (user.email or []) (some []) (some []))
                u
                c))
  unfolding submit_settings after_update reset_values dependencies
  submit_settings_erases user u s c named missing filled e =
      rw
        (
          filled,
          missing,
          named,
          update_profile-accepted user.username (user.email or []) (some []) (some []) u c e,
        )
        refl

optional_eq_sound : (s t : Option Text) → optional_eq s t ≡ true → s ≡ t
unfolding optional_eq
optional_eq_sound none none h = refl
optional_eq_sound none (some t) h = ground (arith, h)
optional_eq_sound (some s) none h = ground (arith, h)
optional_eq_sound (some s) (some t) h = ap some ((text_eq_iff s t).0 h)

unchanged-values : (d e : Dependencies) → unchanged d e ≡ true → reset_values d ≡ reset_values e
unfolding unchanged reset_values
unchanged-values d e h =
    let (three, usernames) = and-eq-true _ (optional_eq d.username e.username) h in
    let (two, emails) = and-eq-true _ (optional_eq d.email e.email) three in
    let (subtitles, titles) =
      and-eq-true (optional_eq d.subtitle e.subtitle) (optional_eq d.title e.title) two in
    rw
      (
        optional_eq_sound d.subtitle e.subtitle subtitles,
        optional_eq_sound d.title e.title titles,
        optional_eq_sound d.email e.email emails,
        optional_eq_sound d.username e.username usernames,
      )
      refl

-- A form as the effect last filled it in is, after the effect of the next render, as the user and
-- the public status of that render fill it in, whether the effect ran or not.
pub settings_effect-follows :
    (before after : Dependencies) (s : SettingsState)
    → s.values ≡ reset_values before
    → (settings_effect before after s).values ≡ reset_values after
unfolding settings_effect
settings_effect-follows before after s h = elim (Bool-cases (unchanged before after)) [
  | inl same ↦ rw same (h ∙ unchanged-values before after same)
  | inr other ↦ rw other refl
]
