-- ===== src/Auth/Callbacks.antt =====
-- Sequences of the context's callbacks, with the session's invariant by induction over them.
use go_check_ssl.Prelude.{Option, none, ◌≢◌}
use go_check_ssl.Prelude.Text.{Text}
use go_check_ssl.Api.{Client}
use go_check_ssl.Auth.{
  refresh_session, mount, unmount, login, logout, register, verify_email, forgot_password,
  reset_password, update_profile,
}

-- The callbacks of the context, with their arguments.
pub data Callback : Type 0 where
  mounts unmounts refreshes logs_out : Callback
  logs_in registers resets : (a b : Text) → Callback
  verifies forgets : (a : Text) → Callback
  updates : (username email : Text) (title subtitle : Option Text) → Callback

-- The client after a callback, whether its promise resolved or rejected.
unfoldable pub run_callback : Callback → Client → Client
run_callback mounts c = (mount c).1
run_callback unmounts c = (unmount c).1
run_callback refreshes c = (refresh_session c).1
run_callback logs_out c = (logout c).1
run_callback (logs_in a b) c = (login a b c).1
run_callback (registers a b) c = (register a b c).1
run_callback (resets a b) c = (reset_password a b c).1
run_callback (verifies a) c = (verify_email a c).1
run_callback (forgets a) c = (forgot_password a c).1
run_callback (updates u e t s) c = (update_profile u e t s c).1

-- The settings page, which alone calls `updateProfile`, is shown only to a signed-in user.
abbrev pub CanCall : Callback → Client → Type 0
CanCall (updates u e t s) c = c.user ≢ none
CanCall _ c = Unit

pub data Reach : Client → Client → Type 0 where
  here : (c : Client) → Reach c c
  next : {c d : Client} (k : Callback) → Reach c d → CanCall k d → Reach c (run_callback k d)
