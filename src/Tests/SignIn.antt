-- ===== src/Tests/SignIn.antt =====
-- Sign-in at concrete inputs, with a keyed hash that marks the message and a plain comparison of
-- passwords (internal/auth/auth.go, internal/server/auth.go).
use autodeploy_web.Base.{
  Option, none, false, ◌+◌, ◌*◌, ◌/◌, ◌≤◌, ◌≡◌, ◌≢◌, ◌↔◌, refl, true, [], ◌∷◌, ◌++◌, some, Text,
  text, text_eq, has_prefix, arith,
}
use autodeploy_web.Auth.{
  second, session_max_age, skew, lock_window, AuthManager, Request, new_session, valid_session,
  attempts,
}
use autodeploy_web.Auth.Sessions.{Accepted, new_session-valid, valid_session-Accepted}
use autodeploy_web.Auth.Lockout.{attempts-lock}

abbrev marked : Text → Text → Text
marked secret msg = 35 ∷ secret ++ msg

marked_nonempty : (secret msg : Text) → marked secret msg ≢ []
marked_nonempty secret msg e = cc

abbrev key : Text
key = text "k"

new_session-valid_example :
    (valid_session marked key (new_session marked key (5 * second)) (9 * second) ≡ true) ↔ (
      (5 * second / second * second ≤ 9 * second + skew)
      × (9 * second ≤ 5 * second / second * second + session_max_age))
new_session-valid_example =
    new_session-valid marked key (5 * second) (9 * second) (marked_nonempty key) (omega arith)

abbrev made : Text
made = new_session marked key (5 * second)

made_valid : valid_session marked key made (9 * second) ≡ true
made_valid = new_session-valid_example.1 (omega arith, omega arith)

valid_session-Accepted_example :
    (payload : Text) × ((made ≡ payload ++ 46 ∷ marked key payload)
      × Accepted marked key payload (marked key payload) (9 * second))
valid_session-Accepted_example = valid_session-Accepted marked key made (9 * second) made_valid

-- A hash that collides on all messages.
abbrev blind : Text → Text → Text
blind secret msg = 35 ∷ []

abbrev token : Text
token = new_session blind key (5 * second)

token_valid : (secret : Text) → valid_session blind secret token (9 * second) ≡ true
unfolding text new_session
token_valid secret =
    (new_session-valid blind secret (5 * second) (9 * second) (λ msg e. cc) (omega arith)).1
      (omega arith, omega arith)

abbrev admin : AuthManager
admin = record { enabled = true; hash = text "secret"; secret = key; fails = 3; lock_until = 0 }

abbrev locked : AuthManager
locked = record { enabled = true; hash = text "secret"; secret = key; fails = 0; lock_until = 90 }

attempts-lock_example :
    attempts text_eq ((text "one", 50) ∷ (text "two", 60) ∷ []) admin
    ≡ record admin { lock_until = 60 + lock_window; fails = 0 }
unfolding text text_eq
attempts-lock_example =
    attempts-lock text_eq ((text "one", 50) ∷ []) (text "two") 60 admin ((refl, omega arith), tt)
      refl (omega arith) refl

abbrev home : Request
home = record {
  path = text "/jobs";
  method = text "POST";
  cookie = some made;
  host = text "site:8080";
  origin = text "http://Site:8080";
}

-- What stands after the two slashes.
abbrev after_scheme : Text → Option Text
after_scheme s = elim (has_prefix (text "http://") s) [
  | true ↦ some (text "Site:8080")
  | false ↦ none
]
