-- ===== src/Auth.antt =====
-- Sign-in: the session and CSRF tokens of internal/auth/auth.go and the lockout, the password change
-- and the gate of internal/server/auth.go. A time is in nanoseconds since the Unix epoch. The
-- keyed hash (HMAC-SHA256 in base64) and bcrypt are parameters.
pub mod Sessions
pub mod Lockout
pub mod Gate
use mathlib.Core.Path.{◌≡◌}
use autodeploy_web.Base.{
  ℕ, zero, suc, ◌+◌, ◌-◌, ◌*◌, ◌/◌, Bool, true, false, not, List, [], ◌∷◌, ◌++◌, Option, none, some,
  Text, text, text_eq, is_empty, has_prefix, ltb, leb, ◌==◌, if◌then◌else◌, ◌&&◌, ◌||◌, length, ℤ,
  pos, negsuc, leb_ℤ,
}
use autodeploy_web.Base.Decimal.{format_nat, parse_int}

abbrev pub second : ℕ
second = 1000000000

-- 30 days.
abbrev pub session_max_age : ℕ
session_max_age = 2592000 * second

-- Five minutes.
abbrev pub skew : ℕ
skew = 300 * second

-- `strings.Cut(s, ".")`: what stands before the first dot, and after.
unfoldable pub cut_dot : Text → Option (Text × Text)
cut_dot [] = none
cut_dot (c ∷ s) =
    let rest = cut_dot s in
    if c == 46 then some ([], s) else elim rest [ none ↦ none | some (a, b) ↦ some (c ∷ a, b) ]

-- `now - issued` lies between -skew and the maximal age. An issue time is a number of seconds; one
-- that the clock cannot represent is outside either way.
unfoldable pub in_window : ℕ → ℤ → Bool
in_window now (pos issued) =
    leb (issued * second) (now + skew) && leb now (issued * second + session_max_age)
in_window now (negsuc n) = leb (now + suc n * second) session_max_age

module _ (mac : Text → Text → Text) where
  unfoldable pub new_session : Text → ℕ → Text
  new_session secret now =
      let payload = format_nat (now / second) in payload ++ (text "." ++ mac secret payload)

  -- `ValidSession`, once the token is cut.
  unfoldable pub valid_parts : Text → Text → Text → ℕ → Bool
  unfolding in_window
  valid_parts secret payload sig now =
      if is_empty payload || is_empty sig
      then false
      else if not (text_eq sig (mac secret payload))
      then false
      else elim (parse_int payload) [ none ↦ false | some issued ↦ in_window now issued ]

  unfoldable pub valid_session : Text → Text → ℕ → Bool
  unfolding cut_dot valid_parts
  valid_session secret token now = elim (cut_dot token) [
    | none ↦ false
    | some (payload, sig) ↦ valid_parts secret payload sig now
  ]

  unfoldable pub csrf_token : Text → Text → Text
  csrf_token secret session = if is_empty session then [] else mac secret (text "csrf|" ++ session)

  unfoldable pub valid_csrf : Text → Text → Text → Bool
  unfolding csrf_token
  valid_csrf secret session token =
      if is_empty session || is_empty token
      then false
      else text_eq (csrf_token secret session) token

-- `ValidatePassword`.
unfoldable pub validate_password : Text → Bool
validate_password pw = not (ltb (length pw) 8)

abbrev pub lock_threshold : ℕ
lock_threshold = 5

abbrev pub lock_window : ℕ
lock_window = 30 * second

-- A time of 0 is Go's zero time here.
pub record AuthManager : Type 0 where
  pub enabled : Bool
  pub hash : Text
  pub secret : Text
  pub fails : ℕ
  pub lock_until : ℕ

unfoldable pub is_configured : AuthManager → Bool
is_configured m = not (is_empty m.hash)

-- The first part of `checkLogin`, under the mutex: how long a locked manager makes the caller wait.
unfoldable pub locked_for : ℕ → AuthManager → Option ℕ
locked_for now m =
    if not (m.lock_until == 0) && ltb now m.lock_until then some (m.lock_until - now) else none

-- The second part, with the answer of the check and the clock, which it reads again.
unfoldable pub record_login : Bool → ℕ → AuthManager → AuthManager
record_login true now m = record m { fails = 0; lock_until = 0 }
record_login false now m =
    if leb lock_threshold (suc m.fails)
    then record m { lock_until = now + lock_window; fails = 0 }
    else record m { fails = suc m.fails }

module _ (check_password : Text → Text → Bool) where
  -- `checkLogin` of one caller alone, at one instant: the answer, the wait and the state.
  unfoldable pub check_login : Text → ℕ → AuthManager → Bool × ℕ × AuthManager
  unfolding locked_for record_login
  check_login pw now m = elim (locked_for now m) [
    | some wait ↦ (false, wait, m)
    | none ↦
        let ok = not (is_empty m.hash) && check_password m.hash pw in (ok, 0, record_login ok now m)
  ]

  unfoldable pub attempts : List (Text × ℕ) → AuthManager → AuthManager
  unfolding check_login
  attempts [] m = m
  attempts ((pw, now) ∷ rest) m = attempts rest (check_login pw now m).2

-- `setPassword`, with what bcrypt and the random source returned and whether the file was written.
unfoldable pub set_password :
    Text → Option Text → Option Text → Bool → AuthManager → Option AuthManager
set_password pw (some h) (some sec) saved m =
    if validate_password pw && saved
    then some (record m { hash = h; secret = sec; fails = 0; lock_until = 0 })
    else none
set_password pw _ _ saved m = none

unfoldable pub auth_public : Text → Bool
auth_public p =
    (text_eq p (text "/login")
      || text_eq p (text "/logout")
      || text_eq p (text "/setup")
      || text_eq p (text "/healthz"))
    || (has_prefix (text "/static/") p
        || has_prefix (text "/lang/") p
        || has_prefix (text "/ks/") p)

unfoldable pub is_unsafe_method : Text → Bool
is_unsafe_method m =
    text_eq m (text "POST")
    || text_eq m (text "PUT")
    || text_eq m (text "PATCH")
    || text_eq m (text "DELETE")

-- What `requireAuth` reads of a request; `origin` is the header of that name, empty
-- when there is none.
pub record Request : Type 0 where
  pub path : Text
  pub method : Text
  pub cookie : Option Text
  pub host : Text
  pub origin : Text

pub data Decision : Type 0 where
  serve to_setup to_login blocked : Decision

-- A text without the case of its ASCII letters.
unfoldable pub folded : Text → Text
folded [] = []
folded (c ∷ s) = (if leb 65 c && leb c 90 then c + 32 else c) ∷ folded s

-- `strings.EqualFold`, on ASCII.
unfoldable pub equal_fold : Text → Text → Bool
unfolding folded
equal_fold s t = text_eq (folded s) (folded t)

-- `sameOrigin`, with the host that `url.Parse` reads of an address, none for an error.
unfoldable pub same_origin : (Text → Option Text) → Request → Bool
unfolding equal_fold
same_origin parse_host r = elim (is_empty r.origin) [
  | true ↦ true
  | false ↦ elim (parse_host r.origin) [ none ↦ false | some h ↦ equal_fold h r.host ]
]

module _ (mac : Text → Text → Text) where
  unfoldable pub session_ok : AuthManager → ℕ → Option Text → Bool
  session_ok m now none = false
  session_ok m now (some c) = valid_session mac m.secret c now

  -- `requireAuth`; none for a server without an auth manager.
  unfoldable pub require_auth : (Text → Option Text) → Option AuthManager → ℕ → Request → Decision
  unfolding session_ok same_origin
  require_auth parse_host none now r = serve
  require_auth parse_host (some m) now r =
      if not m.enabled || auth_public r.path
      then serve
      else if not (is_configured m)
      then to_setup
      else if not (session_ok m now r.cookie)
      then to_login
      else if is_unsafe_method r.method && not (same_origin parse_host r)
      then blocked
      else serve
