-- ===== src/Auth/Gate.antt =====
-- Which requests pass the gate.
use autodeploy_web.Base.{ℕ, ◌≡◌, true, Option, some, Text, []}
use autodeploy_web.Auth.{AuthManager, is_configured, is_unsafe_method, Request, session_ok, folded}

-- No address of another site: no `Origin` header, or one whose host is that of the request, without
-- regard to the case of letters.
pub data FromHere (parse_host : Text → Option Text) (r : Request) : Type 0 where
  no_origin : r.origin ≡ [] → FromHere parse_host r
  same_host :
      (h : Text) → parse_host r.origin ≡ some h → folded h ≡ folded r.host → FromHere parse_host r

-- A request of a signed-in user, and of this site where it changes something.
pub record SignedIn (mac : Text → Text → Text) (parse_host : Text → Option Text) (m : AuthManager)
    (now : ℕ) (r : Request) : Type 0 where
  pub configured : is_configured m ≡ true
  pub session : session_ok mac m now r.cookie ≡ true
  pub own_site : is_unsafe_method r.method ≡ true → FromHere parse_host r
