-- ===== src/Veeam.antt =====
-- The client of the appliance's REST service (internal/veeam/veeam.go): its requests, the sign-in
-- and the renewal of the token. The service, the other goroutines that use the client and the
-- decoders of encoding/json are outside: they answer from the requests sent before, newest first.
pub mod Attempts
pub mod Calls
pub mod Redirect
pub mod Sessions
pub mod Operations
pub mod License
use autodeploy_web.Base.{
  ℕ, zero, suc, Bool, true, false, not, List, [], ◌∷◌, ◌++◌, Option, none, some, Text, text, ℤ,
  is_empty, text_eq, ◌==◌, ◌/◌, ◌^◌, ◌*◌, if◌then◌else◌, ◌&&◌,
}
use autodeploy_web.Base.Decimal.{format_nat}
use autodeploy_web.Base.Trim.{trim_space}

mutual
  pub data Json : Type 0 where
    null : Json
    boolean : Bool → Json
    number : ℤ → Json
    string : Text → Json
    array : Items → Json
    object : Fields → Json

  pub data Items : Type 0 where
    last : Items
    item : Json → Items → Items

  -- A `map[string]any`: its keys are distinct.
  pub data Fields : Type 0 where
    end : Fields
    field : (key : Text) → Json → Fields → Fields

-- The configuration of the connection.
pub record Config : Type 0 where
  pub base_url : Text
  pub username : Text
  pub password : Text
  pub insecure : Bool
  pub api_version : Text

-- What a request carries: JSON that the client builds, the form of the sign-in, or raw bytes.
pub data Body : Type 0 where
  no_body : Body
  json : Json → Body
  sign_in : (username password : Text) → Body
  raw_bytes : Text → Body

pub record Request : Type 0 where
  pub method : Text
  pub url : Text
  pub token : Text
  pub api_version : Text
  pub body : Body

-- An answer of the service; `broken` is the error that ends its body early.
pub record Response : Type 0 where
  pub status : ℕ
  pub body : Text
  pub broken : Option Text

pub data Answer (A : Type 0) : Type 0 where
  ok : A → Answer A
  err : Text → Answer A

-- A decoder into the type of `out`.
abbrev pub Decoder : Type 0 → Type 0
Decoder A = Response → Answer A

pub record Outside : Type 0 where
  -- The error of `http.NewRequest` at an address.
  pub new_request : Text → Option Text
  pub reply : List Request → Answer Response
  -- The token that other goroutines have left when `reauthMu` is taken.
  pub stored : List Request → Text → Text
  pub decode_token : Decoder Text
  -- The field `message` of a body, empty when it does not decode.
  pub decode_message : Text → Text

pub record Client : Type 0 where
  pub token : Text
  pub sent : List Request

abbrev pub Result : Type 0 → Type 0
Result A = Answer A × Client

-- `New`.
unfoldable pub new : Config → Config
new cfg = if is_empty cfg.api_version then record cfg { api_version = text "1.3-rev2" } else cfg

unfoldable pub first_bytes : ℕ → Text → Text
first_bytes zero s = []
first_bytes (suc n) [] = []
first_bytes (suc n) (c ∷ s) = c ∷ first_bytes n s

-- `strings.TrimRight(s, "/")`.
unfoldable pub trim_slashes : Text → Text
trim_slashes [] = []
trim_slashes (c ∷ s) =
    let rest = trim_slashes s in if c == 47 && is_empty rest then [] else c ∷ rest

-- `Client.url`.
unfoldable pub url : Config → Text → Text
url cfg path = trim_slashes cfg.base_url ++ path

unfoldable pub is_success : Response → Bool
is_success r = r.status / 100 == 2

unfoldable pub and_then : {A B : Type 0} → Result A → (A → Client → Result B) → Result B
and_then (ok a, c) k = k a c
and_then (err e, c) k = (err e, c)

unfoldable pub prefixed : {A : Type 0} → Text → Result A → Result A
prefixed p (ok a, c) = (ok a, c)
prefixed p (err e, c) = (err (p ++ e), c)

module _ (cfg : Config) (world : Outside) where
  -- `apiError`.
  unfoldable pub api_error : Text → Text → Response → Text
  api_error method path r =
      let b = first_bytes (4 * 2 ^ 10) r.body in
      let message = world.decode_message b in
      let detail = if is_empty message then trim_space b else message in
      text "veeam: HTTP "
      ++ format_nat r.status
      ++ text " "
      ++ method
      ++ text " "
      ++ path
      ++ text ": "
      ++ detail

  -- `http.NewRequest` and `http.Do`.
  unfoldable pub send : Request → Client → Result Response
  send q c = elim (world.new_request q.url) [
    | some e ↦ (err e, c)
    | none ↦ (world.reply (q ∷ c.sent), record c { sent = q ∷ c.sent })
  ]

  unfoldable pub token_request : Request
  unfolding url
  token_request = record {
    method = text "POST";
    url = url cfg (text "/api/oauth2/token");
    token = [];
    api_version = cfg.api_version;
    body = sign_in cfg.username cfg.password;
  }

  -- `Authenticate` after the answer of the service.
  unfoldable pub accept_token : Response → Client → Result (Unit {0})
  unfolding is_success api_error
  accept_token r c =
      if not (is_success r)
      then (err (api_error (text "POST") token_request.url r), c)
      else elim (world.decode_token r) [
        | err e ↦ (err e, c)
        | ok t ↦
            if is_empty t
            then (err (text "veeam: empty access_token"), c)
            else (ok tt, record c { token = t })
      ]

  -- `Authenticate`.
  unfoldable pub authenticate : Client → Result (Unit {0})
  authenticate c = and_then (send token_request c) accept_token

  -- `reauthenticate`: another goroutine may have renewed the token by then.
  unfoldable pub reauthenticate : Text → Client → Result (Unit {0})
  reauthenticate stale c =
      let now = record c { token = world.stored c.sent c.token } in
      elim (text_eq now.token stale) [ true ↦ authenticate now | false ↦ (ok tt, now) ]

  abbrev pub request : Text → Text → Body → Client → Request
  request method path body c = record {
    method = method;
    url = url cfg path;
    token = c.token;
    api_version = cfg.api_version;
    body = body;
  }

  -- Whether the token is renewed, by the answer.
  unfoldable pub asks_token : Response → Bool
  asks_token r = r.status == 401 && not (is_empty cfg.username)

  -- The common part of `doOnce` and `rawOnce`, with what they make of an answer; a renewal is allowed
  -- as often as the number says.
  unfoldable pub exchange :
      {A : Type 0} → ℕ → Text → Text → Body → (Response → Answer A) → Client → Result A
  exchange zero method path body handle c =
      and_then (send (request method path body c) c) (λ r c'. (handle r, c'))
  exchange (suc n) method path body handle c =
      and_then (send (request method path body c) c) (λ r c'. elim (asks_token r) [
        | true ↦
            and_then
              (prefixed (text "veeam: re-authenticate after 401: ") (reauthenticate c.token c'))
              (λ _ c''. exchange n method path body handle c'')
        | false ↦ (handle r, c')
      ])

  -- `doOnce` after the renewal.
  unfoldable pub decoded : {A : Type 0} → Text → Text → Decoder A → Response → Answer A
  decoded method path decode r = if is_success r then decode r else err (api_error method path r)

  -- `do`. Where `out` is nil the decoder takes every answer.
  unfoldable pub do_request : {A : Type 0} → Text → Text → Body → Decoder A → Client → Result A
  do_request method path body decode = exchange 1 method path body (decoded method path decode)

  -- `rawOnce` after the renewal: the status and at most 8 MiB of the body (the status beside an error is
  -- left out).
  unfoldable pub raw_answer : Response → Answer (ℕ × Text)
  raw_answer r = elim r.broken [
    | some e ↦ err e
    | none ↦ ok (r.status, first_bytes (8 * 2 ^ 20) r.body)
  ]

  -- `Raw`.
  unfoldable pub raw : Text → Text → Text → Client → Result (ℕ × Text)
  raw method path body =
      exchange 1 method path (if is_empty body then no_body else raw_bytes body) raw_answer
