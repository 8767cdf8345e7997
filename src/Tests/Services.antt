-- ===== src/Tests/Services.antt =====
-- The REST client at a small service.
use autodeploy_web.Base.{
  ℕ, suc, ◌+◌, ◌*◌, [], none, some, Text, text, ◌≡◌, refl, length, true, false, ◌==◌, text_eq,
}
use autodeploy_web.Veeam.{
  Config, no_body, Response, ok, err, Answer, Outside, Client, exchange, and_then, send, prefixed,
  reauthenticate, authenticate, accept_token, asks_token, token_request, is_success, url,
  trim_slashes, decoded, field, end, string, object, boolean, Fields,
}
use autodeploy_web.Veeam.Calls.{
  Library, redirected, as_text, get_field, set_field, without_snmp, backup_repository_id,
  notifications, snmp_enabled,
}
use autodeploy_web.Veeam.Attempts.{Attempts}
use autodeploy_web.Veeam.Redirect.{Redirected, redirected-Redirected}
use autodeploy_web.Veeam.Sessions.{wait_session}
use autodeploy_web.Veeam.Sessions.Finished.{Waited, wait_session-Waited}

abbrev config : Config
config = record {
  base_url = text "https://vsa:9419/";
  username = text "veeamadmin";
  password = text "secret";
  insecure = true;
  api_version = text "1.3-rev2";
}

abbrev answer_of : ℕ → Text → Answer Response
answer_of status body = ok (record { status = status; body = body; broken = none })

-- The first request is rejected for its token, the second is the sign-in.
abbrev outside : Outside
outside = record {
  new_request = λ _. none;
  reply = λ sent. elim (length sent == 1) [
    | true ↦ answer_of 401 []
    | false ↦ answer_of 200 (text "fresh")
  ];
  stored = λ _ t. t;
  decode_token = λ r. ok r.body;
  decode_message = λ _. [];
}

abbrev library : Library
library = record {
  decode_id = λ r. ok r.body;
  decode_session = λ r. ok (record { state = text "Stopped"; result = text "Success" });
  decode_servers = λ _. ok [];
  decode_proxies = λ _. ok [];
  decode_backups = λ _. ok [];
  decode_certificate = λ _. err (text "unexpected end of JSON input");
  decode_license = λ _. err (text "unexpected end of JSON input");
  decode_settings = λ _. ok end;
  path_escape = λ s. s;
  query_escape = λ s. s;
  sha256_of_base64 = λ s. ok s;
  encode_base64 = λ s. s;
  decode_base64 = λ s. some s;
  decode_raw_base64 = λ s. some s;
}

abbrev client : Client
client = record { token = text "stale"; sent = [] }

-- The run: the request, the sign-in and the request again, with the token of the sign-in.
exchange_three :
    length
      (exchange config outside 1
        (text "GET")
        (text "/api/v1/license")
        no_body
        (decoded config outside (text "GET") (text "/api/v1/license") library.decode_id)
        client).1.sent
    ≡ 3
unfolding exchange and_then send prefixed reauthenticate authenticate accept_token asks_token
    token_request decoded is_success url trim_slashes text text_eq
exchange_three = refl

wait_session-Waited_example :
    Waited config outside library
      (length client.sent + 3 * suc 2)
      (wait_session config outside library (λ _. none) (text "15m0s") (text "s1") 2 client)
wait_session-Waited_example =
    wait_session-Waited config outside library (λ _. none) (text "15m0s") (text "s1") 2 client

abbrev settings : Fields
settings =
    field (text "notifications") (object (field (text "SNMPEnabled") (boolean true) end))
      (field (text "backupRepositoryId") (string (text "default")) end)

abbrev put : Fields
put =
    field (text "notifications") (object (field (text "SNMPEnabled") (boolean false) end))
      (field (text "backupRepositoryId") (string (text "hardened")) end)

redirected-Redirected_example : Redirected (text "hardened") settings put
unfolding redirected text text_eq as_text get_field set_field without_snmp backup_repository_id
    notifications snmp_enabled
redirected-Redirected_example = redirected-Redirected (text "hardened") settings put refl
