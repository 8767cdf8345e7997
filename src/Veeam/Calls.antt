-- ===== src/Veeam/Calls.antt =====
-- The operations of the client on sessions, credentials, managed servers, proxies, repositories,
-- backups and the configuration backup (internal/veeam/veeam.go). Library has what they use of
-- encoding/json, net/url, encoding/base64 and crypto/sha256.
use autodeploy_web.Base.{
  true, false, not, List, [], ◌∷◌, ◌++◌, Option, none, some, Text, text, is_empty, text_eq,
  if◌then◌else◌, ◌||◌,
}
use autodeploy_web.Veeam.{
  Json, Fields, Items, last, item, boolean, string, array, object, end, field, Config, Body,
  no_body, json, Answer, ok, err, Decoder, Outside, Client, Result, and_then, prefixed, do_request,
}

-- The parts of the service's answers that are read.
pub record SessionModel : Type 0 where
  pub state : Text
  pub result : Text

pub record Backup : Type 0 where
  pub id : Text
  pub repository_id : Text
  pub backup_repository_id : Text

pub record Certificate : Type 0 where
  pub certificate : Text
  pub fingerprint : Text

-- An entry of a list: its id and what it is found by.
pub record Entry : Type 0 where
  pub id : Text
  pub name : Text

pub record InstalledLicense : Type 0 where
  pub status : Text
  pub type : Text
  pub edition : Text
  pub licensed_to : Text

pub record Library : Type 0 where
  pub decode_id : Decoder Text
  pub decode_session : Decoder SessionModel
  pub decode_servers : Decoder (List Entry)
  pub decode_proxies : Decoder (List Entry)
  pub decode_backups : Decoder (List Backup)
  pub decode_certificate : Decoder Certificate
  pub decode_license : Decoder InstalledLicense
  -- The configuration backup's settings, an object.
  pub decode_settings : Decoder Fields
  pub path_escape : Text → Text
  pub query_escape : Text → Text
  -- The upper-case hexadecimal SHA-256 of what a base64 text decodes to.
  pub sha256_of_base64 : Text → Answer Text
  pub encode_base64 : Text → Text
  pub decode_base64 : Text → Option Text
  pub decode_raw_base64 : Text → Option Text

-- A map literal.
unfoldable pub fields : List (Text × Json) → Fields
fields [] = end
fields (f ∷ fs) = field f.0 f.1 (fields fs)

abbrev pub entries : List (Text × Json) → Body
entries fs = json (object (fields fs))

-- The JSON array of texts.
unfoldable pub items : List Text → Items
items [] = last
items (x ∷ xs) = item (string x) (items xs)

-- `m[key] = v`.
unfoldable pub set_field : Text → Json → Fields → Fields
set_field k v end = field k v end
set_field k v (field l w fs) =
    let rest = set_field k v fs in if text_eq k l then field l v fs else field l w rest

unfoldable pub get_field : Text → Fields → Option Json
get_field k end = none
get_field k (field l w fs) = let rest = get_field k fs in if text_eq k l then some w else rest

-- `v.(string)`, empty when the value is no string.
unfoldable pub as_text : Option Json → Text
as_text (some (string s)) = s
as_text o = []

-- The decoder where `out` is nil.
unfoldable pub ignored : Decoder (Unit {0})
ignored r = ok tt

-- The loops that look for an exact name.
unfoldable pub id_named : Text → List Entry → Text
id_named name [] = []
id_named name (e ∷ es) = let rest = id_named name es in if text_eq e.name name then e.id else rest

-- The loop of `ListBackups`.
unfoldable pub stored_in : Text → List Backup → List Text
stored_in repo [] = []
stored_in repo (b ∷ bs) =
    let rest = stored_in repo bs in
    if text_eq b.repository_id repo || text_eq b.backup_repository_id repo
    then b.id ∷ rest
    else rest

unfoldable pub backup_repository_id : Text
backup_repository_id = text "backupRepositoryId"

unfoldable pub notifications : Text
notifications = text "notifications"

unfoldable pub snmp_enabled : Text
snmp_enabled = text "SNMPEnabled"

-- The notifications of the settings without SNMP, when they are an object.
unfoldable pub without_snmp : Option Json → Fields → Fields
unfolding notifications snmp_enabled
without_snmp (some (object n)) s =
    set_field notifications (object (set_field snmp_enabled (boolean false) n)) s
without_snmp o s = s

-- The settings that `RedirectConfigBackup` puts back, and nothing when they name the repository.
unfoldable pub redirected : Text → Fields → Option Fields
unfolding backup_repository_id without_snmp
redirected repo s =
    if text_eq (as_text (get_field backup_repository_id s)) repo
    then none
    else (let t = set_field backup_repository_id (string repo) s in
        some (without_snmp (get_field notifications t) t))

module _ (cfg : Config) (world : Outside) (lib : Library) where
  -- The requests that answer with an id.
  unfoldable pub id_from : Text → Text → Body → Client → Result Text
  id_from method path body = do_request cfg world method path body lib.decode_id

  -- `CreateCredentials`.
  unfoldable pub create_credentials : Text → Text → Text → Client → Result Text
  unfolding id_from
  create_credentials username password description =
      id_from (text "POST") (text "/api/v1/credentials") (
        entries (
          (text "type", string (text "Linux"))
          ∷ (text "username", string username)
          ∷ (text "password", string password)
          ∷ (text "description", string description)
          ∷ (text "authenticationType", string (text "Password"))
          ∷ []))

  -- The end of `ConnectionCertificate`: the certificate and the fingerprint.
  unfoldable pub pinned : Text → Certificate → Answer (Text × Text)
  pinned ip out =
      if not (is_empty out.certificate)
      then elim (lib.sha256_of_base64 out.certificate) [
        | err e ↦ err (text "veeam: decode certificate: " ++ e)
        | ok sum ↦ ok (out.certificate, sum)
      ]
      else if not (is_empty out.fingerprint)
      then ok ([], out.fingerprint)
      else err (text "veeam: no certificate/fingerprint for " ++ ip)

  -- `ConnectionCertificate`.
  unfoldable pub connection_certificate : Text → Text → Client → Result (Text × Text)
  unfolding pinned
  connection_certificate ip credentials_id c =
      let body = (text "serverName", string ip) ∷ (text "type", string (text "LinuxHost")) ∷ [] in
      let more =
        if is_empty credentials_id
        then []
        else (text "credentialsId", string credentials_id) ∷ [] in
      and_then
        (do_request cfg world (text "POST") (text "/api/v1/connectionCertificate")
          (entries (body ++ more)) lib.decode_certificate c)
        (λ out c'. (pinned ip out, c'))

  -- `AddLinuxHost` once the fingerprint is known.
  unfoldable pub pair_host : Text → Text → Text → Text → Client → Result Text
  unfolding id_from
  pair_host ip description code fingerprint =
      id_from (text "POST") (text "/api/v1/backupInfrastructure/managedServers") (
        entries (
          (text "type", string (text "LinuxHost"))
          ∷ (text "name", string ip)
          ∷ (text "description", string description)
          ∷ (text "credentialsStorageType", string (text "Certificate"))
          ∷ (text "handshakeCode", string code)
          ∷ (text "sshFingerprint", string fingerprint)
          ∷ []))

  -- `AddLinuxHost`.
  unfoldable pub add_linux_host : Text → Text → Text → Text → Client → Result Text
  unfolding connection_certificate pair_host
  add_linux_host ip description code fingerprint c = elim (is_empty fingerprint) [
    | false ↦ pair_host ip description code fingerprint c
    | true ↦
        and_then (connection_certificate ip [] c) (λ pin c'. pair_host ip description code pin.1 c')
  ]

  -- `FindManagedServerByName`.
  unfoldable pub find_managed_server_by_name : Text → Client → Result Text
  find_managed_server_by_name name c =
      and_then
        (do_request cfg world (text "GET")
          (text "/api/v1/backupInfrastructure/managedServers?nameFilter="
            ++ lib.query_escape name
            ++ text "&limit=10")
          no_body lib.decode_servers c)
        (λ out c'. (ok (id_named name out), c'))

  -- `FindRepositoryByName`.
  unfoldable pub find_repository_by_name : Text → Client → Result Text
  find_repository_by_name name c =
      and_then
        (do_request cfg world (text "GET")
          (text "/api/v1/backupInfrastructure/repositories?nameFilter="
            ++ lib.query_escape name
            ++ text "&limit=50")
          no_body lib.decode_servers c)
        (λ out c'. (ok (id_named name out), c'))

  -- `FindProxyByHost`.
  unfoldable pub find_proxy_by_host : Text → Client → Result Text
  find_proxy_by_host host_id c =
      and_then
        (do_request cfg world (text "GET") (text "/api/v1/backupInfrastructure/proxies?limit=200")
          no_body lib.decode_proxies c)
        (λ out c'. (ok (id_named host_id out), c'))

  -- `DeleteRepository`.
  unfoldable pub delete_repository : Text → Client → Result (Unit {0})
  delete_repository id =
      do_request cfg world (text "DELETE")
        (text "/api/v1/backupInfrastructure/repositories/" ++ lib.path_escape id) no_body ignored

  -- `RedirectConfigBackup`.
  unfoldable pub redirect_config_backup : Text → Client → Result (Unit {0})
  unfolding redirected
  redirect_config_backup repo c =
      and_then
        (do_request cfg world (text "GET") (text "/api/v1/configBackup") no_body lib.decode_settings
          c)
        (λ settings c'. elim (redirected repo settings) [
          | none ↦ (ok tt, c')
          | some t ↦
              do_request cfg world (text "PUT") (text "/api/v1/configBackup") (json (object t))
                ignored c'
        ])

  -- `ListBackups`.
  unfoldable pub list_backups : Text → Client → Result (List Text)
  list_backups repo c =
      and_then
        (do_request cfg world (text "GET") (text "/api/v1/backups?limit=1000") no_body
          lib.decode_backups c)
        (λ out c'. (ok (stored_in repo out), c'))

  -- `DeleteBackup`.
  unfoldable pub delete_backup : Text → Client → Result Text
  unfolding id_from
  delete_backup id =
      id_from (text "DELETE")
        (text "/api/v1/backups/" ++ lib.path_escape id ++ text "?includeGFS=true") no_body

  -- `UpdateHostComponents`.
  unfoldable pub update_host_components : List Text → Client → Result Text
  unfolding id_from items
  update_host_components ids c = prefixed (text "veeam: UpdateHostComponents: ") (
      id_from (text "POST") (text "/api/v1/backupInfrastructure/managedServers/updateComponents")
        (entries ((text "ids", array (items ids)) ∷ [])) c)
