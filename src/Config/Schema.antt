-- ===== src/Config/Schema.antt =====
-- internal/config/schema.go. `int` fields are integers; a string array is a list, since no code
-- reads whether it is nil or empty.
use autodeploy_web.Base.{
  ℕ, Bool, true, false, List, [], ◌∷◌, Option, none, some, Text, text, text_eq, ℤ, ◌≡◌, refl, ◌||◌,
  if◌then◌else◌, is_empty, ◌==◌, has_prefix, arith,
}

pub record Config : Type 0 where
  pub source_iso : Text
  pub output_iso : Text
  pub appliance_type : Text
  pub in_place : Bool
  pub create_backup : Bool
  pub cleanup_cfg_files : Bool
  pub cfg_only : Bool
  pub grub_timeout : ℤ
  pub keyboard_layout : Text
  pub timezone : Text
  pub hostname : Text
  pub use_dhcp : Bool
  pub static_ip : Text
  pub subnet : Text
  pub gateway : Text
  pub dns_servers : List Text
  pub hosts_entries : List Text
  pub veeam_admin_password : Text
  pub veeam_admin_mfa_secret_key : Text
  pub veeam_admin_is_mfa_enabled : Bool
  pub veeam_so_password : Text
  pub veeam_so_mfa_secret_key : Text
  pub veeam_so_is_mfa_enabled : Bool
  pub veeam_so_recovery_token : Text
  pub veeam_so_is_enabled : Bool
  pub ntp_server : List Text
  pub ntp_run_sync : Bool
  pub external_managers_installation_enabled : Bool
  pub external_managers_installation_timeout : ℤ
  pub high_availability_enabled : Bool
  pub high_availability_timeout : ℤ
  pub node_exporter : Bool
  pub node_exporter_tls_enabled : Bool
  pub license_vbr_tune : Bool
  pub license_file : Text
  pub syslog_server : Text
  pub vcsp_connection : Bool
  pub vcsp_url : Text
  pub vcsp_login : Text
  pub vcsp_password : Text
  pub restore_config : Bool
  pub config_password_so : Text
  pub via_single_disk : Bool
  pub debug : Bool

-- White space of JSON.
is_json_space : ℕ → Bool
is_json_space c = c == 32 || c == 9 || c == 10 || c == 13

drop_space : Text → Text
unfolding is_json_space
drop_space [] = []
drop_space (c ∷ s) = if is_json_space c then drop_space s else c ∷ s

reverse_onto : Text → Text → Text
reverse_onto [] acc = acc
reverse_onto (c ∷ s) acc = reverse_onto s (c ∷ acc)

trim_space : Text → Text
unfolding drop_space reverse_onto
trim_space s = reverse_onto (drop_space (reverse_onto (drop_space s) [])) []

-- `json.Unmarshal` into a fresh bool: `null` leaves it false.
json_bool : Text → Option Bool
unfolding trim_space
json_bool b =
    let t = trim_space b in
    if text_eq t (text "true")
    then some true
    else if text_eq t (text "false") || text_eq t (text "null")
    then some false
    else none

-- `FlexBool.UnmarshalJSON`: the receiver's value before and the bytes; `none` is the error.
pub unmarshal_flex_bool : Bool → Text → Option Bool
unfolding json_bool
unmarshal_flex_bool f b =
    if is_empty b
    then some f
    else if text_eq b (text "true")
        || text_eq b (text "\"true\"")
        || text_eq b (text "\"True\"")
        || text_eq b (text "\"TRUE\"")
    then some true
    else if text_eq b (text "false")
        || text_eq b (text "\"false\"")
        || text_eq b (text "\"False\"")
        || text_eq b (text "\"FALSE\"")
        || text_eq b (text "null")
    then some false
    else json_bool b

pub marshal_flex_bool : Bool → Text
marshal_flex_bool f = if f then text "\"true\"" else text "\"false\""

-- Whatever a flexible boolean held before, it reads back the value that was written.
pub unmarshal-marshal_flex_bool :
    (old f : Bool) → unmarshal_flex_bool old (marshal_flex_bool f) ≡ some f
unfolding unmarshal_flex_bool marshal_flex_bool text text_eq
unmarshal-marshal_flex_bool old true = refl
unmarshal-marshal_flex_bool old false = refl

-- `FlexStringArray.UnmarshalJSON`, with `json.Unmarshal` into a list and into a string; `none` is the
-- error, and the first argument the receiver's value before.
pub unmarshal_flex_strings :
    (Text → Option (List Text)) → (Text → Option Text) → List Text → Text → Option (List Text)
unmarshal_flex_strings decode_list decode_one old b =
    if is_empty b || text_eq b (text "null")
    then some old
    else if has_prefix (text "[") b
    then decode_list b
    else elim (decode_one b) [
      | none ↦ none
      | some one ↦ some (if is_empty one then [] else one ∷ [])
    ]

-- `FlexStringArray.MarshalJSON`.
pub marshal_flex_strings : (List Text → Text) → List Text → Text
marshal_flex_strings encode_list [] = text "[]"
marshal_flex_strings encode_list (x ∷ xs) = encode_list (x ∷ xs)

-- Bytes that start with a bracket are read as a list.
pub unmarshal_flex_strings-list :
    (decode_list : Text → Option (List Text)) (decode_one : Text → Option Text) (old : List Text)
    (b : Text)
    → has_prefix (text "[") b ≡ true
    → unmarshal_flex_strings decode_list decode_one old b ≡ decode_list b
unfolding unmarshal_flex_strings text text_eq has_prefix
unmarshal_flex_strings-list dl d1 old [] h = absurd (ground arith)
unmarshal_flex_strings-list dl d1 old (c ∷ s) h = ground arith
