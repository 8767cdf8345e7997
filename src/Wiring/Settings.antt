-- ===== src/Wiring/Settings.antt =====
-- `Config`, its defaults (`New`) and what the wiring reads of a node.
use autodeploy_web.Base.{
  Bool, List, [], ◌∷◌, ◌++◌, Option, Text, text, is_empty, ◌==◌, leb, ltb, ◌&&◌, ◌||◌,
  if◌then◌else◌, has_prefix, ℤ, pos, ltb_ℤ, not, ◌+◌, ◌-◌, ◌/◌, ◌%◌, ℕ, zero, suc,
}
use autodeploy_web.Deploy.Run.{NodeDeploy}

pub record TargetVbr : Type 0 where
  pub address : Text
  pub port : ℤ
  pub username : Text
  pub password : Text
  pub insecure : Bool

pub record S3Config : Type 0 where
  pub name : Text
  pub compatible : Bool
  pub service_point : Text
  pub region : Text
  pub bucket : Text
  pub folder : Text
  pub access_key : Text
  pub secret_key : Text
  pub immutable_days : ℤ
  pub mount_server_node : Text
  pub overwrite_owner : Bool

-- A duration is in nanoseconds.
pub record Settings : Type 0 where
  pub username : Text
  pub password : Text
  pub insecure : Bool
  pub cluster_dns_name : Text
  pub cluster_endpoint : Text
  pub repo_path : Text
  pub immutable_days : ℤ
  pub session_timeout : ℤ
  pub license_path : Text
  pub target_vbr : TargetVbr
  pub node_exporter : Bool
  pub node_exporter_tls : Bool
  pub node_exporter_user : Text
  pub node_exporter_pass : Text
  pub syslog_server : Text
  pub syslog_port : ℤ
  pub syslog_protocol : Text
  pub s3 : Option S3Config

unfoldable pub default_pairing_code : Text
default_pairing_code = text "000000"

-- `if v == "" { v = d }`.
unfoldable pub text_or : Text → Text → Text
text_or v d = if is_empty v then d else v

-- `if v <= 0 { v = d }`.
unfoldable pub positive_or : ℤ → ℤ → ℤ
positive_or v d = if ltb_ℤ (pos 0) v then v else d

unfoldable pub new : Settings → Settings
new cfg = record cfg {
  username = text_or cfg.username (text "veeamadmin");
  repo_path = text_or cfg.repo_path (text "/var/lib/veeam/backups");
  immutable_days = positive_or cfg.immutable_days (pos 7);
  session_timeout = positive_or cfg.session_timeout (pos 900_000_000_000);
}

-- `strings.Contains(s, p)`, with the part first.
unfoldable pub has_part : Text → Text → Bool
has_part p [] = is_empty p
has_part p (c ∷ s) = has_prefix p (c ∷ s) || has_part p s

unfoldable pub is_vsa : Text → Bool
is_vsa role = has_prefix (text "VSA") role

unfoldable pub is_hr : Text → Bool
is_hr role = has_part (text "HR") role

unfoldable pub is_proxy : Text → Bool
is_proxy role = has_part (text "Proxy") role

unfoldable pub pairing : NodeDeploy → Text
pairing n = text_or n.pairing_code default_pairing_code

hex_digit : ℕ → ℕ
hex_digit d = if ltb d 10 then b'0' + d else b'a' + (d - 10)

escaped : ℕ → Text
unfolding hex_digit
escaped c =
    if c == b'"' || c == 92
    then 92 ∷ c ∷ []
    else if leb 32 c && not (c == 127)
    then c ∷ []
    else if leb 7 c && leb c 13
    then 92 ∷ get_or_zero (b'a' ∷ b'b' ∷ b't' ∷ b'n' ∷ b'v' ∷ b'f' ∷ b'r' ∷ []) (c - 7) ∷ []
    else 92 ∷ b'x' ∷ hex_digit (c / 16) ∷ hex_digit (c % 16) ∷ []
  where
    get_or_zero : List ℕ → ℕ → ℕ
    get_or_zero [] i = 0
    get_or_zero (x ∷ xs) zero = x
    get_or_zero (x ∷ xs) (suc i) = get_or_zero xs i

-- The verb %q, for ASCII; a byte above is kept, as Go does for a printable character.
unfoldable pub quoted : Text → Text
unfolding escaped
quoted s = b'"' ∷ go s
  where
    go : Text → Text
    go [] = b'"' ∷ []
    go (c ∷ r) = escaped c ++ go r
