-- ===== src/Form.antt =====
-- internal/server/form_decode.go, `configFromForm`. A form is the list of its pairs, as net/http
-- has parsed them.
pub mod Entries
pub mod Guards
use autodeploy_web.Base.Trim.{trim_space}
use autodeploy_web.Base.Decimal.{parse_int}
use autodeploy_web.Base.{
  ℕ, Bool, List, [], ◌∷◌, Option, none, some, Text, text, text_eq, ◌==◌, ltb, leb, ◌+◌, ◌&&◌, ◌||◌,
  not, if◌then◌else◌, is_empty, keep_if, map, ℤ,
}
use autodeploy_web.Config.Schema.{Config}
use autodeploy_web.Config.Defaults.{defaults}

abbrev pub Form : Type 0
Form = List (Text × Text)

-- `r.FormValue(k)`: the first value, or nothing.
unfoldable pub form_value : Form → Text → Text
form_value [] k = []
form_value ((k', v) ∷ f) k = if text_eq k' k then v else form_value f k

unfoldable pub get : Form → Text → Text
get f k = trim_space (form_value f k)

-- `strings.ToLower` as far as a test against ASCII words sees it: no letter outside ASCII has a
-- lower case in the words of `get_bool`.
unfoldable pub to_lower : Text → Text
to_lower s = map (λ c. if leb b'A' c && leb c b'Z' then c + 32 else c) s

unfoldable pub get_bool : Form → Text → Bool
get_bool f k =
    let v = to_lower (form_value f k) in
    text_eq v (text "on")
    || text_eq v (text "true")
    || text_eq v (text "1")
    || text_eq v (text "yes")

int_or : Option ℤ → ℤ → ℤ
int_or none d = d
int_or (some n) d = n

unfoldable pub get_int : Form → Text → ℤ → ℤ
unfolding int_or
get_int f k d = let v = form_value f k in if is_empty v then d else int_or (parse_int v) d

-- The part that a byte is read into, in front of the parts after it.
unfoldable pub onto_first : ℕ → List Text → List Text
onto_first c [] = (c ∷ []) ∷ []
onto_first c (p ∷ ps) = (c ∷ p) ∷ ps

-- `strings.Split(s, ",")`.
unfoldable pub split_commas : Text → List Text
split_commas [] = [] ∷ []
split_commas (c ∷ s) =
    let rest = split_commas s in if c == b',' then [] ∷ rest else onto_first c rest

-- The two calls of `strings.ReplaceAll`.
unfoldable pub one_line : Text → Text
one_line s = map (λ c. if c == 10 then b',' else c) (keep_if (λ c. not (c == 13)) s)

unfoldable pub get_array : Form → Text → List Text
get_array f k =
    keep_if (λ p. not (is_empty p)) (map trim_space (split_commas (one_line (form_value f k))))

-- `if v := get(k); v != "" { ... }`.
unfoldable pub get_or : Form → Text → Text → Text
get_or f k old = let v = get f k in if is_empty v then old else v

-- The fields that are read whatever the appliance.
unfoldable pub common_fields : Form → Config
common_fields f = record defaults {
  source_iso = get f (text "SourceISO");
  output_iso = get f (text "OutputISO");
  appliance_type = get_or f (text "ApplianceType") defaults.appliance_type;
  in_place = get_bool f (text "InPlace");
  create_backup = get_bool f (text "CreateBackup");
  cleanup_cfg_files = get_bool f (text "CleanupCFGFiles");
  cfg_only = get_bool f (text "CFGOnly");
  grub_timeout = get_int f (text "GrubTimeout") defaults.grub_timeout;
  keyboard_layout = get_or f (text "KeyboardLayout") defaults.keyboard_layout;
  timezone = get_or f (text "Timezone") defaults.timezone;
  hostname = get_or f (text "Hostname") defaults.hostname;
  use_dhcp = get_bool f (text "UseDHCP");
  static_ip = get f (text "StaticIP");
  subnet = get f (text "Subnet");
  gateway = get f (text "Gateway");
  dns_servers = get_array f (text "DNSServers");
  hosts_entries = get_array f (text "HostsEntries");
  veeam_admin_password = get f (text "VeeamAdminPassword");
  veeam_admin_mfa_secret_key = get f (text "VeeamAdminMfaSecretKey");
  veeam_admin_is_mfa_enabled = get_bool f (text "VeeamAdminIsMfaEnabled");
  veeam_so_password = get f (text "VeeamSoPassword");
  veeam_so_mfa_secret_key = get f (text "VeeamSoMfaSecretKey");
  veeam_so_is_mfa_enabled = get_bool f (text "VeeamSoIsMfaEnabled");
  veeam_so_recovery_token = get f (text "VeeamSoRecoveryToken");
  veeam_so_is_enabled = get_bool f (text "VeeamSoIsEnabled");
  ntp_server = get_array f (text "NtpServer");
  ntp_run_sync = get_bool f (text "NtpRunSync");
}

-- The block under `ApplianceType == "VSA"`.
unfoldable pub vsa_fields : Form → Config → Config
vsa_fields f c = record c {
  external_managers_installation_enabled = get_bool f (text "ExternalManagersInstallationEnabled");
  external_managers_installation_timeout =
      get_int f (text "ExternalManagersInstallationTimeout")
        c.external_managers_installation_timeout;
  high_availability_enabled = get_bool f (text "HighAvailabilityEnabled");
  high_availability_timeout =
      get_int f (text "HighAvailabilityTimeout") c.high_availability_timeout;
  node_exporter = get_bool f (text "NodeExporter");
  node_exporter_tls_enabled = get_bool f (text "NodeExporterTLSEnabled");
  license_vbr_tune = get_bool f (text "LicenseVBRTune");
  license_file = get f (text "LicenseFile");
  syslog_server = get f (text "SyslogServer");
  vcsp_connection = get_bool f (text "VCSPConnection");
  vcsp_url = get f (text "VCSPUrl");
  vcsp_login = get f (text "VCSPLogin");
  vcsp_password = get f (text "VCSPPassword");
  restore_config = get_bool f (text "RestoreConfig");
  config_password_so = get f (text "ConfigPasswordSo");
}

unfoldable pub via_fields : Form → Config → Config
via_fields f c = record c { via_single_disk = get_bool f (text "VIASingleDisk") }

unfoldable pub config_from_form : Form → Config
config_from_form f =
    let c = common_fields f in
    let own = if text_eq c.appliance_type (text "VSA") then vsa_fields f c else via_fields f c in
    record own { debug = get_bool f (text "Debug") }
