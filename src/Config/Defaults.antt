-- ===== src/Config/Defaults.antt =====
-- internal/config/defaults.go, `Defaults` and `ApplianceTypes`.
use autodeploy_web.Base.{true, false, List, [], ◌∷◌, Text, text, pos}
use autodeploy_web.Config.Schema.{Config}

unfoldable pub defaults : Config
defaults = record {
  source_iso = text "";
  output_iso = text "";
  appliance_type = text "VSA";
  in_place = false;
  create_backup = true;
  cleanup_cfg_files = true;
  cfg_only = false;
  grub_timeout = pos 10;
  keyboard_layout = text "fr";
  timezone = text "Europe/Paris";
  hostname = text "veeam-server";
  use_dhcp = false;
  static_ip = text "192.168.1.100";
  subnet = text "255.255.255.0";
  gateway = text "192.168.1.1";
  dns_servers = text "192.168.1.1" ∷ text "8.8.8.8" ∷ [];
  hosts_entries = [];
  veeam_admin_password = text "Aa1!Bb2!Cc3!Dd4!";
  veeam_admin_mfa_secret_key = text "JBSWY3DPEHPK3PXP";
  veeam_admin_is_mfa_enabled = true;
  veeam_so_password = text "Ee5!Ff6!Gg7!Hh8!";
  veeam_so_mfa_secret_key = text "JBSWY3DPEHPK3PXP";
  veeam_so_is_mfa_enabled = true;
  veeam_so_recovery_token = text "12345678-90ab-cdef-1234-567890abcdef";
  veeam_so_is_enabled = true;
  ntp_server = text "time.nist.gov" ∷ [];
  ntp_run_sync = true;
  external_managers_installation_enabled = false;
  external_managers_installation_timeout = pos 3600;
  high_availability_enabled = false;
  high_availability_timeout = pos 3600;
  node_exporter = false;
  node_exporter_tls_enabled = false;
  license_vbr_tune = false;
  license_file = text "";
  syslog_server = text "";
  vcsp_connection = false;
  vcsp_url = text "";
  vcsp_login = text "";
  vcsp_password = text "";
  restore_config = false;
  config_password_so = text "";
  via_single_disk = false;
  debug = false;
}

unfoldable pub appliance_types : List Text
appliance_types = text "VSA" ∷ text "VIA" ∷ text "VIAiscsi" ∷ text "VIAHR" ∷ []
