-- ===== src/Config/Validate.antt =====
-- `Validate` of internal/config/validate.go. Each part of its body returns the errors that it adds,
-- in order; the function appends them.
pub mod Rules
pub mod Sections
pub mod Sound
use autodeploy_web.Base.Trim.{trim_space}
use autodeploy_web.Base.Decimal.{format_nat}
use autodeploy_web.Base.{
  ℕ, suc, ◌+◌, Bool, true, false, List, [], ◌∷◌, ◌++◌, Text, text, text_eq, ◌==◌, ltb,
  if◌then◌else◌, ◌&&◌, ◌||◌, not, is_empty, length, any, ℤ, pos, ltb_ℤ,
}
use autodeploy_web.Config.Schema.{Config}
use autodeploy_web.Config.Defaults.{appliance_types}
use autodeploy_web.Config.Regex.{matches}
use autodeploy_web.Config.Patterns.{hostname_re, base32_re, guid_re}
use autodeploy_web.Config.Password.{check_veeam_password}
use autodeploy_web.Config.Address.{is_ipv4, is_ipv4_mask}

pub record ValidationError : Type 0 where
  pub field : Text
  pub message : Text

-- `if bad { add(field, message) }`.
unfoldable pub check : Bool → Text → Text → List ValidationError
check bad field message = if bad then record { field = field; message = message } ∷ [] else []

unfoldable pub contains : List Text → Text → Bool
contains haystack needle = any (λ h. text_eq h needle) haystack

unfoldable pub appliance_rules : Config → List ValidationError
appliance_rules c =
    check (not (contains appliance_types c.appliance_type)) (text "ApplianceType")
      (text "must be one of VSA, VIA, VIAiscsi, VIAHR")
    ++ check (is_empty c.source_iso) (text "SourceISO") (text "required")
    ++ check (ltb_ℤ c.grub_timeout (pos 0) || ltb_ℤ (pos 300) c.grub_timeout) (text "GrubTimeout")
        (text "must be between 0 and 300 seconds")

unfoldable pub regional_rules : Config → List ValidationError
regional_rules c =
    (if is_empty c.hostname || ltb 15 (length c.hostname)
      then check true (text "Hostname") (text "1–15 characters (Windows domain compatibility)")
      else check (not (matches hostname_re c.hostname)) (text "Hostname")
          (text "alphanumeric and hyphen only, cannot start/end with hyphen"))
    ++ check (is_empty c.keyboard_layout) (text "KeyboardLayout") (text "required")
    ++ check (is_empty c.timezone) (text "Timezone") (text "required")

unfoldable pub dns_rules : ℕ → List Text → List ValidationError
dns_rules i [] = []
dns_rules i (d ∷ ds) =
    check (not (is_ipv4 d)) (text "DNSServers[" ++ format_nat i ++ text "]")
      (text "invalid IPv4 address: " ++ d)
    ++ dns_rules (suc i) ds

unfoldable pub no_dns_rule : List Text → List ValidationError
no_dns_rule [] = check true (text "DNSServers") (text "at least one DNS server is required")
no_dns_rule (d ∷ ds) = dns_rules 0 (d ∷ ds)

unfoldable pub network_rules : Config → List ValidationError
network_rules c =
    if c.use_dhcp
    then []
    else check (not (is_ipv4 c.static_ip)) (text "StaticIP") (text "invalid IPv4 address")
      ++ check (not (is_ipv4_mask c.subnet)) (text "Subnet") (text "invalid IPv4 subnet mask")
      ++ check (not (is_ipv4 c.gateway)) (text "Gateway") (text "invalid IPv4 address")
      ++ no_dns_rule c.dns_servers

unfoldable pub password_rule : Text → Text → List ValidationError
password_rule field p = let err = check_veeam_password p in check (not (is_empty err)) field err

unfoldable pub account_rules : Config → List ValidationError
account_rules c =
    password_rule (text "VeeamAdminPassword") c.veeam_admin_password
    ++ password_rule (text "VeeamSoPassword") c.veeam_so_password
    ++ check (text_eq c.veeam_admin_password c.veeam_so_password) (text "VeeamSoPassword")
        (text "admin and SO passwords must differ")
    ++ check (c.veeam_admin_is_mfa_enabled && not (matches base32_re c.veeam_admin_mfa_secret_key))
        (text "VeeamAdminMfaSecretKey") (text "must be 16–32 base32 characters (A–Z, 2–7)")
    ++ check (c.veeam_so_is_mfa_enabled && not (matches base32_re c.veeam_so_mfa_secret_key))
        (text "VeeamSoMfaSecretKey") (text "must be 16–32 base32 characters (A–Z, 2–7)")
    ++ check
        (not (is_empty c.veeam_so_recovery_token)
          && not (matches guid_re c.veeam_so_recovery_token))
        (text "VeeamSoRecoveryToken") (text "must be a GUID (hex 8-4-4-4-12)")

abbrev no_items : List Text → Bool
no_items [] = true
no_items (_ ∷ _) = false

unfoldable pub ntp_rules : Config → List ValidationError
ntp_rules c =
    check (no_items c.ntp_server) (text "NtpServer") (text "at least one NTP server is required")

-- `i` counts from 0 and the message from 1.
unfoldable pub hosts_rules : ℕ → List Text → List ValidationError
hosts_rules i [] = []
hosts_rules i (e ∷ es) =
    check (any (λ b. b == 13 || b == 10) e) (text "HostsEntries") (
      text "entry "
      ++ format_nat (i + 1)
      ++ text " contains a line break; each entry must be a single /etc/hosts line")
    ++ check (text_eq (trim_space e) (text "EOF")) (text "HostsEntries") (
        text "entry "
        ++ format_nat (i + 1)
        ++ text
            " is \"EOF\", the heredoc terminator used to write /etc/hosts; it would truncate the block")
    ++ hosts_rules (suc i) es

unfoldable pub timeout_rules : Config → List ValidationError
timeout_rules c =
    check
      (ltb_ℤ c.external_managers_installation_timeout (pos 60)
        || ltb_ℤ (pos 86400) c.external_managers_installation_timeout)
      (text "ExternalManagersInstallationTimeout") (text "must be between 60 and 86400 seconds")
    ++ check
        (ltb_ℤ c.high_availability_timeout (pos 60)
          || ltb_ℤ (pos 86400) c.high_availability_timeout)
        (text "HighAvailabilityTimeout") (text "must be between 60 and 86400 seconds")

unfoldable pub role_rules : Config → List ValidationError
role_rules c =
    (if not (text_eq c.appliance_type (text "VSA"))
      then check c.node_exporter (text "NodeExporter")
          (text "VSA-only feature; the PS1 will throw on " ++ c.appliance_type)
        ++ check c.vcsp_connection (text "VCSPConnection") (text "VSA-only feature")
        ++ check c.license_vbr_tune (text "LicenseVBRTune") (text "VSA-only feature")
      else [])
    ++ check (c.node_exporter_tls_enabled && not c.node_exporter) (text "NodeExporterTLSEnabled")
        (text "only effective when NodeExporter=true")
    ++ check (c.via_single_disk && text_eq c.appliance_type (text "VSA")) (text "VIASingleDisk")
        (text "VIA-only flag; the PS1 will throw on VSA")

unfoldable pub option_rules : Config → List ValidationError
option_rules c =
    (if c.vcsp_connection
      then check (is_empty c.vcsp_url) (text "VCSPUrl") (text "required when VCSPConnection=true")
        ++ check (is_empty c.vcsp_login) (text "VCSPLogin")
            (text "required when VCSPConnection=true")
        ++ check (is_empty c.vcsp_password) (text "VCSPPassword")
            (text "required when VCSPConnection=true")
      else [])
    ++ check (c.license_vbr_tune && is_empty c.license_file) (text "LicenseFile")
        (text "required when LicenseVBRTune=true")
    ++ check (c.restore_config && is_empty c.config_password_so) (text "ConfigPasswordSo")
        (text "required when RestoreConfig=true")

unfoldable pub validate : Config → List ValidationError
validate c =
    appliance_rules c
    ++ regional_rules c
    ++ network_rules c
    ++ account_rules c
    ++ ntp_rules c
    ++ hosts_rules 0 c.hosts_entries
    ++ timeout_rules c
    ++ role_rules c
    ++ option_rules c
