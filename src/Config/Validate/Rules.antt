-- ===== src/Config/Validate/Rules.antt =====
-- What each part of `Validate` accepts, described without its tests; the proofs are in
-- Sections.antt.
use autodeploy_web.Base.Trim.{trim_space}
use autodeploy_web.Base.{
  ◌≤◌, ◌≡◌, ◌≢◌, ◌⊎◌, true, false, [], Text, text, ◌==◌, ◌||◌, length, all, any, All, pos, ◌≤ℤ◌,
  map,
}
use autodeploy_web.Config.Schema.{Config}
use autodeploy_web.Config.Regex.{matches}
use autodeploy_web.Config.Patterns.{guid_re, is_base32}
use autodeploy_web.Config.Patterns.Hostname.{hostname_ok}
use autodeploy_web.Config.Password.{class_of}
use autodeploy_web.Config.Password.Runs.{no_four}
use autodeploy_web.Config.Address.{is_ipv4, is_ipv4_mask}

-- At least 15 bytes, of all four classes, and no four neighbours of one class.
pub record StrongPassword (p : Text) : Type 0 where
  pub long : 15 ≤ length p
  pub upper : any (λ b. class_of b == 1) p ≡ true
  pub lower : any (λ b. class_of b == 2) p ≡ true
  pub digit : any (λ b. class_of b == 3) p ≡ true
  pub symbol : any (λ b. class_of b == 4) p ≡ true
  pub varied : no_four (map class_of p) ≡ true

pub record Appliance (c : Config) : Type 0 where
  pub known :
      (c.appliance_type ≡ text "VSA")
      ⊎ ((c.appliance_type ≡ text "VIA")
          ⊎ ((c.appliance_type ≡ text "VIAiscsi") ⊎ (c.appliance_type ≡ text "VIAHR")))
  pub source : c.source_iso ≢ []
  pub grub : (pos 0 ≤ℤ c.grub_timeout) × (c.grub_timeout ≤ℤ pos 300)

pub record Regional (c : Config) : Type 0 where
  pub host : hostname_ok c.hostname ≡ true
  pub keyboard : c.keyboard_layout ≢ []
  pub zone : c.timezone ≢ []

pub record Static (c : Config) : Type 0 where
  pub address : is_ipv4 c.static_ip ≡ true
  pub mask : is_ipv4_mask c.subnet ≡ true
  pub router : is_ipv4 c.gateway ≡ true
  pub some_dns : c.dns_servers ≢ []
  pub each_dns : All (λ d. is_ipv4 d ≡ true) c.dns_servers

abbrev pub Network : Config → Type 0
Network c = c.use_dhcp ≡ false → Static c

abbrev pub Base32Key : Text → Type 0
Base32Key k = (all is_base32 k ≡ true) × (16 ≤ length k) × (length k ≤ 32)

pub record Accounts (c : Config) : Type 0 where
  pub admin : StrongPassword c.veeam_admin_password
  pub officer : StrongPassword c.veeam_so_password
  pub differ : c.veeam_admin_password ≢ c.veeam_so_password
  pub admin_key : c.veeam_admin_is_mfa_enabled ≡ true → Base32Key c.veeam_admin_mfa_secret_key
  pub officer_key : c.veeam_so_is_mfa_enabled ≡ true → Base32Key c.veeam_so_mfa_secret_key
  pub token : c.veeam_so_recovery_token ≢ [] → matches guid_re c.veeam_so_recovery_token ≡ true

-- A line of /etc/hosts has no line break and is not the heredoc's terminator.
abbrev pub HostsLine : Text → Type 0
HostsLine e = (any (λ b. b == 13 || b == 10) e ≡ false) × (trim_space e ≢ text "EOF")

pub record Timeouts (c : Config) : Type 0 where
  pub managers :
      (pos 60 ≤ℤ c.external_managers_installation_timeout)
      × (c.external_managers_installation_timeout ≤ℤ pos 86400)
  pub availability :
      (pos 60 ≤ℤ c.high_availability_timeout) × (c.high_availability_timeout ≤ℤ pos 86400)

pub record Roles (c : Config) : Type 0 where
  pub exporter : c.node_exporter ≡ true → c.appliance_type ≡ text "VSA"
  pub provider : c.vcsp_connection ≡ true → c.appliance_type ≡ text "VSA"
  pub tuning : c.license_vbr_tune ≡ true → c.appliance_type ≡ text "VSA"
  pub tls : c.node_exporter_tls_enabled ≡ true → c.node_exporter ≡ true
  pub single_disk : c.via_single_disk ≡ true → c.appliance_type ≢ text "VSA"

pub record Options (c : Config) : Type 0 where
  pub provider_set :
      c.vcsp_connection ≡ true → (c.vcsp_url ≢ []) × (c.vcsp_login ≢ []) × (c.vcsp_password ≢ [])
  pub license : c.license_vbr_tune ≡ true → c.license_file ≢ []
  pub restore : c.restore_config ≡ true → c.config_password_so ≢ []

-- What autodeploy.ps1 takes without an error of its own, as far as `Validate` looks.
pub record IsValid (c : Config) : Type 0 where
  pub appliance : Appliance c
  pub regional : Regional c
  pub network : Network c
  pub accounts : Accounts c
  pub time_servers : c.ntp_server ≢ []
  pub hosts : All HostsLine c.hosts_entries
  pub timeouts : Timeouts c
  pub roles : Roles c
  pub options : Options c
