-- ===== src/Config/Validate/Sections.antt =====
-- Each part of `Validate` adds no error exactly when its part of the description holds.
use mathlib.Core.List.{cons-ne-nil}
use autodeploy_web.Base.Trim.{trim_space}
use autodeploy_web.Base.{
  ℕ, suc, ◌≡◌, ◌≢◌, ◌↔◌, refl, Bool, true, false, List, [], ◌∷◌, ◌++◌, Text, text, text_eq,
  text_eq_iff, ◌&&◌, not, is_empty, is_empty_iff, All, arith,
}
use autodeploy_web.Config.Schema.{Config}
use autodeploy_web.Config.Defaults.{appliance_types}
use autodeploy_web.Config.Regex.{matches}
use autodeploy_web.Config.Patterns.{base32_re, guid_re}
use autodeploy_web.Config.Patterns.Hostname.{matches-hostname_ok}
use autodeploy_web.Config.Patterns.Counted.{matches-base32}
use autodeploy_web.Config.Password.{check_veeam_password}
use autodeploy_web.Config.Password.Runs.{max_run-no_four}
use autodeploy_web.Config.Address.{is_ipv4}
use autodeploy_web.Config.Validate.{
  ValidationError, check, contains, appliance_rules, regional_rules, dns_rules, no_dns_rule,
  network_rules, password_rule, account_rules, ntp_rules, hosts_rules, timeout_rules, role_rules,
  option_rules,
}
use autodeploy_web.Config.Validate.Rules.{
  StrongPassword, Appliance, Regional, Network, Base32Key, Accounts, HostsLine, Timeouts, Roles,
  Options,
}

check-nil : (b : Bool) (f m : Text) → (check b f m ≡ []) ↔ (b ≡ false)
unfolding check
check-nil true f m = (λ h. cc, λ h. cc)
check-nil false f m = (λ _. refl, λ _. refl)

module _ (c : Config) where
  pub Appliance-valid : (appliance_rules c ≡ []) ↔ Appliance c
  unfolding appliance_rules check contains appliance_types
  Appliance-valid = (
    λ h. ground (
      arith,
      is_empty_iff c.source_iso,
      text_eq_iff (text "VSA") c.appliance_type,
      text_eq_iff (text "VIA") c.appliance_type,
      text_eq_iff (text "VIAiscsi") c.appliance_type,
      text_eq_iff (text "VIAHR") c.appliance_type,
    ),
    λ v. ground (
      arith,
      is_empty_iff c.source_iso,
      text_eq_iff (text "VSA") c.appliance_type,
      text_eq_iff (text "VIA") c.appliance_type,
      text_eq_iff (text "VIAiscsi") c.appliance_type,
      text_eq_iff (text "VIAHR") c.appliance_type,
    ),
  )

pub Regional-valid : (c : Config) → (regional_rules c ≡ []) ↔ Regional c
unfolding regional_rules check
Regional-valid c = (
  λ h. ground (
    arith,
    matches-hostname_ok c.hostname,
    is_empty_iff c.hostname,
    is_empty_iff c.keyboard_layout,
    is_empty_iff c.timezone,
  ),
  λ v. ground (
    arith,
    matches-hostname_ok c.hostname,
    is_empty_iff c.hostname,
    is_empty_iff c.keyboard_layout,
    is_empty_iff c.timezone,
  ),
)

pub timeout-valid : (c : Config) → (timeout_rules c ≡ []) ↔ Timeouts c
unfolding timeout_rules check
timeout-valid c = (λ h. ground arith, λ v. ground arith)

pub role-valid : (c : Config) → (role_rules c ≡ []) ↔ Roles c
unfolding role_rules check
role-valid c = (
  λ h. ground (arith, text_eq_iff c.appliance_type (text "VSA")),
  λ v. ground (arith, text_eq_iff c.appliance_type (text "VSA")),
)

pub option-valid : (c : Config) → (option_rules c ≡ []) ↔ Options c
unfolding option_rules check
option-valid c = (
  λ h. ground (
    arith,
    is_empty_iff c.vcsp_url,
    is_empty_iff c.vcsp_login,
    is_empty_iff c.vcsp_password,
    is_empty_iff c.license_file,
    is_empty_iff c.config_password_so,
  ),
  λ v. ground (
    arith,
    is_empty_iff c.vcsp_url,
    is_empty_iff c.vcsp_login,
    is_empty_iff c.vcsp_password,
    is_empty_iff c.license_file,
    is_empty_iff c.config_password_so,
  ),
)

-- No message is empty.
messages :
    (is_empty (text "must be at least 15 characters") ≡ false)
    × (is_empty (text "must contain at least one uppercase letter") ≡ false)
    × (is_empty (text "must contain at least one lowercase letter") ≡ false)
    × (is_empty (text "must contain at least one digit") ≡ false)
    × (is_empty (text "must contain at least one special character") ≡ false)
    × (is_empty (text "no more than 3 characters of the same class in a row") ≡ false)
unfolding text
messages = (refl, refl, refl, refl, refl, refl)

pub password-valid : (f p : Text) → (password_rule f p ≡ []) ↔ StrongPassword p
unfolding password_rule check check_veeam_password
password-valid f p = (
  λ h. ground (arith, messages, max_run-no_four p),
  λ v. ground (arith, messages, max_run-no_four p),
)

pub dns-valid : (i : ℕ) (ds : List Text) → (dns_rules i ds ≡ []) ↔ All (λ d. is_ipv4 d ≡ true) ds
unfolding dns_rules check
dns-valid i [] = (λ _. tt, λ _. refl)
dns-valid i (d ∷ ds) =
    (λ h. ground (arith, dns-valid (suc i) ds), λ a. ground (arith, dns-valid (suc i) ds))

pub hosts-valid : (i : ℕ) (es : List Text) → (hosts_rules i es ≡ []) ↔ All HostsLine es
unfolding hosts_rules check
hosts-valid i [] = (λ _. tt, λ _. refl)
hosts-valid i (e ∷ es) = (
  λ h. ground (arith, text_eq_iff (trim_space e) (text "EOF"), hosts-valid (suc i) es),
  λ a. ground (arith, text_eq_iff (trim_space e) (text "EOF"), hosts-valid (suc i) es),
)

no_dns-valid :
    (ds : List Text) → (no_dns_rule ds ≡ []) ↔ ((ds ≢ []) × All (λ d. is_ipv4 d ≡ true) ds)
unfolding no_dns_rule check
no_dns-valid [] = (λ h. cc, λ h. absurd (h.0 refl))
no_dns-valid (d ∷ ds) =
    (λ h. (cons-ne-nil d ds, (dns-valid 0 (d ∷ ds)).0 h), λ h. (dns-valid 0 (d ∷ ds)).1 h.1)

pub split : (xs ys : List ValidationError) → xs ++ ys ≡ [] → (xs ≡ []) × (ys ≡ [])
split [] ys h = (refl, h)
split (x ∷ xs) ys h = cc

differ-valid : (a b f m : Text) → (check (text_eq a b) f m ≡ []) ↔ (a ≢ b)
unfolding check
differ-valid a b f m = (λ h. ground (arith, text_eq_iff a b), λ v. ground (arith, text_eq_iff a b))

key-valid :
    (enabled : Bool) (k f m : Text)
    → (check (enabled && not (matches base32_re k)) f m ≡ []) ↔ (enabled ≡ true → Base32Key k)
unfolding check
key-valid enabled k f m =
    (λ h. ground (arith, matches-base32 k), λ v. ground (arith, matches-base32 k))

token-valid :
    (t f m : Text)
    → (check (not (is_empty t) && not (matches guid_re t)) f m ≡ [])
      ↔ (t ≢ [] → matches guid_re t ≡ true)
unfolding check
token-valid t f m = (λ h. ground (arith, is_empty_iff t), λ v. ground (arith, is_empty_iff t))

module _ (c : Config) where
  pub Network-valid : (network_rules c ≡ []) ↔ Network c
  unfolding network_rules check
  Network-valid = (
    λ h s. ground (arith, no_dns-valid c.dns_servers),
    λ v. ground (arith, no_dns-valid c.dns_servers),
  )

  pub account-valid : (account_rules c ≡ []) ↔ Accounts c
  unfolding account_rules
  account-valid = (
    λ h.
        let (r5, e6) = split _ _ h in
        let (r4, e5) = split _ _ r5 in
        let (r3, e4) = split _ _ r4 in
        let (r2, e3) = split _ _ r3 in
        let (e1, e2) = split _ _ r2 in
        record {
          admin = (password-valid _ c.veeam_admin_password).0 e1;
          officer = (password-valid _ c.veeam_so_password).0 e2;
          differ = (differ-valid c.veeam_admin_password c.veeam_so_password _ _).0 e3;
          admin_key =
              (key-valid c.veeam_admin_is_mfa_enabled c.veeam_admin_mfa_secret_key _ _).0 e4;
          officer_key = (key-valid c.veeam_so_is_mfa_enabled c.veeam_so_mfa_secret_key _ _).0 e5;
          token = (token-valid c.veeam_so_recovery_token _ _).0 e6;
        },
    λ v. rw (
      (password-valid _ c.veeam_admin_password).1 v.admin,
      (password-valid _ c.veeam_so_password).1 v.officer,
      (differ-valid c.veeam_admin_password c.veeam_so_password _ _).1 v.differ,
      (key-valid c.veeam_admin_is_mfa_enabled c.veeam_admin_mfa_secret_key _ _).1 v.admin_key,
      (key-valid c.veeam_so_is_mfa_enabled c.veeam_so_mfa_secret_key _ _).1 v.officer_key,
      (token-valid c.veeam_so_recovery_token _ _).1 v.token,
    ),
  )

  pub ntp-valid : (ntp_rules c ≡ []) ↔ (c.ntp_server ≢ [])
  unfolding ntp_rules check
  ntp-valid = (λ h. ground arith, λ v. ground arith)
