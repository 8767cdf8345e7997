-- ===== src/Tests/Configs.antt =====
-- Configurations and topologies at concrete inputs (internal/config/, internal/topology/topology.go).
use autodeploy_web.Base.{◌≡◌, ◌↔◌, refl, false, List, [], ◌∷◌, some, Text, text, text_eq}
use autodeploy_web.Config.Schema.{Config}
use autodeploy_web.Config.Defaults.{defaults, appliance_types}
use autodeploy_web.Config.Regex.{matches, match_then, repeated}
use autodeploy_web.Config.Patterns.{
  hostname_re, guid_re, is_alnum, is_label, is_digit, is_hex, is_lower, is_upper, base32_re,
  is_base32,
}
use autodeploy_web.Config.Password.{class_of, max_run_of_same_class, run_loop, check_veeam_password}
use autodeploy_web.Config.Address.{
  parse_ip, is_ipv4, ipv4_fields, to4, is_ipv4_mask, mask_length, fields_loop, lead_ones, parse_by,
  parse_ipv6,
}
use autodeploy_web.Base.Trim.{is_ascii_space, trim_space}
use autodeploy_web.Base.Decimal.{format_nat}
use autodeploy_web.Config.Validate.{
  validate, appliance_rules, check, contains, regional_rules, network_rules, account_rules,
  dns_rules, hosts_rules, no_dns_rule, ntp_rules, option_rules, password_rule, role_rules,
  timeout_rules,
}
use autodeploy_web.Config.Validate.Rules.{IsValid}
use autodeploy_web.Config.Validate.Sound.{validate-IsValid}
use autodeploy_web.Topology
use autodeploy_web.Topology.{
  vsa, via_hr, kind_vsa_hr, Identity, Node, Topology, catalog, new, is_standalone, node_problems,
  build_config,
}
use autodeploy_web.Topology.Shape.{Built, Outcome, new-Outcome}
use autodeploy_web.Topology.Identities.{Proper, validate-Proper}
use autodeploy_web.Topology.Configs.{NoVsaOptions, Addressed, build_config-validate}

validate-IsValid_example : (validate defaults ≡ []) ↔ IsValid defaults
validate-IsValid_example = validate-IsValid defaults

abbrev mfa_key : Text
mfa_key = text "JBSWY3DPEHPK3PXP"

abbrev identity : Text → Text → Identity
identity host ip = record {
  hostname = host;
  static_ip = ip;
  subnet = text "255.255.255.0";
  gateway = text "10.0.0.254";
  dns_servers = some (text "10.0.0.53" ∷ []);
}

abbrev identities : List Identity
identities = identity (text "vsa") (text "10.0.0.1") ∷ identity (text "hr") (text "10.0.0.2") ∷ []

new-Outcome_example : Outcome kind_vsa_hr identities (new kind_vsa_hr identities)
new-Outcome_example = new-Outcome kind_vsa_hr identities

abbrev nodes : List Node
nodes =
    record {
      spec = record { role = vsa; ha = false };
      identity = identity (text "vsa") (text "10.0.0.1");
    }
    ∷ record {
      spec = record { role = via_hr; ha = false };
      identity = identity (text "hr") (text "10.0.0.2");
    }
    ∷ []

abbrev pair : Topology
pair = record { kind = kind_vsa_hr; nodes = nodes }

pair-Built : Built kind_vsa_hr identities pair
unfolding catalog
pair-Built = record { same_kind = refl; templates = refl; identities = refl }

validate-Proper_example : (Topology.validate pair ≡ []) ↔ Proper nodes
validate-Proper_example = validate-Proper kind_vsa_hr identities pair pair-Built

abbrev base : Config
base = record defaults { source_iso = text "VeeamSoftwareAppliance.iso" }

base-valid : validate base ≡ []
unfolding validate defaults text appliance_rules check contains appliance_types text_eq
    regional_rules matches hostname_re is_alnum is_label network_rules is_ipv4 parse_ip ipv4_fields
    to4 is_ipv4_mask mask_length format_nat is_ascii_space trim_space fields_loop lead_ones parse_by
    parse_ipv6 check_veeam_password class_of max_run_of_same_class run_loop base32_re guid_re
    is_base32 is_digit is_hex is_lower is_upper match_then repeated account_rules dns_rules
    hosts_rules no_dns_rule ntp_rules option_rules password_rule role_rules timeout_rules
base-valid = refl

no_options : NoVsaOptions base
unfolding defaults
no_options = record { exporter = refl; exporter_tls = refl; provider = refl; tuning = refl }

abbrev repository : Node
repository = record {
  spec = record { role = via_hr; ha = false };
  identity = identity (text "hr") (text "10.0.0.2");
}

repository-Addressed : Addressed repository base
unfolding text is_alnum is_label is_ipv4 parse_ip ipv4_fields to4 is_ipv4_mask mask_length
repository-Addressed = record {
  host = refl;
  address = refl;
  mask = refl;
  router = refl;
  some_dns = λ e. cc;
  each_dns = (refl, tt);
}

build_config-validate_example : validate (build_config repository base) ≡ []
build_config-validate_example =
    build_config-validate repository base base-valid no_options repository-Addressed
