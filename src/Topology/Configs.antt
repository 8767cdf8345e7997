-- ===== src/Topology/Configs.antt =====
-- The configurations that the nodes of a topology are built with.
use autodeploy_web.Base.{◌≡◌, ◌≢◌, ◌⊎◌, refl, inl, inr, Bool, true, false, text, All, []}
use autodeploy_web.Config.Schema.{Config}
use autodeploy_web.Config.Patterns.Hostname.{hostname_ok}
use autodeploy_web.Config.Address.{is_ipv4, is_ipv4_mask}
use autodeploy_web.Config.Validate.{validate}
use autodeploy_web.Config.Validate.Rules.{IsValid, Appliance, Roles}
use autodeploy_web.Config.Validate.Sound.{validate-IsValid}
use autodeploy_web.Topology.{
  Node, Role, vsa, via_proxy, via_hr, appliance_type, build_config, is_hr, chosen_dns,
}

-- The identity of a node has what a static configuration asks for.
pub record Addressed (n : Node) (base : Config) : Type 0 where
  pub host : hostname_ok n.identity.hostname ≡ true
  pub address : is_ipv4 n.identity.static_ip ≡ true
  pub mask : is_ipv4_mask n.identity.subnet ≡ true
  pub router : is_ipv4 n.identity.gateway ≡ true
  pub some_dns : chosen_dns n.identity.dns_servers base.dns_servers ≢ []
  pub each_dns : All (λ d. is_ipv4 d ≡ true) (chosen_dns n.identity.dns_servers base.dns_servers)

-- The options of the base that only a VSA has are off.
pub record NoVsaOptions (base : Config) : Type 0 where
  pub exporter : base.node_exporter ≡ false
  pub exporter_tls : base.node_exporter_tls_enabled ≡ false
  pub provider : base.vcsp_connection ≡ false
  pub tuning : base.license_vbr_tune ≡ false

build_config-Appliance :
    (n : Node) (base : Config) → Appliance base → Appliance (build_config n base)
unfolding build_config appliance_type
build_config-Appliance n base a = record {
  known = known n.spec.role;
  source = a.source;
  grub = a.grub;
}
  where
    known :
        (r : Role)
        → (appliance_type r ≡ text "VSA")
          ⊎ ((appliance_type r ≡ text "VIA")
              ⊎ ((appliance_type r ≡ text "VIAiscsi") ⊎ (appliance_type r ≡ text "VIAHR")))
    known vsa = inl refl
    known via_proxy = inr (inl refl)
    known via_hr = inr (inr (inr refl))

hr_not_vsa : (r : Role) → is_hr r ≡ true → appliance_type r ≢ text "VSA"
unfolding appliance_type text
hr_not_vsa vsa h e = cc
hr_not_vsa via_proxy h e = cc
hr_not_vsa via_hr h e = cc

build_config-Roles : (n : Node) (base : Config) → NoVsaOptions base → Roles (build_config n base)
unfolding build_config
build_config-Roles n base o = record {
  exporter = λ h. absurd (off o.exporter h);
  provider = λ h. absurd (off o.provider h);
  tuning = λ h. absurd (off o.tuning h);
  tls = λ h. absurd (off o.exporter_tls h);
  single_disk = hr_not_vsa n.spec.role;
}
  where
    off : {b : Bool} → b ≡ false → b ≡ true → ⊥
    off e h = cc

build_config-IsValid :
    (n : Node) (base : Config)
    → NoVsaOptions base
    → Addressed n base
    → IsValid base
    → IsValid (build_config n base)
unfolding build_config
build_config-IsValid n base o a b = record {
  appliance = build_config-Appliance n base b.appliance;
  regional = record { host = a.host; keyboard = b.regional.keyboard; zone = b.regional.zone };
  network = λ _. record {
    address = a.address;
    mask = a.mask;
    router = a.router;
    some_dns = a.some_dns;
    each_dns = a.each_dns;
  };
  accounts = record {
    admin = b.accounts.admin;
    officer = b.accounts.officer;
    differ = b.accounts.differ;
    admin_key = b.accounts.admin_key;
    officer_key = b.accounts.officer_key;
    token = b.accounts.token;
  };
  time_servers = b.time_servers;
  hosts = b.hosts;
  timeouts = record { managers = b.timeouts.managers; availability = b.timeouts.availability };
  roles = build_config-Roles n base o;
  options = record {
    provider_set = b.options.provider_set;
    license = b.options.license;
    restore = b.options.restore;
  };
}

-- From a valid base configuration without the options of a VSA, the configuration of every node
-- whose identity has a host name, an IPv4 address, mask and gateway and IPv4 DNS servers is
-- accepted by the validation, whatever the role of the node.
pub build_config-validate :
    (n : Node) (base : Config)
    → validate base ≡ []
    → NoVsaOptions base
    → Addressed n base
    → validate (build_config n base) ≡ []
build_config-validate n base v o a =
    let b = (validate-IsValid base).0 v in
    (validate-IsValid (build_config n base)).1 (build_config-IsValid n base o a b)
