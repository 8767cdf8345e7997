-- ===== src/Config/Validate/Sound.antt =====
-- `Validate` as a whole: sound and complete for the description in Rules.antt.
use autodeploy_web.Base.{◌≡◌, ◌↔◌, []}
use autodeploy_web.Config.Schema.{Config}
use autodeploy_web.Config.Validate.{validate}
use autodeploy_web.Config.Validate.Rules.{IsValid}
use autodeploy_web.Config.Validate.Sections.{
  Appliance-valid, Regional-valid, Network-valid, account-valid, ntp-valid, hosts-valid,
  timeout-valid, role-valid, option-valid, split,
}

-- The validation of a configuration returns no error exactly for the configurations that meet an
-- independent description of each part (appliance, region, network, accounts, hosts, timeouts,
-- roles, options).
pub validate-IsValid : (c : Config) → (validate c ≡ []) ↔ IsValid c
unfolding validate
validate-IsValid c = (accepted, complete)
  where
    accepted : validate c ≡ [] → IsValid c
    accepted h =
        let (r8, e9) = split _ _ h in
        let (r7, e8) = split _ _ r8 in
        let (r6, e7) = split _ _ r7 in
        let (r5, e6) = split _ _ r6 in
        let (r4, e5) = split _ _ r5 in
        let (r3, e4) = split _ _ r4 in
        let (r2, e3) = split _ _ r3 in
        let (e1, e2) = split _ _ r2 in
        record {
          appliance = (Appliance-valid c).0 e1;
          regional = (Regional-valid c).0 e2;
          network = (Network-valid c).0 e3;
          accounts = (account-valid c).0 e4;
          time_servers = (ntp-valid c).0 e5;
          hosts = (hosts-valid 0 c.hosts_entries).0 e6;
          timeouts = (timeout-valid c).0 e7;
          roles = (role-valid c).0 e8;
          options = (option-valid c).0 e9;
        }

    complete : IsValid c → validate c ≡ []
    complete v = rw (
      (Appliance-valid c).1 v.appliance,
      (Regional-valid c).1 v.regional,
      (Network-valid c).1 v.network,
      (account-valid c).1 v.accounts,
      (ntp-valid c).1 v.time_servers,
      (hosts-valid 0 c.hosts_entries).1 v.hosts,
      (timeout-valid c).1 v.timeouts,
      (role-valid c).1 v.roles,
      (option-valid c).1 v.options,
    )
