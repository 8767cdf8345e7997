-- ===== src/Form/Guards.antt =====
-- The options that `configFromForm` reads for one kind of appliance only, against the rules of
-- `Validate` on them.
use autodeploy_web.Base.{
  ◌≡◌, ◌≢◌, refl, Bool, false, not, ◌&&◌, text, text_eq, text_eq→eq, text_eq-false, Bool-cases, inl,
  inr, arith,
}
use autodeploy_web.Config.Schema.{Config}
use autodeploy_web.Config.Defaults.{defaults}
use autodeploy_web.Config.Validate.{check, role_rules}
use autodeploy_web.Topology.Configs.{NoVsaOptions}
use autodeploy_web.Form.{Form, config_from_form, common_fields, vsa_fields, via_fields}

-- The options of the other kind of appliance are off.
pub record Guarded (c : Config) : Type 0 where
  pub no_vsa : c.appliance_type ≢ text "VSA" → NoVsaOptions c
  pub no_restore : c.appliance_type ≢ text "VSA" → c.restore_config ≡ false
  pub no_availability : c.appliance_type ≢ text "VSA" → c.high_availability_enabled ≡ false
  pub no_single_disk : c.appliance_type ≡ text "VSA" → c.via_single_disk ≡ false

-- An option that is read on both sides of the test on the appliance.
module _ (f : Form) where
  vsa_fields-Guarded :
      (debug : Bool)
      → (common_fields f).appliance_type ≡ text "VSA"
      → Guarded record (vsa_fields f (common_fields f)) { debug = debug }
  unfolding common_fields vsa_fields defaults
  vsa_fields-Guarded debug e = record {
    no_vsa = λ h. absurd (h e);
    no_restore = λ h. absurd (h e);
    no_availability = λ h. absurd (h e);
    no_single_disk = λ _. refl;
  }

  via_fields-Guarded :
      (debug : Bool)
      → (common_fields f).appliance_type ≢ text "VSA"
      → Guarded record (via_fields f (common_fields f)) { debug = debug }
  unfolding common_fields via_fields defaults
  via_fields-Guarded debug n = record {
    no_vsa = λ _. record { exporter = refl; exporter_tls = refl; provider = refl; tuning = refl };
    no_restore = λ _. refl;
    no_availability = λ _. refl;
    no_single_disk = λ e. absurd (n e);
  }

  pub config_from_form-Guarded : Guarded (config_from_form f)
  unfolding config_from_form
  config_from_form-Guarded =
      elim (Bool-cases (text_eq (common_fields f).appliance_type (text "VSA"))) [
        | inl h ↦ rw h (vsa_fields-Guarded _ (text_eq→eq _ _ h))
        | inr h ↦ rw h (via_fields-Guarded _ (text_eq-false _ _ h))
      ]

-- The rules that a form can break: an exporter over TLS that is not turned on.
Guarded-role_rules :
    (c : Config)
    → Guarded c
    → role_rules c
      ≡ check
          (c.node_exporter_tls_enabled && not c.node_exporter)
          (text "NodeExporterTLSEnabled")
          (text "only effective when NodeExporter=true")
unfolding role_rules check
Guarded-role_rules c g = elim (Bool-cases (text_eq c.appliance_type (text "VSA"))) [
  | inl h ↦ ground (arith, g.no_single_disk (text_eq→eq _ _ h))
  | inr h ↦
      let o = g.no_vsa (text_eq-false _ _ h) in
      ground (arith, o.exporter, o.exporter_tls, o.provider, o.tuning)
]

-- A configuration that a form was decoded into breaks one rule on the kinds of appliances at most:
-- the one on an exporter over TLS that is off.
pub config_from_form-role_rules :
    (f : Form)
    → let c = config_from_form f in
      role_rules c
      ≡ check
          (c.node_exporter_tls_enabled && not c.node_exporter)
          (text "NodeExporterTLSEnabled")
          (text "only effective when NodeExporter=true")
config_from_form-role_rules f = Guarded-role_rules (config_from_form f) (config_from_form-Guarded f)
