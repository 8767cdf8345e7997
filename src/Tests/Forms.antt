-- ===== src/Tests/Forms.antt =====
-- The decoding of a form at concrete inputs (internal/server/form_decode.go).
use autodeploy_web.Base.{◌≡◌, refl, true, not, ◌&&◌, [], ◌∷◌, text, text_eq, pos}
use autodeploy_web.Base.Trim.{trim_space, is_ascii_space}
use autodeploy_web.Base.Decimal.{parse_int, parse_nat, parse_digits}
use autodeploy_web.Config.Validate.{check, role_rules}
use autodeploy_web.Form.{
  Form, form_value, get_bool, get_int, get_array, to_lower, split_commas, onto_first, one_line,
  config_from_form,
}
use autodeploy_web.Form.Guards.{config_from_form-role_rules}

abbrev form : Form
form =
    (text "ApplianceType", text "VIA")
    ∷ (text "NodeExporter", text "on")
    ∷ (text "GrubTimeout", text "30")
    ∷ (text "HostsEntries", text "10.0.0.1 a\r\n\r\n 10.0.0.2 b,")
    ∷ []

config_from_form-role_rules_example :
    role_rules (config_from_form form)
    ≡ check
        ((config_from_form form).node_exporter_tls_enabled
          && not (config_from_form form).node_exporter)
        (text "NodeExporterTLSEnabled")
        (text "only effective when NodeExporter=true")
config_from_form-role_rules_example = config_from_form-role_rules form

get_array_runs : get_array form (text "HostsEntries") ≡ text "10.0.0.1 a" ∷ text "10.0.0.2 b" ∷ []
unfolding get_array form_value text text_eq one_line split_commas onto_first trim_space
    is_ascii_space
get_array_runs = refl

get_bool_runs : get_bool form (text "NodeExporter") ≡ true
unfolding get_bool form_value text text_eq to_lower
get_bool_runs = refl

get_int_runs : get_int form (text "GrubTimeout") (pos 10) ≡ pos 30
unfolding get_int form_value text text_eq parse_int parse_nat parse_digits
get_int_runs = refl
