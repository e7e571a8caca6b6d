-- ===== src/Config/Examples.antt =====
-- The theorem on `Validate` at a concrete configuration.
use mrmi_gateway.Prelude.{none, ◌≡◌, ◌↔◌}
use mrmi_gateway.Config.Presets.{base_config}
use mrmi_gateway.Config.Validate.{validate}
use mrmi_gateway.Config.Validate.Laws.{IsValid, validate-eq-none_iff}

validate-eq-none_iff_example : (validate base_config ≡ none) ↔ IsValid base_config
validate-eq-none_iff_example = validate-eq-none_iff base_config
