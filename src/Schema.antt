-- ===== src/Schema.antt =====
-- internal/schema: the schema types and their normalisation; the processing windows of ISO 20022
-- are in the child module.
pub mod Window
use mrmi_gateway.Prelude.{String, ◌==◌, if◌then◌else◌}
use mrmi_gateway.Prelude.Text.{trim_space}

abbrev pub messaging : String
messaging = "messaging"

abbrev pub iso20022 : String
iso20022 = "iso20022"

abbrev pub hl7_fhir : String
hl7_fhir = "hl7fhir"

abbrev pub edifact : String
edifact = "edifact"

-- schema.Normalize
unfoldable pub normalize : String → String
unfolding trim_space
normalize t = if trim_space t == "" then messaging else t
