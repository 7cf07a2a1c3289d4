-- ===== src/Registry/Tests.antt =====
-- Concrete operations and tools (src/commands/registry).
use vigor3912s_mcp.Common.{
  ◌≡◌, ◌⊎◌, refl, String, true, false, none, List, [], ◌∷◌, ◌++◌, Text, ok, err, contains,
  string_key,
}
use mathlib.Core.List.Memᴰ.{head}
use vigor3912s_mcp.Registry.{CommandDef, FamilyDef}
use vigor3912s_mcp.Registry.Builders.{
  Converted, success, SdkCommandOptions, plain_read, sdk_command,
}
use vigor3912s_mcp.Registry.Linking.{
  build_void_operation_index, attach_void_binding, Linked, attach_void_binding-Linked,
}
use vigor3912s_mcp.Registry.Generated.{
  build_sdk_generated_family, collect_covered_manifest_ids, collect_ids,
  build_sdk_generated_family-covers,
}
use vigor3912s_mcp.Client.{Operation}

abbrev status : Text
status = 115 ∷ []

abbrev operation : Operation
operation = record {
  manifest_id = "cli.show.status";
  classification = "read";
  build_frames = λ input. ok (status ∷ []);
}

abbrev tool : CommandDef
tool = plain_read "show_status" "show" status "" none

attach_void_binding-Linked_example :
    (attach_void_binding (build_void_operation_index (operation ∷ [])) tool ≡ tool)
    ⊎ Linked tool (attach_void_binding (build_void_operation_index (operation ∷ [])) tool)
attach_void_binding-Linked_example = attach_void_binding-Linked (operation ∷ []) tool

abbrev operations : List (String × Operation)
operations = ("cli.show.status", operation) ∷ []

abbrev schema_of : String → Converted × List String
schema_of manifest_id = (record { shape = []; full = λ v. success v; wraps_input = false }, [])

abbrev options : SdkCommandOptions
options = record {
  args = none;
  to_input = none;
  validate = none;
  format = none;
  secret_args = [];
  snapshot_read = none;
  skip_commit = false;
  partial = false;
  timeout_ms = none;
}

abbrev generated : FamilyDef
generated = elim (build_sdk_generated_family operations schema_of [] (operation ∷ [])) [
  | ok f ↦ f
  | err e ↦ record { family = ""; desc = ""; commands = [] }
]

generates : build_sdk_generated_family operations schema_of [] (operation ∷ []) ≡ ok generated
unfolding build_sdk_generated_family collect_covered_manifest_ids collect_ids sdk_command
generates = refl

build_sdk_generated_family-covers_example :
    contains (collect_covered_manifest_ids ([] ++ generated ∷ [])) "cli.show.status" ≡ true
build_sdk_generated_family-covers_example =
    build_sdk_generated_family-covers operations schema_of [] (operation ∷ []) generated generates
      operation (head refl)
