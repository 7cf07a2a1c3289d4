-- ===== src/Catalog/Entries.antt =====
-- The calls of the builders that the files of src/commands/registry/families make.
use vigor3912s_mcp.Common.{String, false, Option, none, some, List, [], Text, Result}
use vigor3912s_mcp.Values.{Args}
use vigor3912s_mcp.Zod.{Zod}
use vigor3912s_mcp.Registry.Builders.{SdkCommandOptions}

-- A call of `S`, `R` or `W`.
pub data Entry : Type 0 where
  typed_tool : String → String → String → String → SdkCommandOptions → Entry
  raw_read : String → String → String → String → Entry
  raw_write : String → String → (Args → Result Text) → List (String × Zod) → String → Entry

pub record FamilyEntries : Type 0 where
  pub family : String
  pub desc : String
  pub commands : List Entry

abbrev pub id_of : Entry → String
id_of (typed_tool id family manifest_id desc opts) = id
id_of (raw_read id family cli desc) = id
id_of (raw_write id family render args desc) = id

abbrev pub manifest_of : Entry → Option String
manifest_of (typed_tool id family manifest_id desc opts) = some manifest_id
manifest_of _ = none

-- The options of `S`, none given.
abbrev pub plain : SdkCommandOptions
plain = record {
  args = none;
  to_input = none;
  validate = none;
  format = none;
  secret_args = [];
  snapshot_read = none;
  skip_commit = false;
  partial = false;
  timeout_ms = none;
}
