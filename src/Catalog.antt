-- ===== src/Catalog.antt =====
-- The curated tools (src/commands/registry/families), as their files list them. Tools that are made
-- by `S` wait for the operations of the SDK and for the conversion of its schemas.
pub mod Inputs
pub mod Entries
pub mod Schemas
pub mod Views
pub mod Lan
pub mod Ports
pub mod Access
pub mod Services
pub mod Filters
pub mod Directory
pub mod Mngt
pub mod Qos
pub mod Csm
pub mod Sys
pub mod Wan
pub mod Swm
pub mod Curated
pub mod Registered
pub mod Ids
pub mod Switches
pub mod Cases
pub mod Tests
use vigor3912s_mcp.Common.{
  String, false, Option, none, some, List, [], ◌∷◌, Text, lit, Result, ok, err, ◌>>=◌, map,
}
use vigor3912s_mcp.Values.{Value, Args}
use vigor3912s_mcp.Zod.{Zod}
use vigor3912s_mcp.Registry.{CommandDef, FamilyDef}
use vigor3912s_mcp.Registry.Builders.{
  Converted, SdkCommandOptions, plain_read, plain_write, sdk_command,
}
use vigor3912s_mcp.Client.{Operation}
use vigor3912s_mcp.Catalog.Entries.{Entry, typed_tool, raw_read, raw_write, FamilyEntries}

module _ (operations : List (String × Operation))
    (schema_of : String → Converted × List String) where
  -- The command of an entry; an operation that the SDK does not have is an error.
  unfoldable pub command_of : Entry → Result CommandDef
  unfolding sdk_command plain_read plain_write lit
  command_of (typed_tool id family manifest_id desc opts) =
      let (converted, detected) = schema_of manifest_id in
      sdk_command operations id family manifest_id desc converted detected opts
  command_of (raw_read id family cli desc) = ok (plain_read id family (lit cli) desc none)
  command_of (raw_write id family render args desc) = ok (plain_write id family render args desc)

  unfoldable pub commands_of : List Entry → Result (List CommandDef)
  unfolding command_of
  commands_of [] = ok []
  commands_of (e ∷ entries) =
      let rest = commands_of entries in command_of e >>= λ c. rest >>= λ cs. ok (c ∷ cs)

  unfoldable pub families_of : List FamilyEntries → Result (List FamilyDef)
  unfolding commands_of
  families_of [] = ok []
  families_of (f ∷ families) =
      let rest = families_of families in
      commands_of f.commands >>= λ cs.
      rest >>= λ fs. ok (record { family = f.family; desc = f.desc; commands = cs } ∷ fs)
