-- ===== src/Catalog/Registered.antt =====
-- src/commands/registry/index.ts: the whole registry, and the lists that the server takes from it.
use vigor3912s_mcp.Common.{
  String, not, Option, List, [], ◌∷◌, ◌++◌, map, keep, lookup, insert, string_key, Result, ok,
  ◌>>=◌,
}
use vigor3912s_mcp.Registry.{CommandDef, FamilyDef, is_write}
use vigor3912s_mcp.Registry.Builders.{Converted}
use vigor3912s_mcp.Registry.Linking.{build_void_operation_index, attach_sdk_void_bindings}
use vigor3912s_mcp.Registry.Generated.{build_sdk_generated_family}
use vigor3912s_mcp.Policy.{apply_tool_policy}
use vigor3912s_mcp.Client.{Operation}
use vigor3912s_mcp.Catalog.Curated.{curated_registry}
use vigor3912s_mcp.Catalog.{families_of}

abbrev pub operations_in : List (String × Operation) → List Operation
operations_in [] = []
operations_in ((id, op) ∷ index) = op ∷ operations_in index

abbrev pub commands_in : List FamilyDef → List CommandDef
commands_in [] = []
commands_in (f ∷ families) = f.commands ++ commands_in families

-- `new Map(commands.map((command) => [command.id, command]))`, from the commands so far.
unfoldable pub index_commands :
    List CommandDef → List (String × CommandDef) → List (String × CommandDef)
unfolding insert
index_commands [] index = index
index_commands (c ∷ commands) index = index_commands commands (insert c.id c index)

module _ (operations : List (String × Operation)) (schema_of : String → Converted × List String)
    (sort : List Operation → List Operation) where
  -- `LINKED_CURATED_REGISTRY`
  unfoldable pub linked_curated_registry : Result (List FamilyDef)
  unfolding families_of attach_sdk_void_bindings build_void_operation_index
  linked_curated_registry = families_of operations schema_of curated_registry >>= λ families.
      ok (attach_sdk_void_bindings (build_void_operation_index (operations_in operations)) families)

  -- `REGISTRY`; `sort` is the order by `localeCompare`.
  unfoldable pub registry : Result (List FamilyDef)
  unfolding linked_curated_registry build_sdk_generated_family
  registry = linked_curated_registry >>= λ curated.
      build_sdk_generated_family operations schema_of curated (sort (operations_in operations))
      >>= λ generated. ok (curated ++ (generated ∷ []))

module _ (classify : String → Option String) (families : List FamilyDef) where
  -- `ALL_COMMANDS`, `READ_COMMANDS`, `WRITE_COMMANDS` and `findCommand`
  unfoldable pub all_commands : List CommandDef
  unfolding apply_tool_policy
  all_commands = map (apply_tool_policy classify) (commands_in families)

  unfoldable pub read_commands : List CommandDef
  unfolding all_commands
  read_commands = keep (λ (c : CommandDef). not (is_write c.kind)) all_commands

  unfoldable pub write_commands : List CommandDef
  unfolding all_commands
  write_commands = keep (λ (c : CommandDef). is_write c.kind) all_commands

  unfoldable pub find_command : String → Option CommandDef
  unfolding all_commands index_commands lookup
  find_command id = lookup id (index_commands all_commands [])
