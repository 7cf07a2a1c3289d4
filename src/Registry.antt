-- ===== src/Registry.antt =====
-- src/commands/registry/types.ts and src/commands/sdk-invoke.ts: what the server knows of one tool.
pub mod Builders
pub mod Linking
pub mod Generated
pub mod Tests
use vigor3912s_mcp.Common.{
  ℕ, String, Bool, true, false, Option, none, some, List, [], ◌∷◌, Text, Result, ok, ◌>>=◌, get_or,
}
use vigor3912s_mcp.Zod.{Zod}
use vigor3912s_mcp.Values.{Value, undefined, obj, Args, fields_of}

pub data CommandKind : Type 0 where
  read write : CommandKind

-- `ConfirmTier` of src/commands/tool-policy.ts
pub data ConfirmTier : Type 0 where
  auto confirm dual : ConfirmTier

pub record CommandSdkBinding : Type 0 where
  pub manifest_id : String
  pub to_input : Option (Args → Result Value)
  pub validate : Option (Value → Result Value)
  pub partial : Bool

-- `undefined` flags are false and an absent list is empty, as every reader of them has it. The object
-- `args` is the list of its entries.
pub record CommandDef : Type 0 where
  pub id : String
  pub family : String
  pub kind : CommandKind
  pub desc : String
  pub render : Args → Result Text
  pub args : List (String × Zod)
  pub confirm : Option ConfirmTier
  pub affects_network : Bool
  pub format : Option (Text → Args → Value)
  pub snapshot_read : Option String
  pub secret_args : List String
  pub sensitive_output : Bool
  pub timeout_ms : Option ℕ
  pub skip_commit : Bool
  pub sdk : Option CommandSdkBinding

pub record FamilyDef : Type 0 where
  pub family : String
  pub desc : String
  pub commands : List CommandDef

abbrev pub is_write : CommandKind → Bool
is_write write = true
is_write read = false

-- `defaultToInput`
unfoldable pub default_to_input : Args → Value
unfolding fields_of
default_to_input [] = undefined
default_to_input (a ∷ args) = obj (fields_of (a ∷ args))

validated : Option (Value → Result Value) → Value → Result Value
validated none input = ok input
validated (some validate) input = validate input

-- `resolveSdkInput`
unfoldable pub resolve_sdk_input : CommandSdkBinding → Args → Result Value
unfolding validated default_to_input
resolve_sdk_input sdk args =
    get_or sdk.to_input (λ a. ok (default_to_input a)) args >>= validated sdk.validate
