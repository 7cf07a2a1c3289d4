-- ===== src/Policy.antt =====
-- src/commands/tool-policy.ts: how hard the gate is before a write may run.
pub mod Table
pub mod Tiers
pub mod Tests
use vigor3912s_mcp.Common.{
  ℕ, String, Bool, true, false, ◌||◌, Option, none, some, List, [], ◌∷◌, ◌++◌, if◌then◌else◌,
  lookup, string_key, contains, distinct_from, ◌==◌, get_or, is_some,
}
use vigor3912s_mcp.Registry.{
  CommandKind, read, write, ConfirmTier, auto, confirm, dual, CommandDef, CommandSdkBinding,
}
use Table.{WritePolicy, write_policy, read_policy}

-- `policy?.confirm === 'dual'`
abbrev pub asks_dual : Option WritePolicy → Bool
asks_dual none = false
asks_dual (some p) = elim p.confirm [ some dual ↦ true | _ ↦ false ]

abbrev pub is_destructive : Option String → Bool
is_destructive none = false
is_destructive (some c) = c == "destructive"

unfoldable pub resolve_confirm_tier : CommandKind → Option WritePolicy → Option String → ConfirmTier
resolve_confirm_tier read policy classification = auto
resolve_confirm_tier write policy classification =
    if asks_dual policy || is_destructive classification then dual else confirm

-- `WRITE_POLICY[cmd.id]`, for a write
abbrev pub policy_for : CommandKind → String → Option WritePolicy
policy_for write id = lookup id write_policy
policy_for read id = none

-- `readPolicy?.sensitiveOutput`
abbrev pub is_sensitive : CommandKind → String → Bool
is_sensitive read id = contains read_policy id
is_sensitive write id = false

-- The classification of the bound SDK operation: `operationFor(manifestId)?.classification`.
abbrev pub classification_of : (String → Option String) → Option CommandSdkBinding → Option String
classification_of classify none = none
classification_of classify (some sdk) = classify sdk.manifest_id

-- `{ ...cmd, ...rest }` for the fields that a policy may give
with_policy : CommandDef → Option WritePolicy → CommandDef
with_policy cmd none = cmd
with_policy cmd (some p) = record cmd {
  affects_network = if p.affects_network then true else cmd.affects_network;
  snapshot_read = if is_some p.snapshot_read then p.snapshot_read else cmd.snapshot_read;
  skip_commit = if p.skip_commit then true else cmd.skip_commit;
}

abbrev policy_secrets : Option WritePolicy → List String
policy_secrets none = []
policy_secrets (some p) = p.secret_args

-- `classify` looks an SDK operation up by its manifest id.
unfoldable pub apply_tool_policy : (String → Option String) → CommandDef → CommandDef
unfolding resolve_confirm_tier with_policy distinct_from
apply_tool_policy classify cmd =
    let policy = policy_for cmd.kind cmd.id in
    let merged = with_policy cmd policy in
    record merged {
      secret_args = distinct_from [] (cmd.secret_args ++ policy_secrets policy);
      sensitive_output = if is_sensitive cmd.kind cmd.id then true else cmd.sensitive_output;
      confirm = some (resolve_confirm_tier cmd.kind policy (classification_of classify cmd.sdk));
    }
