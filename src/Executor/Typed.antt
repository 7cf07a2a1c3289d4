-- ===== src/Executor/Typed.antt =====
-- The tools of `S` (src/commands/registry/builders.ts) in the executor: the approved text and the
-- typed call.
use vigor3912s_mcp.Common.{
  String, Bool, ◌≡◌, Option, some, List, Text, lit, join, string_key, Result, ok, ◌>>=◌,
}
use vigor3912s_mcp.Values.{Value, Args}
use vigor3912s_mcp.Registry.{CommandDef, CommandSdkBinding}
use vigor3912s_mcp.Registry.Builders.{FromSdk}
use vigor3912s_mcp.Redaction.{redact_command, Redacted}
use vigor3912s_mcp.Client.{Operation, Client}
use vigor3912s_mcp.Executor.{PreparedWrite, input_of}

-- The prepared text is what the operation renders for the prepared input.
pub record SignedAsSent (op : Operation) (p : PreparedWrite) : Type 0 where
  pub input : Value
  pub frames : List Text
  pub has_input : p.sdk_input ≡ some input
  pub renders : op.build_frames input ≡ ok frames
  pub command : p.command ≡ join (lit "\n") frames

-- The three steps of `prepareWrite`, each with those before it done.
abbrev with_input : Text → Redacted → Option Value → Result PreparedWrite
with_input command redacted input = ok (record {
  command = command;
  sdk_input = input;
  command_log = redacted.preview;
  redacted_fields = redacted.fields;
})

abbrev with_redacted : CommandDef → Args → Text → Redacted → Result PreparedWrite
with_redacted cmd args command redacted = input_of cmd.sdk args >>= with_input command redacted

abbrev with_command : CommandDef → Args → Text → Result PreparedWrite
with_command cmd args command =
    redact_command command args cmd.secret_args >>= with_redacted cmd args command

module _ (operations : List (String × Operation)) (manifest_id : String) (partial : Bool)
    (cmd : CommandDef) (made : FromSdk operations manifest_id partial cmd) where
  abbrev binding : CommandSdkBinding
  binding = record {
    manifest_id = manifest_id;
    to_input = some made.to_input;
    validate = some made.validate;
    partial = partial;
  }
