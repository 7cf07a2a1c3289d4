-- ===== src/Policy/Tests.antt =====
-- Concrete tools under the policy (src/commands/tool-policy.ts).
use vigor3912s_mcp.Common.{String, false, Option, none, [], ◌∷◌, ok}
use vigor3912s_mcp.Registry.{CommandDef, write}
use vigor3912s_mcp.Policy.{apply_tool_policy}
use vigor3912s_mcp.Policy.Tiers.{Graded, apply_tool_policy-Graded}

-- A tool of the table, without an SDK binding.
abbrev pub passwd : CommandDef
passwd = record {
  id = "sys_passwd";
  family = "sys";
  kind = write;
  desc = "";
  render = λ args. ok (114 ∷ 109 ∷ []);
  args = [];
  confirm = none;
  affects_network = false;
  format = none;
  snapshot_read = none;
  secret_args = [];
  sensitive_output = false;
  timeout_ms = none;
  skip_commit = false;
  sdk = none;
}

abbrev pub unclassified : String → Option String
unclassified manifest_id = none

apply_tool_policy-Graded_example :
    Graded unclassified passwd (apply_tool_policy unclassified passwd)
apply_tool_policy-Graded_example = apply_tool_policy-Graded unclassified passwd
