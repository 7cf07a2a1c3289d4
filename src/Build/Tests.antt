-- ===== src/Build/Tests.antt =====
-- A concrete read tool (src/commands/build.ts).
use vigor3912s_mcp.Common.{◌↔◌, true, false, none, [], ◌∷◌, ok, lit}
use vigor3912s_mcp.Registry.{CommandDef, CommandKind, read, write}
use vigor3912s_mcp.Client.{new_client}
use vigor3912s_mcp.Client.Sending.{Sends}
use vigor3912s_mcp.Client.Tests.{sdk, allow}
use vigor3912s_mcp.Build.{Reader, read_tool, RegisterOptions, only, registered}
use vigor3912s_mcp.Build.Exposure.{MayRun, registered_iff}
use mathlib.Core.List.{Memᴰ}
use vigor3912s_mcp.Build.Reads.{read_tool-Sends}

abbrev pub tool : CommandKind → CommandDef
tool kind = record {
  id = "show_status";
  family = "show";
  kind = kind;
  desc = "";
  render = λ args. ok (115 ∷ []);
  args = [];
  confirm = none;
  affects_network = false;
  format = none;
  snapshot_read = none;
  secret_args = [];
  sensitive_output = false;
  timeout_ms = none;
  skip_commit = false;
  sdk = none;
}

abbrev reader : Reader
reader = record { client = new_client false; store = record { db = none } }

read_tool-Sends_example :
    Sends sdk allow reader.client false
      (read_tool sdk allow 16000 10 20 (tool read) [] reader).1.client
read_tool-Sends_example = read_tool-Sends sdk allow 16000 10 20 (tool read) [] reader

abbrev options : RegisterOptions
options = record {
  read_only = true;
  expose_tools = only (lit "show_status" ∷ []);
  disabled_tools = [];
}

registered_iff_example :
    Memᴰ (tool read) (registered options (tool write ∷ tool read ∷ []))
    ↔ (Memᴰ (tool read) (tool write ∷ tool read ∷ []) × MayRun options (tool read))
registered_iff_example = registered_iff options (tool read) (tool write ∷ tool read ∷ [])
