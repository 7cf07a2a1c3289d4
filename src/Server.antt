-- ===== src/Server.antt =====
-- src/index.ts: how a server is put together from a configuration, and how it shuts down; with
-- src/commands/tool-count.ts.
pub mod Start
pub mod Tests
use vigor3912s_mcp.Common.{
  ℕ, Bool, Option, List, [], ◌∷◌, ◌++◌, Text, lit, if◌then◌else◌, ltb, length, is_some, Result, ok,
  ◌>>=◌,
}
use vigor3912s_mcp.Crypto.{Crypto}
use vigor3912s_mcp.Crypto.Digits.{decimal}
use vigor3912s_mcp.Registry.{CommandDef}
use vigor3912s_mcp.Gate.{ConfirmGate, new_gate}
use vigor3912s_mcp.Log.{LogStore}
use vigor3912s_mcp.Client.{Client, new_client, disconnect}
use vigor3912s_mcp.Config.{Env, VigorConfig, ExposeTools, all, list_of, Runtime, load_config}
use vigor3912s_mcp.Build.{ExposedTools, only, RegisterOptions, registered}

abbrev pub exposed_tools : ExposeTools → ExposedTools
exposed_tools all = ExposedTools.all
exposed_tools (list_of ids) = only ids

-- The options that `buildServer` hands to `registerAllTools`.
unfoldable pub options_of : {Key : Type 0} → VigorConfig Key → RegisterOptions
options_of config = record {
  read_only = config.read_only;
  expose_tools = exposed_tools config.expose_tools;
  disabled_tools = config.disabled_tools;
}

-- `tools` are the tools that got a handler; their number is the tool count.
pub record Server (PublicKey : Type 0) : Type 0 where
  pub gate : ConfirmGate PublicKey
  pub client : Client
  pub store : LogStore
  pub tools : List CommandDef
  pub auto_commit : Bool
  pub tool_output_limit : ℕ

-- `open_store` is the constructor of LogStore, which opens the file.
module _ {PublicKey : Type 0} (open_store : Text → LogStore) (all_commands : List CommandDef) where
  unfoldable pub build_server : VigorConfig PublicKey → Server PublicKey
  unfolding registered options_of
  build_server config = record {
    gate = new_gate 60000 100 (is_some config.pending_file) config.approve_public_key;
    client = new_client config.read_only;
    store = open_store config.log_db;
    tools = registered (options_of config) all_commands;
    auto_commit = config.auto_commit;
    tool_output_limit = config.tool_output_limit;
  }

  -- `main` up to the connection of the server.
  unfoldable pub start : Runtime → Crypto PublicKey → Env → Result (Server PublicKey)
  start runtime crypto env = load_config runtime crypto env >>= λ config. ok (build_server config)

unfoldable pub log_tool_count : ℕ → Text
unfolding decimal lit
log_tool_count count =
    lit "Registered "
    ++ decimal count
    ++ lit " tools."
    ++ (if ltb 128 count then lit " Warning: more than 128 tools are exposed." else [])
    ++ lit "\n"
