-- ===== src/Config/Tests.antt =====
-- A concrete environment (src/config.ts).
use vigor3912s_mcp.Common.{
  ℕ, true, false, ◌≡◌, refl, none, some, [], ◌∷◌, ok, err, starts_with, string_key,
}
use vigor3912s_mcp.Gate.Tests.{plain_crypto}
use vigor3912s_mcp.Config.{Env, VigorConfig, Runtime, all, load_config}
use vigor3912s_mcp.Config.Loaded.{Guarded, load_config-Guarded}

abbrev pub runtime : Runtime
runtime = record {
  to_number = λ s. some 22;
  to_json = λ s. s;
  resolve_data_path = λ s. s;
  pending_beside = λ s. s;
  schema_message = λ env. [];
  read_command_ids = "show_status" ∷ [];
}

abbrev pub env : Env
env = record {
  vigor_host = none;
  vigor_port = some (50 ∷ 50 ∷ []);
  vigor_user = none;
  vigor_password = some (112 ∷ []);
  vigor_log_db = none;
  vigor_pending_file = none;
  vigor_read_only = none;
  vigor_auto_commit = none;
  vigor_approve_pubkey = some (107 ∷ []);
  expose_tools = none;
  vigor_disabled_tools = none;
  vigor_tool_output_limit = none;
  vigor_ssh_host_fingerprint = some (102 ∷ []);
  vigor_ssh_insecure_skip_verify = none;
}

abbrev pub config : VigorConfig ℕ
config = elim (load_config runtime plain_crypto env) [
  | ok c ↦ c
  | err e ↦ record {
    host = [];
    port = 0;
    username = [];
    password = [];
    log_db = [];
    pending_file = none;
    read_only = true;
    auto_commit = false;
    approve_public_key = none;
    expose_tools = all;
    disabled_tools = [];
    tool_output_limit = 0;
    ssh_host_fingerprint = none;
    ssh_insecure_skip_host_verify = true;
  }
]

pub loads : load_config runtime plain_crypto env ≡ ok config
unfolding load_config starts_with
loads = refl

load_config-Guarded_example : Guarded runtime plain_crypto config
load_config-Guarded_example = load_config-Guarded runtime plain_crypto env config loads
