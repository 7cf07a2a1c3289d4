-- ===== src/Server/Tests.antt =====
-- A server started from a concrete environment (src/index.ts).
use vigor3912s_mcp.Common.{
  ℕ, starts_with, text_eq, ◌≡◌, refl, ap, none, List, [], ◌∷◌, Text, lit, ok, ◌>>=◌,
}
use mathlib.Core.List.{Memᴰ}
use mathlib.Core.List.Memᴰ.{head}
use vigor3912s_mcp.Registry.{CommandDef, write}
use vigor3912s_mcp.Log.{LogStore}
use vigor3912s_mcp.Gate.Tests.{plain_crypto}
use vigor3912s_mcp.Config.{VigorConfig, load_config}
use vigor3912s_mcp.Config.Tests.{runtime, env, config, loads}
use vigor3912s_mcp.Build.{registered, is_tool_enabled}
use vigor3912s_mcp.Build.Tests.{tool}
use vigor3912s_mcp.Server.{build_server, start, options_of, log_tool_count}
use vigor3912s_mcp.Server.Start.{OffersWrite, start-OffersWrite}

log_tool_count_test : log_tool_count 12 ≡ lit "Registered 12 tools.\n"
unfolding log_tool_count
log_tool_count_test = refl

abbrev no_store : Text → LogStore
no_store path = record { db = none }

abbrev tools : List CommandDef
tools = tool write ∷ []

starts : start no_store tools runtime plain_crypto env ≡ ok (build_server no_store tools config)
unfolding start
starts = ap (λ r. r >>= λ c. ok (build_server no_store tools c)) loads

offers : Memᴰ (tool write) (build_server no_store tools config).tools
unfolding build_server registered is_tool_enabled options_of load_config starts_with text_eq
offers = head refl

start-OffersWrite_example :
    (c : VigorConfig ℕ) × (load_config runtime plain_crypto env ≡ ok c)
    × OffersWrite no_store tools runtime plain_crypto c
        (build_server no_store tools config)
        (tool write)
start-OffersWrite_example =
    start-OffersWrite no_store tools runtime plain_crypto env (build_server no_store tools config)
      (tool write) starts refl offers
