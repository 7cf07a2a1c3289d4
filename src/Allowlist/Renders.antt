-- ===== src/Allowlist/Renders.antt =====
-- The commands that src/commands/read-allowlist.ts permits are commands of the read tools.
use vigor3912s_mcp.Common.{◌≡◌, List, [], ◌∷◌, ◌++◌, Text, text_key, ok}
use vigor3912s_mcp.Values.{str}
use vigor3912s_mcp.Zod.{Zod}
use vigor3912s_mcp.Registry.{CommandDef}
use vigor3912s_mcp.Client.{Allowlist}

-- A read renders its host as it is, behind the same text for every host.
abbrev pub AppendsHost : CommandDef → Type 0
AppendsHost cmd =
    (before : Text) × ((host : Text) → cmd.render (("host", str host) ∷ []) ≡ ok (before ++ host))
