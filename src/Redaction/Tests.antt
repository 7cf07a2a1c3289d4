-- ===== src/Redaction/Tests.antt =====
-- Concrete arguments (src/tools/redaction.ts).
use vigor3912s_mcp.Common.{
  String, ◌≡◌, some, none, List, [], ◌∷◌, contains, lookup, has, string_key, if◌then◌else◌, lit,
}
use vigor3912s_mcp.Values.{str, Args}
use vigor3912s_mcp.Redaction.{redact_args}
use vigor3912s_mcp.Redaction.Hiding.{lookup-redact_args}

abbrev secrets : List String
secrets = "password" ∷ []

abbrev args : Args
args = ("user", str (97 ∷ [])) ∷ ("password", str (98 ∷ [])) ∷ []

lookup-redact_args_example : lookup "password" (redact_args args secrets) ≡ (
    if contains secrets "password"
    then if has "password" args then some (str (lit "***")) else none
    else lookup "password" args)
lookup-redact_args_example = lookup-redact_args args secrets "password"
