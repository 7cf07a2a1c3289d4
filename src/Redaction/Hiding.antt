-- ===== src/Redaction/Hiding.antt =====
-- What the stored arguments of a call show (src/tools/redaction.ts, `redactArgs`).
use vigor3912s_mcp.Common.{
  String, ◌≡◌, none, some, List, [], ◌∷◌, arith, contains, lookup, has, string_key, if◌then◌else◌,
  lit, eq_iff, ap,
}
use vigor3912s_mcp.Values.{str, Args}
use vigor3912s_mcp.Redaction.{redact_args}

-- In the arguments that are logged, every secret argument that is there shows as three stars,
-- whatever its value, and every other argument shows as it is; none is added or lost.
pub lookup-redact_args :
    (args : Args) (secret_args : List String) (key : String)
    → lookup key (redact_args args secret_args) ≡ (
        if contains secret_args key
        then if has key args then some (str (lit "***")) else none
        else lookup key args)
unfolding redact_args lookup
lookup-redact_args [] secret_args key = ground arith
lookup-redact_args ((k, v) ∷ args) secret_args key = ground (
  arith,
  lookup-redact_args args secret_args key,
  eq_iff k key,
  λ (e : k ≡ key). ap (contains secret_args) e,
)
