-- ===== src/Allowlist/Tests.antt =====
-- A concrete allowlist (src/commands/read-allowlist.ts).
use vigor3912s_mcp.Common.{
  ◌≡◌, refl, text_key, Bool, true, none, List, [], ◌∷◌, ◌++◌, Text, lit, text_eq, lookup, Result,
  ok,
}
use vigor3912s_mcp.Values.{to_string, Args, arg}
use vigor3912s_mcp.Zod.{Zod, one_of}
use vigor3912s_mcp.Validators.{ipv4}
use vigor3912s_mcp.Registry.{CommandDef}
use vigor3912s_mcp.Registry.Builders.{plain_read, read_with_args}
use vigor3912s_mcp.Client.{Allowlist, is_allowed_read_command}
use vigor3912s_mcp.Allowlist.{build_allowlist}
use mathlib.Core.List.{Memᴰ}
use vigor3912s_mcp.Allowlist.Permits.{Permitted, build_allowlist-Permitted}

abbrev ping : Args → Result Text
ping args = ok (lit "ip ping " ++ to_string (arg args "host"))

abbrev group : Args → Result Text
group args = ok (lit "csm appe show " ++ to_string (arg args "group"))

abbrev reads : List CommandDef
reads =
    plain_read "show_lan" "show" (lit "show lan") "LAN" none
    ∷ read_with_args "ip_ping" "ip" ping (("host", ipv4) ∷ []) "Ping" none
    ∷ read_with_args "csm_appe_show" "csm" group (("group", one_of ("all" ∷ "im" ∷ [])) ∷ []) "APP"
        none
    ∷ []

abbrev any_text : Zod → Text → Bool
any_text schema text = true

abbrev allow : Allowlist
allow = record {
  read_exact =
      [] ∷ lit "exit" ∷ lit "show lan" ∷ lit "csm appe show all" ∷ lit "csm appe show im" ∷ [];
  host_arg_matchers = record { prefix = lit "ip ping "; host_schema = any_text ipv4 } ∷ [];
}

reads_build : build_allowlist any_text reads ≡ ok allow
unfolding build_allowlist plain_read read_with_args to_string lookup
reads_build = refl

ping_is_allowed : is_allowed_read_command allow (lit "ip ping 10.0.0.1") ≡ true
unfolding is_allowed_read_command lit text_eq
ping_is_allowed = refl

build_allowlist-Permitted_example : Permitted any_text reads (lit "ip ping 10.0.0.1")
build_allowlist-Permitted_example =
    build_allowlist-Permitted any_text reads allow reads_build (lit "ip ping 10.0.0.1")
      ping_is_allowed
