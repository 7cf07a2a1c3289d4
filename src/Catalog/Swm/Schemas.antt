-- ===== src/Catalog/Swm/Schemas.antt =====
-- src/commands/registry/families/swm.ts: the schemas of its arguments.
use vigor3912s_mcp.Common.{[], ◌∷◌}
use vigor3912s_mcp.Zod.{Zod, string, refine, regex, of_text}
use vigor3912s_mcp.Validators.{safe_text, hex_digits}
use vigor3912s_mcp.Catalog.Schemas.{has_no_space}

-- The 12 hex digits of a MAC.
abbrev pub swm_mac : Zod
swm_mac = string (regex (hex_digits 12) ∷ [])

abbrev pub swm_token : Zod
swm_token = refine (safe_text 255) (of_text has_no_space)
