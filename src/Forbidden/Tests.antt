-- ===== src/Forbidden/Tests.antt =====
-- Concrete frames (src/commands/forbidden.ts).
use vigor3912s_mcp.Common.{◌≡◌, refl, List, [], ◌∷◌, Text, lit, join, any}
use vigor3912s_mcp.Forbidden.{is_forbidden}
use vigor3912s_mcp.Forbidden.Lines.{is_forbidden-join}

abbrev frames : List Text
frames = (97 ∷ []) ∷ (98 ∷ []) ∷ []

is_forbidden-join_example : is_forbidden (join (lit "\n") frames) ≡ any is_forbidden frames
is_forbidden-join_example = is_forbidden-join frames refl
