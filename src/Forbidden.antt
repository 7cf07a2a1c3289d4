-- ===== src/Forbidden.antt =====
-- src/commands/forbidden.ts: the hard blocklist.
pub mod Lines
pub mod Tests
use vigor3912s_mcp.Common.{
  ℕ, Bool, true, false, ◌&&◌, ◌||◌, List, [], ◌∷◌, ◌++◌, Text, lit, eqb, if◌then◌else◌, any, ◌==◌,
  ◌≡◌, refl, text_key, starts_with, trim, to_lower_case, is_space, text_eq,
}

abbrev pub forbidden_prefixes : List Text
forbidden_prefixes =
    lit "sys cfg default" ∷ lit "sys halt" ∷ lit "mngt rmtcfg enable" ∷ lit "linux clean" ∷ []

-- `text.replace(/\s+/g, ' ')`; the first argument tells whether the text goes on with a run.
collapse : Bool → Text → Text
unfolding is_space
collapse in_run [] = []
collapse in_run (c ∷ s) =
    let more = collapse true s in
    let next = collapse false s in
    if is_space c then if in_run then more else 32 ∷ more else c ∷ next

pub norm : Text → Text
unfolding to_lower_case collapse trim
norm command = to_lower_case (collapse false (trim command))

abbrev pub push : ℕ → List Text → List Text
push c [] = (c ∷ []) ∷ []
push c (line ∷ rest) = (c ∷ line) ∷ rest

-- `command.split(/\r?\n/)`
pub split_lines : Text → List Text
unfolding starts_with
split_lines [] = [] ∷ []
split_lines (c ∷ s) =
    let rest = split_lines s in
    if eqb c 13 && starts_with s (10 ∷ [])
    then rest
    else if eqb c 10
    then [] ∷ rest
    else push c rest

pub is_forbidden_line : Text → Bool
unfolding norm text_eq starts_with lit
is_forbidden_line line =
    let normalized = norm line in
    any (λ prefix. normalized == prefix || starts_with normalized (prefix ++ lit " "))
      forbidden_prefixes

unfoldable pub is_forbidden : Text → Bool
unfolding split_lines is_forbidden_line
is_forbidden command = any is_forbidden_line (split_lines command)

is_forbidden_tests :
    (is_forbidden (lit "sys  HALT now") ≡ true)
    × (is_forbidden (lit "sys haltx") ≡ false)
    × (is_forbidden (lit "show status\r\n linux clean") ≡ true)
unfolding is_forbidden
is_forbidden_tests = (refl, refl, refl)
