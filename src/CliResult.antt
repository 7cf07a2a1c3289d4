-- ===== src/CliResult.antt =====
-- src/commands/router-cli-result.ts: failures that the router reports in its output.
use vigor3912s_mcp.Common.{
  ℕ, Bool, true, false, ◌≡◌, refl, ◌+◌, ◌&&◌, ◌||◌, not, List, [], ◌∷◌, Text, lit, eqb, leb,
  if◌then◌else◌, any, starts_with, trim, trim_start,
}
use vigor3912s_mcp.Forbidden.{push}

-- The three kinds of line end, split in one pass: `\r\n` and `\r` become `\n` first in the source.
line_ends : Text → List Text
unfolding starts_with
line_ends [] = [] ∷ []
line_ends (c ∷ s) =
    let rest = line_ends s in
    if eqb c 13 && starts_with s (10 ∷ [])
    then rest
    else if eqb c 10 || eqb c 13
    then [] ∷ rest
    else push c rest

-- Case folding of the `i` flag, for ASCII.
fold : ℕ → ℕ
fold c = if leb 65 c && leb c 90 then c + 32 else c

-- A character of `\w`.
is_word : ℕ → Bool
is_word c = (leb 48 c && leb c 57) || (leb 65 c && leb c 90) || eqb c 95 || (leb 97 c && leb c 122)

-- `\b` behind a word character.
at_boundary : Text → Bool
unfolding is_word
at_boundary [] = true
at_boundary (c ∷ s) = not (is_word c)

-- The pattern `word\b` with the `i` flag, at the start of the text.
word_at : Text → Text → Bool
unfolding fold at_boundary
word_at [] s = at_boundary s
word_at (w ∷ ws) [] = false
word_at (w ∷ ws) (c ∷ s) = eqb (fold w) (fold c) && word_at ws s

-- `\s*` before a word, which begins with no space.
spaced : Text → Text → Bool
unfolding word_at trim_start
spaced word s = word_at word (trim_start s)

-- `^%\s*word\b` and `^%%?\s*word\b`
one_percent : Text → Text → Bool
unfolding spaced
one_percent word [] = false
one_percent word (c ∷ s) = eqb c 37 && spaced word s

percents : Text → Text → Bool
unfolding spaced one_percent
percents word [] = false
percents word (c ∷ s) = eqb c 37 && (spaced word s || one_percent word s)

pub is_failure_line : Text → Bool
unfolding percents one_percent trim starts_with lit
is_failure_line line =
    let t = trim line in
    starts_with t (lit "%")
    && (percents (lit "Invalid") t
        || percents (lit "Unknown") t
        || percents (lit "Incomplete") t
        || percents (lit "Error") t
        || percents (lit "Command not found") t
        || one_percent (lit "Invalid command") t
        || one_percent (lit "input") t)

unfoldable pub is_router_cli_failure : Text → Bool
unfolding line_ends is_failure_line
is_router_cli_failure output = any is_failure_line (line_ends output)

is_router_cli_failure_tests :
    (is_router_cli_failure (lit "ok\r\n %% invalid index") ≡ true)
    × (is_router_cli_failure (lit "% Set done.") ≡ false)
    × (is_router_cli_failure (lit "% inputs") ≡ false)
unfolding is_router_cli_failure
is_router_cli_failure_tests = (refl, refl, refl)
