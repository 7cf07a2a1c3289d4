-- ===== src/Allowlist.antt =====
-- src/commands/read-allowlist.ts: how the allowlist of raw reads is built from the read commands. What
-- a schema accepts is the schema library's, and a parameter.
pub mod Choices
pub mod Origin
pub mod Permits
pub mod Renders
pub mod Tests
use vigor3912s_mcp.Common.{
  ℕ, ◌-◌, String, Bool, true, false, not, ◌&&◌, Option, none, some, List, [], ◌∷◌, ◌++◌, map, Text,
  lit, if◌then◌else◌, any, keep, leb, length, take, drop, text_eq, insert, string_key, ◌==◌,
  is_some, Result, ok, err, ◌>>=◌, plain_error,
}
use vigor3912s_mcp.Values.{Value, str, Args}
use vigor3912s_mcp.Zod.{Zod, optional, enum, literal, union, describe, Options, no_option, option}
use vigor3912s_mcp.Registry.{CommandDef, read, is_write}
use vigor3912s_mcp.Client.{Allowlist, HostArgMatcher, is_unsafe}

-- `SESSION_EXACT` and `HOST_PROBES`
abbrev pub session_exact : List Text
session_exact = [] ∷ lit "exit" ∷ []

abbrev pub host_probes : List Text
host_probes = lit "0.0.0.0" ∷ lit "::1" ∷ lit "2001:db8::1" ∷ []

-- A value for an argument, or `OMIT`.
pub data Choice : Type 0 where
  value : Value → Choice
  omit : Choice

both : Option (List Choice) → Option (List Choice) → Option (List Choice)
both (some xs) (some ys) = some (xs ++ ys)
both _ _ = none

-- `extractEnumValues`. The options of a discriminated union are schemas; no argument has one, and
-- it counts as not expandable.
unfoldable mutual
  unfolding both

  pub extract_enum_values : Zod → Option (List Choice)
  extract_enum_values (optional inner) = both (extract_enum_values inner) (some (omit ∷ []))
  extract_enum_values (enum values) = some (map (λ (v : Text). value (str v)) values)
  extract_enum_values (literal v) = some (value v ∷ [])
  extract_enum_values (union options) = extract_options options
  extract_enum_values (describe text schema) = extract_enum_values schema
  extract_enum_values _ = none

  pub extract_options : Options → Option (List Choice)
  extract_options no_option = some []
  extract_options (option schema options) =
      both (extract_enum_values schema) (extract_options options)

abbrev with_choice : String → Args → Choice → Args
with_choice key base omit = base
with_choice key base (value v) = insert key v base

choose : String → List Choice → List Args → List Args
unfolding insert
choose key values [] = []
choose key values (base ∷ combos) = map (with_choice key base) values ++ choose key values combos

-- `expandArgCombos`, from the combinations of the earlier keys.
unfoldable pub expand_arg_combos : List (String × List Choice) → List Args → List Args
unfolding choose
expand_arg_combos [] combos = combos
expand_arg_combos ((key, values) ∷ lists) combos =
    expand_arg_combos lists (choose key values combos)

abbrev pub is_unsafe_choice : Choice → Bool
unfolding is_unsafe
is_unsafe_choice (value (str s)) = any is_unsafe s
is_unsafe_choice _ = false

abbrev is_empty : {A : Type 0} → List A → Bool
is_empty [] = true
is_empty (x ∷ xs) = false

thrown : {A : Type 0} → String → String → String → Result A
unfolding lit
thrown before id after = err (plain_error none (lit before ++ (lit id ++ lit after)))

abbrev add_list :
    String
    → List Choice
    → Option (List (String × List Choice))
    → Option (List (String × List Choice))
add_list key values none = none
add_list key values (some lists) = some ((key, values) ∷ lists)

-- The turn of the loop over the arguments for one key, before the turns for the later ones.
with_values :
    String
    → String
    → Option (List Choice)
    → Result (Option (List (String × List Choice)))
    → Result (Option (List (String × List Choice)))
unfolding thrown is_unsafe_choice
with_values id key none rest = ok none
with_values id key (some values) rest =
    if is_empty values
    then ok none
    else if any is_unsafe_choice values
    then thrown "read-allowlist: unsafe enum value for \"" id "\""
    else (rest >>= (λ o. ok (add_list key values o)))

-- The values of every argument; none if one of them is not expandable.
unfoldable pub value_lists :
    String → List (String × Zod) → Result (Option (List (String × List Choice)))
unfolding with_values extract_enum_values
value_lists id [] = ok (some [])
value_lists id ((key, schema) ∷ args) =
    let rest = value_lists id args in with_values id key (extract_enum_values schema) rest

unfoldable pub render_all : CommandDef → List Args → Result (List Text)
render_all cmd [] = ok []
render_all cmd (args ∷ combos) =
    let rest = render_all cmd combos in
    cmd.render args >>= λ text. rest >>= λ texts. ok (text ∷ texts)

abbrev host_only : List (String × Zod) → Option Zod
host_only ((key, schema) ∷ []) = if key == "host" then some schema else none
host_only _ = none

ends_with : Text → Text → Bool
unfolding text_eq drop
ends_with s end = leb (length end) (length s) && text_eq (drop (length s - length end) s) end

first_such : (Text → Bool) → List Text → Option Text
first_such p [] = none
first_such p (s ∷ texts) = if p s then some s else first_such p texts

-- The reads without arguments.
exact_reads : List CommandDef → Result (List Text)
exact_reads [] = ok []
exact_reads (cmd ∷ commands) =
    let rest = exact_reads commands in
    if is_empty cmd.args
    then (cmd.render [] >>= (λ text. rest >>= (λ texts. ok (text ∷ texts))))
    else rest

-- What one parameterized read adds to the allowlist.
abbrev pub nothing_added : Allowlist
nothing_added = record { read_exact = []; host_arg_matchers = [] }

abbrev pub together : Allowlist → Allowlist → Allowlist
together first later = record {
  read_exact = first.read_exact ++ later.read_exact;
  host_arg_matchers = first.host_arg_matchers ++ later.host_arg_matchers;
}

abbrev pub with_exact : List Text → Allowlist → Allowlist
with_exact exact built = record built { read_exact = session_exact ++ (exact ++ built.read_exact) }

module _ (accepts : Zod → Text → Bool) where
  -- The matcher of a command that was rendered for a sample host.
  matcher_added : CommandDef → Zod → Text → Text → Result Allowlist
  unfolding thrown ends_with take
  matcher_added cmd schema sample rendered =
      if ends_with rendered sample
      then ok (record {
        read_exact = [];
        host_arg_matchers =
            record {
              prefix = take (length rendered - length sample) rendered;
              host_schema = accepts schema;
            }
            ∷ [];
      })
      else thrown "read-allowlist: render() for \"" cmd.id "\" does not end with host"

  host_added : CommandDef → Zod → Option Text → Result Allowlist
  unfolding thrown matcher_added
  host_added cmd schema none = thrown "read-allowlist: no probe host validates for \"" cmd.id "\""
  host_added cmd schema (some sample) =
      cmd.render (("host", str sample) ∷ []) >>= matcher_added cmd schema sample

  expanded : CommandDef → Option (List (String × List Choice)) → Result Allowlist
  unfolding thrown expand_arg_combos render_all
  expanded cmd none =
      if is_some cmd.sdk
      then ok nothing_added
      else thrown "read-allowlist: parameterized read \"" cmd.id
          "\" args must be Zod enum/literal/union-of-literals or host"
  expanded cmd (some lists) = render_all cmd (expand_arg_combos lists ([] ∷ [])) >>= λ texts.
      ok (record { read_exact = texts; host_arg_matchers = [] })

  -- One turn of the loop of `buildHostArgMatchers`.
  unfoldable pub added_by : CommandDef → Result Allowlist
  unfolding host_added expanded value_lists first_such
  added_by cmd = if is_empty cmd.args then ok nothing_added else elim (host_only cmd.args) [
    | some schema ↦ host_added cmd schema (first_such (accepts schema) host_probes)
    | none ↦ value_lists cmd.id cmd.args >>= expanded cmd
  ]

  -- `buildHostArgMatchers`
  unfoldable pub build_host_arg_matchers : List CommandDef → Result Allowlist
  unfolding added_by
  build_host_arg_matchers [] = ok nothing_added
  build_host_arg_matchers (cmd ∷ commands) =
      let rest = build_host_arg_matchers commands in
      added_by cmd >>= λ first. rest >>= λ later. ok (together first later)

  -- The allowlist of the read commands, as the module builds it when it is loaded.
  unfoldable pub build_allowlist : List CommandDef → Result Allowlist
  unfolding exact_reads build_host_arg_matchers
  build_allowlist commands = do
    exact ← exact_reads commands
    built ← build_host_arg_matchers commands
    ok (with_exact exact built)
