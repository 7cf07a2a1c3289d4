-- ===== src/Redaction.antt =====
-- src/tools/redaction.ts: secrets replaced by named markers, and the human's re-entry of them.
pub mod Hiding
pub mod Tests
use vigor3912s_mcp.Common.{
  ℕ, zero, suc, ◌+◌, ◌-◌, String, Bool, true, false, not, ◌≡◌, refl, ◌&&◌, ◌||◌, Option, none, some,
  List, [], ◌∷◌, ◌++◌, Text, lit, eqb, ltb, if◌then◌else◌, any, all, is_some, ◌==◌, text_key,
  string_key, starts_with, text_eq, length, map, lookup, contains, Result, ok, err, plain_error,
}
use vigor3912s_mcp.Values.{Value, undefined, null, str, Args, arg, to_string}
use vigor3912s_mcp.Crypto.{Crypto, includes, digest_command}
use vigor3912s_mcp.Gate.{PendingIntentView}

unfoldable pub placeholder : String → Text
unfolding lit
placeholder field = lit "<redacted:" ++ (lit field ++ lit ">")

-- `text.split(value).join(replacement)` for a value that is not empty: the occurrences from the
-- left that do not overlap. The number counts what is left of an occurrence to skip.
replace_from : ℕ → Text → Text → Text → Text
replace_from skip value replacement [] = []
replace_from (suc skip) value replacement (c ∷ s) = replace_from skip value replacement s
replace_from zero value replacement (c ∷ s) =
    let after = replace_from (length value - 1) value replacement s in
    let next = replace_from zero value replacement s in
    if starts_with (c ∷ s) value then replacement ++ after else c ∷ next

unfoldable pub replace_all : Text → Text → Text → Text
unfolding replace_from starts_with
replace_all value replacement s = replace_from zero value replacement s

-- A part of a command between markers, or a marker.
pub data Part : Type 0 where
  plain marker : Text → Part

-- The length of `[^>]*>` at the start of a text.
to_bracket : Text → Option ℕ
to_bracket [] = none
to_bracket (c ∷ s) =
    let rest = to_bracket s in
    if eqb c 62 then some 1 else elim rest [ none ↦ none | some n ↦ some (suc n) ]

-- The rest of the marker `<redacted:[^>]*>` that the text begins with, behind its first character.
marker_rest : Text → Option ℕ
unfolding starts_with lit to_bracket
marker_rest s =
    if starts_with s (lit "<redacted:")
    then elim (to_bracket s) [ some (suc n) ↦ some n | _ ↦ none ]
    else none

to_plain : ℕ → List Part → List Part
to_plain c (plain s ∷ parts) = plain (c ∷ s) ∷ parts
to_plain c parts = plain (c ∷ []) ∷ parts

to_marker : ℕ → List Part → List Part
to_marker c (marker s ∷ parts) = marker (c ∷ s) ∷ parts
to_marker c parts = marker (c ∷ []) ∷ parts

-- `text.split(/(<redacted:[^>]*>)/g)`: the number counts what is left of a marker. A marker's last
-- character begins a new marker part, and the others are put in front of it.
split_from : ℕ → Text → List Part
unfolding marker_rest to_plain to_marker
split_from left [] = plain [] ∷ []
split_from (suc zero) (c ∷ s) = marker (c ∷ []) ∷ split_from zero s
split_from (suc (suc left)) (c ∷ s) = to_marker c (split_from (suc left) s)
split_from zero (c ∷ s) =
    let as_plain = to_plain c (split_from zero s) in
    elim (marker_rest (c ∷ s)) [
      | none ↦ as_plain
      | some left ↦ plain [] ∷ to_marker c (split_from left s)
    ]

unfoldable pub split_markers : Text → List Part
unfolding split_from
split_markers s = split_from zero s

redact_part : Text → Text → Part → Text
unfolding replace_all
redact_part value replacement (plain s) = replace_all value replacement s
redact_part value replacement (marker s) = s

join_parts : Text → Text → List Part → Text
unfolding redact_part
join_parts value replacement [] = []
join_parts value replacement (p ∷ parts) =
    redact_part value replacement p ++ join_parts value replacement parts

holds : Text → Part → Bool
unfolding includes
holds value (plain s) = includes s value
holds value (marker s) = false

-- A secret argument with its value as a text, if it has one.
abbrev secret_text : Value → Text
secret_text undefined = []
secret_text null = []
secret_text v = to_string v

secrets_of : Args → List String → List (String × Text)
unfolding to_string lookup
secrets_of args [] = []
secrets_of args (key ∷ keys) =
    let rest = secrets_of args keys in
    let value = secret_text (arg args key) in
    if eqb (length value) 0 then rest else (key, value) ∷ rest

-- The stable sort by falling length of the value.
insert_by_length : String × Text → List (String × Text) → List (String × Text)
insert_by_length (k, v) [] = (k, v) ∷ []
insert_by_length (k, v) ((j, w) ∷ rest) =
    let later = insert_by_length (k, v) rest in
    if ltb (length v) (length w) then (j, w) ∷ later else (k, v) ∷ (j, w) ∷ rest

sort_by_length : List (String × Text) → List (String × Text)
unfolding insert_by_length
sort_by_length [] = []
sort_by_length (s ∷ rest) = insert_by_length s (sort_by_length rest)

pub record Redacted : Type 0 where
  pub preview : Text
  pub fields : List String

-- The loop over the secrets.
redact_from : Text → List String → List (String × Text) → Redacted
unfolding split_markers join_parts holds
redact_from out fields [] = record { preview = out; fields = fields }
redact_from out fields ((key, value) ∷ rest) =
    let parts = split_markers out in
    redact_from (join_parts value (placeholder key) parts)
      (if any (holds value) parts then fields ++ key ∷ [] else fields) rest

unfoldable pub redact_command : Text → Args → List String → Result Redacted
unfolding redact_from sort_by_length secrets_of includes lit placeholder
redact_command command args secret_args =
    if includes command (lit "<redacted:")
    then err (plain_error (some "invalid") (lit "command contains reserved redaction marker"))
    else ok (redact_from command [] (sort_by_length (secrets_of args secret_args)))

-- The object that `redactArgs` prints as JSON.
unfoldable pub redact_args : Args → List String → Args
unfolding contains lit
redact_args [] secret_args = []
redact_args ((k, v) ∷ args) secret_args =
    (k, (if contains secret_args k then str (lit "***") else v)) ∷ redact_args args secret_args

-- `command.split(placeholder(field)).join(value)` for each entry in order
unfoldable pub restore_command : Text → List (String × Text) → Text
unfolding replace_all placeholder
restore_command preview [] = preview
restore_command preview ((field, value) ∷ values) =
    restore_command (replace_all (placeholder field) value preview) values

unfoldable pub verify_reentry :
    {PublicKey : Type 0} → Crypto PublicKey → PendingIntentView → List (String × Text) → Bool
unfolding restore_command digest_command
verify_reentry crypto view values =
    if any (λ field. not (is_some (lookup field values))) view.redacted_fields
    then false
    else digest_command crypto (restore_command view.command_preview values) == view.command_digest

abbrev sample : Result Redacted
sample =
    redact_command (lit "set pw hunter2 user hunter")
      (("user", str (lit "hunter")) ∷ ("pw", str (lit "hunter2")) ∷ []) ("user" ∷ "pw" ∷ [])

redact_command_test :
    sample
    ≡ ok (record {
      preview = lit "set pw <redacted:pw> user <redacted:user>";
      fields = "pw" ∷ "user" ∷ [];
    })
unfolding redact_command
redact_command_test = refl
