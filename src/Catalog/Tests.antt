-- ===== src/Catalog/Tests.antt =====
-- Runs of the curated tools (src/commands/registry/families).
use mathlib.Core.List.{Memᴰ, List}
use vigor3912s_mcp.Common.{
  are_distinct, string_key, String, true, false, Option, none, ◌++◌, Result, err, is_some,
}
use vigor3912s_mcp.Registry.{CommandDef, FamilyDef}
use vigor3912s_mcp.Registry.Builders.{Converted, success}
use vigor3912s_mcp.Registry.Generated.{collect_ids}
use vigor3912s_mcp.Client.{Operation}
use vigor3912s_mcp.Catalog.Entries.{Entry, typed_tool, FamilyEntries}
use vigor3912s_mcp.Catalog.Curated.{curated_registry}
use vigor3912s_mcp.Catalog.Registered.{linked_curated_registry, all_commands, find_command}
use vigor3912s_mcp.Catalog.Ids.{linked_curated_registry-are_distinct, find_command-finds}
use vigor3912s_mcp.Common.{◌≡◌, refl, some, [], ◌∷◌, lit, text_eq, lookup, ok, is_ok}
use mathlib.Core.List.Memᴰ.{head}
use vigor3912s_mcp.Values.{Value, num, str, obj, Fields, end, field, Args, arg}
use vigor3912s_mcp.Catalog.Inputs.{case_for, switch_input, require_all, in_case, make_input}
use vigor3912s_mcp.Catalog.Access.{hsportal_setup_switch}
use vigor3912s_mcp.Catalog.Cases.{switch_input-tag, field_of}

abbrev landing_page : Args
landing_page =
    ("profile", num (lit "2"))
    ∷ ("action", str (lit "landingPageMode"))
    ∷ ("mode", num (lit "1"))
    ∷ []

abbrev landing_page_input : Value
landing_page_input = obj (
    field "profile" (num (lit "2"))
      (field "action" (str (lit "landingPageMode")) (field "mode" (num (lit "1")) end)))

landing_page_made : switch_input hsportal_setup_switch landing_page ≡ ok landing_page_input
unfolding switch_input in_case make_input case_for require_all lit text_eq
landing_page_made = refl

switch_input-tag_example :
    (fs : Fields) × (landing_page_input ≡ obj fs)
    × (field_of "action" fs ≡ some (arg landing_page "action"))
switch_input-tag_example =
    switch_input-tag hsportal_setup_switch (head refl) landing_page landing_page_input
      landing_page_made

-- An SDK that has a read under every id that the curated tools name.
abbrev named_operations : List Entry → List (String × Operation)
named_operations [] = []
named_operations (typed_tool id family manifest_id desc opts ∷ entries) =
    (
      manifest_id,
      record { manifest_id = manifest_id; classification = "read"; build_frames = λ input. ok [] },
    )
    ∷ named_operations entries
named_operations (e ∷ entries) = named_operations entries

abbrev entries_in : List FamilyEntries → List Entry
entries_in [] = []
entries_in (f ∷ families) = f.commands ++ entries_in families

abbrev operations : List (String × Operation)
operations = named_operations (entries_in curated_registry)

abbrev no_schema : String → Converted × List String
no_schema id = (record { shape = []; full = λ v. success v; wraps_input = false }, [])

abbrev as_sorted : List Operation → List Operation
as_sorted ops = ops

abbrev or_empty : Result (List FamilyDef) → List FamilyDef
or_empty (ok families) = families
or_empty (err e) = []

abbrev families : List FamilyDef
families = or_empty (linked_curated_registry operations no_schema as_sorted)

or_empty-is_ok : (r : Result (List FamilyDef)) → is_ok r ≡ true → r ≡ ok (or_empty r)
or_empty-is_ok (ok families) h = refl
or_empty-is_ok (err e) h = cc

families_build : is_ok (linked_curated_registry operations no_schema as_sorted) ≡ true
unfolding linked_curated_registry lookup
families_build = refl

linked_curated_registry-are_distinct_example : are_distinct (collect_ids families) ≡ true
linked_curated_registry-are_distinct_example =
    linked_curated_registry-are_distinct operations no_schema as_sorted families
      (or_empty-is_ok (linked_curated_registry operations no_schema as_sorted) families_build)

abbrev no_class : String → Option String
no_class id = none

find_command-finds_example :
    ((c : CommandDef)
      → Memᴰ c (all_commands no_class families)
      → is_some (find_command no_class families c.id) ≡ true)
    × ((id : String) (c : CommandDef)
        → find_command no_class families id ≡ some c
        → Memᴰ c (all_commands no_class families) × (c.id ≡ id))
find_command-finds_example = find_command-finds no_class families
