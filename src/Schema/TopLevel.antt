-- ===== src/Schema/TopLevel.antt =====
-- src/sdk/schema-to-zod.ts at the top level: the arguments of a tool and the parser of its input.
use vigor3912s_mcp.Common.{
  ℕ, ◌+◌, String, Bool, true, false, not, ◌&&◌, Option, none, some, List, [], ◌∷◌, ◌++◌, Text, lit,
  if◌then◌else◌, lookup, insert, get_or, string_key, ◌==◌, Result, ok, ◌>>=◌,
}
use vigor3912s_mcp.Values.{Value, undefined}
use vigor3912s_mcp.Zod.{
  Zod, union, discriminated_union, object, strict_object, optional, undefined_type, Shape, no_key,
  key,
}
use vigor3912s_mcp.Registry.Builders.{Converted, Parsed}
use vigor3912s_mcp.Schema.{
  JsonSchema, schema, Properties, no_properties, properties, PropertyList, no_property, property,
  no_one_of, one_of, Branches, no_branch, branch, Keywords, check_known_keys, build_enum,
  options_of, one_or_union, is_defined, is_type, described, thrown, branch_path, property_path,
  convert_schema, convert_object_shape, convert_branches,
}

pub record ConvertedSchema : Type 0 where
  pub shape : List (String × Zod)
  pub full : Zod
  pub wraps_input : Bool

abbrev pub keywords : JsonSchema → Keywords
keywords (schema k props one item) = k

abbrev pub list_of : Properties → PropertyList
list_of no_properties = no_property
list_of (properties list) = list

abbrev pub properties_of : JsonSchema → PropertyList
properties_of (schema k props one item) = list_of props

-- `properties[name]`
abbrev pub property_of : String → PropertyList → Option JsonSchema
property_of name no_property = none
property_of name (property k s list) = if k == name then some s else property_of name list

abbrev pub const_of : Option JsonSchema → Value
const_of none = undefined
const_of (some s) = (keywords s).const

-- `b.properties?.[key]?.const !== undefined`
abbrev pub has_const : String → JsonSchema → Bool
has_const name b = is_defined (const_of (property_of name (properties_of b)))

abbrev pub every : (JsonSchema → Bool) → Branches → Bool
every p no_branch = true
every p (branch b branches) = p b && every p branches

unfoldable pub first_const : PropertyList → Branches → Option String
first_const no_property branches = none
first_const (property name s list) branches =
    let later = first_const list branches in
    if every (has_const name) branches then some name else later

-- `findCommonConstDiscriminator`; there is a first branch.
unfoldable pub find_common_const_discriminator : Branches → Option String
unfolding first_const
find_common_const_discriminator no_branch = none
find_common_const_discriminator (branch b branches) =
    first_const (properties_of b) (branch b branches)

abbrev pub is_discriminator : Option String → String → Bool
is_discriminator none name = false
is_discriminator (some d) name = name == d

-- `propTypes`, with one more type for a key.
unfoldable pub add_type : String → Zod → List (String × List Zod) → List (String × List Zod)
unfolding lookup insert
add_type name z types = insert name (get_or (lookup name types) [] ++ (z ∷ [])) types

unfoldable pub collect_properties :
    Option String
    → Text
    → PropertyList
    → List (String × List Zod)
    → Result (List (String × List Zod))
unfolding convert_schema property_path add_type
collect_properties d path no_property types = ok types
collect_properties d path (property name s list) types =
    let skipped = collect_properties d path list types in
    let taken = convert_schema s (property_path path name) >>= λ z.
    collect_properties d path list (add_type name z types) in
    if is_discriminator d name then skipped else taken

unfoldable pub collect_branches :
    Option String
    → Text
    → ℕ
    → Branches
    → List (String × List Zod)
    → Result (List (String × List Zod))
unfolding collect_properties branch_path check_known_keys
collect_branches d path i no_branch types = ok types
collect_branches d path i (branch b branches) types =
    check_known_keys (keywords b).keys (branch_path path i) >>= λ _.
    collect_properties d (branch_path path i) (properties_of b) types >>= λ more.
    collect_branches d path (i + 1) branches more

abbrev pub consts_of : String → Branches → List Value
consts_of d no_branch = []
consts_of d (branch b branches) = const_of (property_of d (properties_of b)) ∷ consts_of d branches

abbrev pub discriminant : Option String → Branches → Text → Result (List (String × Zod))
discriminant none branches path = ok []
discriminant (some d) branches path =
    build_enum (consts_of d branches) path >>= λ z. ok ((d, z) ∷ [])

abbrev pub merged : List (String × List Zod) → List (String × Zod)
merged [] = []
merged ((name, zs) ∷ types) = (name, optional (one_or_union zs)) ∷ merged types

-- `flattenObjectOneOf`
unfoldable pub flatten_object_one_of :
    Branches → Option String → Text → Result (List (String × Zod))
unfolding collect_branches build_enum
flatten_object_one_of branches d path = do
  types ← collect_branches d path 0 branches []
  first ← discriminant d branches path
  ok (first ++ merged types)

abbrev pub entries_of : Shape → List (String × Zod)
entries_of no_key = []
entries_of (key name z shape) = (name, z) ∷ entries_of shape

-- The whole input in one argument.
abbrev pub as_input : Zod → ConvertedSchema
as_input z = record { shape = ("input", z) ∷ []; full = z; wraps_input = true }

abbrev pub is_object_branch : JsonSchema → Bool
is_object_branch (schema k no_properties one item) = false
is_object_branch (schema k (properties list) one item) = is_type k "object"

abbrev pub full_of : Option String → List Zod → Zod
full_of none zs = union (options_of zs)
full_of (some d) zs = discriminated_union d (options_of zs)

abbrev pub has_two : Branches → Bool
has_two (branch a (branch b branches)) = true
has_two branches = false

abbrev pub flattened : JsonSchema → Option String → List (String × Zod) → List Zod → ConvertedSchema
flattened s d shape zs = record {
  shape = shape;
  full = described (keywords s).description (full_of d zs);
  wraps_input = false;
}

-- `buildTopLevelOneOf`
unfoldable pub build_top_level_one_of : JsonSchema → Branches → Text → Result ConvertedSchema
unfolding thrown lit convert_schema convert_branches flatten_object_one_of
    find_common_const_discriminator
build_top_level_one_of s branches path =
    if not (has_two branches)
    then thrown (lit "top-level oneOf must have at least 2 branches" ∷ [])
    else if not (every is_object_branch branches)
    then (convert_schema s path >>= (λ z. ok (as_input z)))
    else (let d = find_common_const_discriminator branches in
        flatten_object_one_of branches d path
        >>= (λ shape. convert_branches branches path 0 >>= (λ zs. ok (flattened s d shape zs))))

abbrev pub from_shape : Keywords → Shape → ConvertedSchema
from_shape k shape = record {
  shape = entries_of shape;
  full = described k.description (if k.closed then strict_object shape else object shape);
  wraps_input = false;
}

abbrev pub dollar : Text
dollar = lit "$"

-- Behind the first test of `jsonSchemaToZod`.
unfoldable pub top_level : JsonSchema → Result ConvertedSchema
unfolding build_top_level_one_of convert_schema convert_object_shape lit
top_level (schema k props (one_of branches) item) =
    build_top_level_one_of (schema k props (one_of branches) item) branches dollar
top_level (schema k props no_one_of item) =
    if is_type k "object"
    then (convert_object_shape k.required props dollar >>= (λ shape. ok (from_shape k shape)))
    else (convert_schema (schema k props no_one_of item) dollar >>= (λ z. ok (as_input z)))

-- `jsonSchemaToZod`
unfoldable pub json_schema_to_zod : Option JsonSchema → Result ConvertedSchema
unfolding top_level check_known_keys
json_schema_to_zod none = ok (record { shape = []; full = undefined_type; wraps_input = false })
json_schema_to_zod (some s) = check_known_keys (keywords s).keys dollar >>= λ _. top_level s

-- What the builders take from it, with the parser of the schema library.
abbrev pub converted_by : (Zod → Value → Parsed) → ConvertedSchema → Converted
converted_by safe_parse c = record {
  shape = c.shape;
  full = safe_parse c.full;
  wraps_input = c.wraps_input;
}
