-- ===== src/Schema.antt =====
-- JSON schemas as src/sdk/schema-to-zod.ts and src/sdk/secret-fields.ts read them, and the conversion of
-- the first of these files below the top level.
pub mod TopLevel
pub mod Secrets
pub mod Flatten
pub mod Keeps
pub mod Sensitive
pub mod Tests
use vigor3912s_mcp.Common.{
  ℕ, suc, ◌+◌, String, Bool, true, false, not, Option, none, some, List, [], ◌∷◌, ◌++◌, map, Text,
  lit, if◌then◌else◌, contains, string_key, ◌==◌, all, Result, ok, err, ◌>>=◌, plain_error,
}
use vigor3912s_mcp.Values.{Value, undefined, null, bool, num, str, obj, arr}
use vigor3912s_mcp.Crypto.Digits.{decimal}
use vigor3912s_mcp.Zod.{
  ℤ, Zod, string, number, boolean, unknown, enum, literal, union, array, object, strict_object,
  optional, describe, NumberCheck, int, least, most, SizeCheck, shortest, longest, Options,
  no_option, option, Shape, no_key, key,
}

-- The keywords of one schema that hold no schema; `keys` are all the keys that it has. A missing
-- `required` is an empty one, and `const` is `undefined` where it is missing.
pub record Keywords : Type 0 where
  pub keys : List String
  pub type_name : Option String
  pub required : List String
  pub closed : Bool
  pub enum_values : Option (List Value)
  pub const : Value
  pub description : Text
  pub minimum : Option ℤ
  pub maximum : Option ℤ
  pub min_items : Option ℕ
  pub max_items : Option ℕ

mutual
  pub data JsonSchema : Type 0 where
    schema : Keywords → Properties → OneOf → ItemSchema → JsonSchema

  pub data Properties : Type 0 where
    no_properties : Properties
    properties : PropertyList → Properties

  pub data PropertyList : Type 0 where
    no_property : PropertyList
    property : String → JsonSchema → PropertyList → PropertyList

  pub data OneOf : Type 0 where
    no_one_of : OneOf
    one_of : Branches → OneOf

  pub data Branches : Type 0 where
    no_branch : Branches
    branch : JsonSchema → Branches → Branches

  pub data ItemSchema : Type 0 where
    no_items : ItemSchema
    items : JsonSchema → ItemSchema

abbrev pub known_keys : List String
known_keys =
    "type" ∷ "properties" ∷ "required" ∷ "additionalProperties" ∷ "enum" ∷ "const" ∷ "oneOf"
    ∷ "items" ∷ "description" ∷ "minimum" ∷ "maximum" ∷ "minItems" ∷ "maxItems" ∷ []

abbrev concat : List Text → Text
concat [] = []
concat (s ∷ texts) = s ++ concat texts

unfoldable pub thrown : {A : Type 0} → List Text → Result A
unfolding lit
thrown parts = err (plain_error none (lit "schema-to-zod: " ++ concat parts))

-- `checkKnownKeys`
unfoldable pub check_known_keys : List String → Text → Result (Unit {0})
unfolding contains thrown lit
check_known_keys [] path = ok tt
check_known_keys (k ∷ keys) path =
    let rest = check_known_keys keys path in
    if contains known_keys k
    then rest
    else thrown (lit "unsupported keyword \"" ∷ lit k ∷ lit "\" at " ∷ path ∷ [])

-- The texts among some values, if all of them are texts.
texts_of : List Value → Option (List Text)
texts_of [] = some []
texts_of (str s ∷ values) = elim (texts_of values) [ none ↦ none | some texts ↦ some (s ∷ texts) ]
texts_of (v ∷ values) = none

abbrev pub options_of : List Zod → Options
options_of [] = no_option
options_of (z ∷ zs) = option z (options_of zs)

enum_or_literals : Option (List Text) → List Value → Zod
enum_or_literals (some texts) values = enum texts
enum_or_literals none (v ∷ []) = literal v
enum_or_literals none values = union (options_of (map (λ (v : Value). literal v) values))

-- `buildEnum`
unfoldable pub build_enum : List Value → Text → Result Zod
unfolding thrown lit texts_of enum_or_literals
build_enum [] path = thrown (lit "enum at " ∷ path ∷ lit " must not be empty" ∷ [])
build_enum (v ∷ values) path = ok (enum_or_literals (texts_of (v ∷ values)) (v ∷ values))

-- `branches.length === 1 ? branches[0]! : z.union(branches)`
abbrev pub one_or_union : List Zod → Zod
one_or_union (z ∷ []) = z
one_or_union zs = union (options_of zs)

if_least : Option ℤ → List NumberCheck
if_least none = []
if_least (some n) = least n ∷ []

if_most : Option ℤ → List NumberCheck
if_most none = []
if_most (some n) = most n ∷ []

if_shortest : Option ℕ → List SizeCheck
if_shortest none = []
if_shortest (some n) = shortest n ∷ []

if_longest : Option ℕ → List SizeCheck
if_longest none = []
if_longest (some n) = longest n ∷ []

abbrev pub is_defined : Value → Bool
is_defined undefined = false
is_defined v = true

abbrev pub is_type : Keywords → String → Bool
is_type k name = elim k.type_name [ none ↦ false | some t ↦ t == name ]

-- The `switch` on the type, from the converted parts.
by_type : Keywords → Text → Result Shape → Result Zod → Result Zod
unfolding thrown lit if_least if_most if_shortest if_longest
by_type k path shape item =
    if is_type k "object"
    then (shape >>= (λ s. ok (if k.closed then strict_object s else object s)))
    else if is_type k "string"
    then ok (string [])
    else if is_type k "number"
    then ok (number (if_least k.minimum ++ if_most k.maximum))
    else if is_type k "integer"
    then ok (number (int ∷ (if_least k.minimum ++ if_most k.maximum)))
    else if is_type k "boolean"
    then ok boolean
    else if is_type k "array"
    then (item >>= (λ z. ok (array z (if_shortest k.min_items ++ if_longest k.max_items))))
    else thrown (lit "unsupported or missing \"type\" at " ∷ path ∷ [])

branches_or_type :
    Keywords → Text → Option (Result (List Zod)) → Result Shape → Result Zod → Result Zod
unfolding by_type thrown lit
branches_or_type k path none shape item = by_type k path shape item
branches_or_type k path (some (ok [])) shape item =
    thrown (lit "oneOf at " ∷ path ∷ lit " must not be empty" ∷ [])
branches_or_type k path (some (ok (z ∷ zs))) shape item = ok (one_or_union (z ∷ zs))
branches_or_type k path (some (err e)) shape item = err e

-- The body of `convertSchema` between its first and its last test, from the converted parts.
converted : Keywords → Text → Option (Result (List Zod)) → Result Shape → Result Zod → Result Zod
unfolding branches_or_type build_enum
converted k path branches shape item =
    if is_defined k.const then ok (literal k.const) else elim k.enum_values [
      | some values ↦ build_enum values path
      | none ↦ branches_or_type k path branches shape item
    ]

abbrev pub described : Text → Zod → Zod
described [] z = z
described (c ∷ s) z = describe (c ∷ s) z

pub branch_path : Text → ℕ → Text
unfolding lit
branch_path path i = path ++ (lit ".oneOf[" ++ (decimal i ++ lit "]"))

pub property_path : Text → String → Text
unfolding lit
property_path path name = path ++ (lit "." ++ lit name)

abbrev pub as_required : List String → String → Zod → Zod
as_required required name z = if contains required name then z else optional z

unfoldable mutual
  unfolding converted check_known_keys branch_path property_path contains lit

  -- `convertSchema`
  pub convert_schema : JsonSchema → Text → Result Zod
  convert_schema (schema k props branches item) path =
      let shape = convert_object_shape k.required props path in
      let options = convert_one_of branches path in
      let of_items = convert_items item path in
      check_known_keys k.keys path >>= λ _.
      converted k path options shape of_items >>= λ z. ok (described k.description z)

  -- `convertObjectShape`
  pub convert_object_shape : List String → Properties → Text → Result Shape
  convert_object_shape required no_properties path = ok no_key
  convert_object_shape required (properties list) path = convert_properties required list path

  pub convert_properties : List String → PropertyList → Text → Result Shape
  convert_properties required no_property path = ok no_key
  convert_properties required (property name of_name list) path =
      let rest = convert_properties required list path in
      convert_schema of_name (property_path path name) >>= λ z.
      rest >>= λ shape. ok (key name (as_required required name z) shape)

  pub convert_one_of : OneOf → Text → Option (Result (List Zod))
  convert_one_of no_one_of path = none
  convert_one_of (one_of branches) path = some (convert_branches branches path 0)

  -- The branches from the i-th on.
  pub convert_branches : Branches → Text → ℕ → Result (List Zod)
  convert_branches no_branch path i = ok []
  convert_branches (branch b branches) path i =
      let rest = convert_branches branches path (i + 1) in
      convert_schema b (branch_path path i) >>= λ z. rest >>= λ zs. ok (z ∷ zs)

  pub convert_items : ItemSchema → Text → Result Zod
  convert_items no_items path = ok unknown
  convert_items (items of_item) path = convert_schema of_item (path ++ lit "[]")
