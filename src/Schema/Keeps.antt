-- ===== src/Schema/Keeps.antt =====
-- Which arguments src/sdk/schema-to-zod.ts makes of a schema.
use vigor3912s_mcp.Common.{
  ◌≡◌, ◌≢◌, sym, ap, ◌∙◌, inl, inr, arith, String, Bool, true, false, not, some, List, Text, lookup,
  is_some, string_key, ok, ◌>>=◌, bind-ok, ok-injective, Bool-cases,
}
use vigor3912s_mcp.Zod.{Zod, Shape, key}
use vigor3912s_mcp.Schema.{
  JsonSchema, schema, no_properties, properties, PropertyList, no_property, property, no_one_of,
  one_of, Branches, is_type, thrown, convert_branches, convert_object_shape, check_known_keys,
  as_required, property_path, convert_schema, convert_properties,
}
use vigor3912s_mcp.Schema.TopLevel.{
  ConvertedSchema, keywords, properties_of, property_of, flatten_object_one_of, entries_of, every,
  has_two, is_object_branch, as_input, find_common_const_discriminator, flattened, from_shape,
  dollar, build_top_level_one_of, top_level, json_schema_to_zod,
}
use vigor3912s_mcp.Schema.Flatten.{has_key, in_some_branch, flatten_object_one_of-has_key}

-- The arguments of an object schema are its properties.
convert_properties-has_key :
    (required : List String) (list : PropertyList) (path : Text) (shape : Shape) (name : String)
    → convert_properties required list path ≡ ok shape
    → has_key name (entries_of shape) ≡ is_some (property_of name list)
unfolding convert_properties lookup
convert_properties-has_key required no_property path shape name e =
    ap (λ (x : Shape). has_key name (entries_of x)) (sym (ok-injective e))
convert_properties-has_key required (property k s list) path shape name e =
    let (z, made, after) =
      bind-ok (convert_schema s (property_path path k))
        (λ (z : Zod).
          convert_properties required list path >>= λ r. ok (key k (as_required required k z) r))
        shape e in
    let (rest, others, last) =
      bind-ok (convert_properties required list path)
        (λ (r : Shape). ok (key k (as_required required k z) r)) shape after in
    ap (λ (x : Shape). has_key name (entries_of x)) (sym (ok-injective last))
    ∙ ground (arith, convert_properties-has_key required list path rest name others)

-- `name` is to be an argument: a property of some branch of a schema with branches, whose own
-- properties do not count, or a property of any other schema.
abbrev pub is_argument : String → JsonSchema → Bool
is_argument name (schema k props (one_of branches) item) = in_some_branch name branches
is_argument name (schema k props no_one_of item) =
    is_some (property_of name (properties_of (schema k props no_one_of item)))

-- An input that is not wrapped was not converted as a whole.
not_wrapped :
    (s : JsonSchema) (c : ConvertedSchema)
    → convert_schema s dollar >>= (λ z. ok (as_input z)) ≡ ok c
    → c.wraps_input ≢ false
not_wrapped s c e w =
    let (z, made, last) = bind-ok (convert_schema s dollar) (λ (z : Zod). ok (as_input z)) c e in
    let bad : true ≡ false = ap (λ (x : ConvertedSchema). x.wraps_input) (ok-injective last) ∙ w in
    cc

module _ (s : JsonSchema) (branches : Branches) (c : ConvertedSchema) (name : String) where
  build_top_level_one_of-has_key :
      build_top_level_one_of s branches dollar ≡ ok c
      → c.wraps_input ≡ false
      → has_key name c.shape ≡ in_some_branch name branches
  unfolding build_top_level_one_of thrown
  build_top_level_one_of-has_key e w = elim (Bool-cases (not (has_two branches))) [
    | inl few ↦ cc (rw few at e)
    | inr enough ↦ elim (Bool-cases (not (every is_object_branch branches))) [
      | inl mixed ↦ absurd (not_wrapped s c (rw (enough, mixed) at e) w)
      | inr objects ↦
          let d = find_common_const_discriminator branches in
          let (shape, flat, after) =
            bind-ok (flatten_object_one_of branches d dollar)
              (λ (shape : List (String × Zod)).
                convert_branches branches dollar 0 >>= λ zs. ok (flattened s d shape zs))
              c (rw (enough, objects) at e) in
          let (zs, made, last) =
            bind-ok (convert_branches branches dollar 0)
              (λ (zs : List Zod). ok (flattened s d shape zs)) c after in
          ap (λ (x : ConvertedSchema). has_key name x.shape) (sym (ok-injective last))
          ∙ flatten_object_one_of-has_key branches dollar shape name flat
    ]
  ]

top_level-has_key :
    (s : JsonSchema) (c : ConvertedSchema) (name : String)
    → top_level s ≡ ok c
    → c.wraps_input ≡ false
    → has_key name c.shape ≡ is_argument name s
unfolding top_level convert_object_shape
top_level-has_key (schema k props (one_of branches) item) c name e w =
    build_top_level_one_of-has_key (schema k props (one_of branches) item) branches c name e w
top_level-has_key (schema k no_properties no_one_of item) c name e w =
    elim (Bool-cases (is_type k "object")) [
      | inl is_object ↦
          ap (λ (x : ConvertedSchema). has_key name x.shape)
            (sym (ok-injective (rw is_object at e)))
      | inr other ↦ absurd (not_wrapped (schema k no_properties no_one_of item) c (rw other at e) w)
    ]
top_level-has_key (schema k (properties list) no_one_of item) c name e w =
    elim (Bool-cases (is_type k "object")) [
      | inl is_object ↦
          let (shape, made, last) =
            bind-ok (convert_properties k.required list dollar)
              (λ (shape : Shape). ok (from_shape k shape)) c (rw is_object at e) in
          ap (λ (x : ConvertedSchema). has_key name x.shape) (sym (ok-injective last))
          ∙ convert_properties-has_key k.required list dollar shape name made
      | inr other ↦
          absurd (not_wrapped (schema k (properties list) no_one_of item) c (rw other at e) w)
    ]

-- If a schema is converted and its input is not wrapped in one argument, the tool has exactly these
-- arguments: without a `oneOf`, the properties of the schema; with one, the properties of its
-- branches, and none of the properties that stand beside it.
pub json_schema_to_zod-names :
    (s : JsonSchema) (c : ConvertedSchema) (name : String)
    → json_schema_to_zod (some s) ≡ ok c
    → c.wraps_input ≡ false
    → has_key name c.shape ≡ is_argument name s
unfolding json_schema_to_zod
json_schema_to_zod-names s c name e w =
    let (_, _, made) =
      bind-ok (check_known_keys (keywords s).keys dollar) (λ (u : Unit {0}). top_level s) c e in
    top_level-has_key s c name made w
