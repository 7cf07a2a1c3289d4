-- ===== src/Schema/Secrets.antt =====
-- src/sdk/secret-fields.ts: the properties that hold secrets, anywhere in a schema.
use vigor3912s_mcp.Common.{
  ◌+◌, String, Bool, ◌&&◌, ◌||◌, Option, none, some, List, [], ◌∷◌, ◌++◌, Text, lit, text_eq,
  starts_with, drop, if◌then◌else◌, all, any, leb, distinct_from, string_key,
}
use vigor3912s_mcp.Validators.{is_digit}
use vigor3912s_mcp.Schema.{
  JsonSchema, schema, Properties, no_properties, properties, PropertyList, no_property, property,
  OneOf, no_one_of, one_of, Branches, no_branch, branch, ItemSchema, no_items, items, is_type,
}

-- The `i` flag, for ASCII; no other code unit stands for an ASCII letter under it.
fold : Text → Text
fold [] = []
fold (c ∷ s) = (if leb 65 c && leb c 90 then c + 32 else c) ∷ fold s

abbrev secret_names : List String
secret_names =
    "key" ∷ "password" ∷ "passwd" ∷ "secret" ∷ "psk" ∷ "preshared_key" ∷ "presharedkey"
    ∷ "private_key" ∷ "privatekey" ∷ "token" ∷ "community" ∷ "app_key" ∷ "appkey" ∷ []

-- `SECRET_FIELD`: the names, and `pass\d*`.
unfoldable pub is_secret_field : String → Bool
unfolding fold lit text_eq starts_with drop is_digit
is_secret_field name =
    let s = fold (lit name) in
    any (λ (n : String). text_eq (lit n) s) secret_names
    || (starts_with s (lit "pass") && all is_digit (drop 4 s))

unfoldable pub named : String → JsonSchema → List String
unfolding is_secret_field
named name (schema k props one item) =
    if is_secret_field name && is_type k "string" then name ∷ [] else []

-- `visit`: the names in the order in which it adds them.
unfoldable mutual
  unfolding named

  pub visit : JsonSchema → List String
  visit (schema k props one item) = visit_properties props ++ (visit_one_of one ++ visit_items item)

  pub visit_properties : Properties → List String
  visit_properties no_properties = []
  visit_properties (properties list) = visit_list list

  pub visit_list : PropertyList → List String
  visit_list no_property = []
  visit_list (property name s list) = named name s ++ (visit s ++ visit_list list)

  pub visit_one_of : OneOf → List String
  visit_one_of no_one_of = []
  visit_one_of (one_of branches) = visit_branches branches

  pub visit_branches : Branches → List String
  visit_branches no_branch = []
  visit_branches (branch b branches) = visit b ++ visit_branches branches

  pub visit_items : ItemSchema → List String
  visit_items no_items = []
  visit_items (items s) = visit s

-- `secretFieldsOf`
unfoldable pub secret_fields_of : Option JsonSchema → List String
unfolding distinct_from visit
secret_fields_of none = []
secret_fields_of (some s) = distinct_from [] (visit s)
