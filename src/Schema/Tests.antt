-- ===== src/Schema/Tests.antt =====
-- Concrete schemas (src/sdk/schema-to-zod.ts, src/sdk/secret-fields.ts).
use vigor3912s_mcp.Common.{
  ◌≡◌, refl, ◌↔◌, true, false, none, some, String, List, [], ◌∷◌, lit, contains, string_key, ok,
}
use vigor3912s_mcp.Values.{Value, undefined, str}
use vigor3912s_mcp.Zod.{
  string, enum, literal, discriminated_union, strict_object, optional, option, no_option, key,
  no_key,
}
use vigor3912s_mcp.Schema.{
  JsonSchema, schema, Keywords, no_properties, properties, PropertyList, property, no_property,
  no_one_of, one_of, branch, no_branch, no_items,
}
use vigor3912s_mcp.Schema.TopLevel.{ConvertedSchema, json_schema_to_zod}
use vigor3912s_mcp.Schema.Flatten.{has_key}
use vigor3912s_mcp.Schema.Keeps.{is_argument, json_schema_to_zod-names}
use vigor3912s_mcp.Schema.Secrets.{secret_fields_of}
use vigor3912s_mcp.Schema.Sensitive.{HoldsSecret, secret_fields_of_iff}

abbrev words : List String → String → List String → Value → Keywords
words keys name required const = record {
  keys = keys;
  type_name = some name;
  required = required;
  closed = true;
  enum_values = none;
  const = const;
  description = [];
  minimum = none;
  maximum = none;
  min_items = none;
  max_items = none;
}

abbrev tagged : String → JsonSchema
tagged tag =
    schema (words ("const" ∷ []) "string" [] (str (lit tag))) no_properties no_one_of no_items

abbrev text : JsonSchema
text = schema (words ("type" ∷ []) "string" [] undefined) no_properties no_one_of no_items

abbrev object_of : PropertyList → JsonSchema
object_of list =
    schema
      (words ("type" ∷ "properties" ∷ "required" ∷ "additionalProperties" ∷ []) "object"
        ("action" ∷ []) undefined)
      (properties list) no_one_of no_items

-- `oneOf` with a branch that has a password and one that has none.
abbrev login_or_show : JsonSchema
login_or_show =
    schema (record (words ("oneOf" ∷ []) "" [] undefined) { type_name = none; closed = false })
      no_properties
      (one_of (
        branch
          (object_of (property "action" (tagged "login") (property "password" text no_property)))
          (branch (object_of (property "action" (tagged "show") no_property)) no_branch)))
      no_items

abbrev login_or_show_tool : ConvertedSchema
login_or_show_tool = record {
  shape =
      ("action", enum (lit "login" ∷ lit "show" ∷ [])) ∷ ("password", optional (string [])) ∷ [];
  full = discriminated_union "action" (
      option
        (strict_object (
          key "action" (literal (str (lit "login")))
            (key "password" (optional (string [])) no_key)))
        (option (strict_object (key "action" (literal (str (lit "show"))) no_key)) no_option));
  wraps_input = false;
}

login_or_show_converts : json_schema_to_zod (some login_or_show) ≡ ok login_or_show_tool
unfolding json_schema_to_zod lit
login_or_show_converts = refl

-- The same branches with a property beside them, which is lost.
abbrev with_site : JsonSchema
with_site =
    schema
      (record (words ("properties" ∷ "oneOf" ∷ []) "" [] undefined) {
        type_name = none;
        closed = false;
      })
      (properties (property "site" text no_property))
      (one_of (
        branch
          (object_of (property "action" (tagged "login") (property "password" text no_property)))
          (branch (object_of (property "action" (tagged "show") no_property)) no_branch)))
      no_items

with_site_converts : json_schema_to_zod (some with_site) ≡ ok login_or_show_tool
unfolding json_schema_to_zod lit
with_site_converts = refl

json_schema_to_zod-names_example :
    has_key "site" login_or_show_tool.shape ≡ is_argument "site" with_site
json_schema_to_zod-names_example =
    json_schema_to_zod-names with_site login_or_show_tool "site" with_site_converts refl

secret_fields_of_iff_example :
    (contains (secret_fields_of (some login_or_show)) "password" ≡ true)
    ↔ HoldsSecret "password" login_or_show
secret_fields_of_iff_example = secret_fields_of_iff login_or_show "password"

login_or_show_secrets : secret_fields_of (some login_or_show) ≡ "password" ∷ []
unfolding secret_fields_of
login_or_show_secrets = refl
