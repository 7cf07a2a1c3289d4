-- ===== src/Registry/Builders.antt =====
-- src/commands/registry/builders.ts: the constructors of commands. What src/sdk/schema-to-zod.ts and
-- src/sdk/secret-fields.ts make of the input schema of an operation is an argument.
use vigor3912s_mcp.Common.{
  ◌≡◌, refl, sym, ap, ok-injective, ℕ, String, Bool, false, ◌&&◌, Option, none, some, List, [], ◌∷◌,
  ◌++◌, Text, lit, join, if◌then◌else◌, ltb, length, lookup, string_key, ◌==◌, distinct_from,
  get_or, Result, ok, err, ◌>>=◌, plain_error, vigor_error, invalid,
}
use vigor3912s_mcp.Zod.{Zod}
use vigor3912s_mcp.Values.{Value, Args, arg}
use vigor3912s_mcp.Registry.{CommandDef, CommandKind, read, write, default_to_input}
use vigor3912s_mcp.Client.{Operation}

-- What `safeParse` gives: the data, or the issues as `issuesOf` prints them.
pub data Parsed : Type 0 where
  success : Value → Parsed
  issues : Text → Parsed

-- `jsonSchemaToZod(schema)`: the argument names, the full parser, and the wrapping in `input`.
pub record Converted : Type 0 where
  pub shape : List (String × Zod)
  pub full : Value → Parsed
  pub wraps_input : Bool

pub record SdkCommandOptions : Type 0 where
  pub args : Option (List (String × Zod))
  pub to_input : Option (Args → Result Value)
  pub validate : Option (Value → Result Value)
  pub format : Option (Text → Args → Value)
  pub secret_args : List String
  pub snapshot_read : Option String
  pub skip_commit : Bool
  pub partial : Bool
  pub timeout_ms : Option ℕ

-- A command with none of the optional fields.
abbrev plain_command :
    String → String → CommandKind → String → (Args → Result Text) → List (String × Zod) → CommandDef
plain_command id family kind desc render args = record {
  id = id;
  family = family;
  kind = kind;
  desc = desc;
  render = render;
  args = args;
  confirm = none;
  affects_network = false;
  format = none;
  snapshot_read = none;
  secret_args = [];
  sensitive_output = false;
  timeout_ms = none;
  skip_commit = false;
  sdk = none;
}

-- `R`, `Ra` and `W`
unfoldable pub plain_read :
    String → String → Text → String → Option (Text → Args → Value) → CommandDef
plain_read id family cli desc format =
    record (plain_command id family read desc (λ args. ok cli) []) { format = format }

unfoldable pub read_with_args :
    String
    → String
    → (Args → Result Text)
    → List (String × Zod)
    → String
    → Option (Text → Args → Value)
    → CommandDef
read_with_args id family render args desc format =
    record (plain_command id family read desc render args) { format = format }

unfoldable pub plain_write :
    String → String → (Args → Result Text) → List (String × Zod) → String → CommandDef
plain_write id family render args desc = plain_command id family write desc render args

-- `autoToInput`
auto_to_input : Converted → Args → Result Value
unfolding default_to_input lookup
auto_to_input converted args =
    ok (if converted.wraps_input then arg args "input" else default_to_input args)

-- `autoValidate`
auto_validate : String → Converted → Value → Result Value
unfolding lit
auto_validate manifest_id converted input = elim (converted.full input) [
  | success data_of_it ↦ ok data_of_it
  | issues text ↦ err (
      vigor_error invalid
        (lit "invalid input for SDK operation \"" ++ (lit manifest_id ++ (lit "\": " ++ text))))
]

abbrev pub render_by :
    Operation → (Args → Result Value) → (Value → Result Value) → Args → Result Text
render_by op to_input validate args = do
  input ← to_input args >>= validate
  frames ← op.build_frames input
  ok (join (lit "\n") frames)

abbrev pub kind_of : Operation → CommandKind
kind_of op = if op.classification == "read" then read else write

abbrev if_named : Option String → Option String
if_named none = none
if_named (some id) = if id == "" then none else some id

-- `S`, from the operation on.
sdk_command_of :
    String
    → String
    → String
    → String
    → Converted
    → List String
    → SdkCommandOptions
    → Option Operation
    → Result CommandDef
unfolding distinct_from auto_to_input auto_validate
sdk_command_of id family manifest_id desc converted detected opts none = err (
    plain_error none (
      lit "registry: unknown SDK manifestId \""
      ++ (lit manifest_id ++ (lit "\" for tool \"" ++ (lit id ++ lit "\"")))))
sdk_command_of id family manifest_id desc converted detected opts (some op) =
    let to_input = get_or opts.to_input (auto_to_input converted) in
    let validate = get_or opts.validate (auto_validate manifest_id converted) in
    let wraps = converted.wraps_input && ltb 0 (length detected) in
    ok
      (record (plain_command id family (kind_of op) desc (render_by op to_input validate)
        (get_or opts.args converted.shape)) {
          format = opts.format;
          secret_args =
              distinct_from [] ((if wraps then "input" ∷ [] else detected) ++ opts.secret_args);
          snapshot_read = if_named opts.snapshot_read;
          skip_commit = opts.skip_commit;
          timeout_ms = opts.timeout_ms;
          sdk = some (record {
            manifest_id = manifest_id;
            to_input = some to_input;
            validate = some validate;
            partial = opts.partial;
          });
        })

-- `S`
unfoldable pub sdk_command :
    List (String × Operation)
    → String
    → String
    → String
    → String
    → Converted
    → List String
    → SdkCommandOptions
    → Result CommandDef
unfolding sdk_command_of
sdk_command operations id family manifest_id desc converted detected opts =
    sdk_command_of id family manifest_id desc converted detected opts
      (lookup manifest_id operations)

-- What `S` makes: a command whose text is what the operation renders for the input that the binding
-- makes of the same arguments.
pub record FromSdk (operations : List (String × Operation)) (manifest_id : String) (partial : Bool)
    (cmd : CommandDef) : Type 0 where
  pub op : Operation
  pub to_input : Args → Result Value
  pub validate : Value → Result Value
  pub found : lookup manifest_id operations ≡ some op
  pub kind : cmd.kind ≡ kind_of op
  pub render : cmd.render ≡ render_by op to_input validate
  pub binding :
      cmd.sdk
      ≡ some (record {
        manifest_id = manifest_id;
        to_input = some to_input;
        validate = some validate;
        partial = partial;
      })

module _ (operations : List (String × Operation)) (id family manifest_id desc : String)
    (converted : Converted) (detected : List String) (opts : SdkCommandOptions) where
  sdk_command_of-FromSdk :
      (o : Option Operation)
      → lookup manifest_id operations ≡ o
      → (cmd : CommandDef)
      → sdk_command_of id family manifest_id desc converted detected opts o ≡ ok cmd
      → FromSdk operations manifest_id opts.partial cmd
  unfolding sdk_command_of
  sdk_command_of-FromSdk none found cmd e = cc
  sdk_command_of-FromSdk (some op) found cmd e =
      let made = ok-injective e in
      record {
        op = op;
        to_input = get_or opts.to_input (auto_to_input converted);
        validate = get_or opts.validate (auto_validate manifest_id converted);
        found = found;
        kind = sym (ap (λ (c : CommandDef). c.kind) made);
        render = sym (ap (λ (c : CommandDef). c.render) made);
        binding = sym (ap (λ (c : CommandDef). c.sdk) made);
      }

  pub sdk_command-FromSdk :
      (cmd : CommandDef)
      → sdk_command operations id family manifest_id desc converted detected opts ≡ ok cmd
      → FromSdk operations manifest_id opts.partial cmd
  unfolding sdk_command
  sdk_command-FromSdk cmd e = sdk_command_of-FromSdk (lookup manifest_id operations) refl cmd e

  sdk_command_of-id :
      (o : Option Operation) (cmd : CommandDef)
      → sdk_command_of id family manifest_id desc converted detected opts o ≡ ok cmd
      → cmd.id ≡ id
  unfolding sdk_command_of
  sdk_command_of-id none cmd e = cc
  sdk_command_of-id (some op) cmd e = sym (ap (λ (c : CommandDef). c.id) (ok-injective e))

  pub sdk_command-id :
      (cmd : CommandDef)
      → sdk_command operations id family manifest_id desc converted detected opts ≡ ok cmd
      → cmd.id ≡ id
  unfolding sdk_command
  sdk_command-id cmd e = sdk_command_of-id (lookup manifest_id operations) cmd e
