-- ===== src/Registry/Generated.antt =====
-- src/commands/registry/families/sdk-generated.ts: a tool for every operation that no curated tool
-- covers. The operations come sorted, and what the schema conversion makes of each is an argument.
use vigor3912s_mcp.Common.{
  ok-injective, sym, ℕ, ◌-◌, ◌≡◌, refl, ap, inl, inr, arith, Bool-cases, String, Bool, true, false,
  not, ◌&&◌, ◌||◌, Option, none, some, List, [], ◌∷◌, ◌++◌, map, Text, lit, leb, eqb, if◌then◌else◌,
  starts_with, drop, length, lookup, string_key, same_refl, contains-append, contains, is_some,
  Result, ok, err, plain_error,
}
use Prim.Native.Char.{code}
use mathlib.Core.List.{Memᴰ}
use mathlib.Core.List.Memᴰ.{head, tail}
use vigor3912s_mcp.Registry.{CommandDef, FamilyDef, CommandSdkBinding}
use vigor3912s_mcp.Registry.Builders.{
  Converted, SdkCommandOptions, sdk_command, sdk_command-FromSdk,
}
use vigor3912s_mcp.Client.{Operation}

-- A character of `[a-zA-Z0-9_]`
is_id_char : ℕ → Bool
is_id_char c =
    (leb 97 c && leb c 122) || (leb 65 c && leb c 90) || (leb 48 c && leb c 57) || eqb c 95

to_id : String → String
unfolding is_id_char
to_id String.[] = String.[]
to_id (String.◌∷◌ c s) = String.◌∷◌ (if is_id_char (code c) then c else "_") (to_id s)

-- `replace(/^cli\./, '')`
without_cli : String → String
without_cli (String.◌∷◌ a (String.◌∷◌ b (String.◌∷◌ c (String.◌∷◌ d s)))) =
    if eqb (code a) 99 && eqb (code b) 108 && eqb (code c) 105 && eqb (code d) 46
    then s
    else String.◌∷◌ a (String.◌∷◌ b (String.◌∷◌ c (String.◌∷◌ d s)))
without_cli s = s

-- A dot is no character of an id, so one replacement does for both.
unfoldable pub manifest_to_tool_id : String → String
unfolding to_id without_cli
manifest_to_tool_id manifest_id = to_id (without_cli manifest_id)

manifest_to_tool_id_test : manifest_to_tool_id "cli.ip.bgp-v4" ≡ "ip_bgp_v4"
unfolding manifest_to_tool_id
manifest_to_tool_id_test = refl

-- `collectIds`
unfoldable pub collect_ids : List FamilyDef → List String
collect_ids [] = []
collect_ids (f ∷ families) = map (λ (c : CommandDef). c.id) f.commands ++ collect_ids families

covered_by : Option CommandSdkBinding → List String
covered_by none = []
covered_by (some b) = if b.partial then [] else b.manifest_id ∷ []

covered_in : List CommandDef → List String
unfolding covered_by
covered_in [] = []
covered_in (c ∷ commands) = covered_by c.sdk ++ covered_in commands

-- `collectCoveredManifestIds`
unfoldable pub collect_covered_manifest_ids : List FamilyDef → List String
unfolding covered_in
collect_covered_manifest_ids [] = []
collect_covered_manifest_ids (f ∷ families) =
    covered_in f.commands ++ collect_covered_manifest_ids families

abbrev pub released_generated_tool_ids : List (String × String)
released_generated_tool_ids = ("cli.service", "service") ∷ ("cli.wan.detect", "sdk_wan_detect") ∷ []

-- `text.endsWith(end)`
ends_with : Text → Text → Bool
unfolding starts_with drop
ends_with s end = leb (length end) (length s) && starts_with (drop (length s - length end) s) end

append : String → String → String
append String.[] t = t
append (String.◌∷◌ c s) t = String.◌∷◌ c (append s t)

description : Operation → String
unfolding append
description op = append "SDK " (append op.manifest_id (append " (" (append op.classification ")")))

tool_id : List String → String → Option String → Result String
unfolding contains manifest_to_tool_id append
tool_id used_ids manifest_id (some released_id) =
    if contains used_ids released_id
    then err (
        plain_error none
          (lit "sdk-generated: released tool id collision for \"" ++ (lit released_id ++ lit "\"")))
    else ok released_id
tool_id used_ids manifest_id none =
    let id = manifest_to_tool_id manifest_id in
    ok (if contains used_ids id then append "sdk_" id else id)

options_for : Operation → SdkCommandOptions
unfolding ends_with lit
options_for op = record {
  args = none;
  to_input = none;
  validate = none;
  format = none;
  secret_args = [];
  snapshot_read = none;
  skip_commit = false;
  partial = false;
  timeout_ms =
      if ends_with (lit op.manifest_id) (lit ".tracert")
        || ends_with (lit op.manifest_id) (lit ".ping")
      then some 60000
      else none;
}

prepended : Result CommandDef → Result (List CommandDef) → Result (List CommandDef)
prepended (err e) rest = err e
prepended (ok cmd) (err e) = err e
prepended (ok cmd) (ok commands) = ok (cmd ∷ commands)

module _ (operations : List (String × Operation))
    (schema_of : String → Converted × List String) where
  generated_tool : Operation → String → Result CommandDef
  unfolding options_for description
  generated_tool op id =
      let (converted, detected) = schema_of op.manifest_id in
      sdk_command operations id "sdk_generated" op.manifest_id (description op) converted detected
        (options_for op)

  -- One turn of the loop behind its first guard; `more` is the rest of the loop.
  turn : Operation → Result String → (String → Result (List CommandDef)) → Result (List CommandDef)
  unfolding generated_tool prepended
  turn op (err e) more = err e
  turn op (ok id) more = prepended (generated_tool op id) (more id)

  generate : List String → List String → List Operation → Result (List CommandDef)
  unfolding turn tool_id lookup contains
  generate covered used_ids [] = ok []
  generate covered used_ids (op ∷ ops) =
      let released = lookup op.manifest_id released_generated_tool_ids in
      let skipped = generate covered used_ids ops in
      let taken =
        turn op (tool_id used_ids op.manifest_id released)
          (λ id. generate covered (id ∷ used_ids) ops) in
      if contains covered op.manifest_id && not (is_some released) then skipped else taken

  as_family : Result (List CommandDef) → Result FamilyDef
  as_family (err e) = err e
  as_family (ok commands) = ok (record {
    family = "sdk_generated";
    desc = "Auto-registered SDK operations not already curated (schema-derived args).";
    commands = commands;
  })

  unfoldable pub build_sdk_generated_family : List FamilyDef → List Operation → Result FamilyDef
  unfolding generate as_family
  build_sdk_generated_family curated ops =
      as_family (generate (collect_covered_manifest_ids curated) (collect_ids curated) ops)

  tool_covers :
      (op : Operation) (id : String) (cmd : CommandDef)
      → generated_tool op id ≡ ok cmd
      → contains (covered_by cmd.sdk) op.manifest_id ≡ true
  unfolding generated_tool covered_by contains options_for
  tool_covers op id cmd e =
      let made =
        sdk_command-FromSdk operations id "sdk_generated" op.manifest_id (description op)
          (schema_of op.manifest_id).0 (schema_of op.manifest_id).1 (options_for op) cmd e in
      rw made.binding (rw (same_refl op.manifest_id) refl)

  -- A turn that succeeds made a tool, and the rest of the loop succeeded.
  record Turned (op : Operation) (more : String → Result (List CommandDef))
      (commands : List CommandDef) : Type 0 where
    id : String
    cmd : CommandDef
    rest : List CommandDef
    makes : generated_tool op id ≡ ok cmd
    goes_on : more id ≡ ok rest
    together : commands ≡ cmd ∷ rest

  prepended-ok :
      (r : Result CommandDef) (q : Result (List CommandDef)) (commands : List CommandDef)
      → prepended r q ≡ ok commands
      → (cmd : CommandDef) × (rest : List CommandDef) × (r ≡ ok cmd)
        × (q ≡ ok rest)
        × (commands ≡ cmd ∷ rest)
  unfolding prepended
  prepended-ok (err x) q commands e = cc
  prepended-ok (ok cmd) (err x) commands e = cc
  prepended-ok (ok cmd) (ok rest) commands e = (cmd, rest, refl, refl, sym (ok-injective e))

  turn-Turned :
      (op : Operation) (r : Result String) (more : String → Result (List CommandDef))
      (commands : List CommandDef)
      → turn op r more ≡ ok commands
      → Turned op more commands
  unfolding turn
  turn-Turned op (err x) more commands e = cc
  turn-Turned op (ok id) more commands e =
      let (cmd, rest, makes, goes_on, together) =
        prepended-ok (generated_tool op id) (more id) commands e in
      record {
        id = id;
        cmd = cmd;
        rest = rest;
        makes = makes;
        goes_on = goes_on;
        together = together;
      }

  generate-covers :
      (covered used_ids : List String) (ops : List Operation) (commands : List CommandDef)
      → generate covered used_ids ops ≡ ok commands
      → (op : Operation) → Memᴰ op ops
      → contains covered op.manifest_id || contains (covered_in commands) op.manifest_id ≡ true
  unfolding generate covered_in
  generate-covers covered used_ids [] commands e op m = elim m [ ]
  generate-covers covered used_ids (first ∷ ops) commands e op m =
      elim (Bool-cases (
        contains covered first.manifest_id
        && not (is_some (lookup first.manifest_id released_generated_tool_ids)))) [
          | inl skip ↦ elim m [
            | head same ↦
                ground (arith, ap (λ (o : Operation). contains covered o.manifest_id) same)
            | tail later ↦ generate-covers covered used_ids ops commands (rw skip at e) op later
          ]
          | inr take ↦
              let t = turn-Turned first _ _ commands (rw take at e) in
              let more = generate-covers covered (t.id ∷ used_ids) ops t.rest t.goes_on in
              let here = tool_covers first t.id t.cmd t.makes in
              elim m [
                | head same ↦ rw same (
                    rw t.together (
                      ground (
                        arith,
                        here,
                        contains-append (covered_by t.cmd.sdk) (covered_in t.rest)
                            first.manifest_id,
                      )))
                | tail later ↦ rw t.together (
                    ground (
                      arith,
                      more op later,
                      contains-append (covered_by t.cmd.sdk) (covered_in t.rest) op.manifest_id,
                    ))
              ]
        ]

  covered_append :
      (curated : List FamilyDef) (family : FamilyDef) (a : String)
      → contains (collect_covered_manifest_ids (curated ++ family ∷ [])) a
        ≡ contains (collect_covered_manifest_ids curated) a
          || contains (covered_in family.commands) a
  unfolding collect_covered_manifest_ids contains
  covered_append [] family a = ground (arith, contains-append (covered_in family.commands) [] a)
  covered_append (f ∷ curated) family a = ground (
    arith,
    covered_append curated family a,
    contains-append (covered_in f.commands) (collect_covered_manifest_ids (curated ++ family ∷ []))
        a,
    contains-append (covered_in f.commands) (collect_covered_manifest_ids curated) a,
  )

  as_family-ok :
      (r : Result (List CommandDef)) (family : FamilyDef)
      → as_family r ≡ ok family
      → r ≡ ok family.commands
  unfolding as_family
  as_family-ok (err x) family e = cc
  as_family-ok (ok commands) family e = ap (λ (f : FamilyDef). ok f.commands) (ok-injective e)

  -- If the generated family is built, then with it every operation of the SDK is reachable: its
  -- manifest id is bound, not just in part, by a tool of the curated families or by a generated one.
  pub build_sdk_generated_family-covers :
      (curated : List FamilyDef) (ops : List Operation) (family : FamilyDef)
      → build_sdk_generated_family curated ops ≡ ok family
      → (op : Operation) → Memᴰ op ops
      → contains (collect_covered_manifest_ids (curated ++ family ∷ [])) op.manifest_id ≡ true
  unfolding build_sdk_generated_family
  build_sdk_generated_family-covers curated ops family e op m =
      rw (covered_append curated family op.manifest_id) (
        generate-covers (collect_covered_manifest_ids curated) (collect_ids curated) ops
          family.commands (as_family-ok _ family e) op m)
