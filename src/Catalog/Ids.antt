-- ===== src/Catalog/Ids.antt =====
-- The ids of the tools in src/commands/registry/index.ts.
use vigor3912s_mcp.Common.{
  are_distinct, ◌≡◌, refl, sym, ap, ◌∙◌, subst, ◌⊎◌, inl, inr, arith, String, Bool, true, false,
  Option, none, some, List, [], ◌∷◌, ◌++◌, map, Text, is_some, same_refl, text_key, lookup, insert,
  lookup-insert, string_key, ◌==◌, if◌then◌else◌, Result, ok, err, ◌>>=◌, bind-ok, ok-injective,
  Bool-cases,
}
use mathlib.Core.List.{Memᴰ}
use mathlib.Core.List.Memᴰ.{head, tail}
use vigor3912s_mcp.Registry.{CommandDef, FamilyDef}
use vigor3912s_mcp.Registry.Builders.{Converted, sdk_command-id, plain_read, plain_write}
use vigor3912s_mcp.Registry.Linking.{
  build_void_operation_index, attach_void_binding, linked, bound_to, attach_sdk_void_bindings,
}
use vigor3912s_mcp.Registry.Generated.{collect_ids}
use vigor3912s_mcp.Client.{Operation}
use vigor3912s_mcp.Catalog.Entries.{Entry, typed_tool, raw_read, raw_write, FamilyEntries, id_of}
use vigor3912s_mcp.Catalog.Curated.{curated_registry}
use vigor3912s_mcp.Catalog.{command_of, commands_of, families_of}
use vigor3912s_mcp.Catalog.Registered.{
  operations_in, index_commands, linked_curated_registry, all_commands, find_command,
}

abbrev ids_of : List Entry → List String
ids_of entries = map id_of entries

abbrev entry_ids : List FamilyEntries → List String
entry_ids [] = []
entry_ids (f ∷ families) = map id_of f.commands ++ entry_ids families

curated_registry-are_distinct : are_distinct (entry_ids curated_registry) ≡ true
unfolding are_distinct
curated_registry-are_distinct = refl

module _ (operations : List (String × Operation))
    (schema_of : String → Converted × List String) where
  command_of-id :
      (e : Entry) (c : CommandDef) → command_of operations schema_of e ≡ ok c → c.id ≡ id_of e
  unfolding command_of plain_read plain_write
  command_of-id (typed_tool id family manifest_id desc opts) c h =
      sdk_command-id operations id family manifest_id desc (schema_of manifest_id).0
        (schema_of manifest_id).1 opts c h
  command_of-id (raw_read id family cli desc) c h =
      sym (ap (λ (x : CommandDef). x.id) (ok-injective h))
  command_of-id (raw_write id family render args desc) c h =
      sym (ap (λ (x : CommandDef). x.id) (ok-injective h))

  commands_of-ids :
      (entries : List Entry) (commands : List CommandDef)
      → commands_of operations schema_of entries ≡ ok commands
      → map (λ (c : CommandDef). c.id) commands ≡ map id_of entries
  unfolding commands_of
  commands_of-ids [] commands h =
      ap (λ cs. map (λ (c : CommandDef). c.id) cs) (sym (ok-injective h))
  commands_of-ids (e ∷ entries) commands h =
      let (c, made, after) =
        bind-ok (command_of operations schema_of e)
          (λ (c : CommandDef). commands_of operations schema_of entries >>= λ cs. ok (c ∷ cs))
          commands h in
      let (cs, others, last) =
        bind-ok (commands_of operations schema_of entries) (λ (cs : List CommandDef). ok (c ∷ cs))
          commands after in
      ap (λ xs. map (λ (x : CommandDef). x.id) xs) (sym (ok-injective last))
      ∙ ap (λ i. i ∷ map (λ (x : CommandDef). x.id) cs) (command_of-id e c made)
      ∙ ap (λ is. id_of e ∷ is) (commands_of-ids entries cs others)

  families_of-ids :
      (fs : List FamilyEntries) (families : List FamilyDef)
      → families_of operations schema_of fs ≡ ok families
      → collect_ids families ≡ entry_ids fs
  unfolding families_of collect_ids
  families_of-ids [] families h = ap collect_ids (sym (ok-injective h))
  families_of-ids (f ∷ fs) families h =
      let (cs, made, after) =
        bind-ok (commands_of operations schema_of f.commands)
          (λ (cs : List CommandDef). families_of operations schema_of fs >>= λ rest.
            ok (record { family = f.family; desc = f.desc; commands = cs } ∷ rest))
          families h in
      let (rest, others, last) =
        bind-ok (families_of operations schema_of fs)
          (λ (rest : List FamilyDef).
            ok (record { family = f.family; desc = f.desc; commands = cs } ∷ rest))
          families after in
      ap collect_ids (sym (ok-injective last))
      ∙ ap (λ is. is ++ collect_ids rest) (commands_of-ids f.commands cs made)
      ∙ ap (λ is. map id_of f.commands ++ is) (families_of-ids fs rest others)

bound_to-id : (cmd : CommandDef) (o : Option Operation) → (bound_to cmd o).id ≡ cmd.id
unfolding bound_to
bound_to-id cmd none = refl
bound_to-id cmd (some op) = refl

linked-id :
    (index : List (Text × Operation)) (cmd : CommandDef) (r : Result Text)
    → (linked index cmd r).id ≡ cmd.id
unfolding linked
linked-id index cmd (err e) = refl
linked-id index cmd (ok cli) = bound_to-id cmd (lookup cli index)

if-id : (b : Bool) (x y : CommandDef) → y.id ≡ x.id → (if b then x else y).id ≡ x.id
if-id true x y h = refl
if-id false x y h = h

attach_void_binding-id :
    (index : List (Text × Operation)) (cmd : CommandDef)
    → (attach_void_binding index cmd).id ≡ cmd.id
unfolding attach_void_binding
attach_void_binding-id index cmd = if-id _ cmd _ (linked-id index cmd (cmd.render []))

attach_void_bindings-ids :
    (index : List (Text × Operation)) (commands : List CommandDef)
    → map (λ (c : CommandDef). c.id) (map (attach_void_binding index) commands)
      ≡ map (λ (c : CommandDef). c.id) commands
attach_void_bindings-ids index [] = refl
attach_void_bindings-ids index (c ∷ commands) =
    ap (λ i. i ∷ map (λ (x : CommandDef). x.id) (map (attach_void_binding index) commands))
      (attach_void_binding-id index c)
    ∙ ap (λ is. c.id ∷ is) (attach_void_bindings-ids index commands)

attach_sdk_void_bindings-ids :
    (index : List (Text × Operation)) (families : List FamilyDef)
    → collect_ids (attach_sdk_void_bindings index families) ≡ collect_ids families
unfolding attach_sdk_void_bindings collect_ids
attach_sdk_void_bindings-ids index [] = refl
attach_sdk_void_bindings-ids index (f ∷ families) =
    ap (λ is. is ++ collect_ids (attach_sdk_void_bindings index families))
      (attach_void_bindings-ids index f.commands)
    ∙ ap (λ is. map (λ (c : CommandDef). c.id) f.commands ++ is)
        (attach_sdk_void_bindings-ids index families)

-- If the curated registry is built, whatever the SDK has, no two of its tools have the same id.
pub linked_curated_registry-are_distinct :
    (operations : List (String × Operation)) (schema_of : String → Converted × List String)
    (sort : List Operation → List Operation) (families : List FamilyDef)
    → linked_curated_registry operations schema_of sort ≡ ok families
    → are_distinct (collect_ids families) ≡ true
unfolding linked_curated_registry
linked_curated_registry-are_distinct operations schema_of sort families e =
    let index = build_void_operation_index (operations_in operations) in
    let (curated, made, last) =
      bind-ok (families_of operations schema_of curated_registry)
        (λ (fs : List FamilyDef). ok (attach_sdk_void_bindings index fs)) families e in
    ap (λ fs. are_distinct (collect_ids fs)) (sym (ok-injective last))
    ∙ ap are_distinct (
        attach_sdk_void_bindings-ids index curated
        ∙ families_of-ids operations schema_of curated_registry curated made)
    ∙ curated_registry-are_distinct

-- What the map by id finds is a command of that id, and it finds one for each command.
index_commands-finds :
    (commands : List CommandDef) (index : List (String × CommandDef)) (id : String) (c : CommandDef)
    → lookup id (index_commands commands index) ≡ some c
    → (Memᴰ c commands × (c.id ≡ id)) ⊎ (lookup id index ≡ some c)
unfolding index_commands
index_commands-finds [] index id c h = inr h
index_commands-finds (d ∷ commands) index id c h =
    elim (index_commands-finds commands (insert d.id d index) id c h) [
      | inl (m, same) ↦ inl (tail m, same)
      | inr found ↦
          let now = sym (lookup-insert d.id id d index) ∙ found in
          elim (Bool-cases (d.id == id)) [
            | inl here ↦
                let is_it : d ≡ c = cc (rw here at now) in
                inl (
                  head (sym is_it),
                  ap (λ (x : CommandDef). x.id) (sym is_it) ∙ (string_key.same_iff d.id id).0 here,
                )
            | inr other ↦ inr (rw other at now)
          ]
    ]

index_commands-keeps :
    (commands : List CommandDef) (index : List (String × CommandDef)) (id : String)
    → is_some (lookup id index) ≡ true
    → is_some (lookup id (index_commands commands index)) ≡ true
unfolding index_commands
index_commands-keeps [] index id h = h
index_commands-keeps (d ∷ commands) index id h =
    index_commands-keeps commands (insert d.id d index) id
      (ground (arith, lookup-insert d.id id d index))

index_commands-has :
    (commands : List CommandDef) (index : List (String × CommandDef)) (c : CommandDef)
    → Memᴰ c commands
    → is_some (lookup c.id (index_commands commands index)) ≡ true
unfolding index_commands
index_commands-has [] index c m = elim m [ ]
index_commands-has (d ∷ commands) index c m = elim m [
  | head same ↦ index_commands-keeps commands (insert d.id d index) c.id (
      subst (λ (x : CommandDef). is_some (lookup x.id (insert d.id d index)) ≡ true) (sym same)
        (ap is_some (lookup-insert d.id d.id d index) ∙ rw (same_refl d.id) refl))
  | tail later ↦ index_commands-has commands (insert d.id d index) c later
]

-- `findCommand` finds a tool for the id of every tool, and only ever a tool of the id it was asked for.
pub find_command-finds :
    (classify : String → Option String) (families : List FamilyDef)
    → ((c : CommandDef)
        → Memᴰ c (all_commands classify families)
        → is_some (find_command classify families c.id) ≡ true)
      × ((id : String) (c : CommandDef)
          → find_command classify families id ≡ some c
          → Memᴰ c (all_commands classify families) × (c.id ≡ id))
unfolding find_command lookup
find_command-finds classify families = (
  λ c m. index_commands-has (all_commands classify families) [] c m,
  λ id c h. elim (index_commands-finds (all_commands classify families) [] id c h) [
    | inl found ↦ found
    | inr nothing ↦ cc
  ],
)
