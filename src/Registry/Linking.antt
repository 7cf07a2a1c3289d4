-- ===== src/Registry/Linking.antt =====
-- src/sdk/void-operation-index.ts and `attachSdkVoidBindings` of src/commands/registry/index.ts:
-- commands without arguments that an operation of the SDK renders too.
use vigor3912s_mcp.Common.{
  some-injective, String, false, ◌||◌, ◌≡◌, refl, ◌⊎◌, inl, inr, arith, Option, none, some, List,
  [], ◌∷◌, map, Text, text_key, string_key, if◌then◌else◌, ltb, length, is_some, contains, lookup,
  has, insert, lookup-insert, Result, ok, err, text_eq_iff, Bool-cases, text_eq, subst,
}
use vigor3912s_mcp.Values.{undefined}
use vigor3912s_mcp.Registry.{CommandDef, FamilyDef}
use vigor3912s_mcp.Client.{Operation}

-- An operation that renders to one frame, without input.
with_frames : Operation → List (Text × Operation) → Result (List Text) → List (Text × Operation)
unfolding lookup insert
with_frames op index (ok ((c ∷ command) ∷ [])) =
    if has (c ∷ command) index then index else insert (c ∷ command) op index
with_frames op index _ = index

-- `buildVoidOperationIndex`, from the index so far, over the operations that the walk yields.
index_from : List (Text × Operation) → List Operation → List (Text × Operation)
unfolding with_frames
index_from index [] = index
index_from index (op ∷ ops) = index_from (with_frames op index (op.build_frames undefined)) ops

unfoldable pub build_void_operation_index : List Operation → List (Text × Operation)
unfolding index_from
build_void_operation_index ops = index_from [] ops

abbrev pub sdk_void_binding_exclusions : List String
sdk_void_binding_exclusions = "local8021x_show_local_cer" ∷ []

unfoldable pub bound_to : CommandDef → Option Operation → CommandDef
bound_to cmd none = cmd
bound_to cmd (some op) = record cmd {
  sdk =
      some (record {
        manifest_id = op.manifest_id;
        to_input = none;
        validate = none;
        partial = false;
      });
}

unfoldable pub linked : List (Text × Operation) → CommandDef → Result Text → CommandDef
unfolding bound_to lookup
linked index cmd (err e) = cmd
linked index cmd (ok cli) = bound_to cmd (lookup cli index)

unfoldable pub attach_void_binding : List (Text × Operation) → CommandDef → CommandDef
unfolding linked contains
attach_void_binding index cmd =
    if is_some cmd.sdk || (contains sdk_void_binding_exclusions cmd.id || ltb 0 (length cmd.args))
    then cmd
    else linked index cmd (cmd.render [])

unfoldable pub attach_sdk_void_bindings : List (Text × Operation) → List FamilyDef → List FamilyDef
unfolding attach_void_binding
attach_sdk_void_bindings index families =
    map (λ (f : FamilyDef). record f { commands = map (attach_void_binding index) f.commands })
      families

-- What an entry of the index says: the operation renders to the command and nothing else.
RendersTo : List (Text × Operation) → Type 0
RendersTo index =
    (cli : Text) (op : Operation)
    → lookup cli index ≡ some op
    → op.build_frames undefined ≡ ok (cli ∷ [])

insert-RendersTo :
    (op : Operation) (index : List (Text × Operation)) (command : Text)
    → op.build_frames undefined ≡ ok (command ∷ [])
    → RendersTo index
    → RendersTo (insert command op index)
unfolding RendersTo
insert-RendersTo op index command e h cli op' found =
    let found' = rw (lookup-insert command cli op index) at found in
    elim (Bool-cases (text_eq command cli)) [
      | inl same ↦
          let same_op = some-injective (rw same at found') in
          subst (λ o. o.build_frames undefined ≡ ok (cli ∷ [])) same_op
            (subst (λ t. op.build_frames undefined ≡ ok (t ∷ [])) ((text_eq_iff command cli).0 same)
              e)
      | inr other ↦ h cli op' (rw other at found')
    ]

with_frames-RendersTo :
    (op : Operation) (index : List (Text × Operation)) (r : Result (List Text))
    → op.build_frames undefined ≡ r
    → RendersTo index
    → RendersTo (with_frames op index r)
unfolding with_frames
with_frames-RendersTo op index (ok ((c ∷ command) ∷ [])) e h =
    elim (Bool-cases (has (c ∷ command) index)) [
      | inl there ↦ rw there h
      | inr fresh ↦ rw fresh (insert-RendersTo op index (c ∷ command) e h)
    ]
with_frames-RendersTo op index (err x) e h = h
with_frames-RendersTo op index (ok []) e h = h
with_frames-RendersTo op index (ok ([] ∷ [])) e h = h
with_frames-RendersTo op index (ok ([] ∷ (f ∷ fs))) e h = h
with_frames-RendersTo op index (ok ((c ∷ command) ∷ (f ∷ fs))) e h = h

index_from-RendersTo :
    (ops : List Operation) (index : List (Text × Operation))
    → RendersTo index
    → RendersTo (index_from index ops)
unfolding index_from
index_from-RendersTo [] index h = h
index_from-RendersTo (op ∷ ops) index h =
    index_from-RendersTo ops (with_frames op index (op.build_frames undefined))
      (with_frames-RendersTo op index (op.build_frames undefined) refl h)

build_void_operation_index-RendersTo :
    (ops : List Operation) → RendersTo (build_void_operation_index ops)
unfolding build_void_operation_index RendersTo lookup
build_void_operation_index-RendersTo ops = index_from-RendersTo ops [] (λ cli op found. cc found)

-- A link that was made: to an operation that sends exactly what the command renders to.
pub record Linked (cmd after : CommandDef) : Type 0 where
  pub op : Operation
  pub cli : Text
  pub no_args : length cmd.args ≡ 0
  pub renders : cmd.render [] ≡ ok cli
  pub sends : op.build_frames undefined ≡ ok (cli ∷ [])
  pub becomes : after ≡ bound_to cmd (some op)

module _ (ops : List Operation) where
  linked_cases :
      (cmd : CommandDef) (r : Result Text)
      → cmd.render [] ≡ r
      → length cmd.args ≡ 0
      → (linked (build_void_operation_index ops) cmd r ≡ cmd)
        ⊎ Linked cmd (linked (build_void_operation_index ops) cmd r)
  unfolding linked bound_to RendersTo
  linked_cases cmd (err e) r none_taken = inl refl
  linked_cases cmd (ok cli) r none_taken = go (lookup cli (build_void_operation_index ops)) refl
    where
      go :
          (o : Option Operation)
          → lookup cli (build_void_operation_index ops) ≡ o
          → (bound_to cmd o ≡ cmd) ⊎ Linked cmd (bound_to cmd o)
      go none e = inl refl
      go (some op) e = inr (record {
        op = op;
        cli = cli;
        no_args = none_taken;
        renders = r;
        sends = build_void_operation_index-RendersTo ops cli op e;
        becomes = refl;
      })

  -- Linking leaves a command as it is, or binds it to an operation of the SDK that, without input,
  -- renders to exactly the one command that the tool renders to; the tool takes no arguments then.
  pub attach_void_binding-Linked :
      (cmd : CommandDef)
      → (attach_void_binding (build_void_operation_index ops) cmd ≡ cmd)
        ⊎ Linked cmd (attach_void_binding (build_void_operation_index ops) cmd)
  unfolding attach_void_binding
  attach_void_binding-Linked cmd =
      elim (Bool-cases (
        is_some cmd.sdk
        || (contains sdk_void_binding_exclusions cmd.id || ltb 0 (length cmd.args)))) [
          | inl kept ↦ rw kept (inl refl)
          | inr free ↦ rw free (linked_cases cmd (cmd.render []) refl (ground arith))
        ]
