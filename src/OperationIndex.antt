-- ===== src/OperationIndex.antt =====
-- src/sdk/operation-index.ts: the index of the operations that the SDK exports in nested modules.
pub mod Reached
pub mod Lookup
pub mod Tests
use vigor3912s_mcp.Common.{
  ◌≡◌, refl, ℕ, String, Option, none, some, List, [], ◌∷◌, ◌++◌, Text, lit, eqb, if◌then◌else◌,
  lookup, insert, string_key, Result, ok, err, plain_error,
}
use vigor3912s_mcp.Client.{Operation}

-- An operation as an object: an address stands for its identity, which `!==` compares.
pub record Ref : Type 0 where
  pub address : ℕ
  pub operation : Operation

-- A value of the SDK's export: no object; an array; an operation, as `isOperation` knows it; or
-- another object, by its values.
mutual
  pub data Node : Type 0 where
    no_object : Node
    array object : Nodes → Node
    operation : Ref → Node

  pub data Nodes : Type 0 where
    end : Nodes
    node : Node → Nodes → Nodes

-- `walkOperations`
unfoldable mutual
  pub walk_operations : Node → List Ref
  walk_operations no_object = []
  walk_operations (array nodes) = walk_all nodes
  walk_operations (object nodes) = walk_all nodes
  walk_operations (operation op) = op ∷ []

  pub walk_all : Nodes → List Ref
  walk_all end = []
  walk_all (node n nodes) = walk_operations n ++ walk_all nodes

duplicate : {A : Type 0} → String → Result A
unfolding lit
duplicate id =
    err (plain_error none (lit "operation-index: duplicate manifestId \"" ++ (lit id ++ lit "\"")))

-- One turn of the loop: `existing` is what the map has for the id.
unfoldable pub add_operation : Ref → Option Ref → List (String × Ref) → Result (List (String × Ref))
unfolding duplicate insert
add_operation op none index = ok (insert op.operation.manifest_id op index)
add_operation op (some existing) index =
    if eqb existing.address op.address
    then ok (insert op.operation.manifest_id op index)
    else duplicate op.operation.manifest_id

unfoldable pub index_operations : List Ref → List (String × Ref) → Result (List (String × Ref))
unfolding add_operation lookup
index_operations [] index = ok index
index_operations (op ∷ ops) index =
    elim (add_operation op (lookup op.operation.manifest_id index) index) [
      | err e ↦ err e
      | ok more ↦ index_operations ops more
    ]

-- `buildOperationIndex`
unfoldable pub build_operation_index : Node → Result (List (String × Ref))
unfolding index_operations walk_operations
build_operation_index root = index_operations (walk_operations root) []

-- `allOperations`, by id: what the registry takes as the operations of the SDK.
unfoldable pub all_operations : List (String × Ref) → List (String × Operation)
all_operations [] = []
all_operations ((id, op) ∷ index) = (id, op.operation) ∷ all_operations index
