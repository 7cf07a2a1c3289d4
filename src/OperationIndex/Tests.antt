-- ===== src/OperationIndex/Tests.antt =====
-- A concrete tree of operations (src/sdk/operation-index.ts).
use vigor3912s_mcp.Common.{◌≡◌, refl, String, some, [], ◌∷◌, lit, lookup, string_key, ok}
use vigor3912s_mcp.OperationIndex.Reached.{Reached}
use vigor3912s_mcp.OperationIndex.{
  Ref, Node, array, object, operation, no_object, end, node, build_operation_index,
}
use vigor3912s_mcp.OperationIndex.Lookup.{Knows, build_operation_index-finds}

abbrev reboot : Ref
reboot = record {
  address = 1;
  operation = record {
    manifest_id = "cli.sys.reboot";
    classification = "destructive";
    build_frames = λ input. ok (lit "sys reboot" ∷ []);
  };
}

-- The module exports the operation by itself and in its list of operations.
abbrev module_tree : Node
module_tree =
    object
      (node (operation reboot) (node (array (node (operation reboot) end)) (node no_object end)))

module_tree_builds : build_operation_index module_tree ≡ ok (("cli.sys.reboot", reboot) ∷ [])
unfolding build_operation_index
module_tree_builds = refl

build_operation_index-finds_example :
    ((x : Ref)
      → Reached x module_tree
      → Knows (("cli.sys.reboot", reboot) ∷ []) x.operation.manifest_id x.address)
    × ((id : String) (x : Ref)
        → lookup id (("cli.sys.reboot", reboot) ∷ []) ≡ some x
        → Reached x module_tree × (x.operation.manifest_id ≡ id))
build_operation_index-finds_example =
    build_operation_index-finds module_tree (("cli.sys.reboot", reboot) ∷ []) module_tree_builds
