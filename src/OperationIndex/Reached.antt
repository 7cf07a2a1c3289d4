-- ===== src/OperationIndex/Reached.antt =====
-- Which operations the walk of src/sdk/operation-index.ts yields.
use vigor3912s_mcp.Common.{◌↔◌, ◌++◌, ◌⊎◌, inl, inr, List, [], ◌∷◌, refl, sym, subst}
use mathlib.Core.List.{Memᴰ}
use mathlib.Core.List.Memᴰ.{head, tail}
use vigor3912s_mcp.OperationIndex.{
  Ref, Node, no_object, array, object, operation, Nodes, end, node, walk_operations, walk_all,
}

-- An operation can be reached from a value: it is that value, or it can be reached from an element of
-- that array, or from a value of that object, which is no operation.
mutual
  pub data Reached (x : Ref) : Node → Type 0 where
    itself : Reached x (operation x)
    in_array : (nodes : Nodes) → ReachedIn x nodes → Reached x (array nodes)
    in_object : (nodes : Nodes) → ReachedIn x nodes → Reached x (object nodes)

  pub data ReachedIn (x : Ref) : Nodes → Type 0 where
    first : (n : Node) (nodes : Nodes) → Reached x n → ReachedIn x (node n nodes)
    later : (n : Node) (nodes : Nodes) → ReachedIn x nodes → ReachedIn x (node n nodes)

Memᴰ-left : {A : Type 0} {x : A} (xs ys : List A) → Memᴰ x xs → Memᴰ x (xs ++ ys)
Memᴰ-left [] ys m = elim m [ ]
Memᴰ-left (y ∷ xs) ys m = elim m [ head e ↦ head e | tail t ↦ tail (Memᴰ-left xs ys t) ]

Memᴰ-right : {A : Type 0} {x : A} (xs ys : List A) → Memᴰ x ys → Memᴰ x (xs ++ ys)
Memᴰ-right [] ys m = m
Memᴰ-right (y ∷ xs) ys m = tail (Memᴰ-right xs ys m)

Memᴰ-append : {A : Type 0} {x : A} (xs ys : List A) → Memᴰ x (xs ++ ys) → Memᴰ x xs ⊎ Memᴰ x ys
Memᴰ-append [] ys m = inr m
Memᴰ-append (y ∷ xs) ys m = elim m [
  | head e ↦ inl (head e)
  | tail t ↦ elim (Memᴰ-append xs ys t) [ inl here ↦ inl (tail here) | inr there ↦ inr there ]
]

mutual
  unfolding walk_operations walk_all

  walk_operations-Reached : (n : Node) (x : Ref) → Memᴰ x (walk_operations n) → Reached x n
  walk_operations-Reached no_object x m = elim m [ ]
  walk_operations-Reached (array nodes) x m = in_array nodes (walk_all-Reached nodes x m)
  walk_operations-Reached (object nodes) x m = in_object nodes (walk_all-Reached nodes x m)
  walk_operations-Reached (operation op) x m = elim m [
    | head same ↦ subst (λ y. Reached y (operation op)) (sym same) itself
    | tail t ↦ elim t [ ]
  ]

  walk_all-Reached : (nodes : Nodes) (x : Ref) → Memᴰ x (walk_all nodes) → ReachedIn x nodes
  walk_all-Reached end x m = elim m [ ]
  walk_all-Reached (node n nodes) x m = elim (Memᴰ-append (walk_operations n) (walk_all nodes) m) [
    | inl here ↦ first n nodes (walk_operations-Reached n x here)
    | inr there ↦ later n nodes (walk_all-Reached nodes x there)
  ]

mutual
  unfolding walk_operations walk_all

  Reached-walk_operations : (x : Ref) {n : Node} → Reached x n → Memᴰ x (walk_operations n)
  Reached-walk_operations x itself = head refl
  Reached-walk_operations x (in_array nodes r) = Reached-walk_all x r
  Reached-walk_operations x (in_object nodes r) = Reached-walk_all x r

  Reached-walk_all : (x : Ref) {nodes : Nodes} → ReachedIn x nodes → Memᴰ x (walk_all nodes)
  Reached-walk_all x (first n rest r) =
      Memᴰ-left (walk_operations n) (walk_all rest) (Reached-walk_operations x r)
  Reached-walk_all x (later n rest r) =
      Memᴰ-right (walk_operations n) (walk_all rest) (Reached-walk_all x r)

-- The walk yields exactly the operations that can be reached.
pub walk_operations_iff : (n : Node) (x : Ref) → Memᴰ x (walk_operations n) ↔ Reached x n
walk_operations_iff n x = (walk_operations-Reached n x, Reached-walk_operations x)
