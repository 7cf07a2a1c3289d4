-- ===== src/OperationIndex/Lookup.antt =====
-- What the index of src/sdk/operation-index.ts finds.
use vigor3912s_mcp.Common.{
  some-injective, ◌≡◌, refl, sym, ap, ◌∙◌, subst, inl, inr, ℕ, String, Option, none, some, List, [],
  ◌∷◌, eqb, eqb_iff, ◌⊎◌, lookup, insert, lookup-insert, string_key, ◌==◌, Result, ok, err,
  ok-injective, Bool-cases, same_refl,
}
use mathlib.Core.List.{Memᴰ}
use mathlib.Core.List.Memᴰ.{head, tail}
use vigor3912s_mcp.OperationIndex.Reached.{Reached, walk_operations_iff}
use vigor3912s_mcp.OperationIndex.{
  Ref, Node, walk_operations, duplicate, add_operation, index_operations, build_operation_index,
}

-- Adding an operation makes the map know it, and keeps what the map knew under every id, as far as
-- the identity goes.
abbrev Grown : Ref → List (String × Ref) → List (String × Ref) → Type 0
Grown op index more =
    (more ≡ insert op.operation.manifest_id op index)
    × ((old : Ref) → lookup op.operation.manifest_id index ≡ some old → old.address ≡ op.address)

add_operation-Grown :
    (op : Ref) (o : Option Ref) (index more : List (String × Ref))
    → lookup op.operation.manifest_id index ≡ o
    → add_operation op o index ≡ ok more
    → Grown op index more
unfolding add_operation duplicate
add_operation-Grown op none index more h e = (sym (ok-injective e), λ old found. cc)
add_operation-Grown op (some existing) index more h e =
    elim (Bool-cases (eqb existing.address op.address)) [
      | inl same ↦ (
        sym (ok-injective (rw same at e)),
        λ old found.
            let is_it : existing ≡ old = cc in
            let its : existing.address ≡ op.address =
              (eqb_iff existing.address op.address).0 same in
            sym (ap (λ (r : Ref). r.address) is_it) ∙ its,
      )
      | inr other ↦ cc (rw other at e)
    ]

-- The map knows an id by an object of the given identity.
abbrev pub Knows : List (String × Ref) → String → ℕ → Type 0
Knows index id address = (x : Ref) × (lookup id index ≡ some x) × (x.address ≡ address)

Grown-Knows :
    (op : Ref) (index more : List (String × Ref)) (id : String) (address : ℕ)
    → Grown op index more
    → Knows index id address
    → Knows more id address
Grown-Knows op index more id address (made, same) (x, found, its) =
    let now = ap (λ m. lookup id m) made ∙ lookup-insert op.operation.manifest_id id op index in
    elim (Bool-cases (op.operation.manifest_id == id)) [
      | inl here ↦
          let is_id = (string_key.same_iff op.operation.manifest_id id).0 here in
          let old = same x (subst (λ i. lookup i index ≡ some x) (sym is_id) found) in
          (op, now ∙ rw here refl, sym old ∙ its)
      | inr other ↦ (x, now ∙ rw other found, its)
    ]

Grown-new :
    (op : Ref) (index more : List (String × Ref))
    → Grown op index more
    → Knows more op.operation.manifest_id op.address
Grown-new op index more (made, same) =
    let id = op.operation.manifest_id in
    (op, ap (λ m. lookup id m) made ∙ lookup-insert id id op index ∙ rw (same_refl id) refl, refl)

-- What the map has under an id is an operation of that id that was added or was there before.
Grown-old :
    (op : Ref) (index more : List (String × Ref)) (id : String) (x : Ref)
    → Grown op index more
    → lookup id more ≡ some x
    → ((op ≡ x) × (op.operation.manifest_id ≡ id)) ⊎ (lookup id index ≡ some x)
Grown-old op index more id x (made, same) found =
    let now =
      sym (lookup-insert op.operation.manifest_id id op index)
      ∙ ap (λ m. lookup id m) (sym made)
      ∙ found in
    elim (Bool-cases (op.operation.manifest_id == id)) [
      | inl here ↦ inl (
        some-injective (rw here at now),
        (string_key.same_iff op.operation.manifest_id id).0 here,
      )
      | inr other ↦ inr (rw other at now)
    ]

module _ (op : Ref) (ops : List Ref) (index final : List (String × Ref)) where
  step_with :
      (r : Result (List (String × Ref)))
      → add_operation op (lookup op.operation.manifest_id index) index ≡ r
      → elim r [ err e ↦ err e | ok more ↦ index_operations ops more ] ≡ ok final
      → (more : List (String × Ref)) × Grown op index more × (index_operations ops more ≡ ok final)
  step_with (err e) h k = cc
  step_with (ok more) h k =
      (more, add_operation-Grown op (lookup op.operation.manifest_id index) index more refl h, k)

  index_operations-step :
      index_operations (op ∷ ops) index ≡ ok final
      → (more : List (String × Ref)) × Grown op index more × (index_operations ops more ≡ ok final)
  unfolding index_operations
  index_operations-step e =
      step_with (add_operation op (lookup op.operation.manifest_id index) index) refl e

index_operations-Knows :
    (ops : List Ref) (index final : List (String × Ref)) (id : String) (address : ℕ)
    → index_operations ops index ≡ ok final
    → Knows index id address
    → Knows final id address
unfolding index_operations
index_operations-Knows [] index final id address e h =
    subst (λ m. Knows m id address) (ok-injective e) h
index_operations-Knows (op ∷ ops) index final id address e h =
    let (more, grown, rest) = index_operations-step op ops index final e in
    index_operations-Knows ops more final id address rest
      (Grown-Knows op index more id address grown h)

index_operations-new :
    (ops : List Ref) (index final : List (String × Ref)) (x : Ref)
    → index_operations ops index ≡ ok final
    → Memᴰ x ops
    → Knows final x.operation.manifest_id x.address
index_operations-new [] index final x e m = elim m [ ]
index_operations-new (op ∷ ops) index final x e m =
    let (more, grown, rest) = index_operations-step op ops index final e in
    elim m [
      | head same ↦
          subst (λ (y : Ref). Knows final y.operation.manifest_id y.address) (sym same)
            (index_operations-Knows ops more final op.operation.manifest_id op.address rest
              (Grown-new op index more grown))
      | tail later ↦ index_operations-new ops more final x rest later
    ]

index_operations-old :
    (ops : List Ref) (index final : List (String × Ref)) (id : String) (x : Ref)
    → index_operations ops index ≡ ok final
    → lookup id final ≡ some x
    → (Memᴰ x ops × (x.operation.manifest_id ≡ id)) ⊎ (lookup id index ≡ some x)
unfolding index_operations
index_operations-old [] index final id x e found =
    inr (ap (λ m. lookup id m) (ok-injective e) ∙ found)
index_operations-old (op ∷ ops) index final id x e found =
    let (more, grown, rest) = index_operations-step op ops index final e in
    elim (index_operations-old ops more final id x rest found) [
      | inl (m, its) ↦ inl (tail m, its)
      | inr before ↦ elim (Grown-old op index more id x grown before) [
        | inl (same, its) ↦
            inl (head (sym same), ap (λ (y : Ref). y.operation.manifest_id) (sym same) ∙ its)
        | inr old ↦ inr old
      ]
    ]

-- A built index knows every operation that can be reached from the root through arrays and objects,
-- under its id and by its identity, and has nothing but such operations, each under its own id.
pub build_operation_index-finds :
    (root : Node) (index : List (String × Ref))
    → build_operation_index root ≡ ok index
    → ((x : Ref) → Reached x root → Knows index x.operation.manifest_id x.address)
      × ((id : String) (x : Ref)
          → lookup id index ≡ some x
          → Reached x root × (x.operation.manifest_id ≡ id))
unfolding build_operation_index lookup
build_operation_index-finds root index e = (
  λ x r.
      index_operations-new (walk_operations root) [] index x e ((walk_operations_iff root x).1 r),
  λ id x found. elim (index_operations-old (walk_operations root) [] index id x e found) [
    | inl (walked, its) ↦ ((walk_operations_iff root x).0 walked, its)
    | inr nothing ↦ cc
  ],
)
