-- ===== src/Schema/Flatten.antt =====
-- The arguments that src/sdk/schema-to-zod.ts makes of the branches of a schema.
use vigor3912s_mcp.Common.{
  ◌≡◌, refl, sym, ap, ◌∙◌, subst, inl, inr, arith, ℕ, ◌+◌, String, Bool, true, false, not, ◌||◌,
  ◌&&◌, some-injective, Option, none, some, List, [], ◌∷◌, ◌++◌, Text, lookup, lookup-insert,
  get_or, is_some, string_key, ◌==◌, ok, ◌>>=◌, bind-ok, ok-injective, Bool-cases,
}
use vigor3912s_mcp.Zod.{Zod}
use vigor3912s_mcp.Schema.{
  JsonSchema, PropertyList, no_property, property, Branches, no_branch, branch, check_known_keys,
  build_enum, is_defined, property_path, branch_path, convert_schema,
}
use vigor3912s_mcp.Schema.TopLevel.{
  keywords, has_const, const_of, every, first_const, find_common_const_discriminator, properties_of,
  property_of, is_discriminator, add_type, collect_properties, collect_branches, consts_of,
  discriminant, merged, flatten_object_one_of,
}

abbrev pub has_key : {A : Type 0} → String → List (String × A) → Bool
has_key name m = is_some (lookup name m)

add_type-has_key :
    (name k : String) (z : Zod) (types : List (String × List Zod))
    → has_key name (add_type k z types) ≡ ((k == name) || has_key name types)
unfolding add_type
add_type-has_key name k z types =
    ground (arith, lookup-insert k name (get_or (lookup k types) [] ++ (z ∷ [])) types)

is_discriminator-same :
    (d : Option String) (k name : String)
    → (k == name) ≡ true
    → is_discriminator d k ≡ is_discriminator d name
is_discriminator-same d k name h = ap (is_discriminator d) ((string_key.same_iff k name).0 h)

-- The collected keys are those that were there and every property but the discriminator.
collect_properties-has_key :
    (d : Option String) (path : Text) (name : String) (list : PropertyList)
    (types more : List (String × List Zod))
    → collect_properties d path list types ≡ ok more
    → has_key name more
      ≡ (has_key name types || (is_some (property_of name list) && not (is_discriminator d name)))
unfolding collect_properties
collect_properties-has_key d path name no_property types more e =
    ap (λ m. has_key name m) (sym (ok-injective e)) ∙ ground arith
collect_properties-has_key d path name (property k s list) types more e =
    elim (Bool-cases (is_discriminator d k)) [
      | inl skip ↦ ground (
        arith,
        collect_properties-has_key d path name list types more (rw skip at e),
        is_discriminator-same d k name,
        skip,
      )
      | inr take ↦
          let (z, made, after) =
            bind-ok (convert_schema s (property_path path k))
              (λ (z : Zod). collect_properties d path list (add_type k z types)) more
              (rw take at e) in
          ground (
            arith,
            collect_properties-has_key d path name list (add_type k z types) more after,
            add_type-has_key name k z types,
            is_discriminator-same d k name,
            take,
          )
    ]

-- Some branch has a property of the name.
abbrev pub in_some_branch : String → Branches → Bool
in_some_branch name no_branch = false
in_some_branch name (branch b branches) =
    is_some (property_of name (properties_of b)) || in_some_branch name branches

module _ (d : Option String) (path : Text) where
  -- The turn of the loop for one branch.
  collect_branches-step :
      (i : ℕ) (b : JsonSchema) (branches : Branches) (types more : List (String × List Zod))
      → collect_branches d path i (branch b branches) types ≡ ok more
      → (here : List (String × List Zod)) × (collect_properties d
            (branch_path path i)
            (properties_of b)
            types
          ≡ ok here)
        × (collect_branches d path (i + 1) branches here ≡ ok more)
  unfolding collect_branches
  collect_branches-step i b branches types more e =
      let (_, _, checked) =
        bind-ok (check_known_keys (keywords b).keys (branch_path path i))
          (λ (u : Unit {0}).
            collect_properties d (branch_path path i) (properties_of b) types >>= λ m.
            collect_branches d path (i + 1) branches m)
          more e in
      bind-ok (collect_properties d (branch_path path i) (properties_of b) types)
        (λ (m : List (String × List Zod)). collect_branches d path (i + 1) branches m) more checked

  collect_branches-has_key :
      (i : ℕ) (name : String) (branches : Branches) (types more : List (String × List Zod))
      → collect_branches d path i branches types ≡ ok more
      → has_key name more
        ≡ (has_key name types || (in_some_branch name branches && not (is_discriminator d name)))
  unfolding collect_branches
  collect_branches-has_key i name no_branch types more e =
      ap (λ m. has_key name m) (sym (ok-injective e)) ∙ ground arith
  collect_branches-has_key i name (branch b branches) types more e =
      let (here, made, after) = collect_branches-step i b branches types more e in
      ground (
        arith,
        collect_branches-has_key (i + 1) name branches here more after,
        collect_properties-has_key d (branch_path path i) name (properties_of b) types here made,
      )

merged-has_key :
    (name : String) (types : List (String × List Zod))
    → has_key name (merged types) ≡ has_key name types
unfolding lookup
merged-has_key name [] = refl
merged-has_key name ((k, zs) ∷ types) = ground (arith, merged-has_key name types)

append-has_key :
    (name : String) (xs ys : List (String × Zod))
    → has_key name (xs ++ ys) ≡ (has_key name xs || has_key name ys)
unfolding lookup
append-has_key name [] ys = refl
append-has_key name ((k, z) ∷ xs) ys = ground (arith, append-has_key name xs ys)

discriminant-has_key :
    (d : Option String) (branches : Branches) (path : Text) (first : List (String × Zod))
    (name : String)
    → discriminant d branches path ≡ ok first
    → has_key name first ≡ is_discriminator d name
unfolding lookup
discriminant-has_key none branches path first name e =
    ap (λ m. has_key name m) (sym (ok-injective e))
discriminant-has_key (some d) branches path first name e =
    let (z, made, last) =
      bind-ok (build_enum (consts_of d branches) path) (λ (z : Zod). ok ((d, z) ∷ [])) first e in
    ap (λ m. has_key name m) (sym (ok-injective last))
    ∙ ground (arith, string_key.same_iff name d, string_key.same_iff d name)

-- A discriminator is a property of every branch.
first_const-every :
    (list : PropertyList) (branches : Branches) (d : String)
    → first_const list branches ≡ some d
    → every (has_const d) branches ≡ true
unfolding first_const
first_const-every no_property branches d e = cc
first_const-every (property name s list) branches d e =
    elim (Bool-cases (every (has_const name) branches)) [
      | inl all_have ↦
          let same : name ≡ d = some-injective (rw all_have at e) in
          subst (λ x. every (has_const x) branches ≡ true) same all_have
      | inr not_all ↦ first_const-every list branches d (rw not_all at e)
    ]

const_of-is_some : (o : Option JsonSchema) → is_defined (const_of o) ≡ true → is_some o ≡ true
const_of-is_some none h = cc
const_of-is_some (some s) h = refl

found-in_some_branch :
    (b : JsonSchema) (branches : Branches) (name : String) (o : Option String)
    → first_const (properties_of b) (branch b branches) ≡ o
    → is_discriminator o name ≡ true
    → in_some_branch name (branch b branches) ≡ true
found-in_some_branch b branches name none e h = cc
found-in_some_branch b branches name (some d) e h =
    let same = (string_key.same_iff name d).0 h in
    let has = first_const-every (properties_of b) (branch b branches) d e in
    subst (λ x. in_some_branch x (branch b branches) ≡ true) (sym same)
      (ground (arith, has, const_of-is_some (property_of d (properties_of b))))

discriminator-in_some_branch :
    (branches : Branches) (name : String)
    → is_discriminator (find_common_const_discriminator branches) name ≡ true
    → in_some_branch name branches ≡ true
unfolding find_common_const_discriminator
discriminator-in_some_branch no_branch name h = cc
discriminator-in_some_branch (branch b branches) name h =
    found-in_some_branch b branches name (first_const (properties_of b) (branch b branches)) refl h

-- The arguments are exactly the properties of the branches.
pub flatten_object_one_of-has_key :
    (branches : Branches) (path : Text) (shape : List (String × Zod)) (name : String)
    → flatten_object_one_of branches (find_common_const_discriminator branches) path ≡ ok shape
    → has_key name shape ≡ in_some_branch name branches
unfolding flatten_object_one_of
flatten_object_one_of-has_key branches path shape name e =
    let d = find_common_const_discriminator branches in
    let (types, collected, after) =
      bind-ok (collect_branches d path 0 branches [])
        (λ (types : List (String × List Zod)).
          discriminant d branches path >>= λ first. ok (first ++ merged types))
        shape e in
    let (first, made, last) =
      bind-ok (discriminant d branches path)
        (λ (first : List (String × Zod)). ok (first ++ merged types)) shape after in
    ap (λ m. has_key name m) (sym (ok-injective last))
    ∙ append-has_key name first (merged types)
    ∙ ground (
      arith,
      discriminant-has_key d branches path first name made,
      merged-has_key name types,
      collect_branches-has_key d path 0 name branches [] types collected,
      discriminator-in_some_branch branches name,
    )
