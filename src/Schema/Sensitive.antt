-- ===== src/Schema/Sensitive.antt =====
-- Which properties src/sdk/secret-fields.ts finds: every text property with a secret's name, anywhere
-- among the properties, the branches and the items of a schema, and no other.
use vigor3912s_mcp.Common.{
  ◌≡◌, refl, sym, ◌∙◌, subst, ◌↔◌, ◌⊎◌, inl, inr, arith, String, Bool, true, false, ◌&&◌, some,
  List, [], ◌∷◌, ◌++◌, contains, contains-append, contains-distinct_from, string_key, ◌==◌,
  Bool-cases,
}
use vigor3912s_mcp.Schema.{
  JsonSchema, schema, Keywords, Properties, no_properties, properties, PropertyList, no_property,
  property, OneOf, no_one_of, one_of, Branches, no_branch, branch, ItemSchema, no_items, items,
  is_type,
}
use vigor3912s_mcp.Schema.TopLevel.{keywords}
use vigor3912s_mcp.Schema.Secrets.{
  is_secret_field, named, visit, visit_properties, visit_list, visit_one_of, visit_branches,
  visit_items, secret_fields_of,
}

pub data PropertyIn (name : String) (s : JsonSchema) : PropertyList → Type 0 where
  here : (list : PropertyList) → PropertyIn name s (property name s list)
  later :
      (k : String) (t : JsonSchema) (list : PropertyList)
      → PropertyIn name s list
      → PropertyIn name s (property k t list)

pub data BranchIn (s : JsonSchema) : Branches → Type 0 where
  here : (branches : Branches) → BranchIn s (branch s branches)
  later :
      (b : JsonSchema) (branches : Branches) → BranchIn s branches → BranchIn s (branch b branches)

-- One schema stands directly in another.
pub data Within (s : JsonSchema) : JsonSchema → Type 0 where
  as_property :
      (k : Keywords) (list : PropertyList) (one : OneOf) (item : ItemSchema) (name : String)
      → PropertyIn name s list
      → Within s (schema k (properties list) one item)
  as_branch :
      (k : Keywords) (props : Properties) (branches : Branches) (item : ItemSchema)
      → BranchIn s branches
      → Within s (schema k props (one_of branches) item)
  as_items :
      (k : Keywords) (props : Properties) (one : OneOf) → Within s (schema k props one (items s))

-- A schema, or one within it at any depth, has a text property that is named like a secret.
pub data HoldsSecret (name : String) : JsonSchema → Type 0 where
  own :
      (k : Keywords) (list : PropertyList) (one : OneOf) (item : ItemSchema) (s : JsonSchema)
      → PropertyIn name s list
      → is_secret_field name ≡ true
      → is_type (keywords s) "string" ≡ true
      → HoldsSecret name (schema k (properties list) one item)
  inner : (s t : JsonSchema) → Within s t → HoldsSecret name s → HoldsSecret name t

append-has :
    (xs ys : List String) (name : String)
    → (contains xs name ≡ true) ⊎ (contains ys name ≡ true)
    → contains (xs ++ ys) name ≡ true
append-has xs ys name (inl h) = contains-append xs ys name ∙ ground arith
append-has xs ys name (inr h) = contains-append xs ys name ∙ ground arith

has-append :
    (xs ys : List String) (name : String)
    → contains (xs ++ ys) name ≡ true
    → (contains xs name ≡ true) ⊎ (contains ys name ≡ true)
has-append xs ys name h = elim (Bool-cases (contains xs name)) [
  | inl left ↦ inl left
  | inr right ↦ inr (ground (arith, contains-append xs ys name))
]

named-own :
    (name : String) (s : JsonSchema)
    → is_secret_field name ≡ true
    → is_type (keywords s) "string" ≡ true
    → contains (named name s) name ≡ true
unfolding named contains
named-own name (schema k props one item) h t = ground (arith, string_key.same_iff name name)

both-true : (a b : Bool) → (a && b) ≡ true → (a ≡ true) × (b ≡ true)
both-true true true h = (refl, refl)
both-true true false h = cc
both-true false b h = cc

one-has : (k name : String) → contains (k ∷ []) name ≡ true → k ≡ name
unfolding contains
one-has k name h = elim (Bool-cases (k == name)) [
  | inl same ↦ (string_key.same_iff k name).0 same
  | inr other ↦ cc (rw other at h)
]

own-named :
    (k : String) (s : JsonSchema) (name : String)
    → contains (named k s) name ≡ true
    → (k ≡ name) × (is_secret_field name ≡ true) × (is_type (keywords s) "string" ≡ true)
unfolding named contains
own-named k (schema w props one item) name h =
    elim (Bool-cases (is_secret_field k && is_type w "string")) [
      | inl secret ↦
          let same : k ≡ name = one-has k name (rw secret at h) in
          let (is_secret, is_text) = both-true (is_secret_field k) (is_type w "string") secret in
          (same, subst (λ x. is_secret_field x ≡ true) same is_secret, is_text)
      | inr other ↦ cc (rw other at h)
    ]

-- What a part adds, the whole adds.
visit_list-in :
    (k name : String) (s : JsonSchema) (list : PropertyList)
    → PropertyIn k s list
    → (contains (named k s) name ≡ true) ⊎ (contains (visit s) name ≡ true)
    → contains (visit_list list) name ≡ true
unfolding visit
visit_list-in k name s list (here rest) h =
    append-has (named k s) (visit s ++ visit_list rest) name (elim h [
      | inl mine ↦ inl mine
      | inr deep ↦ inr (append-has (visit s) (visit_list rest) name (inl deep))
    ])
visit_list-in k name s list (later j t rest m) h =
    append-has (named j t) (visit t ++ visit_list rest) name
      (inr (append-has (visit t) (visit_list rest) name (inr (visit_list-in k name s rest m h))))

visit_branches-in :
    (name : String) (s : JsonSchema) (branches : Branches)
    → BranchIn s branches
    → contains (visit s) name ≡ true
    → contains (visit_branches branches) name ≡ true
unfolding visit
visit_branches-in name s bs (here branches) h =
    append-has (visit s) (visit_branches branches) name (inl h)
visit_branches-in name s bs (later b branches m) h =
    append-has (visit b) (visit_branches branches) name
      (inr (visit_branches-in name s branches m h))

visit-Within :
    (name : String) (s t : JsonSchema)
    → Within s t
    → contains (visit s) name ≡ true
    → contains (visit t) name ≡ true
unfolding visit
visit-Within name s t (as_property k list one item j m) h =
    append-has (visit_list list) (visit_one_of one ++ visit_items item) name
      (inl (visit_list-in j name s list m (inr h)))
visit-Within name s t (as_branch k props branches item m) h =
    append-has (visit_properties props) (visit_branches branches ++ visit_items item) name (
      inr (
        append-has (visit_branches branches) (visit_items item) name
          (inl (visit_branches-in name s branches m h))))
visit-Within name s t (as_items k props one) h =
    append-has (visit_properties props) (visit_one_of one ++ visit s) name
      (inr (append-has (visit_one_of one) (visit s) name (inr h)))

HoldsSecret-visit :
    (name : String) (s : JsonSchema) → HoldsSecret name s → contains (visit s) name ≡ true
unfolding visit
HoldsSecret-visit name t (own k list one item s m h is_text) =
    append-has (visit_list list) (visit_one_of one ++ visit_items item) name
      (inl (visit_list-in name name s list m (inl (named-own name s h is_text))))
HoldsSecret-visit name t (inner s u w h) = visit-Within name s u w (HoldsSecret-visit name s h)

-- Where a name that the properties add comes from.
abbrev FromList : String → PropertyList → Type 0
FromList name list =
    (k : String) × ((s : JsonSchema) × PropertyIn k s list
      × (((k ≡ name) × (is_secret_field name ≡ true) × (is_type (keywords s) "string" ≡ true))
          ⊎ HoldsSecret name s))

FromList-HoldsSecret :
    (name : String) (k : Keywords) (list : PropertyList) (one : OneOf) (item : ItemSchema)
    → FromList name list
    → HoldsSecret name (schema k (properties list) one item)
FromList-HoldsSecret name k list one item (j, (s, m, inl (same, secret, is_text))) =
    own k list one item s (subst (λ x. PropertyIn x s list) same m) secret is_text
FromList-HoldsSecret name k list one item (j, (s, m, inr deep)) =
    inner s (schema k (properties list) one item) (as_property k list one item j m) deep

mutual
  unfolding visit contains

  visit-HoldsSecret :
      (name : String) (s : JsonSchema) → contains (visit s) name ≡ true → HoldsSecret name s
  visit-HoldsSecret name (schema k props one item) h =
      elim (has-append (visit_properties props) (visit_one_of one ++ visit_items item) name h) [
        | inl found ↦ properties-HoldsSecret name k props one item found
        | inr other ↦ elim (has-append (visit_one_of one) (visit_items item) name other) [
          | inl found ↦ one_of-HoldsSecret name k props one item found
          | inr found ↦ items-HoldsSecret name k props one item found
        ]
      ]

  properties-HoldsSecret :
      (name : String) (k : Keywords) (props : Properties) (one : OneOf) (item : ItemSchema)
      → contains (visit_properties props) name ≡ true
      → HoldsSecret name (schema k props one item)
  properties-HoldsSecret name k no_properties one item h = cc
  properties-HoldsSecret name k (properties list) one item h =
      FromList-HoldsSecret name k list one item (list-FromList name list h)

  list-FromList :
      (name : String) (list : PropertyList)
      → contains (visit_list list) name ≡ true
      → FromList name list
  list-FromList name no_property h = cc
  list-FromList name (property k s list) h =
      elim (has-append (named k s) (visit s ++ visit_list list) name h) [
        | inl mine ↦ (k, (s, here list, inl (own-named k s name mine)))
        | inr other ↦ elim (has-append (visit s) (visit_list list) name other) [
          | inl deep ↦ (k, (s, here list, inr (visit-HoldsSecret name s deep)))
          | inr rest ↦
              let (j, (t, m, why)) = list-FromList name list rest in (j, (t, later k s list m, why))
        ]
      ]

  one_of-HoldsSecret :
      (name : String) (k : Keywords) (props : Properties) (one : OneOf) (item : ItemSchema)
      → contains (visit_one_of one) name ≡ true
      → HoldsSecret name (schema k props one item)
  one_of-HoldsSecret name k props no_one_of item h = cc
  one_of-HoldsSecret name k props (one_of branches) item h =
      let (b, m, deep) = branches-HoldsSecret name branches h in
      inner b (schema k props (one_of branches) item) (as_branch k props branches item m) deep

  branches-HoldsSecret :
      (name : String) (branches : Branches)
      → contains (visit_branches branches) name ≡ true
      → (b : JsonSchema) × BranchIn b branches × HoldsSecret name b
  branches-HoldsSecret name no_branch h = cc
  branches-HoldsSecret name (branch b branches) h =
      elim (has-append (visit b) (visit_branches branches) name h) [
        | inl deep ↦ (b, here branches, visit-HoldsSecret name b deep)
        | inr rest ↦
            let (c, m, deep) = branches-HoldsSecret name branches rest in
            (c, later b branches m, deep)
      ]

  items-HoldsSecret :
      (name : String) (k : Keywords) (props : Properties) (one : OneOf) (item : ItemSchema)
      → contains (visit_items item) name ≡ true
      → HoldsSecret name (schema k props one item)
  items-HoldsSecret name k props one no_items h = cc
  items-HoldsSecret name k props one (items s) h =
      inner s (schema k props one (items s)) (as_items k props one) (visit-HoldsSecret name s h)

-- The secret fields of a schema are the names of its text properties, at any depth, that are named
-- like a secret.
pub secret_fields_of_iff :
    (s : JsonSchema) (name : String)
    → (contains (secret_fields_of (some s)) name ≡ true) ↔ HoldsSecret name s
unfolding secret_fields_of contains
secret_fields_of_iff s name =
    let same = contains-distinct_from [] (visit s) name in
    (λ h. visit-HoldsSecret name s (sym same ∙ h), λ h. same ∙ HoldsSecret-visit name s h)
