-- ===== src/Catalog/Cases.antt =====
-- Which input a curated tool with a switch makes for the SDK (src/commands/registry/families).
use vigor3912s_mcp.Common.{
  ◌≡◌, refl, sym, ap, ◌∙◌, arith, String, Bool, true, false, Option, none, some, List, [], ◌∷◌,
  Text, lit, if◌then◌else◌, string_key, ◌==◌, all, ok, ◌>>=◌, bind-ok, ok-injective, text_eq,
  text_eq_iff, Bool-cases, subst, inl, inr,
}
use mathlib.Core.List.{Memᴰ}
use mathlib.Core.List.Memᴰ.{head, tail}
use vigor3912s_mcp.Values.{Value, str, obj, Fields, end, field, Args, arg}
use vigor3912s_mcp.Catalog.Inputs.{
  Source, fixed, same_value, value_of, put, build_fields, make_input, Switch, require_all, case_for,
  switch_input, in_case,
}
use vigor3912s_mcp.Catalog.Switches.{switches}

-- The first field of a name in an object.
abbrev pub field_of : String → Fields → Option Value
field_of name end = none
field_of name (field k v fs) = if k == name then some v else field_of name fs

abbrev is_tag : String → Source → Bool
is_tag name (fixed (str t)) = text_eq t (lit name)
is_tag name source = false

-- The first field `on` of a table is the name of its case.
abbrev tags : String → String → List (String × Source) → Bool
tags on name [] = false
tags on name ((k, source) ∷ sources) = if k == on then is_tag name source else tags on name sources

abbrev is_tagged : Switch → Bool
is_tagged s = all (λ (c : String × List (String × Source)). tags s.on c.0 c.1) s.cases

switches-is_tagged : all is_tagged switches ≡ true
unfolding lit text_eq
switches-is_tagged = refl

put-other :
    (on k : String) (o : Option Value) (fs : Fields)
    → (k == on) ≡ false
    → field_of on (put k o fs) ≡ field_of on fs
put-other on k none fs h = refl
put-other on k (some v) fs h = ground arith

is_tag-fixed :
    (name : String) (source : Source) → is_tag name source ≡ true → source ≡ fixed (str (lit name))
is_tag-fixed name (fixed (str t)) h = ap (λ x. fixed (str x)) ((text_eq_iff t (lit name)).0 h)
is_tag-fixed name source h = cc

-- The steps of a table that makes its fields.
build_fields-step :
    (k : String) (source : Source) (sources : List (String × Source)) (args : Args) (fs : Fields)
    → build_fields ((k, source) ∷ sources) args ≡ ok fs
    → (o : Option Value) × (value_of source args ≡ ok o)
      × ((rest : Fields) × (build_fields sources args ≡ ok rest) × (put k o rest ≡ fs))
unfolding build_fields
build_fields-step k source sources args fs e =
    let (o, found, after) =
      bind-ok (value_of source args)
        (λ (o : Option Value). build_fields sources args >>= λ fs. ok (put k o fs)) fs e in
    let (rest, made, last) =
      bind-ok (build_fields sources args) (λ (r : Fields). ok (put k o r)) fs after in
    (o, found, (rest, made, ok-injective last))

value_of-tag :
    (name : String) (source : Source) (args : Args) (o : Option Value)
    → is_tag name source ≡ true
    → value_of source args ≡ ok o
    → some (str (lit name)) ≡ o
unfolding value_of
value_of-tag name source args o h e =
    ok-injective (subst (λ (x : Source). value_of x args ≡ ok o) (is_tag-fixed name source h) e)

build_fields-tag :
    (on name : String) (sources : List (String × Source)) (args : Args) (fs : Fields)
    → tags on name sources ≡ true
    → build_fields sources args ≡ ok fs
    → field_of on fs ≡ some (str (lit name))
build_fields-tag on name [] args fs h e = cc
build_fields-tag on name ((k, source) ∷ sources) args fs h e =
    let (o, found, (rest, made, last)) = build_fields-step k source sources args fs e in
    let later = build_fields-tag on name sources args rest in
    elim (Bool-cases (k == on)) [
      | inl here ↦ ground (arith, value_of-tag name source args o, sym last)
      | inr there ↦ ground (arith, put-other on k o rest there, sym last)
    ]

case_for-named :
    (on : String) (v : Value) (cases : List (String × List (String × Source)))
    (sources : List (String × Source))
    → all (λ (c : String × List (String × Source)). tags on c.0 c.1) cases ≡ true
    → case_for v cases ≡ some sources
    → (name : String) × (same_value v (str (lit name)) ≡ true) × (tags on name sources ≡ true)
unfolding case_for
case_for-named on v [] sources h e = cc
case_for-named on v ((name, chosen) ∷ cases) sources h e =
    let later = case_for-named on v cases sources in
    elim (Bool-cases (same_value v (str (lit name)))) [
      | inl here ↦ (name, here, ground arith)
      | inr there ↦ later (ground arith) (ground arith)
    ]

same_value-str : (v : Value) (t : Text) → same_value v (str t) ≡ true → v ≡ str t
same_value-str (str s) t h = ap str ((text_eq_iff s t).0 h)
same_value-str v t h = cc

all-Memᴰ :
    {A : Type 0} (p : A → Bool) (xs : List A) (x : A) → all p xs ≡ true → Memᴰ x xs → p x ≡ true
all-Memᴰ p [] x h m = elim m [ ]
all-Memᴰ p (y ∷ ys) x h m = elim m [
  | head same ↦ ap p same ∙ ground arith
  | tail later ↦ all-Memᴰ p ys x (ground arith) later
]

in_case-made :
    (invalid : String) (o : Option (List (String × Source))) (args : Args) (v : Value)
    → in_case invalid o args ≡ ok v
    → (sources : List (String × Source)) × (o ≡ some sources)
      × ((fs : Fields) × (build_fields sources args ≡ ok fs) × (v ≡ obj fs))
unfolding in_case make_input
in_case-made invalid none args v e = cc
in_case-made invalid (some sources) args v e =
    let (fs, made, last) = bind-ok (build_fields sources args) (λ (fs : Fields). ok (obj fs)) v e in
    (sources, refl, (fs, made, sym (ok-injective last)))

-- The input that a curated tool with a switch makes is an object, whose field of the switch is the
-- argument that the call gave.
pub switch_input-tag :
    (s : Switch)
    → Memᴰ s switches
    → (args : Args) (v : Value) → switch_input s args ≡ ok v
    → (fs : Fields) × (v ≡ obj fs) × (field_of s.on fs ≡ some (arg args s.on))
unfolding switch_input
switch_input-tag s m args v e =
    let choice = case_for (arg args s.on) s.cases in
    let (_, _, chosen) =
      bind-ok (require_all s.first args) (λ (u : Unit {0}). in_case s.invalid choice args) v e in
    let (sources, found, (fs, made, is_obj)) = in_case-made s.invalid choice args v chosen in
    let tagged = all-Memᴰ is_tagged switches s switches-is_tagged m in
    let (name, same, tag) = case_for-named s.on (arg args s.on) s.cases sources tagged found in
    (
      fs,
      is_obj,
      build_fields-tag s.on name sources args fs tag made
          ∙ sym (ap some (same_value-str (arg args s.on) (lit name) same)),
    )
