-- ===== src/Allowlist/Choices.antt =====
-- The argument values that src/commands/read-allowlist.ts expands are plain texts.
use vigor3912s_mcp.Common.{
  ◌≡◌, subst, inl, inr, arith, String, false, Option, none, some, List, [], ◌∷◌, ◌++◌, map, Text,
  any, All, insert, string_key, text_key, ◌==◌, Result, ok, ◌>>=◌, bind-ok, ok-injective,
  Bool-cases,
}
use vigor3912s_mcp.Values.{Value, Args}
use vigor3912s_mcp.Zod.{Zod}
use vigor3912s_mcp.Registry.{CommandDef}
use vigor3912s_mcp.Allowlist.{
  Choice, value, omit, extract_enum_values, with_choice, choose, expand_arg_combos,
  is_unsafe_choice, value_lists, with_values, add_list, render_all, thrown,
}

-- An argument that is no text, or a text without white space and shell characters.
abbrev pub Plain : String × Value → Type 0
Plain a = is_unsafe_choice (value a.1) ≡ false

-- A text that a tool renders for plain arguments.
abbrev pub RenderedBy : CommandDef → Text → Type 0
RenderedBy cmd text = (args : Args) × All Plain args × (cmd.render args ≡ ok text)

pub All-both :
    {A : Type 0} (P : A → Type 0) (xs ys : List A) → All P xs → All P ys → All P (xs ++ ys)
All-both P [] ys h k = k
All-both P (x ∷ xs) ys h k = (h.0, All-both P xs ys h.1 k)

insert-Plain :
    (key : String) (v : Value) (args : Args)
    → Plain (key, v)
    → All Plain args
    → All Plain (insert key v args)
unfolding insert
insert-Plain key v [] p h = (p, tt)
insert-Plain key v ((k, w) ∷ args) p h = elim (Bool-cases (k == key)) [
  | inl same ↦ rw same (p, h.1)
  | inr other ↦ rw other (h.0, insert-Plain key v args p h.1)
]

with_choice-Plain :
    (key : String) (base : Args) (c : Choice)
    → is_unsafe_choice c ≡ false
    → All Plain base
    → All Plain (with_choice key base c)
with_choice-Plain key base omit h k = k
with_choice-Plain key base (value v) h k = insert-Plain key v base h k

with_choices-Plain :
    (key : String) (base : Args) (values : List Choice)
    → any is_unsafe_choice values ≡ false
    → All Plain base
    → All (λ (a : Args). All Plain a) (map (with_choice key base) values)
with_choices-Plain key base [] h k = tt
with_choices-Plain key base (c ∷ values) h k = (
  with_choice-Plain key base c (ground arith) k,
  with_choices-Plain key base values (ground arith) k,
)

choose-Plain :
    (key : String) (values : List Choice) (combos : List Args)
    → any is_unsafe_choice values ≡ false
    → All (λ (a : Args). All Plain a) combos
    → All (λ (a : Args). All Plain a) (choose key values combos)
unfolding choose
choose-Plain key values [] h k = tt
choose-Plain key values (base ∷ combos) h k =
    All-both (λ (a : Args). All Plain a) (map (with_choice key base) values)
      (choose key values combos) (with_choices-Plain key base values h k.0)
      (choose-Plain key values combos h k.1)

abbrev pub SafeList : String × List Choice → Type 0
SafeList l = any is_unsafe_choice l.1 ≡ false

pub expand-Plain :
    (lists : List (String × List Choice)) (combos : List Args)
    → All SafeList lists
    → All (λ (a : Args). All Plain a) combos
    → All (λ (a : Args). All Plain a) (expand_arg_combos lists combos)
unfolding expand_arg_combos
expand-Plain [] combos h k = k
expand-Plain ((key, values) ∷ lists) combos h k =
    expand-Plain lists (choose key values combos) h.1 (choose-Plain key values combos h.0 k)

pub render_all-RenderedBy :
    (cmd : CommandDef) (combos : List Args) (texts : List Text)
    → All (λ (a : Args). All Plain a) combos
    → render_all cmd combos ≡ ok texts
    → All (RenderedBy cmd) texts
unfolding render_all
render_all-RenderedBy cmd [] texts h e = subst (All (RenderedBy cmd)) (ok-injective e) tt
render_all-RenderedBy cmd (args ∷ combos) texts h e =
    let (text, rendered, after) =
      bind-ok (cmd.render args) (λ (t : Text). render_all cmd combos >>= λ ts. ok (t ∷ ts)) texts
        e in
    let (later, made, last) =
      bind-ok (render_all cmd combos) (λ (ts : List Text). ok (text ∷ ts)) texts after in
    subst (All (RenderedBy cmd)) (ok-injective last)
      ((args, h.0, rendered), render_all-RenderedBy cmd combos later h.1 made)

with_values-SafeList :
    (id key : String) (o : Option (List Choice))
    (rest : Result (Option (List (String × List Choice)))) (lists : List (String × List Choice))
    → with_values id key o rest ≡ ok (some lists)
    → (values : List Choice) × (any is_unsafe_choice values ≡ false)
      × ((later : List (String × List Choice)) × (rest ≡ ok (some later))
          × ((key, values) ∷ later ≡ lists))
unfolding with_values thrown
with_values-SafeList id key none rest lists e = cc
with_values-SafeList id key (some []) rest lists e = cc
with_values-SafeList id key (some (c ∷ cs)) rest lists e =
    elim (Bool-cases (any is_unsafe_choice (c ∷ cs))) [
      | inl unsafe ↦ cc (rw unsafe at e)
      | inr safe ↦
          let (o, made, last) =
            bind-ok rest
              (λ (o : Option (List (String × List Choice))). ok (add_list key (c ∷ cs) o))
              (some lists) (rw safe at e) in
          (c ∷ cs, safe, listed o made last)
    ]
  where
    listed :
        (o : Option (List (String × List Choice)))
        → rest ≡ ok o
        → ok (add_list key (c ∷ cs) o) ≡ ok (some lists)
        → (later : List (String × List Choice)) × (rest ≡ ok (some later))
          × ((key, c ∷ cs) ∷ later ≡ lists)
    listed none made last = cc
    listed (some later) made last = (later, made, cc)

pub value_lists-SafeList :
    (id : String) (args : List (String × Zod)) (lists : List (String × List Choice))
    → value_lists id args ≡ ok (some lists)
    → All SafeList lists
unfolding value_lists
value_lists-SafeList id [] lists e = subst (All SafeList) {x = []} (cc (ok-injective e)) tt
value_lists-SafeList id ((key, schema) ∷ args) lists e =
    let (values, safe, (later, made, same)) =
      with_values-SafeList id key (extract_enum_values schema) (value_lists id args) lists e in
    subst (All SafeList) same (safe, value_lists-SafeList id args later made)
