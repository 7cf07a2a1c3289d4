-- ===== src/Catalog/Inputs.antt =====
-- The functions `toInput` of the curated tools (src/commands/registry/families): each makes an object
-- whose fields come from the arguments, many of them after a switch on one argument. A table says
-- where the fields come from, and the functions here follow it.
use vigor3912s_mcp.Common.{
  String, Bool, true, false, Option, none, some, List, [], ◌∷◌, ◌++◌, Text, lit, if◌then◌else◌,
  lookup, string_key, text_key, text_eq, Result, ok, err, ◌>>=◌, plain_error,
}
use vigor3912s_mcp.Values.{
  Value, undefined, null, bool, num, str, obj, Fields, end, field, Args, arg,
}

-- Where a field comes from: `a.k`; `req(a.k, 'k')`, or the same test with a message of its own; a
-- constant; `a.k === v`; and the last two if `a.k != null`, else no field.
pub data Source : Type 0 where
  given needed : String → Source
  needed_or : String → String → Source
  fixed : Value → Source
  is_value : String → Value → Source
  kept : String → Source
  kept_is : String → Value → Source

-- `v == null`
abbrev pub is_missing : Value → Bool
is_missing undefined = true
is_missing null = true
is_missing _ = false

-- `===` on the constants that the tools compare with.
abbrev pub same_value : Value → Value → Bool
same_value (str s) (str t) = text_eq s t
same_value (num s) (num t) = text_eq s t
same_value _ _ = false

abbrev pub thrown : {A : Type 0} → Text → Result A
thrown message = err (plain_error none message)

-- `req`
unfoldable pub req : Value → String → Result Value
unfolding lit
req v name = if is_missing v then thrown (lit name ++ lit " is required") else ok v

unfoldable pub value_of : Source → Args → Result (Option Value)
unfolding lookup req text_eq lit
value_of (given k) args = ok (some (arg args k))
value_of (needed k) args = req (arg args k) k >>= λ v. ok (some v)
value_of (needed_or k message) args =
    if is_missing (arg args k) then thrown (lit message) else ok (some (arg args k))
value_of (fixed v) args = ok (some v)
value_of (is_value k v) args = ok (some (bool (same_value (arg args k) v)))
value_of (kept k) args = ok (if is_missing (arg args k) then none else some (arg args k))
value_of (kept_is k v) args =
    ok (if is_missing (arg args k) then none else some (bool (same_value (arg args k) v)))

abbrev pub put : String → Option Value → Fields → Fields
put name none fs = fs
put name (some v) fs = field name v fs

-- The fields of an object literal, from the left.
unfoldable pub build_fields : List (String × Source) → Args → Result Fields
unfolding value_of
build_fields [] args = ok end
build_fields ((name, source) ∷ sources) args =
    let rest = build_fields sources args in
    value_of source args >>= λ v. rest >>= λ fs. ok (put name v fs)

unfoldable pub make_input : List (String × Source) → Args → Result Value
unfolding build_fields
make_input sources args = build_fields sources args >>= λ fs. ok (obj fs)

-- A tool that switches on one argument: the argument; the arguments that are required before the
-- switch; the message of its default case; and the cases.
pub record Switch : Type 0 where
  pub on : String
  pub first : List String
  pub invalid : String
  pub cases : List (String × List (String × Source))

unfoldable pub require_all : List String → Args → Result (Unit {0})
unfolding req lookup
require_all [] args = ok tt
require_all (name ∷ names) args =
    let rest = require_all names args in req (arg args name) name >>= λ v. rest

unfoldable pub case_for :
    Value → List (String × List (String × Source)) → Option (List (String × Source))
unfolding text_eq lit
case_for v [] = none
case_for v ((name, sources) ∷ cases) =
    let rest = case_for v cases in if same_value v (str (lit name)) then some sources else rest

unfoldable pub in_case : String → Option (List (String × Source)) → Args → Result Value
unfolding make_input lit
in_case invalid none args = thrown (lit invalid)
in_case invalid (some sources) args = make_input sources args

unfoldable pub switch_input : Switch → Args → Result Value
unfolding require_all case_for in_case lookup
switch_input s args =
    require_all s.first args >>= λ _. in_case s.invalid (case_for (arg args s.on) s.cases) args
