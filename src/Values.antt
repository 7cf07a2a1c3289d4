-- ===== src/Values.antt =====
-- The JavaScript values that tool arguments and SDK inputs are made of. A number is the text that
-- `String` prints for it: the modelled code only passes numbers on and prints them.
use vigor3912s_mcp.Common.{
  String, Bool, true, false, List, [], ◌∷◌, ◌++◌, Text, lit, lookup, string_key, get_or,
}

mutual
  pub data Fields : Type 0 where
    end : Fields
    field : String → Value → Fields → Fields

  pub data Items : Type 0 where
    nil : Items
    cons : Value → Items → Items

  pub data Value : Type 0 where
    undefined null : Value
    num str : Text → Value
    bool : Bool → Value
    obj : Fields → Value
    arr : Items → Value

-- `Record<string, unknown>`: the arguments of a tool call.
abbrev pub Args : Type 0
Args = List (String × Value)

-- `args[key]`
abbrev pub arg : Args → String → Value
arg args key = get_or (lookup key args) undefined

unfoldable pub fields_of : Args → Fields
fields_of [] = end
fields_of ((k, v) ∷ args) = field k v (fields_of args)

-- `String(value)`; inside an array, `undefined` and `null` print as nothing.
unfoldable mutual
  pub to_string : Value → Text
  to_string undefined = lit "undefined"
  to_string null = lit "null"
  to_string (bool true) = lit "true"
  to_string (bool false) = lit "false"
  to_string (num n) = n
  to_string (str s) = s
  to_string (arr xs) = join_items xs
  to_string (obj fs) = lit "[object Object]"

  pub join_items : Items → Text
  join_items nil = []
  join_items (cons x xs) = item x ++ more_items xs

  pub more_items : Items → Text
  more_items nil = []
  more_items (cons x xs) = lit "," ++ item x ++ more_items xs

  pub item : Value → Text
  item undefined = []
  item null = []
  item (bool true) = lit "true"
  item (bool false) = lit "false"
  item (num n) = n
  item (str s) = s
  item (arr xs) = join_items xs
  item (obj fs) = lit "[object Object]"
