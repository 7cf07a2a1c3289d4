-- ===== src/Catalog/Schemas.antt =====
-- The patterns and refinements of single arguments (src/commands/registry/families).
use vigor3912s_mcp.Common.{
  ℕ, zero, suc, String, Bool, true, false, not, ◌&&◌, ◌||◌, List, [], ◌∷◌, Text, lit, eqb, leb, any,
  all, text_eq, starts_with, is_space,
}
use vigor3912s_mcp.Validators.{is_digit}

-- `!/\s/.test(v)`
unfoldable pub has_no_space : Text → Bool
unfolding is_space
has_no_space v = not (any is_space v)

-- `!/"/.test(v)`
unfoldable pub has_no_quote : Text → Bool
has_no_quote v = not (any (λ c. eqb c 34) v)

-- `^wan([1-9]|1[0-2])$`
wan_number : Text → Bool
wan_number (c ∷ []) = leb 49 c && leb c 57
wan_number (c ∷ d ∷ []) = eqb c 49 && leb 48 d && leb d 50
wan_number _ = false

unfoldable pub is_wan_name : Text → Bool
unfolding wan_number
is_wan_name (w ∷ a ∷ n ∷ s) = eqb w 119 && eqb a 97 && eqb n 110 && wan_number s
is_wan_name _ = false

-- `\d{1,5}$`, and `^\d{1,5}:\d{1,5}$`: the number counts the digits that may follow.
up_to_digits : ℕ → Text → Bool
unfolding is_digit
up_to_digits n [] = true
up_to_digits (suc n) (c ∷ s) = is_digit c && up_to_digits n s
up_to_digits _ _ = false

digits : Text → Bool
unfolding is_digit up_to_digits
digits [] = false
digits (c ∷ s) = is_digit c && up_to_digits 4 s

range_from : ℕ → Text → Bool
unfolding is_digit digits
range_from n [] = false
range_from zero (c ∷ s) = eqb c 58 && digits s
range_from (suc n) (c ∷ s) = (eqb c 58 && digits s) || (is_digit c && range_from n s)

unfoldable pub is_port_range : Text → Bool
unfolding is_digit range_from
is_port_range [] = false
is_port_range (c ∷ s) = is_digit c && range_from 4 s

-- `tokens[0] === '-a' && (tokens[1] === '0' || tokens[1] === '1')`
unfoldable pub is_syslog : List Text → Bool
unfolding text_eq lit
is_syslog (flag ∷ value ∷ tokens) =
    text_eq flag (lit "-a") && (text_eq value (lit "0") || text_eq value (lit "1"))
is_syslog _ = false

-- `names.includes(t)`
includes_text : List String → Text → Bool
unfolding text_eq lit
includes_text names t = any (λ (name : String). text_eq (lit name) t) names

-- `names.includes(tokens[0] ?? '')`
unfoldable pub starts_with_one_of : List String → List Text → Bool
unfolding includes_text
starts_with_one_of names [] = includes_text names []
starts_with_one_of names (t ∷ tokens) = includes_text names t

-- `tokens.every((t) => !t.startsWith('-') || flags.includes(t))`
unfoldable pub flags_among : List String → List Text → Bool
unfolding includes_text starts_with
flags_among flags tokens =
    all (λ (t : Text). not (starts_with t (45 ∷ [])) || includes_text flags t) tokens
