-- ===== src/Validators.antt =====
-- src/commands/validators.ts: the schemas of single arguments.
pub mod Netmask
pub mod Tests
use vigor3912s_mcp.Common.{
  ℕ, zero, suc, ◌+◌, ◌-◌, ◌*◌, ◌/◌, ◌%◌, ◌^◌, Bool, true, false, ◌&&◌, ◌||◌, not, List, [], ◌∷◌,
  Text, lit, eqb, leb, if◌then◌else◌, any, all, starts_with, length,
}
use vigor3912s_mcp.Zod.{
  Zod, string, refine, refine_with_number, ip, at_least, at_most, regex, of_text, int_between,
  one_of, one_of_numbers,
}

abbrev pub ipv4 : Zod
ipv4 = string (ip 4 ∷ [])

abbrev pub ipv6 : Zod
ipv6 = string (ip 6 ∷ [])

unfoldable pub is_digit : ℕ → Bool
is_digit c = leb 48 c && leb c 57

-- `Number(octet)`, of which `|` reads the last 32 bits. On up to 15 decimal digits it is the number
-- that they write; what it makes of any other text (`0x10`, `1e1`) is the parameter `number`.
number_of_digits : ℕ → Text → ℕ
number_of_digits n [] = n
number_of_digits n (c ∷ s) = number_of_digits (10 * n + (c - 48)) s

unfoldable pub octet_value : (Text → ℕ) → Text → ℕ
unfolding number_of_digits is_digit
octet_value number octet =
    if all is_digit octet && leb (length octet) 15 then number_of_digits 0 octet else number octet

-- `|` on the last w bits.
unfoldable pub bit_or : ℕ → ℕ → ℕ → ℕ
bit_or zero a b = 0
bit_or (suc w) a b =
    let rest = bit_or w (a / 2) (b / 2) in
    (if eqb (a % 2) 1 || eqb (b % 2) 1 then 1 else 0) + 2 * rest

-- `value.split('.').reduce((result, octet) => ((result << 8) | Number(octet)) >>> 0, 0)`
unfoldable pub split_dots : Text → List Text
split_dots [] = [] ∷ []
split_dots (c ∷ s) =
    let rest = split_dots s in
    if eqb c 46
    then [] ∷ rest
    else elim rest [ [] ↦ (c ∷ []) ∷ [] | part ∷ parts ↦ (c ∷ part) ∷ parts ]

unfoldable pub reduce_octets : (Text → ℕ) → ℕ → List Text → ℕ
unfolding bit_or octet_value
reduce_octets number result [] = result
reduce_octets number result (octet ∷ octets) =
    reduce_octets number (bit_or 32 ((result * 256) % 2 ^ 32) (octet_value number octet)) octets

unfoldable pub mask_of : (Text → ℕ) → Text → ℕ
unfolding reduce_octets split_dots
mask_of number value = reduce_octets number 0 (split_dots value)

-- `mask === 0 || ((mask | (mask - 1)) >>> 0) === 0xffffffff`
unfoldable pub is_contiguous : ℕ → Bool
is_contiguous mask = eqb mask 0 || eqb (bit_or 32 mask (mask - 1)) 0xFFFFFFFF

abbrev pub ipv4_mask : Zod
unfolding mask_of is_contiguous
ipv4_mask =
    refine_with_number ipv4 (λ number. of_text (λ value. is_contiguous (mask_of number value)))

abbrev pub wan_idx : Zod
wan_idx = int_between 1 12

abbrev pub on_off : Zod
on_off = one_of ("on" ∷ "off" ∷ [])

abbrev pub one_zero : Zod
one_zero = one_of_numbers ("0" ∷ "1" ∷ [])

is_hex_digit : ℕ → Bool
unfolding is_digit
is_hex_digit c = is_digit c || (leb 65 c && leb c 70) || (leb 97 c && leb c 102)

-- `[0-9A-Fa-f]{n}` with nothing behind it.
unfoldable pub hex_digits : ℕ → Text → Bool
unfolding is_hex_digit
hex_digits zero [] = true
hex_digits (suc n) (c ∷ s) = is_hex_digit c && hex_digits n s
hex_digits _ _ = false

-- `([0-9A-Fa-f]{2}<separator>){n}[0-9A-Fa-f]{2}`, all of the text.
unfoldable pub is_mac : ℕ → ℕ → Text → Bool
unfolding is_hex_digit hex_digits
is_mac separator zero s = hex_digits 2 s
is_mac separator (suc n) (a ∷ b ∷ c ∷ s) =
    is_hex_digit a && is_hex_digit b && eqb c separator && is_mac separator n s
is_mac _ _ _ = false

abbrev pub mac_dash : Zod
mac_dash = string (regex (is_mac 45 5) ∷ [])

abbrev pub mac_colon : Zod
mac_colon = string (regex (is_mac 58 5) ∷ [])

-- `[\x00-\x1f]`, and `;`, `&`, `|` and the backtick.
unfoldable pub is_control : ℕ → Bool
is_control c = leb c 31

unfoldable pub is_meta : ℕ → Bool
is_meta c = eqb c 59 || eqb c 38 || eqb c 124 || eqb c 96

-- `v.includes('$(')`
unfoldable pub opens_shell : Text → Bool
unfolding starts_with
opens_shell [] = false
opens_shell (c ∷ s) = (eqb c 36 && starts_with s (40 ∷ [])) || opens_shell s

unfoldable pub no_metacharacter : Text → Bool
unfolding is_meta opens_shell
no_metacharacter v = not (any is_meta v) && not (opens_shell v)

abbrev pub no_control : ℕ → Zod
unfolding is_control no_metacharacter
no_control max =
    refine (refine (string (at_least 1 ∷ at_most max ∷ [])) (of_text (λ v. not (any is_control v))))
      (of_text no_metacharacter)

unfoldable pub is_safe : Text → Bool
unfolding is_control is_meta
is_safe v = not (any (λ c. is_control c || is_meta c || eqb c 36) v)

abbrev pub safe_text : ℕ → Zod
safe_text max = refine (string (at_least 1 ∷ at_most max ∷ [])) (of_text is_safe)
