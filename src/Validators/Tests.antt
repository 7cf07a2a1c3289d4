-- ===== src/Validators/Tests.antt =====
-- Runs of the argument schemas.
use vigor3912s_mcp.Common.{◌≡◌, refl, true, false, lit, Text}
use vigor3912s_mcp.Common.{◌↔◌, ℕ, ◌≤◌, ◌+◌, ◌^◌}
use vigor3912s_mcp.Validators.Netmask.{is_contiguous_iff}
use vigor3912s_mcp.Validators.{mask_of, bit_or, is_contiguous, is_mac, is_safe, no_metacharacter}

-- No octet here needs it.
abbrev no_number : Text → ℕ
no_number octet = 0

mask_tests :
    (mask_of no_number (lit "255.255.255.0") ≡ 0xFFFFFF00)
    × (is_contiguous (mask_of no_number (lit "255.255.255.0")) ≡ true)
    × (is_contiguous (mask_of no_number (lit "255.0.255.0")) ≡ false)
    × (is_contiguous (mask_of no_number (lit "0.0.0.0")) ≡ true)
unfolding mask_of is_contiguous bit_or lit
mask_tests = (refl, refl, refl, refl)

text_tests :
    (is_mac 58 5 (lit "00:1d:AA:00:00:01") ≡ true)
    × (is_mac 58 5 (lit "00:1d:AA:00:00:0g") ≡ false)
    × (is_safe (lit "two words") ≡ true)
    × (is_safe (lit "a$b") ≡ false)
    × (no_metacharacter (lit "a$b") ≡ true)
    × (no_metacharacter (lit "a$(b)") ≡ false)
unfolding is_mac is_safe no_metacharacter lit
text_tests = (refl, refl, refl, refl, refl, refl)

is_contiguous_iff_example :
    (is_contiguous (mask_of no_number (lit "255.255.252.0")) ≡ true)
    ↔ ((k : ℕ) × (k ≤ 32) × (mask_of no_number (lit "255.255.252.0") + 2 ^ k ≡ 2 ^ 32))
is_contiguous_iff_example = is_contiguous_iff no_number (lit "255.255.252.0")
