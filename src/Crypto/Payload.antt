-- ===== src/Crypto/Payload.antt =====
-- The values that a signature is over (src/tools/approve-crypto.ts).
use vigor3912s_mcp.Common.{
  ℕ, All, ◌<◌, Bool, true, false, not, ◌&&◌, leb, ◌≡◌, ◌≢◌, refl, [], ◌∷◌, ◌++◌, arith, Text,
}
use vigor3912s_mcp.Crypto.{Crypto, sign_text, build_sign_payload}
use vigor3912s_mcp.Crypto.Digits.{decimal, decimal-below, decimal-injective}

-- A text on one line.
abbrev pub OneLine : Text → Type 0
OneLine [] = Unit
OneLine (c ∷ s) = (c ≢ 10) × OneLine s

-- A first line ends where the first newline stands.
line_unique :
    (s s' : Text) {t t' : Text}
    → OneLine s
    → OneLine s'
    → s ++ 10 ∷ t ≡ s' ++ 10 ∷ t'
    → (s ≡ s') × (t ≡ t')
line_unique [] [] o o' e = ground arith
line_unique [] (c ∷ s') o o' e = ground arith
line_unique (c ∷ s) [] o o' e = ground arith
line_unique (c ∷ s) (c' ∷ s') {t} {t'} o o' e = ground (arith, line_unique s s' {t = t} {t' = t'})

abbrev is_high : ℕ → Bool
is_high c = leb 0xD800 c && leb c 0xDBFF

abbrev is_low : ℕ → Bool
is_low c = leb 0xDC00 c && leb c 0xDFFF

-- No surrogate stands alone; the flag says that a high one stands before.
well_formed_from : Bool → Text → Bool
well_formed_from high [] = not high
well_formed_from true (c ∷ s) = is_low c && well_formed_from false s
well_formed_from false (c ∷ s) = not (is_low c) && well_formed_from (is_high c) s

unfoldable pub is_well_formed : Text → Bool
unfolding well_formed_from
is_well_formed s = well_formed_from false s

abbrev pub Plain : Text → Type 0
Plain s = OneLine s × (is_well_formed s ≡ true)

well_formed_from-line :
    (high : Bool) (s t : Text)
    → well_formed_from high (s ++ 10 ∷ t) ≡ (well_formed_from high s && well_formed_from false t)
unfolding well_formed_from
well_formed_from-line true [] t = refl
well_formed_from-line false [] t = refl
well_formed_from-line true (c ∷ s) t = ground (arith, well_formed_from-line false s t)
well_formed_from-line false (c ∷ s) t = ground (arith, well_formed_from-line (is_high c) s t)

below-well_formed : (s : Text) → All (λ c. c < 58) s → well_formed_from false s ≡ true
unfolding well_formed_from
below-well_formed [] h = refl
below-well_formed (c ∷ s) (small, rest) = ground (arith, small, below-well_formed s rest)

decimal-is_well_formed : (n : ℕ) → is_well_formed (decimal n) ≡ true
unfolding is_well_formed
decimal-is_well_formed n = below-well_formed (decimal n) (decimal-below n)

sign_text-is_well_formed :
    (id nonce digest : Text) (expires_at : ℕ)
    → is_well_formed id ≡ true
    → is_well_formed nonce ≡ true
    → is_well_formed digest ≡ true
    → is_well_formed (sign_text id nonce digest expires_at) ≡ true
unfolding sign_text is_well_formed
sign_text-is_well_formed id nonce digest expires_at i n d = ground (
  arith,
  well_formed_from-line false id (nonce ++ 10 ∷ (digest ++ 10 ∷ decimal expires_at)),
  well_formed_from-line false nonce (digest ++ 10 ∷ decimal expires_at),
  well_formed_from-line false digest (decimal expires_at),
  decimal-is_well_formed expires_at,
)

-- If the id, the nonce and the digest of both texts are on one line, the text of a payload determines
-- the four values.
sign_text-injective :
    (id nonce digest : Text) (expires_at : ℕ) (id' nonce' digest' : Text) (expires_at' : ℕ)
    → OneLine id × OneLine nonce × OneLine digest
    → OneLine id' × OneLine nonce' × OneLine digest'
    → sign_text id nonce digest expires_at ≡ sign_text id' nonce' digest' expires_at'
    → (id ≡ id') × (nonce ≡ nonce') × (digest ≡ digest') × (expires_at ≡ expires_at')
unfolding sign_text
sign_text-injective id nonce digest expires_at id' nonce' digest' expires_at' (i, n, d) (i', n', d')
      e =
    let (same_id, rest) = line_unique id id' i i' e in
    let (same_nonce, rest') = line_unique nonce nonce' n n' rest in
    let (same_digest, last) = line_unique digest digest' d d' rest' in
    (same_id, same_nonce, same_digest, decimal-injective expires_at expires_at' last)

module _ {PublicKey : Type 0} (crypto : Crypto PublicKey) where
  -- UTF-8 has different bytes for different texts, if no surrogate stands alone in them.
  abbrev pub IsFaithful : Type 0
  IsFaithful =
      (s t : Text)
      → is_well_formed s ≡ true
      → is_well_formed t ≡ true
      → crypto.utf8_bytes s ≡ crypto.utf8_bytes t
      → s ≡ t

  -- If the id, the nonce and the digest of both are on one line and without a surrogate that stands
  -- alone, and UTF-8 tells such texts apart, then two equal payloads were built from the same id,
  -- nonce, digest and expiry.
  pub build_sign_payload-injective :
      IsFaithful
      → (id nonce digest : Text) (expires_at : ℕ) (id' nonce' digest' : Text) (expires_at' : ℕ)
      → Plain id × Plain nonce × Plain digest
      → Plain id' × Plain nonce' × Plain digest'
      → build_sign_payload crypto id nonce digest expires_at
        ≡ build_sign_payload crypto id' nonce' digest' expires_at'
      → (id ≡ id') × (nonce ≡ nonce') × (digest ≡ digest') × (expires_at ≡ expires_at')
  unfolding build_sign_payload
  build_sign_payload-injective faithful id nonce digest expires_at id' nonce' digest' expires_at'
        (i, n, d) (i', n', d') e =
      sign_text-injective id nonce digest expires_at id' nonce' digest' expires_at' (i.0, n.0, d.0)
        (i'.0, n'.0, d'.0)
        (faithful (sign_text id nonce digest expires_at) (sign_text id' nonce' digest' expires_at')
          (sign_text-is_well_formed id nonce digest expires_at i.1 n.1 d.1)
          (sign_text-is_well_formed id' nonce' digest' expires_at' i'.1 n'.1 d'.1) e)
