-- ===== src/Forbidden/Lines.antt =====
-- Commands of several lines (src/commands/forbidden.ts).
use vigor3912s_mcp.Common.{
  append_assoc, Bool, true, false, ◌||◌, ◌&&◌, ◌≡◌, refl, ◌∙◌, ap, List, [], ◌∷◌, ◌++◌, Text, arith,
  eqb, starts_with, any, any-append, all, Bool-cases, inl, inr, not, join, lit,
}
use vigor3912s_mcp.Forbidden.{split_lines, is_forbidden_line, is_forbidden}

-- No carriage return is in the text.
abbrev pub no_return : Text → Bool
no_return s = all (λ c. not (eqb c 13)) s

-- The first line and the others.
split_lines_cons : (s : Text) → (line : Text) × (lines : List Text) × (split_lines s ≡ line ∷ lines)
unfolding split_lines
split_lines_cons [] = ([], [], refl)
split_lines_cons (c ∷ s) =
    let (line, lines, e) = split_lines_cons s in
    elim (Bool-cases (eqb c 13 && starts_with s (10 ∷ []))) [
      | inl ends ↦ (line, lines, rw ends e)
      | inr goes ↦ elim (Bool-cases (eqb c 10)) [
        | inl new ↦ ([], split_lines s, simp (goes, new) refl)
        | inr in_line ↦ (c ∷ line, lines, simp (goes, in_line, e) refl)
      ]
    ]

split_lines-append :
    (s t : Text) → no_return s ≡ true → split_lines (s ++ 10 ∷ t) ≡ split_lines s ++ split_lines t
unfolding split_lines
split_lines-append [] t h = refl
split_lines-append (c ∷ s) t h =
    let ih = split_lines-append s t (ground arith) in
    let (line, lines, e) = split_lines_cons s in
    let plain : eqb c 13 ≡ false = ground arith in
    elim (Bool-cases (eqb c 10)) [
      | inl new ↦ simp (plain, new, ih) refl
      | inr in_line ↦ simp (plain, in_line, ih, e) refl
    ]

is_forbidden-append :
    (s t : Text)
    → no_return s ≡ true
    → is_forbidden (s ++ 10 ∷ t) ≡ is_forbidden s || is_forbidden t
unfolding is_forbidden
is_forbidden-append s t h =
    rw (split_lines-append s t h) (any-append is_forbidden_line (split_lines s) (split_lines t))

empty_allowed : is_forbidden [] ≡ false
unfolding is_forbidden
empty_allowed = refl

-- If no frame holds a carriage return, the text that joins the frames by newlines is forbidden
-- exactly if one of the frames is.
pub is_forbidden-join :
    (frames : List Text)
    → all no_return frames ≡ true
    → is_forbidden (join (lit "\n") frames) ≡ any is_forbidden frames
unfolding join lit
is_forbidden-join [] h = empty_allowed
is_forbidden-join (s ∷ []) h = ground arith
is_forbidden-join (s ∷ t ∷ rest) h =
    ap is_forbidden (append_assoc s (lit "\n") (join (lit "\n") (t ∷ rest)))
    ∙ is_forbidden-append s (join (lit "\n") (t ∷ rest)) (ground arith)
    ∙ ap (λ b. is_forbidden s || b) (is_forbidden-join (t ∷ rest) (ground arith))
