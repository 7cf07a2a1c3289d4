-- ===== src/Gate/Drawing.antt =====
-- The loop of `create` (src/tools/confirm-gate.ts) that draws an id ends: among enough different draws
-- there is one that is in neither map.
use vigor3912s_mcp.Common.{
  ◌+◌, ◌≤◌, ◌<◌, ◌≡◌, refl, arith, inl, inr, Bool, true, false, ◌||◌, none, some, List, [], ◌∷◌,
  String, Text, text_key, all, contains, are_distinct, has, delete, lookup-delete, length,
  length-delete-le, length-delete-lt, ◌==◌, Bool-cases, Option-cases, leb, ok, text_eq_iff,
}
use vigor3912s_mcp.Crypto.{Crypto}
use vigor3912s_mcp.Gate.{ConfirmGate, Call, CreateIntentResult, create, add_drawn, draw_id, prune}

-- An id is in one of two maps.
abbrev taken : {V W : Type 0} → List (Text × V) → List (Text × W) → Text → Bool
taken m n id = has id m || has id n

module _ {V W : Type 0} where
  taken-delete :
      (d : Text) (m : List (Text × V)) (n : List (Text × W)) (x : Text)
      → (x == d) ≡ false
      → taken m n x ≡ true
      → taken (delete d m) (delete d n) x ≡ true
  taken-delete d m n x other h =
      ground (arith, lookup-delete d x m, lookup-delete d x n, text_eq_iff x d, text_eq_iff d x)

  all-delete :
      (d : Text) (m : List (Text × V)) (n : List (Text × W)) (ds : List Text)
      → contains ds d ≡ false
      → all (taken m n) ds ≡ true
      → all (taken (delete d m) (delete d n)) ds ≡ true
  unfolding contains
  all-delete d m n [] h k = refl
  all-delete d m n (x ∷ ds) h k = ground (arith, taken-delete d m n x, all-delete d m n ds)

  -- Different ids that are all taken are no more than the entries of the two maps.
  length-taken-le :
      (ds : List Text) (m : List (Text × V)) (n : List (Text × W))
      → are_distinct ds ≡ true
      → all (taken m n) ds ≡ true
      → length ds ≤ length m + length n
  unfolding are_distinct
  length-taken-le [] m n h k = omega arith
  length-taken-le (d ∷ ds) m n h k =
      let rest =
        length-taken-le ds (delete d m) (delete d n) (ground arith)
          (all-delete d m n ds (ground arith) (ground arith)) in
      elim (Bool-cases (has d m)) [
        | inl here ↦ omega (arith, rest, length-delete-lt d m here, length-delete-le d n)
        | inr away ↦ omega (arith, rest, length-delete-le d m, length-delete-lt d n (ground arith))
      ]

module _ {PublicKey : Type 0} where
  draw_id-none :
      (g : ConfirmGate PublicKey) (draws : List Text)
      → draw_id g draws ≡ none
      → all (taken g.intents g.used) draws ≡ true
  unfolding draw_id
  draw_id-none g [] h = refl
  draw_id-none g (d ∷ draws) h = ground (arith, draw_id-none g draws)

  draw_id-some :
      (g : ConfirmGate PublicKey) (draws : List Text)
      → are_distinct draws ≡ true
      → length g.intents + length g.used < length draws
      → (id : Text) × (draw_id g draws ≡ some id)
  draw_id-some g draws distinct enough = elim (Option-cases (draw_id g draws)) [
    | inr found ↦ found
    | inl ended ↦
        let few = length-taken-le draws g.intents g.used distinct (draw_id-none g draws ended) in
        absurd (omega (arith, few))
  ]

module _ {PublicKey : Type 0} (crypto : Crypto PublicKey) (c : Call) (g : ConfirmGate PublicKey)
    (tool_id : String) (command command_preview : Text) (redacted_fields : List String) where
  add_drawn-some :
      (g' : ConfirmGate PublicKey) (id : Text)
      → (r : CreateIntentResult) × ((add_drawn crypto c g' tool_id command command_preview
            redacted_fields
            (some id)).0
          ≡ ok r)
  unfolding add_drawn
  add_drawn-some g' id = (_, refl)

  -- With room for one more, `create` gives a receipt if it may draw more different ids than the two
  -- maps have entries after pruning.
  pub create-Drawn :
      are_distinct c.draws ≡ true
      → length (prune c g).intents + length (prune c g).used < length c.draws
      → length (prune c g).intents < (prune c g).max_pending
      → (r : CreateIntentResult) × ((create crypto c g tool_id command command_preview
            redacted_fields).0
          ≡ ok r)
  unfolding create
  create-Drawn distinct enough room =
      let (id, drawn) = draw_id-some (prune c g) c.draws distinct enough in
      let (r, made) = add_drawn-some (prune c g) id in
      elim (Bool-cases (leb (prune c g).max_pending (length (prune c g).intents))) [
        | inl full ↦ absurd (ground (arith, full, room))
        | inr free ↦ rw free (r, rw drawn made)
      ]
