-- ===== src/Gate/Effects.antt =====
-- What each method of the gate (src/tools/confirm-gate.ts) does to the pending intents.
use vigor3912s_mcp.Common.{
  ℕ, ◌+◌, ◌≤◌, false, ◌≡◌, ◌≢◌, refl, ◌∙◌, ◌⊎◌, inl, inr, Option, none, some, List, arith, Text,
  text_key, String, ltb, leb, lookup, insert, delete, Result, ok, err, text_eq_iff, Bool-cases,
  lookup-insert, lookup-delete, length, length-insert-le, length-delete-le, length-keep-le,
  lookup-keep-none,
}
use vigor3912s_mcp.Crypto.{Crypto}
use vigor3912s_mcp.Gate.{
  ConfirmGate, WriteIntent, CreateIntentResult, Call, create, created, add_drawn, persist, prune,
  draw_id, consume_signed, consume_with_key, consume_unless_used, consume_intent, spend,
}
use vigor3912s_mcp.Gate.Prune.{
  persist-Settles, persist-intents_none, length-persist-intents, prune-intents, prune-settings,
}
use vigor3912s_mcp.Gate.Approval.{forgetting}

module _ {PublicKey : Type 0} where
  -- `h` has no pending intent that `g` lacks.
  pub record Shrinks (g h : ConfirmGate PublicKey) : Type 0 where
    pub absent : (j : Text) → lookup j g.intents ≡ none → lookup j h.intents ≡ none
    pub size : length h.intents ≤ length g.intents
    pub max_pending : h.max_pending ≡ g.max_pending

  -- What `create` did to the pending intents, by its result.
  abbrev pub CreateEffect :
      ConfirmGate PublicKey → Result CreateIntentResult × ConfirmGate PublicKey → Type 0
  CreateEffect g (err e, h) = Shrinks g h
  CreateEffect g (ok r, h) =
      ((j : Text) → r.confirmation_id ≢ j → lookup j g.intents ≡ none → lookup j h.intents ≡ none)
      × (length h.intents ≤ g.max_pending)
      × (h.max_pending ≡ g.max_pending)

  pub Shrinks-refl : (g : ConfirmGate PublicKey) → Shrinks g g
  Shrinks-refl g = record { absent = λ j h. h; size = omega arith; max_pending = refl }

  pub Shrinks-trans : {g h k : ConfirmGate PublicKey} → Shrinks g h → Shrinks h k → Shrinks g k
  Shrinks-trans s t = record {
    absent = λ j e. t.absent j (s.absent j e);
    size = omega arith;
    max_pending = t.max_pending ∙ s.max_pending;
  }

  persist-Shrinks : (c : Call) (g : ConfirmGate PublicKey) → Shrinks g (persist c g)
  persist-Shrinks c g = record {
    absent = persist-intents_none c g;
    size = length-persist-intents c g;
    max_pending = (persist-Settles c g).max_pending;
  }

  pub prune-Shrinks : (c : Call) (g : ConfirmGate PublicKey) → Shrinks g (prune c g)
  prune-Shrinks c g = record {
    absent = λ j e. rw prune-intents (lookup-keep-none _ j g.intents e);
    size = rw prune-intents (length-keep-le _ g.intents);
    max_pending = (prune-settings c g).1;
  }

  delete-Shrinks :
      (g : ConfirmGate PublicKey) (id : Text) (used : List (Text × ℕ))
      → Shrinks g (record g { intents = delete id g.intents; used = used })
  delete-Shrinks g id used = record {
    absent = λ j e. ground (arith, lookup-delete id j g.intents);
    size = length-delete-le id g.intents;
    max_pending = refl;
  }

  pub spend-Shrinks : (c : Call) (g : ConfirmGate PublicKey) (id : Text) → Shrinks g (spend c g id)
  unfolding spend
  spend-Shrinks c g id =
      Shrinks-trans (delete-Shrinks g id (insert id (c.now + g.ttl_ms) g.used))
        (persist-Shrinks c _)

  pub forgetting-Shrinks :
      (id : Text) (g : ConfirmGate PublicKey) (u : Option ℕ) → Shrinks g (forgetting id g u)
  forgetting-Shrinks id g none = Shrinks-refl g
  forgetting-Shrinks id g (some e) = record {
    absent = λ j h. h;
    size = omega arith;
    max_pending = refl;
  }

module _ {PublicKey : Type 0} (crypto : Crypto PublicKey) (c : Call)
    (id command signature : Text) where
  -- The three gates that the end of `consumeSigned` can leave.
  consume_intent_gates :
      (g : ConfirmGate PublicKey) (key : PublicKey) (o : Option WriteIntent)
      → ((consume_intent crypto c g key id command signature o).1 ≡ g)
        ⊎ ((consume_intent crypto c g key id command signature o).1
            ≡ persist c (record g { intents = delete id g.intents }))
        ⊎ ((consume_intent crypto c g key id command signature o).1 ≡ spend c g id)
  unfolding consume_intent
  consume_intent_gates g key none = inl refl
  consume_intent_gates g key (some i) = ground arith

  consume_intent-Shrinks :
      (g : ConfirmGate PublicKey) (key : PublicKey) (o : Option WriteIntent)
      → Shrinks g (consume_intent crypto c g key id command signature o).1
  consume_intent-Shrinks g key o = elim (consume_intent_gates g key o) [
    | inl same ↦ rw same (Shrinks-refl g)
    | inr (inl dropped) ↦
        rw dropped (Shrinks-trans (delete-Shrinks g id g.used) (persist-Shrinks c _))
    | inr (inr spent) ↦ rw spent (spend-Shrinks c g id)
  ]

  consume_unless_used-Shrinks :
      (g : ConfirmGate PublicKey) (key : PublicKey) (u : Option ℕ)
      → Shrinks g (consume_unless_used crypto c g key id command signature u).1
  unfolding consume_unless_used
  consume_unless_used-Shrinks g key none = consume_intent-Shrinks g key (lookup id g.intents)
  consume_unless_used-Shrinks g key (some e) = elim (Bool-cases (ltb e c.now)) [
    | inl stale ↦ rw stale (
        Shrinks-trans (forgetting-Shrinks id g (some e))
          (consume_intent-Shrinks (record g { used = delete id g.used }) key (lookup id g.intents)))
    | inr replay ↦ rw replay (Shrinks-refl g)
  ]

  consume_with_key-Shrinks :
      (g : ConfirmGate PublicKey) (k : Option PublicKey)
      → Shrinks g (consume_with_key crypto c g k id command signature).1
  unfolding consume_with_key
  consume_with_key-Shrinks g none = Shrinks-refl g
  consume_with_key-Shrinks g (some key) = consume_unless_used-Shrinks g key (lookup id g.used)

  pub consume_signed-Shrinks :
      (g : ConfirmGate PublicKey) → Shrinks g (consume_signed crypto c g id command signature).1
  unfolding consume_signed
  consume_signed-Shrinks g = consume_with_key-Shrinks g g.approve_public_key

module _ {PublicKey : Type 0} (crypto : Crypto PublicKey) (c : Call) (g : ConfirmGate PublicKey)
    (tool_id : String) (command command_preview : Text) (redacted_fields : List String) where
  add_drawn_effect :
      (o : Option Text)
      → leb (prune c g).max_pending (length (prune c g).intents) ≡ false
      → CreateEffect g
          (add_drawn crypto c (prune c g) tool_id command command_preview redacted_fields o)
  unfolding add_drawn
  add_drawn_effect none room = prune-Shrinks c g
  add_drawn_effect (some id) room =
      let i =
        created crypto c id tool_id command command_preview redacted_fields (prune c g).ttl_ms in
      let added = record (prune c g) { intents = insert id i (prune c g).intents } in
      let kept = persist-Shrinks c added in
      let pruned = prune-Shrinks c g in
      (
        λ j other e. kept.absent j (
            ground (
              arith,
              lookup-insert id j i (prune c g).intents,
              text_eq_iff id j,
              pruned.absent j e,
            )),
        ground (arith, kept, pruned, length-insert-le id i (prune c g).intents),
        ground (arith, kept, pruned),
      )

  pub create_effect :
      CreateEffect g (create crypto c g tool_id command command_preview redacted_fields)
  unfolding create
  create_effect = elim (Bool-cases (leb (prune c g).max_pending (length (prune c g).intents))) [
    | inl full ↦ rw full (prune-Shrinks c g)
    | inr room ↦ rw room (add_drawn_effect (draw_id (prune c g) c.draws) room)
  ]
