-- ===== src/Gate/History.antt =====
-- Histories of calls on one gate (src/tools/confirm-gate.ts): how often a confirmation is consumed,
-- and how many intents are pending.
use vigor3912s_mcp.Common.{
  ℕ, ◌+◌, ◌≤◌, Bool, ◌≡◌, refl, Option, List, [], ◌∷◌, arith, Text, text_key, String, lookup, has,
  Result, ok, err, text_eq_iff, text_eq, length, if◌then◌else◌,
}
use vigor3912s_mcp.Crypto.{Crypto}
use vigor3912s_mcp.Gate.{
  ConfirmGate, CreateIntentResult, Call, create, prune, consume_signed, get_by_confirmation_id,
  pending_views, new_gate,
}
use vigor3912s_mcp.Gate.Approval.{
  consume_signed_iff, consume_signed-eq-spend, spend-intents, forgetting,
}
use vigor3912s_mcp.Gate.Effects.{
  Shrinks, prune-Shrinks, consume_signed-Shrinks, CreateEffect, create_effect,
}

-- The public methods of the gate, with their arguments.
pub data Method : Type 0 where
  creates : String → Text → Text → List String → Method
  consumes : Text → Text → Text → Method
  gets : Text → Method
  lists prunes : Method

-- What a caller sees of a method's result.
pub data Event : Type 0 where
  issued consumed : Text → Event
  quiet : Event

abbrev of_create : Result CreateIntentResult → Event
of_create (ok r) = issued r.confirmation_id
of_create (err e) = quiet

abbrev of_consume : Text → Result (Unit {0}) → Event
of_consume id (ok _) = consumed id
of_consume id (err e) = quiet

abbrev pub one : Bool → ℕ
one b = if b then 1 else 0

abbrev pub issues : Text → Event → ℕ
issues id (issued j) = one (text_eq j id)
issues id _ = 0

abbrev pub consumptions : Text → Event → ℕ
consumptions id (consumed j) = one (text_eq j id)
consumptions id _ = 0

abbrev pub total : (Event → ℕ) → List Event → ℕ
total f [] = 0
total f (e ∷ es) = f e + total f es

module _ {PublicKey : Type 0} (crypto : Crypto PublicKey) where
  pub step : Call × Method → ConfirmGate PublicKey → Event × ConfirmGate PublicKey
  step (c, creates tool_id command command_preview redacted_fields) g =
      let (r, h) = create crypto c g tool_id command command_preview redacted_fields in
      (of_create r, h)
  step (c, consumes id command signature) g =
      let (r, h) = consume_signed crypto c g id command signature in (of_consume id r, h)
  step (c, gets id) g = (quiet, (get_by_confirmation_id c g id).1)
  step (c, lists) g = (quiet, (pending_views c g).1)
  step (c, prunes) g = (quiet, prune c g)

  pub run : List (Call × Method) → ConfirmGate PublicKey → List Event × ConfirmGate PublicKey
  run [] g = ([], g)
  run (m ∷ ms) g = let (e, h) = step m g in let (es, k) = run ms h in (e ∷ es, k)

  abbrev pending : Text → ConfirmGate PublicKey → ℕ
  pending id g = one (has id g.intents)

  -- One call: a consumed confirmation was pending and is so no more, and only `create` adds one.
  abbrev Accounted : Text → ConfirmGate PublicKey → Event × ConfirmGate PublicKey → Type 0
  Accounted id g (e, h) = consumptions id e + pending id h ≤ issues id e + pending id g

  Shrinks-Accounted :
      (id : Text) (g h : ConfirmGate PublicKey) → Shrinks g h → Accounted id g (quiet, h)
  Shrinks-Accounted id g h s = ground (arith, s.absent id)

  create-Accounted :
      (id : Text) (g : ConfirmGate PublicKey)
      (r : Result CreateIntentResult × ConfirmGate PublicKey)
      → CreateEffect g r
      → Accounted id g (of_create r.0, r.1)
  create-Accounted id g (err e, h) s = Shrinks-Accounted id g h s
  create-Accounted id g (ok r, h) effect =
      ground (arith, effect.0 id, text_eq_iff r.confirmation_id id)

  consume-Accounted :
      (id : Text) (c : Call) (g : ConfirmGate PublicKey) (j command signature : Text)
      (r : Result (Unit {0}))
      → (consume_signed crypto c g j command signature).0 ≡ r
      → Accounted id g (of_consume j r, (consume_signed crypto c g j command signature).1)
  consume-Accounted id c g j command signature (err e) h =
      Shrinks-Accounted id g (consume_signed crypto c g j command signature).1
        (consume_signed-Shrinks crypto c j command signature g)
  consume-Accounted id c g j command signature (ok _) h =
      let approved = (consume_signed_iff crypto c j command signature g).0 h in
      let spent = consume_signed-eq-spend crypto c j command signature g approved in
      let shrinks = consume_signed-Shrinks crypto c j command signature g in
      ground (
        arith,
        approved.pending,
        spent,
        spend-intents c (forgetting j g (lookup j g.used)) j,
        shrinks.absent id,
        text_eq_iff j id,
      )

  step-Accounted :
      (id : Text) (m : Call × Method) (g : ConfirmGate PublicKey) → Accounted id g (step m g)
  unfolding step get_by_confirmation_id pending_views
  step-Accounted id (c, creates tool_id command command_preview redacted_fields) g =
      create-Accounted id g _
        (create_effect crypto c g tool_id command command_preview redacted_fields)
  step-Accounted id (c, consumes j command signature) g =
      consume-Accounted id c g j command signature _ refl
  step-Accounted id (c, gets j) g = Shrinks-Accounted id g (prune c g) (prune-Shrinks c g)
  step-Accounted id (c, lists) g = Shrinks-Accounted id g (prune c g) (prune-Shrinks c g)
  step-Accounted id (c, prunes) g = Shrinks-Accounted id g (prune c g) (prune-Shrinks c g)

  run-Accounted :
      (id : Text) (ms : List (Call × Method)) (g : ConfirmGate PublicKey)
      → total (consumptions id) (run ms g).0 + pending id (run ms g).1
        ≤ total (issues id) (run ms g).0 + pending id g
  unfolding run
  run-Accounted id [] g = omega arith
  run-Accounted id (m ∷ ms) g =
      omega (arith, step-Accounted id m g, run-Accounted id ms (step m g).1)

  -- In every history of a new gate, no confirmation id is consumed more often than `create` issued
  -- it, whatever the calls, their order, their times and their signatures.
  pub run_single_use :
      (id : Text) (ms : List (Call × Method)) (ttl_ms max_pending : ℕ) (has_file : Bool)
      (key : Option PublicKey)
      → let es = (run ms (new_gate ttl_ms max_pending has_file key)).0 in
        total (consumptions id) es ≤ total (issues id) es
  unfolding new_gate lookup
  run_single_use id ms ttl_ms max_pending has_file key =
      let g = new_gate ttl_ms max_pending has_file key in omega (arith, run-Accounted id ms g)

  -- The settings stay and the pending intents stay within the bound.
  Bounded : ConfirmGate PublicKey → ConfirmGate PublicKey → Type 0
  Bounded g h = (length h.intents ≤ h.max_pending) × (h.max_pending ≡ g.max_pending)

  step-Bounded :
      (m : Call × Method) (g : ConfirmGate PublicKey)
      → length g.intents ≤ g.max_pending
      → Bounded g (step m g).1
  unfolding step Bounded get_by_confirmation_id pending_views
  step-Bounded (c, creates tool_id command command_preview redacted_fields) g h =
      create-Bounded _ (create_effect crypto c g tool_id command command_preview redacted_fields)
    where
      create-Bounded :
          (r : Result CreateIntentResult × ConfirmGate PublicKey) → CreateEffect g r → Bounded g r.1
      create-Bounded (err e, k) s = omega arith
      create-Bounded (ok r, k) s = (omega arith, s.2)
  step-Bounded (c, consumes j command signature) g h =
      let s = consume_signed-Shrinks crypto c j command signature g in omega arith
  step-Bounded (c, gets j) g h = let s = prune-Shrinks c g in omega arith
  step-Bounded (c, lists) g h = let s = prune-Shrinks c g in omega arith
  step-Bounded (c, prunes) g h = let s = prune-Shrinks c g in omega arith

  -- In every history of a gate that starts within its bound, no more intents are pending than the
  -- bound allows, and the bound stays what it was.
  pub run-within_bound :
      (ms : List (Call × Method)) (g : ConfirmGate PublicKey)
      → length g.intents ≤ g.max_pending
      → (length (run ms g).1.intents ≤ g.max_pending) × ((run ms g).1.max_pending ≡ g.max_pending)
  unfolding run Bounded
  run-within_bound [] g h = (h, refl)
  run-within_bound (m ∷ ms) g h =
      let s = step-Bounded m g h in let rest = run-within_bound ms (step m g).1 s.0 in omega arith
