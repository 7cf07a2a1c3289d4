-- ===== src/Gate/Approval.antt =====
-- `consumeSigned` (src/tools/confirm-gate.ts): when it accepts an approval, and a second
-- call for the same confirmation.
use vigor3912s_mcp.Common.{
  ℕ, ◌+◌, ◌≤◌, ◌<◌, true, false, ◌≡◌, ◌≢◌, ◌↔◌, refl, ◌⊎◌, inl, inr, Option, none, some, arith,
  Text, text_key, ltb, lookup, insert, delete, ok, err, text_eq_iff, Bool-cases, lookup-insert,
  lookup-delete, ltb→lt, lt→ltb, ap, ◌∙◌, same_refl,
}
use vigor3912s_mcp.Crypto.{Crypto, digest_command, verify_approval_signature}
use vigor3912s_mcp.Gate.{
  ConfirmGate, WriteIntent, Call, consume_signed, consume_with_key, consume_unless_used,
  consume_intent, spend, used_already,
}
use vigor3912s_mcp.Gate.Prune.{persist-Settles, persist-intents_none, persist-used_some}

-- The gate as it is when the intent is spent: a stale replay entry is gone.
abbrev pub forgetting :
    {PublicKey : Type 0} → Text → ConfirmGate PublicKey → Option ℕ → ConfirmGate PublicKey
forgetting id g none = g
forgetting id g (some e) = record g { used = delete id g.used }

module _ {PublicKey : Type 0} (crypto : Crypto PublicKey) where
  -- The intent is pending, unused and in time, and the signature was made for it and for exactly
  -- this command.
  pub record IsSigned (c : Call) (key : PublicKey) (id command signature : Text)
      (intent : WriteIntent) : Type 0 where
    pub unused : intent.used ≡ false
    pub in_time : c.now ≤ intent.expires_at
    pub same_command : digest_command crypto command ≡ intent.command_digest
    pub signed :
        verify_approval_signature crypto key signature intent.confirmation_id intent.nonce
          intent.command_digest intent.expires_at
        ≡ true

  pub record Approved (c : Call) (g : ConfirmGate PublicKey) (id command signature : Text)
      : Type 0 where
    pub key : PublicKey
    pub configured : g.approve_public_key ≡ some key
    pub replay_free :
        (lookup id g.used ≡ none) ⊎ ((e : ℕ) × (lookup id g.used ≡ some e) × (e < c.now))
    pub intent : WriteIntent
    pub pending : lookup id g.intents ≡ some intent
    pub is_signed : IsSigned c key id command signature intent

  module _ (c : Call) (id command signature : Text) where
    consume_intent-IsSigned :
        (g : ConfirmGate PublicKey) (key : PublicKey) (intent : WriteIntent)
        → (consume_intent crypto c g key id command signature (some intent)).0 ≡ ok tt
        → IsSigned c key id command signature intent
    unfolding consume_intent
    consume_intent-IsSigned g key intent h =
        ground (arith, text_eq_iff (digest_command crypto command) intent.command_digest)

    consume_intent_ok :
        (g : ConfirmGate PublicKey) (key : PublicKey) (intent : WriteIntent)
        → IsSigned c key id command signature intent
        → consume_intent crypto c g key id command signature (some intent) ≡ (ok tt, spend c g id)
    unfolding consume_intent
    consume_intent_ok g key intent s =
        ground (arith, text_eq_iff (digest_command crypto command) intent.command_digest)

    pending_of :
        (g : ConfirmGate PublicKey) (key : PublicKey) (o : Option WriteIntent)
        → (consume_intent crypto c g key id command signature o).0 ≡ ok tt
        → (intent : WriteIntent) × (o ≡ some intent) × IsSigned c key id command signature intent
    unfolding consume_intent
    pending_of g key none h = cc
    pending_of g key (some intent) h = (intent, refl, consume_intent-IsSigned g key intent h)

    is_signed_lem :
        (g : ConfirmGate PublicKey) (key : PublicKey)
        → g.approve_public_key ≡ some key
        → (lookup id g.used ≡ none) ⊎ ((e : ℕ) × (lookup id g.used ≡ some e) × (e < c.now))
        → (intent : WriteIntent) × (lookup id g.intents ≡ some intent)
          × IsSigned c key id command signature intent
        → Approved c g id command signature
    is_signed_lem g key k free (intent, found, s) = record {
      key = key;
      configured = k;
      replay_free = free;
      intent = intent;
      pending = found;
      is_signed = s;
    }

    consume_unless_used-Approved :
        (g : ConfirmGate PublicKey) (key : PublicKey) (u : Option ℕ)
        → g.approve_public_key ≡ some key
        → lookup id g.used ≡ u
        → (consume_unless_used crypto c g key id command signature u).0 ≡ ok tt
        → Approved c g id command signature
    unfolding consume_unless_used
    consume_unless_used-Approved g key none k u h =
        is_signed_lem g key k (inl u) (pending_of g key (lookup id g.intents) h)
    consume_unless_used-Approved g key (some e) k u h = elim (Bool-cases (ltb e c.now)) [
      | inl stale ↦ is_signed_lem g key k (inr (e, u, ltb→lt e c.now stale)) (
          pending_of (record g { used = delete id g.used }) key (lookup id g.intents)
            (rw stale at h))
      | inr replay ↦ cc (rw replay at h)
    ]

    consume_with_key-Approved :
        (g : ConfirmGate PublicKey) (k : Option PublicKey)
        → g.approve_public_key ≡ k
        → (consume_with_key crypto c g k id command signature).0 ≡ ok tt
        → Approved c g id command signature
    unfolding consume_with_key
    consume_with_key-Approved g none k h = cc
    consume_with_key-Approved g (some key) k h =
        consume_unless_used-Approved g key (lookup id g.used) k refl h

    consume_signed_sound :
        (g : ConfirmGate PublicKey)
        → (consume_signed crypto c g id command signature).0 ≡ ok tt
        → Approved c g id command signature
    unfolding consume_signed
    consume_signed_sound g h = consume_with_key-Approved g g.approve_public_key refl h

    consume_unless_used_ok :
        (g : ConfirmGate PublicKey) (key : PublicKey) (u : Option ℕ) (intent : WriteIntent)
        → (u ≡ none) ⊎ ((e : ℕ) × (u ≡ some e) × (e < c.now))
        → lookup id g.intents ≡ some intent
        → IsSigned c key id command signature intent
        → consume_unless_used crypto c g key id command signature u
          ≡ (ok tt, spend c (forgetting id g u) id)
    unfolding consume_unless_used
    consume_unless_used_ok g key none intent free found s =
        rw found (consume_intent_ok g key intent s)
    consume_unless_used_ok g key (some e) intent (inl never) found s = cc
    consume_unless_used_ok g key (some e) intent (inr (e', same, stale)) found s =
        rw (lt→ltb e c.now (ground arith), found)
          (consume_intent_ok (record g { used = delete id g.used }) key intent s)

    -- The whole result of an approved call: the intent is spent.
    pub consume_signed-eq-spend :
        (g : ConfirmGate PublicKey)
        → Approved c g id command signature
        → consume_signed crypto c g id command signature
          ≡ (ok tt, spend c (forgetting id g (lookup id g.used)) id)
    unfolding consume_signed consume_with_key
    consume_signed-eq-spend g a =
        ap (λ k. consume_with_key crypto c g k id command signature) a.configured
        ∙ consume_unless_used_ok g a.key (lookup id g.used) a.intent a.replay_free a.pending
            a.is_signed

    -- A confirmation is consumed exactly when a key is configured, no replay entry is in force, the
    -- intent is pending, unused and in time, the command has the digest that was confirmed, and
    -- the signature verifies for the intent's id, nonce, digest and expiry.
    pub consume_signed_iff :
        (g : ConfirmGate PublicKey)
        → ((consume_signed crypto c g id command signature).0 ≡ ok tt)
          ↔ Approved c g id command signature
    consume_signed_iff g =
        (consume_signed_sound g, λ a. ap (λ r. r.0) (consume_signed-eq-spend g a))

module _ {PublicKey : Type 0} (c : Call) (g : ConfirmGate PublicKey) (id : Text) where
  pub spend-intents : lookup id (spend c g id).intents ≡ none
  unfolding spend
  spend-intents =
      persist-intents_none c
        (record g { intents = delete id g.intents; used = insert id (c.now + g.ttl_ms) g.used }) id
        (simp (lookup-delete, same_refl))

  pub spend-used : lookup id (spend c g id).used ≡ some (c.now + g.ttl_ms)
  unfolding spend
  spend-used =
      persist-used_some c
        (record g { intents = delete id g.intents; used = insert id (c.now + g.ttl_ms) g.used }) id
        (c.now + g.ttl_ms) (simp (lookup-insert, same_refl)) (omega arith)

  pub spend-key : (spend c g id).approve_public_key ≡ g.approve_public_key
  unfolding spend
  spend-key =
      (persist-Settles c (record g {
        intents = delete id g.intents;
        used = insert id (c.now + g.ttl_ms) g.used;
      })).approve_public_key

forgetting-settings :
    {PublicKey : Type 0} (id : Text) (g : ConfirmGate PublicKey) (u : Option ℕ)
    → ((forgetting id g u).ttl_ms ≡ g.ttl_ms)
      × ((forgetting id g u).approve_public_key ≡ g.approve_public_key)
forgetting-settings id g none = (refl, refl)
forgetting-settings id g (some e) = (refl, refl)

module _ {PublicKey : Type 0} (crypto : Crypto PublicKey) where
  -- A replay entry in force is refused, whatever is pending.
  replay_refused :
      (c : Call) (g : ConfirmGate PublicKey) (id command signature : Text) (key : PublicKey)
      (expiry : ℕ)
      → g.approve_public_key ≡ some key
      → lookup id g.used ≡ some expiry
      → c.now ≤ expiry
      → (consume_signed crypto c g id command signature).0 ≡ err used_already
  unfolding consume_signed consume_with_key consume_unless_used
  replay_refused c g id command signature key expiry k u h = ground arith

  module _ (c : Call) (g : ConfirmGate PublicKey) (id command signature : Text)
      (consumed : (consume_signed crypto c g id command signature).0 ≡ ok tt) (c' : Call)
      (command' signature' : Text) where
    -- A confirmation that was consumed is not consumed by the next call, whatever its time, its
    -- command and its signature.
    pub consume_signed_once :
        (consume_signed crypto c'
          (consume_signed crypto c g id command signature).1
          id
          command'
          signature').0
        ≢ ok tt
    consume_signed_once again =
        let first =
          consume_signed-eq-spend crypto c id command signature g
            ((consume_signed_iff crypto c id command signature g).0 consumed) in
        let second = (consume_signed_iff crypto c' id command' signature' _).0 again in
        cc (
          second.pending,
          ap (λ r. r.1) first,
          spend-intents c (forgetting id g (lookup id g.used)) id,
        )

    -- Within the lifetime of a confirmation the second call is told that it has been used.
    pub consume_signed_replay :
        c'.now ≤ c.now + g.ttl_ms
        → (consume_signed crypto c'
            (consume_signed crypto c g id command signature).1
            id
            command'
            signature').0
          ≡ err used_already
    consume_signed_replay h =
        let approved = (consume_signed_iff crypto c id command signature g).0 consumed in
        let spent = forgetting id g (lookup id g.used) in
        let settings = forgetting-settings id g (lookup id g.used) in
        rw (ap (λ r. r.1) (consume_signed-eq-spend crypto c id command signature g approved)) (
          replay_refused c' (spend c spent id) id command' signature' approved.key
            (c.now + spent.ttl_ms) (spend-key c spent id ∙ settings.1 ∙ approved.configured)
            (spend-used c spent id) (omega (arith, settings)))
