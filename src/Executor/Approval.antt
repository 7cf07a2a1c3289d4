-- ===== src/Executor/Approval.antt =====
-- The approval in front of a write (src/commands/write-executor.ts): what a write call
-- that touches the client has gone through.
use vigor3912s_mcp.Common.{
  true, false, not, ◌&&◌, ◌||◌, ◌≡◌, ◌≢◌, refl, sym, ap, ◌∙◌, ◌⊎◌, inl, inr, Option, none, some, [],
  ◌∷◌, arith, Text, Result, ok, err, Bool-cases, subst, is_some,
}
use vigor3912s_mcp.Gate.{ConfirmGate, CreateIntentResult, consume_signed}
use vigor3912s_mcp.Gate.Approval.{consume_signed_once}
use vigor3912s_mcp.Values.{Args, arg}
use vigor3912s_mcp.Registry.{CommandDef}
use vigor3912s_mcp.Executor.{
  World, Moment, Setting, PreparedWrite, WriteContext, perform_write, approved, verify_approval,
  approval_with, consumed, execute_prepared, execute_write, executed, prepare_write, preview_write,
  previewed, context_of, rest_of, text_arg, is_true, is_dual, tier_of, given,
}
use vigor3912s_mcp.Executor.Safety.{Performs, perform_write-Performs, recorded-Performs}

same_text : {s t : Text} → some s ≡ some t → s ≡ t
same_text e = cc

given_lem : (o : Option Text) (s : Text) → given o ≡ some s → o ≡ some s
given_lem none s h = cc
given_lem (some []) s h = cc
given_lem (some (c ∷ t)) s h = h

module _ {PublicKey : Type 0} (setting : Setting PublicKey) where
  open setting use {crypto}

  -- The approval that a context carries was consumed on the way from `w` to `v`.
  pub record Passed (m : Moment) (ctx : WriteContext) (w v : World PublicKey) : Type 0 where
    pub cid : Text
    pub sig : Text
    pub has_cid : ctx.cid ≡ some cid
    pub has_sig : ctx.sig ≡ some sig
    pub acknowledged : is_dual (tier_of ctx.cmd.confirm) ≡ true → is_true ctx.acknowledge ≡ true
    pub live : m.aborted ≡ false
    pub consumes : (consume_signed crypto m.gate w.gate cid ctx.command sig).0 ≡ ok tt
    pub gate : v.gate ≡ (consume_signed crypto m.gate w.gate cid ctx.command sig).1
    pub client : v.client ≡ w.client

  abbrev ApprovalEffect :
      Moment → WriteContext → World PublicKey → Result (Unit {0}) × World PublicKey → Type 0
  ApprovalEffect m ctx w (err e, v) = v.client ≡ w.client
  ApprovalEffect m ctx w (ok _, v) = Passed m ctx w v

  consumed_effect :
      (m : Moment) (ctx : WriteContext) (w : World PublicKey) (cid sig : Text)
      → ctx.cid ≡ some cid
      → ctx.sig ≡ some sig
      → (is_dual (tier_of ctx.cmd.confirm) && not (is_true ctx.acknowledge)) ≡ false
      → m.aborted ≡ false
      → (x : Result (Unit {0}) × ConfirmGate PublicKey)
      → consume_signed crypto m.gate w.gate cid ctx.command sig ≡ x
      → ApprovalEffect m ctx w (consumed setting m ctx w x)
  unfolding consumed
  consumed_effect m ctx w cid sig c s ack live (err e, g) x = refl
  consumed_effect m ctx w cid sig c s ack live (ok u, g) x = record {
    cid = cid;
    sig = sig;
    has_cid = c;
    has_sig = s;
    acknowledged = λ dual. ground arith;
    live = live;
    consumes = ap (λ r. r.0) x;
    gate = sym (ap (λ r. r.1) x);
    client = refl;
  }

  approval_with_effect :
      (m : Moment) (ctx : WriteContext) (w : World PublicKey) (c s : Option Text)
      → given ctx.cid ≡ c
      → given ctx.sig ≡ s
      → ApprovalEffect m ctx w (approval_with setting m ctx w c s)
  unfolding approval_with
  approval_with_effect m ctx w (some cid) (some sig) c s =
      elim (Bool-cases (is_dual (tier_of ctx.cmd.confirm) && not (is_true ctx.acknowledge))) [
        | inl refused ↦ rw refused refl
        | inr ack ↦ elim (Bool-cases m.aborted) [
          | inl gone ↦ simp (ack, gone) refl
          | inr live ↦
              simp (ack, live)
                (consumed_effect m ctx w cid sig (given_lem ctx.cid cid c) (given_lem ctx.sig sig s)
                  ack live _ refl)
        ]
      ]
  approval_with_effect m ctx w none s c q = refl
  approval_with_effect m ctx w (some cid) none c q = refl

  verify_approval_effect :
      (m : Moment) (ctx : WriteContext) (w : World PublicKey)
      → ApprovalEffect m ctx w (verify_approval setting m ctx w)
  unfolding verify_approval
  verify_approval_effect m ctx w =
      approval_with_effect m ctx w (given ctx.cid) (given ctx.sig) refl refl

  -- A call whose write was let through: what was prepared, the approval that it consumed, and what
  -- was then sent.
  pub record Executed (m : Moment) (cmd : CommandDef) (args : Args) (w v : World PublicKey)
      : Type 0 where
    pub prepared : PreparedWrite
    pub prepares : prepare_write cmd (rest_of args) ≡ ok prepared
    pub between : World PublicKey
    pub passed : Passed m (context_of cmd args prepared) w between
    pub performs : Performs setting prepared.command between v

  previewed-client :
      (m : Moment) (ctx : WriteContext) (w : World PublicKey)
      (x : Result CreateIntentResult × ConfirmGate PublicKey)
      → (previewed setting m ctx w x).1.client ≡ w.client
  unfolding previewed
  previewed-client m ctx w (err e, g) = refl
  previewed-client m ctx w (ok r, g) = refl

  approved_verdict :
      (m : Moment) (ctx : WriteContext) (w : World PublicKey)
      (x : Result (Unit {0}) × World PublicKey)
      → ApprovalEffect m ctx w x
      → ((approved setting m ctx x).1.client ≡ w.client)
        ⊎ ((between : World PublicKey) × Passed m ctx w between
            × Performs setting ctx.command between (approved setting m ctx x).1)
  unfolding approved
  approved_verdict m ctx w (err e, v) effect = inl effect
  approved_verdict m ctx w (ok u, v) passed = inr (
    v,
    passed,
    recorded-Performs setting m ctx v (perform_write setting m ctx v)
        (perform_write-Performs setting m ctx v),
  )

  execute_prepared_verdict :
      (m : Moment) (ctx : WriteContext) (w : World PublicKey)
      → ((execute_prepared setting m ctx w).1.client ≡ w.client)
        ⊎ ((between : World PublicKey) × Passed m ctx w between
            × Performs setting ctx.command between (execute_prepared setting m ctx w).1)
  unfolding execute_prepared preview_write
  execute_prepared_verdict m ctx w = elim (Bool-cases (not (is_some ctx.cid || is_some ctx.sig))) [
    | inl first ↦ rw first (inl (previewed-client m ctx w _))
    | inr second ↦ rw second (approved_verdict m ctx w _ (verify_approval_effect m ctx w))
  ]

  executed_verdict :
      (m : Moment) (cmd : CommandDef) (args : Args) (w : World PublicKey) (r : Result PreparedWrite)
      → prepare_write cmd (rest_of args) ≡ r
      → ((executed setting m cmd args w r).1.client ≡ w.client)
        ⊎ Executed m cmd args w (executed setting m cmd args w r).1
  unfolding executed
  executed_verdict m cmd args w (err e) r = inl refl
  executed_verdict m cmd args w (ok p) r =
      elim (execute_prepared_verdict m (context_of cmd args p) w) [
        | inl same ↦ inl same
        | inr (between, passed, performs) ↦ inr (record {
          prepared = p;
          prepares = r;
          between = between;
          passed = passed;
          performs = performs;
        })
      ]

  execute_write_verdict :
      (m : Moment) (cmd : CommandDef) (args : Args) (w : World PublicKey)
      → ((execute_write setting m cmd args w).1.client ≡ w.client)
        ⊎ Executed m cmd args w (execute_write setting m cmd args w).1
  unfolding execute_write
  execute_write_verdict m cmd args w = executed_verdict m cmd args w _ refl

  -- A write call that does anything to the client has prepared a command, carried an id and a
  -- signature, was acknowledged if its tier is dual, was not cancelled, and consumed the
  -- confirmation of exactly that command; and all that it sent is free of forbidden commands and is
  -- a read, the approved command or the commit.
  pub execute_write-Executed :
      (m : Moment) (cmd : CommandDef) (args : Args) (w : World PublicKey)
      → (execute_write setting m cmd args w).1.client ≢ w.client
      → Executed m cmd args w (execute_write setting m cmd args w).1
  execute_write-Executed m cmd args w touched = elim (execute_write_verdict m cmd args w) [
    | inl same ↦ absurd (touched same)
    | inr executed ↦ executed
  ]

  module _ (m : Moment) (cmd : CommandDef) (args : Args) (w : World PublicKey) (m' : Moment)
      (cmd' : CommandDef) (args' : Args) where
    -- After a write call that did anything to the client, the next write call with the same
    -- confirmation id does nothing to it, whatever its tool, its arguments, its signature and its
    -- time.
    pub execute_write_once :
        (execute_write setting m cmd args w).1.client ≢ w.client
        → text_arg (arg args' "confirmation_id") ≡ text_arg (arg args "confirmation_id")
        → (execute_write setting m' cmd' args' (execute_write setting m cmd args w).1).1.client
          ≡ (execute_write setting m cmd args w).1.client
    execute_write_once touched same_id =
        elim (execute_write_verdict m' cmd' args' (execute_write setting m cmd args w).1) [
          | inl same ↦ same
          | inr again ↦ absurd (twice (execute_write-Executed m cmd args w touched) again)
        ]
      where
        twice :
            Executed m cmd args w (execute_write setting m cmd args w).1
            → Executed m' cmd' args'
                (execute_write setting m cmd args w).1
                (execute_write setting m' cmd' args' (execute_write setting m cmd args w).1).1
            → ⊥
        twice first second =
            consume_signed_once crypto m.gate w.gate first.passed.cid first.prepared.command
              first.passed.sig first.passed.consumes m'.gate second.prepared.command
              second.passed.sig
              (subst
                (λ g.
                  (consume_signed crypto m'.gate g first.passed.cid second.prepared.command
                    second.passed.sig).0
                  ≡ ok tt)
                (first.performs.gate ∙ first.passed.gate)
                (subst
                  (λ id.
                    (consume_signed crypto m'.gate (execute_write setting m cmd args w).1.gate id
                      second.prepared.command second.passed.sig).0
                    ≡ ok tt)
                  (same_text (sym second.passed.has_cid ∙ same_id ∙ first.passed.has_cid))
                  second.passed.consumes))
