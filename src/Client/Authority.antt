-- ===== src/Client/Authority.antt =====
-- Histories of calls on one client (src/ssh/sdk-vigor-client.ts): what reaches the router.
use vigor3912s_mcp.Common.{
  ℕ, ◌+◌, ◌-◌, ◌≤◌, String, Bool, true, false, ◌≡◌, refl, sym, ap, ◌∙◌, List, [], ◌∷◌, arith, Text,
  if◌then◌else◌, All, All-append, length, length-append, is_some,
}
use vigor3912s_mcp.Values.{Value}
use vigor3912s_mcp.Client.{
  Sent, Sdk, Allowlist, Client, authorize_write, disconnect, run_command, run_write_command,
  run_operation, run_write_operation,
}
use vigor3912s_mcp.Client.Sending.{
  SameGuards, guards_after, IsHarmless, IsRead, Sends, nothing, reading, writing, run_command-Sends,
  run_write_command-Sends, run_operation-Sends, run_write_operation-Sends,
}

-- The calls of the interface `VigorClient` that change its state.
pub data ClientCall : Type 0 where
  authorizes runs writes : Text → ClientCall
  operates write_operates : String → Value → ClientCall
  disconnects : ClientCall

guards_stay :
    (is_write : Bool) (c d : Client)
    → SameGuards (guards_after is_write c) d
    → (d.read_only ≡ c.read_only) × (d.closed ≡ c.closed)
guards_stay true c d g = (g.read_only, g.closed)
guards_stay false c d g = (g.read_only, g.closed)

module _ (sdk : Sdk) (allow : Allowlist) where
  pub step : ClientCall → Client → Client
  step (authorizes command) c = authorize_write command c
  step (runs command) c = (run_command sdk allow command c).1
  step (writes command) c = (run_write_command sdk command c).1
  step (operates manifest_id input) c = (run_operation sdk manifest_id input c).1
  step (write_operates manifest_id input) c = (run_write_operation sdk manifest_id input c).1
  step disconnects c = disconnect c

  pub run : List ClientCall → Client → Client
  run [] c = c
  run (call ∷ calls) c = run calls (step call c)

  -- What holds of the sent items, call by call: harmless all, and reads only in read-only mode.
  pub record IsSafe (c : Client) : Type 0 where
    pub harmless : All (IsHarmless sdk) c.sent
    pub reads_only : c.read_only ≡ true → All (IsRead sdk allow) c.sent

  Sends-IsSafe :
      {c : Client} {is_write : Bool} {d : Client}
      → Sends sdk allow c is_write d
      → IsSafe c
      → IsSafe d
  Sends-IsSafe {is_write} (nothing g e) safe = record {
    harmless = rw e safe.harmless;
    reads_only = λ r. rw e (safe.reads_only (sym (guards_stay is_write _ _ g).0 ∙ r));
  }
  Sends-IsSafe {c} {is_write} (reading s g e h is_read reads live) safe = record {
    harmless = rw e (All-append (IsHarmless sdk) c.sent safe.harmless h);
    reads_only = λ r. rw e (
        All-append (IsRead sdk allow) c.sent
          (safe.reads_only (sym (guards_stay is_write _ _ g).0 ∙ r)) is_read);
  }
  Sends-IsSafe {c} {is_write} (writing s command g e h renders writes_now authorized writable live)
        safe =
      record {
        harmless = rw e (All-append (IsHarmless sdk) c.sent safe.harmless h);
        reads_only = λ r. cc (sym (guards_stay is_write _ _ g).0 ∙ r, writable);
      }

  step-IsSafe : (call : ClientCall) (c : Client) → IsSafe c → IsSafe (step call c)
  unfolding step authorize_write disconnect
  step-IsSafe (authorizes command) c safe = record {
    harmless = safe.harmless;
    reads_only = safe.reads_only;
  }
  step-IsSafe (runs command) c safe = Sends-IsSafe (run_command-Sends sdk allow command c) safe
  step-IsSafe (writes command) c safe =
      Sends-IsSafe (run_write_command-Sends sdk allow command c) safe
  step-IsSafe (operates manifest_id input) c safe =
      Sends-IsSafe (run_operation-Sends sdk allow manifest_id input c) safe
  step-IsSafe (write_operates manifest_id input) c safe =
      Sends-IsSafe (run_write_operation-Sends sdk allow manifest_id input c) safe
  step-IsSafe disconnects c safe = record { harmless = safe.harmless; reads_only = safe.reads_only }

  -- In every history of calls, from a client that sent only such, nothing that reached the SDK
  -- holds a forbidden command; and if the client is in read-only mode, each of it is a read: an
  -- allowlisted command or an operation classified as one.
  pub run-IsSafe : (calls : List ClientCall) (c : Client) → IsSafe c → IsSafe (run calls c)
  unfolding run
  run-IsSafe [] c safe = safe
  run-IsSafe (call ∷ calls) c safe = run-IsSafe calls (step call c) (step-IsSafe call c safe)

  Sends-closed :
      {c : Client} {is_write : Bool} {d : Client}
      → Sends sdk allow c is_write d
      → c.closed ≡ true
      → (d.sent ≡ c.sent) × (d.closed ≡ true)
  Sends-closed {is_write} (nothing g e) shut = (e, (guards_stay is_write _ _ g).1 ∙ shut)
  Sends-closed (reading s g e h is_read reads live) shut = cc (shut, live)
  Sends-closed (writing s command g e h renders writes_now authorized writable live) shut =
      cc (shut, live)

  step-closed :
      (call : ClientCall) (c : Client)
      → c.closed ≡ true
      → ((step call c).sent ≡ c.sent) × ((step call c).closed ≡ true)
  unfolding step authorize_write disconnect
  step-closed (authorizes command) c shut = (refl, shut)
  step-closed (runs command) c shut = Sends-closed (run_command-Sends sdk allow command c) shut
  step-closed (writes command) c shut =
      Sends-closed (run_write_command-Sends sdk allow command c) shut
  step-closed (operates manifest_id input) c shut =
      Sends-closed (run_operation-Sends sdk allow manifest_id input c) shut
  step-closed (write_operates manifest_id input) c shut =
      Sends-closed (run_write_operation-Sends sdk allow manifest_id input c) shut
  step-closed disconnects c shut = (refl, refl)

  run-closed :
      (calls : List ClientCall) (c : Client) → c.closed ≡ true → (run calls c).sent ≡ c.sent
  unfolding run
  run-closed [] c shut = refl
  run-closed (call ∷ calls) c shut =
      let (same, still) = step-closed call c shut in run-closed calls (step call c) still ∙ same

  -- After `disconnect` no history of calls sends anything more.
  pub run-disconnect_silent :
      (calls : List ClientCall) (c : Client) → (run calls (disconnect c)).sent ≡ c.sent
  unfolding disconnect
  run-disconnect_silent calls c = run-closed calls (disconnect c) refl

  -- A write call sent something.
  abbrev wrote : ClientCall → Client → Client → ℕ
  wrote (writes command) c d = length d.sent - length c.sent
  wrote (write_operates manifest_id input) c d = length d.sent - length c.sent
  wrote _ c d = 0

  abbrev grants : ClientCall → ℕ
  grants (authorizes command) = 1
  grants _ = 0

  -- The writes that a history sends, and the authorizations in it.
  pub writes_sent : List ClientCall → Client → ℕ
  writes_sent [] c = 0
  writes_sent (call ∷ calls) c = wrote call c (step call c) + writes_sent calls (step call c)

  pub authorizations : List ClientCall → ℕ
  authorizations [] = 0
  authorizations (call ∷ calls) = grants call + authorizations calls

  abbrev pub held : Client → ℕ
  held c = if is_some c.write_authorized then 1 else 0

  write_balance :
      {c d : Client} → Sends sdk allow c true d → (length d.sent - length c.sent) + held d ≤ held c
  write_balance {c} {d} (nothing g e) = ground (arith, ap (λ (l : List Sent). length l) e)
  write_balance (reading s g e h is_read reads live) = cc
  write_balance {c} {d} (writing s command g e h renders writes_now authorized writable live) =
      ground (arith, ap (λ (l : List Sent). length l) e, length-append c.sent (s ∷ []))

  read_balance : {c d : Client} → Sends sdk allow c false d → held d ≤ held c
  read_balance (nothing g e) = ground arith
  read_balance (reading s g e h is_read reads live) = ground arith
  read_balance (writing s command g e h renders writes_now authorized writable live) = cc

  step_balance :
      (call : ClientCall) (c : Client)
      → wrote call c (step call c) + held (step call c) ≤ grants call + held c
  unfolding step authorize_write disconnect
  step_balance (authorizes command) c = omega arith
  step_balance (runs command) c =
      omega (arith, read_balance (run_command-Sends sdk allow command c))
  step_balance (writes command) c =
      omega (arith, write_balance (run_write_command-Sends sdk allow command c))
  step_balance (operates manifest_id input) c =
      omega (arith, read_balance (run_operation-Sends sdk allow manifest_id input c))
  step_balance (write_operates manifest_id input) c =
      omega (arith, write_balance (run_write_operation-Sends sdk allow manifest_id input c))
  step_balance disconnects c = omega arith

  -- A history sends at most as many writes as it grants authorizations, counting the one that the
  -- client may hold at the start: a write that is refused spends its authorization too.
  pub writes_sent-le-authorizations :
      (calls : List ClientCall) (c : Client)
      → writes_sent calls c + held (run calls c) ≤ authorizations calls + held c
  unfolding writes_sent authorizations run
  writes_sent-le-authorizations [] c = omega arith
  writes_sent-le-authorizations (call ∷ calls) c =
      omega (arith, step_balance call c, writes_sent-le-authorizations calls (step call c))
