-- ===== src/Executor.antt =====
-- src/commands/write-executor.ts, with the error and timing helpers of src/commands/tool-log.ts: one
-- write tool call, from the preview to the audit. `runExclusive` runs the calls one after another, so
-- a call is a function of the whole state.
pub mod Safety
pub mod Approval
pub mod Typed
pub mod Destructive
pub mod Tests
mod State
pub use State.*
use vigor3912s_mcp.Common.{
  ℕ, zero, suc, ◌+◌, ◌-◌, ◌/◌, ◌&&◌, String, Bool, true, false, not, ◌||◌, Option, none, some, List,
  [], ◌∷◌, ◌++◌, map, Text, lit, any, if◌then◌else◌, lookup, delete, string_key, text_key, ◌==◌,
  get_or, is_some, length, take, trim, Result, ok, err, ◌>>=◌, Error, vigor_error, sdk_error,
  confirm_error, plain_error, out_of_draws, invalid_token, token_used, token_expired, mismatch,
  bad_signature, VigorErrorCode, connect, auth, timeout, closed, invalid, unauthorized,
  SdkErrorCode, output_limit_exceeded, session_closed, execution_timeout, command_framing_rejected,
  command_rejected, other, ConfirmErrorCode,
}
use vigor3912s_mcp.Crypto.{Crypto, build_sign_payload}
use vigor3912s_mcp.Crypto.Digits.{decimal}
use vigor3912s_mcp.Gate.{ConfirmGate, Call, CreateIntentResult, create, consume_signed}
use vigor3912s_mcp.Values.{Value, undefined, bool, str, Args, arg}
use vigor3912s_mcp.Registry.{
  CommandDef, CommandKind, read, write, ConfirmTier, auto, confirm, dual, CommandSdkBinding,
  resolve_sdk_input,
}
use vigor3912s_mcp.Redaction.{Redacted, redact_command, redact_args}
use vigor3912s_mcp.CliResult.{is_router_cli_failure}
use vigor3912s_mcp.Log.{
  LogEntry, WriteAuditEntry, LogStore, RequestOutcome, WriteStatus, CommitStatus, log_write_outcome,
  request,
}
use vigor3912s_mcp.Client.{
  Client, Sdk, Allowlist, CommandTiming, last_command_timing, authorize_write, run_command,
  run_operation, run_write_command, run_write_operation,
}

input_of : Option CommandSdkBinding → Args → Result (Option Value)
input_of none args = ok none
input_of (some binding) args = do input ← resolve_sdk_input binding args; ok (some input)

-- `prepareWrite`
unfoldable pub prepare_write : CommandDef → Args → Result PreparedWrite
unfolding input_of
prepare_write cmd args = do
  command ← cmd.render args
  redacted ← redact_command command args cmd.secret_args
  input ← input_of cmd.sdk args
  ok (record {
    command = command;
    sdk_input = input;
    command_log = redacted.preview;
    redacted_fields = redacted.fields;
  })

abbrev pub context_of : CommandDef → Args → PreparedWrite → WriteContext
context_of cmd args p = record {
  cmd = cmd;
  args_log = redact_args (rest_of args) cmd.secret_args;
  prepared = p;
  cid = text_arg (arg args "confirmation_id");
  sig = text_arg (arg args "signature");
  acknowledge = arg args "acknowledge";
}

module _ {PublicKey : Type 0} (setting : Setting PublicKey) where
  open setting use {crypto, sdk, allow, commands, auto_commit}

  -- `findCommand`
  abbrev pub find_command : String → Option CommandDef
  find_command id = lookup id commands

  read_typed : String → Client → Result Value → Option Text × Client
  read_typed manifest_id c (err e) = (none, c)
  read_typed manifest_id c (ok input) =
      let (r, c') = run_operation sdk manifest_id input c in (taken r, c')

  read_raw : Client → Result Text → Option Text × Client
  read_raw c (err e) = (none, c)
  read_raw c (ok command) = let (r, c') = run_command sdk allow command c in (taken r, c')

  read_by : CommandDef → Option CommandSdkBinding → Client → Option Text × Client
  unfolding read_typed read_raw
  read_by cmd none c = read_raw c (cmd.render [])
  read_by cmd (some binding) c = read_typed binding.manifest_id c (resolve_sdk_input binding [])

  read_if : CommandKind → CommandDef → Client → Option Text × Client
  unfolding read_by
  read_if write cmd c = (none, c)
  read_if read cmd c = read_by cmd cmd.sdk c

  -- `snapshot`, from the tool that it reads with; a failure is `null`.
  snapshot_with : Option CommandDef → Client → Option Text × Client
  unfolding read_if
  snapshot_with none c = (none, c)
  snapshot_with (some cmd) c = read_if cmd.kind cmd c

  pub snapshot : Option String → Client → Option Text × Client
  unfolding snapshot_with
  snapshot none c = (none, c)
  snapshot (some id) c = snapshot_with (find_command id) c

  -- `canPersistSnapshots`
  can_persist_snapshots : CommandDef → Bool
  can_persist_snapshots cmd = elim cmd.snapshot_read [
    | none ↦ true
    | some id ↦ elim (find_command id) [ none ↦ true | some c ↦ not c.sensitive_output ]
  ]

  rejected : String → Option String → Text → Result Text
  rejected what code raw = err (plain_error code (lit what ++ take 200 (trim raw)))

  -- The check of the router's own failure message.
  checked : String → Option String → Result Text → Result Text
  unfolding rejected
  checked what code (err e) = err e
  checked what code (ok raw) = if is_router_cli_failure raw then rejected what code raw else ok raw

  commit_entry : ℕ → RequestOutcome → Option Error → LogEntry
  commit_entry duration outcome e =
      entry_for "sys_commit" (lit "sys commit") [] outcome e duration none none

  commit_logged : Moment → World PublicKey → Result Text → CommitStatus × World PublicKey
  unfolding commit_entry
  commit_logged m w (ok raw) = (
    CommitStatus.ok,
    record w {
      store =
          (request m.commit_ended
            (commit_entry (m.commit_ended - m.commit_started) RequestOutcome.ok none) w.store).1;
    },
  )
  commit_logged m w (err e) = (
    CommitStatus.failed,
    record w {
      store =
          (request m.commit_ended
            (commit_entry (m.commit_ended - m.commit_started) RequestOutcome.error (some e))
            w.store).1;
    },
  )

  -- `runCommit`
  pub run_commit : Moment → World PublicKey → CommitStatus × World PublicKey
  unfolding commit_logged checked
  run_commit m w =
      let (r, c) =
        run_write_command sdk (lit "sys commit") (authorize_write (lit "sys commit") w.client) in
      commit_logged m (record w { client = c }) (checked "router rejected commit: " none r)

  -- `logWriteOutcome` on the world's store
  abbrev logged : ℕ → LogEntry → WriteAuditEntry → Bool → World PublicKey → World PublicKey
  logged now entry audit link w = record w {
    store = (log_write_outcome now entry audit link w.store).1;
  }

  preview_body : WriteContext → CreateIntentResult → Body
  preview_body ctx r = needs_confirmation (record {
    preview = ctx.command_log;
    redacted_fields = ctx.redacted_fields;
    created = r;
    sign_payload =
        crypto.utf8_text
          (build_sign_payload crypto r.confirmation_id r.nonce r.command_digest r.expires_at);
    affects_network = ctx.cmd.affects_network;
    confirm_tier = tier_of ctx.cmd.confirm;
    dangerous = is_dual (tier_of ctx.cmd.confirm);
  })

  previewed :
      Moment
      → WriteContext
      → World PublicKey
      → Result CreateIntentResult × ConfirmGate PublicKey
      → Result Body × World PublicKey
  unfolding preview_body
  previewed m ctx w (err e, g) = (err e, record w { gate = g })
  previewed m ctx w (ok r, g) = (
    ok (preview_body ctx r),
    logged m.ended
        (timed m.started m.ended (
          entry_for ctx.cmd.id ctx.command_log ctx.args_log RequestOutcome.needs_confirmation none
            (m.ended - m.started) none none))
        (audit_for ctx.cmd.id ctx.command_log WriteStatus.preview none none) false
        (record w { gate = g }),
  )

  -- `previewWrite`, for a call with neither an id nor a signature
  pub preview_write : Moment → WriteContext → World PublicKey → Result Body × World PublicKey
  unfolding previewed
  preview_write m ctx w =
      previewed m ctx w
        (create crypto m.gate w.gate ctx.cmd.id ctx.command ctx.command_log ctx.redacted_fields)

  -- A denied write in the log.
  denied_log : Moment → WriteContext → WriteStatus → Error → World PublicKey → World PublicKey
  denied_log m ctx status e w =
      logged m.ended
        (entry_for ctx.cmd.id ctx.command_log ctx.args_log RequestOutcome.denied (some e)
          (m.ended - m.started) none none)
        (audit_for ctx.cmd.id ctx.command_log status none (some e)) false w

  abbrev not_acknowledged : Error
  not_acknowledged = plain_error none (lit "dual-confirm write requires acknowledge: true")

  abbrev incomplete : Error
  incomplete =
      confirm_error invalid_token
        (lit "approval requires confirmation_id and signature (Ed25519 over sign_payload)")

  -- The status under which a refused approval is audited.
  deny_status : Error → WriteStatus
  deny_status e = audit_deny_status (get_or (err_code e) "denied")

  consumed :
      Moment
      → WriteContext
      → World PublicKey
      → Result (Unit {0}) × ConfirmGate PublicKey
      → Result (Unit {0}) × World PublicKey
  unfolding denied_log deny_status
  consumed m ctx w (ok _, g) = (ok tt, record w { gate = g })
  consumed m ctx w (err e, g) =
      (err e, denied_log m ctx (deny_status e) (coded "denied" e) (record w { gate = g }))

  approval_with :
      Moment
      → WriteContext
      → World PublicKey
      → Option Text
      → Option Text
      → Result (Unit {0}) × World PublicKey
  unfolding consumed denied_log deny_status
  approval_with m ctx w (some cid) (some sig) =
      if is_dual (tier_of ctx.cmd.confirm) && not (is_true ctx.acknowledge)
      then (
        err not_acknowledged,
        denied_log m ctx WriteStatus.denied (coded "not_acknowledged" not_acknowledged) w,
      )
      else if m.aborted
      then (err cancelled, denied_log m ctx (deny_status cancelled) cancelled w)
      else consumed m ctx w (consume_signed crypto m.gate w.gate cid ctx.command sig)
  approval_with m ctx w _ _ = (err incomplete, w)

  -- `verifyApproval`
  pub verify_approval :
      Moment → WriteContext → World PublicKey → Result (Unit {0}) × World PublicKey
  unfolding approval_with
  verify_approval m ctx w = approval_with m ctx w (given ctx.cid) (given ctx.sig)

  -- The write itself: authorized, sent once, and its output checked.
  sent_as : Option CommandSdkBinding → WriteContext → Client → Result Text × Client
  sent_as none ctx c = run_write_command sdk ctx.command c
  sent_as (some binding) ctx c =
      run_write_operation sdk binding.manifest_id (get_or ctx.sdk_input undefined) c

  pub send_write : Moment → WriteContext → Client → Result Text × Client
  unfolding sent_as checked
  send_write m ctx c =
      if m.aborted_later
      then (err cancelled, c)
      else (let (r, c') = sent_as ctx.cmd.sdk ctx (authorize_write ctx.command c) in
          (checked "router rejected command: " (some "router_error") r, c'))

  abbrev is_cancelled : Error → Bool
  is_cancelled e = elim (err_code e) [ none ↦ false | some code ↦ code == "cancelled" ]

  -- The log of a write that did not go through.
  failed_log : Moment → WriteContext → Option Text → Error → World PublicKey → World PublicKey
  failed_log m ctx before e w =
      logged m.ended
        (timed m.started m.ended (
          entry_for ctx.cmd.id ctx.command_log ctx.args_log
            (if is_cancelled e then RequestOutcome.denied else RequestOutcome.error) (some e)
            (m.ended - m.started) none (last_command_timing w.client)))
        (record (audit_for ctx.cmd.id ctx.command_log
          (if is_cancelled e then WriteStatus.denied else WriteStatus.failed)
          (if is_cancelled e then none else some false) (some e)) { before_snapshot = before })
        false w

  -- After the router took the write: the second snapshot and the commit.
  committed :
      Moment
      → WriteContext
      → Option Text
      → Text
      → World PublicKey
      → PerformedWrite × World PublicKey
  committed m ctx before raw w =
      let timing = last_command_timing w.client in
      let (after, c) = snapshot ctx.cmd.snapshot_read w.client in
      let w' = record w { client = c } in
      let commits = run_commit m w' in
      let (status, w'') =
        if auto_commit && not ctx.cmd.skip_commit then commits else (CommitStatus.skipped, w') in
      (
        record {
          before = before;
          after = after;
          persist_snapshots = can_persist_snapshots ctx.cmd;
          raw = raw;
          write_timing = timing;
          commit_status = status;
        },
        w'',
      )

  written :
      Moment
      → WriteContext
      → Option Text
      → World PublicKey
      → Result Text
      → Result PerformedWrite × World PublicKey
  unfolding committed failed_log can_persist_snapshots
  written m ctx before w (err e) =
      (err e, failed_log m ctx (if can_persist_snapshots ctx.cmd then before else none) e w)
  written m ctx before w (ok raw) = let (p, w') = committed m ctx before raw w in (ok p, w')

  -- `performWrite`
  pub perform_write :
      Moment → WriteContext → World PublicKey → Result PerformedWrite × World PublicKey
  unfolding written
  perform_write m ctx w =
      let (before, c) = snapshot ctx.cmd.snapshot_read w.client in
      let (r, c') = send_write m ctx c in written m ctx before (record w { client = c' }) r

  outcome_of : WriteContext → PerformedWrite → CommitStatus → Outcome
  outcome_of ctx p commit = record {
    command = ctx.command_log;
    before = p.before;
    after = p.after;
    output = p.raw;
    commit = commit;
  }

  abbrev commit_failure : Error
  commit_failure = plain_error (some "commit_failed") (lit "sys commit failed after write")

  abbrev if_empty : List String → Text → Option Text
  if_empty [] raw = some raw
  if_empty (s ∷ rest) raw = none

  -- `recordWrite`
  pub record_write :
      Moment → WriteContext → PerformedWrite → World PublicKey → Body × World PublicKey
  unfolding outcome_of
  record_write m ctx p w =
      let failed = has_failed p.commit_status in
      let e : Option Error = if failed then some commit_failure else none in
      (
        if failed
            then Body.commit_failed (outcome_of ctx p p.commit_status)
            else Body.done
                (outcome_of ctx p (if auto_commit then p.commit_status else CommitStatus.skipped)),
        logged m.ended
            (timed m.started m.ended (
              entry_for ctx.cmd.id ctx.command_log ctx.args_log
                (if failed then RequestOutcome.error else RequestOutcome.ok) e (m.ended - m.started)
                (if_empty ctx.cmd.secret_args p.raw) p.write_timing))
            (record (audit_for ctx.cmd.id ctx.command_log
              (if failed then WriteStatus.failed else WriteStatus.executed) (some (not failed)) e) {
                before_snapshot = if p.persist_snapshots then p.before else none;
                after_snapshot = if p.persist_snapshots then p.after else none;
                commit_status = some p.commit_status;
              })
            true w,
      )

  pub recorded :
      Moment
      → WriteContext
      → Result PerformedWrite × World PublicKey
      → Result Body × World PublicKey
  recorded m ctx (err e, w) = (err e, w)
  recorded m ctx (ok p, w) = let (b, w') = record_write m ctx p w in (ok b, w')

  approved :
      Moment → WriteContext → Result (Unit {0}) × World PublicKey → Result Body × World PublicKey
  unfolding recorded
  approved m ctx (err e, w) = (err e, w)
  approved m ctx (ok _, w) = recorded m ctx (perform_write m ctx w)

  -- `recordPreparationFailure`
  preparation_log : Moment → CommandDef → Args → Error → World PublicKey → World PublicKey
  preparation_log m cmd args_log e w =
      logged m.ended
        (entry_for cmd.id (lit cmd.id) args_log RequestOutcome.denied (some (coded "invalid" e))
          (m.ended - m.started) none none)
        (audit_for cmd.id (lit cmd.id) WriteStatus.denied none (some (coded "invalid" e))) false w

  unfoldable pub execute_prepared :
      Moment → WriteContext → World PublicKey → Result Body × World PublicKey
  unfolding approved
  execute_prepared m ctx w =
      if not (is_some ctx.cid || is_some ctx.sig)
      then preview_write m ctx w
      else approved m ctx (verify_approval m ctx w)

  executed :
      Moment
      → CommandDef
      → Args
      → World PublicKey
      → Result PreparedWrite
      → Result Body × World PublicKey
  unfolding preparation_log execute_prepared
  executed m cmd args w (err e) =
      (err e, preparation_log m cmd (redact_args (rest_of args) cmd.secret_args) e w)
  executed m cmd args w (ok p) = execute_prepared m (context_of cmd args p) w

  -- `executeWrite`
  unfoldable pub execute_write :
      Moment → CommandDef → Args → World PublicKey → Result Body × World PublicKey
  unfolding executed
  execute_write m cmd args w = executed m cmd args w (prepare_write cmd (rest_of args))
