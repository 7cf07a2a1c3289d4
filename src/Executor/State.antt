-- ===== src/Executor/State.antt =====
-- The state, the settings and the bodies of a write call (src/commands/write-executor.ts), and the
-- entries that it logs (src/commands/tool-log.ts).
use vigor3912s_mcp.Common.{
  ℕ, String, Bool, true, false, ◌||◌, Option, none, some, List, [], ◌∷◌, Text, lit, if◌then◌else◌,
  delete, string_key, text_key, ◌==◌, get_or, Result, ok, err, Error, vigor_error, sdk_error,
  confirm_error, plain_error, out_of_draws, invalid_token, token_used, token_expired, mismatch,
  bad_signature, VigorErrorCode, connect, auth, timeout, closed, invalid, unauthorized,
  SdkErrorCode, output_limit_exceeded, session_closed, execution_timeout, command_framing_rejected,
  command_rejected, other, ConfirmErrorCode,
}
use vigor3912s_mcp.Crypto.{Crypto}
use vigor3912s_mcp.Gate.{ConfirmGate, Call, CreateIntentResult}
use vigor3912s_mcp.Values.{Value, bool, str, Args}
use vigor3912s_mcp.Registry.{CommandDef, write, ConfirmTier, confirm, dual}
use vigor3912s_mcp.Log.{
  LogEntry, WriteAuditEntry, LogStore, RequestOutcome, WriteStatus, CommitStatus,
}
use vigor3912s_mcp.Client.{Client, Sdk, Allowlist, CommandTiming}

abbrev pub confirm_code : ConfirmErrorCode → String
confirm_code invalid_token = "invalid_token"
confirm_code token_used = "token_used"
confirm_code token_expired = "token_expired"
confirm_code mismatch = "mismatch"
confirm_code bad_signature = "bad_signature"

abbrev pub vigor_code : VigorErrorCode → String
vigor_code connect = "connect"
vigor_code auth = "auth"
vigor_code timeout = "timeout"
vigor_code closed = "closed"
vigor_code invalid = "invalid"
vigor_code unauthorized = "unauthorized"

abbrev pub sdk_code_name : SdkErrorCode → String
sdk_code_name output_limit_exceeded = "output_limit_exceeded"
sdk_code_name session_closed = "session_closed"
sdk_code_name execution_timeout = "execution_timeout"
sdk_code_name command_framing_rejected = "command_framing_rejected"
sdk_code_name command_rejected = "command_rejected"
sdk_code_name (other name) = name

-- `errCode`
abbrev pub err_code : Error → Option String
err_code (confirm_error code message) = some (confirm_code code)
err_code (vigor_error code message) = some (vigor_code code)
err_code (sdk_error code message) = some (sdk_code_name code)
err_code (plain_error code message) = code
err_code out_of_draws = none

-- `errMsg`
abbrev pub err_msg : Error → Text
err_msg (confirm_error code message) = message
err_msg (vigor_error code message) = message
err_msg (sdk_error code message) = message
err_msg (plain_error code message) = message
err_msg out_of_draws = []

-- `auditDenyStatus`
abbrev pub audit_deny_status : String → WriteStatus
audit_deny_status code =
    if code == "token_expired" || code == "expired"
    then WriteStatus.expired
    else if code == "mismatch"
    then WriteStatus.mismatch
    else WriteStatus.denied

-- The whole state that a write call works on.
pub record World (PublicKey : Type 0) : Type 0 where
  pub gate : ConfirmGate PublicKey
  pub client : Client
  pub store : LogStore

-- The instants that one call reads, and whether its request is cancelled by the time that the
-- approval is verified, and by the time that the write is performed.
pub record Moment : Type 0 where
  pub started : ℕ
  pub gate : Call
  pub commit_started : ℕ
  pub commit_ended : ℕ
  pub ended : ℕ
  pub aborted : Bool
  pub aborted_later : Bool

-- What the executor is built over: the SDK, the allowlist, the tools by id, and auto-commit.
pub record Setting (PublicKey : Type 0) : Type 0 where
  pub crypto : Crypto PublicKey
  pub sdk : Sdk
  pub allow : Allowlist
  pub commands : List (String × CommandDef)
  pub auto_commit : Bool

pub record PreparedWrite : Type 0 where
  pub command : Text
  pub sdk_input : Option Value
  pub command_log : Text
  pub redacted_fields : List String

-- The bodies that a call returns.
pub record Preview : Type 0 where
  pub preview : Text
  pub redacted_fields : List String
  pub created : CreateIntentResult
  pub sign_payload : Text
  pub affects_network : Bool
  pub confirm_tier : ConfirmTier
  pub dangerous : Bool

pub record Outcome : Type 0 where
  pub command : Text
  pub before : Option Text
  pub after : Option Text
  pub output : Text
  pub commit : CommitStatus

pub data Body : Type 0 where
  needs_confirmation : Preview → Body
  commit_failed done : Outcome → Body

abbrev pub is_dual : ConfirmTier → Bool
is_dual dual = true
is_dual _ = false

-- `ctx.cmd.confirm === 'auto' ? 'confirm' : (ctx.cmd.confirm ?? 'confirm')`
abbrev pub tier_of : Option ConfirmTier → ConfirmTier
tier_of (some dual) = dual
tier_of _ = confirm

-- A log entry with the fields that every write entry has; `timingOf` fills the last three.
abbrev pub entry_for :
    String
    → Text
    → Args
    → RequestOutcome
    → Option Error
    → ℕ
    → Option Text
    → Option CommandTiming
    → LogEntry
entry_for tool_id command args_json outcome e duration output timing = record {
  tool_id = tool_id;
  kind = write;
  command = command;
  args_json = args_json;
  outcome = outcome;
  error_code = elim e [ none ↦ none | some x ↦ err_code x ];
  error_msg = elim e [ none ↦ none | some x ↦ some (err_msg x) ];
  duration_ms = duration;
  output = output;
  requested_at = none;
  responded_at = none;
  send_at = elim timing [ none ↦ none | some t ↦ some t.send_at ];
  recv_at = elim timing [ none ↦ none | some t ↦ some t.recv_at ];
  connect_ms = elim timing [ none ↦ none | some t ↦ some t.connect_ms ];
}

abbrev pub timed : ℕ → ℕ → LogEntry → LogEntry
timed started ended e = record e { requested_at = some started; responded_at = some ended }

abbrev pub audit_for : String → Text → WriteStatus → Option Bool → Option Error → WriteAuditEntry
audit_for tool_id command status success e = record {
  request_id = none;
  tool_id = tool_id;
  command = command;
  status = status;
  success = success;
  before_snapshot = none;
  after_snapshot = none;
  error_code = elim e [ none ↦ none | some x ↦ err_code x ];
  error_msg = elim e [ none ↦ none | some x ↦ some (err_msg x) ];
  commit_status = none;
}

-- `code ?? fallback` put back into the error that is logged.
abbrev pub coded : String → Error → Error
coded fallback e = plain_error (some (get_or (err_code e) fallback)) (err_msg e)

abbrev pub cancelled : Error
cancelled = plain_error (some "cancelled") (lit "request cancelled before router execution")

-- `{ confirmation_id, signature, acknowledge, ...rest }`
abbrev pub rest_of : Args → Args
rest_of args = delete "confirmation_id" (delete "signature" (delete "acknowledge" args))

-- `typeof value === 'string' ? value : undefined`
abbrev pub text_arg : Value → Option Text
text_arg (str s) = some s
text_arg _ = none

abbrev pub is_true : Value → Bool
is_true (bool b) = b
is_true _ = false

-- A text that JavaScript takes as true: present and not empty.
abbrev pub given : Option Text → Option Text
given none = none
given (some []) = none
given (some (c ∷ s)) = some (c ∷ s)

-- What a snapshot keeps of a read's result.
abbrev pub taken : Result Text → Option Text
taken (ok s) = some s
taken (err e) = none

-- `WriteContext`, without what the world and the setting hold
pub record WriteContext : Type 0 where
  pub cmd : CommandDef
  pub args_log : Args
  pub prepared : PreparedWrite
  pub open prepared use *
  pub cid : Option Text
  pub sig : Option Text
  pub acknowledge : Value

-- `PerformedWrite`
pub record PerformedWrite : Type 0 where
  pub before : Option Text
  pub after : Option Text
  pub persist_snapshots : Bool
  pub raw : Text
  pub write_timing : Option CommandTiming
  pub commit_status : CommitStatus

abbrev pub has_failed : CommitStatus → Bool
has_failed CommitStatus.failed = true
has_failed _ = false
