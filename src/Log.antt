-- ===== src/Log.antt =====
-- src/db/log.ts: the request log and the write audit. SQLite is a parameter: of each statement, by
-- its number, it says whether it fails and which row id it gives. The tables list what was inserted. An instant stands for its ISO text, and the
-- arguments for their JSON text.
pub mod Rows
pub mod Tests
use vigor3912s_mcp.Common.{
  ℕ, zero, suc, ◌+◌, String, Bool, true, false, Option, none, some, List, [], ◌∷◌, ◌++◌, Text, lit,
  ltb, if◌then◌else◌, length, get_or, take,
}
use vigor3912s_mcp.Values.{Args}
use vigor3912s_mcp.Registry.{CommandKind}

pub data RequestOutcome : Type 0 where
  ok error needs_confirmation denied : RequestOutcome

pub data WriteStatus : Type 0 where
  preview confirmed executed failed expired mismatch denied : WriteStatus

pub data CommitStatus : Type 0 where
  ok failed skipped : CommitStatus

-- `Omit<LogEntry, 'ts'>`
pub record LogEntry : Type 0 where
  pub tool_id : String
  pub kind : CommandKind
  pub command : Text
  pub args_json : Args
  pub outcome : RequestOutcome
  pub error_code : Option String
  pub error_msg : Option Text
  pub duration_ms : ℕ
  pub output : Option Text
  pub requested_at : Option ℕ
  pub responded_at : Option ℕ
  pub send_at : Option ℕ
  pub recv_at : Option ℕ
  pub connect_ms : Option ℕ

-- `Omit<WriteAuditEntry, 'ts'>`
pub record WriteAuditEntry : Type 0 where
  pub request_id : Option ℕ
  pub tool_id : String
  pub command : Text
  pub status : WriteStatus
  pub success : Option Bool
  pub before_snapshot : Option Text
  pub after_snapshot : Option Text
  pub error_code : Option String
  pub error_msg : Option Text
  pub commit_status : Option CommitStatus

-- A row: its id, its time stamp and the entry as it was inserted.
pub record RequestRow : Type 0 where
  pub id : ℕ
  pub ts : ℕ
  pub entry : LogEntry

pub record AuditRow : Type 0 where
  pub id : ℕ
  pub ts : ℕ
  pub entry : WriteAuditEntry

-- `inserts n` is the row id that the statement number n gives, and `none` if it throws.
pub record Database : Type 0 where
  pub requests : List RequestRow
  pub audits : List AuditRow
  pub statements : ℕ
  pub inserts : ℕ → Option ℕ

-- `db` is `null` if the file could not be opened, and after `close`.
pub record LogStore : Type 0 where
  pub db : Option Database

abbrev pub output_limit : ℕ
output_limit = 4000

unfoldable pub truncate : Text → Text
unfolding take lit
truncate text =
    if ltb output_limit (length text)
    then take output_limit text ++ lit "\n...[truncated]"
    else text

-- `text ? truncate(text) : null`
abbrev pub stored_text : Option Text → Option Text
stored_text none = none
stored_text (some []) = none
stored_text (some (c ∷ s)) = some (truncate (c ∷ s))

-- What `request` and `logRequest` make of an entry.
abbrev pub request_row : ℕ → ℕ → LogEntry → RequestRow
request_row id now e = record {
  id = id;
  ts = now;
  entry = record e {
    output = stored_text e.output;
    requested_at = some (get_or e.requested_at now);
    responded_at = some (get_or e.responded_at now);
  };
}

abbrev pub audit_row : ℕ → ℕ → WriteAuditEntry → AuditRow
audit_row id now e = record {
  id = id;
  ts = now;
  entry = record e {
    before_snapshot = stored_text e.before_snapshot;
    after_snapshot = stored_text e.after_snapshot;
  };
}

abbrev tried : Database → Database
tried d = record d { statements = suc d.statements }

-- The statement of `logRequest`, by its row id.
request_inserted : ℕ → LogEntry → Database → Option ℕ → Option ℕ × Database
request_inserted now e d none = (none, tried d)
request_inserted now e d (some id) =
    (some id, record (tried d) { requests = d.requests ++ request_row id now e ∷ [] })

insert_request : ℕ → LogEntry → Database → Option ℕ × Database
unfolding request_inserted
insert_request now e d = request_inserted now e d (d.inserts d.statements)

-- The statement of `logWriteAudit`, by its row id.
audit_inserted : ℕ → WriteAuditEntry → Database → Option ℕ → Database
audit_inserted now e d none = tried d
audit_inserted now e d (some id) = record (tried d) { audits = d.audits ++ audit_row id now e ∷ [] }

insert_audit : ℕ → WriteAuditEntry → Database → Database
unfolding audit_inserted
insert_audit now e d = audit_inserted now e d (d.inserts d.statements)

in_store : Option ℕ × Database → Option ℕ × LogStore
in_store (id, d) = (id, record { db = some d })

request_in : ℕ → LogEntry → Option Database → Option ℕ × LogStore
unfolding insert_request in_store
request_in now e none = (none, record { db = none })
request_in now e (some d) = in_store (insert_request now e d)

-- `request` and `logRequest`
unfoldable pub request : ℕ → LogEntry → LogStore → Option ℕ × LogStore
unfolding request_in
request now e s = request_in now e s.db

write_audit_in : ℕ → WriteAuditEntry → Option Database → LogStore
unfolding insert_audit
write_audit_in now e none = record { db = none }
write_audit_in now e (some d) = record { db = some (insert_audit now e d) }

-- `writeAudit` and `logWriteAudit`
unfoldable pub write_audit : ℕ → WriteAuditEntry → LogStore → LogStore
unfolding write_audit_in
write_audit now e s = write_audit_in now e s.db

unfoldable pub close : LogStore → LogStore
close s = record { db = none }

-- `logWriteOutcome` of src/commands/tool-log.ts
unfoldable pub log_write_outcome :
    ℕ → LogEntry → WriteAuditEntry → Bool → LogStore → Option ℕ × LogStore
unfolding request write_audit
log_write_outcome now e audit link_request s =
    let (request_id, s') = request now e s in
    (
      request_id,
      write_audit now (record audit { request_id = if link_request then request_id else none }) s',
    )
