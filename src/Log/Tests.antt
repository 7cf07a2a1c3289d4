-- ===== src/Log/Tests.antt =====
-- A concrete log (src/db/log.ts).
use vigor3912s_mcp.Common.{◌≡◌, refl, ◌+◌, true, none, some, [], ◌∷◌}
use vigor3912s_mcp.Registry.{write}
use vigor3912s_mcp.Log.{
  LogEntry, WriteAuditEntry, LogStore, Database, RequestOutcome, WriteStatus, log_write_outcome,
}
use vigor3912s_mcp.Log.Rows.{StoreKept, StoreAdded, linked, log_write_outcome-Kept}

abbrev entry : LogEntry
entry = record {
  tool_id = "sys_reboot";
  kind = write;
  command = 114 ∷ [];
  args_json = [];
  outcome = RequestOutcome.ok;
  error_code = none;
  error_msg = none;
  duration_ms = 3;
  output = some (111 ∷ []);
  requested_at = none;
  responded_at = none;
  send_at = none;
  recv_at = none;
  connect_ms = none;
}

abbrev audit : WriteAuditEntry
audit = record {
  request_id = none;
  tool_id = "sys_reboot";
  command = 114 ∷ [];
  status = WriteStatus.executed;
  success = some true;
  before_snapshot = some (97 ∷ []);
  after_snapshot = some (98 ∷ []);
  error_code = none;
  error_msg = none;
  commit_status = none;
}

-- A database whose row ids count the statements.
abbrev empty : Database
empty = record { requests = []; audits = []; statements = 0; inserts = λ n. some (n + 1) }

abbrev store : LogStore
store = record { db = some empty }

log_write_outcome-Kept_example :
    StoreKept (log_write_outcome 9 entry audit true store).1.db
    × StoreAdded
        (linked true (log_write_outcome 9 entry audit true store).0)
        (some empty)
        (log_write_outcome 9 entry audit true store).1.db
log_write_outcome-Kept_example =
    log_write_outcome-Kept 9 entry audit true store (record { requests = tt; audits = tt })

-- The audit is linked to the row id of its request.
log_write_outcome_test : (log_write_outcome 9 entry audit true store).0 ≡ some 1
unfolding log_write_outcome
log_write_outcome_test = refl
