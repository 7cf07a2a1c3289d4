-- ===== src/Log/Rows.antt =====
-- What the log keeps (src/db/log.ts).
use vigor3912s_mcp.Common.{
  ℕ, zero, suc, ◌≤◌, ◌≡◌, refl, ap, ◌∙◌, ◌⊎◌, Bool, true, false, ◌||◌, Option, none, some, List, [],
  ◌∷◌, ◌++◌, arith, Text, lit, ltb, eqb, if◌then◌else◌, length, length-append, take, All,
  All-append, All-map, Bool-cases, inl, inr,
}
use vigor3912s_mcp.Log.{
  LogEntry, WriteAuditEntry, RequestRow, AuditRow, Database, LogStore, output_limit, truncate,
  stored_text, request_row, audit_row, request_inserted, insert_request, audit_inserted,
  insert_audit, in_store, request_in, request, write_audit_in, write_audit, log_write_outcome,
}

length-take : (n : ℕ) (s : Text) → length (take n s) ≤ n
unfolding take
length-take zero s = omega arith
length-take (suc n) [] = omega arith
length-take (suc n) (c ∷ s) = omega (arith, length-take n s)

-- The limit and the mark of a cut text.
abbrev pub stored_limit : ℕ
stored_limit = 4015

pub length-truncate : (s : Text) → length (truncate s) ≤ stored_limit
unfolding truncate lit
length-truncate s = elim (Bool-cases (ltb output_limit (length s))) [
  | inl long ↦ rw long (
      omega (
        arith,
        length-append (take output_limit s) (lit "\n...[truncated]"),
        length-take output_limit s,
      ))
  | inr short ↦ rw short (ground arith)
]

-- A stored text is within the limit.
abbrev pub Fits : Option Text → Type 0
Fits none = Unit
Fits (some s) = length s ≤ stored_limit

stored_text-Fits : (o : Option Text) → Fits (stored_text o)
stored_text-Fits none = tt
stored_text-Fits (some []) = tt
stored_text-Fits (some (c ∷ s)) = length-truncate (c ∷ s)

-- Some stored request has the id.
abbrev pub has_id : ℕ → List RequestRow → Bool
has_id id [] = false
has_id id (r ∷ rows) = eqb r.id id || has_id id rows

abbrev pub LinksTo : List RequestRow → Option ℕ → Type 0
LinksTo rows none = Unit
LinksTo rows (some id) = has_id id rows ≡ true

-- What a database keeps: bounded outputs and snapshots, and audits that name stored requests.
pub record Kept (d : Database) : Type 0 where
  pub requests : All (λ r. Fits r.entry.output) d.requests
  pub audits :
      All
        (λ a.
          Fits a.entry.before_snapshot
          × Fits a.entry.after_snapshot
          × LinksTo d.requests a.entry.request_id)
        d.audits

-- The audits that a call adds: none, or one that names the given request.
abbrev pub Added : Option ℕ → Database → Database → Type 0
Added link before after =
    (after.audits ≡ before.audits)
    ⊎ ((a : AuditRow) × (after.audits ≡ before.audits ++ a ∷ []) × (a.entry.request_id ≡ link))

abbrev pub StoreKept : Option Database → Type 0
StoreKept none = Unit
StoreKept (some d) = Kept d

abbrev pub StoreAdded : Option ℕ → Option Database → Option Database → Type 0
StoreAdded link (some before) (some after) = Added link before after
StoreAdded link before after = before ≡ after

has_id-append :
    (id : ℕ) (rows : List RequestRow) (r : RequestRow)
    → has_id id rows ≡ true
    → has_id id (rows ++ r ∷ []) ≡ true
has_id-append id [] r h = cc
has_id-append id (x ∷ rows) r h = ground (arith, has_id-append id rows r)

has_id-last : (rows : List RequestRow) (r : RequestRow) → has_id r.id (rows ++ r ∷ []) ≡ true
has_id-last [] r = ground arith
has_id-last (x ∷ rows) r = ground (arith, has_id-last rows r)

LinksTo-append :
    (rows : List RequestRow) (r : RequestRow) (o : Option ℕ)
    → LinksTo rows o
    → LinksTo (rows ++ r ∷ []) o
LinksTo-append rows r none h = tt
LinksTo-append rows r (some id) h = has_id-append id rows r h

-- The id that a request gives is the id of a stored request.
request_inserted-Kept :
    (now : ℕ) (e : LogEntry) (d : Database) (o : Option ℕ)
    → Kept d
    → Kept (request_inserted now e d o).1
      × LinksTo (request_inserted now e d o).1.requests (request_inserted now e d o).0
      × ((request_inserted now e d o).1.audits ≡ d.audits)
unfolding request_inserted
request_inserted-Kept now e d none kept =
    (record { requests = kept.requests; audits = kept.audits }, tt, refl)
request_inserted-Kept now e d (some id) kept =
    let row = request_row id now e in
    (
      record {
        requests = All-append _ d.requests kept.requests (stored_text-Fits e.output);
        audits =
            All-map _ _ d.audits
              (λ a h. (h.0, h.1, LinksTo-append d.requests row a.entry.request_id h.2)) kept.audits;
      },
      has_id-last d.requests row,
      refl,
    )

audit_inserted-Kept :
    (now : ℕ) (e : WriteAuditEntry) (d : Database) (o : Option ℕ)
    → LinksTo d.requests e.request_id
    → Kept d
    → Kept (audit_inserted now e d o) × Added e.request_id d (audit_inserted now e d o)
unfolding audit_inserted
audit_inserted-Kept now e d none links kept =
    (record { requests = kept.requests; audits = kept.audits }, inl refl)
audit_inserted-Kept now e d (some id) links kept = (
  record {
    requests = kept.requests;
    audits =
        All-append _ d.audits kept.audits
          (stored_text-Fits e.before_snapshot, stored_text-Fits e.after_snapshot, links);
  },
  inr (audit_row id now e, refl, refl),
)

Added-same :
    (link : Option ℕ) (before same_audits after : Database)
    → same_audits.audits ≡ before.audits
    → Added link same_audits after
    → Added link before after
Added-same link before same_audits after same (inl none_added) = inl (none_added ∙ same)
Added-same link before same_audits after same (inr (a, added, names)) =
    inr (a, added ∙ ap (λ rows. rows ++ a ∷ []) same, names)

abbrev pub linked : Bool → Option ℕ → Option ℕ
linked link id = if link then id else none

linked-LinksTo :
    (rows : List RequestRow) (link : Bool) (id : Option ℕ)
    → LinksTo rows id
    → LinksTo rows (linked link id)
linked-LinksTo rows true id h = h
linked-LinksTo rows false id h = tt

-- Logging the outcome of a write, whichever statements fail: every stored output and snapshot stays
-- within the limit, and every audit that names a request names the id of a stored one. At most one
-- audit is added, and it names the row id that the request of this call got if it is to be linked,
-- and else none.
pub log_write_outcome-Kept :
    (now : ℕ) (entry : LogEntry) (audit : WriteAuditEntry) (link_request : Bool) (s : LogStore)
    → StoreKept s.db
    → StoreKept (log_write_outcome now entry audit link_request s).1.db
      × StoreAdded
          (linked link_request (log_write_outcome now entry audit link_request s).0)
          s.db
          (log_write_outcome now entry audit link_request s).1.db
unfolding log_write_outcome request request_in in_store write_audit write_audit_in insert_request
    insert_audit
log_write_outcome-Kept now entry audit link_request s kept = go s.db kept
  where
    go :
        (o : Option Database)
        → StoreKept o
        → StoreKept (log_write_outcome now entry audit link_request (record { db = o })).1.db
          × StoreAdded
              (linked link_request
                (log_write_outcome now entry audit link_request (record { db = o })).0)
              o
              (log_write_outcome now entry audit link_request (record { db = o })).1.db
    go none kept = (tt, refl)
    go (some d) kept =
        let (requested, links, same) =
          request_inserted-Kept now entry d (d.inserts d.statements) kept in
        let after = (request_inserted now entry d (d.inserts d.statements)).1 in
        let id = (request_inserted now entry d (d.inserts d.statements)).0 in
        let (kept', added) =
          audit_inserted-Kept now (record audit { request_id = linked link_request id }) after
            (after.inserts after.statements) (linked-LinksTo after.requests link_request id links)
            requested in
        (
          kept',
          Added-same (linked link_request id) d after
              (audit_inserted now (record audit { request_id = linked link_request id }) after
                (after.inserts after.statements))
              same added,
        )
