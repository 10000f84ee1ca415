-- ===== src/Storage/Events.antt =====
-- The verification events of packages/storage-sqlite/src/sqlite-storage.ts. A page is given in the rows,
-- before `#event` reads each.
pub mod Pages
use tesserra.Prelude.{
  ℕ, suc, Bool, true, false, not, ◌&&◌, ◌||◌, Option, none, some, List, [], ◌∷◌, ◌+◌, if◌then◌else◌,
  length, leb, some_of, filter, last?, map, sort_by, Text, codes, text_eq,
}
use tesserra.Prelude.Int.{ℤ, pos, negsuc}
use tesserra.Json.{Json, string, array, of_items, is_some}
use tesserra.Storage.Engine.{Engine, sql_lt}
use tesserra.Storage.Guards.{assert_redacted}
use tesserra.Storage.Keys.{print_optional}
use tesserra.Storage.Records.{EventDecision, VerificationEventRecord, EventRow, Store}
use tesserra.Storage.Result.{Result, ok, ◌>>=◌, ◌>>◌, throw_if, constraint}
use tesserra.Storage.Rows.{take}
use tesserra.Storage.Trust.{get_trust_snapshot}

-- json(values), of texts
abbrev pub print_texts : Engine → List Text → Text
print_texts e values = e.stringify (array (of_items (map string values)))

abbrev pub event_row : Engine → VerificationEventRecord → EventRow
event_row e event = record {
  id = event.id;
  occurred_at = event.occurred_at;
  decision = event.decision;
  primary_code = event.primary_code;
  secondary_codes_json = print_texts e event.secondary_codes;
  artifact_digest = event.artifact_digest;
  evidence_ids_json = print_texts e event.evidence_ids;
  trust_snapshot_id = event.trust_snapshot_id;
  policy_hash = event.policy_hash;
  trust_sequence = event.trust_sequence;
  status_hash = event.status_hash;
  redacted_evidence_json = print_optional e event.redacted_evidence;
}

abbrev pub knows_snapshot : Option Text → Store → Bool
knows_snapshot none s = true
knows_snapshot (some id) s = is_some (get_trust_snapshot id s)

abbrev pub has_event_id : Text → EventRow → Bool
has_event_id id row = text_eq row.id id

-- recordVerificationEvent(event)
unfoldable pub record_verification_event : Engine → VerificationEventRecord → Store → Result Store
record_verification_event e event s = do
  assert_redacted event.redacted_evidence
  throw_if
      (some_of (has_event_id event.id) s.events || not (knows_snapshot event.trust_snapshot_id s))
      constraint
  ok (record s { events = event_row e event ∷ s.events })

pub record VerificationEventFilter : Type 0 where
  pub limit : Option ℤ
  pub after_id : Option Text
  pub decision : Option EventDecision
  pub trust_snapshot_id : Option Text

-- Math.min(Math.max(filter.limit ?? 50, 1), 200)
unfoldable pub page_limit : Option ℤ → ℕ
page_limit none = 50
page_limit (some (pos n)) = if leb n 1 then 1 else if leb 200 n then 200 else n
page_limit (some (negsuc n)) = 1

abbrev pub decision_text : EventDecision → Text
decision_text EventDecision.verified = codes "verified"
decision_text EventDecision.rejected = codes "rejected"

abbrev pub comes_after : Option Text → EventRow → Bool
comes_after none row = true
comes_after (some id) row = sql_lt row.id id

abbrev pub has_decision : Option EventDecision → EventRow → Bool
has_decision none row = true
has_decision (some decision) row = text_eq (decision_text row.decision) (decision_text decision)

abbrev pub is_under : Option Text → EventRow → Bool
is_under none row = true
is_under (some id) row = elim row.trust_snapshot_id [ none ↦ false | some other ↦ text_eq other id ]

-- The clauses of WHERE, joined.
unfoldable pub meets : VerificationEventFilter → EventRow → Bool
meets f row =
    comes_after f.after_id row && has_decision f.decision row && is_under f.trust_snapshot_id row

pub record VerificationEventPage : Type 0 where
  pub items : List EventRow
  pub next_after_id : Option Text

abbrev pub id_of : Option EventRow → Option Text
id_of none = none
id_of (some row) = some row.id

-- The page, of a limit and one row more than the limit, as far as there are.
unfoldable pub page_of : ℕ → List EventRow → VerificationEventPage
page_of limit rows =
    let items = take limit rows in
    record {
      items = items;
      next_after_id = if leb (length rows) limit then none else id_of (last? items);
    }

-- ORDER BY id DESC
abbrev pub newest_first : List EventRow → List EventRow
newest_first rows = sort_by (λ left right. not (sql_lt left.id right.id)) rows

-- listVerificationEvents(filter)
unfoldable pub list_verification_events : VerificationEventFilter → Store → VerificationEventPage
list_verification_events f s =
    let limit = page_limit f.limit in
    page_of limit (take (suc limit) (newest_first (filter (meets f) s.events)))
