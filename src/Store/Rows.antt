-- ===== src/Store/Rows.antt =====
-- The updates that the statements of src/store/postgres/outbox.rs make on one row, and `UPDATE …
-- WHERE` over the table. Attempts stay far below the bound of their `INTEGER` columns.
pub mod Index
use xrelease.Base.{
  ℕ, suc, ◌+◌, ◌-◌, ◌^◌, String, Bool, true, ◌&&◌, not, Option, none, some, List, [], ◌∷◌, ◌==◌,
  ltb, leb, max, str_eq, if◌then◌else◌,
}
use xrelease.Notify.Event.{Event}
use xrelease.Store.Tables.{
  Status, pending, failed, sent, dead, is_retryable, is_sent, Message, SinkRow, OutboxRow,
  OutboxRecord, OutboxMeta,
}

abbrev pub outbox_max_attempts : ℕ
outbox_max_attempts = 50

abbrev pub outbox_lease_secs : ℕ
outbox_lease_secs = 300

-- `i64::MAX`
abbrev pub i64_max : ℕ
i64_max = 2 ^ 63 - 1

-- `UPDATE … SET f WHERE p`
unfoldable pub update_where :
    (OutboxRow → Bool) → (OutboxRow → OutboxRow) → List OutboxRow → List OutboxRow
update_where p f [] = []
update_where p f (r ∷ rows) = (if p r then f r else r) ∷ update_where p f rows

unfoldable pub find_where : (OutboxRow → Bool) → List OutboxRow → Option OutboxRow
find_where p [] = none
find_where p (r ∷ rows) = if p r then some r else find_where p rows

abbrev pub has_id : ℕ → OutboxRow → Bool
has_id id r = r.id == id

abbrev pub has_key : String → String → OutboxRow → Bool
has_key source_id identity r = str_eq r.source_id source_id && str_eq r.identity identity

-- `at IS NULL OR at < now()`
abbrev pub lease_free : Option ℕ → ℕ → Bool
lease_free none now = true
lease_free (some at) now = ltb at now

-- `at IS NULL OR at <= now()`
abbrev pub due : Option ℕ → ℕ → Bool
due none now = true
due (some at) now = leb at now

abbrev pub open_for_claim : OutboxRow → ℕ → Bool
open_for_claim r now =
    is_retryable r.status && (lease_free r.locked_until now && due r.deliver_after now)

-- The condition of `claim_outbox_batch`.
abbrev pub claimable : OutboxRow → ℕ → Bool
claimable r now = ltb r.attempts outbox_max_attempts && open_for_claim r now

abbrev pub lock : ℕ → OutboxRow → OutboxRow
lock until r = record r { locked_until = some until }

unfoldable pub record_of : OutboxRow → OutboxRecord
record_of r = record {
  id = r.id;
  source_id = r.source_id;
  identity = r.identity;
  content_digest = r.content_digest;
  display_tag = r.display_tag;
  published_at = r.published_at;
  title = r.title;
  body = r.body;
  url = r.url;
  routing_tag = r.routing_tag;
  source_kind = r.source_kind;
  attempts = r.attempts;
  deliver_after = r.deliver_after;
}

-- `CASE WHEN attempts + 1 >= $max THEN 'dead' ELSE 'failed' END`
abbrev pub failed_status : ℕ → Status
failed_status attempts = if leb outbox_max_attempts (attempts + 1) then dead else failed

abbrev pub fail_row : Message → OutboxRow → OutboxRow
fail_row error r = record r {
  status = failed_status r.attempts;
  attempts = r.attempts + 1;
  last_error = some error;
}

abbrev pub complete_row : ℕ → OutboxRow → OutboxRow
complete_row now r = record r { status = sent; last_error = none; sent_at = some now }

-- `status = 'pending', attempts = 0, last_error = NULL, sent_at = NULL` of a ledger row
abbrev pub reset_sink : SinkRow → SinkRow
reset_sink s = record s { status = pending; attempts = 0; last_error = none; sent_at = none }

abbrev pub complete_sink : ℕ → SinkRow → SinkRow
complete_sink now s = record s { status = sent; last_error = none; sent_at = some now }

abbrev pub fail_sink : Message → SinkRow → SinkRow
fail_sink error s = record s {
  status = failed_status s.attempts;
  attempts = s.attempts + 1;
  last_error = some error;
}

abbrev pub abandon_sink : Message → SinkRow → SinkRow
abandon_sink error s = record s {
  status = dead;
  attempts = max s.attempts outbox_max_attempts;
  last_error = some error;
}

-- `UPDATE notification_sink_delivery … SET f WHERE p` within one outbox row
unfoldable pub update_sinks : (SinkRow → Bool) → (SinkRow → SinkRow) → List SinkRow → List SinkRow
update_sinks p f [] = []
update_sinks p f (s ∷ sinks) = (if p s then f s else s) ∷ update_sinks p f sinks

unfoldable pub count_sinks : (SinkRow → Bool) → List SinkRow → ℕ
count_sinks p [] = 0
count_sinks p (s ∷ sinks) = let n = count_sinks p sinks in if p s then suc n else n

-- `INSERT … ON CONFLICT (outbox_id, sink_index) DO NOTHING`, kept in the order of `sink_index`
unfoldable pub insert_sink : ℕ → String → List SinkRow → List SinkRow
insert_sink index kind [] =
    record {
      sink_index = index;
      sink_kind = kind;
      status = pending;
      attempts = 0;
      last_error = none;
      sent_at = none;
    }
    ∷ []
insert_sink index kind (s ∷ sinks) =
    let rest = insert_sink index kind sinks in
    if s.sink_index == index
    then s ∷ sinks
    else if ltb index s.sink_index
    then record {
      sink_index = index;
      sink_kind = kind;
      status = pending;
      attempts = 0;
      last_error = none;
      sent_at = none;
    }
      ∷ s
      ∷ sinks
    else s ∷ rest

unfoldable pub insert_sinks : List (ℕ × String) → List SinkRow → List SinkRow
insert_sinks [] sinks = sinks
insert_sinks ((index, kind) ∷ more) sinks = insert_sinks more (insert_sink index kind sinks)

-- `status IN ('pending', 'failed') AND attempts < $max`
abbrev pub needs_delivery : SinkRow → Bool
needs_delivery s = is_retryable s.status && ltb s.attempts outbox_max_attempts

unfoldable pub pending_indices : List SinkRow → List ℕ
pending_indices [] = []
pending_indices (s ∷ sinks) =
    let rest = pending_indices sinks in if needs_delivery s then s.sink_index ∷ rest else rest

-- A new row of the table.
abbrev pub new_row : ℕ → Event → String → OutboxMeta → ℕ → OutboxRow
new_row id event identity meta now = record {
  id = id;
  source_id = event.source_id;
  identity = identity;
  content_digest = meta.content_digest;
  display_tag = meta.display_tag;
  published_at = meta.published_at;
  title = event.title;
  body = event.body;
  url = event.url;
  routing_tag = event.routing_tag;
  source_kind = event.source_kind;
  status = pending;
  attempts = 0;
  last_error = none;
  created_at = now;
  sent_at = none;
  locked_until = none;
  deliver_after = meta.deliver_after;
  sinks = [];
}

-- A `sent` row opened again for changed content: `sent_at` and `locked_until` stay.
abbrev pub reopen_row : Event → OutboxMeta → OutboxRow → OutboxRow
reopen_row event meta r = record r {
  status = pending;
  content_digest = meta.content_digest;
  display_tag = meta.display_tag;
  published_at = meta.published_at;
  title = event.title;
  body = event.body;
  url = event.url;
  routing_tag = event.routing_tag;
  source_kind = event.source_kind;
  deliver_after = meta.deliver_after;
  attempts = 0;
  last_error = none;
  sinks = update_sinks (λ s. true) reset_sink r.sinks;
}

-- A `dead` row for another delivery round: the sinks that have the event keep it.
abbrev pub requeue_row : OutboxRow → OutboxRow
requeue_row r = record r {
  status = pending;
  attempts = 0;
  last_error = none;
  locked_until = none;
  sinks = update_sinks (λ s. not (is_sent s.status)) reset_sink r.sinks;
}
