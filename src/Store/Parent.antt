-- ===== src/Store/Parent.antt =====
-- The status of an outbox row, in src/store/postgres/outbox.rs and in `write_seen_row` of
-- src/store/postgres/mod.rs.
pub mod Recovery
use xrelease.Base.{
  ℕ, suc, String, Bool, true, false, not, ◌&&◌, ◌||◌, Option, none, some, List, [], ◌∷◌, ◌==◌, ltb,
  leb, str_eq, if◌then◌else◌,
}
use xrelease.World.{Action, pure, statement, query, ◌>>=◌}
use xrelease.Store.Tables.{
  failed, dead, is_retryable, is_sent, is_dead, Message, SinkRow, OutboxRow, SeenUpsert, SeenRow,
  Tables, coalesce,
}
use xrelease.Store.Tables.Message.{partial_failure}
use xrelease.Store.Rows.{
  outbox_max_attempts, update_where, find_where, has_id, fail_row, complete_row, requeue_row,
  count_sinks,
}
use xrelease.Store.Ledger.{ledger_of}

abbrev new_seen : String → SeenUpsert → ℕ → SeenRow
new_seen source_id item now = record {
  source_id = source_id;
  identity = item.identity;
  display_tag = item.display_tag;
  first_seen_at = now;
  content_digest = item.content_digest;
  published_at = item.published_at;
  url = item.url;
}

-- `ON CONFLICT (source_id, identity) DO UPDATE`
abbrev merge_seen : SeenUpsert → SeenRow → SeenRow
merge_seen item row = record row {
  display_tag = coalesce item.display_tag row.display_tag;
  content_digest = item.content_digest;
  published_at = coalesce row.published_at item.published_at;
  url = coalesce row.url item.url;
}

abbrev pub is_seen_as : String → String → SeenRow → Bool
is_seen_as source_id identity row = str_eq row.source_id source_id && str_eq row.identity identity

unfoldable pub upsert_seen : String → SeenUpsert → ℕ → List SeenRow → List SeenRow
upsert_seen source_id item now [] = new_seen source_id item now ∷ []
upsert_seen source_id item now (row ∷ rows) =
    let rest = upsert_seen source_id item now rows in
    if is_seen_as source_id item.identity row then merge_seen item row ∷ rows else row ∷ rest

-- The condition of `complete_notification`.
abbrev pub is_open : ℕ → OutboxRow → Bool
is_open id r = has_id id r && is_retryable r.status

-- The transaction that marks the row `sent` and records its release as seen.
unfoldable pub complete_tables : ℕ → String → SeenUpsert → ℕ → Tables → Tables × Bool
complete_tables id source_id seen now t = elim (find_where (is_open id) t.outbox) [
  | none ↦ (t, false)
  | some _ ↦ (
    record t {
      outbox = update_where (is_open id) (complete_row now) t.outbox;
      seen = upsert_seen source_id seen now t.seen;
    },
    true,
  )
]

unfoldable pub complete_notification : ℕ → String → SeenUpsert → Action Bool
complete_notification id source_id seen = statement (complete_tables id source_id seen)

-- `status == "dead" && attempts == OUTBOX_MAX_ATTEMPTS` of the updated row
abbrev pub crosses_cap : Option OutboxRow → Bool
crosses_cap none = false
crosses_cap (some r) = is_dead r.status && r.attempts == outbox_max_attempts

unfoldable pub fail_tables : ℕ → Message → ℕ → Tables → Tables × Bool
fail_tables id error now t =
    let outbox = update_where (has_id id) (fail_row error) t.outbox in
    (record t { outbox = outbox }, crosses_cap (find_where (has_id id) outbox))

unfoldable pub fail_notification : ℕ → Message → Action Bool
fail_notification id error = statement (fail_tables id error)

-- The three counts that `sync_outbox_sink_status` decides by.
pub record LedgerCounts : Type 0 where
  pub total : ℕ
  pub dead_count : ℕ
  pub retryable : ℕ
  pub unsent : ℕ

unfoldable pub ledger_counts : List SinkRow → LedgerCounts
ledger_counts sinks = record {
  total = count_sinks (λ s. true) sinks;
  dead_count = count_sinks (λ s. is_dead s.status) sinks;
  retryable = count_sinks (λ s. is_retryable s.status) sinks;
  unsent = count_sinks (λ s. not (is_sent s.status)) sinks;
}

abbrev pub not_dead : ℕ → OutboxRow → Bool
not_dead id r = has_id id r && not (is_dead r.status)

abbrev mark_dead : OutboxRow → OutboxRow
mark_dead r = record r { status = dead }

abbrev mark_partial : OutboxRow → OutboxRow
mark_partial r = record r { status = failed; last_error = some partial_failure }

unfoldable pub set_dead : ℕ → ℕ → Tables → Tables × Bool
set_dead id now t = elim (find_where (not_dead id) t.outbox) [
  | none ↦ (t, false)
  | some _ ↦ (record t { outbox = update_where (not_dead id) mark_dead t.outbox }, true)
]

unfoldable pub set_partial : ℕ → ℕ → Tables → Tables × Bool
set_partial id now t =
    (record t { outbox = update_where (is_open id) mark_partial t.outbox }, false)

unfoldable pub sync_by_counts : ℕ → LedgerCounts → Action Bool
sync_by_counts id c =
    if c.total == 0 || c.unsent == 0
    then pure false
    else if c.retryable == 0 && ltb 0 c.dead_count
    then statement (set_dead id)
    else statement (set_partial id)

unfoldable pub sync_outbox_sink_status : ℕ → Action Bool
sync_outbox_sink_status id = do
  counts ← query (λ now t. ledger_counts (ledger_of id t))
  sync_by_counts id counts

unfoldable pub count_rows : (OutboxRow → Bool) → List OutboxRow → ℕ
count_rows p [] = 0
count_rows p (r ∷ rows) = let n = count_rows p rows in if p r then suc n else n

abbrev is_dead_row : OutboxRow → Bool
is_dead_row r = is_dead r.status

unfoldable pub requeue_tables : ℕ → Tables → Tables × ℕ
requeue_tables now t = (
  record t { outbox = update_where is_dead_row requeue_row t.outbox },
  count_rows is_dead_row t.outbox,
)

unfoldable pub requeue_dead_outbox : Action ℕ
requeue_dead_outbox = statement requeue_tables

abbrev pub is_exhausted : OutboxRow → Bool
is_exhausted r = is_retryable r.status && leb outbox_max_attempts r.attempts

unfoldable pub finalize_tables : ℕ → Tables → Tables × ℕ
finalize_tables now t = (
  record t { outbox = update_where is_exhausted mark_dead t.outbox },
  count_rows is_exhausted t.outbox,
)

unfoldable pub finalize_exhausted_outbox : Action ℕ
finalize_exhausted_outbox = statement finalize_tables
