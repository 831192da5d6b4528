-- ===== src/Store/Enqueue.antt =====
-- `try_enqueue_notification` of src/store/postgres/outbox.rs.
pub mod Keys
use xrelease.Base.{
  ℕ, ◌+◌, String, Bool, true, false, Option, none, some, [], ◌∷◌, ◌++◌, ◌&&◌, if◌then◌else◌,
}
use xrelease.Notify.Event.{Event}
use xrelease.World.{Action, pure, ask, statement, query, ◌>>=◌}
use xrelease.Store.Tables.{
  Status, pending, failed, sent, dead, is_sent, OutboxRow, OutboxMeta, EnqueueOutcome, Tables,
  option_eq,
}
use xrelease.Store.Rows.{update_where, find_where, has_id, has_key, due, new_row, reopen_row}

-- `INSERT … ON CONFLICT (source_id, identity) DO NOTHING RETURNING id`; the sequence advances
-- either way.
unfoldable pub insert_notification : Event → String → OutboxMeta → ℕ → Tables → Tables × Option ℕ
insert_notification event identity meta now t =
    elim (find_where (has_key event.source_id identity) t.outbox) [
      | some _ ↦ (record t { next_id = t.next_id + 1 }, none)
      | none ↦ (
        record t {
          outbox = t.outbox ++ new_row t.next_id event identity meta now ∷ [];
          next_id = t.next_id + 1;
        },
        some t.next_id,
      )
    ]

abbrev pub is_reopened : ℕ → OutboxRow → Bool
is_reopened id r = has_id id r && is_sent r.status

-- The transaction that opens a `sent` row again with its ledger; the flag is `updated != 0`.
unfoldable pub reopen : ℕ → Event → OutboxMeta → ℕ → Tables → Tables × Bool
reopen id event meta now t = elim (find_where (is_reopened id) t.outbox) [
  | none ↦ (t, false)
  | some _ ↦
      (record t { outbox = update_where (is_reopened id) (reopen_row event meta) t.outbox }, true)
]

after_reopen : ℕ → Bool → Bool → Option EnqueueOutcome
after_reopen id deliver_now updated =
    if updated then some (record { id = id; deliver_now = deliver_now; created = true }) else none

-- The `match status.as_str()` over the existing row.
unfoldable pub enqueue_existing :
    Event → OutboxMeta → Bool → OutboxRow → Status → Action (Option EnqueueOutcome)
unfolding after_reopen
enqueue_existing event meta deliver_now row pending =
    pure (some (record { id = row.id; deliver_now = false; created = false }))
enqueue_existing event meta deliver_now row failed =
    pure (some (record { id = row.id; deliver_now = false; created = false }))
enqueue_existing event meta deliver_now row sent =
    if option_eq row.content_digest meta.content_digest then pure none else do
      updated ← statement (reopen row.id event meta)
      pure (after_reopen row.id deliver_now updated)
enqueue_existing event meta deliver_now row dead = pure none

unfoldable pub enqueue_found :
    Event → OutboxMeta → Bool → Option OutboxRow → Action (Option EnqueueOutcome)
enqueue_found event meta deliver_now none = pure none
enqueue_found event meta deliver_now (some row) =
    enqueue_existing event meta deliver_now row row.status

unfoldable pub enqueue_conflicting :
    Event → String → OutboxMeta → Bool → Option ℕ → Action (Option EnqueueOutcome)
unfolding enqueue_found
enqueue_conflicting event identity meta deliver_now (some id) =
    pure (some (record { id = id; deliver_now = deliver_now; created = true }))
enqueue_conflicting event identity meta deliver_now none = do
  row ← query (λ now t. find_where (has_key event.source_id identity) t.outbox)
  enqueue_found event meta deliver_now row

unfoldable pub try_enqueue_notification :
    Event → String → OutboxMeta → Action (Option EnqueueOutcome)
try_enqueue_notification event identity meta = do
  deliver_now ← ask (λ w. due meta.deliver_after w.now)
  inserted ← statement (insert_notification event identity meta)
  enqueue_conflicting event identity meta deliver_now inserted
