-- ===== src/Store/Ledger.antt =====
-- The per-sink delivery ledger of src/store/postgres/outbox.rs.
use xrelease.Base.{
  ℕ, ◌-◌, ◌^◌, min, map, String, Bool, true, false, not, ◌&&◌, ◌||◌, none, some, List, [], ◌==◌,
  contains, is_empty, if◌then◌else◌,
}
use xrelease.World.{Action, pure, statement, constrained, query}
use xrelease.Store.Tables.{is_retryable, is_sent, Message, SinkRow, OutboxRow, Tables}
use xrelease.Store.Rows.{
  update_where, find_where, has_id, complete_sink, fail_sink, abandon_sink, update_sinks,
  count_sinks, insert_sinks, pending_indices,
}

-- An update of the ledger rows of one outbox row.
abbrev pub on_sinks : (List SinkRow → List SinkRow) → OutboxRow → OutboxRow
on_sinks f r = record r { sinks = f r.sinks }

abbrev pub update_ledger : ℕ → (List SinkRow → List SinkRow) → Tables → Tables
update_ledger id f t = record t { outbox = update_where (has_id id) (on_sinks f) t.outbox }

-- The ledger rows of an outbox id; there are none for an id that does not exist.
unfoldable pub ledger_of : ℕ → Tables → List SinkRow
ledger_of id t = elim (find_where (has_id id) t.outbox) [ none ↦ [] | some r ↦ r.sinks ]

-- `i32::try_from(index).unwrap_or(i32::MAX)`
abbrev pub to_i32 : ℕ → ℕ
to_i32 index = min index (2 ^ 31 - 1)

abbrev pub to_columns : List (ℕ × String) → List (ℕ × String)
to_columns sinks = map (λ (index, kind). (to_i32 index, kind)) sinks

-- Whether the outbox has the id, as the ledger's foreign key asks.
unfoldable pub has_parent : ℕ → Tables → Bool
has_parent id t = elim (find_where (has_id id) t.outbox) [ none ↦ false | some r ↦ true ]

unfoldable pub ensure_sink_deliveries : ℕ → List (ℕ × String) → Action (Unit {0})
ensure_sink_deliveries id sinks =
    if is_empty sinks
    then pure tt
    else constrained (has_parent id)
        (λ now t. (update_ledger id (insert_sinks (to_columns sinks)) t, tt))

unfoldable pub list_pending_sink_indices : ℕ → Action (List ℕ)
list_pending_sink_indices id = query (λ now t. pending_indices (ledger_of id t))

abbrev pub at_index : ℕ → SinkRow → Bool
at_index index s = s.sink_index == index

unfoldable pub complete_sink_delivery : ℕ → ℕ → Action (Unit {0})
complete_sink_delivery id index =
    statement (λ now t.
      (update_ledger id (update_sinks (at_index (to_i32 index)) (complete_sink now)) t, tt))

unfoldable pub fail_sink_delivery : ℕ → ℕ → Message → Action (Unit {0})
fail_sink_delivery id index error =
    statement
      (λ now t. (update_ledger id (update_sinks (at_index (to_i32 index)) (fail_sink error)) t, tt))

-- Which ledger rows are abandoned: the retryable ones, of the given indices if there are any.
abbrev pub is_abandoned : List ℕ → SinkRow → Bool
is_abandoned indices s =
    (is_empty indices || contains indices s.sink_index) && is_retryable s.status

unfoldable pub abandon_retryable_sinks : ℕ → List ℕ → Message → Action ℕ
abandon_retryable_sinks id indices error =
    let abandoned = is_abandoned (map to_i32 indices) in
    statement (λ now t. (
      update_ledger id (update_sinks abandoned (abandon_sink error)) t,
      count_sinks abandoned (ledger_of id t),
    ))

-- `total == 0 || unsent == 0`
abbrev pub all_sent : List SinkRow → Bool
all_sent sinks =
    count_sinks (λ s. true) sinks == 0 || count_sinks (λ s. not (is_sent s.status)) sinks == 0

unfoldable pub sinks_delivery_complete : ℕ → Action Bool
sinks_delivery_complete id = query (λ now t. all_sent (ledger_of id t))
