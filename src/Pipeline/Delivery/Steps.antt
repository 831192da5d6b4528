-- ===== src/Pipeline/Delivery/Steps.antt =====
-- What a delivery attempt does to the tables, whatever the backends answer and whichever statement
-- fails: it is made of the statements below, on the ledger and the status of its own row.
use xrelease.Base.{ℕ, String, Bool, true, false, none, some, List, [], ◌∷◌, refl, is_empty, map}
use xrelease.World.{statement, when, for_each}
use xrelease.World.Relates.{
  Relates, Relates-pure, Relates-ask, Relates-if, Relates-bind, Relates-when, Relates-for_each,
}
use xrelease.World.Over.{IsOrder, Over, Over-statement, Over-constrained, Over-modify}
use xrelease.Notify.Event.{Event}
use xrelease.Notify.Fanout.{Delivery}
use xrelease.Engine.Quiet.{span, walk, notify_partial-Over, emit_ops_alert-Over}
use xrelease.Store.Tables.{Tables, Message, SeenUpsert}
use xrelease.Store.Rows.{
  update_where, has_id, lock, complete_sink, fail_sink, abandon_sink, update_sinks, insert_sinks,
}
use xrelease.Store.Claim.{back_off}
use xrelease.Store.Ledger.{
  update_ledger, at_index, to_i32, to_columns, is_abandoned, ensure_sink_deliveries,
  list_pending_sink_indices, complete_sink_delivery, fail_sink_delivery, abandon_retryable_sinks,
  sinks_delivery_complete,
}
use xrelease.Store.Parent.{
  LedgerCounts, complete_tables, complete_notification, fail_tables, set_dead, set_partial,
  sync_by_counts, sync_outbox_sink_status,
}
use xrelease.Pipeline.Alerts.{
  record_sink_attempt, note_dead_lettered, sync_outbox_status, emit_dead_outbox_alert,
  breaker_alert, emit_breaker_alerts, sync_outbox_status_alert,
}
use xrelease.Pipeline.Delivery.{
  Flags, no_flags, apply_result, apply_results, complete_or_failed, finish, deliver_settled,
  conclude, conclude_complete, abandon_orphans, deliver_indices,
}

-- The statements of a delivery attempt on the row `id` that count no attempt of the row, each
-- related from the tables before it.
pub record Steps (T : Tables → Tables → Type 0) (id : ℕ) (source_id : String) (seen : SeenUpsert)
    : Type 0 where
  pub open_ledger :
      (sinks : List (ℕ × String)) (t : Tables) → T t (update_ledger id (insert_sinks sinks) t)
  pub ack :
      (index now : ℕ) (t : Tables)
      → T t (update_ledger id (update_sinks (at_index index) (complete_sink now)) t)
  pub fault :
      (index : ℕ) (error : Message) (t : Tables)
      → T t (update_ledger id (update_sinks (at_index index) (fail_sink error)) t)
  pub abandon :
      (indices : List ℕ) (error : Message) (t : Tables)
      → T t (update_ledger id (update_sinks (is_abandoned indices) (abandon_sink error)) t)
  pub complete : (now : ℕ) (t : Tables) → T t (complete_tables id source_id seen now t).0
  pub die : (now : ℕ) (t : Tables) → T t (set_dead id now t).0
  pub partial : (now : ℕ) (t : Tables) → T t (set_partial id now t).0
  pub delay :
      (until : ℕ) (t : Tables)
      → T t (record t { outbox = update_where (has_id id) (lock until) t.outbox })

-- The statements that count an attempt of the row itself.
pub record CountingSteps (T : Tables → Tables → Type 0) (id : ℕ) : Type 0 where
  pub fail : (error : Message) (now : ℕ) (t : Tables) → T t (fail_tables id error now t).0
  pub count :
      (until : ℕ) (t : Tables)
      → T t (record t { outbox = update_where (has_id id) (back_off until) t.outbox })

module _ {T : Tables → Tables → Type 0} (order : IsOrder T) {id : ℕ} {source_id : String}
    {seen : SeenUpsert} (steps : Steps T id source_id seen) where
  set_dead-Over : Relates (Over T) (statement (set_dead id))
  set_dead-Over = Over-statement order (set_dead id) steps.die

  set_partial-Over : Relates (Over T) (statement (set_partial id))
  set_partial-Over = Over-statement order (set_partial id) steps.partial

  sync_by_counts-Over : (c : LedgerCounts) → Relates (Over T) (sync_by_counts id c)
  unfolding sync_by_counts
  sync_by_counts-Over c = search (walk, set_dead-Over, set_partial-Over)

  pub when_dead-Over : (dead : Bool) → Relates (Over T) (when dead (note_dead_lettered 1))
  unfolding note_dead_lettered
  when_dead-Over dead = Relates-when (span order) dead _ (Over-modify order _ (λ w. refl))

  sync_outbox_status-Over : Relates (Over T) (sync_outbox_status id)
  unfolding sync_outbox_status sync_outbox_sink_status
  sync_outbox_status-Over = search (walk, sync_by_counts-Over, when_dead-Over)

  pub alert_dead-Over :
      (dead : Bool) (label : String)
      → Relates (Over T) (when dead (emit_dead_outbox_alert id label))
  unfolding emit_dead_outbox_alert
  alert_dead-Over dead label = Relates-when (span order) dead _ (emit_ops_alert-Over order _ _)

  pub sync-Over : (label : String) → Relates (Over T) (sync_outbox_status_alert id label)
  unfolding sync_outbox_status_alert
  sync-Over label = search (walk, sync_outbox_status-Over, alert_dead-Over)

  breaker_alert-Over : (label : String) → Relates (Over T) (breaker_alert label)
  unfolding breaker_alert
  breaker_alert-Over label = emit_ops_alert-Over order _ _

  drained-Over : (labels : List String) → Relates (Over T) (for_each labels breaker_alert)
  drained-Over labels = Relates-for_each (span order) labels breaker_alert breaker_alert-Over

  emit_breaker_alerts-Over : Relates (Over T) emit_breaker_alerts
  unfolding emit_breaker_alerts
  emit_breaker_alerts-Over = Relates-bind (span order) _ _ (Relates-ask (span order) _) (λ labels.
      Relates-bind (span order) _ _ (Over-modify order _ (λ w. refl)) (λ _. drained-Over labels))

  record_sink_attempt-Over :
      (index : ℕ) (result : Delivery) → Relates (Over T) (record_sink_attempt index result)
  unfolding record_sink_attempt
  record_sink_attempt-Over index result = Over-modify order _ (λ w. refl)

  ack-Over : (index : ℕ) → Relates (Over T) (complete_sink_delivery id index)
  unfolding complete_sink_delivery
  ack-Over index = Over-statement order _ (λ now t. steps.ack (to_i32 index) now t)

  fault-Over : (index : ℕ) (error : Message) → Relates (Over T) (fail_sink_delivery id index error)
  unfolding fail_sink_delivery
  fault-Over index error = Over-statement order _ (λ now t. steps.fault (to_i32 index) error t)

  pub abandon-Over :
      (indices : List ℕ) (error : Message)
      → Relates (Over T) (abandon_retryable_sinks id indices error)
  unfolding abandon_retryable_sinks
  abandon-Over indices error =
      Over-statement order _ (λ now t. steps.abandon (map to_i32 indices) error t)

  apply_result-Over :
      (flags : Flags) (index : ℕ) (result : Delivery)
      → Relates (Over T) (apply_result id flags index result)
  unfolding apply_result
  apply_result-Over flags index none = search (walk, ack-Over)
  apply_result-Over flags index (some e) = search (walk, fault-Over)

  apply_results-Over :
      (flags : Flags) (results : List (ℕ × Delivery))
      → Relates (Over T) (apply_results id flags results)
  unfolding apply_results
  apply_results-Over flags [] = search walk
  apply_results-Over flags ((index, result) ∷ results) =
      Relates-bind (span order) _ _ (record_sink_attempt-Over index result) (λ _.
        Relates-bind (span order) _ _ (apply_result-Over flags index result)
          (λ flags'. apply_results-Over flags' results))

  pub complete_or_failed-Over : Relates (Over T) (complete_or_failed id source_id seen)
  unfolding complete_or_failed complete_notification
  complete_or_failed-Over =
      Relates-bind (span order) _ _
        (Over-statement order (complete_tables id source_id seen) steps.complete)
        (λ _. Relates-pure (span order) _)

  conclude_complete-Over :
      (complete : Bool) → Relates (Over T) (conclude_complete id source_id seen complete)
  unfolding conclude_complete
  conclude_complete-Over true = complete_or_failed-Over
  conclude_complete-Over false = search walk

  sinks_complete-Over : Relates (Over T) (sinks_delivery_complete id)
  unfolding sinks_delivery_complete
  sinks_complete-Over = search walk

  conclude-Over : (flags : Flags) → Relates (Over T) (conclude id source_id seen flags)
  unfolding conclude
  conclude-Over flags = search (walk, conclude_complete-Over, sinks_complete-Over)

  orphans-Over :
      (event : Event) (orphans : List ℕ) → Relates (Over T) (abandon_orphans id event orphans)
  unfolding abandon_orphans
  orphans-Over event orphans = search (walk, abandon-Over)

  pub deliver_indices-Over :
      (event : Event) (orphans indices : List ℕ)
      → Relates (Over T) (deliver_indices id event source_id seen orphans indices)
  unfolding deliver_indices
  deliver_indices-Over event orphans indices =
      Relates-bind (span order) _ _ (orphans-Over event orphans) (λ _.
        Relates-bind (span order) _ _ (notify_partial-Over order event indices) (λ results.
          Relates-bind (span order) _ _ emit_breaker_alerts-Over (λ _.
            Relates-bind (span order) _ _ (apply_results-Over no_flags results) (λ flags.
              Relates-bind (span order) _ _ (sync-Over source_id) (λ _. conclude-Over flags)))))

  finish-Over : (complete : Bool) → Relates (Over T) (finish id source_id seen complete)
  unfolding finish
  finish-Over true = complete_or_failed-Over
  finish-Over false = search (walk, sync-Over)

  pub deliver_settled-Over : Relates (Over T) (deliver_settled id source_id seen)
  unfolding deliver_settled
  deliver_settled-Over = search (walk, finish-Over, sinks_complete-Over)

  pub ensure-Over : (sinks : List (ℕ × String)) → Relates (Over T) (ensure_sink_deliveries id sinks)
  unfolding ensure_sink_deliveries
  ensure-Over sinks =
      Relates-if (span order) (is_empty sinks) _ _ (Relates-pure (span order) tt)
        (Over-constrained order _ _ (λ now t. steps.open_ledger (to_columns sinks) t))

  pub pending-Over : Relates (Over T) (list_pending_sink_indices id)
  unfolding list_pending_sink_indices
  pending-Over = search walk
