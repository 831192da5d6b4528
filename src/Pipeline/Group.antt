-- ===== src/Pipeline/Group.antt =====
-- `deliver_digest_to_pending_sinks` and `deliver_claimed_outbox_digest` of src/pipeline/outbox.rs.
use xrelease.Base.{
  ℕ, String, Bool, true, false, not, ◌&&◌, List, [], ◌∷◌, ◌++◌, map, select, contains, zip,
  if◌then◌else◌,
}
use xrelease.World.{Action, pure, ask, when, for_each, collect, ◌>>=◌, ◌>>◌}
use xrelease.Notify.Event.{Event}
use xrelease.Notify.Composite.{matching_indices, kind_at}
use xrelease.Notify.Fanout.{Delivery, notify_partial}
use xrelease.Store.Tables.{OutboxRecord}
use xrelease.Store.Tables.Message.{no_notifier_matches}
use xrelease.Store.Ledger.{
  ensure_sink_deliveries, list_pending_sink_indices, sinks_delivery_complete,
}
use xrelease.Pipeline.Attempt.{
  DeliveryAttempt, failed_attempt, deferred_attempt, apply_attempt_backoff,
}
use xrelease.Pipeline.Alerts.{
  record_sink_attempt, emit_breaker_alerts, fail_outbox_row_alert, sync_outbox_status_alert,
}
use xrelease.Pipeline.Delivery.{
  Flags, no_flags, complete_or_failed, apply_result, abandon_orphans, finish,
}
use xrelease.Pipeline.Digest.{build_digest_event, seen_upsert_for}

-- `if !union_pending.contains(&index) { union_pending.push(index) }` over a list
unfoldable pub add_missing : List ℕ → List ℕ → List ℕ
add_missing union [] = union
add_missing union (index ∷ indices) =
    add_missing (if contains union index then union else union ++ index ∷ []) indices

unfoldable pub union_pending : List ℕ → List (List ℕ) → List ℕ
union_pending union [] = union
union_pending union (pending ∷ rows) = union_pending (add_missing union pending) rows

-- The sinks that a row still waits for and that match; the others that it waits for are abandoned.
unfoldable pub row_pending : Event → List ℕ → OutboxRecord → Action (List ℕ)
row_pending event matching row = do
  raw_pending ← list_pending_sink_indices row.id
  abandon_orphans row.id event (select (λ i. not (contains matching i)) raw_pending)
  pure (select (contains matching) raw_pending)

unfoldable pub settle_row : OutboxRecord → Action DeliveryAttempt
settle_row row = do
  complete ← sinks_delivery_complete row.id
  finish row.id row.source_id (seen_upsert_for row) complete

-- The results of the shared send that a row waits for, against its own ledger.
unfoldable pub apply_own : ℕ → List ℕ → Flags → List (ℕ × Delivery) → Action Flags
apply_own id pending flags [] = pure flags
apply_own id pending flags ((index, result) ∷ results) = do
  flags' ← (if contains pending index then apply_result id flags index result else pure flags)
  apply_own id pending flags' results

unfoldable pub conclude_row : OutboxRecord → Flags → Bool → Action DeliveryAttempt
conclude_row row flags true = complete_or_failed row.id row.source_id (seen_upsert_for row)
conclude_row row flags false =
    pure
      (if flags.any_failed && not flags.any_real_failure then deferred_attempt else failed_attempt)

unfoldable pub apply_to_row : List (ℕ × Delivery) → OutboxRecord × List ℕ → Action DeliveryAttempt
apply_to_row results (row, pending) = do
  flags ← apply_own row.id pending no_flags results
  sync_outbox_status_alert row.id row.source_id
  complete ← sinks_delivery_complete row.id
  conclude_row row flags complete

unfoldable pub deliver_union :
    Event → List OutboxRecord → List (List ℕ) → List ℕ → Action (List DeliveryAttempt)
deliver_union event group pendings [] = collect group settle_row
deliver_union event group pendings (i ∷ union) = do
  results ← notify_partial event (i ∷ union)
  emit_breaker_alerts
  for_each results (λ (index, result). record_sink_attempt index result)
  collect (zip group pendings) (apply_to_row results)

unfoldable pub deliver_digest_matching :
    Event → List OutboxRecord → List ℕ → Action (List DeliveryAttempt)
deliver_digest_matching event group [] = do
  for_each group
      (λ row. fail_outbox_row_alert row.id row.source_id (no_notifier_matches event.routing_tag))
  pure (map (λ _. failed_attempt) group)
deliver_digest_matching event group (i ∷ matching) = do
  sinks ← ask (λ w. map (λ i. (i, kind_at w.notifier i)) (i ∷ matching))
  for_each group (λ row. ensure_sink_deliveries row.id sinks)
  pendings ← collect group (row_pending event (i ∷ matching))
  deliver_union event group pendings (union_pending [] pendings)

unfoldable pub deliver_digest_to_pending_sinks :
    Event → List OutboxRecord → Action (List DeliveryAttempt)
deliver_digest_to_pending_sinks event group = do
  matching ← ask (λ w. matching_indices w.notifier event)
  deliver_digest_matching event group matching

-- Back off each row that is not delivered, and report each row with its source.
unfoldable pub report_row : OutboxRecord × DeliveryAttempt → Action (String × Bool)
report_row (row, attempt) = do
  when (not attempt.delivered) (apply_attempt_backoff row.id row.attempts attempt)
  pure (row.source_id, attempt.delivered)

unfoldable pub deliver_claimed_outbox_digest : List OutboxRecord → Action (List (String × Bool))
deliver_claimed_outbox_digest group = do
  outcomes ← deliver_digest_to_pending_sinks (build_digest_event group) group
  collect (zip group outcomes) report_row
