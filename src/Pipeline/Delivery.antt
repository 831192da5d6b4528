-- ===== src/Pipeline/Delivery.antt =====
-- `deliver_to_pending_sinks` and `attempt_notification_delivery` of src/pipeline/outbox.rs.
pub mod Steps
pub mod Whole
pub mod Frame
pub mod Outcome
pub mod Misrouted
pub mod Deferred
use xrelease.Base.{
  ℕ, String, Bool, true, false, not, none, some, List, [], ◌∷◌, map, select, contains, is_empty,
  if◌then◌else◌,
}
use xrelease.World.{World, Action, pure, ask, ◌>>=◌, ◌>>◌, when, Result, ok, err}
use xrelease.Notify.Event.{Event}
use xrelease.Notify.Composite.{matching_indices, kind_at}
use xrelease.Notify.Fanout.{Delivery, notify_partial}
use xrelease.Store.Tables.{SeenUpsert, Message}
use xrelease.Store.Tables.Message.{
  no_notifier_matches, no_matching_sinks, no_longer_matches, of_error,
}
use xrelease.Store.Ledger.{
  ensure_sink_deliveries, list_pending_sink_indices, complete_sink_delivery, fail_sink_delivery,
  abandon_retryable_sinks, sinks_delivery_complete,
}
use xrelease.Store.Parent.{complete_notification}
use xrelease.Pipeline.Attempt.{
  DeliveryAttempt, delivered_attempt, failed_attempt, deferred_attempt, apply_attempt_backoff,
}
use xrelease.Pipeline.Alerts.{
  is_breaker_skip, record_sink_attempt, emit_breaker_alerts, fail_outbox_row_alert,
  sync_outbox_status_alert,
}

unfoldable pub complete_or_failed : ℕ → String → SeenUpsert → Action DeliveryAttempt
complete_or_failed id source_id seen = do
  completed ← complete_notification id source_id seen
  pure (if completed then delivered_attempt else failed_attempt)

-- `any_failed` and `any_real_failure` of the loop over the results.
pub record Flags : Type 0 where
  pub any_failed : Bool
  pub any_real_failure : Bool

abbrev pub no_flags : Flags
no_flags = record { any_failed = false; any_real_failure = false }

-- One result against the ledger: a breaker skip is a deferral and leaves it alone.
unfoldable pub apply_result : ℕ → Flags → ℕ → Delivery → Action Flags
apply_result id flags index none = do complete_sink_delivery id index; pure flags
apply_result id flags index (some e) =
    if is_breaker_skip e then pure (record flags { any_failed = true }) else do
      fail_sink_delivery id index (of_error e)
      pure (record { any_failed = true; any_real_failure = true })

unfoldable pub apply_results : ℕ → Flags → List (ℕ × Delivery) → Action Flags
apply_results id flags [] = pure flags
apply_results id flags ((index, result) ∷ results) = do
  record_sink_attempt index result
  flags' ← apply_result id flags index result
  apply_results id flags' results

-- What follows when no retryable sink is left in the ledger.
unfoldable pub finish : ℕ → String → SeenUpsert → Bool → Action DeliveryAttempt
finish id source_id seen true = complete_or_failed id source_id seen
finish id source_id seen false = do sync_outbox_status_alert id source_id; pure failed_attempt

unfoldable pub deliver_settled : ℕ → String → SeenUpsert → Action DeliveryAttempt
deliver_settled id source_id seen = do
  complete ← sinks_delivery_complete id
  finish id source_id seen complete

-- The ledger has retryable rows, but for sinks that no longer match.
unfoldable pub deliver_drifted : ℕ → String → Message → Action DeliveryAttempt
deliver_drifted id source_id error = do
  abandon_retryable_sinks id [] error
  fail_outbox_row_alert id source_id error
  sync_outbox_status_alert id source_id
  pure failed_attempt

abbrev pub unsuccessful : Flags → DeliveryAttempt
unsuccessful flags = if flags.any_real_failure then failed_attempt else deferred_attempt

unfoldable pub conclude_complete : ℕ → String → SeenUpsert → Bool → Action DeliveryAttempt
conclude_complete id source_id seen true = complete_or_failed id source_id seen
conclude_complete id source_id seen false = pure failed_attempt

unfoldable pub conclude : ℕ → String → SeenUpsert → Flags → Action DeliveryAttempt
conclude id source_id seen flags =
    if flags.any_failed
    then pure (unsuccessful flags)
    else do complete ← sinks_delivery_complete id; conclude_complete id source_id seen complete

unfoldable pub abandon_orphans : ℕ → Event → List ℕ → Action (Unit {0})
abandon_orphans id event orphans = when (not (is_empty orphans)) (do
  abandoned ← abandon_retryable_sinks id orphans (no_longer_matches event.routing_tag)
  pure tt)

unfoldable pub deliver_indices :
    ℕ → Event → String → SeenUpsert → List ℕ → List ℕ → Action DeliveryAttempt
deliver_indices id event source_id seen orphans indices = do
  abandon_orphans id event orphans
  results ← notify_partial event indices
  emit_breaker_alerts
  flags ← apply_results id no_flags results
  sync_outbox_status_alert id source_id
  conclude id source_id seen flags

unfoldable pub deliver_pending :
    ℕ → Event → String → SeenUpsert → List ℕ → List ℕ → Action DeliveryAttempt
deliver_pending id event source_id seen matching pending =
    let indices = select (contains matching) pending in
    if is_empty pending
    then deliver_settled id source_id seen
    else if is_empty indices
    then deliver_drifted id source_id (no_matching_sinks event.routing_tag)
    else deliver_indices id event source_id seen (select (λ i. not (contains matching i)) pending)
        indices

unfoldable pub deliver_matching : ℕ → Event → String → SeenUpsert → List ℕ → Action DeliveryAttempt
deliver_matching id event source_id seen matching =
    if is_empty matching
    then (do
      fail_outbox_row_alert id source_id (no_notifier_matches event.routing_tag)
      pure failed_attempt)
    else do
      sinks ← ask (λ w. map (λ i. (i, kind_at w.notifier i)) matching)
      ensure_sink_deliveries id sinks
      pending ← list_pending_sink_indices id
      deliver_pending id event source_id seen matching pending

unfoldable pub deliver_to_pending_sinks : ℕ → Event → String → SeenUpsert → Action DeliveryAttempt
deliver_to_pending_sinks id event source_id seen = do
  matching ← ask (λ w. matching_indices w.notifier event)
  deliver_matching id event source_id seen matching

-- Back off unless the row is delivered; after a hard error the lease alone holds the row back.
unfoldable pub back_off_attempt : ℕ → ℕ → Result DeliveryAttempt → Action (Unit {0})
back_off_attempt id attempts_before (ok attempt) =
    if attempt.delivered then pure tt else apply_attempt_backoff id attempts_before attempt
back_off_attempt id attempts_before (err e) = pure tt

-- `outcome.map(|attempt| attempt.delivered)`
abbrev pub delivered_of : Result DeliveryAttempt → Result Bool
delivered_of (ok attempt) = ok attempt.delivered
delivered_of (err e) = err e

-- The event with its advisories, if the lookup has any, is what is sent.
abbrev pub enriched : World → Event → Event
enriched w event = elim (w.env.enrich w.interactions event) [ none ↦ event | some e ↦ e ]

unfoldable pub attempt_notification_delivery : ℕ → ℕ → Event → String → SeenUpsert → Action Bool
attempt_notification_delivery id attempts_before event source_id seen w =
    let (outcome, v) = deliver_to_pending_sinks id (enriched w event) source_id seen w in
    let (_, u) = back_off_attempt id attempts_before outcome v in (delivered_of outcome, u)
