-- ===== src/Pipeline/Delivery/Whole.antt =====
-- The whole of a delivery attempt, from the statements that it is made of.
use xrelease.Base.{ℕ, String, refl, List, []}
use xrelease.World.{Result, ok, err}
use xrelease.World.Relates.{
  Relates, Relates-pure, Relates-ask, Relates-if, Relates-bind, Relates-best_effort,
}
use xrelease.World.Over.{IsOrder, Over, Over-statement, Over-modify}
use xrelease.Engine.Quiet.{span}
use xrelease.Notify.Event.{Event}
use xrelease.Store.Tables.{Tables, Message, SeenUpsert}
use xrelease.Store.Claim.{apply_delivery_backoff, defer_delivery}
use xrelease.Store.Parent.{fail_tables, fail_notification}
use xrelease.Pipeline.Attempt.{DeliveryAttempt, apply_attempt_backoff}
use xrelease.Pipeline.Alerts.{fail_outbox_row, fail_outbox_row_alert}
use xrelease.Pipeline.Delivery.{
  deliver_drifted, deliver_pending, deliver_matching, deliver_to_pending_sinks, back_off_attempt,
  attempt_notification_delivery, enriched,
}
use xrelease.Pipeline.Delivery.Steps.{
  Steps, CountingSteps, when_dead-Over, alert_dead-Over, sync-Over, abandon-Over,
  deliver_indices-Over, deliver_settled-Over, ensure-Over, pending-Over,
}

module _ {T : Tables → Tables → Type 0} (order : IsOrder T) {id : ℕ} {source_id : String}
    {seen : SeenUpsert} (steps : Steps T id source_id seen) (counting : CountingSteps T id) where
  fail_notification-Over : (error : Message) → Relates (Over T) (fail_notification id error)
  unfolding fail_notification
  fail_notification-Over error = Over-statement order (fail_tables id error) (counting.fail error)

  fail_outbox_row-Over : (error : Message) → Relates (Over T) (fail_outbox_row id error)
  unfolding fail_outbox_row
  fail_outbox_row-Over error = Relates-bind (span order) _ _ (fail_notification-Over error) (λ dead.
      Relates-bind (span order) _ _ (Over-modify order _ (λ w. refl)) (λ _.
        Relates-bind (span order) _ _ (when_dead-Over order steps dead)
          (λ _. Relates-pure (span order) dead)))

  fail_alert-Over :
      (label : String) (error : Message) → Relates (Over T) (fail_outbox_row_alert id label error)
  unfolding fail_outbox_row_alert
  fail_alert-Over label error =
      Relates-bind (span order) _ _ (fail_outbox_row-Over error)
        (λ dead. alert_dead-Over order steps dead label)

  deliver_drifted-Over : (error : Message) → Relates (Over T) (deliver_drifted id source_id error)
  unfolding deliver_drifted
  deliver_drifted-Over error =
      Relates-bind (span order) _ _ (abandon-Over order steps [] error) (λ _.
        Relates-bind (span order) _ _ (fail_alert-Over source_id error) (λ _.
          Relates-bind (span order) _ _ (sync-Over order steps source_id)
            (λ _. Relates-pure (span order) _)))

  deliver_pending-Over :
      (event : Event) (matching pending : List ℕ)
      → Relates (Over T) (deliver_pending id event source_id seen matching pending)
  unfolding deliver_pending
  deliver_pending-Over event matching pending =
      Relates-if (span order) _ _ _ (deliver_settled-Over order steps) (
        Relates-if (span order) _ _ _ (deliver_drifted-Over _)
          (deliver_indices-Over order steps event _ _))

  deliver_matching-Over :
      (event : Event) (matching : List ℕ)
      → Relates (Over T) (deliver_matching id event source_id seen matching)
  unfolding deliver_matching
  deliver_matching-Over event matching =
      Relates-if (span order) _ _ _
        (Relates-bind (span order) _ _ (fail_alert-Over source_id _)
          (λ _. Relates-pure (span order) _))
        (Relates-bind (span order) _ _ (Relates-ask (span order) _) (λ sinks.
          Relates-bind (span order) _ _ (ensure-Over order steps sinks) (λ _.
            Relates-bind (span order) _ _ (pending-Over order steps)
              (λ pending. deliver_pending-Over event matching pending))))

  pub deliver-Over :
      (event : Event) → Relates (Over T) (deliver_to_pending_sinks id event source_id seen)
  unfolding deliver_to_pending_sinks
  deliver-Over event =
      Relates-bind (span order) _ _ (Relates-ask (span order) _)
        (λ matching. deliver_matching-Over event matching)

  apply_attempt_backoff-Over :
      (before : ℕ) (attempt : DeliveryAttempt)
      → Relates (Over T) (apply_attempt_backoff id before attempt)
  unfolding apply_attempt_backoff defer_delivery apply_delivery_backoff
  apply_attempt_backoff-Over before attempt =
      Relates-bind (span order) _ _ (Relates-ask (span order) _) (λ max_secs.
        Relates-best_effort (span order) _ (
          Relates-if (span order) attempt.deferred_only _ _
            (Over-statement order _ (λ now t. steps.delay _ t))
            (Over-statement order _ (λ now t. counting.count _ t))))

  back_off_attempt-Over :
      (before : ℕ) (outcome : Result DeliveryAttempt)
      → Relates (Over T) (back_off_attempt id before outcome)
  unfolding back_off_attempt
  back_off_attempt-Over before (ok attempt) =
      Relates-if (span order) attempt.delivered _ _ (Relates-pure (span order) tt)
        (apply_attempt_backoff-Over before attempt)
  back_off_attempt-Over before (err e) = Relates-pure (span order) tt

  pub attempt-Over :
      (before : ℕ) (event : Event)
      → Relates (Over T) (attempt_notification_delivery id before event source_id seen)
  unfolding attempt_notification_delivery
  attempt-Over before event = record {
    at = λ w.
        let first = (deliver-Over (enriched w event)).at w in
        let (outcome, v) = deliver_to_pending_sinks id (enriched w event) source_id seen w in
        order.then_ w.tables v.tables _ first ((back_off_attempt-Over before outcome).at v);
  }
