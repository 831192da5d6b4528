-- ===== src/Pipeline/Delivery/Misrouted.antt =====
-- An attempt to deliver a row whose event no sink takes: it is counted twice.
use xrelease.Base.{
  ℕ, ◌+◌, String, false, ◌≡◌, ◌≢◌, refl, ap, ◌∙◌, Option, some, List, [], arith, ==-refl,
}
use xrelease.World.{
  World, Result, ok, pure, ask, ◌>>=◌, statement, modify, when, best_effort, pass_time,
}
use xrelease.Notify.Event.{Event}
use xrelease.Notify.Composite.{matching_indices}
use xrelease.Store.Tables.{Message, OutboxRow, SeenUpsert}
use xrelease.Store.Tables.Message.{no_notifier_matches}
use xrelease.Store.Rows.{
  update_where, find_where, has_id, fail_row, failed_status, outbox_max_attempts,
}
use xrelease.Store.Rows.Index.{find_where-update, find_where-id}
use xrelease.Store.Claim.{back_off, apply_delivery_backoff}
use xrelease.Store.Parent.{crosses_cap, fail_tables, fail_notification}
use xrelease.Pipeline.Attempt.{DeliveryAttempt, failed_attempt, apply_attempt_backoff, backoff_secs}
use xrelease.Pipeline.Alerts.{fail_outbox_row, fail_outbox_row_alert}
use xrelease.Pipeline.Delivery.{
  deliver_matching, deliver_to_pending_sinks, back_off_attempt, attempt_notification_delivery,
  enriched,
}

found_after :
    (id : ℕ) (f : OutboxRow → OutboxRow) (rows : List OutboxRow) (r : OutboxRow)
    → ((r : OutboxRow) → (f r).id ≡ r.id)
    → find_where (has_id id) rows ≡ some r
    → find_where (has_id id) (update_where (has_id id) f rows) ≡ some (f r)
found_after id f rows r key e =
    find_where-update (has_id id) f id rows key ∙ rw (e, find_where-id id rows e, ==-refl id) refl

below_cap :
    (r : OutboxRow) (error : Message)
    → r.attempts + 1 ≢ outbox_max_attempts
    → crosses_cap (some (fail_row error r)) ≡ false
below_cap r error h = ground (arith, h)

module _ (id : ℕ) (source_id : String) (seen : SeenUpsert) where
  record Once (error : Message) (w : World) (x : Result DeliveryAttempt × World) : Type 0 where
    outcome : x.0 ≡ ok failed_attempt
    env : x.1.env ≡ w.env
    outbox : x.1.tables.outbox ≡ update_where (has_id id) (fail_row error) w.tables.outbox

  failed-Once :
      (event : Event) (w : World)
      → ((n : ℕ) → w.env.db_fails n ≡ false)
      → matching_indices w.notifier event ≡ []
      → crosses_cap (
          find_where (has_id id) (
            update_where
              (has_id id)
              (fail_row (no_notifier_matches event.routing_tag))
              w.tables.outbox))
        ≡ false
      → Once
          (no_notifier_matches event.routing_tag)
          w
          (deliver_to_pending_sinks id event source_id seen w)
  unfolding deliver_to_pending_sinks deliver_matching fail_outbox_row_alert fail_outbox_row
      fail_notification fail_tables ◌>>=◌ statement ask pure when pass_time modify
  failed-Once event w live none_match below =
      rw (none_match, live w.interactions, below)
        (record { outcome = refl; env = refl; outbox = refl })

counted_again :
    (id before : ℕ) (w : World)
    → ((n : ℕ) → w.env.db_fails n ≡ false)
    → (until : ℕ) × ((back_off_attempt id before (ok failed_attempt) w).1.tables.outbox
        ≡ update_where (has_id id) (back_off until) w.tables.outbox)
unfolding back_off_attempt apply_attempt_backoff apply_delivery_backoff ◌>>=◌ statement ask
    pass_time best_effort
counted_again id before w live =
    let backoff = backoff_secs (before + 1) w.settings.outbox_retry_backoff_max_secs in
    ((pass_time w).now + backoff, rw (live w.interactions) refl)

-- The row after an attempt, next to the row before.
pub record CountedTwice (r : OutboxRow) (after : Option OutboxRow) : Type 0 where
  pub row : OutboxRow
  pub found : after ≡ some row
  pub attempts : row.attempts ≡ r.attempts + 2
  pub status : row.status ≡ failed_status r.attempts

-- If no sink takes the event of a row (as enriched), no statement fails, and the count of attempts
-- plus one is not the cap of 50, then the attempt adds two to the row's count of attempts, while
-- its status is chosen by the count plus one.
pub attempt_notification_delivery-CountedTwice :
    (id before : ℕ) (event : Event) (source_id : String) (seen : SeenUpsert) (w : World)
    (r : OutboxRow)
    → ((n : ℕ) → w.env.db_fails n ≡ false)
    → matching_indices w.notifier (enriched w event) ≡ []
    → find_where (has_id id) w.tables.outbox ≡ some r
    → r.attempts + 1 ≢ outbox_max_attempts
    → CountedTwice r (
        find_where
          (has_id id)
          (attempt_notification_delivery id before event source_id seen w).1.tables.outbox)
unfolding attempt_notification_delivery
attempt_notification_delivery-CountedTwice id before event source_id seen w r live none_match e
      below =
    let sent = enriched w event in
    let error = no_notifier_matches sent.routing_tag in
    let x = deliver_to_pending_sinks id sent source_id seen w in
    let first = found_after id (fail_row error) w.tables.outbox r (λ r. refl) e in
    let once =
      failed-Once id source_id seen sent w live none_match
        (ap crosses_cap first ∙ below_cap r error below) in
    let again = counted_again id before x.1 (λ n. ap (λ env. env.db_fails n) once.env ∙ live n) in
    let second =
      found_after id (back_off again.0) x.1.tables.outbox (fail_row error r) (λ r. refl)
        (ap (find_where (has_id id)) once.outbox ∙ first) in
    record {
      row = back_off again.0 (fail_row error r);
      found = rw once.outcome (ap (find_where (has_id id)) again.1 ∙ second);
      attempts = omega arith;
      status = refl;
    }
