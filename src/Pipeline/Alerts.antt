-- ===== src/Pipeline/Alerts.antt =====
-- The failure paths of src/pipeline/outbox.rs, with their counters and ops alerts.
use Prim.Native.String.{◌++◌}
use xrelease.Base.{ℕ, ◌+◌, String, Bool, true, false, none, some, List}
use xrelease.Text.{decimal}
use xrelease.World.{
  SinkDeliveryResult, delivered_ok, delivery_error, breaker_skip, Action, pure, ask, modify, note,
  for_each, when, ◌>>=◌, ◌>>◌,
}
use xrelease.Notify.Event.{NotifyError, breaker_open}
use xrelease.Notify.Composite.{kind_at, label_at, drain_newly_opened_breakers}
use xrelease.Notify.Fanout.{Delivery}
use xrelease.Engine.{emit_ops_alert}
use xrelease.Store.Tables.{Message}
use xrelease.Store.Parent.{fail_notification, sync_outbox_sink_status}

-- `matches!(err, NotifyError::BreakerOpen { .. })`
abbrev pub is_breaker_skip : NotifyError → Bool
is_breaker_skip (breaker_open kind) = true
is_breaker_skip _ = false

abbrev result_of : Delivery → SinkDeliveryResult
result_of none = delivered_ok
result_of (some (breaker_open kind)) = breaker_skip
result_of (some e) = delivery_error

unfoldable pub record_sink_attempt : ℕ → Delivery → Action (Unit {0})
record_sink_attempt index result = modify (λ w. record w {
  metrics = record w.metrics {
    sink_deliveries =
        List.◌∷◌ (kind_at w.notifier index, label_at w.notifier index, result_of result)
          w.metrics.sink_deliveries;
  };
})

unfoldable pub note_dead_lettered : ℕ → Action (Unit {0})
note_dead_lettered n = note (λ m. record m { outbox_dead_lettered = m.outbox_dead_lettered + n })

note_delivery_failure : Action (Unit {0})
note_delivery_failure =
    note (λ m. record m { outbox_delivery_failures = m.outbox_delivery_failures + 1 })

-- Returns whether the row has become `dead`.
unfoldable pub fail_outbox_row : ℕ → Message → Action Bool
unfolding note_delivery_failure
fail_outbox_row id error = do
  dead ← fail_notification id error
  note_delivery_failure
  when dead (note_dead_lettered 1)
  pure dead

unfoldable pub sync_outbox_status : ℕ → Action Bool
sync_outbox_status id = do
  dead ← sync_outbox_sink_status id
  when dead (note_dead_lettered 1)
  pure dead

unfoldable pub emit_dead_outbox_alert : ℕ → String → Action (Unit {0})
emit_dead_outbox_alert id source_id = emit_ops_alert ("Outbox dead: " ++ source_id) (
    "Notification outbox row `"
    ++ decimal id
    ++ "` for source `"
    ++ source_id
    ++ "` exhausted delivery retries and was marked dead.")

unfoldable pub breaker_alert : String → Action (Unit {0})
breaker_alert label = emit_ops_alert ("Sink breaker open: " ++ label) (
    "Notification sink `" ++ label
    ++ "` tripped its circuit breaker after consecutive failures. Delivery to this sink is paused for the configured cooldown.")

unfoldable pub emit_breaker_alerts : Action (Unit {0})
emit_breaker_alerts = do
  labels ← ask (λ w. (drain_newly_opened_breakers w.notifier).1)
  modify (λ w. record w { notifier = (drain_newly_opened_breakers w.notifier).0 })
  for_each labels breaker_alert

unfoldable pub fail_outbox_row_alert : ℕ → String → Message → Action (Unit {0})
fail_outbox_row_alert id source_id error = do
  dead ← fail_outbox_row id error
  when dead (emit_dead_outbox_alert id source_id)

unfoldable pub sync_outbox_status_alert : ℕ → String → Action (Unit {0})
sync_outbox_status_alert id source_id = do
  dead ← sync_outbox_status id
  when dead (emit_dead_outbox_alert id source_id)
