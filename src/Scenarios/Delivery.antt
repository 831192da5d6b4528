-- ===== src/Scenarios/Delivery.antt =====
-- Attempts to deliver rows of the installation, by src/pipeline/outbox.rs.
use xrelease.Base.{◌≤◌, ◌≡◌, refl, true, false, none, some, [], ◌∷◌, arith}
use xrelease.Text.{decimal, trim, to_ascii_lowercase}
use xrelease.Notify.Routing.{non_blank, matches_routing_tags, event_matches_sink_tags}
use xrelease.Store.Parent.{count_rows}
use xrelease.Breaker.{Breaker, record_outcome, allows}
use xrelease.Notify.Composite.{
  RoutedSink, webhook, slack, CompositeNotifier, with_breaker_config, matching_from,
  matching_indices, sink_matches,
}
use xrelease.Store.Tables.{
  Status, pending, failed, dead, OutboxRow, OutboxRecord, OutboxMeta, SeenUpsert, Tables, to_event,
}
use xrelease.Store.Rows.{find_where, has_id, new_row, record_of, claimable}
use xrelease.Store.Claim.{claim_rows, claim_batch}
use xrelease.Store.Parent.{finalize_tables, requeue_tables}
use xrelease.World.{Env, Settings, Metrics, World, Result, ok, err}
use xrelease.Pipeline.Delivery.{attempt_notification_delivery, enriched}
use xrelease.Pipeline.Delivery.Frame.{SameApart, attempt_notification_delivery-SameApart}
use xrelease.Pipeline.Delivery.Outcome.{Delivered, attempt_notification_delivery-Delivered}
use xrelease.Pipeline.Delivery.Misrouted.{CountedTwice, attempt_notification_delivery-CountedTwice}
use xrelease.Pipeline.Digest.{partition_for_digest, seen_upsert_for}
use xrelease.Pipeline.Flush.{Progress, flush_waves, start, goes_on}
use xrelease.Pipeline.Flush.Loop.{flush_waves-Ended_lem}
use xrelease.Scenarios.Installation.{for_team, meta, lost_row, tables, world, of_team, lost, seen}

ops_delivers :
    (attempt_notification_delivery 0 0
      (for_team "ops")
      "github:tokio-rs/tokio"
      seen
      (world of_team)).0
    ≡ ok true
unfolding xrelease.World.pure xrelease.World.ask xrelease.World.◌>>=◌ xrelease.World.pass_time
    xrelease.World.statement xrelease.World.constrained xrelease.World.query xrelease.World.modify
    xrelease.World.for_each xrelease.World.collect xrelease.World.when
    xrelease.Notify.Routing.non_blank xrelease.Notify.Routing.matches_routing_tags
    xrelease.Notify.Routing.event_matches_sink_tags xrelease.Notify.Composite.sink_kind
    xrelease.Notify.Composite.sink_matches xrelease.Notify.Composite.with_breaker_config
    xrelease.Notify.Composite.matching_from xrelease.Notify.Composite.matching_indices
    xrelease.Notify.Composite.kind_at xrelease.Notify.Composite.breaker_allows
    xrelease.Notify.Composite.record_breaker_outcome xrelease.Notify.Composite.push_opened
    xrelease.Notify.Composite.drain_newly_opened_breakers xrelease.Notify.Fanout.call_backend
    xrelease.Notify.Fanout.record_outcome xrelease.Notify.Fanout.dial
    xrelease.Notify.Fanout.notify_allowed xrelease.Notify.Fanout.notify_routed
    xrelease.Notify.Fanout.notify_found xrelease.Notify.Fanout.notify_one
    xrelease.Notify.Fanout.notify_partial xrelease.Store.Rows.update_where
    xrelease.Store.Rows.find_where xrelease.Store.Rows.update_sinks xrelease.Store.Rows.count_sinks
    xrelease.Store.Rows.insert_sink xrelease.Store.Rows.insert_sinks
    xrelease.Store.Rows.pending_indices xrelease.Store.Ledger.ledger_of
    xrelease.Store.Ledger.ensure_sink_deliveries xrelease.Store.Ledger.has_parent
    xrelease.Store.Ledger.list_pending_sink_indices xrelease.Store.Ledger.complete_sink_delivery
    xrelease.Store.Ledger.sinks_delivery_complete xrelease.Store.Parent.upsert_seen
    xrelease.Store.Parent.complete_tables xrelease.Store.Parent.complete_notification
    xrelease.Store.Parent.ledger_counts xrelease.Store.Parent.sync_by_counts
    xrelease.Store.Parent.sync_outbox_sink_status xrelease.Pipeline.Alerts.record_sink_attempt
    xrelease.Pipeline.Alerts.sync_outbox_status xrelease.Pipeline.Alerts.emit_breaker_alerts
    xrelease.Pipeline.Alerts.sync_outbox_status_alert xrelease.Pipeline.Delivery.complete_or_failed
    xrelease.Pipeline.Delivery.apply_result xrelease.Pipeline.Delivery.apply_results
    xrelease.Pipeline.Delivery.conclude_complete xrelease.Pipeline.Delivery.conclude
    xrelease.Pipeline.Delivery.abandon_orphans xrelease.Pipeline.Delivery.deliver_indices
    xrelease.Pipeline.Delivery.deliver_pending xrelease.Pipeline.Delivery.deliver_matching
    xrelease.Pipeline.Delivery.deliver_to_pending_sinks xrelease.Pipeline.Delivery.back_off_attempt
    xrelease.Pipeline.Delivery.attempt_notification_delivery xrelease.Text.trim xrelease.Breaker.new
    xrelease.Breaker.allows xrelease.Breaker.reset xrelease.Breaker.record_outcome
ops_delivers = refl

Delivered-example :
    Delivered 0 "github:tokio-rs/tokio" "v1.52.0"
      (attempt_notification_delivery 0 0
        (for_team "ops")
        "github:tokio-rs/tokio"
        seen
        (world of_team)).1.tables
Delivered-example =
    attempt_notification_delivery-Delivered 0 0 (for_team "ops") "github:tokio-rs/tokio" seen
      (world of_team) ops_delivers

SameApart-example :
    SameApart 0 "github:tokio-rs/tokio" "v1.52.0" of_team
      (attempt_notification_delivery 0 0
        (for_team "ops")
        "github:tokio-rs/tokio"
        seen
        (world of_team)).1.tables
SameApart-example =
    attempt_notification_delivery-SameApart 0 0 (for_team "ops") "github:tokio-rs/tokio" seen
      (world of_team)

nobody_matches :
    matching_indices (world lost).notifier (enriched (world lost) (for_team "nobody")) ≡ []
unfolding matching_indices matching_from sink_matches event_matches_sink_tags matches_routing_tags
    non_blank trim with_breaker_config
nobody_matches = refl

lost_found : find_where (has_id 0) lost.outbox ≡ some lost_row
unfolding find_where
lost_found = refl

CountedTwice-example : CountedTwice lost_row (
    find_where
      (has_id 0)
      (attempt_notification_delivery 0 48
        (for_team "nobody")
        "github:tokio-rs/tokio"
        seen
        (world lost)).1.tables.outbox)
CountedTwice-example =
    attempt_notification_delivery-CountedTwice 0 48 (for_team "nobody") "github:tokio-rs/tokio" seen
      (world lost) lost_row (λ n. refl) nobody_matches lost_found (λ e. absurd (omega (arith, e)))

abbrev one_team_row : Tables
one_team_row = record tables { outbox = new_row 0 (for_team "ops") "v1.52.0" meta 0 ∷ [] }

abbrev flushed : Progress
flushed = record { claimed_total = 1; tally = record { sent = 1; first_err = none }; more = false }

flushes : (flush_waves 2 2 2 start (world one_team_row)).0 ≡ ok flushed
unfolding xrelease.World.pure xrelease.World.ask xrelease.World.◌>>=◌ xrelease.World.pass_time
    xrelease.World.statement xrelease.World.constrained xrelease.World.query xrelease.World.attempt
    xrelease.World.modify xrelease.World.for_each xrelease.World.collect xrelease.World.when
    xrelease.Notify.Routing.non_blank xrelease.Notify.Routing.matches_routing_tags
    xrelease.Notify.Routing.event_matches_sink_tags xrelease.Notify.Composite.sink_kind
    xrelease.Notify.Composite.sink_matches xrelease.Notify.Composite.with_breaker_config
    xrelease.Notify.Composite.matching_from xrelease.Notify.Composite.matching_indices
    xrelease.Notify.Composite.kind_at xrelease.Notify.Composite.breaker_allows
    xrelease.Notify.Composite.record_breaker_outcome xrelease.Notify.Composite.push_opened
    xrelease.Notify.Composite.drain_newly_opened_breakers xrelease.Notify.Fanout.call_backend
    xrelease.Notify.Fanout.record_outcome xrelease.Notify.Fanout.dial
    xrelease.Notify.Fanout.notify_allowed xrelease.Notify.Fanout.notify_routed
    xrelease.Notify.Fanout.notify_found xrelease.Notify.Fanout.notify_one
    xrelease.Notify.Fanout.notify_partial xrelease.Store.Rows.update_where
    xrelease.Store.Rows.find_where xrelease.Store.Rows.record_of xrelease.Store.Rows.update_sinks
    xrelease.Store.Rows.count_sinks xrelease.Store.Rows.insert_sink xrelease.Store.Rows.insert_sinks
    xrelease.Store.Rows.pending_indices xrelease.Store.Ledger.ledger_of
    xrelease.Store.Ledger.ensure_sink_deliveries xrelease.Store.Ledger.has_parent
    xrelease.Store.Ledger.list_pending_sink_indices xrelease.Store.Ledger.complete_sink_delivery
    xrelease.Store.Ledger.sinks_delivery_complete xrelease.Store.Parent.upsert_seen
    xrelease.Store.Parent.complete_tables xrelease.Store.Parent.complete_notification
    xrelease.Store.Parent.ledger_counts xrelease.Store.Parent.sync_by_counts
    xrelease.Store.Parent.sync_outbox_sink_status xrelease.Pipeline.Alerts.record_sink_attempt
    xrelease.Pipeline.Alerts.sync_outbox_status xrelease.Pipeline.Alerts.emit_breaker_alerts
    xrelease.Pipeline.Alerts.sync_outbox_status_alert xrelease.Pipeline.Delivery.complete_or_failed
    xrelease.Pipeline.Delivery.apply_result xrelease.Pipeline.Delivery.apply_results
    xrelease.Pipeline.Delivery.conclude_complete xrelease.Pipeline.Delivery.conclude
    xrelease.Pipeline.Delivery.abandon_orphans xrelease.Pipeline.Delivery.deliver_indices
    xrelease.Pipeline.Delivery.deliver_pending xrelease.Pipeline.Delivery.deliver_matching
    xrelease.Pipeline.Delivery.deliver_to_pending_sinks xrelease.Pipeline.Delivery.back_off_attempt
    xrelease.Pipeline.Delivery.attempt_notification_delivery xrelease.Text.trim xrelease.Breaker.new
    xrelease.Breaker.allows xrelease.Breaker.reset xrelease.Breaker.record_outcome
    xrelease.Store.Tables.to_event xrelease.Pipeline.Digest.group_wave
    xrelease.Pipeline.Digest.partition_for_digest xrelease.Pipeline.Digest.seen_upsert_for
    xrelease.Pipeline.Flush.record_notifications xrelease.Pipeline.Flush.deliver_claimed_outbox_row
    xrelease.Pipeline.Flush.deliver_unit xrelease.Pipeline.Flush.count_delivered
    xrelease.Pipeline.Flush.count_results xrelease.Pipeline.Flush.deliver_wave
    xrelease.Pipeline.Flush.flush_wave xrelease.Pipeline.Flush.flush_waves
    xrelease.Store.Claim.claim_rows xrelease.Store.Claim.claim_batch
    xrelease.Store.Claim.claim_outbox_batch
flushes = refl

flush_example : (1 ≤ 2) × (goes_on 2 flushed ≡ false)
flush_example = flush_waves-Ended_lem 2 2 (world one_team_row) flushed flushes
