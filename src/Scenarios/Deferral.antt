-- ===== src/Scenarios/Deferral.antt =====
-- An attempt to deliver a row whose only sink is behind an open breaker.
use xrelease.Base.{◌≡◌, refl, none, some, [], ◌∷◌}
use xrelease.Breaker.{Breaker}
use xrelease.World.{World, Result, ok}
use xrelease.Pipeline.Attempt.{deferred_attempt}
use xrelease.Pipeline.Delivery.{deliver_to_pending_sinks, attempt_notification_delivery, enriched}
use xrelease.Pipeline.Delivery.Deferred.{counts, attempt_notification_delivery-deferred}
use xrelease.Scenarios.Installation.{for_team, of_team, world, seen}

abbrev broken : World
broken = record (world of_team) {
  notifier = record (world of_team).notifier {
    breakers =
        record { consecutive_failures = 0; open_until = none }
        ∷ record { consecutive_failures = 3; open_until = some 100 }
        ∷ [];
  };
}

skipped :
    (deliver_to_pending_sinks 0
      (enriched broken (for_team "ops"))
      "github:tokio-rs/tokio"
      seen
      broken).0
    ≡ ok deferred_attempt
unfolding xrelease.World.pure xrelease.World.ask xrelease.World.◌>>=◌ xrelease.World.pass_time
    xrelease.World.statement xrelease.World.constrained xrelease.World.query xrelease.World.modify
    xrelease.World.for_each xrelease.World.collect xrelease.World.when
    xrelease.Notify.Routing.non_blank xrelease.Notify.Routing.matches_routing_tags
    xrelease.Notify.Routing.event_matches_sink_tags xrelease.Notify.Composite.sink_kind
    xrelease.Notify.Composite.sink_matches xrelease.Notify.Composite.with_breaker_config
    xrelease.Notify.Composite.matching_from xrelease.Notify.Composite.matching_indices
    xrelease.Notify.Composite.kind_at xrelease.Notify.Composite.breaker_allows
    xrelease.Notify.Composite.drain_newly_opened_breakers xrelease.Notify.Fanout.record_outcome
    xrelease.Notify.Fanout.notify_allowed xrelease.Notify.Fanout.notify_routed
    xrelease.Notify.Fanout.notify_found xrelease.Notify.Fanout.notify_one
    xrelease.Notify.Fanout.notify_partial xrelease.Store.Rows.update_where
    xrelease.Store.Rows.find_where xrelease.Store.Rows.update_sinks xrelease.Store.Rows.count_sinks
    xrelease.Store.Rows.insert_sink xrelease.Store.Rows.insert_sinks
    xrelease.Store.Rows.pending_indices xrelease.Store.Ledger.ledger_of
    xrelease.Store.Ledger.ensure_sink_deliveries xrelease.Store.Ledger.has_parent
    xrelease.Store.Ledger.list_pending_sink_indices xrelease.Store.Parent.ledger_counts
    xrelease.Store.Parent.set_dead xrelease.Store.Parent.set_partial
    xrelease.Store.Parent.sync_by_counts xrelease.Store.Parent.sync_outbox_sink_status
    xrelease.Pipeline.Alerts.record_sink_attempt xrelease.Pipeline.Alerts.sync_outbox_status
    xrelease.Pipeline.Alerts.emit_breaker_alerts xrelease.Pipeline.Alerts.sync_outbox_status_alert
    xrelease.Pipeline.Delivery.apply_result xrelease.Pipeline.Delivery.apply_results
    xrelease.Pipeline.Delivery.conclude xrelease.Pipeline.Delivery.abandon_orphans
    xrelease.Pipeline.Delivery.deliver_indices xrelease.Pipeline.Delivery.deliver_pending
    xrelease.Pipeline.Delivery.deliver_matching xrelease.Pipeline.Delivery.deliver_to_pending_sinks
    xrelease.Text.trim xrelease.Breaker.new xrelease.Breaker.allows xrelease.Breaker.reset
    xrelease.Breaker.record_outcome
skipped = refl

counts-deferred_example :
    counts
      (attempt_notification_delivery 0 0
        (for_team "ops")
        "github:tokio-rs/tokio"
        seen
        broken).1.tables
    ≡ counts broken.tables
counts-deferred_example =
    attempt_notification_delivery-deferred 0 0 (for_team "ops") "github:tokio-rs/tokio" seen broken
      skipped
