-- ===== src/Engine.antt =====
-- src/engine.rs: the ops meta-alerts.
pub mod Quiet
use xrelease.Base.{String, Option, none, some}
use xrelease.World.{Action, pure, ask, ◌>>=◌}
use xrelease.Notify.Event.{Event}
use xrelease.Notify.Fanout.{notify}

abbrev pub ops_event : String → String → String → Event
ops_event tag title body = record {
  source_id = "xrelease:ops";
  source_kind = "xrelease";
  title = title;
  body = body;
  url = none;
  routing_tag = some tag;
}

unfoldable pub alert_tagged : String → String → Option String → Action (Unit {0})
alert_tagged title body none = pure tt
alert_tagged title body (some tag) = do result ← notify (ops_event tag title body); pure tt

-- Skipped when no routing tag for alerts is set; a failure is logged and dropped.
unfoldable pub emit_ops_alert : String → String → Action (Unit {0})
emit_ops_alert title body = do
  tag ← ask (λ w. w.settings.ops_routing_tag)
  alert_tagged title body tag
