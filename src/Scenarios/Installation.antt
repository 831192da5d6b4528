-- ===== src/Scenarios/Installation.antt =====
-- A small installation: two sinks, one of them for the team `ops`, and two rows in the outbox.
use xrelease.Base.{String, false, none, some, List, [], ◌∷◌, arith}
use xrelease.Store.Parent.{count_rows}
use xrelease.Notify.Event.{Event}
use xrelease.Notify.Composite.{RoutedSink, webhook, slack, with_breaker_config}
use xrelease.Store.Tables.{OutboxRow, OutboxMeta, SeenUpsert, Tables}
use xrelease.Store.Rows.{new_row}
use xrelease.Store.Enqueue.Keys.{IsKeyed}
use xrelease.World.{Env, Settings, Metrics, World}

abbrev pub event : Event
event = record {
  source_id = "github:tokio-rs/tokio";
  source_kind = "GitHub";
  title = "tokio: new release v1.52.0";
  body = "";
  url = none;
  routing_tag = none;
}

abbrev pub for_team : String → Event
for_team tag = record event { routing_tag = some tag }

abbrev pub meta : OutboxMeta
meta = record {
  content_digest = some "d1";
  display_tag = none;
  published_at = none;
  deliver_after = none;
}

abbrev pub at_noon : OutboxMeta
at_noon = record meta { deliver_after = some 10 }

abbrev pub row : OutboxRow
row = new_row 0 event "v1.52.0" meta 0

abbrev pub late_row : OutboxRow
late_row = new_row 1 event "v1.53.0" at_noon 0

abbrev pub lost_row : OutboxRow
lost_row = record (new_row 0 (for_team "nobody") "v1.52.0" meta 0) { attempts = 48 }

abbrev pub tables : Tables
tables = record { outbox = row ∷ late_row ∷ []; next_id = 2; seen = []; sources = [] }

abbrev pub settings : Settings
settings = record {
  outbox_flush_concurrency = 2;
  outbox_retry_backoff_max_secs = 3600;
  ops_routing_tag = none;
}

abbrev pub metrics : Metrics
metrics = record {
  outbox_enqueued = 0;
  outbox_delivery_failures = 0;
  outbox_dead_lettered = 0;
  sink_deliveries = [];
  notifications = [];
  polls = [];
  poll_errors = [];
}

-- The database answers, each interaction takes a second, and the backends deliver.
abbrev pub env : Env
env = record {
  db_fails = λ n. false;
  elapsed = λ n. 1;
  reply = λ n index e. none;
  enrich = λ n e. none;
}

abbrev pub sinks : List RoutedSink
sinks =
    record { inner = webhook "hook"; tags = "core" ∷ [] }
    ∷ record { inner = slack "ops"; tags = "ops" ∷ [] }
    ∷ []

abbrev pub world : Tables → World
world t = record {
  env = env;
  interactions = 0;
  now = 20;
  tables = t;
  notifier = with_breaker_config sinks (record { failure_threshold = 3; cooldown = 60 });
  settings = settings;
  metrics = metrics;
  calls = [];
}

abbrev pub of_team : Tables
of_team = record tables { outbox = new_row 0 (for_team "ops") "v1.52.0" meta 0 ∷ late_row ∷ [] }

abbrev pub lost : Tables
lost = record tables { outbox = lost_row ∷ late_row ∷ [] }

abbrev pub seen : SeenUpsert
seen = record {
  identity = "v1.52.0";
  display_tag = none;
  content_digest = some "d1";
  published_at = none;
  url = none;
}

abbrev pub one_row : Tables
one_row = record { outbox = row ∷ []; next_id = 1; seen = []; sources = [] }

pub one_row-IsKeyed : IsKeyed one_row
unfolding count_rows
one_row-IsKeyed = record { ids = (omega arith, omega arith); unique = λ s i. ground arith }
