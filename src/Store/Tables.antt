-- ===== src/Store/Tables.antt =====
-- The tables of src/store/postgres_schema.sql that the pipeline reads and writes, and the row types
-- of src/store/mod.rs. A timestamp is a number of seconds. The rows of `notification_sink_delivery`
-- stand in the outbox row that their foreign key names (`ON DELETE CASCADE`), in the order of
-- `sink_index`; the outbox rows stand in the order of their insertion, which is that of
-- `created_at`.
use xrelease.Base.{ℕ, String, Bool, true, false, Option, List, str_eq, some, none}
use xrelease.Notify.Event.{Event, NotifyError}

-- The texts of the column `status`.
pub data Status : Type 0 where
  pending failed sent dead : Status

-- `status IN ('pending', 'failed')`
abbrev pub is_retryable : Status → Bool
is_retryable pending = true
is_retryable failed = true
is_retryable _ = false

abbrev pub is_sent : Status → Bool
is_sent sent = true
is_sent _ = false

abbrev pub is_dead : Status → Bool
is_dead dead = true
is_dead _ = false

-- The texts of the column `last_error`, by what they are rendered from.
pub data Message : Type 0 where
  -- "no notifier matches team routing tag {:?}"
  no_notifier_matches : Option String → Message
  -- "no matching sinks for current routing tag {:?}"
  no_matching_sinks : Option String → Message
  -- "sink no longer matches routing tag {:?}"
  no_longer_matches : Option String → Message
  -- "partial sink delivery failure"
  partial_failure : Message
  of_error : NotifyError → Message

pub record SinkRow : Type 0 where
  pub sink_index : ℕ
  pub sink_kind : String
  pub status : Status
  pub attempts : ℕ
  pub last_error : Option Message
  pub sent_at : Option ℕ

pub record OutboxRow : Type 0 where
  pub id : ℕ
  pub source_id : String
  pub identity : String
  pub content_digest : Option String
  pub display_tag : Option String
  pub published_at : Option ℕ
  pub title : String
  pub body : String
  pub url : Option String
  pub routing_tag : Option String
  pub source_kind : String
  pub status : Status
  pub attempts : ℕ
  pub last_error : Option Message
  pub created_at : ℕ
  pub sent_at : Option ℕ
  pub locked_until : Option ℕ
  pub deliver_after : Option ℕ
  pub sinks : List SinkRow

-- What a claim returns of a row.
pub record OutboxRecord : Type 0 where
  pub id : ℕ
  pub source_id : String
  pub identity : String
  pub content_digest : Option String
  pub display_tag : Option String
  pub published_at : Option ℕ
  pub title : String
  pub body : String
  pub url : Option String
  pub routing_tag : Option String
  pub source_kind : String
  pub attempts : ℕ
  pub deliver_after : Option ℕ

unfoldable pub to_event : OutboxRecord → Event
to_event r = record {
  source_id = r.source_id;
  source_kind = r.source_kind;
  title = r.title;
  body = r.body;
  url = r.url;
  routing_tag = r.routing_tag;
}

pub record OutboxMeta : Type 0 where
  pub content_digest : Option String
  pub display_tag : Option String
  pub published_at : Option ℕ
  pub deliver_after : Option ℕ

pub record EnqueueOutcome : Type 0 where
  pub id : ℕ
  pub deliver_now : Bool
  pub created : Bool

pub record SeenUpsert : Type 0 where
  pub identity : String
  pub display_tag : Option String
  pub content_digest : Option String
  pub published_at : Option ℕ
  pub url : Option String

pub record SeenRow : Type 0 where
  pub source_id : String
  pub identity : String
  pub display_tag : Option String
  pub first_seen_at : ℕ
  pub content_digest : Option String
  pub published_at : Option ℕ
  pub url : Option String

pub record SourceState : Type 0 where
  pub source_id : String
  pub initialized : Bool
  pub last_polled_at : Option ℕ
  pub etag : Option String
  pub latest_release_tag : Option String

-- `next_id` is the sequence of the `BIGSERIAL` column.
pub record Tables : Type 0 where
  pub outbox : List OutboxRow
  pub next_id : ℕ
  pub seen : List SeenRow
  pub sources : List SourceState

-- Equality of nullable texts, as Rust compares two `Option<&str>`.
abbrev pub option_eq : Option String → Option String → Bool
option_eq none none = true
option_eq (some a) (some b) = str_eq a b
option_eq _ _ = false

-- `COALESCE(a, b)`
abbrev pub coalesce {ℓ} : {A : Type ℓ} → Option A → Option A → Option A
coalesce (some a) b = some a
coalesce none b = b
