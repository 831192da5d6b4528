-- ===== src/Notify/Event.antt =====
-- The notification `Event` of src/notify/mod.rs and the `NotifyError` of src/error.rs.
use xrelease.Base.{ℕ, String, Option}

pub record Event : Type 0 where
  pub source_id : String
  pub source_kind : String
  pub title : String
  pub body : String
  pub url : Option String
  pub routing_tag : Option String

-- What one backend can answer when it does not deliver; the text stands for its rendered details.
pub data SinkError : Type 0 where
  http misconfigured : String → SinkError
  rejected : String → ℕ → String → SinkError
  backend : String → String → SinkError

pub data NotifyError : Type 0 where
  sink_error : SinkError → NotifyError
  -- "sink index {index} out of range ({} configured)"
  out_of_range : ℕ → ℕ → NotifyError
  -- "no notifier matches team routing tag {:?}"
  no_notifier : Option String → NotifyError
  -- how many sinks failed, and of how many
  fan_out : ℕ → ℕ → NotifyError
  breaker_open : String → NotifyError
