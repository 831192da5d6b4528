-- ===== src/Notify/Composite.antt =====
-- `Sink`, `RoutedSink` and `CompositeNotifier` of src/notify/mod.rs: the parts that make no call.
use xrelease.Base.{
  ℕ, suc, String, Bool, true, Option, none, some, List, [], ◌∷◌, ◌++◌, map, get_elem?, set,
  if◌then◌else◌,
}
use xrelease.Breaker.{Breaker}
use xrelease.Breaker
use xrelease.Notify.Event.{Event}
use xrelease.Notify.Routing.{event_matches_sink_tags, non_blank}

-- The backends; each but Apprise has the `name` of its configuration.
pub data Sink : Type 0 where
  apprise : Sink
  webhook express novu slack telegram smtp kafka nats rabbitmq : String → Sink

unfoldable pub sink_kind : Sink → String
sink_kind apprise = "apprise"
sink_kind (webhook n) = "webhook"
sink_kind (express n) = "express"
sink_kind (novu n) = "novu"
sink_kind (slack n) = "slack"
sink_kind (telegram n) = "telegram"
sink_kind (smtp n) = "smtp"
sink_kind (kafka n) = "kafka"
sink_kind (nats n) = "nats"
sink_kind (rabbitmq n) = "rabbitmq"

sink_name : Sink → Option String
sink_name apprise = none
sink_name (webhook n) = some n
sink_name (express n) = some n
sink_name (novu n) = some n
sink_name (slack n) = some n
sink_name (telegram n) = some n
sink_name (smtp n) = some n
sink_name (kafka n) = some n
sink_name (nats n) = some n
sink_name (rabbitmq n) = some n

unfoldable pub sink_label : Sink → String
unfolding sink_name non_blank sink_kind
sink_label s = elim (non_blank (sink_name s)) [ none ↦ sink_kind s | some n ↦ n ]

pub record RoutedSink : Type 0 where
  pub inner : Sink
  pub tags : List String

unfoldable pub sink_matches : RoutedSink → Event → Bool
sink_matches s event = event_matches_sink_tags event s.tags

pub record BreakerConfig : Type 0 where
  pub failure_threshold : ℕ
  pub cooldown : ℕ

pub record CompositeNotifier : Type 0 where
  pub sinks : List RoutedSink
  pub breakers : List Breaker
  pub breaker_config : BreakerConfig
  pub newly_opened : List String

unfoldable pub with_breaker_config : List RoutedSink → BreakerConfig → CompositeNotifier
with_breaker_config sinks config = record {
  sinks = sinks;
  breakers = map (λ _. Breaker.new) sinks;
  breaker_config = config;
  newly_opened = [];
}

-- The indices, from `i` on, of the sinks that the event goes to.
unfoldable pub matching_from : ℕ → List RoutedSink → Event → List ℕ
matching_from i [] event = []
matching_from i (s ∷ sinks) event =
    let rest = matching_from (suc i) sinks event in if sink_matches s event then i ∷ rest else rest

unfoldable pub matching_indices : CompositeNotifier → Event → List ℕ
matching_indices n event = matching_from 0 n.sinks event

unfoldable pub kind_at : CompositeNotifier → ℕ → String
kind_at n index = elim (get_elem? n.sinks index) [ none ↦ "unknown" | some s ↦ sink_kind s.inner ]

unfoldable pub label_at : CompositeNotifier → ℕ → String
label_at n index = elim (get_elem? n.sinks index) [ none ↦ "unknown" | some s ↦ sink_label s.inner ]

unfoldable pub breaker_allows : CompositeNotifier → ℕ → ℕ → Bool
breaker_allows n index now = elim (get_elem? n.breakers index) [
  | none ↦ true
  | some b ↦ Breaker.allows b now
]

-- The notifier after the outcome, and the label when the breaker newly opens.
unfoldable pub record_breaker_outcome :
    CompositeNotifier → ℕ → Bool → ℕ → CompositeNotifier × Option String
record_breaker_outcome n index success now = elim (get_elem? n.breakers index) [
  | none ↦ (n, none)
  | some b ↦
      let (b', newly_opened) =
        Breaker.record_outcome b now success c.failure_threshold c.cooldown in
      (
        record n { breakers = set n.breakers index b' },
        if newly_opened then some (label_at n index) else none,
      )
]
  where
    open n use {breaker_config as c}

-- `self.newly_opened.lock().push(label)`, where there is one
unfoldable pub push_opened : CompositeNotifier × Option String → CompositeNotifier
push_opened (n, none) = n
push_opened (n, some label) = record n { newly_opened = n.newly_opened ++ label ∷ [] }

unfoldable pub drain_newly_opened_breakers : CompositeNotifier → CompositeNotifier × List String
drain_newly_opened_breakers n = (record n { newly_opened = [] }, n.newly_opened)
