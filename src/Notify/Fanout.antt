-- ===== src/Notify/Fanout.antt =====
-- `CompositeNotifier::notify_partial` and `notify` of src/notify/mod.rs. The calls of one fan-out
-- are concurrent in the program; here they are made in the order of the indices, which is one of
-- the interleavings: each touches the breaker of its own sink only.
use mathlib.Core.Option
use xrelease.Base.{
  ℕ, Bool, true, false, Option, none, some, List, [], ◌∷◌, ◌++◌, length, get_elem?, ◌==◌, count_if,
  if◌then◌else◌,
}
use xrelease.World.{World, Action, ok, pure, ask, pass_time, modify, collect, ◌>>=◌, ◌>>◌}
use xrelease.Notify.Event.{
  Event, SinkError, NotifyError, sink_error, out_of_range, no_notifier, fan_out, breaker_open,
}
use xrelease.Notify.Composite.{
  RoutedSink, sink_kind, sink_matches, matching_indices, breaker_allows, record_breaker_outcome,
  push_opened,
}

-- `Result<(), NotifyError>`: `none` is `Ok(())`.
abbrev pub Delivery : Type 0
Delivery = Option NotifyError

abbrev pub is_ok {ℓ} : {A : Type ℓ} → Option A → Bool
is_ok none = true
is_ok (some e) = false

-- `sink.notify(event)`: the backend answers.
unfoldable pub call_backend : ℕ → Event → Action (Option SinkError)
call_backend index event w = (
  ok (w.env.reply w.interactions index event),
  record (pass_time w) { calls = w.calls ++ record { index = index; event = event } ∷ [] },
)

-- Record the outcome in the sink's breaker, and keep the label of a breaker that newly opens.
unfoldable pub record_outcome : ℕ → Bool → World → World
record_outcome index success w = record w {
  notifier = push_opened (record_breaker_outcome w.notifier index success w.now);
}

unfoldable pub dial : Event → ℕ → Action (ℕ × Delivery)
dial event index = do
  reply ← call_backend index event
  modify (record_outcome index (is_ok reply))
  pure (index, Option.map sink_error reply)

unfoldable pub notify_allowed : Event → ℕ → RoutedSink → Bool → Action (ℕ × Delivery)
notify_allowed event index s true = dial event index
notify_allowed event index s false = pure (index, some (breaker_open (sink_kind s.inner)))

unfoldable pub notify_routed : Event → ℕ → RoutedSink → Action (ℕ × Delivery)
notify_routed event index s =
    if sink_matches s event
    then (do
      allowed ← ask (λ w. breaker_allows w.notifier index w.now)
      notify_allowed event index s allowed)
    else pure (index, none)

unfoldable pub notify_found : Event → ℕ → Option RoutedSink → Action (ℕ × Delivery)
notify_found event index none = do
  configured ← ask (λ w. length w.notifier.sinks)
  pure (index, some (out_of_range index configured))
notify_found event index (some s) = notify_routed event index s

unfoldable pub notify_one : Event → ℕ → Action (ℕ × Delivery)
notify_one event index = do
  sink ← ask (λ w. get_elem? w.notifier.sinks index)
  notify_found event index sink

unfoldable pub notify_partial : Event → List ℕ → Action (List (ℕ × Delivery))
notify_partial event indices = collect indices (notify_one event)

abbrev has_failed : ℕ × Delivery → Bool
has_failed (index, none) = false
has_failed (index, some e) = true

-- The aggregate of `Notifier for CompositeNotifier`.
unfoldable pub aggregate : List (ℕ × Delivery) → Delivery
aggregate results =
    let failures = count_if has_failed results in
    if failures == 0 then none else some (fan_out failures (length results))

unfoldable pub notify_matching : Event → List ℕ → Action Delivery
notify_matching event [] = pure (some (no_notifier event.routing_tag))
notify_matching event (i ∷ indices) = do
  results ← notify_partial event (i ∷ indices)
  pure (aggregate results)

unfoldable pub notify : Event → Action Delivery
notify event = do
  matching ← ask (λ w. matching_indices w.notifier event)
  notify_matching event matching
