-- ===== src/Engine/Quiet.antt =====
-- Calling backends and raising alerts changes no table.
use xrelease.Base.{ℕ, String, Bool, true, false, Option, none, some, List, [], ◌∷◌, refl}
use xrelease.World.Relates.{
  IsSpan, Relates, Relates-pure, Relates-ask, Relates-if, Relates-bind, Relates-when,
  Relates-for_each, Relates-collect, Relates-best_effort, Relates-query,
}
use xrelease.World.Over.{IsOrder, Over, Over-span, Over-statement, Over-modify}
use xrelease.Notify.Event.{Event}
use xrelease.Notify.Composite.{RoutedSink}
use xrelease.Notify.Fanout.{
  call_backend, record_outcome, dial, notify_allowed, notify_routed, notify_found, notify_one,
  notify_partial, notify_matching, notify,
}
use xrelease.Engine.{alert_tagged, emit_ops_alert}
use xrelease.Store.Tables.{Tables}

module _ {T : Tables → Tables → Type 0} (order : IsOrder T) where
  pub span : IsSpan (Over T)
  span = Over-span order

  pub ruleset walk = (
    Relates-pure, Relates-ask, Relates-if, Relates-bind, Relates-when, Relates-query,
    Relates-best_effort, Over-modify, span,
  )

  call_backend-Over : (index : ℕ) (event : Event) → Relates (Over T) (call_backend index event)
  unfolding call_backend
  call_backend-Over index event = record { at = λ w. span.time w }

  dial-Over : (event : Event) (index : ℕ) → Relates (Over T) (dial event index)
  unfolding dial record_outcome
  dial-Over event index =
      Relates-bind span (call_backend index event) _ (call_backend-Over index event) (λ reply.
        Relates-bind span _ _ (Over-modify order _ (λ w. refl)) (λ _. Relates-pure span _))

  notify_allowed-Over :
      (event : Event) (index : ℕ) (s : RoutedSink) (allowed : Bool)
      → Relates (Over T) (notify_allowed event index s allowed)
  unfolding notify_allowed
  notify_allowed-Over event index s true = dial-Over event index
  notify_allowed-Over event index s false = search walk

  notify_routed-Over :
      (event : Event) (index : ℕ) (s : RoutedSink) → Relates (Over T) (notify_routed event index s)
  unfolding notify_routed
  notify_routed-Over event index s = search (walk, notify_allowed-Over)

  notify_found-Over :
      (event : Event) (index : ℕ) (s : Option RoutedSink)
      → Relates (Over T) (notify_found event index s)
  unfolding notify_found
  notify_found-Over event index none = search walk
  notify_found-Over event index (some s) = notify_routed-Over event index s

  notify_one-Over : (event : Event) (index : ℕ) → Relates (Over T) (notify_one event index)
  unfolding notify_one
  notify_one-Over event index = search (walk, notify_found-Over)

  pub notify_partial-Over :
      (event : Event) (indices : List ℕ) → Relates (Over T) (notify_partial event indices)
  unfolding notify_partial
  notify_partial-Over event indices =
      Relates-collect span indices (notify_one event) (notify_one-Over event)

  notify_matching-Over :
      (event : Event) (indices : List ℕ) → Relates (Over T) (notify_matching event indices)
  unfolding notify_matching
  notify_matching-Over event [] = search walk
  notify_matching-Over event (i ∷ indices) = search (walk, notify_partial-Over)

  alert_tagged-Over :
      (title body : String) (tag : Option String) → Relates (Over T) (alert_tagged title body tag)
  unfolding alert_tagged notify
  alert_tagged-Over title body none = search walk
  alert_tagged-Over title body (some tag) = search (walk, notify_matching-Over)

  pub emit_ops_alert-Over : (title body : String) → Relates (Over T) (emit_ops_alert title body)
  unfolding emit_ops_alert
  emit_ops_alert-Over title body = search (walk, alert_tagged-Over)
