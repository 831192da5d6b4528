-- ===== src/Pipeline/Delivery/Deferred.antt =====
-- A deferral behind open breakers is not an attempt.
use xrelease.Base.{
  ℕ, ◌≡◌, refl, ◌∙◌, String, Bool, true, false, not, List, [], ◌∷◌, map, arith, select, contains,
  is_empty, if◌then◌else◌, Option-cases, inl, inr,
}
use xrelease.World.{World, ok, pure}
use xrelease.World.Relates.{Relates, Relates-ask, Relates-bind, Relates-best_effort}
use xrelease.World.Over.{IsOrder, Over, Over-span, Over-statement}
use xrelease.World.Ensures.{
  Ensures, Ensures-pure, Ensures-if, Ensures-any, Ensures-bind, Ensures-relates,
}
use xrelease.Notify.Event.{Event}
use xrelease.Store.Tables.{OutboxRow, SeenUpsert, Tables}
use xrelease.Store.Tables.Message.{no_matching_sinks}
use xrelease.Store.Rows.{update_where, find_where, has_id}
use xrelease.Store.Claim.{defer_delivery}
use xrelease.Store.Parent.{is_open, not_dead, complete_tables, set_dead, set_partial}
use xrelease.Pipeline.Attempt.{
  DeliveryAttempt, delivered_attempt, failed_attempt, deferred_attempt, apply_attempt_backoff,
}
use xrelease.Pipeline.Delivery.{
  complete_or_failed, finish, deliver_settled, deliver_drifted, deliver_indices, deliver_pending,
  deliver_matching, deliver_to_pending_sinks, back_off_attempt, attempt_notification_delivery,
  enriched,
}
use xrelease.Pipeline.Delivery.Steps.{Steps, deliver_indices-Over, ensure-Over, pending-Over}

-- The attempts that are counted, row by row.
abbrev pub counts : Tables → List ℕ
counts t = map (λ (r : OutboxRow). r.attempts) t.outbox

abbrev SameCounts : Tables → Tables → Type 0
SameCounts t u = counts u ≡ counts t

order : IsOrder SameCounts
order = record { same = λ t. refl; then_ = λ t u v h k. k ∙ h }

uncounted :
    (p : OutboxRow → Bool) (f : OutboxRow → OutboxRow) (rows : List OutboxRow)
    → ((r : OutboxRow) → (f r).attempts ≡ r.attempts)
    → map (λ (r : OutboxRow). r.attempts) (update_where p f rows)
      ≡ map (λ (r : OutboxRow). r.attempts) rows
unfolding update_where
uncounted p f [] e = refl
uncounted p f (r ∷ rows) e = ground (arith, e r, uncounted p f rows e)

complete-SameCounts :
    (id : ℕ) (source_id : String) (seen : SeenUpsert) (now : ℕ) (t : Tables)
    → SameCounts t (complete_tables id source_id seen now t).0
unfolding complete_tables
complete-SameCounts id source_id seen now t =
    elim (Option-cases (find_where (is_open id) t.outbox)) [
      | inl e ↦ rw (e, complete_tables) refl
      | inr (r, e) ↦ rw (e, complete_tables) (uncounted (is_open id) _ t.outbox (λ r. refl))
    ]

die-SameCounts : (id now : ℕ) (t : Tables) → SameCounts t (set_dead id now t).0
unfolding set_dead
die-SameCounts id now t = elim (Option-cases (find_where (not_dead id) t.outbox)) [
  | inl e ↦ rw (e, set_dead) refl
  | inr (r, e) ↦ rw (e, set_dead) (uncounted (not_dead id) _ t.outbox (λ r. refl))
]

steps : (id : ℕ) (source_id : String) (seen : SeenUpsert) → Steps SameCounts id source_id seen
unfolding set_partial
steps id source_id seen = record {
  open_ledger = λ sinks t. uncounted _ _ t.outbox (λ r. refl);
  ack = λ index now t. uncounted _ _ t.outbox (λ r. refl);
  fault = λ index error t. uncounted _ _ t.outbox (λ r. refl);
  abandon = λ indices error t. uncounted _ _ t.outbox (λ r. refl);
  complete = λ now t. complete-SameCounts id source_id seen now t;
  die = λ now t. die-SameCounts id now t;
  partial = λ now t. uncounted _ _ t.outbox (λ r. refl);
  delay = λ until t. uncounted _ _ t.outbox (λ r. refl);
}

module _ (id : ℕ) (source_id : String) (seen : SeenUpsert) (t : Tables) where
  -- What an attempt that is a deferral promises.
  abbrev Deferral : DeliveryAttempt → World → Type 0
  Deferral attempt w = attempt.deferred_only ≡ true → SameCounts t w.tables

  failed-Deferral : {P : World → Type 0} → Ensures P (pure failed_attempt) Deferral
  failed-Deferral = Ensures-pure failed_attempt (λ w p e. absurd (cc))

  complete-Deferral :
      {P : World → Type 0} → Ensures P (complete_or_failed id source_id seen) Deferral
  unfolding complete_or_failed
  complete-Deferral = Ensures-bind _ _ (Ensures-any _) after
    where
      after :
          (completed : Bool)
          → Ensures
              (λ _. Unit {0})
              (pure (if completed then delivered_attempt else failed_attempt))
              Deferral
      after true = Ensures-pure delivered_attempt (λ w p e. absurd (cc))
      after false = failed-Deferral

  finish-Deferral :
      {P : World → Type 0} (complete : Bool)
      → Ensures P (finish id source_id seen complete) Deferral
  unfolding finish
  finish-Deferral true = complete-Deferral
  finish-Deferral false = Ensures-bind _ _ (Ensures-any _) (λ _. failed-Deferral)

  settled-Deferral : {P : World → Type 0} → Ensures P (deliver_settled id source_id seen) Deferral
  unfolding deliver_settled
  settled-Deferral = Ensures-bind _ _ (Ensures-any _) finish-Deferral

  pending-Deferral :
      (event : Event) (matching pending : List ℕ)
      → Ensures
          (λ w. SameCounts t w.tables)
          (deliver_pending id event source_id seen matching pending)
          Deferral
  unfolding deliver_pending deliver_drifted
  pending-Deferral event matching pending =
      let indices = select (contains matching) pending in
      let orphans = select (λ i. not (contains matching i)) pending in
      let drifted = deliver_drifted id source_id (no_matching_sinks event.routing_tag) in
      let called = deliver_indices id event source_id seen orphans indices in
      let same =
        Ensures-relates order called t
          (deliver_indices-Over order (steps id source_id seen) event orphans indices) in
      Ensures-if (is_empty pending) (deliver_settled id source_id seen)
        (if is_empty indices then drifted else called) (λ _. settled-Deferral)
        (λ _.
          Ensures-if (is_empty indices) drifted called
            (λ _. Ensures-bind _ _ (Ensures-any _) (λ _.
              Ensures-bind _ _ (Ensures-any _)
                (λ _. Ensures-bind _ _ (Ensures-any _) (λ _. failed-Deferral))))
            (λ _. record { at = λ w a p e d. same.at w a p e }))

  matching-Deferral :
      (event : Event) (matching : List ℕ)
      → Ensures
          (λ w. SameCounts t w.tables)
          (deliver_matching id event source_id seen matching)
          Deferral
  unfolding deliver_matching
  matching-Deferral event [] = Ensures-bind _ _ (Ensures-any _) (λ _. failed-Deferral)
  matching-Deferral event (i ∷ matching) =
      Ensures-bind _ _ (Ensures-relates order _ t (Relates-ask (Over-span order) _)) (λ sinks.
        Ensures-bind _ _
          (Ensures-relates order _ t (ensure-Over order (steps id source_id seen) sinks))
          (λ _.
            Ensures-bind _ _
              (Ensures-relates order _ t (pending-Over order (steps id source_id seen)))
              (λ pending. pending-Deferral event (i ∷ matching) pending)))

  deliver-Deferral :
      (event : Event)
      → Ensures
          (λ w. SameCounts t w.tables)
          (deliver_to_pending_sinks id event source_id seen)
          Deferral
  unfolding deliver_to_pending_sinks
  deliver-Deferral event =
      Ensures-bind _ _ (Ensures-relates order _ t (Relates-ask (Over-span order) _))
        (λ matching. matching-Deferral event matching)

back_off-SameCounts :
    (id before : ℕ) → Relates (Over SameCounts) (back_off_attempt id before (ok deferred_attempt))
unfolding back_off_attempt apply_attempt_backoff defer_delivery
back_off-SameCounts id before =
    Relates-bind (Over-span order) _ _ (Relates-ask (Over-span order) _) (λ max_secs.
      Relates-best_effort (Over-span order) _
        (Over-statement order _ (λ now t. uncounted (has_id id) _ t.outbox (λ r. refl))))

-- If the delivery of the event as enriched ends in a deferral, then no row's count of attempts has
-- changed when the attempt has ended, the backoff included.
pub attempt_notification_delivery-deferred :
    (id before : ℕ) (event : Event) (source_id : String) (seen : SeenUpsert) (w : World)
    → (deliver_to_pending_sinks id (enriched w event) source_id seen w).0 ≡ ok deferred_attempt
    → counts (attempt_notification_delivery id before event source_id seen w).1.tables
      ≡ counts w.tables
unfolding attempt_notification_delivery
attempt_notification_delivery-deferred id before event source_id seen w e =
    let (outcome, v) = deliver_to_pending_sinks id (enriched w event) source_id seen w in
    let delivered =
      (deliver-Deferral id source_id seen w.tables (enriched w event)).at w deferred_attempt refl e
        refl in
    rw e ((back_off-SameCounts id before).at v ∙ delivered)
