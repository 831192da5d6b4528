-- ===== src/Pipeline/Delivery/Outcome.antt =====
-- What the outcome of a delivery attempt says of the tables.
use xrelease.Base.{
  ℕ, String, Bool, true, false, not, ◌≡◌, refl, ap, ◌∙◌, none, some, List, [], ◌∷◌, any, arith,
  ◌&&◌, if◌then◌else◌, Bool-cases, Option-cases, inl, inr, eq_refl, is_empty, select, contains,
}
use xrelease.World.{World, Result, ok, err, Action, pure, query, pass_time}
use xrelease.World.Ensures.{
  Ensures, Ensures-pure, Ensures-if, Ensures-statement, Ensures-any, Ensures-bind,
}
use xrelease.Notify.Event.{Event}
use xrelease.Store.Tables.{is_sent, Message, OutboxRow, SeenUpsert, SeenRow, Tables}
use xrelease.Store.Tables.Message.{no_matching_sinks}
use xrelease.Store.Rows.{update_where, find_where, has_id, complete_row}
use xrelease.Store.Ledger.{all_sent, ledger_of, sinks_delivery_complete}
use xrelease.Store.Parent.{is_open, is_seen_as, upsert_seen, complete_tables, complete_notification}
use xrelease.Pipeline.Attempt.{DeliveryAttempt, delivered_attempt, failed_attempt}
use xrelease.Pipeline.Delivery.{
  Flags, complete_or_failed, finish, deliver_settled, deliver_drifted, conclude, conclude_complete,
  deliver_indices, deliver_pending, deliver_matching, deliver_to_pending_sinks, back_off_attempt,
  attempt_notification_delivery, enriched, unsuccessful, delivered_of,
}

abbrev pub is_sent_as : ℕ → OutboxRow → Bool
is_sent_as id r = has_id id r && is_sent r.status

-- The row is `sent`, every row of its ledger is, and its release is in the catalogue.
pub record Delivered (id : ℕ) (source_id identity : String) (t : Tables) : Type 0 where
  pub row : any (is_sent_as id) t.outbox ≡ true
  pub ledger : all_sent (ledger_of id t) ≡ true
  pub seen : any (is_seen_as source_id identity) t.seen ≡ true

any-complete_row :
    (id now : ℕ) (rows : List OutboxRow) {r : OutboxRow}
    → find_where (is_open id) rows ≡ some r
    → any (is_sent_as id) (update_where (is_open id) (complete_row now) rows) ≡ true
unfolding find_where update_where
any-complete_row id now [] e = absurd (cc)
any-complete_row id now (x ∷ rows) {r} e = ground (arith, any-complete_row id now rows {r = r})

ledger-complete_row :
    (id now : ℕ) (rows : List OutboxRow)
    → (elim (find_where (has_id id) (update_where (is_open id) (complete_row now) rows)) [
      | none ↦ []
      | some r ↦ r.sinks
    ])
      ≡ elim (find_where (has_id id) rows) [ none ↦ [] | some r ↦ r.sinks ]
unfolding find_where update_where
ledger-complete_row id now [] = refl
ledger-complete_row id now (x ∷ rows) = ground (arith, ledger-complete_row id now rows)

any-upsert_seen :
    (source_id : String) (item : SeenUpsert) (now : ℕ) (rows : List SeenRow)
    → any (is_seen_as source_id item.identity) (upsert_seen source_id item now rows) ≡ true
unfolding upsert_seen
any-upsert_seen source_id item now [] = simp eq_refl
any-upsert_seen source_id item now (row ∷ rows) =
    elim (Bool-cases (is_seen_as source_id item.identity row)) [
      | inl e ↦ rw (e, e) refl
      | inr e ↦ rw (e, e) (any-upsert_seen source_id item now rows)
    ]

complete_tables-Delivered :
    (id : ℕ) (source_id : String) (seen : SeenUpsert) (now : ℕ) (t : Tables)
    → all_sent (ledger_of id t) ≡ true
    → (complete_tables id source_id seen now t).1 ≡ true
    → Delivered id source_id seen.identity (complete_tables id source_id seen now t).0
unfolding complete_tables ledger_of
complete_tables-Delivered id source_id seen now t h e =
    elim (Option-cases (find_where (is_open id) t.outbox)) [
      | inl f ↦ absurd (cc)
      | inr (r, f) ↦
          rw (f, complete_tables)
            (record {
              row = any-complete_row id now t.outbox f;
              ledger = ap all_sent (ledger-complete_row id now t.outbox) ∙ h;
              seen = any-upsert_seen source_id seen now t.seen;
            })
    ]

module _ (id : ℕ) (source_id : String) (seen : SeenUpsert) where
  -- What an attempt that says `delivered` promises.
  abbrev Promise : DeliveryAttempt → World → Type 0
  Promise attempt w = attempt.delivered ≡ true → Delivered id source_id seen.identity w.tables

  abbrev Settled : Bool → World → Type 0
  Settled complete w = complete ≡ true → all_sent (ledger_of id w.tables) ≡ true

  failed-Promise : {P : World → Type 0} → Ensures P (pure failed_attempt) Promise
  failed-Promise = Ensures-pure failed_attempt (λ w p e. absurd (cc))

  complete_or_failed-Promise :
      Ensures
        (λ w. all_sent (ledger_of id w.tables) ≡ true)
        (complete_or_failed id source_id seen)
        Promise
  unfolding complete_or_failed complete_notification pass_time
  complete_or_failed-Promise =
      Ensures-bind
        {S = λ completed w. completed ≡ true → Delivered id source_id seen.identity w.tables} _ _
        (Ensures-statement (complete_tables id source_id seen)
          (λ w h e. complete_tables-Delivered id source_id seen _ w.tables h e))
        after
    where
      after :
          (completed : Bool)
          → Ensures
              (λ w. completed ≡ true → Delivered id source_id seen.identity w.tables)
              (pure (if completed then delivered_attempt else failed_attempt))
              Promise
      after true = Ensures-pure delivered_attempt (λ w p e. p refl)
      after false = failed-Promise

  settled : {P : World → Type 0} → Ensures P (sinks_delivery_complete id) Settled
  unfolding sinks_delivery_complete query
  settled = Ensures-statement (λ now t. (t, all_sent (ledger_of id t))) (λ w p e. e)

  strengthen :
      {P P' : World → Type 0} {m : Action DeliveryAttempt}
      → ((w : World) → P' w → P w)
      → Ensures P m Promise
      → Ensures P' m Promise
  strengthen f h = record { at = λ w a p e. h.at w a (f w p) e }

  finish-Promise :
      (complete : Bool) → Ensures (Settled complete) (finish id source_id seen complete) Promise
  unfolding finish
  finish-Promise true = strengthen (λ w p. p refl) complete_or_failed-Promise
  finish-Promise false = Ensures-bind _ _ (Ensures-any _) (λ _. failed-Promise)

  settled-Promise : {P : World → Type 0} → Ensures P (deliver_settled id source_id seen) Promise
  unfolding deliver_settled
  settled-Promise = Ensures-bind _ _ settled finish-Promise

  drifted-Promise :
      {P : World → Type 0} (error : Message)
      → Ensures P (deliver_drifted id source_id error) Promise
  unfolding deliver_drifted
  drifted-Promise error = Ensures-bind _ _ (Ensures-any _) (λ _.
      Ensures-bind _ _ (Ensures-any _)
        (λ _. Ensures-bind _ _ (Ensures-any _) (λ _. failed-Promise)))

  conclude_complete-Promise :
      (complete : Bool)
      → Ensures (Settled complete) (conclude_complete id source_id seen complete) Promise
  unfolding conclude_complete
  conclude_complete-Promise true = strengthen (λ w p. p refl) complete_or_failed-Promise
  conclude_complete-Promise false = failed-Promise

  unsuccessful-Promise :
      {P : World → Type 0} (flags : Flags) → Ensures P (pure (unsuccessful flags)) Promise
  unsuccessful-Promise flags = elim (Bool-cases flags.any_real_failure) [
    | inl e ↦ rw e failed-Promise
    | inr e ↦ rw e (Ensures-pure _ (λ w p e. absurd (cc)))
  ]

  conclude-Promise :
      {P : World → Type 0} (flags : Flags) → Ensures P (conclude id source_id seen flags) Promise
  unfolding conclude
  conclude-Promise flags =
      Ensures-if flags.any_failed _ _ (λ _. unsuccessful-Promise flags)
        (λ _. Ensures-bind _ _ settled conclude_complete-Promise)

  indices-Promise :
      {P : World → Type 0} (event : Event) (orphans indices : List ℕ)
      → Ensures P (deliver_indices id event source_id seen orphans indices) Promise
  unfolding deliver_indices
  indices-Promise event orphans indices = Ensures-bind _ _ (Ensures-any _) (λ _.
      Ensures-bind _ _ (Ensures-any _) (λ _. Ensures-bind _ _ (Ensures-any _) (λ _.
        Ensures-bind _ _ (Ensures-any _)
          (λ flags. Ensures-bind _ _ (Ensures-any _) (λ _. conclude-Promise flags)))))

  pending-Promise :
      {P : World → Type 0} (event : Event) (matching pending : List ℕ)
      → Ensures P (deliver_pending id event source_id seen matching pending) Promise
  unfolding deliver_pending
  pending-Promise event matching pending =
      let indices = select (contains matching) pending in
      let orphans = select (λ i. not (contains matching i)) pending in
      let error = no_matching_sinks event.routing_tag in
      let drifted = deliver_drifted id source_id error in
      let called = deliver_indices id event source_id seen orphans indices in
      Ensures-if (is_empty pending) (deliver_settled id source_id seen)
        (if is_empty indices then drifted else called) (λ _. settled-Promise)
        (λ _.
          Ensures-if (is_empty indices) drifted called (λ _. drifted-Promise error)
            (λ _. indices-Promise event orphans indices))

  matching-Promise :
      {P : World → Type 0} (event : Event) (matching : List ℕ)
      → Ensures P (deliver_matching id event source_id seen matching) Promise
  unfolding deliver_matching
  matching-Promise event [] = Ensures-bind _ _ (Ensures-any _) (λ _. failed-Promise)
  matching-Promise event (i ∷ matching) = Ensures-bind _ _ (Ensures-any _) (λ _.
      Ensures-bind _ _ (Ensures-any _) (λ _.
        Ensures-bind _ _ (Ensures-any _) (λ pending. pending-Promise event (i ∷ matching) pending)))

  deliver-Promise :
      (event : Event)
      → Ensures (λ w. Unit {0}) (deliver_to_pending_sinks id event source_id seen) Promise
  unfolding deliver_to_pending_sinks
  deliver-Promise event =
      Ensures-bind _ _ (Ensures-any _) (λ matching. matching-Promise event matching)

  after_back_off :
      (before : ℕ) (x : Result DeliveryAttempt × World)
      → ((a : DeliveryAttempt) → x.0 ≡ ok a → Promise a x.1)
      → delivered_of x.0 ≡ ok true
      → Delivered id source_id seen.identity (back_off_attempt id before x.0 x.1).1.tables
  unfolding back_off_attempt pure
  after_back_off before (ok a, v) p e = let f : a.delivered ≡ true = cc in rw f (p a refl f)
  after_back_off before (err e', v) p e = absurd (cc)

-- When an attempt returns that the row is delivered, then a row with this id stands in the table as
-- `sent`, its ledger is complete (it is empty, or all its rows are `sent`), and its release is in
-- the catalogue of its source: no delivery is reported that is not on record.
pub attempt_notification_delivery-Delivered :
    (id before : ℕ) (event : Event) (source_id : String) (seen : SeenUpsert) (w : World)
    → (attempt_notification_delivery id before event source_id seen w).0 ≡ ok true
    → Delivered id source_id seen.identity
        (attempt_notification_delivery id before event source_id seen w).1.tables
unfolding attempt_notification_delivery
attempt_notification_delivery-Delivered id before event source_id seen w e =
    after_back_off id source_id seen before
      (deliver_to_pending_sinks id (enriched w event) source_id seen w)
      (λ a h. (deliver-Promise id source_id seen (enriched w event)).at w a tt h) e
