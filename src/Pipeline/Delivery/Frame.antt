-- ===== src/Pipeline/Delivery/Frame.antt =====
-- What a delivery attempt leaves alone.
use xrelease.Base.{
  ℕ, ◌≡◌, refl, ap, ◌∙◌, String, Bool, true, not, none, List, [], ◌∷◌, map, arith, ◌==◌,
  if◌then◌else◌, select, Bool-cases, inl, inr, eq_refl, Option-cases,
}
use xrelease.World.{World}
use xrelease.World.Over.{IsOrder}
use xrelease.Notify.Event.{Event}
use xrelease.Store.Tables.{pending, OutboxRow, SeenUpsert, SeenRow, Tables}
use xrelease.Store.Rows.{update_where, find_where, has_id}
use xrelease.Store.Parent.{
  is_open, not_dead, is_seen_as, upsert_seen, complete_tables, fail_tables, set_dead, set_partial,
}
use xrelease.Pipeline.Delivery.{attempt_notification_delivery}
use xrelease.Pipeline.Delivery.Steps.{Steps, CountingSteps}
use xrelease.Pipeline.Delivery.Whole.{attempt-Over}

-- A row without its delivery bookkeeping.
abbrev pub content : OutboxRow → OutboxRow
content r = record r {
  status = pending;
  attempts = 0;
  last_error = none;
  sent_at = none;
  locked_until = none;
  sinks = [];
}

-- The table as those see it who may not look at the bookkeeping of one row.
abbrev pub apart_from : ℕ → List OutboxRow → List OutboxRow
apart_from id rows = map (λ (r : OutboxRow). if r.id == id then content r else r) rows

abbrev pub unseen_by : String → String → List SeenRow → List SeenRow
unseen_by source_id identity rows = select (λ s. not (is_seen_as source_id identity s)) rows

pub record SameApart (id : ℕ) (source_id identity : String) (t u : Tables) : Type 0 where
  pub outbox : apart_from id u.outbox ≡ apart_from id t.outbox
  pub next_id : u.next_id ≡ t.next_id
  pub seen : unseen_by source_id identity u.seen ≡ unseen_by source_id identity t.seen
  pub sources : u.sources ≡ t.sources

apart-update_where :
    (id : ℕ) (p : OutboxRow → Bool) (f : OutboxRow → OutboxRow) (rows : List OutboxRow)
    → ((r : OutboxRow) → p r ≡ true → r.id ≡ id)
    → ((r : OutboxRow) → content (f r) ≡ content r)
    → ((r : OutboxRow) → (f r).id ≡ r.id)
    → apart_from id (update_where p f rows) ≡ apart_from id rows
unfolding update_where
apart-update_where id p f [] own same key = refl
apart-update_where id p f (r ∷ rows) own same key =
    ground (arith, own r, same r, key r, apart-update_where id p f rows own same key)

unseen-upsert :
    (source_id : String) (item : SeenUpsert) (now : ℕ) (rows : List SeenRow)
    → unseen_by source_id item.identity (upsert_seen source_id item now rows)
      ≡ unseen_by source_id item.identity rows
unfolding upsert_seen
unseen-upsert source_id item now [] = simp eq_refl
unseen-upsert source_id item now (row ∷ rows) =
    elim (Bool-cases (is_seen_as source_id item.identity row)) [
      | inl e ↦ rw (e, e)
      | inr e ↦ rw (e, e) (ap (λ xs. row ∷ xs) (unseen-upsert source_id item now rows))
    ]

SameApart-order : (id : ℕ) (source_id identity : String) → IsOrder (SameApart id source_id identity)
SameApart-order id source_id identity = record {
  same = λ t. record { outbox = refl; next_id = refl; seen = refl; sources = refl };
  then_ = λ t u v h k. record {
    outbox = k.outbox ∙ h.outbox;
    next_id = k.next_id ∙ h.next_id;
    seen = k.seen ∙ h.seen;
    sources = k.sources ∙ h.sources;
  };
}

-- An update of the bookkeeping of the row.
bookkeeping :
    (id : ℕ) (source_id identity : String) (t : Tables) (p : OutboxRow → Bool)
    (f : OutboxRow → OutboxRow)
    → ((r : OutboxRow) → p r ≡ true → r.id ≡ id)
    → ((r : OutboxRow) → content (f r) ≡ content r)
    → ((r : OutboxRow) → (f r).id ≡ r.id)
    → SameApart id source_id identity t (record t { outbox = update_where p f t.outbox })
bookkeeping id source_id identity t p f own same key = record {
  outbox = apart-update_where id p f t.outbox own same key;
  next_id = refl;
  seen = refl;
  sources = refl;
}

complete-SameApart :
    (id : ℕ) (source_id : String) (seen : SeenUpsert) (now : ℕ) (t : Tables)
    → SameApart id source_id seen.identity t (complete_tables id source_id seen now t).0
unfolding complete_tables
complete-SameApart id source_id seen now t =
    elim (Option-cases (find_where (is_open id) t.outbox)) [
      | inl e ↦ rw (e, complete_tables) ((SameApart-order id source_id seen.identity).same t)
      | inr (r, e) ↦
          rw (e, complete_tables)
            (record {
              outbox =
                  apart-update_where id _ _ t.outbox (λ r e. ground arith) (λ r. refl) (λ r. refl);
              next_id = refl;
              seen = unseen-upsert source_id seen now t.seen;
              sources = refl;
            })
    ]

die-SameApart :
    (id : ℕ) (source_id identity : String) (now : ℕ) (t : Tables)
    → SameApart id source_id identity t (set_dead id now t).0
unfolding set_dead
die-SameApart id source_id identity now t =
    elim (Option-cases (find_where (not_dead id) t.outbox)) [
      | inl e ↦ rw (e, set_dead) ((SameApart-order id source_id identity).same t)
      | inr (r, e) ↦
          rw (e, set_dead)
            (bookkeeping id source_id identity t _ _ (λ r e. ground arith) (λ r. refl) (λ r. refl))
    ]

own_id : (id : ℕ) (r : OutboxRow) → has_id id r ≡ true → r.id ≡ id
own_id id r e = ground arith

frame-Steps :
    (id : ℕ) (source_id : String) (seen : SeenUpsert)
    → Steps (SameApart id source_id seen.identity) id source_id seen
unfolding set_partial
frame-Steps id source_id seen = record {
  open_ledger = λ sinks t. bookkeeping id _ _ t _ _ (own_id id) (λ r. refl) (λ r. refl);
  ack = λ index now t. bookkeeping id _ _ t _ _ (own_id id) (λ r. refl) (λ r. refl);
  fault = λ index error t. bookkeeping id _ _ t _ _ (own_id id) (λ r. refl) (λ r. refl);
  abandon = λ indices error t. bookkeeping id _ _ t _ _ (own_id id) (λ r. refl) (λ r. refl);
  complete = λ now t. complete-SameApart id source_id seen now t;
  die = λ now t. die-SameApart id source_id seen.identity now t;
  partial = λ now t. bookkeeping id _ _ t _ _ (λ r e. ground arith) (λ r. refl) (λ r. refl);
  delay = λ until t. bookkeeping id _ _ t _ _ (own_id id) (λ r. refl) (λ r. refl);
}

frame-CountingSteps :
    (id : ℕ) (source_id identity : String) → CountingSteps (SameApart id source_id identity) id
unfolding fail_tables
frame-CountingSteps id source_id identity = record {
  fail = λ error now t. bookkeeping id _ _ t _ _ (own_id id) (λ r. refl) (λ r. refl);
  count = λ until t. bookkeeping id _ _ t _ _ (own_id id) (λ r. refl) (λ r. refl);
}

-- Whatever the backends answer and whichever statement fails, an attempt to deliver a row changes
-- of the outbox at most the delivery bookkeeping of that row (status, attempts, error, times,
-- ledger), and of the catalogue at most the release that the row is about. Every other row, the
-- row's own message and digest, the sequence of ids and the states of the sources are as they were.
pub attempt_notification_delivery-SameApart :
    (id before : ℕ) (event : Event) (source_id : String) (seen : SeenUpsert) (w : World)
    → SameApart id source_id seen.identity w.tables
        (attempt_notification_delivery id before event source_id seen w).1.tables
attempt_notification_delivery-SameApart id before event source_id seen w =
    (attempt-Over (SameApart-order id source_id seen.identity) (frame-Steps id source_id seen)
        (frame-CountingSteps id source_id seen.identity) before event).at
      w
