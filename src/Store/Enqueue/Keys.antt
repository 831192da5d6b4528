-- ===== src/Store/Enqueue/Keys.antt =====
-- The keys of the outbox under `try_enqueue_notification`.
use xrelease.Base.{
  ℕ, suc, ◌+◌, ◌≤◌, ◌≡◌, refl, sym, String, Bool, true, Option, none, some, List, [], ◌∷◌, ◌++◌,
  arith, str_eq, Bool-cases, Option-cases, inl, inr, subst, ◌&&◌, eq_iff, if◌then◌else◌,
}
use xrelease.World.{World}
use xrelease.World.Relates.{
  Relates, Relates-pure, Relates-ask, Relates-if, Relates-bind, Relates-query,
}
use xrelease.World.Over.{IsOrder, Over, Over-span, Over-statement}
use xrelease.Notify.Event.{Event}
use xrelease.Store.Tables.{
  Status, pending, failed, sent, dead, OutboxRow, OutboxMeta, Tables, option_eq,
}
use xrelease.Store.Rows.{update_where, find_where, has_key, new_row}
use xrelease.Store.Rows.Index.{Ascending, IsIndexed, Ascending-update_where}
use xrelease.Store.Parent.{count_rows}
use xrelease.Store.Enqueue.{
  insert_notification, is_reopened, reopen, enqueue_found, enqueue_existing, enqueue_conflicting,
  try_enqueue_notification,
}

-- Ids ascend below the sequence, and no two rows have the same source and identity.
pub record IsKeyed (t : Tables) : Type 0 where
  pub ids : IsIndexed t
  pub unique : (source_id identity : String) → count_rows (has_key source_id identity) t.outbox ≤ 1

abbrev pub KeepsKeyed : Tables → Tables → Type 0
KeepsKeyed t u = IsKeyed t → IsKeyed u

pub order : IsOrder KeepsKeyed
order = record { same = λ t h. h; then_ = λ t u v f g h. g (f h) }

Ascending-append :
    (lo : ℕ) (rows : List OutboxRow) (hi : ℕ) (r : OutboxRow)
    → r.id ≡ hi
    → Ascending lo rows hi
    → Ascending lo (rows ++ r ∷ []) (hi + 1)
Ascending-append lo [] hi r e h = (omega (arith, e, h), omega (arith, e))
Ascending-append lo (x ∷ rows) hi r e h = (h.0, Ascending-append (suc x.id) rows hi r e h.1)

Ascending-widen :
    (lo : ℕ) (rows : List OutboxRow) (hi : ℕ) → Ascending lo rows hi → Ascending lo rows (hi + 1)
Ascending-widen lo [] hi h = omega (arith, h)
Ascending-widen lo (x ∷ rows) hi h = (h.0, Ascending-widen (suc x.id) rows hi h.1)

count-append :
    (p : OutboxRow → Bool) (rows : List OutboxRow) (r : OutboxRow)
    → count_rows p (rows ++ r ∷ []) ≡ count_rows p rows + (if p r then 1 else 0)
unfolding count_rows
count-append p [] r = ground arith
count-append p (x ∷ rows) r = ground (arith, count-append p rows r)

count-absent :
    (p : OutboxRow → Bool) (rows : List OutboxRow)
    → find_where p rows ≡ none
    → count_rows p rows ≡ 0
unfolding find_where count_rows
count-absent p [] e = refl
count-absent p (x ∷ rows) e = ground (arith, count-absent p rows)

pub count-update :
    (q p : OutboxRow → Bool) (f : OutboxRow → OutboxRow) (rows : List OutboxRow)
    → ((r : OutboxRow) → q (f r) ≡ q r)
    → count_rows q (update_where p f rows) ≡ count_rows q rows
unfolding count_rows update_where
count-update q p f [] e = refl
count-update q p f (x ∷ rows) e = ground (arith, e x, count-update q p f rows e)

same_key :
    (source_id identity s i : String) (rows : List OutboxRow)
    → (str_eq source_id s && str_eq identity i) ≡ true
    → find_where (has_key source_id identity) rows ≡ none
    → count_rows (has_key s i) rows ≡ 0
same_key source_id identity s i rows k e =
    let h : (str_eq source_id s ≡ true) × (str_eq identity i ≡ true) = ground arith in
    let a : source_id ≡ s = (eq_iff source_id s).0 h.0 in
    let b : identity ≡ i = (eq_iff identity i).0 h.1 in
    subst (λ s. count_rows (has_key s i) rows ≡ 0) a
      (subst (λ i. count_rows (has_key source_id i) rows ≡ 0) b (count-absent _ rows e))

insert_unique :
    (event : Event) (identity : String) (meta : OutboxMeta) (id now : ℕ) (rows : List OutboxRow)
    → find_where (has_key event.source_id identity) rows ≡ none
    → (s i : String) → count_rows (has_key s i) rows ≤ 1
    → count_rows (has_key s i) (rows ++ new_row id event identity meta now ∷ []) ≤ 1
insert_unique event identity meta id now rows e s i h =
    let counted = count-append (has_key s i) rows (new_row id event identity meta now) in
    elim (Bool-cases (str_eq event.source_id s && str_eq identity i)) [
      | inl k ↦ omega (arith, rw k at counted, same_key event.source_id identity s i rows k e)
      | inr k ↦ omega (arith, rw k at counted, h)
    ]

insert-KeepsKeyed :
    (event : Event) (identity : String) (meta : OutboxMeta) (now : ℕ) (t : Tables)
    → KeepsKeyed t (insert_notification event identity meta now t).0
unfolding insert_notification
insert-KeepsKeyed event identity meta now t h =
    elim (Option-cases (find_where (has_key event.source_id identity) t.outbox)) [
      | inl e ↦
          rw (e, insert_notification)
            (record {
              ids = Ascending-append 0 t.outbox t.next_id _ refl h.ids;
              unique = λ s i.
                  insert_unique event identity meta t.next_id now t.outbox e s i (h.unique s i);
            })
      | inr (r, e) ↦
          rw (e, insert_notification)
            (record { ids = Ascending-widen 0 t.outbox t.next_id h.ids; unique = h.unique })
    ]

reopen-KeepsKeyed :
    (id : ℕ) (event : Event) (meta : OutboxMeta) (now : ℕ) (t : Tables)
    → KeepsKeyed t (reopen id event meta now t).0
unfolding reopen
reopen-KeepsKeyed id event meta now t h =
    elim (Option-cases (find_where (is_reopened id) t.outbox)) [
      | inl e ↦ rw (e, reopen) h
      | inr (r, e) ↦
          rw (e, reopen)
            (record {
              ids = Ascending-update_where _ _ 0 t.outbox t.next_id (λ r. refl) h.ids;
              unique = λ s i.
                  subst (λ n. n ≤ 1) (sym (count-update (has_key s i) _ _ t.outbox (λ r. refl)))
                    (h.unique s i);
            })
    ]

existing-Keeps :
    (event : Event) (meta : OutboxMeta) (deliver_now : Bool) (row : OutboxRow) (status : Status)
    → Relates (Over KeepsKeyed) (enqueue_existing event meta deliver_now row status)
unfolding enqueue_existing
existing-Keeps event meta deliver_now row pending = Relates-pure (Over-span order) _
existing-Keeps event meta deliver_now row failed = Relates-pure (Over-span order) _
existing-Keeps event meta deliver_now row sent =
    Relates-if (Over-span order) (option_eq row.content_digest meta.content_digest) _ _
      (Relates-pure (Over-span order) _)
      (Relates-bind (Over-span order) _ _
        (Over-statement order (reopen row.id event meta) (reopen-KeepsKeyed row.id event meta))
        (λ updated. Relates-pure (Over-span order) _))
existing-Keeps event meta deliver_now row dead = Relates-pure (Over-span order) _

found-Keeps :
    (event : Event) (meta : OutboxMeta) (deliver_now : Bool) (row : Option OutboxRow)
    → Relates (Over KeepsKeyed) (enqueue_found event meta deliver_now row)
unfolding enqueue_found
found-Keeps event meta deliver_now none = Relates-pure (Over-span order) _
found-Keeps event meta deliver_now (some row) = existing-Keeps event meta deliver_now row row.status

conflicting-Keeps :
    (event : Event) (identity : String) (meta : OutboxMeta) (deliver_now : Bool)
    (inserted : Option ℕ)
    → Relates (Over KeepsKeyed) (enqueue_conflicting event identity meta deliver_now inserted)
unfolding enqueue_conflicting
conflicting-Keeps event identity meta deliver_now (some id) = Relates-pure (Over-span order) _
conflicting-Keeps event identity meta deliver_now none =
    Relates-bind (Over-span order) _ _ (Relates-query (Over-span order) _)
      (λ row. found-Keeps event meta deliver_now row)

pub enqueue-Keeps :
    (event : Event) (identity : String) (meta : OutboxMeta)
    → Relates (Over KeepsKeyed) (try_enqueue_notification event identity meta)
unfolding try_enqueue_notification
enqueue-Keeps event identity meta =
    Relates-bind (Over-span order) _ _ (Relates-ask (Over-span order) _) (λ deliver_now.
      Relates-bind (Over-span order) _ _
        (Over-statement order (insert_notification event identity meta)
          (insert-KeepsKeyed event identity meta))
        (λ inserted. conflicting-Keeps event identity meta deliver_now inserted))

-- If ids ascend below the sequence and no two rows have the same source and release, then both are
-- so after enqueueing, whichever statement fails.
pub try_enqueue_notification-IsKeyed :
    (event : Event) (identity : String) (meta : OutboxMeta) (w : World)
    → IsKeyed w.tables
    → IsKeyed (try_enqueue_notification event identity meta w).1.tables
try_enqueue_notification-IsKeyed event identity meta w h =
    (enqueue-Keeps event identity meta).at w h
