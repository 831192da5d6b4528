-- ===== src/Poll/Deliver/Keys.antt =====
-- The keys of the outbox while a poll enqueues and delivers its releases.
use Prim.Native.Nat.{Ordering}
use xrelease.Base.{
  ℕ, ◌≡◌, ◌≤◌, refl, sym, subst, String, Bool, true, false, Option, none, some, List, [], ◌∷◌,
  Option-cases, inl, inr, ltb,
}
use xrelease.World.{World, statement}
use xrelease.World.Relates.{
  IsSpan, Relates, Relates-pure, Relates-ask, Relates-if, Relates-bind, Relates-when, Relates-query,
}
use xrelease.World.Over.{Over, Over-span, Over-statement, Over-modify}
use xrelease.Store.Tables.{OutboxRow, SeenUpsert, EnqueueOutcome, Tables}
use xrelease.Store.Rows.{update_where, find_where, has_key, outbox_lease_secs}
use xrelease.Store.Rows.Index.{Ascending-update_where}
use xrelease.Store.Claim.{claims, claim_row, claim_outbox_row}
use xrelease.Store.Parent.{is_open, not_dead, complete_tables, fail_tables, set_dead, set_partial}
use xrelease.Store.Enqueue.Keys.{IsKeyed, KeepsKeyed, order, enqueue-Keeps, count-update}
use xrelease.Store.Catalogue.{
  Metadata, is_initialized, mark_initialized, set_latest_release_tag, load_seen_index, record_seen,
  baseline, record_seen_batch, enrich_with, enrich_seen_metadata,
}
use xrelease.Pipeline.Delivery.Steps.{Steps, CountingSteps}
use xrelease.Pipeline.Delivery.Whole.{attempt-Over}
use xrelease.Pipeline.Flush.{record_notifications}
use xrelease.Model.{Release}
use xrelease.Poll.{
  seen_upsert, store_latest, record_baseline, select_unseen, select_by, select_for_delivery,
}
use xrelease.Poll.Deliver.{
  Watch, note_enqueued, deliver_claimed, deliver_enqueued, deliver_release, deliver_each, note_sent,
  deliver_new_releases,
}

-- An update that leaves id, source and identity of each row.
rekeyed :
    (t : Tables) (p : OutboxRow → Bool) (f : OutboxRow → OutboxRow)
    → ((r : OutboxRow) → (f r).id ≡ r.id)
    → ((s i : String) (r : OutboxRow) → has_key s i (f r) ≡ has_key s i r)
    → KeepsKeyed t (record t { outbox = update_where p f t.outbox })
rekeyed t p f same key h = record {
  ids = Ascending-update_where p f 0 t.outbox t.next_id same h.ids;
  unique = λ s i.
      subst (λ n. n ≤ 1) (sym (count-update (has_key s i) p f t.outbox (key s i))) (h.unique s i);
}

complete-Keyed :
    (id : ℕ) (source_id : String) (seen : SeenUpsert) (now : ℕ) (t : Tables)
    → KeepsKeyed t (complete_tables id source_id seen now t).0
unfolding complete_tables
complete-Keyed id source_id seen now t h = elim (Option-cases (find_where (is_open id) t.outbox)) [
  | inl e ↦ rw (e, complete_tables) h
  | inr (r, e) ↦
      let k = rekeyed t (is_open id) _ (λ r. refl) (λ s i r. refl) h in
      rw (e, complete_tables) (record { ids = k.ids; unique = k.unique })
]

die-Keyed : (id now : ℕ) (t : Tables) → KeepsKeyed t (set_dead id now t).0
unfolding set_dead
die-Keyed id now t h = elim (Option-cases (find_where (not_dead id) t.outbox)) [
  | inl e ↦ rw (e, set_dead) h
  | inr (r, e) ↦ rw (e, set_dead) (rekeyed t (not_dead id) _ (λ r. refl) (λ s i r. refl) h)
]

claim-Keyed : (id lease now : ℕ) (t : Tables) → KeepsKeyed t (claim_row id lease now t).0
unfolding claim_row
claim-Keyed id lease now t h = elim (Option-cases (find_where (claims id now) t.outbox)) [
  | inl e ↦ rw (e, claim_row) h
  | inr (r, e) ↦ rw (e, claim_row) (rekeyed t (claims id now) _ (λ r. refl) (λ s i r. refl) h)
]

pub keyed-Steps :
    (id : ℕ) (source_id : String) (seen : SeenUpsert) → Steps KeepsKeyed id source_id seen
unfolding set_partial
keyed-Steps id source_id seen = record {
  open_ledger = λ sinks t. rekeyed t _ _ (λ r. refl) (λ s i r. refl);
  ack = λ index now t. rekeyed t _ _ (λ r. refl) (λ s i r. refl);
  fault = λ index error t. rekeyed t _ _ (λ r. refl) (λ s i r. refl);
  abandon = λ indices error t. rekeyed t _ _ (λ r. refl) (λ s i r. refl);
  complete = λ now t. complete-Keyed id source_id seen now t;
  die = λ now t. die-Keyed id now t;
  partial = λ now t. rekeyed t _ _ (λ r. refl) (λ s i r. refl);
  delay = λ until t. rekeyed t _ _ (λ r. refl) (λ s i r. refl);
}

pub keyed-CountingSteps : (id : ℕ) → CountingSteps KeepsKeyed id
unfolding fail_tables
keyed-CountingSteps id = record {
  fail = λ error now t. rekeyed t _ _ (λ r. refl) (λ s i r. refl);
  count = λ until t. rekeyed t _ _ (λ r. refl) (λ s i r. refl);
}

abbrev pub R : World → World → Type 0
R = Over KeepsKeyed

pub span : IsSpan R
span = Over-span order

-- A statement on the other tables.
aside :
    {A : Type 0} (f : ℕ → Tables → Tables × A)
    → ((now : ℕ) (t : Tables) → (f now t).0.outbox ≡ t.outbox)
    → ((now : ℕ) (t : Tables) → (f now t).0.next_id ≡ t.next_id)
    → Relates R (statement f)
aside f o n = Over-statement order f (λ now t h. record {
  ids = rw (o now t, n now t) h.ids;
  unique = λ s i. rw (o now t) (h.unique s i);
})

batch-Keyed : (s : String) (items : List SeenUpsert) → Relates R (record_seen_batch s items)
unfolding record_seen_batch mark_initialized baseline
batch-Keyed s [] = aside _ (λ now t. refl) (λ now t. refl)
batch-Keyed s (item ∷ items) = aside _ (λ now t. refl) (λ now t. refl)

enrich-Keyed : (s : String) (entries : List Metadata) → Relates R (enrich_with s entries)
unfolding enrich_with
enrich-Keyed s [] = Relates-pure span tt
enrich-Keyed s (m ∷ entries) = aside _ (λ now t. refl) (λ now t. refl)

module _ {V : Type 0} (hash : String → String → String) (version_cmp : V → V → Ordering) where
  latest-Keyed :
      (s : String) (latest : Option (Release V))
      → Relates R (store_latest hash version_cmp s latest)
  unfolding store_latest set_latest_release_tag
  latest-Keyed s none = Relates-pure span tt
  latest-Keyed s (some r) = aside _ (λ now t. refl) (λ now t. refl)

  select_by-Keyed :
      (initialized : Bool) (s : String) (releases : List (Release V)) (exclude_updated : Bool)
      → Relates R (select_by hash version_cmp initialized s releases exclude_updated)
  unfolding select_by record_baseline select_unseen load_seen_index
  select_by-Keyed true s releases exclude_updated =
      Relates-bind span _ _ (Relates-query span _) (λ seen. Relates-pure span _)
  select_by-Keyed false s releases exclude_updated =
      Relates-bind span _ _ (batch-Keyed s _)
        (λ _. Relates-bind span _ _ (latest-Keyed s _) (λ _. Relates-pure span _))

  select-Keyed :
      (s : String) (releases : List (Release V)) (exclude_updated : Bool)
      → Relates R (select_for_delivery hash version_cmp s releases exclude_updated)
  unfolding select_for_delivery is_initialized
  select-Keyed s releases exclude_updated =
      Relates-bind span _ _ (Relates-query span _)
        (λ initialized. select_by-Keyed initialized s releases exclude_updated)

module _ {V : Type 0} (hash : String → String → String) (version_cmp : V → V → Ordering)
    (version_text : V → String) (date_text : ℕ → String) (watch : Watch) where
  claimed-Keyed :
      (release : Release V) (id : ℕ) (claimed : Bool)
      → Relates R (deliver_claimed hash version_cmp version_text date_text watch release id claimed)
  unfolding deliver_claimed
  claimed-Keyed release id false = Relates-pure span false
  claimed-Keyed release id true =
      attempt-Over order (keyed-Steps id watch.source_id (seen_upsert hash version_cmp release))
        (keyed-CountingSteps id) 0 _

  enqueued-Keyed :
      (release : Release V) (enqueued : Option EnqueueOutcome)
      → Relates R (deliver_enqueued hash version_cmp version_text date_text watch release enqueued)
  unfolding deliver_enqueued note_enqueued record_seen claim_outbox_row
  enqueued-Keyed release none = Relates-pure span false
  enqueued-Keyed release (some enqueued) =
      Relates-bind span _ _ (Relates-when span enqueued.created _ (Over-modify order _ (λ w. refl)))
        (λ _. Relates-bind span _ _ (aside _ (λ now t. refl) (λ now t. refl)) (λ _.
          Relates-if span enqueued.deliver_now _ _
            (Relates-bind span _ _
              (Over-statement order _ (λ now t. claim-Keyed enqueued.id outbox_lease_secs now t))
              (λ claimed. claimed-Keyed release enqueued.id claimed))
            (Relates-pure span false)))

  release-Keyed :
      (release : Release V)
      → Relates R (deliver_release hash version_cmp version_text date_text watch release)
  unfolding deliver_release
  release-Keyed release = Relates-bind span _ _ (Relates-ask span _) (λ now.
      Relates-bind span _ _ (enqueue-Keeps _ release.id _)
        (λ enqueued. enqueued-Keyed release enqueued))

  each-Keyed :
      (releases : List (Release V)) (sent : ℕ)
      → Relates R (deliver_each hash version_cmp version_text date_text watch sent releases)
  unfolding deliver_each
  each-Keyed [] sent = Relates-pure span sent
  each-Keyed (r ∷ releases) sent =
      Relates-bind span _ _ (release-Keyed r) (λ delivered. each-Keyed releases _)

  pub new_releases-Keyed :
      (releases : List (Release V))
      → Relates R (deliver_new_releases hash version_cmp version_text date_text watch releases)
  unfolding deliver_new_releases enrich_seen_metadata note_sent record_notifications
  new_releases-Keyed releases =
      Relates-bind span _ _ (latest-Keyed hash version_cmp watch.source_id _) (λ _.
        Relates-bind span _ _ (enrich-Keyed watch.source_id _) (λ _.
          Relates-bind span _ _ (select-Keyed hash version_cmp watch.source_id _ _) (λ deliverable.
            Relates-bind span _ _ (each-Keyed deliverable 0) (λ sent.
              Relates-bind span _ _
                (Relates-when span (ltb 0 sent) _ (Over-modify order _ (λ w. refl)))
                (λ _. Relates-pure span sent)))))

-- If ids ascend below the sequence and no two rows of the outbox have the same source and release,
-- then both are so after enqueueing and delivering the releases of a poll, whatever it finds,
-- whatever the backends answer and whichever statement fails.
pub deliver_new_releases-IsKeyed :
    {V : Type 0} (hash : String → String → String) (version_cmp : V → V → Ordering)
    (version_text : V → String) (date_text : ℕ → String) (watch : Watch)
    (releases : List (Release V)) (w : World)
    → IsKeyed w.tables
    → IsKeyed
        (deliver_new_releases hash version_cmp version_text date_text watch releases w).1.tables
deliver_new_releases-IsKeyed hash version_cmp version_text date_text watch releases w h =
    (new_releases-Keyed hash version_cmp version_text date_text watch releases).at w h
