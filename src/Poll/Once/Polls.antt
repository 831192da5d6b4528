-- ===== src/Poll/Once/Polls.antt =====
-- Whole polls: the keys of the outbox, an upstream without news, and an upstream that fails.
use Prim.Native.Nat.{Ordering}
use xrelease.Base.{ℕ, String, Bool, Option}
use xrelease.World.{World, Result, ok, err, poll_error, Action}
use xrelease.World.Relates.{
  Relates, Relates-weaken, Relates-attempt, Relates-raise, Relates-if, Relates-bind, Relates-pure,
  Relates-best_effort,
}
use xrelease.Store.Enqueue.Keys.{IsKeyed}
use xrelease.Poll.Deliver.{Watch}
use xrelease.Poll.Deliver.Keys.{R, span, new_releases-Keyed}
use xrelease.Poll.Once.{
  FetchOutcome, poll_fresh, poll_outcome, poll_fetched, poll_with, poll_once_inner,
}
use xrelease.Poll.Once.Aside.{
  R as Same, touch-Same, record-Same, note-Same, acquire-Same, store_etag-Same, stored_etag-Same,
  fetch-Same, unmodified-Same,
}

-- What leaves the outbox alone keeps its keys.
keyed : {A : Type 0} (m : Action A) → Relates Same m → Relates R m
keyed m =
    Relates-weaken m
      (λ w v e h. record { ids = rw (e.0, e.1) h.ids; unique = λ s i. rw (e.0) (h.unique s i) })

module _ {V : Type 0} (hash : String → String → String) (version_cmp : V → V → Ordering)
    (version_text : V → String) (date_text : ℕ → String) (parse : String → Option V)
    (has_pre : V → Bool) (fetch : ℕ → Option String → Option (FetchOutcome V)) (watch : Watch) where
  fresh-Keyed :
      (outcome : FetchOutcome V)
      → Relates R
          (poll_fresh hash version_cmp version_text date_text parse has_pre fetch watch outcome)
  unfolding poll_fresh
  fresh-Keyed outcome =
      Relates-bind span _ _ (keyed _ (store_etag-Same watch.source_id outcome.etag)) (λ _.
        Relates-bind span _ _
          (new_releases-Keyed hash version_cmp version_text date_text watch outcome.releases)
          (λ sent.
            Relates-bind span _ _ (keyed _ (record-Same watch.source_id _))
              (λ _. Relates-pure span sent)))

  fetched-Keyed :
      (force_fetch : Bool) (fetched : Result (FetchOutcome V))
      → Relates R (
          poll_fetched hash version_cmp version_text date_text parse has_pre fetch watch force_fetch
            fetched)
  unfolding poll_fetched poll_outcome
  fetched-Keyed force_fetch (ok outcome) =
      Relates-bind span _ _ (keyed _ (touch-Same watch.source_id)) (λ _.
        Relates-if span outcome.is_unmodified _ _
          (keyed _ (unmodified-Same version_cmp parse has_pre fetch watch force_fetch))
          (fresh-Keyed outcome))
  fetched-Keyed force_fetch (err e) =
      Relates-bind span _ _ (Relates-best_effort span _ (keyed _ (touch-Same watch.source_id)))
        (λ _. Relates-bind span _ _ (keyed _ (record-Same watch.source_id poll_error)) (λ _.
          Relates-bind span _ _ (keyed _ (note-Same watch.source_id)) (λ _. Relates-raise span e)))

  poll-Keyed :
      (force_fetch : Bool)
      → Relates R (
          poll_once_inner hash version_cmp version_text date_text parse has_pre fetch watch
            force_fetch)
  unfolding poll_once_inner poll_with
  poll-Keyed force_fetch =
      Relates-bind span _ _ (keyed _ (stored_etag-Same force_fetch watch.source_id)) (λ etag.
        Relates-bind span _ _ (keyed _ acquire-Same) (λ _.
          Relates-bind span _ _ (Relates-attempt span _ (keyed _ (fetch-Same fetch etag)))
            (λ fetched. fetched-Keyed force_fetch fetched)))

-- If ids ascend below the sequence and no two rows of the outbox have the same source and release,
-- then both are so after a poll, forced or not, whatever the upstream and the backends answer and
-- whichever statement fails.
pub poll_once_inner-IsKeyed :
    {V : Type 0} (hash : String → String → String) (version_cmp : V → V → Ordering)
    (version_text : V → String) (date_text : ℕ → String) (parse : String → Option V)
    (has_pre : V → Bool) (fetch : ℕ → Option String → Option (FetchOutcome V)) (watch : Watch)
    (force_fetch : Bool) (w : World)
    → IsKeyed w.tables
    → IsKeyed
        (poll_once_inner hash version_cmp version_text date_text parse has_pre fetch watch
          force_fetch w).1.tables
poll_once_inner-IsKeyed hash version_cmp version_text date_text parse has_pre fetch watch force w
      h =
    (poll-Keyed hash version_cmp version_text date_text parse has_pre fetch watch force).at w h
