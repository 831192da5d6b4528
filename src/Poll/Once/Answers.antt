-- ===== src/Poll/Once/Answers.antt =====
-- What a poll does on an upstream without news.
use Prim.Native.Nat.{Ordering}
use xrelease.Base.{
  ℕ, ◌≡◌, refl, String, Bool, true, false, Option, none, some, Bool-cases, inl, inr,
}
use xrelease.World.{World, pure, proceed, ◌>>=◌, pass_time, statement, query, attempt, modify}
use xrelease.World.Relates.{Relates, Relates-bind}
use xrelease.Store.Tables.{Tables}
use xrelease.Store.Catalogue.{find_source, etag_of, get_etag}
use xrelease.Poll.Deliver.{Watch}
use xrelease.Poll.Once.{
  FetchOutcome, acquire_upstream, stored_etag, answer, fetch_upstream, poll_outcome, poll_fetched,
  poll_with, poll_once_inner,
}
use xrelease.Poll.Once.Aside.{SameOutbox, R, span, touch-Same, unmodified-Same}

-- The ETag that a poll sends.
abbrev pub etag_to_send : Bool → String → Tables → Option String
etag_to_send true source_id t = none
etag_to_send false source_id t = etag_of (find_source source_id t.sources)

-- Whether the upstream answers that nothing has changed.
abbrev pub says_unmodified : {V : Type 0} → Option (FetchOutcome V) → Bool
says_unmodified none = false
says_unmodified (some outcome) = outcome.is_unmodified

module _ {V : Type 0} (hash : String → String → String) (version_cmp : V → V → Ordering)
    (version_text : V → String) (date_text : ℕ → String) (parse : String → Option V)
    (has_pre : V → Bool) (fetch : ℕ → Option String → Option (FetchOutcome V)) (watch : Watch)
    (force_fetch : Bool) where
  outcome-Same :
      (outcome : FetchOutcome V)
      → outcome.is_unmodified ≡ true
      → Relates R (
          poll_outcome hash version_cmp version_text date_text parse has_pre fetch watch force_fetch
            outcome)
  unfolding poll_outcome
  outcome-Same outcome e =
      Relates-bind span _ _ (touch-Same watch.source_id)
        (λ _. rw e (unmodified-Same version_cmp parse has_pre fetch watch force_fetch))

  answered-Same :
      (a : Option (FetchOutcome V)) (v : World)
      → says_unmodified a ≡ true
      → R v
          (proceed (attempt (answer fetch a) v) (
            poll_fetched hash version_cmp version_text date_text parse has_pre fetch watch
              force_fetch)).1
  unfolding attempt answer poll_fetched pure
  answered-Same none v e = absurd (cc)
  answered-Same (some outcome) v e = (outcome-Same outcome e).at v

  with_etag-Same :
      (etag : Option String)
      → ((i : ℕ) → says_unmodified (fetch i etag) ≡ true)
      → (w : World)
      → R w
          (poll_with hash version_cmp version_text date_text parse has_pre fetch watch force_fetch
            etag w).1
  unfolding poll_with acquire_upstream modify pass_time ◌>>=◌ fetch_upstream attempt
  with_etag-Same etag h w =
      answered-Same (fetch (pass_time w).interactions etag) (pass_time (pass_time w)) (h _)

-- A poll whose upstream answers, to the ETag that it sends, that nothing has changed leaves the
-- outbox and its sequence of ids as they were, whichever statement fails and whatever a second
-- fetch, for the dates of the releases, brings.
pub poll_once_inner-unmodified :
    {V : Type 0} (hash : String → String → String) (version_cmp : V → V → Ordering)
    (version_text : V → String) (date_text : ℕ → String) (parse : String → Option V)
    (has_pre : V → Bool) (fetch : ℕ → Option String → Option (FetchOutcome V)) (watch : Watch)
    (force_fetch : Bool) (w : World)
    → ((i : ℕ)
        → says_unmodified (fetch i (etag_to_send force_fetch watch.source_id w.tables)) ≡ true)
    → SameOutbox w.tables
        (poll_once_inner hash version_cmp version_text date_text parse has_pre fetch watch
          force_fetch w).1.tables
unfolding poll_once_inner stored_etag ◌>>=◌ pure get_etag query statement pass_time
poll_once_inner-unmodified hash version_cmp version_text date_text parse has_pre fetch watch true w
      h =
    with_etag-Same hash version_cmp version_text date_text parse has_pre fetch watch true none h w
poll_once_inner-unmodified hash version_cmp version_text date_text parse has_pre fetch watch false w
      h =
    elim (Bool-cases (w.env.db_fails w.interactions)) [
      | inl e ↦ rw e (refl, refl)
      | inr e ↦ rw e (
          with_etag-Same hash version_cmp version_text date_text parse has_pre fetch watch false
            (etag_of (find_source watch.source_id w.tables.sources)) h (pass_time w))
    ]
