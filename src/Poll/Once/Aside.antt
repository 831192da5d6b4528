-- ===== src/Poll/Once/Aside.antt =====
-- What a poll does besides delivering: it leaves the outbox alone.
use Prim.Native.Nat.{Ordering}
use xrelease.Base.{ℕ, ◌≡◌, refl, String, Bool, true, false, Option, none, some, List, [], ◌∷◌}
use xrelease.World.{World, PollOutcome, pass_time, modify, statement}
use xrelease.World.Relates.{
  IsSpan, Relates, Relates-pure, Relates-raise, Relates-if, Relates-bind, Relates-when,
  Relates-query,
}
use xrelease.World.Over.{IsOrder, Over, Over-span, Over-statement, Over-modify}
use xrelease.Store.Tables.{Tables}
use xrelease.Store.Catalogue.{
  Metadata, get_etag, set_etag, touch_polled, has_seen_missing_published_at, set_latest_release_tag,
  enrich_with, enrich_seen_metadata,
}
use xrelease.Poll.Deliver.{Watch}
use xrelease.Poll.Once.{
  FetchOutcome, record_poll, note_poll_error, acquire_upstream, store_etag, stored_etag, latest_tag,
  best_seen_identity, set_best, backfill_found, backfill_latest_release_tag_if_missing, answer,
  fetch_upstream, merge_fetched, refresh_seen_metadata, refresh_if_incomplete, poll_unmodified,
}

-- The outbox and its sequence of ids.
abbrev pub SameOutbox : Tables → Tables → Type 0
SameOutbox t u = (u.outbox ≡ t.outbox) × (u.next_id ≡ t.next_id)

pub order : IsOrder SameOutbox
order = record { same = λ t. (refl, refl); then_ = λ t u v f g. (cc, cc) }

abbrev pub R : World → World → Type 0
R = Over SameOutbox

pub span : IsSpan R
span = Over-span order

aside :
    {A : Type 0} (f : ℕ → Tables → Tables × A)
    → ((now : ℕ) (t : Tables) → SameOutbox t (f now t).0)
    → Relates R (statement f)
aside = Over-statement order

pub touch-Same : (s : String) → Relates R (touch_polled s)
unfolding touch_polled
touch-Same s = aside _ (λ now t. (refl, refl))

pub record-Same : (s : String) (outcome : PollOutcome) → Relates R (record_poll s outcome)
unfolding record_poll
record-Same s outcome = Over-modify order _ (λ w. refl)

pub note-Same : (s : String) → Relates R (note_poll_error s)
unfolding note_poll_error
note-Same s = Over-modify order _ (λ w. refl)

pub acquire-Same : Relates R acquire_upstream
unfolding acquire_upstream modify pass_time
acquire-Same = record { at = λ w. span.time w }

pub store_etag-Same : (s : String) (etag : Option String) → Relates R (store_etag s etag)
unfolding store_etag set_etag
store_etag-Same s none = Relates-pure span tt
store_etag-Same s (some etag) = aside _ (λ now t. (refl, refl))

pub stored_etag-Same : (force_fetch : Bool) (s : String) → Relates R (stored_etag force_fetch s)
unfolding stored_etag get_etag
stored_etag-Same true s = Relates-pure span none
stored_etag-Same false s = Relates-query span _

enrich-Same : (s : String) (entries : List Metadata) → Relates R (enrich_with s entries)
unfolding enrich_with
enrich-Same s [] = Relates-pure span tt
enrich-Same s (m ∷ entries) = aside _ (λ now t. (refl, refl))

module _ {V : Type 0} (version_cmp : V → V → Ordering) (parse : String → Option V)
    (has_pre : V → Bool) where
  set_best-Same :
      (s : String) (best : Option String) → Relates R (set_best version_cmp parse has_pre s best)
  unfolding set_best set_latest_release_tag
  set_best-Same s none = Relates-pure span tt
  set_best-Same s (some tag) = aside _ (λ now t. (refl, refl))

  found-Same :
      (s : String) (tag : Option String)
      → Relates R (backfill_found version_cmp parse has_pre s tag)
  unfolding backfill_found best_seen_identity
  found-Same s (some tag) = Relates-pure span tt
  found-Same s none = Relates-bind span _ _ (Relates-query span _) (λ best. set_best-Same s best)

  backfill-Same :
      (s : String) → Relates R (backfill_latest_release_tag_if_missing version_cmp parse has_pre s)
  unfolding backfill_latest_release_tag_if_missing latest_tag
  backfill-Same s = Relates-bind span _ _ (Relates-query span _) (λ tag. found-Same s tag)

module _ {V : Type 0} (fetch : ℕ → Option String → Option (FetchOutcome V)) where
  answer-Same : (outcome : Option (FetchOutcome V)) → Relates R (answer fetch outcome)
  unfolding answer
  answer-Same none = Relates-raise span _
  answer-Same (some outcome) = Relates-pure span outcome

  pub fetch-Same : (etag : Option String) → Relates R (fetch_upstream fetch etag)
  unfolding fetch_upstream pass_time
  fetch-Same etag = record { at = λ w. (answer-Same (fetch w.interactions etag)).at (pass_time w) }

  refresh-Same : (watch : Watch) → Relates R (refresh_seen_metadata fetch watch)
  unfolding refresh_seen_metadata merge_fetched enrich_seen_metadata
  refresh-Same watch = Relates-bind span _ _ acquire-Same (λ _.
      Relates-bind span _ _ (fetch-Same none) (λ outcome.
        Relates-if span outcome.is_unmodified _ _ (Relates-pure span tt) (
          Relates-bind span _ _ (enrich-Same watch.source_id _)
            (λ _. store_etag-Same watch.source_id outcome.etag))))

-- The branch of a poll that finds nothing new.
pub unmodified-Same :
    {V : Type 0} (version_cmp : V → V → Ordering) (parse : String → Option V) (has_pre : V → Bool)
    (fetch : ℕ → Option String → Option (FetchOutcome V)) (watch : Watch) (force_fetch : Bool)
    → Relates R (poll_unmodified version_cmp parse has_pre fetch watch force_fetch)
unfolding poll_unmodified refresh_if_incomplete has_seen_missing_published_at
unmodified-Same version_cmp parse has_pre fetch watch force_fetch =
    Relates-bind span _ _ (refresh force_fetch) (λ _.
      Relates-bind span _ _ (backfill-Same version_cmp parse has_pre watch.source_id)
        (λ _. Relates-bind span _ _ (record-Same watch.source_id _) (λ _. Relates-pure span 0)))
  where
    refresh : (b : Bool) → Relates R (refresh_if_incomplete fetch watch b)
    refresh true = Relates-pure span tt
    refresh false =
        Relates-bind span _ _ (Relates-query span _)
          (λ missing. Relates-when span missing _ (refresh-Same fetch watch))
