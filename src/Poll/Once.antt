-- ===== src/Poll/Once.antt =====
-- `poll_once_inner`, `refresh_seen_metadata` and `backfill_latest_release_tag_if_missing` of
-- src/pipeline/poll.rs. What a provider fetches is an answer of the environment: by the number of the
-- interaction and the ETag that is sent, an outcome or an error.
pub mod Aside
pub mod Polls
pub mod Answers
pub mod Failure
use Prim.Native.Nat.{Ordering}
use xrelease.Base.{
  ℕ, ◌+◌, String, Bool, true, false, not, ◌&&◌, Option, none, some, List, [], ◌∷◌, map, select, ltb,
  str_eq, if◌then◌else◌,
}
use xrelease.World.{
  Action, Result, ok, err, PollOutcome, delivered, no_op, not_modified, poll_error, source_error,
  pure, raise, query, note, modify, pass_time, attempt, best_effort, when, ◌>>=◌, ◌>>◌,
}
use xrelease.Store.Tables.{SeenRow, SourceState}
use xrelease.Store.Catalogue.{
  find_source, get_etag, set_etag, touch_polled, has_seen_missing_published_at,
  set_latest_release_tag, enrich_seen_metadata,
}
use xrelease.Model.{Release, pick_latest}
use xrelease.Model.Parse.{release_new}
use xrelease.Filter.{accepts}
use xrelease.Poll.Deliver.{Watch, metadata_of, deliver_new_releases}

pub record FetchOutcome (V : Type 0) : Type 0 where
  pub releases : List (Release V)
  pub etag : Option String
  pub is_unmodified : Bool

-- `record_poll`, as an entry of the log.
unfoldable pub record_poll : String → PollOutcome → Action (Unit {0})
record_poll source_id outcome = note (λ m. record m { polls = (source_id, outcome) ∷ m.polls })

-- `note_poll_error`, without the text of the error.
unfoldable pub note_poll_error : String → Action (Unit {0})
note_poll_error source_id = note (λ m. record m { poll_errors = source_id ∷ m.poll_errors })

-- The wait for a slot of the upstream's quota.
unfoldable pub acquire_upstream : Action (Unit {0})
acquire_upstream = modify pass_time

unfoldable pub store_etag : String → Option String → Action (Unit {0})
store_etag source_id none = pure tt
store_etag source_id (some etag) = set_etag source_id (some etag)

-- The ETag to send: a forced fetch sends none.
unfoldable pub stored_etag : Bool → String → Action (Option String)
stored_etag true source_id = pure none
stored_etag false source_id = get_etag source_id

abbrev pub tag_of : Option SourceState → Option String
tag_of none = none
tag_of (some s) = s.latest_release_tag

-- The column `latest_release_tag` of `source_state_row`.
unfoldable pub latest_tag : String → Action (Option String)
latest_tag source_id = query (λ now t. tag_of (find_source source_id t.sources))

pub identities_of : String → List SeenRow → List String
identities_of source_id [] = []
identities_of source_id (row ∷ rows) =
    let rest = identities_of source_id rows in
    if str_eq row.source_id source_id then row.identity ∷ rest else rest

-- The semantic versions of the `semver` crate: their order, their parser, and whether one has a
-- pre-release part.
module _ {V : Type 0} (version_cmp : V → V → Ordering) (parse : String → Option V)
    (has_pre : V → Bool) where
  best_identity : List String → Option String
  best_identity identities =
      elim (pick_latest version_cmp (map (release_new parse has_pre) identities)) [
        | none ↦ none
        | some latest ↦ some latest.raw_tag
      ]

  unfoldable pub best_seen_identity : String → Action (Option String)
  unfolding identities_of best_identity
  best_seen_identity source_id = query (λ now t. best_identity (identities_of source_id t.seen))

  unfoldable pub set_best : String → Option String → Action (Unit {0})
  set_best source_id none = pure tt
  set_best source_id (some tag) = set_latest_release_tag source_id tag

  unfoldable pub backfill_found : String → Option String → Action (Unit {0})
  backfill_found source_id (some tag) = pure tt
  backfill_found source_id none = do best ← best_seen_identity source_id; set_best source_id best

  unfoldable pub backfill_latest_release_tag_if_missing : String → Action (Unit {0})
  backfill_latest_release_tag_if_missing source_id = do
    tag ← latest_tag source_id
    backfill_found source_id tag

module _ {V : Type 0} (fetch : ℕ → Option String → Option (FetchOutcome V)) where
  unfoldable pub answer : Option (FetchOutcome V) → Action (FetchOutcome V)
  answer none = raise source_error
  answer (some outcome) = pure outcome

  -- `Provider::fetch`
  unfoldable pub fetch_upstream : Option String → Action (FetchOutcome V)
  fetch_upstream etag w = answer (fetch w.interactions etag) (pass_time w)

  unfoldable pub merge_fetched : Watch → FetchOutcome V → Action (Unit {0})
  merge_fetched watch outcome = if outcome.is_unmodified then pure tt else (do
    enrich_seen_metadata watch.source_id
        (map metadata_of (select (accepts watch.filter) outcome.releases))
    store_etag watch.source_id outcome.etag)

  unfoldable pub refresh_seen_metadata : Watch → Action (Unit {0})
  refresh_seen_metadata watch = do
    acquire_upstream
    outcome ← fetch_upstream none
    merge_fetched watch outcome

  unfoldable pub refresh_if_incomplete : Watch → Bool → Action (Unit {0})
  refresh_if_incomplete watch true = pure tt
  refresh_if_incomplete watch false = do
    missing ← has_seen_missing_published_at watch.source_id
    when missing (refresh_seen_metadata watch)

module _ {V : Type 0} (version_cmp : V → V → Ordering) (parse : String → Option V)
    (has_pre : V → Bool) (fetch : ℕ → Option String → Option (FetchOutcome V)) where
  unfoldable pub poll_unmodified : Watch → Bool → Action ℕ
  poll_unmodified watch force_fetch = do
    refresh_if_incomplete fetch watch force_fetch
    backfill_latest_release_tag_if_missing version_cmp parse has_pre watch.source_id
    record_poll watch.source_id not_modified
    pure 0

module _ {V : Type 0} (hash : String → String → String) (version_cmp : V → V → Ordering)
    (version_text : V → String) (date_text : ℕ → String) (parse : String → Option V)
    (has_pre : V → Bool) (fetch : ℕ → Option String → Option (FetchOutcome V)) where
  unfoldable pub poll_fresh : Watch → FetchOutcome V → Action ℕ
  poll_fresh watch outcome = do
    store_etag watch.source_id outcome.etag
    sent ← deliver_new_releases hash version_cmp version_text date_text watch outcome.releases
    record_poll watch.source_id (if ltb 0 sent then delivered else no_op)
    pure sent

  unfoldable pub poll_outcome : Watch → Bool → FetchOutcome V → Action ℕ
  poll_outcome watch force_fetch outcome = do
    touch_polled watch.source_id
    (if outcome.is_unmodified
        then poll_unmodified version_cmp parse has_pre fetch watch force_fetch
        else poll_fresh watch outcome)

  unfoldable pub poll_fetched : Watch → Bool → Result (FetchOutcome V) → Action ℕ
  poll_fetched watch force_fetch (ok outcome) = poll_outcome watch force_fetch outcome
  poll_fetched watch force_fetch (err e) = do
    best_effort (touch_polled watch.source_id)
    record_poll watch.source_id poll_error
    note_poll_error watch.source_id
    raise e

  -- From the wait for the upstream on, with the ETag to send.
  unfoldable pub poll_with : Watch → Bool → Option String → Action ℕ
  poll_with watch force_fetch etag = do
    acquire_upstream
    fetched ← attempt (fetch_upstream fetch etag)
    poll_fetched watch force_fetch fetched

  unfoldable pub poll_once_inner : Watch → Bool → Action ℕ
  poll_once_inner watch force_fetch = do
    etag ← stored_etag force_fetch watch.source_id
    poll_with watch force_fetch etag
