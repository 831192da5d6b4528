-- ===== src/Poll/Baseline.antt =====
-- The first poll of a source is silent, and so is the next one if nothing has changed upstream.
use Prim.Native.Nat.{Ordering}
use xrelease.Base.{
  ℕ, ◌+◌, ◌≡◌, ◌≢◌, refl, ap, ◌∙◌, String, Bool, true, false, Option, some, List, [], ◌∷◌, map, All,
  eq_refl,
}
use xrelease.World.{World, Result, ok, pure, query, statement, ◌>>=◌, pass_time}
use xrelease.Store.Tables.{SeenUpsert, SeenRow}
use xrelease.Store.Catalogue.{
  has_baseline, is_initialized, mark_initialized, set_latest_release_tag, seen_index,
  load_seen_index, baseline, record_seen_batch,
}
use xrelease.Model.{Release, content_fingerprint, pick_latest}
use xrelease.Poll.{
  find_digest, is_changed, should_deliver_cached, seen_upsert, sort_by_age, store_latest,
  record_baseline, select_unseen, select_by, select_for_delivery,
}
use xrelease.Poll.Index.{
  Unlike, Distinct, Indexed, Indexed-baseline, select_none, baseline_found, baseline_kept,
}

module _ {V : Type 0} (hash : String → String → String) (version_cmp : V → V → Ordering) where
  -- No two releases have one identity.
  abbrev pub DistinctIds : List (Release V) → Type 0
  DistinctIds [] = Unit
  DistinctIds (r ∷ releases) = All (λ (x : Release V). x.id ≢ r.id) releases × DistinctIds releases

  abbrev items_of : List (Release V) → List SeenUpsert
  items_of releases = map (seen_upsert hash version_cmp) releases

  Unlike-items :
      (id : String) (releases : List (Release V))
      → All (λ (x : Release V). x.id ≢ id) releases
      → Unlike id (items_of releases)
  unfolding seen_upsert
  Unlike-items id [] h = tt
  Unlike-items id (r ∷ releases) h = (h.0, Unlike-items id releases h.1)

  Distinct-items_of :
      (releases : List (Release V)) → DistinctIds releases → Distinct (items_of releases)
  unfolding seen_upsert
  Distinct-items_of [] h = tt
  Distinct-items_of (r ∷ releases) h =
      (Unlike-items r.id releases h.0, Distinct-items_of releases h.1)

  -- What the baseline leaves.
  record Based (s : String) (releases : List (Release V)) (w : World)
      (x : Result (List (Release V)) × World) : Type 0 where
    outcome : x.0 ≡ ok []
    env : x.1.env ≡ w.env
    index : Indexed s x.1.tables.seen (items_of releases)
    initialized : has_baseline s x.1.tables ≡ true

  record_baseline-Based :
      (s : String) (releases : List (Release V)) (w : World)
      → ((n : ℕ) → w.env.db_fails n ≡ false)
      → DistinctIds releases
      → Based s releases w (record_baseline hash version_cmp s releases w)
  unfolding record_baseline record_seen_batch mark_initialized baseline store_latest
      set_latest_release_tag pick_latest has_baseline ◌>>=◌ statement pure pass_time
  record_baseline-Based s [] w live d = rw (live w.interactions) (record {
    outcome = refl;
    env = refl;
    index = tt;
    initialized = baseline_found s _ w.tables.sources;
  })
  record_baseline-Based s (r ∷ releases) w live d =
      let items = items_of (r ∷ releases) in
      let distinct = Distinct-items_of (r ∷ releases) d in
      rw (live w.interactions, live (w.interactions + 1))
        (record {
          outcome = refl;
          env = refl;
          index = Indexed-baseline s _ items w.tables.seen distinct;
          initialized = baseline_kept s _ _ _ (baseline_found s _ w.tables.sources);
        })

  same_content :
      (exclude_updated : Bool) (fingerprint : String) (found : Option (Option String))
      → found ≡ some (some fingerprint)
      → is_changed fingerprint exclude_updated found ≡ false
  same_content true fingerprint found e = rw e refl
  same_content false fingerprint found e = rw (e, eq_refl fingerprint) refl

  nothing_new :
      (exclude_updated : Bool) (s : String) (rows : List SeenRow) (releases : List (Release V))
      → Indexed s rows (items_of releases)
      → All
          (λ r.
            should_deliver_cached hash version_cmp r exclude_updated (seen_index s rows) ≡ false)
          releases
  unfolding should_deliver_cached seen_upsert
  nothing_new exclude_updated s rows [] h = tt
  nothing_new exclude_updated s rows (r ∷ releases) h = (
    same_content exclude_updated (content_fingerprint hash r) (find_digest r.id (seen_index s rows))
        h.0,
    nothing_new exclude_updated s rows releases h.1,
  )

  first_poll :
      (s : String) (releases : List (Release V)) (exclude_updated : Bool) (w : World)
      → ((n : ℕ) → w.env.db_fails n ≡ false)
      → has_baseline s w.tables ≡ false
      → DistinctIds releases
      → Based s releases w (select_for_delivery hash version_cmp s releases exclude_updated w)
  unfolding select_for_delivery select_by is_initialized query statement ◌>>=◌ pass_time
  first_poll s releases exclude_updated w live fresh d =
      let v = pass_time w in
      let based = record_baseline-Based s releases v live d in
      rw (live w.interactions, fresh)
        (record {
          outcome = based.outcome;
          env = based.env;
          index = based.index;
          initialized = based.initialized;
        })

  second_poll :
      (s : String) (releases : List (Release V)) (exclude_updated : Bool) (w : World)
      → ((n : ℕ) → w.env.db_fails n ≡ false)
      → has_baseline s w.tables ≡ true
      → Indexed s w.tables.seen (items_of releases)
      → (select_for_delivery hash version_cmp s releases exclude_updated w).0 ≡ ok []
  unfolding select_for_delivery select_by select_unseen is_initialized load_seen_index query
      statement ◌>>=◌ pass_time pure sort_by_age
  second_poll s releases exclude_updated w live known index =
      let none_selected =
        select_none _ releases (nothing_new exclude_updated s w.tables.seen releases index) in
      rw (live w.interactions, known, live (w.interactions + 1), none_selected) refl

-- If the database answers, a source has no baseline, and a poll finds releases with distinct
-- identities, then that poll selects nothing for delivery, and neither does the next one if it
-- finds the same releases, whether edits are notified or not.
pub select_for_delivery-silent :
    {V : Type 0} (hash : String → String → String) (version_cmp : V → V → Ordering)
    (source_id : String) (releases : List (Release V)) (exclude_updated : Bool) (w : World)
    → ((n : ℕ) → w.env.db_fails n ≡ false)
    → has_baseline source_id w.tables ≡ false
    → DistinctIds hash version_cmp releases
    → let poll = select_for_delivery hash version_cmp source_id releases exclude_updated in
      ((poll w).0 ≡ ok []) × ((poll (poll w).1).0 ≡ ok [])
select_for_delivery-silent hash version_cmp source_id releases exclude_updated w live fresh d =
    let first = first_poll hash version_cmp source_id releases exclude_updated w live fresh d in
    let w' = (select_for_delivery hash version_cmp source_id releases exclude_updated w).1 in
    (
      first.outcome,
      second_poll hash version_cmp source_id releases exclude_updated w'
          (λ n. ap (λ env. env.db_fails n) first.env ∙ live n) first.initialized first.index,
    )
