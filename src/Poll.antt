-- ===== src/Poll.antt =====
-- `select_for_delivery` of src/pipeline/poll.rs: which releases of a poll are to be notified.
pub mod Index
pub mod Baseline
pub mod Selection
pub mod Wanted
pub mod Deliver
pub mod Once
use Prim.Native.Nat.{compare, Ordering, lt, eq, gt}
use xrelease.Base.{
  ℕ, String, Bool, true, false, not, Option, none, some, List, [], ◌∷◌, map, select, str_eq,
  if◌then◌else◌,
}
use xrelease.World.{Action, pure, ◌>>=◌, ◌>>◌}
use xrelease.Store.Tables.{SeenUpsert, option_eq}
use xrelease.Store.Catalogue.{
  is_initialized, set_latest_release_tag, load_seen_index, record_seen_batch,
}
use xrelease.Model.{Release, content_fingerprint, then_cmp, cmp_option, pick_latest}

unfoldable pub find_digest : String → List (String × Option String) → Option (Option String)
find_digest id [] = none
find_digest id ((identity, digest) ∷ index) =
    if str_eq identity id then some digest else find_digest id index

-- The decision by what the index has of the release.
abbrev pub is_changed : String → Bool → Option (Option String) → Bool
is_changed fingerprint exclude_updated none = true
is_changed fingerprint exclude_updated (some stored) =
    if exclude_updated then false else not (option_eq stored (some fingerprint))

-- `if release.raw_tag == release.id { None } else { Some(raw_tag) }`
abbrev pub display_tag_of : {V : Type 0} → Release V → Option String
display_tag_of r = if str_eq r.raw_tag r.id then none else some r.raw_tag

abbrev pub is_gt : Ordering → Bool
is_gt gt = true
is_gt _ = false

-- The crates that the model leaves open: the hash of texts, and semantic versions with their order.
module _ {V : Type 0} (hash : String → String → String) (version_cmp : V → V → Ordering) where
  unfoldable pub should_deliver_cached : Release V → Bool → List (String × Option String) → Bool
  should_deliver_cached release exclude_updated seen =
      is_changed (content_fingerprint hash release) exclude_updated (find_digest release.id seen)

  -- `SeenUpsert::from_release(…).with_published_at(…)` with the fingerprint
  unfoldable pub seen_upsert : Release V → SeenUpsert
  seen_upsert release = record {
    identity = release.id;
    display_tag = display_tag_of release;
    content_digest = some (content_fingerprint hash release);
    published_at = release.published_at;
    url = release.url;
  }

  abbrev pub by_age : Release V → Release V → Ordering
  by_age a b =
      then_cmp (cmp_option compare a.published_at b.published_at)
        (cmp_option version_cmp a.version b.version)

  unfoldable pub insert_by_age : Release V → List (Release V) → List (Release V)
  insert_by_age r [] = r ∷ []
  insert_by_age r (x ∷ xs) =
      let rest = insert_by_age r xs in if is_gt (by_age r x) then x ∷ rest else r ∷ x ∷ xs

  -- The stable sort by age.
  unfoldable pub sort_by_age : List (Release V) → List (Release V)
  unfolding insert_by_age
  sort_by_age [] = []
  sort_by_age (r ∷ releases) = insert_by_age r (sort_by_age releases)

  unfoldable pub store_latest : String → Option (Release V) → Action (Unit {0})
  store_latest source_id none = pure tt
  store_latest source_id (some latest) = set_latest_release_tag source_id latest.raw_tag

  -- The first observation: everything is recorded and nothing is notified.
  unfoldable pub record_baseline : String → List (Release V) → Action (List (Release V))
  unfolding store_latest
  record_baseline source_id releases = do
    record_seen_batch source_id (map seen_upsert releases)
    store_latest source_id (pick_latest version_cmp releases)
    pure []

  unfoldable pub select_unseen : String → List (Release V) → Bool → Action (List (Release V))
  select_unseen source_id releases exclude_updated = do
    seen ← load_seen_index source_id
    pure (sort_by_age (select (λ r. should_deliver_cached r exclude_updated seen) releases))

  unfoldable pub select_by : Bool → String → List (Release V) → Bool → Action (List (Release V))
  select_by true source_id releases exclude_updated =
      select_unseen source_id releases exclude_updated
  select_by false source_id releases exclude_updated = record_baseline source_id releases

  unfoldable pub select_for_delivery : String → List (Release V) → Bool → Action (List (Release V))
  select_for_delivery source_id releases exclude_updated = do
    initialized ← is_initialized source_id
    select_by initialized source_id releases exclude_updated
