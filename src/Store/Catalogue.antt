-- ===== src/Store/Catalogue.antt =====
-- The statements of src/store/postgres/mod.rs on the tables `source_state` and `seen_release`.
use xrelease.Base.{
  ℕ, String, Bool, true, false, not, ◌&&◌, Option, none, some, List, [], ◌∷◌, any, select, str_eq,
  if◌then◌else◌,
}
use xrelease.World.{Action, pure, statement, query}
use xrelease.Store.Tables.{SeenUpsert, SeenRow, SourceState, Tables, coalesce}
use xrelease.Store.Parent.{upsert_seen}

-- What `INSERT INTO source_state` gives the columns that a statement does not set.
abbrev pub new_source : String → ℕ → SourceState
new_source source_id now = record {
  source_id = source_id;
  initialized = false;
  last_polled_at = some now;
  etag = none;
  latest_release_tag = none;
}

-- `INSERT … ON CONFLICT (source_id) DO UPDATE SET f`
unfoldable pub upsert_source :
    String → ℕ → (SourceState → SourceState) → List SourceState → List SourceState
upsert_source source_id now f [] = f (new_source source_id now) ∷ []
upsert_source source_id now f (s ∷ sources) =
    let rest = upsert_source source_id now f sources in
    if str_eq s.source_id source_id then f s ∷ sources else s ∷ rest

unfoldable pub find_source : String → List SourceState → Option SourceState
find_source source_id [] = none
find_source source_id (s ∷ sources) =
    if str_eq s.source_id source_id then some s else find_source source_id sources

abbrev pub update_source : String → ℕ → (SourceState → SourceState) → Tables → Tables
update_source source_id now f t = record t { sources = upsert_source source_id now f t.sources }

unfoldable pub initialized_of : Option SourceState → Bool
initialized_of none = false
initialized_of (some s) = s.initialized

unfoldable pub has_baseline : String → Tables → Bool
unfolding initialized_of
has_baseline source_id t = initialized_of (find_source source_id t.sources)

unfoldable pub is_initialized : String → Action Bool
is_initialized source_id = query (λ now t. has_baseline source_id t)

abbrev pub initialize : SourceState → SourceState
initialize s = record s { initialized = true }

unfoldable pub mark_initialized : String → Action (Unit {0})
mark_initialized source_id = statement (λ now t. (update_source source_id now initialize t, tt))

unfoldable pub touch_polled : String → Action (Unit {0})
touch_polled source_id =
    statement
      (λ now t. (update_source source_id now (λ s. record s { last_polled_at = some now }) t, tt))

unfoldable pub set_latest_release_tag : String → String → Action (Unit {0})
set_latest_release_tag source_id tag =
    statement (λ now t.
      (update_source source_id now (λ s. record s { latest_release_tag = some tag }) t, tt))

unfoldable pub etag_of : Option SourceState → Option String
etag_of none = none
etag_of (some s) = s.etag

unfoldable pub get_etag : String → Action (Option String)
unfolding etag_of
get_etag source_id = query (λ now t. etag_of (find_source source_id t.sources))

unfoldable pub set_etag : String → Option String → Action (Unit {0})
set_etag source_id etag =
    statement (λ now t. (update_source source_id now (λ s. record s { etag = etag }) t, tt))

lacks_published_at : String → SeenRow → Bool
lacks_published_at source_id row =
    str_eq row.source_id source_id && elim row.published_at [ none ↦ true | some at ↦ false ]

unfoldable pub has_seen_missing_published_at : String → Action Bool
unfolding lacks_published_at
has_seen_missing_published_at source_id = query (λ now t. any (lacks_published_at source_id) t.seen)

-- The map from identity to digest, as its entries.
unfoldable pub seen_index : String → List SeenRow → List (String × Option String)
seen_index source_id [] = []
seen_index source_id (row ∷ rows) =
    let rest = seen_index source_id rows in
    if str_eq row.source_id source_id then (row.identity, row.content_digest) ∷ rest else rest

unfoldable pub load_seen_index : String → Action (List (String × Option String))
load_seen_index source_id = query (λ now t. seen_index source_id t.seen)

unfoldable pub record_seen : String → SeenUpsert → Action (Unit {0})
record_seen source_id item =
    statement (λ now t. (record t { seen = upsert_seen source_id item now t.seen }, tt))

-- `DISTINCT ON (t.identity)`: the first of the items with one identity, which is one that it may
-- take.
unfoldable pub distinct_items : List String → List SeenUpsert → List SeenUpsert
distinct_items taken [] = []
distinct_items taken (item ∷ items) =
    let rest = distinct_items (item.identity ∷ taken) items in
    let skipped = distinct_items taken items in
    if any (λ i. str_eq i item.identity) taken then skipped else item ∷ rest

unfoldable pub upsert_all : String → ℕ → List SeenUpsert → List SeenRow → List SeenRow
upsert_all source_id now [] rows = rows
upsert_all source_id now (item ∷ items) rows =
    upsert_all source_id now items (upsert_seen source_id item now rows)

-- The transaction of `record_seen_batch`.
unfoldable pub baseline : String → List SeenUpsert → ℕ → Tables → Tables
baseline source_id items now t = record t {
  seen = upsert_all source_id now (distinct_items [] items) t.seen;
  sources = upsert_source source_id now initialize t.sources;
}

unfoldable pub record_seen_batch : String → List SeenUpsert → Action (Unit {0})
record_seen_batch source_id [] = mark_initialized source_id
record_seen_batch source_id (item ∷ items) =
    statement (λ now t. (baseline source_id (item ∷ items) now t, tt))

-- What `enrich_seen_metadata` merges into a seen release.
pub record Metadata : Type 0 where
  pub identity : String
  pub published_at : Option ℕ
  pub url : Option String
  pub display_tag : Option String

abbrev is_none {ℓ} : {A : Type ℓ} → Option A → Bool
is_none none = true
is_none (some a) = false

abbrev has_nothing : Metadata → Bool
has_nothing m = is_none m.published_at && is_none m.url && is_none m.display_tag

-- The row joined with an entry of its identity; of several, with the first, which is one that it
-- may take.
unfoldable pub enrich_row : List Metadata → SeenRow → SeenRow
enrich_row [] row = row
enrich_row (m ∷ entries) row =
    let rest = enrich_row entries row in
    if str_eq row.identity m.identity
    then record row {
      published_at = coalesce row.published_at m.published_at;
      url = coalesce row.url m.url;
      display_tag = coalesce row.display_tag m.display_tag;
    }
    else rest

unfoldable pub enrich_seen : String → List Metadata → List SeenRow → List SeenRow
enrich_seen source_id entries [] = []
enrich_seen source_id entries (row ∷ rows) =
    (if str_eq row.source_id source_id then enrich_row entries row else row)
    ∷ enrich_seen source_id entries rows

unfoldable pub enrich_with : String → List Metadata → Action (Unit {0})
enrich_with source_id [] = pure tt
enrich_with source_id (m ∷ entries) =
    statement (λ now t. (record t { seen = enrich_seen source_id (m ∷ entries) t.seen }, tt))

unfoldable pub enrich_seen_metadata : String → List Metadata → Action (Unit {0})
unfolding enrich_with
enrich_seen_metadata source_id entries =
    enrich_with source_id (select (λ m. not (has_nothing m)) entries)
