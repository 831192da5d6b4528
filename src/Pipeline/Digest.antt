-- ===== src/Pipeline/Digest.antt =====
-- `DeliveryUnit`, `partition_for_digest` and `build_digest_event` of src/pipeline/outbox.rs. The
-- groups of the `HashMap` come in the order in which they were opened, one of the orders it may
-- yield.
pub mod Partition
use Prim.Native.String.{◌++◌ as ◌+++◌}
use xrelease.Base.{
  ℕ, String, Bool, Option, none, some, List, [], ◌∷◌, ◌++◌, map, length, ◌==◌, ◌&&◌, if◌then◌else◌,
}
use xrelease.Text.{decimal}
use xrelease.Notify.Event.{Event}
use xrelease.Store.Tables.{OutboxRecord, SeenUpsert, option_eq}

pub data DeliveryUnit : Type 0 where
  single : OutboxRecord → DeliveryUnit
  digest : List OutboxRecord → DeliveryUnit

-- An entry of the map from `(deliver_after, routing_tag)` to rows.
pub record Group : Type 0 where
  pub moment : ℕ
  pub tag : Option String
  pub rows : List OutboxRecord

-- `groups.entry(…).or_default().push(row)`
unfoldable pub push_row : ℕ → OutboxRecord → List Group → List Group
push_row moment row [] = record { moment = moment; tag = row.routing_tag; rows = row ∷ [] } ∷ []
push_row moment row (g ∷ groups) =
    let rest = push_row moment row groups in
    if g.moment == moment && option_eq g.tag row.routing_tag
    then record g { rows = g.rows ++ row ∷ [] } ∷ groups
    else g ∷ rest

abbrev pub place :
    Option ℕ → OutboxRecord → List Group × List DeliveryUnit → List Group × List DeliveryUnit
place (some moment) row (groups, units) = (push_row moment row groups, units)
place none row (groups, units) = (groups, units ++ single row ∷ [])

unfoldable pub group_wave :
    List Group × List DeliveryUnit → List OutboxRecord → List Group × List DeliveryUnit
group_wave state [] = state
group_wave state (row ∷ wave) = group_wave (place row.deliver_after row state) wave

-- A group of one row is no digest.
abbrev pub unit_of : List OutboxRecord → DeliveryUnit
unit_of [] = digest []
unit_of (row ∷ []) = single row
unit_of (row ∷ row' ∷ rows) = digest (row ∷ row' ∷ rows)

unfoldable pub partition_for_digest : List OutboxRecord → List DeliveryUnit
partition_for_digest wave =
    let (groups, units) = group_wave ([], []) wave in units ++ map (λ g. unit_of g.rows) groups

link : Option String → String
link none = ""
link (some url) = " — " +++ url

digest_lines : List OutboxRecord → String
unfolding link
digest_lines [] = ""
digest_lines (row ∷ rows) = "- " +++ (row.title +++ (link row.url +++ ("\n" +++ digest_lines rows)))

tag_of_first : List OutboxRecord → Option String
tag_of_first [] = none
tag_of_first (row ∷ rows) = row.routing_tag

-- The one event of a group; it is only built of a group with rows.
unfoldable pub build_digest_event : List OutboxRecord → Event
unfolding digest_lines tag_of_first
build_digest_event group =
    let count = decimal (length group) in
    record {
      source_id = "digest";
      source_kind = "Digest";
      title = count +++ " new releases";
      body = "**" +++ (count +++ (" releases** ready:\n\n" +++ digest_lines group));
      url = none;
      routing_tag = tag_of_first group;
    }

unfoldable pub seen_upsert_for : OutboxRecord → SeenUpsert
seen_upsert_for row = record {
  identity = row.identity;
  display_tag = row.display_tag;
  content_digest = row.content_digest;
  published_at = row.published_at;
  url = row.url;
}
