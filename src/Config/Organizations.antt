-- ===== src/Config/Organizations.antt =====
-- src/config/organizations.rs and `prepare_organization_sources` of src/config/sources/mod.rs: the
-- desired state of an organization that shares a process with others. The merge of the prepared
-- states is not modelled.
pub mod Apart
pub mod CatchAll
pub mod SourceIds
pub mod Watched
use Prim.Native.Nat.{Ordering}
use Prim.Native.String.{◌++◌, compare}
use mathlib.Core.Option
use mathlib.Core.List.{◌++◌ as append}
use xrelease.Base.{
  ℕ, zero, suc, String, Bool, true, false, not, ◌&&◌, Option, none, some, List, [], ◌∷◌, map, any,
  str_eq, is_empty, if◌then◌else◌, ◌==◌, min,
}
use xrelease.Text.{trim, starts_with}
use xrelease.Notify.Composite.{Sink}
use xrelease.Notify.Routing.{non_blank}
use xrelease.Config.Presets.{
  SourceCommon, SourcePreset, BTreeMap, Defaults, insert, insert_all, get, or_else, unwrap_or,
}
use xrelease.Config.Source.{
  SourceConfig, source_common, source_explicit_id, with_id_and_common, default_source_id,
  bare_source_id, is_legacy_shared_prefix_id,
}

pub record OrganizationConfig : Type 0 where
  pub id : String
  pub name : Option String
  pub app : Option String

unfoldable pub organization_display_name : OrganizationConfig → String
unfolding non_blank
organization_display_name o = unwrap_or o.id (non_blank o.name)

unfoldable pub app_path : OrganizationConfig → Option String
unfolding non_blank
app_path o = non_blank o.app

pub record TeamConfig : Type 0 where
  pub tag : String
  pub name : Option String

-- Of an entry of `[[notifiers]]`, the backend that is built from it and its tags.
pub record NotifierConfig : Type 0 where
  pub sink : Sink
  pub tags : List String

-- The sections of a desired state.
pub record Config : Type 0 where
  pub defaults : Defaults
  pub notifiers : List NotifierConfig
  pub teams : List TeamConfig
  pub presets : BTreeMap SourcePreset
  pub sources : List SourceConfig

unfoldable pub prefix_of : String → String
prefix_of organization_id = organization_id ++ "::"

unfoldable pub namespace_scoped : String → String → String
unfolding prefix_of
namespace_scoped organization_id value =
    if starts_with (prefix_of organization_id) (trim value)
    then trim value
    else prefix_of organization_id ++ trim value

pub base_id : SourceConfig → String
unfolding bare_source_id is_legacy_shared_prefix_id default_source_id source_explicit_id
base_id source = elim (Option.map bare_source_id (source_explicit_id source)) [
  | none ↦ default_source_id source
  | some bare ↦ if is_legacy_shared_prefix_id bare then default_source_id source else bare
]

unfoldable pub org_tag : String → Option String → String
unfolding namespace_scoped
org_tag organization_id none = namespace_scoped organization_id "__org__"
org_tag organization_id (some tag) =
    if str_eq (trim tag) ""
    then namespace_scoped organization_id "__org__"
    else namespace_scoped organization_id tag

-- A preset that the organization declares itself goes by its new name.
org_preset : String → BTreeMap SourcePreset → Option String → Option String
unfolding get namespace_scoped
org_preset organization_id presets none = none
org_preset organization_id presets (some name) = elim (get (trim name) presets) [
  | none ↦ some name
  | some p ↦ some (namespace_scoped organization_id (trim name))
]

pub prepared_common : String → BTreeMap SourcePreset → Defaults → SourceCommon → SourceCommon
unfolding org_tag org_preset
prepared_common organization_id presets defaults c = record c {
  interval_secs = or_else c.interval_secs (some defaults.interval_secs);
  jitter_secs = or_else c.jitter_secs (some defaults.jitter_secs);
  poll_on_startup = or_else c.poll_on_startup (some defaults.poll_on_startup);
  notify_schedule = or_else c.notify_schedule defaults.notify_schedule;
  routing_tag = some (org_tag organization_id c.routing_tag);
  preset = org_preset organization_id presets c.preset;
}

unfoldable pub prepared_source :
    String → BTreeMap SourcePreset → Defaults → SourceConfig → SourceConfig
unfolding base_id prepared_common namespace_scoped
prepared_source organization_id presets defaults source =
    with_id_and_common (some (namespace_scoped organization_id (base_id source)))
      (prepared_common organization_id presets defaults (source_common source)) source

unfoldable pub prepare_organization_sources : String → Config → Config
unfolding prepared_source insert_all
prepare_organization_sources organization_id config = record config {
  presets =
      insert_all
        (map (λ (name, preset). (namespace_scoped organization_id name, preset)) config.presets) [];
  sources = map (prepared_source organization_id config.presets config.defaults) config.sources;
}

-- A `BTreeSet` of texts, as the list of its elements in their order.
pub place : Ordering → String → String → List String → List String → List String
place Ordering.lt t u tags rest = t ∷ u ∷ tags
place Ordering.eq t u tags rest = u ∷ tags
place Ordering.gt t u tags rest = u ∷ rest

unfoldable pub insert_tag : String → List String → List String
unfolding place
insert_tag t [] = t ∷ []
insert_tag t (u ∷ tags) = place (compare t u) t u tags (insert_tag t tags)

pub insert_source_tag : String → Option String → List String → List String
unfolding insert_tag namespace_scoped
insert_source_tag organization_id none tags = tags
insert_source_tag organization_id (some tag) tags =
    insert_tag (namespace_scoped organization_id tag) tags

unfoldable pub source_tags : String → List SourceConfig → List String → List String
unfolding insert_source_tag non_blank source_common
source_tags organization_id [] tags = tags
source_tags organization_id (source ∷ sources) tags =
    source_tags organization_id sources
      (insert_source_tag organization_id (non_blank (source_common source).routing_tag) tags)

-- The tags that an organization's own events can carry.
unfoldable pub catch_all : String → Config → List String
unfolding source_tags insert_source_tag
catch_all organization_id config =
    insert_source_tag organization_id (non_blank config.defaults.ops_routing_tag) (
      source_tags organization_id config.sources
        (insert_tag (namespace_scoped organization_id "__org__") []))

unfoldable pub namespace_notifier : String → List String → NotifierConfig → NotifierConfig
unfolding namespace_scoped
namespace_notifier organization_id everything n = record n {
  tags = if is_empty n.tags then everything else map (namespace_scoped organization_id) n.tags;
}

namespace_team : String → TeamConfig → TeamConfig
unfolding namespace_scoped
namespace_team organization_id t = record t { tag = namespace_scoped organization_id t.tag }

namespace_ops : String → Option String → Option String
unfolding namespace_scoped
namespace_ops organization_id none = none
namespace_ops organization_id (some tag) =
    if str_eq (trim tag) "" then some tag else some (namespace_scoped organization_id (trim tag))

pub namespaced_defaults : String → Defaults → Defaults
unfolding namespace_ops
namespaced_defaults organization_id d = record d {
  ops_routing_tag = namespace_ops organization_id d.ops_routing_tag;
}

unfoldable pub namespace_organization_desired : String → Config → Config
unfolding namespace_notifier namespace_team namespaced_defaults prepare_organization_sources
    catch_all
namespace_organization_desired organization_id config =
    prepare_organization_sources organization_id (record config {
      teams = map (namespace_team organization_id) config.teams;
      defaults = namespaced_defaults organization_id config.defaults;
      notifiers =
          map (namespace_notifier organization_id (catch_all organization_id config))
            config.notifiers;
    })
