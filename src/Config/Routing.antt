-- ===== src/Config/Routing.antt =====
-- `validate_team_routing` of src/validate.rs: whether every tag of a desired state has a channel. A
-- `HashSet` is a list, and a message of a report is named by its cause.
pub mod Heard
use mathlib.Core.List.{◌++◌ as append}
use xrelease.Base.{
  String, Bool, true, false, not, ◌&&◌, ◌||◌, Option, none, some, List, [], ◌∷◌, map, any, is_empty,
  str_eq, if◌then◌else◌,
}
use xrelease.Text.{trim}
use xrelease.Notify.Routing.{non_blank}
use xrelease.Config.Presets.{
  SourceCommon, SourcePreset, BTreeMap, Defaults, Result, ok, err, or_else, with_preset_resolved,
  effective_source_presets,
}
use xrelease.Config.Source.{SourceConfig, source_common, source_label}
use xrelease.Config.Organizations.{Config, NotifierConfig, TeamConfig}

pub data Issue : Type 0 where
  empty_team_tag : Issue
  untagged_source blank_source_tag : String → Issue
  unlisted_source_tag unheard_source_tag unheard_source_tag_yet : String → String → Issue
  unlisted_ops_tag unheard_ops_tag unheard_ops_tag_yet unused_team : String → Issue

-- Without the count of sources and the probes, which are other parts of the validation.
pub record ValidationReport : Type 0 where
  pub valid : Bool
  pub errors : List Issue
  pub warnings : List Issue

unfoldable pub error : Issue → ValidationReport → ValidationReport
error issue r = record r { valid = false; errors = append r.errors (issue ∷ []) }

unfoldable pub warn : Issue → ValidationReport → ValidationReport
warn issue r = record r { warnings = append r.warnings (issue ∷ []) }

abbrev pub has_tag : List String → String → Bool
has_tag tags tag = any (λ t. str_eq t tag) tags

-- What the notifiers and the teams say: the catalogue of tags, the tags of notifiers, whether one
-- takes every event, and whether there is one.
pub record Channels : Type 0 where
  pub catalog : List String
  pub notifier_tags : List String
  pub wildcard_notifier : Bool
  pub has_any_channel : Bool

unfoldable pub tags_of : List NotifierConfig → List String
tags_of [] = []
tags_of (n ∷ notifiers) = append n.tags (tags_of notifiers)

unfoldable pub channels_of : Config → Channels
channels_of config = record {
  catalog = map (λ t. t.tag) config.teams;
  notifier_tags = tags_of config.notifiers;
  wildcard_notifier = any (λ n. is_empty n.tags) config.notifiers;
  has_any_channel = not (is_empty config.notifiers);
}

abbrev tag_of_resolved : Result SourceCommon → Option String
tag_of_resolved (ok common) = common.routing_tag
tag_of_resolved (err e) = none

unfoldable pub effective_tag : BTreeMap SourcePreset → SourceConfig → Option String
effective_tag presets source =
    or_else
      (tag_of_resolved (with_preset_resolved (source_common source) presets (source_label source)))
      (source_common source).routing_tag

unfoldable pub check_listed : Channels → Issue → String → ValidationReport → ValidationReport
check_listed ch issue tag r =
    if not (is_empty ch.catalog) && not (has_tag ch.catalog tag) then warn issue r else r

-- An error if there are channels and none has the tag, a warning if there are no channels.
unfoldable pub check_heard : Channels → Issue → Issue → String → ValidationReport → ValidationReport
check_heard ch loud quiet tag r =
    if not ch.wildcard_notifier && not (has_tag ch.notifier_tags tag)
    then (if ch.has_any_channel then error loud r else warn quiet r)
    else r

unfoldable pub check_tag : Channels → String → String → ValidationReport → ValidationReport
check_tag ch id tag r =
    check_heard ch (unheard_source_tag id tag) (unheard_source_tag_yet id tag) tag
      (check_listed ch (unlisted_source_tag id tag) tag r)

unfoldable pub check_source :
    Channels
    → String
    → Option String
    → ValidationReport × List String
    → ValidationReport × List String
check_source ch id none (r, used) = (
  if not ch.wildcard_notifier && not (is_empty ch.notifier_tags)
      then warn (untagged_source id) r
      else r,
  used,
)
check_source ch id (some tag) (r, used) =
    if str_eq (trim tag) ""
    then (warn (blank_source_tag id) r, used)
    else (check_tag ch id tag r, tag ∷ used)

unfoldable pub check_sources :
    Channels
    → BTreeMap SourcePreset
    → List SourceConfig
    → ValidationReport × List String
    → ValidationReport × List String
check_sources ch presets [] acc = acc
check_sources ch presets (s ∷ sources) acc =
    check_sources ch presets sources
      (check_source ch (source_label s) (effective_tag presets s) acc)

unfoldable pub check_ops :
    Channels → Option String → ValidationReport × List String → ValidationReport × List String
check_ops ch none acc = acc
check_ops ch (some tag) (r, used) = (
  check_heard ch (unheard_ops_tag tag) (unheard_ops_tag_yet tag) tag
      (check_listed ch (unlisted_ops_tag tag) tag r),
  tag ∷ used,
)

unfoldable pub check_team_tags : List TeamConfig → ValidationReport → ValidationReport
check_team_tags [] r = r
check_team_tags (t ∷ teams) r =
    check_team_tags teams (if str_eq (trim t.tag) "" then error empty_team_tag r else r)

unfoldable pub check_unused :
    Channels → List String → List TeamConfig → ValidationReport → ValidationReport
check_unused ch used [] r = r
check_unused ch used (t ∷ teams) r =
    let tag = trim t.tag in
    check_unused ch used teams (
      if not (str_eq tag "") && not (has_tag used tag) && not (has_tag ch.notifier_tags tag)
      then warn (unused_team tag) r
      else r)

unfoldable pub validate_team_routing : Config → ValidationReport → ValidationReport
validate_team_routing config r =
    let ch = channels_of config in
    let (r', used) = check_ops ch (non_blank config.defaults.ops_routing_tag) (
      check_sources ch (effective_source_presets config.presets) config.sources
        (check_team_tags config.teams r, [])) in
    check_unused ch used config.teams r'
