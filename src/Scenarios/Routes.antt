-- ===== src/Scenarios/Routes.antt =====
-- A desired state whose sources have channels, by src/validate.rs.
use xrelease.Base.{◌≡◌, refl, true, none, some, [], ◌∷◌, All}
use xrelease.Text.{trim}
use xrelease.Notify.Composite.{slack}
use xrelease.Config.Presets.{effective_source_presets, with_preset_resolved}
use xrelease.Config.Source.{github, source_common}
use xrelease.Config.Organizations.{Config}
use xrelease.Config.Routing.{
  ValidationReport, effective_tag, channels_of, tags_of, validate_team_routing, check_team_tags,
  check_sources, check_source, check_tag, check_heard, check_listed, check_ops, check_unused,
}
use xrelease.Config.Routing.Heard.{is_heard, validate_team_routing-heard}
use xrelease.Notify.Routing.{non_blank}
use xrelease.Scenarios.Tenants.{defaults, repository}

abbrev config : Config
config = record {
  defaults = defaults;
  notifiers = record { sink = slack "chat"; tags = "web" ∷ "ops" ∷ [] } ∷ [];
  teams = record { tag = "web"; name = none } ∷ [];
  presets = [];
  sources = github (repository (some "web")) ∷ [];
}

abbrev report : ValidationReport
report = record { valid = true; errors = []; warnings = [] }

config_valid : (validate_team_routing config report).valid ≡ true
unfolding validate_team_routing check_unused trim check_ops non_blank check_sources check_source
    effective_tag with_preset_resolved source_common check_tag check_heard channels_of tags_of
    check_listed check_team_tags
config_valid = refl

heard_example :
    All
      (λ s.
        is_heard config.notifiers (effective_tag (effective_source_presets config.presets) s)
        ≡ true)
      config.sources
heard_example = validate_team_routing-heard config report refl config_valid
