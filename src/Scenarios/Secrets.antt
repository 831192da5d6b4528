-- ===== src/Scenarios/Secrets.antt =====
-- The tokens of sources in a document that is read and applied again, by
-- src/config_apply/redact.rs.
use xrelease.Base.{◌≡◌, refl, none, some, List, [], ◌∷◌, false}
use xrelease.Text.{trim}
use xrelease.Config.Source.{SourceConfig, GitlabCfg, GiteaRepoCfg, github, gitlab}
use xrelease.Config.Redact.{redact_sources, restore_sources, is_placeholder, find_keyed, source_key}
use xrelease.Config.Redact.Restored.{restore_sources-redact, restore_sources-crossed}
use xrelease.Scenarios.Tenants.{plain}

abbrev repository : GiteaRepoCfg
repository = record {
  id = none;
  repo = "tokio-rs/tokio";
  token = some "ghp-1";
  token_env = none;
  common = plain none;
}

abbrev public_project : GitlabCfg
public_project = record {
  id = none;
  project = "group/app";
  host = none;
  token = some "glpat-1";
  token_env = none;
  common = plain none;
}

abbrev own_project : GitlabCfg
own_project = record {
  id = some "own";
  project = "group/app";
  host = some "gitlab.example";
  token = some "glpat-2";
  token_env = none;
  common = plain none;
}

abbrev sources : List SourceConfig
sources = github repository ∷ gitlab own_project ∷ []

ghp_live : is_placeholder "ghp-1" ≡ false
unfolding is_placeholder trim
ghp_live = refl

first_live : is_placeholder "glpat-1" ≡ false
unfolding is_placeholder trim
first_live = refl

second_live : is_placeholder "glpat-2" ≡ false
unfolding is_placeholder trim
second_live = refl

first_found : find_keyed (source_key (github repository)) sources ≡ some (github repository)
unfolding find_keyed source_key
first_found = refl

second_found : find_keyed (source_key (gitlab own_project)) sources ≡ some (gitlab own_project)
unfolding find_keyed source_key
second_found = refl

redact_example : (restore_sources sources (redact_sources sources)).0 ≡ sources
unfolding source_key
redact_example =
    restore_sources-redact sources ((first_found, ghp_live), ((second_found, second_live), tt))

crossed_example :
    (restore_sources
      (gitlab public_project ∷ gitlab own_project ∷ [])
      (redact_sources (gitlab public_project ∷ gitlab own_project ∷ []))).0
    ≡ gitlab public_project ∷ gitlab (record own_project { token = some "glpat-1" }) ∷ []
crossed_example =
    restore_sources-crossed public_project own_project "glpat-1" "glpat-2" refl refl refl refl refl
      first_live second_live
