-- ===== src/Scenarios/Tenants.antt =====
-- Addresses, configurations of two organizations, their diff and the index of watches, by
-- src/sources/release_urls.rs, src/config and src/watch_lookup.rs.
use xrelease.Base.{
  ℕ, String, ◌≡◌, ◌≢◌, refl, Bool, true, false, not, ◌&&◌, Option, none, some, List, [], ◌∷◌, ◌++◌,
  All, arith, eq_iff, str_eq, select, ◌+◌, ◌==◌,
}
use xrelease.ReleaseUrls.{
  codes, encode_path_segment, decode_path_segment, tag_from_release_url, gitea_release_url,
}
use xrelease.ReleaseUrls
use xrelease.Text
use xrelease.ReleaseUrls.RoundTrip.{decode-encode, tag_from-gitea}
use xrelease.Notify.Composite.{slack, apprise}
use xrelease.Sources.Provider.{Provider, identity}
use xrelease.Sources.Registry
use xrelease.Config.Diff as ConfigDiff
use xrelease.Config.Presets.{SourceCommon, Defaults}
use xrelease.Config.Source.{GiteaRepoCfg, PackageCfg, github, codeberg, npm, source_label}
use xrelease.Config.Watches.{Watch, NotifySchedule, into_watch}
use xrelease.Config.Watches.Ids.{into_watch-source_label}
use xrelease.Config.Organizations.{
  Config, NotifierConfig, prepared_source, catch_all, namespace_notifier,
  namespace_organization_desired,
}
use xrelease.Config.Organizations.Apart.{Deaf, IsSlug, namespace-Deaf}
use xrelease.Config.Organizations.CatchAll.{Hears, catch_all-Hears}
use xrelease.Config.Organizations.SourceIds.{Fresh, namespace-Fresh, codeberg-eq-github}
use xrelease.Config.Diff.{find_value, diff_contents}
use xrelease.Config.Diff.Lookup.{listed, present, differ, diff_contents-lookup}
use xrelease.WatchLookup.{new, find_repos, find_images_any, normalise}
use xrelease.WatchLookup.Select.{goes_by, images_of, find_repos-new, find_images_any-new}

-- `v 1/é`
abbrev tag : List ℕ
tag = codes "v 1/" ++ (195 ∷ 169 ∷ [])

decode_example : decode_path_segment (encode_path_segment tag) ≡ tag
unfolding ReleaseUrls.from_utf8_lossy
decode_example = decode-encode tag (omega arith) refl

tag_example :
    tag_from_release_url (gitea_release_url (codes "https://codeberg.org/") (codes "o/r") tag)
    ≡ some tag
unfolding ReleaseUrls.from_utf8_lossy ReleaseUrls.after_first ReleaseUrls.starts_with_bytes
    ReleaseUrls.trim_slashes
tag_example =
    tag_from-gitea (codes "https://codeberg.org/") (codes "o/r") tag (omega arith) refl refl

abbrev pub plain : Option String → SourceCommon
plain routing_tag = record {
  preset = none;
  include_prerelease = none;
  prerelease_tags = none;
  exclude_updated = none;
  pattern = none;
  exclude_pattern = none;
  routing_tag = routing_tag;
  interval_secs = none;
  jitter_secs = none;
  poll_on_startup = none;
  notify_schedule = none;
}

abbrev pub repository : Option String → GiteaRepoCfg
repository routing_tag = record {
  id = none;
  repo = "forgejo/forgejo";
  token = none;
  token_env = none;
  common = plain routing_tag;
}

abbrev pub npm_package : PackageCfg
npm_package = record { id = none; name = "axios"; common = plain (some " web ") }

abbrev pub defaults : Defaults
defaults = record {
  interval_secs = 86400;
  jitter_secs = 3600;
  poll_on_startup = true;
  notify_schedule = none;
  ops_routing_tag = none;
  upstream_requests_per_minute = 0;
}

-- A sink without tags, and sources with and without a tag.
abbrev untagged : NotifierConfig
untagged = record { sink = apprise; tags = [] }

abbrev first : Config
first = record {
  defaults = defaults;
  notifiers = untagged ∷ record { sink = slack "chat"; tags = "web" ∷ [] } ∷ [];
  teams = [];
  presets = [];
  sources = codeberg (repository none) ∷ npm npm_package ∷ [];
}

abbrev second : Config
second = record first { sources = github (repository (some "core")) ∷ npm npm_package ∷ [] }

platform-IsSlug : IsSlug "platform"
platform-IsSlug =
    unfold Text.is_whitespace in
    ((refl, (refl, (refl, (refl, (refl, (refl, (refl, (refl, tt)))))))), refl)

security-IsSlug : IsSlug "security"
security-IsSlug =
    unfold Text.is_whitespace in
    ((refl, (refl, (refl, (refl, (refl, (refl, (refl, (refl, tt)))))))), refl)

platform-ne-security : ◌≢◌ {A = String} "platform" "security"
platform-ne-security = ground (arith, eq_iff "platform" "security")

Deaf-example :
    All
      (Deaf (namespace_organization_desired "security" second).sources)
      (namespace_organization_desired "platform" first).notifiers
Deaf-example =
    namespace-Deaf "platform" "security" first second platform-IsSlug security-IsSlug
      platform-ne-security

Fresh-example :
    All
      (Fresh (namespace_organization_desired "security" second).sources)
      (namespace_organization_desired "platform" first).sources
Fresh-example =
    namespace-Fresh "platform" "security" platform-IsSlug security-IsSlug platform-ne-security first
      second

Hears-example :
    All
      (Hears (namespace_notifier "platform" (catch_all "platform" first) untagged).tags)
      (namespace_organization_desired "platform" first).sources
Hears-example = catch_all-Hears "platform" first untagged platform-IsSlug refl

collision_example :
    source_label (prepared_source "platform" [] defaults (codeberg (repository none)))
    ≡ source_label (prepared_source "platform" [] defaults (github (repository (some "core"))))
collision_example =
    codeberg-eq-github "platform" [] defaults (repository none) (repository (some "core")) refl refl
      refl

abbrev pub compile : String → Option (String → Bool)
compile text = some (λ tag. str_eq tag text)

abbrev pub parse : String → Option NotifySchedule
parse text = some (record { expr = text; next_after = λ now. some (now + 60) })

abbrev pub env_token : String → Option String
env_token name = none

abbrev pub npm_watch : Watch
npm_watch = record {
  provider = Provider.npm (record { id = "npm:axios"; name = "axios"; registry = Registry.npm });
  interval = 86400;
  jitter = 3600;
  poll_on_startup = true;
  filter = record {
    include_prerelease = false;
    prerelease_tags = none;
    pattern = none;
    exclude_pattern = none;
    exclude_updated = false;
  };
  routing_tag = some " web ";
  notify_schedule = none;
  organization_id = none;
}

label_example : (identity npm_watch.provider).id ≡ source_label (npm npm_package)
unfolding into_watch
label_example =
    into_watch-source_label compile parse env_token (npm npm_package) defaults [] npm_watch refl
      refl

abbrev current_content : List (String × ℕ)
current_content = ("npm:axios", 1) ∷ ("npm:left-pad", 2) ∷ []

abbrev next_content : List (String × ℕ)
next_content = ("npm:left-pad", 3) ∷ ("npm:vue", 4) ∷ []

lookup_example :
    let id : String = "npm:left-pad" in
    let diff = diff_contents ◌==◌ current_content next_content in
    let old = find_value id current_content in
    let new = find_value id next_content in
    (listed id diff.added ≡ (not (present old) && present new))
    × (listed id diff.removed ≡ (present old && not (present new)))
    × (listed id diff.changed ≡ differ ◌==◌ old new)
unfolding ConfigDiff.has_id
lookup_example =
    diff_contents-lookup ◌==◌ "npm:left-pad" current_content next_content (refl, (refl, tt))

repos_example :
    find_repos (new (npm_watch ∷ [])) "npm" " Axios"
    ≡ select (goes_by "npm" (normalise " Axios")) (npm_watch ∷ [])
repos_example = find_repos-new (npm_watch ∷ []) "npm" " Axios"

images_example :
    find_images_any (new (npm_watch ∷ [])) ("docker" ∷ "ghcr" ∷ []) "library/nginx"
    ≡ images_of (npm_watch ∷ []) (normalise "library/nginx") ("docker" ∷ "ghcr" ∷ [])
images_example = find_images_any-new (npm_watch ∷ []) ("docker" ∷ "ghcr" ∷ []) "library/nginx"
