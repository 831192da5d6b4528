-- ===== src/Config/Watches.antt =====
-- From `[[sources]]` to watches: `into_watch` of src/config/sources/mod.rs and `to_watches` of
-- src/config/mod.rs. The regular expressions, the schedules and the secrets of the environment are
-- other code's, and are functions.
pub mod Ids
use Prim.Native.String.{◌++◌}
use mathlib.Core.Option
use xrelease.Base.{
  ℕ, String, Bool, true, false, not, ◌&&◌, ◌||◌, Option, none, some, List, [], ◌∷◌, str_eq,
  if◌then◌else◌, any,
}
use xrelease.Text.{trim, has_substring, to_ascii_lowercase, split_once}
use xrelease.Text.Pieces.{strip_prefix, split_at_first, trim_end_slashes, replace}
use xrelease.Filter.{Filter}
use xrelease.Sources.Registry.{ContainerRegistry, PackageRegistry, container_prefix, kind}
use xrelease.Sources.Provider.{
  Provider, identity, github_source, codeberg_source, gitea_source, gitlab_source, cloud, server,
  bitbucket_cloud, bitbucket_server, bitbucket_with_host, container_registry, package_registry,
  with_options, ArtifactHubSource, BitbucketEdition,
}
use xrelease.Config.Presets.{
  SourceCommon, SourcePreset, BTreeMap, Defaults, Result, ok, err, ConfigError, bad_chart_name,
  server_without_host, invalid_schedule, ◌>>=◌, unwrap_or, with_preset_resolved, build_filter,
  schedule, effective_source_presets,
}
use xrelease.Config.Source.{SourceConfig, BitbucketCfg, PackageCfg, ArtifactHubCfg}

-- `NotifySchedule`: the expression as configured, and the next moment of its schedule.
pub record NotifySchedule : Type 0 where
  pub expr : String
  pub next_after : ℕ → Option ℕ

pub record Watch : Type 0 where
  pub provider : Provider
  pub interval : ℕ
  pub jitter : ℕ
  pub poll_on_startup : Bool
  pub filter : Filter
  pub routing_tag : Option String
  pub notify_schedule : Option NotifySchedule
  pub organization_id : Option String

abbrev default_registry : String
default_registry = "https://registry-1.docker.io"

-- The text before the first of a separator, all of it if there is none.
before : ℕ → String → String
unfolding split_once
before sep s = elim (split_once sep s) [ none ↦ s | some (a, b) ↦ a ]

scheme_stripped : String → Option String
unfolding strip_prefix
scheme_stripped url = elim (strip_prefix "https://" url) [
  | none ↦ strip_prefix "http://" url
  | some rest ↦ some rest
]

is_hub_host : String → Bool
unfolding to_ascii_lowercase
is_hub_host host =
    any (λ h. str_eq h (to_ascii_lowercase host))
      ("registry-1.docker.io" ∷ "docker.io" ∷ "index.docker.io" ∷ "hub.docker.com" ∷ [])

is_docker_hub_registry : String → Bool
unfolding scheme_stripped before is_hub_host
is_docker_hub_registry url =
    if str_eq url default_registry then true else elim (scheme_stripped url) [
      | none ↦ false
      | some rest ↦ is_hub_host (before b':' (before b'/' rest))
    ]

registry_at : String → ContainerRegistry
unfolding trim_end_slashes is_docker_hub_registry
registry_at with_scheme =
    let base = trim_end_slashes with_scheme in
    if is_docker_hub_registry base
    then ContainerRegistry.docker_hub
    else ContainerRegistry.custom base

unfoldable pub resolve_docker_registry : Option String → ContainerRegistry
unfolding registry_at has_substring
resolve_docker_registry none = ContainerRegistry.docker_hub
resolve_docker_registry (some registry) =
    let raw = trim registry in
    if str_eq raw ""
    then ContainerRegistry.docker_hub
    else registry_at (if has_substring raw "://" then raw else "https://" ++ raw)

-- `filter` and `or_else` of an optional text.
keep_if : (String → Bool) → Option String → Option String
keep_if test none = none
keep_if test (some s) = if test s then some s else none

-- A configured token counts unless it is blank or a redaction mark.
is_live_token : String → Bool
is_live_token token =
    let trimmed = trim token in
    not (str_eq trimmed "")
    && not (str_eq trimmed "<redacted>")
    && not (has_substring trimmed "<redacted>")

module _ (env_token : String → Option String) where
  unfoldable pub resolve_token : Option String → Option String → String → Option String
  unfolding keep_if is_live_token
  resolve_token config_token named_env global_env = elim (keep_if is_live_token config_token) [
    | some token ↦ some token
    | none ↦ elim (named_token named_env) [ some token ↦ some token | none ↦ env_token global_env ]
  ]
    where
      named_token : Option String → Option String
      named_token none = none
      named_token (some name) = env_token name

-- `parse` is `NotifySchedule::parse`, whose schedules are those of the `cron` crate.
module _ (parse : String → Option NotifySchedule) where
  parsed : Option NotifySchedule → Option (Option NotifySchedule)
  parsed none = none
  parsed (some s) = some (some s)

  -- `none` is the error of an expression that does not parse.
  unfoldable pub resolve_notify_schedule :
      Option String → Option String → Option (Option NotifySchedule)
  unfolding parsed keep_if
  resolve_notify_schedule (some expr) default =
      if str_eq (trim expr) "" then some none else parsed (parse expr)
  resolve_notify_schedule none default = elim (keep_if (λ e. not (str_eq (trim e) "")) default) [
    | none ↦ some none
    | some expr ↦ parsed (parse expr)
  ]

-- `split_once("::")`, where the organization is not empty.
unfoldable pub organization_id_from_source_id : String → Option String
unfolding split_at_first
organization_id_from_source_id id = elim (split_at_first "::" id) [
  | none ↦ none
  | some (organization, rest) ↦ if str_eq organization "" then none else some organization
]

module _ (compile : String → Option (String → Bool)) (parse : String → Option NotifySchedule)
    (env_token : String → Option String) where
  pub scheduled :
      Provider → SourceCommon → Defaults → Filter → Option (Option NotifySchedule) → Result Watch
  unfolding schedule
  scheduled provider c defaults filter none = err (invalid_schedule (identity provider).id)
  scheduled provider c defaults filter (some moments) =
      let (interval, jitter, on_startup) = schedule c defaults in
      ok (record {
        provider = provider;
        interval = interval;
        jitter = jitter;
        poll_on_startup = on_startup;
        filter = filter;
        routing_tag = c.routing_tag;
        notify_schedule = moments;
        organization_id = none;
      })

  -- The id is the provider's own.
  unfoldable pub build_watch :
      String → Provider → SourceCommon → Defaults → BTreeMap SourcePreset → Result Watch
  unfolding scheduled with_preset_resolved build_filter resolve_notify_schedule
  build_watch id provider common defaults presets = do
    c ← with_preset_resolved common presets id
    filter ← build_filter compile c id
    scheduled provider c defaults filter
        (resolve_notify_schedule parse c.notify_schedule defaults.notify_schedule)

  unfoldable pub build_package_watch :
      PackageCfg → PackageRegistry → Defaults → BTreeMap SourcePreset → Result Watch
  unfolding build_watch package_registry kind
  build_package_watch c registry defaults presets =
      let id = unwrap_or (kind registry ++ (":" ++ c.name)) c.id in
      build_watch id (package_registry id c.name registry) c.common defaults presets

  unfoldable pub build_container_watch :
      Option String
      → String
      → ContainerRegistry
      → Option String
      → SourceCommon
      → Defaults
      → BTreeMap SourcePreset
      → Result Watch
  unfolding build_watch container_registry container_prefix
  build_container_watch id image registry token common defaults presets =
      let id' = unwrap_or (container_prefix registry ++ (":" ++ image)) id in
      build_watch id' (container_registry id' image registry token) common defaults presets

  -- The provider of a Bitbucket entry: the API host of the cloud, or the server's own.
  pub bitbucket_provider :
      BitbucketCfg → String → Option String → BitbucketEdition → Option String → Result Provider
  unfolding bitbucket_cloud bitbucket_server bitbucket_with_host replace trim_end_slashes
  bitbucket_provider c id token cloud none =
      ok (Provider.bitbucket (bitbucket_cloud id c.repo token))
  bitbucket_provider c id token cloud (some host) =
      let web = trim_end_slashes (replace "api.bitbucket.org/2.0" "bitbucket.org" host) in
      ok (Provider.bitbucket (bitbucket_with_host id c.repo host web token))
  bitbucket_provider c id token server none = err (server_without_host id)
  bitbucket_provider c id token server (some host) =
      ok (Provider.bitbucket (bitbucket_server id host c.repo token))

  pub chart_provider : ArtifactHubCfg → Option ArtifactHubSource → Result Provider
  chart_provider c none = err (bad_chart_name c.name)
  chart_provider c (some source) = ok (Provider.artifact_hub source)

  unfoldable pub into_watch : SourceConfig → Defaults → BTreeMap SourcePreset → Result Watch
  unfolding build_watch build_package_watch build_container_watch bitbucket_provider chart_provider
      with_options resolve_docker_registry github_source codeberg_source gitea_source gitlab_source
  into_watch (SourceConfig.github c) defaults presets =
      let id = unwrap_or ("github:" ++ c.repo) c.id in
      let token = resolve_token env_token c.token c.token_env "GITHUB_TOKEN" in
      build_watch id (Provider.github (github_source id c.repo token)) c.common defaults presets
  into_watch (SourceConfig.codeberg c) defaults presets =
      let id = unwrap_or ("codeberg:" ++ c.repo) c.id in
      let token = resolve_token env_token c.token c.token_env "CODEBERG_TOKEN" in
      build_watch id (Provider.codeberg (codeberg_source id c.repo token)) c.common defaults presets
  into_watch (SourceConfig.gitea c) defaults presets =
      let id = unwrap_or ("gitea:" ++ (c.host ++ (":" ++ c.repo))) c.id in
      let token = resolve_token env_token c.token c.token_env "GITEA_TOKEN" in
      build_watch id (Provider.gitea (gitea_source id c.host c.repo token)) c.common defaults
        presets
  into_watch (SourceConfig.gitlab c) defaults presets =
      let id = unwrap_or ("gitlab:" ++ c.project) c.id in
      let token = resolve_token env_token c.token c.token_env "GITLAB_TOKEN" in
      build_watch id (Provider.gitlab (gitlab_source id (unwrap_or "" c.host) c.project token))
        c.common defaults presets
  into_watch (SourceConfig.bitbucket c) defaults presets =
      let id = unwrap_or ("bitbucket:" ++ c.repo) c.id in
      let token = resolve_token env_token c.token c.token_env "BITBUCKET_TOKEN" in
      bitbucket_provider c id token c.edition c.host >>= λ provider.
      build_watch id provider c.common defaults presets
  into_watch (SourceConfig.docker c) defaults presets =
      build_container_watch c.id c.image (resolve_docker_registry c.registry)
        (resolve_token env_token c.token c.token_env "DOCKER_TOKEN") c.common defaults presets
  into_watch (SourceConfig.ghcr c) defaults presets =
      build_container_watch c.id c.image ContainerRegistry.ghcr
        (resolve_token env_token c.token c.token_env "GHCR_TOKEN") c.common defaults presets
  into_watch (SourceConfig.quay c) defaults presets =
      build_container_watch c.id c.image ContainerRegistry.quay
        (resolve_token env_token c.token c.token_env "QUAY_TOKEN") c.common defaults presets
  into_watch (SourceConfig.ecr c) defaults presets =
      build_container_watch c.id c.image ContainerRegistry.ecr_public
        (resolve_token env_token c.token c.token_env "ECR_TOKEN") c.common defaults presets
  into_watch (SourceConfig.feed c) defaults presets =
      let id = unwrap_or ("feed:" ++ c.url) c.id in
      build_watch id (Provider.feed (record { id = id; url = c.url })) c.common defaults presets
  into_watch (SourceConfig.pypi c) defaults presets =
      build_package_watch c PackageRegistry.pypi defaults presets
  into_watch (SourceConfig.npm c) defaults presets =
      build_package_watch c PackageRegistry.npm defaults presets
  into_watch (SourceConfig.cargo c) defaults presets =
      build_package_watch c PackageRegistry.cargo defaults presets
  into_watch (SourceConfig.maven c) defaults presets =
      build_package_watch c PackageRegistry.maven defaults presets
  into_watch (SourceConfig.nuget c) defaults presets =
      build_package_watch c PackageRegistry.nuget defaults presets
  into_watch (SourceConfig.hex c) defaults presets =
      build_package_watch c PackageRegistry.hex defaults presets
  into_watch (SourceConfig.rubygems c) defaults presets =
      build_package_watch c PackageRegistry.rubygems defaults presets
  into_watch (SourceConfig.packagist c) defaults presets =
      build_package_watch c PackageRegistry.packagist defaults presets
  into_watch (SourceConfig.yarn c) defaults presets =
      build_package_watch c PackageRegistry.yarn defaults presets
  into_watch (SourceConfig.cpan c) defaults presets =
      build_package_watch c PackageRegistry.cpan defaults presets
  into_watch (SourceConfig.artifacthub c) defaults presets =
      let id = unwrap_or ("artifacthub:" ++ c.name) c.id in
      let host = unwrap_or "https://artifacthub.io" c.host in
      chart_provider c (with_options id c.name host c.package_kind) >>= λ provider.
      build_watch id provider c.common defaults presets

  with_organization : Watch → Watch
  unfolding organization_id_from_source_id
  with_organization w = record w {
    organization_id = organization_id_from_source_id (identity w.provider).id;
  }

  -- The first error ends it.
  unfoldable pub watches_of :
      List SourceConfig → Defaults → BTreeMap SourcePreset → Result (List Watch)
  unfolding into_watch with_organization
  watches_of [] defaults presets = ok []
  watches_of (source ∷ sources) defaults presets = into_watch source defaults presets >>= λ w.
      watches_of sources defaults presets >>= λ ws. ok (with_organization w ∷ ws)
