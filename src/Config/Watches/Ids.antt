-- ===== src/Config/Watches/Ids.antt =====
-- The id of the watch that is built from an entry.
use Prim.Native.String.{◌++◌}
use text.Mathlib.TextLemmas.{append_assoc}
use mathlib.Core.Option
use xrelease.Base.{
  String, ◌≡◌, refl, sym, ap, ◌∙◌, Bool, true, false, Option, none, some, arith, Option-cases, inl,
  inr,
}
use xrelease.Filter.{Filter}
use xrelease.Sources.Registry.{
  ContainerRegistry, DockerSource, PackageRegistry, build_source, container_prefix, kind,
}
use xrelease.Sources.Provider.{
  Provider, PackageSource, FeedSource, identity, container_of, container_registry, package_of,
  package_registry, github_source, codeberg_source, gitea_source, gitlab_source, BitbucketEdition,
  bitbucket_cloud, bitbucket_server, bitbucket_with_host, cloud, server, with_options,
  split_repo_chart,
}
use xrelease.Config.Presets.{
  SourceCommon, SourcePreset, BTreeMap, Defaults, Result, ok, err, ◌>>=◌, unwrap_or,
  with_preset_resolved, build_filter,
}
use xrelease.Config.Source.{
  SourceConfig, BitbucketCfg, ArtifactHubCfg, PackageCfg, source_label, source_explicit_id,
  default_source_id,
}
use xrelease.Config.Watches.{
  NotifySchedule, Watch, scheduled, build_watch, build_package_watch, build_container_watch,
  bitbucket_provider, chart_provider, into_watch, resolve_token, resolve_docker_registry,
}

bind-ok :
    {A B : Type 0} (m : Result A) (f : A → Result B) (b : B)
    → (m >>= f) ≡ ok b
    → (a : A) × (m ≡ ok a) × (f a ≡ ok b)
bind-ok (ok a) f b h = (a, refl, h)
bind-ok (err e) f b h = cc

package_of-id : (r : PackageRegistry) (s : PackageSource) → (identity (package_of r s)).id ≡ s.id
unfolding identity package_of
package_of-id PackageRegistry.pypi s = refl
package_of-id PackageRegistry.npm s = refl
package_of-id PackageRegistry.cargo s = refl
package_of-id PackageRegistry.maven s = refl
package_of-id PackageRegistry.nuget s = refl
package_of-id PackageRegistry.hex s = refl
package_of-id PackageRegistry.rubygems s = refl
package_of-id PackageRegistry.packagist s = refl
package_of-id PackageRegistry.yarn s = refl
package_of-id PackageRegistry.cpan s = refl

container_of-id : (s : DockerSource) → (identity (container_of s)).id ≡ s.id
unfolding identity container_of
container_of-id s = ground arith

build_source-id :
    (r : ContainerRegistry) (id image : String) (token : Option String)
    → (build_source r id image token).id ≡ id
unfolding build_source
build_source-id ContainerRegistry.docker_hub id image token = refl
build_source-id ContainerRegistry.ghcr id image token = refl
build_source-id ContainerRegistry.quay id image token = refl
build_source-id ContainerRegistry.ecr_public id image token = refl
build_source-id (ContainerRegistry.custom base) id image token = refl

resolved_prefix : (r : Option String) → container_prefix (resolve_docker_registry r) ≡ "docker"
unfolding container_prefix resolve_docker_registry
resolved_prefix none = refl
resolved_prefix (some registry) = ground arith

abbrev provider_in : Result Watch → Option Provider
provider_in (ok w) = some w.provider
provider_in (err e) = none

abbrev id_in : Result Provider → String
id_in (ok p) = (identity p).id
id_in (err e) = ""

abbrev pub is_unnamed : Option String → Bool
is_unnamed none = true
is_unnamed (some id) = false

unwrap_or-named :
    (a b : String) (id : Option String) → is_unnamed id ≡ false → unwrap_or a id ≡ unwrap_or b id
unwrap_or-named a b none h = absurd (cc h)
unwrap_or-named a b (some id) h = refl

-- Whether the entry is one of Codeberg without an id of its own.
abbrev pub is_unnamed_codeberg : SourceConfig → Bool
is_unnamed_codeberg (SourceConfig.codeberg c) = is_unnamed c.id
is_unnamed_codeberg _ = false

unwrap_or-text :
    (kind name : String) (id : Option String)
    → unwrap_or (kind ++ (":" ++ name)) id ≡ unwrap_or ((kind ++ ":") ++ name) id
unwrap_or-text kind name id = ap (λ t. unwrap_or t id) (sym (append_assoc kind ":" name))

module _ (compile : String → Option (String → Bool)) (parse : String → Option NotifySchedule)
    (env_token : String → Option String) where
  scheduled-provider :
      (provider : Provider) (c : SourceCommon) (d : Defaults) (f : Filter)
      (moments : Option (Option NotifySchedule)) (w : Watch)
      → scheduled compile parse env_token provider c d f moments ≡ ok w
      → w.provider ≡ provider
  unfolding scheduled
  scheduled-provider provider c d f none w h = cc
  scheduled-provider provider c d f (some moments) w h =
      let e : some provider ≡ some w.provider = ap provider_in h in cc

  build_watch-provider :
      (id : String) (provider : Provider) (c : SourceCommon) (d : Defaults)
      (presets : BTreeMap SourcePreset) (w : Watch)
      → build_watch compile parse env_token id provider c d presets ≡ ok w
      → w.provider ≡ provider
  unfolding build_watch
  build_watch-provider id provider c d presets w h =
      let (c', p, k) = bind-ok (with_preset_resolved c presets id) _ w h in
      let (f, q, l) = bind-ok (build_filter compile c' id) _ w k in
      scheduled-provider provider c' d f _ w l

  built-id :
      (id : String) (provider : Provider) (c : SourceCommon) (d : Defaults)
      (presets : BTreeMap SourcePreset) (w : Watch)
      → build_watch compile parse env_token id provider c d presets ≡ ok w
      → (identity w.provider).id ≡ (identity provider).id
  built-id id provider c d presets w h =
      ap (λ (p : Provider). (identity p).id) (build_watch-provider id provider c d presets w h)

  package-id :
      (c : PackageCfg) (r : PackageRegistry) (d : Defaults) (presets : BTreeMap SourcePreset)
      (w : Watch)
      → build_package_watch compile parse env_token c r d presets ≡ ok w
      → (identity w.provider).id ≡ unwrap_or ((kind r ++ ":") ++ c.name) c.id
  unfolding build_package_watch package_registry
  package-id c r d presets w h =
      let id : String = unwrap_or (kind r ++ (":" ++ c.name)) c.id in
      built-id _ _ c.common d presets w h
      ∙ package_of-id r (record { id = id; name = c.name; registry = r })
      ∙ unwrap_or-text (kind r) c.name c.id

  container-id :
      (id : Option String) (image : String) (r : ContainerRegistry) (token : Option String)
      (c : SourceCommon) (d : Defaults) (presets : BTreeMap SourcePreset) (w : Watch)
      → build_container_watch compile parse env_token id image r token c d presets ≡ ok w
      → (identity w.provider).id ≡ unwrap_or ((container_prefix r ++ ":") ++ image) id
  unfolding build_container_watch container_registry
  container-id id image r token c d presets w h =
      built-id _ _ c d presets w h
      ∙ container_of-id (build_source r _ image token)
      ∙ build_source-id r _ image token
      ∙ unwrap_or-text (container_prefix r) image id

  bitbucket-id :
      (c : BitbucketCfg) (id : String) (token : Option String) (e : BitbucketEdition)
      (host : Option String) (provider : Provider)
      → bitbucket_provider compile parse env_token c id token e host ≡ ok provider
      → (identity provider).id ≡ id
  unfolding bitbucket_provider identity bitbucket_cloud bitbucket_server bitbucket_with_host
  bitbucket-id c id token cloud none provider h = ap id_in (sym h)
  bitbucket-id c id token cloud (some host) provider h = ap id_in (sym h)
  bitbucket-id c id token server none provider h = cc
  bitbucket-id c id token server (some host) provider h = ap id_in (sym h)

  chart-id :
      (c : ArtifactHubCfg) (id host kind : String) (provider : Provider)
      → chart_provider compile parse env_token c (with_options id c.name host kind) ≡ ok provider
      → (identity provider).id ≡ id
  unfolding chart_provider with_options identity
  chart-id c id host kind provider h = elim (Option-cases (split_repo_chart c.name)) [
    | inl e ↦ absurd (cc (rw (e, Option.map) at h))
    | inr (pieces, e) ↦ ap id_in (sym (rw (e, Option.map) at h))
  ]

  -- A watch that is built from an entry of the configuration, unless the entry is one of Codeberg
  -- without an id of its own, has the id that source_label gives the entry.
  pub into_watch-source_label :
      (s : SourceConfig) (d : Defaults) (presets : BTreeMap SourcePreset) (w : Watch)
      → is_unnamed_codeberg s ≡ false
      → into_watch compile parse env_token s d presets ≡ ok w
      → (identity w.provider).id ≡ source_label s
  unfolding into_watch source_label source_explicit_id default_source_id identity github_source
      codeberg_source gitea_source gitlab_source kind container_prefix
  into_watch-source_label (SourceConfig.github c) d presets w n h =
      let id : String = unwrap_or ("github:" ++ c.repo) c.id in
      let token : Option String = resolve_token env_token c.token c.token_env "GITHUB_TOKEN" in
      built-id id (Provider.github (github_source id c.repo token)) c.common d presets w h
  into_watch-source_label (SourceConfig.codeberg c) d presets w n h =
      let id : String = unwrap_or ("codeberg:" ++ c.repo) c.id in
      let token : Option String = resolve_token env_token c.token c.token_env "CODEBERG_TOKEN" in
      built-id id (Provider.codeberg (codeberg_source id c.repo token)) c.common d presets w h
      ∙ unwrap_or-named ("codeberg:" ++ c.repo) (default_source_id (SourceConfig.codeberg c)) c.id n
  into_watch-source_label (SourceConfig.gitea c) d presets w n h =
      let id : String = unwrap_or ("gitea:" ++ (c.host ++ (":" ++ c.repo))) c.id in
      let token : Option String = resolve_token env_token c.token c.token_env "GITEA_TOKEN" in
      built-id id (Provider.gitea (gitea_source id c.host c.repo token)) c.common d presets w h
  into_watch-source_label (SourceConfig.gitlab c) d presets w n h =
      let id : String = unwrap_or ("gitlab:" ++ c.project) c.id in
      let token : Option String = resolve_token env_token c.token c.token_env "GITLAB_TOKEN" in
      let host : String = unwrap_or "" c.host in
      built-id id (Provider.gitlab (gitlab_source id host c.project token)) c.common d presets w h
  into_watch-source_label (SourceConfig.bitbucket c) d presets w n h =
      let id : String = unwrap_or ("bitbucket:" ++ c.repo) c.id in
      let token : Option String = resolve_token env_token c.token c.token_env "BITBUCKET_TOKEN" in
      let made : Result Provider =
        bitbucket_provider compile parse env_token c id token c.edition c.host in
      let (provider, p, k) = bind-ok made _ w h in
      built-id id provider c.common d presets w k
      ∙ bitbucket-id c id token c.edition c.host provider p
  into_watch-source_label (SourceConfig.docker c) d presets w n h =
      let registry : ContainerRegistry = resolve_docker_registry c.registry in
      let token : Option String = resolve_token env_token c.token c.token_env "DOCKER_TOKEN" in
      container-id c.id c.image registry token c.common d presets w h
      ∙ ap (λ t. unwrap_or ((t ++ ":") ++ c.image) c.id) (resolved_prefix c.registry)
  into_watch-source_label (SourceConfig.ghcr c) d presets w n h =
      let token : Option String = resolve_token env_token c.token c.token_env "GHCR_TOKEN" in
      container-id c.id c.image ContainerRegistry.ghcr token c.common d presets w h
  into_watch-source_label (SourceConfig.quay c) d presets w n h =
      let token : Option String = resolve_token env_token c.token c.token_env "QUAY_TOKEN" in
      container-id c.id c.image ContainerRegistry.quay token c.common d presets w h
  into_watch-source_label (SourceConfig.ecr c) d presets w n h =
      let token : Option String = resolve_token env_token c.token c.token_env "ECR_TOKEN" in
      container-id c.id c.image ContainerRegistry.ecr_public token c.common d presets w h
  into_watch-source_label (SourceConfig.feed c) d presets w n h =
      let id : String = unwrap_or ("feed:" ++ c.url) c.id in
      let source : FeedSource = record { id = id; url = c.url } in
      built-id id (Provider.feed source) c.common d presets w h
  into_watch-source_label (SourceConfig.pypi c) d presets w n h =
      package-id c PackageRegistry.pypi d presets w h
  into_watch-source_label (SourceConfig.npm c) d presets w n h =
      package-id c PackageRegistry.npm d presets w h
  into_watch-source_label (SourceConfig.cargo c) d presets w n h =
      package-id c PackageRegistry.cargo d presets w h
  into_watch-source_label (SourceConfig.maven c) d presets w n h =
      package-id c PackageRegistry.maven d presets w h
  into_watch-source_label (SourceConfig.nuget c) d presets w n h =
      package-id c PackageRegistry.nuget d presets w h
  into_watch-source_label (SourceConfig.hex c) d presets w n h =
      package-id c PackageRegistry.hex d presets w h
  into_watch-source_label (SourceConfig.rubygems c) d presets w n h =
      package-id c PackageRegistry.rubygems d presets w h
  into_watch-source_label (SourceConfig.packagist c) d presets w n h =
      package-id c PackageRegistry.packagist d presets w h
  into_watch-source_label (SourceConfig.yarn c) d presets w n h =
      package-id c PackageRegistry.yarn d presets w h
  into_watch-source_label (SourceConfig.cpan c) d presets w n h =
      package-id c PackageRegistry.cpan d presets w h
  into_watch-source_label (SourceConfig.artifacthub c) d presets w n h =
      let id : String = unwrap_or ("artifacthub:" ++ c.name) c.id in
      let host : String = unwrap_or "https://artifacthub.io" c.host in
      let made : Result Provider =
        chart_provider compile parse env_token c (with_options id c.name host c.package_kind) in
      let (provider, p, k) = bind-ok made _ w h in
      built-id id provider c.common d presets w k ∙ chart-id c id host c.package_kind provider p
