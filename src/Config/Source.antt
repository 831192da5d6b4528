-- ===== src/Config/Source.antt =====
-- `SourceConfig` of src/config/sources/mod.rs: a `[[sources]]` entry, and what all variants share.
use Prim.Native.String.{◌++◌}
use xrelease.Base.{String, Bool, ◌||◌, Option, none, some}
use xrelease.Text.{starts_with}
use xrelease.Text.Pieces.{split_at_first}
use xrelease.Sources.Provider.{BitbucketEdition}
use xrelease.Config.Presets.{SourceCommon, unwrap_or}

pub record GiteaRepoCfg : Type 0 where
  pub id : Option String
  pub repo : String
  pub token : Option String
  pub token_env : Option String
  pub common : SourceCommon

pub record GiteaHostCfg : Type 0 where
  pub id : Option String
  pub host : String
  pub repo : String
  pub token : Option String
  pub token_env : Option String
  pub common : SourceCommon

pub record GitlabCfg : Type 0 where
  pub id : Option String
  pub project : String
  pub host : Option String
  pub token : Option String
  pub token_env : Option String
  pub common : SourceCommon

pub record BitbucketCfg : Type 0 where
  pub id : Option String
  pub repo : String
  pub edition : BitbucketEdition
  pub host : Option String
  pub token : Option String
  pub token_env : Option String
  pub common : SourceCommon

pub record DockerCfg : Type 0 where
  pub id : Option String
  pub image : String
  pub registry : Option String
  pub token : Option String
  pub token_env : Option String
  pub common : SourceCommon

pub record RegistryImageCfg : Type 0 where
  pub id : Option String
  pub image : String
  pub token : Option String
  pub token_env : Option String
  pub common : SourceCommon

pub record FeedCfg : Type 0 where
  pub id : Option String
  pub url : String
  pub common : SourceCommon

pub record PackageCfg : Type 0 where
  pub id : Option String
  pub name : String
  pub common : SourceCommon

pub record ArtifactHubCfg : Type 0 where
  pub id : Option String
  pub name : String
  pub host : Option String
  pub package_kind : String
  pub common : SourceCommon

pub data SourceConfig : Type 0 where
  github codeberg : GiteaRepoCfg → SourceConfig
  gitea : GiteaHostCfg → SourceConfig
  gitlab : GitlabCfg → SourceConfig
  bitbucket : BitbucketCfg → SourceConfig
  docker : DockerCfg → SourceConfig
  ghcr quay ecr : RegistryImageCfg → SourceConfig
  feed : FeedCfg → SourceConfig
  pypi npm cargo maven nuget hex rubygems packagist yarn cpan : PackageCfg → SourceConfig
  artifacthub : ArtifactHubCfg → SourceConfig

unfoldable pub source_common : SourceConfig → SourceCommon
source_common (github c) = c.common
source_common (codeberg c) = c.common
source_common (gitea c) = c.common
source_common (gitlab c) = c.common
source_common (bitbucket c) = c.common
source_common (docker c) = c.common
source_common (ghcr c) = c.common
source_common (quay c) = c.common
source_common (ecr c) = c.common
source_common (feed c) = c.common
source_common (pypi c) = c.common
source_common (npm c) = c.common
source_common (cargo c) = c.common
source_common (maven c) = c.common
source_common (nuget c) = c.common
source_common (hex c) = c.common
source_common (rubygems c) = c.common
source_common (packagist c) = c.common
source_common (yarn c) = c.common
source_common (cpan c) = c.common
source_common (artifacthub c) = c.common

unfoldable pub source_explicit_id : SourceConfig → Option String
source_explicit_id (github c) = c.id
source_explicit_id (codeberg c) = c.id
source_explicit_id (gitea c) = c.id
source_explicit_id (gitlab c) = c.id
source_explicit_id (bitbucket c) = c.id
source_explicit_id (docker c) = c.id
source_explicit_id (ghcr c) = c.id
source_explicit_id (quay c) = c.id
source_explicit_id (ecr c) = c.id
source_explicit_id (feed c) = c.id
source_explicit_id (pypi c) = c.id
source_explicit_id (npm c) = c.id
source_explicit_id (cargo c) = c.id
source_explicit_id (maven c) = c.id
source_explicit_id (nuget c) = c.id
source_explicit_id (hex c) = c.id
source_explicit_id (rubygems c) = c.id
source_explicit_id (packagist c) = c.id
source_explicit_id (yarn c) = c.id
source_explicit_id (cpan c) = c.id
source_explicit_id (artifacthub c) = c.id

-- The writes through `source_explicit_id_mut` and `source_common_mut`, made together.
unfoldable pub with_id_and_common : Option String → SourceCommon → SourceConfig → SourceConfig
with_id_and_common id common (github c) = github (record c { id = id; common = common })
with_id_and_common id common (codeberg c) = codeberg (record c { id = id; common = common })
with_id_and_common id common (gitea c) = gitea (record c { id = id; common = common })
with_id_and_common id common (gitlab c) = gitlab (record c { id = id; common = common })
with_id_and_common id common (bitbucket c) = bitbucket (record c { id = id; common = common })
with_id_and_common id common (docker c) = docker (record c { id = id; common = common })
with_id_and_common id common (ghcr c) = ghcr (record c { id = id; common = common })
with_id_and_common id common (quay c) = quay (record c { id = id; common = common })
with_id_and_common id common (ecr c) = ecr (record c { id = id; common = common })
with_id_and_common id common (feed c) = feed (record c { id = id; common = common })
with_id_and_common id common (pypi c) = pypi (record c { id = id; common = common })
with_id_and_common id common (npm c) = npm (record c { id = id; common = common })
with_id_and_common id common (cargo c) = cargo (record c { id = id; common = common })
with_id_and_common id common (maven c) = maven (record c { id = id; common = common })
with_id_and_common id common (nuget c) = nuget (record c { id = id; common = common })
with_id_and_common id common (hex c) = hex (record c { id = id; common = common })
with_id_and_common id common (rubygems c) = rubygems (record c { id = id; common = common })
with_id_and_common id common (packagist c) = packagist (record c { id = id; common = common })
with_id_and_common id common (yarn c) = yarn (record c { id = id; common = common })
with_id_and_common id common (cpan c) = cpan (record c { id = id; common = common })
with_id_and_common id common (artifacthub c) = artifacthub (record c { id = id; common = common })

unfoldable pub default_source_id : SourceConfig → String
default_source_id (github c) = "github:" ++ c.repo
default_source_id (codeberg c) = "github:" ++ c.repo
default_source_id (gitea c) = "gitea:" ++ (c.host ++ (":" ++ c.repo))
default_source_id (gitlab c) = "gitlab:" ++ c.project
default_source_id (bitbucket c) = "bitbucket:" ++ c.repo
default_source_id (docker c) = "docker:" ++ c.image
default_source_id (ghcr c) = "ghcr:" ++ c.image
default_source_id (quay c) = "quay:" ++ c.image
default_source_id (ecr c) = "ecr:" ++ c.image
default_source_id (feed c) = "feed:" ++ c.url
default_source_id (pypi c) = "pypi:" ++ c.name
default_source_id (npm c) = "npm:" ++ c.name
default_source_id (cargo c) = "cargo:" ++ c.name
default_source_id (maven c) = "maven:" ++ c.name
default_source_id (nuget c) = "nuget:" ++ c.name
default_source_id (hex c) = "hex:" ++ c.name
default_source_id (rubygems c) = "rubygems:" ++ c.name
default_source_id (packagist c) = "packagist:" ++ c.name
default_source_id (yarn c) = "yarn:" ++ c.name
default_source_id (cpan c) = "cpan:" ++ c.name
default_source_id (artifacthub c) = "artifacthub:" ++ c.name

unfoldable pub source_label : SourceConfig → String
unfolding source_explicit_id default_source_id
source_label source = unwrap_or (default_source_id source) (source_explicit_id source)

unfoldable pub bare_source_id : String → String
unfolding split_at_first
bare_source_id id = elim (split_at_first "::" id) [ none ↦ id | some (organization, rest) ↦ rest ]

unfoldable pub is_legacy_shared_prefix_id : String → Bool
unfolding starts_with
is_legacy_shared_prefix_id bare = starts_with "package:" bare || starts_with "registry:" bare
