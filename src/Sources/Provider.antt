-- ===== src/Sources/Provider.antt =====
-- `Provider` of src/sources/mod.rs: the configured sources, and what each says of itself. The calls
-- that fetch releases are not part of it.
use Prim.Native.String.{◌++◌}
use mathlib.Core.Option
use xrelease.Base.{String, Option, none, some, str_eq, if◌then◌else◌, ◌||◌}
use xrelease.Text.{split_once}
use xrelease.Text.Pieces.{trim_end_slashes}
use xrelease.Sources.Registry.{
  PackageRegistry, ContainerRegistry, DockerSource, build_source, kind as registry_kind,
  kind_label as registry_label,
}

pub data AuthStyle : Type 0 where
  bearer token : AuthStyle

pub record GiteaPreset : Type 0 where
  pub kind : String
  pub kind_label : String
  pub api_repos_base : String
  pub web_base : String
  pub auth_style : AuthStyle
  pub github_api_version : Option String

pub record GiteaReleasesSource : Type 0 where
  pub id : String
  pub repo : String
  pub preset : GiteaPreset
  pub token : Option String

unfoldable pub github_source : String → String → Option String → GiteaReleasesSource
github_source id repo tok = record {
  id = id;
  repo = repo;
  preset = record {
    kind = "github";
    kind_label = "GitHub";
    api_repos_base = "https://api.github.com/repos";
    web_base = "https://github.com";
    auth_style = bearer;
    github_api_version = some "2022-11-28";
  };
  token = tok;
}

unfoldable pub codeberg_source : String → String → Option String → GiteaReleasesSource
codeberg_source id repo tok = record {
  id = id;
  repo = repo;
  preset = record {
    kind = "codeberg";
    kind_label = "Codeberg";
    api_repos_base = "https://codeberg.org/api/v1/repos";
    web_base = "https://codeberg.org";
    auth_style = AuthStyle.token;
    github_api_version = none;
  };
  token = tok;
}

unfoldable pub gitea_source : String → String → String → Option String → GiteaReleasesSource
gitea_source id host repo tok = record {
  id = id;
  repo = repo;
  preset = record {
    kind = "gitea";
    kind_label = "Gitea";
    api_repos_base = trim_end_slashes host ++ "/api/v1/repos";
    web_base = trim_end_slashes host;
    auth_style = AuthStyle.token;
    github_api_version = none;
  };
  token = tok;
}

pub record GitlabSource : Type 0 where
  pub id : String
  pub project : String
  pub host : String
  pub token : Option String

unfoldable pub gitlab_source : String → String → String → Option String → GitlabSource
gitlab_source id host project tok = record {
  id = id;
  project = project;
  host = if str_eq host "" then "https://gitlab.com" else trim_end_slashes host;
  token = tok;
}

pub data BitbucketEdition : Type 0 where
  cloud server : BitbucketEdition

pub record BitbucketSource : Type 0 where
  pub id : String
  pub edition : BitbucketEdition
  pub repo : String
  pub project_key : String
  pub repo_slug : String
  pub api_base : String
  pub web_base : String
  pub token : Option String

-- `splitn(2, '/')`
split_repo : String → String × String
unfolding split_once
split_repo repo = elim (split_once b'/' repo) [ none ↦ (repo, "") | some pieces ↦ pieces ]

unfoldable pub bitbucket_cloud : String → String → Option String → BitbucketSource
unfolding split_repo
bitbucket_cloud id repo tok = record {
  id = id;
  edition = cloud;
  repo = repo;
  project_key = (split_repo repo).0;
  repo_slug = (split_repo repo).1;
  api_base = "https://api.bitbucket.org/2.0";
  web_base = "https://bitbucket.org";
  token = tok;
}

unfoldable pub bitbucket_server : String → String → String → Option String → BitbucketSource
unfolding split_repo
bitbucket_server id host repo tok = record {
  id = id;
  edition = server;
  repo = repo;
  project_key = (split_repo repo).0;
  repo_slug = (split_repo repo).1;
  api_base = trim_end_slashes host;
  web_base = trim_end_slashes host;
  token = tok;
}

unfoldable pub bitbucket_with_host :
    String → String → String → String → Option String → BitbucketSource
unfolding split_repo
bitbucket_with_host id repo api_base web_base tok = record {
  id = id;
  edition = cloud;
  repo = repo;
  project_key = (split_repo repo).0;
  repo_slug = (split_repo repo).1;
  api_base = trim_end_slashes api_base;
  web_base = trim_end_slashes web_base;
  token = tok;
}

pub record ArtifactHubSource : Type 0 where
  pub id : String
  pub name : String
  pub repository : String
  pub chart : String
  pub package_kind : String
  pub host : String

pieces_given : Option (String × String) → Option (String × String)
pieces_given none = none
pieces_given (some (repository, chart)) =
    if str_eq repository "" || str_eq chart "" then none else some (repository, chart)

-- `none` is the error that asks for `repository/chart`.
unfoldable pub split_repo_chart : String → Option (String × String)
unfolding pieces_given split_once
split_repo_chart name = pieces_given (split_once b'/' name)

unfoldable pub with_options : String → String → String → String → Option ArtifactHubSource
unfolding split_repo_chart
with_options id name host package_kind =
    Option.map
      (λ (repository, chart). record {
        id = id;
        name = name;
        repository = repository;
        chart = chart;
        package_kind = package_kind;
        host = trim_end_slashes host;
      })
      (split_repo_chart name)

pub record FeedSource : Type 0 where
  pub id : String
  pub url : String

pub record PackageSource : Type 0 where
  pub id : String
  pub name : String
  pub registry : PackageRegistry

pub data Provider : Type 0 where
  github codeberg gitea : GiteaReleasesSource → Provider
  gitlab : GitlabSource → Provider
  bitbucket : BitbucketSource → Provider
  docker ghcr quay ecr : DockerSource → Provider
  feed : FeedSource → Provider
  pypi npm cargo maven nuget hex rubygems packagist yarn cpan : PackageSource → Provider
  artifact_hub : ArtifactHubSource → Provider

unfoldable pub container_of : DockerSource → Provider
container_of source =
    if str_eq source.kind "ghcr"
    then ghcr source
    else if str_eq source.kind "quay"
    then quay source
    else if str_eq source.kind "ecr"
    then ecr source
    else docker source

unfoldable pub container_registry : String → String → ContainerRegistry → Option String → Provider
unfolding container_of build_source
container_registry id image registry tok = container_of (build_source registry id image tok)

unfoldable pub package_of : PackageRegistry → PackageSource → Provider
package_of PackageRegistry.pypi s = pypi s
package_of PackageRegistry.npm s = npm s
package_of PackageRegistry.cargo s = cargo s
package_of PackageRegistry.maven s = maven s
package_of PackageRegistry.nuget s = nuget s
package_of PackageRegistry.hex s = hex s
package_of PackageRegistry.rubygems s = rubygems s
package_of PackageRegistry.packagist s = packagist s
package_of PackageRegistry.yarn s = yarn s
package_of PackageRegistry.cpan s = cpan s

unfoldable pub package_registry : String → String → PackageRegistry → Provider
unfolding package_of
package_registry id name registry =
    package_of registry (record { id = id; name = name; registry = registry })

-- The three texts that a provider answers with; here each variant is a case of its own.
pub record Identity : Type 0 where
  pub id : String
  pub kind : String
  pub kind_label : String
  pub display_name : String

of_gitea : GiteaReleasesSource → Identity
of_gitea s = record {
  id = s.id;
  kind = s.preset.kind;
  kind_label = s.preset.kind_label;
  display_name = s.repo;
}

of_container : DockerSource → Identity
of_container s = record {
  id = s.id;
  kind = s.kind;
  kind_label = s.kind_label;
  display_name = s.image;
}

of_package : PackageSource → Identity
unfolding registry_kind registry_label
of_package s = record {
  id = s.id;
  kind = registry_kind s.registry;
  kind_label = registry_label s.registry;
  display_name = s.name;
}

unfoldable pub identity : Provider → Identity
unfolding of_gitea of_container of_package
identity (github s) = of_gitea s
identity (codeberg s) = of_gitea s
identity (gitea s) = of_gitea s
identity (gitlab s) = record {
  id = s.id;
  kind = "gitlab";
  kind_label = "GitLab";
  display_name = s.project;
}
identity (bitbucket s) = record {
  id = s.id;
  kind = "bitbucket";
  kind_label = "Bitbucket";
  display_name = s.repo;
}
identity (docker s) = of_container s
identity (ghcr s) = of_container s
identity (quay s) = of_container s
identity (ecr s) = of_container s
identity (feed s) = record { id = s.id; kind = "feed"; kind_label = "Feed"; display_name = s.url }
identity (pypi s) = of_package s
identity (npm s) = of_package s
identity (cargo s) = of_package s
identity (maven s) = of_package s
identity (nuget s) = of_package s
identity (hex s) = of_package s
identity (rubygems s) = of_package s
identity (packagist s) = of_package s
identity (yarn s) = of_package s
identity (cpan s) = of_package s
identity (artifact_hub s) = record {
  id = s.id;
  kind = "artifacthub";
  kind_label = "Artifact Hub";
  display_name = s.name;
}
