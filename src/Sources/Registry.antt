-- ===== src/Sources/Registry.antt =====
-- The package registries of src/sources/package.rs and the container registries of
-- src/sources/docker.rs.
use xrelease.Base.{String, ◌≡◌, refl, Option, none, some, List, [], ◌∷◌, str_eq, if◌then◌else◌}

pub data PackageRegistry : Type 0 where
  pypi npm cargo maven nuget hex rubygems packagist yarn cpan : PackageRegistry

unfoldable pub kind : PackageRegistry → String
kind pypi = "pypi"
kind npm = "npm"
kind cargo = "cargo"
kind maven = "maven"
kind nuget = "nuget"
kind hex = "hex"
kind rubygems = "rubygems"
kind packagist = "packagist"
kind yarn = "yarn"
kind cpan = "cpan"

unfoldable pub kind_label : PackageRegistry → String
kind_label pypi = "PyPI"
kind_label npm = "npm"
kind_label cargo = "crates.io"
kind_label maven = "Maven Central"
kind_label nuget = "NuGet"
kind_label hex = "Hex"
kind_label rubygems = "RubyGems"
kind_label packagist = "Packagist"
kind_label yarn = "Yarn"
kind_label cpan = "CPAN"

abbrev pub all_registries : List PackageRegistry
all_registries = pypi ∷ npm ∷ cargo ∷ maven ∷ nuget ∷ hex ∷ rubygems ∷ packagist ∷ yarn ∷ cpan ∷ []

find_by : (PackageRegistry → String) → String → List PackageRegistry → Option PackageRegistry
find_by name text [] = none
find_by name text (r ∷ rs) = if str_eq (name r) text then some r else find_by name text rs

unfoldable pub from_kind : String → Option PackageRegistry
unfolding find_by kind
from_kind text = find_by kind text all_registries

unfoldable pub from_kind_label : String → Option PackageRegistry
unfolding find_by kind_label
from_kind_label label = find_by kind_label label all_registries

pub data ContainerRegistry : Type 0 where
  docker_hub ghcr quay ecr_public : ContainerRegistry
  custom : String → ContainerRegistry

unfoldable pub container_prefix : ContainerRegistry → String
container_prefix docker_hub = "docker"
container_prefix (custom base) = "docker"
container_prefix ghcr = "ghcr"
container_prefix quay = "quay"
container_prefix ecr_public = "ecr"

pub record DockerSource : Type 0 where
  pub id : String
  pub kind : String
  pub kind_label : String
  pub registry : String
  pub image : String
  pub token : Option String

unfoldable pub build_source : ContainerRegistry → String → String → Option String → DockerSource
build_source docker_hub id image token = record {
  id = id;
  kind = "docker";
  kind_label = "Docker Hub";
  registry = "https://registry-1.docker.io";
  image = image;
  token = token;
}
build_source ghcr id image token = record {
  id = id;
  kind = "ghcr";
  kind_label = "GHCR";
  registry = "https://ghcr.io";
  image = image;
  token = token;
}
build_source quay id image token = record {
  id = id;
  kind = "quay";
  kind_label = "Quay";
  registry = "https://quay.io";
  image = image;
  token = token;
}
build_source ecr_public id image token = record {
  id = id;
  kind = "ecr";
  kind_label = "AWS ECR Public";
  registry = "https://public.ecr.aws";
  image = image;
  token = token;
}
build_source (custom base) id image token = record {
  id = id;
  kind = "docker";
  kind_label = "Docker registry";
  registry = base;
  image = image;
  token = token;
}

-- The registry that a kind names is the registry of that kind, and the same with labels.
pub from_kind-kind :
    (r : PackageRegistry)
    → (from_kind (kind r) ≡ some r) × (from_kind_label (kind_label r) ≡ some r)
unfolding from_kind kind kind_label from_kind_label
from_kind-kind pypi = (refl, refl)
from_kind-kind npm = (refl, refl)
from_kind-kind cargo = (refl, refl)
from_kind-kind maven = (refl, refl)
from_kind-kind nuget = (refl, refl)
from_kind-kind hex = (refl, refl)
from_kind-kind rubygems = (refl, refl)
from_kind-kind packagist = (refl, refl)
from_kind-kind yarn = (refl, refl)
from_kind-kind cpan = (refl, refl)
