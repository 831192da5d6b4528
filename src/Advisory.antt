-- ===== src/Advisory.antt =====
-- src/advisory/mod.rs: what is known of the security of a release, and which package it is.
pub mod Render
pub mod Lookup
pub mod Cache
pub mod Replay
use xrelease.Base.{
  ℕ, String, Bool, true, false, not, ◌||◌, Option, none, some, List, [], ◌∷◌, leb, str_eq,
  if◌then◌else◌,
}
use xrelease.Text.{trim, split_once}
use xrelease.Text.Pieces.{to_ascii_uppercase, split_at_first, strip_prefix}
use xrelease.Sources.Registry.{
  PackageRegistry, pypi, npm, cargo, maven, nuget, hex, rubygems, packagist, yarn, cpan, from_kind,
  from_kind_label,
}

pub data Severity : Type 0 where
  low moderate high critical : Severity

severity_of : String → Option Severity
severity_of label =
    if str_eq label "LOW"
    then some low
    else if str_eq label "MODERATE" || str_eq label "MEDIUM"
    then some moderate
    else if str_eq label "HIGH"
    then some high
    else if str_eq label "CRITICAL"
    then some critical
    else none

unfoldable pub parse_severity : String → Option Severity
unfolding severity_of
parse_severity raw = severity_of (to_ascii_uppercase (trim raw))

unfoldable pub severity_text : Severity → String
severity_text low = "low"
severity_text moderate = "moderate"
severity_text high = "high"
severity_text critical = "critical"

-- The derived order of the constructors.
abbrev pub severity_rank : Severity → ℕ
severity_rank low = 0
severity_rank moderate = 1
severity_rank high = 2
severity_rank critical = 3

pub record Advisory : Type 0 where
  pub id : String
  pub display_id : String
  pub summary : Option String
  pub severity : Option Severity
  pub cvss_vector : Option String
  pub url : Option String

abbrev pub max_of : Option Severity → Option Severity → Option Severity
max_of none b = b
max_of (some a) none = some a
max_of (some a) (some b) = if leb (severity_rank a) (severity_rank b) then some b else some a

unfoldable pub max_severity : List Advisory → Option Severity
max_severity [] = none
max_severity (a ∷ advisories) = max_of a.severity (max_severity advisories)

-- `Ecosystem::for_registry`, by the name of the ecosystem.
unfoldable pub for_registry : PackageRegistry → Option String
for_registry pypi = some "PyPI"
for_registry npm = some "npm"
for_registry yarn = some "npm"
for_registry cargo = some "crates.io"
for_registry maven = some "Maven"
for_registry nuget = some "NuGet"
for_registry hex = some "Hex"
for_registry rubygems = some "RubyGems"
for_registry packagist = some "Packagist"
for_registry cpan = none

-- What follows the first `::`, if there is one.
after_separator : String → Option (String × String) → String
after_separator source_id none = source_id
after_separator source_id (some (organization, rest)) = rest

unfoldable pub bare_id : String → String
unfolding after_separator
bare_id source_id = after_separator source_id (split_at_first "::" source_id)

not_empty : PackageRegistry → String → Option (PackageRegistry × String)
not_empty registry name = if str_eq name "" then none else some (registry, name)

named : String → Option PackageRegistry → Option (PackageRegistry × String)
unfolding not_empty
named name none = none
named name (some registry) = not_empty registry (trim name)

of_pieces : Option (String × String) → Option (PackageRegistry × String)
unfolding named
of_pieces none = none
of_pieces (some (kind, name)) = named name (from_kind kind)

unfoldable pub coordinate_from_source_id : String → Option (PackageRegistry × String)
unfolding of_pieces
coordinate_from_source_id source_id = of_pieces (split_once b':' (bare_id source_id))

filled : Option String → Option String
filled none = none
filled (some name) = if str_eq name "" then none else some name

unfoldable pub legacy_shared_package_name : String → Option String
unfolding filled
legacy_shared_package_name source_id = filled (strip_prefix "package:" (bare_id source_id))

abbrev or_registry : Option PackageRegistry → Option PackageRegistry → Option PackageRegistry
or_registry none b = b
or_registry (some a) b = some a

of_name : PackageRegistry → Option String → Option (PackageRegistry × String)
unfolding not_empty
of_name registry none = none
of_name registry (some name) = not_empty registry name

-- The name of a source that is not named by its id.
of_kind : String → String → Option PackageRegistry → Option (PackageRegistry × String)
unfolding of_name
of_kind source_id name_hint none = none
of_kind source_id name_hint (some registry) =
    of_name registry
      (if str_eq name_hint "" then legacy_shared_package_name source_id else some name_hint)

of_coordinate :
    String → String → String → Option (PackageRegistry × String) → Option (PackageRegistry × String)
unfolding of_kind not_empty
of_coordinate source_id kind name_hint (some (registry, name_from_id)) =
    not_empty registry (if str_eq name_hint "" then name_from_id else name_hint)
of_coordinate source_id kind name_hint none =
    of_kind source_id name_hint (or_registry (from_kind kind) (from_kind_label kind))

unfoldable pub coordinate_from_source : String → String → String → Option (PackageRegistry × String)
unfolding of_coordinate
coordinate_from_source source_id kind package_name =
    of_coordinate source_id kind (trim package_name) (coordinate_from_source_id source_id)
