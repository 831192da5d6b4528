-- ===== src/Scenarios/Identity.antt =====
-- The id of a watch of an organization, by src/config/sources/mod.rs.
use xrelease.Base.{some, []}
use xrelease.Sources.Provider.{Provider}
use xrelease.Sources.Registry
use xrelease.Config.Source.{SourceConfig, npm}
use xrelease.Config.Watches.{Watch}
use xrelease.Config.Organizations.{prepared_source}
use xrelease.Scenarios.Tenants.{npm_package, npm_watch, defaults}

-- An entry with a legacy id, as the preparation of an organization leaves it.
abbrev legacy_package : SourceConfig
legacy_package = npm (record npm_package { id = some "package:axios" })

abbrev platform_package : SourceConfig
platform_package = prepared_source "platform" [] defaults legacy_package

abbrev platform_watch : Watch
platform_watch = record npm_watch {
  provider =
      Provider.npm (record { id = "platform::npm:axios"; name = "axios"; registry = Registry.npm });
  routing_tag = some "platform::web";
}
