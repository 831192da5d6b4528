-- ===== src/Scenarios/Advisories.antt =====
-- Lookups of advisories for packages, by src/advisory/mod.rs.
use xrelease.Base.{◌≡◌, refl, arith, true, Option, none, some, List, [], ◌∷◌}
use xrelease.Text.{trim, decimal, split_once}
use xrelease.Text.Pieces.{split_at_first, strip_prefix}
use xrelease.Breaker.{new, allows}
use xrelease.Sources.Registry.{npm, maven, from_kind}
use xrelease.Advisory.{
  Advisory, high, severity_text, max_severity, bare_id, legacy_shared_package_name,
  coordinate_from_source_id, coordinate_from_source,
}
use xrelease.Advisory.Render.{render_markdown, advisory_line}
use xrelease.Advisory.Lookup.{
  AdvisoryConfig, default_config, CacheKey, initial, cached, lookup, lookup_key, find_entry,
  from_verified_answer,
}
use xrelease.Advisory.Cache.{IsCache, lookup-IsCache}
use xrelease.Advisory.Replay.{lookup_key-replays}

abbrev config : AdvisoryConfig
config = record default_config { enabled = true }

abbrev advisory : Advisory
advisory = record {
  id = "GHSA-8hc4-vh64-cxmj";
  display_id = "CVE-2024-39338";
  summary = some "Server-side request forgery";
  severity = some high;
  cvss_vector = none;
  url = none;
}

abbrev query : CacheKey → Option (List Advisory)
query key = some (advisory ∷ [])

abbrev out_of_reach : CacheKey → Option (List Advisory)
out_of_reach key = none

abbrev axios : CacheKey
axios = record { ecosystem = "npm"; name = "axios"; version = "1.7.2" }

rendered :
    render_markdown (advisory ∷ [])
    ≡ "\n\n---\n**Security advisories** (1, highest: high)\n\n- **CVE-2024-39338** (high) — Server-side request forgery"
unfolding render_markdown advisory_line decimal max_severity severity_text
rendered = refl

shared_coordinate :
    coordinate_from_source_id "platform::maven:org.slf4j:slf4j-api"
    ≡ some (maven, "org.slf4j:slf4j-api")
unfolding coordinate_from_source_id split_once bare_id split_at_first from_kind trim
shared_coordinate = refl

legacy_coordinate : coordinate_from_source "platform::package:axios" "npm" " " ≡ some (npm, "axios")
unfolding coordinate_from_source coordinate_from_source_id split_once bare_id split_at_first
    from_kind trim legacy_shared_package_name strip_prefix
legacy_coordinate = refl

initial-IsCache : IsCache initial.cache
unfolding initial
initial-IsCache = record { bounded = omega arith; unique = λ key. omega arith }

IsCache-example : IsCache (lookup config npm " axios" "1.7.2" 10 11 query initial).1.cache
IsCache-example = lookup-IsCache config npm " axios" "1.7.2" 10 11 query initial initial-IsCache

missing : cached config axios 10 initial ≡ none
unfolding cached initial find_entry
missing = refl

allowed : allows initial.breaker 10 ≡ true
unfolding initial allows new
allowed = refl

replays_example :
    let (first, s) = lookup_key config axios 10 11 query initial in
    (first ≡ from_verified_answer (advisory ∷ []))
    × (lookup_key config axios 3000 3001 out_of_reach s ≡ (from_verified_answer (advisory ∷ []), s))
replays_example =
    lookup_key-replays config axios 10 11 3000 3001 query out_of_reach (advisory ∷ []) initial
      missing allowed refl (omega arith)
