-- ===== src/Config/Presets.antt =====
-- src/config/sources/preset.rs: the fields that all sources share, and the presets that fill them.
-- A `BTreeMap` is the list of its entries in the order of their keys.
use Prim.Native.Nat.{Ordering}
use Prim.Native.String.{compare}
use xrelease.Base.{
  ℕ, String, Bool, true, false, Option, none, some, List, [], ◌∷◌, str_eq, if◌then◌else◌, is_empty,
}
use xrelease.Text.{trim}
use xrelease.Filter.{Filter}

abbrev pub BTreeMap : Type 0 → Type 0
BTreeMap V = List (String × V)

unfoldable pub insert : {V : Type 0} → String → V → BTreeMap V → BTreeMap V
insert k v [] = (k, v) ∷ []
insert k v ((j, w) ∷ m) =
    let rest = insert k v m in
    elim (compare k j) [
      | Ordering.lt ↦ (k, v) ∷ (j, w) ∷ m
      | Ordering.eq ↦ (k, v) ∷ m
      | Ordering.gt ↦ (j, w) ∷ rest
    ]

unfoldable pub get : {V : Type 0} → String → BTreeMap V → Option V
get k [] = none
get k ((j, w) ∷ m) = if str_eq j k then some w else get k m

-- Each entry put in turn into a map: a later entry replaces an earlier one of its key.
unfoldable pub insert_all : {V : Type 0} → List (String × V) → BTreeMap V → BTreeMap V
unfolding insert
insert_all [] m = m
insert_all ((k, v) ∷ entries) m = insert_all entries (insert k v m)

pub record SourcePreset : Type 0 where
  pub include_prerelease : Option Bool
  pub prerelease_tags : Option (List String)
  pub exclude_updated : Option Bool
  pub pattern : Option String
  pub exclude_pattern : Option String
  pub routing_tag : Option String
  pub interval_secs : Option ℕ
  pub jitter_secs : Option ℕ
  pub poll_on_startup : Option Bool
  pub notify_schedule : Option String

pub record SourceCommon : Type 0 where
  pub preset : Option String
  pub include_prerelease : Option Bool
  pub prerelease_tags : Option (List String)
  pub exclude_updated : Option Bool
  pub pattern : Option String
  pub exclude_pattern : Option String
  pub routing_tag : Option String
  pub interval_secs : Option ℕ
  pub jitter_secs : Option ℕ
  pub poll_on_startup : Option Bool
  pub notify_schedule : Option String

-- The fields of `[defaults]` that sources and routing read.
pub record Defaults : Type 0 where
  pub interval_secs : ℕ
  pub jitter_secs : ℕ
  pub poll_on_startup : Bool
  pub notify_schedule : Option String
  pub ops_routing_tag : Option String
  pub upstream_requests_per_minute : ℕ

-- A field that is set wins over what would fill it.
abbrev pub or_else : {A : Type 0} → Option A → Option A → Option A
or_else none other = other
or_else (some a) other = some a

abbrev pub unwrap_or : {A : Type 0} → A → Option A → A
unwrap_or default none = default
unwrap_or default (some a) = a

unfoldable pub merge_into : SourcePreset → SourceCommon → SourceCommon
merge_into p c = record c {
  include_prerelease = or_else c.include_prerelease p.include_prerelease;
  prerelease_tags = or_else c.prerelease_tags p.prerelease_tags;
  exclude_updated = or_else c.exclude_updated p.exclude_updated;
  pattern = or_else c.pattern p.pattern;
  exclude_pattern = or_else c.exclude_pattern p.exclude_pattern;
  routing_tag = or_else c.routing_tag p.routing_tag;
  interval_secs = or_else c.interval_secs p.interval_secs;
  jitter_secs = or_else c.jitter_secs p.jitter_secs;
  poll_on_startup = or_else c.poll_on_startup p.poll_on_startup;
  notify_schedule = or_else c.notify_schedule p.notify_schedule;
}

-- Why a watch cannot be built: the messages of `anyhow`, by their causes.
pub data ConfigError : Type 0 where
  empty_preset : String → ConfigError
  unknown_preset : String → String → ConfigError
  invalid_pattern : String → ConfigError
  invalid_schedule : String → ConfigError
  server_without_host : String → ConfigError
  bad_chart_name : String → ConfigError

pub data Result (A : Type 0) : Type 0 where
  ok : A → Result A
  err : ConfigError → Result A

infixl 5 ◌>>=◌
abbrev pub ◌>>=◌ : {A B : Type 0} → Result A → (A → Result B) → Result B
ok a >>= f = f a
err e >>= f = err e

found_preset : SourceCommon → String → String → Option SourcePreset → Result SourceCommon
unfolding merge_into
found_preset c id name none = err (unknown_preset id name)
found_preset c id name (some p) = ok (merge_into p (record c { preset = none }))

resolve_preset : BTreeMap SourcePreset → String → SourceCommon → Option String → Result SourceCommon
unfolding found_preset
resolve_preset presets id c none = ok c
resolve_preset presets id c (some name) =
    if str_eq (trim name) ""
    then err (empty_preset id)
    else found_preset c id (trim name) (get (trim name) presets)

unfoldable pub with_preset_resolved :
    SourceCommon → BTreeMap SourcePreset → String → Result SourceCommon
unfolding resolve_preset
with_preset_resolved c presets id = resolve_preset presets id c c.preset

abbrev no_fields : SourcePreset
no_fields = record {
  include_prerelease = none;
  prerelease_tags = none;
  exclude_updated = none;
  pattern = none;
  exclude_pattern = none;
  routing_tag = none;
  interval_secs = none;
  jitter_secs = none;
  poll_on_startup = none;
  notify_schedule = none;
}

-- A built-in preset that only filters.
abbrev filtering : Bool → Option String → SourcePreset
filtering pre pat = record no_fields { include_prerelease = some pre; pattern = pat }

unfoldable pub builtin_source_presets : BTreeMap SourcePreset
unfolding insert_all
builtin_source_presets =
    insert_all
      (("wildcard", filtering true none)
        ∷ ("any-stable", filtering false none)
        ∷ ("semver", filtering false (some "^v?\\d+\\.\\d+\\.\\d+$"))
        ∷ ("semver-v", filtering false (some "^v\\d+\\.\\d+\\.\\d+$"))
        ∷ ("numeric", filtering false (some "^\\d+\\.\\d+\\.\\d+$"))
        ∷ ("major-minor", filtering false (some "^v?\\d+\\.\\d+$"))
        ∷ ("calver", filtering false (some "^v?\\d{4}\\.\\d{1,2}\\.\\d{1,2}$"))
        ∷ (
          "semver-pre",
          filtering true (some "^v?\\d+\\.\\d+\\.\\d+(-[0-9A-Za-z.-]+)?(\\+[0-9A-Za-z.-]+)?$"),
        )
        ∷ (
          "docker-semver",
          record (filtering false (some "^\\d+\\.\\d+\\.\\d+$")) {
            exclude_pattern = some "^(latest|nightly|edge)$";
          },
        )
        ∷ (
          "prerelease",
          record (filtering true (some "^v?\\d+\\.\\d+\\.\\d+-(alpha|beta|rc)")) {
            prerelease_tags = some ("alpha" ∷ "beta" ∷ "rc" ∷ []);
          },
        )
        ∷ (
          "stable",
          record (filtering false (some "^v?\\d+\\.\\d+\\.\\d+$")) { exclude_updated = some true },
        )
        ∷ [])
      []

unfoldable pub effective_source_presets : BTreeMap SourcePreset → BTreeMap SourcePreset
unfolding insert_all builtin_source_presets
effective_source_presets user = insert_all user builtin_source_presets

non_empty_tags : Option (List String) → Option (List String)
non_empty_tags none = none
non_empty_tags (some tags) = if is_empty tags then none else some tags

-- What the `regex` crate compiles an expression to, if it can.
module _ (compile : String → Option (String → Bool)) where
  compile_optional : Option String → Option (Option (String → Bool))
  compile_optional none = some none
  compile_optional (some text) = elim (compile text) [ none ↦ none | some test ↦ some (some test) ]

  both_compiled :
      SourceCommon
      → String
      → Option (Option (String → Bool))
      → Option (Option (String → Bool))
      → Result Filter
  unfolding non_empty_tags
  both_compiled c id none exclude = err (invalid_pattern id)
  both_compiled c id (some pattern) none = err (invalid_pattern id)
  both_compiled c id (some pattern) (some exclude) = ok (record {
    include_prerelease = unwrap_or false c.include_prerelease;
    prerelease_tags = non_empty_tags c.prerelease_tags;
    pattern = pattern;
    exclude_pattern = exclude;
    exclude_updated = unwrap_or false c.exclude_updated;
  })

  unfoldable pub build_filter : SourceCommon → String → Result Filter
  unfolding both_compiled compile_optional
  build_filter c id =
      both_compiled c id (compile_optional c.pattern) (compile_optional c.exclude_pattern)

unfoldable pub schedule : SourceCommon → Defaults → ℕ × ℕ × Bool
schedule c defaults = (
  unwrap_or defaults.interval_secs c.interval_secs,
  unwrap_or defaults.jitter_secs c.jitter_secs,
  unwrap_or defaults.poll_on_startup c.poll_on_startup,
)
