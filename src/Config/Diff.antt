-- ===== src/Config/Diff.antt =====
-- `to_watches` of src/config/mod.rs and src/config_apply/diff.rs: the sources that an applied
-- configuration adds, removes and changes. How an entry is written as a value is the serializer's,
-- and is a function.
pub mod Lookup
use xrelease.Base.{
  ℕ, String, Bool, true, false, not, Option, none, some, List, [], ◌∷◌, map, zip, str_eq, ◌||◌,
  if◌then◌else◌,
}
use xrelease.Sources.Provider.{identity}
use xrelease.Config.Presets.{Result, ok, err, effective_source_presets}
use xrelease.Config.Source.{SourceConfig}
use xrelease.Config.Watches.{Watch, NotifySchedule, watches_of}
use xrelease.Config.Organizations.{Config}

module _ (compile : String → Option (String → Bool)) (parse : String → Option NotifySchedule)
    (env_token : String → Option String) where
  unfoldable pub to_watches : Config → Result (List Watch)
  unfolding watches_of effective_source_presets
  to_watches config =
      watches_of compile parse env_token config.sources config.defaults
        (effective_source_presets config.presets)

pub record ConfigDiff : Type 0 where
  pub added : List String
  pub removed : List String
  pub changed : List String

-- The pairs of a source's id and its entry, written as a value.
abbrev pub Content : Type 0 → Type 0
Content Value = List (String × Value)

module _ {Value : Type 0} where
  -- In a `HashMap` that is collected from the pairs, the last pair of a key stays.
  unfoldable pub find_value : String → Content Value → Option Value
  find_value id [] = none
  find_value id ((k, v) ∷ content) = elim (find_value id content) [
    | some w ↦ some w
    | none ↦ if str_eq k id then some v else none
  ]

  unfoldable pub has_id : String → Content Value → Bool
  has_id id [] = false
  has_id id ((k, v) ∷ content) = str_eq k id || has_id id content

  is_added : Option Value → Bool
  is_added none = true
  is_added (some old) = false

  unfoldable pub added_ids : Content Value → Content Value → List String
  unfolding find_value is_added
  added_ids current [] = []
  added_ids current ((id, spec) ∷ next) =
      let rest = added_ids current next in
      if is_added (find_value id current) then id ∷ rest else rest

  unfoldable pub removed_ids : Content Value → Content Value → List String
  unfolding has_id
  removed_ids [] next = []
  removed_ids ((id, spec) ∷ current) next =
      let rest = removed_ids current next in if has_id id next then rest else id ∷ rest

module _ {Value : Type 0} (same : Value → Value → Bool) where
  is_changed : Value → Option Value → Bool
  is_changed spec none = false
  is_changed spec (some old) = not (same old spec)

  unfoldable pub changed_ids : Content Value → Content Value → List String
  unfolding find_value is_changed
  changed_ids current [] = []
  changed_ids current ((id, spec) ∷ next) =
      let rest = changed_ids current next in
      if is_changed spec (find_value id current) then id ∷ rest else rest

  unfoldable pub diff_contents : Content Value → Content Value → ConfigDiff
  unfolding added_ids changed_ids removed_ids
  diff_contents current next = record {
    added = added_ids current next;
    removed = removed_ids current next;
    changed = changed_ids current next;
  }

module _ (compile : String → Option (String → Bool)) (parse : String → Option NotifySchedule)
    (env_token : String → Option String) {Value : Type 0} (to_value : SourceConfig → Value)
    (same : Value → Value → Bool) where
  contents_of : List SourceConfig → Result (List Watch) → List (String × Value)
  contents_of sources (err e) = []
  contents_of sources (ok watches) =
      map (λ (w, s). ((identity w.provider).id, to_value s)) (zip watches sources)

  unfoldable pub source_content : Config → List (String × Value)
  unfolding contents_of to_watches
  source_content config = contents_of config.sources (to_watches compile parse env_token config)

  unfoldable pub compute : Config → Config → ConfigDiff
  unfolding source_content diff_contents
  compute current next = diff_contents same (source_content current) (source_content next)
