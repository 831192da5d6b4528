-- ===== src/Filter.antt =====
-- src/pipeline/filter.rs: which releases a watch accepts. A compiled expression of the `regex`
-- crate is the test that it is used as.
use Prim.Native.String.{◌++◌}
use xrelease.Base.{
  String, Bool, true, false, not, ◌&&◌, ◌||◌, Option, none, some, List, ◌∷◌, any, str_eq,
  if◌then◌else◌,
}
use xrelease.Text.{to_ascii_lowercase, has_substring, split_words}
use xrelease.Model.{Release}

pub record Filter : Type 0 where
  pub include_prerelease : Bool
  pub prerelease_tags : Option (List String)
  pub pattern : Option (String → Bool)
  pub exclude_pattern : Option (String → Bool)
  pub exclude_updated : Bool

has_word : String → String → Bool
has_word tag marker =
    let (first, others) = split_words tag in any (λ w. str_eq w marker) (first ∷ others)

marks : String → String → Bool
unfolding has_word
marks tag marker =
    not (str_eq marker "")
    && (has_word tag marker
        || has_substring tag ("-" ++ marker)
        || has_substring tag ("_" ++ marker)
        || has_substring tag ("." ++ marker))

unfoldable pub matches_prerelease_marker : String → List String → Bool
unfolding marks
matches_prerelease_marker tag markers =
    any (λ m. marks (to_ascii_lowercase tag) (to_ascii_lowercase m)) markers

has_marker : Option (List String) → String → Bool
has_marker none tag = true
has_marker (some markers) tag = matches_prerelease_marker tag markers

is_excluded : Option (String → Bool) → String → Bool
is_excluded none tag = false
is_excluded (some is_match) tag = is_match tag

is_included : Option (String → Bool) → String → Bool
is_included none tag = true
is_included (some is_match) tag = is_match tag

-- The gates in their order: pre-releases, their markers, exclusion, inclusion.
unfoldable pub accepts : {V : Type 0} → Filter → Release V → Bool
unfolding has_marker is_excluded is_included
accepts filter release =
    if release.prerelease && not filter.include_prerelease
    then false
    else if release.prerelease && not (has_marker filter.prerelease_tags release.raw_tag)
    then false
    else if is_excluded filter.exclude_pattern release.raw_tag
    then false
    else is_included filter.pattern release.raw_tag
