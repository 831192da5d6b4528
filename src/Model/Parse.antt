-- ===== src/Model/Parse.antt =====
-- `parse_version`, `Release::new` and `is_prerelease` of src/model.rs. The parser of the `semver`
-- crate, and whether a version has a pre-release part, are functions.
use Prim.Native.String.{◌++◌}
use xrelease.Base.{ℕ, String, Bool, false, ◌||◌, Option, none, some, List, [], ◌∷◌, any}
use xrelease.Text.{trim, decimal, to_ascii_lowercase, has_substring}
use xrelease.Model.{Release, trim_start_v, numeric_parts}

-- The first three numbers, with zeros for those that are missing.
triple_text : List ℕ → String
triple_text [] = "0.0.0"
triple_text (a ∷ []) = decimal a ++ ".0.0"
triple_text (a ∷ b ∷ []) = decimal a ++ ("." ++ (decimal b ++ ".0"))
triple_text (a ∷ b ∷ c ∷ nums) = decimal a ++ ("." ++ (decimal b ++ ("." ++ decimal c)))

-- `MARKERS` of `is_prerelease`.
abbrev markers : List String
markers =
    "alpha" ∷ "beta" ∷ "-rc" ∷ ".rc" ∷ "snapshot" ∷ "nightly" ∷ "preview" ∷ "canary" ∷ "-dev" ∷ []

module _ {V : Type 0} (parse : String → Option V) (has_pre : V → Bool) where
  parse_triple : Option (List ℕ) → Option V
  unfolding triple_text
  parse_triple none = none
  parse_triple (some nums) = parse (triple_text nums)

  lenient_parse : String → Option V
  unfolding parse_triple
  lenient_parse s = parse_triple (numeric_parts s)

  or_lenient : String → Option V → Option V
  or_lenient s (some version) = some version
  or_lenient s none = lenient_parse s

  unfoldable pub parse_version : String → Option V
  unfolding or_lenient lenient_parse
  parse_version tag = let trimmed = trim_start_v (trim tag) in or_lenient trimmed (parse trimmed)

  says_pre : Option V → Bool
  says_pre none = false
  says_pre (some version) = has_pre version

  unfoldable pub is_prerelease : String → Option V → Bool
  unfolding says_pre
  is_prerelease tag version =
      says_pre version || any (λ m. has_substring (to_ascii_lowercase tag) m) markers

  -- `Release::new`
  unfoldable pub release_new : String → Release V
  release_new id = record {
    id = id;
    raw_tag = id;
    version = parse_version id;
    url = none;
    published_at = none;
    prerelease = is_prerelease id (parse_version id);
    body = none;
  }
