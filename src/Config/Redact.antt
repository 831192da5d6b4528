-- ===== src/Config/Redact.antt =====
-- Of src/config_apply/redact.rs, the tokens of sources: what a reader of the configuration sees in
-- their place, and how an applied document gets them back.
pub mod Restored
use Prim.Native.String.{◌++◌}
use xrelease.Base.{
  String, Bool, true, false, not, ◌&&◌, ◌||◌, Option, none, some, List, [], ◌∷◌, map, str_eq,
  if◌then◌else◌,
}
use xrelease.Text.{trim}
use xrelease.Config.Source.{
  SourceConfig, github, codeberg, gitea, gitlab, bitbucket, docker, ghcr, quay, ecr,
}

abbrev pub redacted : String
redacted = "<redacted>"

-- A text that is neither missing nor blank.
abbrev pub is_present : Option String → Bool
is_present none = false
is_present (some value) = not (str_eq (trim value) "")

unfoldable pub mask_token : Option String → Option String → Option String
mask_token token token_env =
    if is_present token || is_present token_env then some redacted else token

unfoldable pub redact_source : SourceConfig → SourceConfig
redact_source (github c) = github (record c { token = mask_token c.token c.token_env })
redact_source (codeberg c) = codeberg (record c { token = mask_token c.token c.token_env })
redact_source (gitea c) = gitea (record c { token = mask_token c.token c.token_env })
redact_source (gitlab c) = gitlab (record c { token = mask_token c.token c.token_env })
redact_source (bitbucket c) = bitbucket (record c { token = mask_token c.token c.token_env })
redact_source (docker c) = docker (record c { token = mask_token c.token c.token_env })
redact_source (ghcr c) = ghcr (record c { token = mask_token c.token c.token_env })
redact_source (quay c) = quay (record c { token = mask_token c.token c.token_env })
redact_source (ecr c) = ecr (record c { token = mask_token c.token c.token_env })
redact_source other = other

unfoldable pub redact_sources : List SourceConfig → List SourceConfig
redact_sources sources = map redact_source sources

unfoldable pub is_placeholder : String → Bool
is_placeholder value = str_eq (trim value) "" || str_eq (trim value) redacted

abbrev env_blank : Option String → Bool
env_blank name = not (is_present name)

-- The name after it, and whether it was restored.
unfoldable pub restore_env_name : Option String → Option String → Option String × Bool
restore_env_name next prev =
    if not (env_blank next) || env_blank prev then (next, false) else (prev, true)

abbrev pub is_redacted : Option String → Bool
is_redacted none = false
is_redacted (some value) = str_eq value redacted

abbrev pub needs_token : Option String → Bool
needs_token none = true
needs_token (some value) = is_placeholder value

abbrev pub restore_token : Bool → Option String → Option String → Option String × Bool
restore_token true next (some prev) =
    if is_placeholder prev then (next, false) else (some prev, true)
restore_token true next none = (next, false)
restore_token false next prev = (next, false)

-- The token and the name after it, and whether one of them was restored.
unfoldable pub restore_source_token :
    Option String
    → Option String
    → Option String
    → Option String
    → (Option String × Option String) × Bool
restore_source_token next_token next_env prev_token prev_env =
    let (token, token_restored) = restore_token (needs_token next_token) next_token prev_token in
    let (env, env_restored) = restore_env_name next_env prev_env in
    if not (env_blank env) && is_redacted token
    then ((none, env), true)
    else ((token, env), token_restored || env_restored)

unfoldable pub source_key : SourceConfig → Option String
source_key (github c) = some ("github:" ++ c.repo)
source_key (codeberg c) = some ("codeberg:" ++ c.repo)
source_key (gitea c) = some ("gitea:" ++ (c.host ++ (":" ++ c.repo)))
source_key (gitlab c) = some ("gitlab:" ++ c.project)
source_key (bitbucket c) = some ("bitbucket:" ++ c.repo)
source_key (docker c) = some ("docker:" ++ c.image)
source_key (ghcr c) = some ("ghcr:" ++ c.image)
source_key (quay c) = some ("quay:" ++ c.image)
source_key (ecr c) = some ("ecr:" ++ c.image)
source_key other = none

-- The entry of `previous` with the key.
unfoldable pub find_keyed : Option String → List SourceConfig → Option SourceConfig
find_keyed none previous = none
find_keyed (some key) [] = none
find_keyed (some key) (p ∷ previous) =
    let rest = find_keyed (some key) previous in
    elim (source_key p) [ none ↦ rest | some k ↦ if str_eq k key then some p else rest ]

-- What an entry gets from the previous one with its key.
unfoldable pub restore_from : SourceConfig → Option SourceConfig → SourceConfig × Bool
restore_from (github n) (some (github p)) =
    let ((token, env), restored) = restore_source_token n.token n.token_env p.token p.token_env in
    (github (record n { token = token; token_env = env }), restored)
restore_from (codeberg n) (some (codeberg p)) =
    let ((token, env), restored) = restore_source_token n.token n.token_env p.token p.token_env in
    (codeberg (record n { token = token; token_env = env }), restored)
restore_from (gitea n) (some (gitea p)) =
    let ((token, env), restored) = restore_source_token n.token n.token_env p.token p.token_env in
    (gitea (record n { token = token; token_env = env }), restored)
restore_from (gitlab n) (some (gitlab p)) =
    let ((token, env), restored) = restore_source_token n.token n.token_env p.token p.token_env in
    (gitlab (record n { token = token; token_env = env }), restored)
restore_from (bitbucket n) (some (bitbucket p)) =
    let ((token, env), restored) = restore_source_token n.token n.token_env p.token p.token_env in
    (bitbucket (record n { token = token; token_env = env }), restored)
restore_from (docker n) (some (docker p)) =
    let ((token, env), restored) = restore_source_token n.token n.token_env p.token p.token_env in
    (docker (record n { token = token; token_env = env }), restored)
restore_from (ghcr n) (some (ghcr p)) =
    let ((token, env), restored) = restore_source_token n.token n.token_env p.token p.token_env in
    (ghcr (record n { token = token; token_env = env }), restored)
restore_from (quay n) (some (quay p)) =
    let ((token, env), restored) = restore_source_token n.token n.token_env p.token p.token_env in
    (quay (record n { token = token; token_env = env }), restored)
restore_from (ecr n) (some (ecr p)) =
    let ((token, env), restored) = restore_source_token n.token n.token_env p.token p.token_env in
    (ecr (record n { token = token; token_env = env }), restored)
restore_from next _ = (next, false)

unfoldable pub restore_source : List SourceConfig → SourceConfig → SourceConfig × Bool
restore_source previous next = restore_from next (find_keyed (source_key next) previous)

-- The loop over the sources: what it makes of them, and whether it restored something.
unfoldable pub restore_sources : List SourceConfig → List SourceConfig → List SourceConfig × Bool
restore_sources previous [] = ([], false)
restore_sources previous (n ∷ sources) =
    let (source, here) = restore_source previous n in
    let (rest, later) = restore_sources previous sources in (source ∷ rest, here || later)
