-- ===== src/Config/Redact/Restored.antt =====
-- A document that is read and applied as it was read keeps the tokens of its sources; but entries
-- with one key do not.
use Prim.Native.String.{◌++◌}
use xrelease.Base.{
  String, ◌≡◌, refl, sym, ap, true, false, Option, none, some, List, [], ◌∷◌, All, str_eq, eq_iff,
  eq_refl, Bool-cases, inl, inr,
}
use xrelease.Text.{trim}
use xrelease.Config.Source.{
  SourceConfig, GitlabCfg, github, codeberg, gitea, gitlab, bitbucket, docker, ghcr, quay, ecr,
  feed, pypi, npm, cargo, maven, nuget, hex, rubygems, packagist, yarn, cpan, artifacthub,
}
use xrelease.Config.Redact.{
  redacted, is_present, mask_token, redact_source, redact_sources, is_placeholder, restore_env_name,
  restore_source_token, source_key, find_keyed, restore_from, restore_source, restore_sources,
}

-- A token that is missing, or is a secret rather than a placeholder.
abbrev pub IsLive : Option String → Type 0
IsLive none = Unit
IsLive (some value) = is_placeholder value ≡ false

is_placeholder-redacted : is_placeholder redacted ≡ true
unfolding is_placeholder trim
is_placeholder-redacted = refl

live-redacted : (value : String) → is_placeholder value ≡ false → str_eq value redacted ≡ false
live-redacted value h = elim (Bool-cases (str_eq value redacted)) [
  | inl e ↦
      let same = (eq_iff value redacted).0 e in
      let g : is_placeholder redacted ≡ false = rw (sym same) h in
      absurd (cc (g, is_placeholder-redacted))
  | inr e ↦ e
]

live-present : (value : String) → is_placeholder value ≡ false → str_eq (trim value) "" ≡ false
unfolding is_placeholder
live-present value h = elim (Bool-cases (str_eq (trim value) "")) [
  | inl e ↦ absurd (let g : true ≡ false = rw e at h in cc)
  | inr e ↦ e
]

restored_token :
    (token token_env : Option String)
    → IsLive token
    → (restore_source_token (mask_token token token_env) token_env token token_env).0
      ≡ (token, token_env)
unfolding restore_source_token mask_token restore_env_name
restored_token none token_env h = elim (Bool-cases (is_present token_env)) [
  | inl e ↦ rw (e, is_placeholder-redacted, e) refl
  | inr e ↦ rw (e, e) refl
]
restored_token (some value) token_env h =
    let present = live-present value h in
    let secret = live-redacted value h in
    elim (Bool-cases (is_present token_env)) [
      | inl e ↦ rw (present, is_placeholder-redacted, h, e, secret, e) refl
      | inr e ↦ rw (present, is_placeholder-redacted, h, e, e) refl
    ]

abbrev token_of : SourceConfig → Option String
token_of (github c) = c.token
token_of (codeberg c) = c.token
token_of (gitea c) = c.token
token_of (gitlab c) = c.token
token_of (bitbucket c) = c.token
token_of (docker c) = c.token
token_of (ghcr c) = c.token
token_of (quay c) = c.token
token_of (ecr c) = c.token
token_of other = none

-- The entry is the first with its key.
abbrev IsFirstOf : Option String → List SourceConfig → SourceConfig → Type 0
IsFirstOf none previous s = Unit
IsFirstOf (some key) previous s = find_keyed (some key) previous ≡ some s

-- The entry has a token or none, not a placeholder, and is the first with its key.
abbrev pub IsRestorable : List SourceConfig → SourceConfig → Type 0
IsRestorable previous s = IsFirstOf (source_key s) previous s × IsLive (token_of s)

restored_source :
    (previous : List SourceConfig) (s : SourceConfig)
    → IsRestorable previous s
    → (restore_source previous (redact_source s)).0 ≡ s
unfolding restore_source restore_from redact_source source_key
restored_source previous (github c) (first, live) = rw first (
    ap (λ p. github (record c { token = p.0; token_env = p.1 }))
      (restored_token c.token c.token_env live))
restored_source previous (codeberg c) (first, live) = rw first (
    ap (λ p. codeberg (record c { token = p.0; token_env = p.1 }))
      (restored_token c.token c.token_env live))
restored_source previous (gitea c) (first, live) = rw first (
    ap (λ p. gitea (record c { token = p.0; token_env = p.1 }))
      (restored_token c.token c.token_env live))
restored_source previous (gitlab c) (first, live) = rw first (
    ap (λ p. gitlab (record c { token = p.0; token_env = p.1 }))
      (restored_token c.token c.token_env live))
restored_source previous (bitbucket c) (first, live) = rw first (
    ap (λ p. bitbucket (record c { token = p.0; token_env = p.1 }))
      (restored_token c.token c.token_env live))
restored_source previous (docker c) (first, live) = rw first (
    ap (λ p. docker (record c { token = p.0; token_env = p.1 }))
      (restored_token c.token c.token_env live))
restored_source previous (ghcr c) (first, live) = rw first (
    ap (λ p. ghcr (record c { token = p.0; token_env = p.1 }))
      (restored_token c.token c.token_env live))
restored_source previous (quay c) (first, live) = rw first (
    ap (λ p. quay (record c { token = p.0; token_env = p.1 }))
      (restored_token c.token c.token_env live))
restored_source previous (ecr c) (first, live) = rw first (
    ap (λ p. ecr (record c { token = p.0; token_env = p.1 }))
      (restored_token c.token c.token_env live))
restored_source previous (feed c) h = refl
restored_source previous (pypi c) h = refl
restored_source previous (npm c) h = refl
restored_source previous (cargo c) h = refl
restored_source previous (maven c) h = refl
restored_source previous (nuget c) h = refl
restored_source previous (hex c) h = refl
restored_source previous (rubygems c) h = refl
restored_source previous (packagist c) h = refl
restored_source previous (yarn c) h = refl
restored_source previous (cpan c) h = refl
restored_source previous (artifacthub c) h = refl

restore_sources-entries :
    (previous sources : List SourceConfig)
    → All (IsRestorable previous) sources
    → (restore_sources previous (redact_sources sources)).0 ≡ sources
unfolding restore_sources redact_sources
restore_sources-entries previous [] h = refl
restore_sources-entries previous (s ∷ sources) h =
    rw (restored_source previous s h.0, restore_sources-entries previous sources h.1) refl

-- If no two entries that may have a token have the same key, and no token is blank or a
-- placeholder, then the sources as a reader sees them, applied again, are the sources with their
-- tokens and the names of their tokens' variables.
pub restore_sources-redact :
    (sources : List SourceConfig)
    → All (IsRestorable sources) sources
    → (restore_sources sources (redact_sources sources)).0 ≡ sources
restore_sources-redact sources h = restore_sources-entries sources sources h

crossed_token :
    (token secret : String)
    → is_placeholder token ≡ false
    → is_placeholder secret ≡ false
    → (restore_source_token (mask_token (some secret) none) none (some token) none).0
      ≡ (some token, none)
unfolding restore_source_token mask_token restore_env_name
crossed_token token secret live live' =
    rw (live-present secret live', is_placeholder-redacted, live) refl

crossed_source :
    (c d : GitlabCfg) (token secret : String)
    → c.project ≡ d.project
    → c.token ≡ some token
    → d.token ≡ some secret
    → c.token_env ≡ none
    → d.token_env ≡ none
    → is_placeholder token ≡ false
    → is_placeholder secret ≡ false
    → (restore_source (gitlab c ∷ gitlab d ∷ []) (redact_source (gitlab d))).0
      ≡ gitlab (record d { token = some token })
unfolding restore_source restore_from redact_source source_key find_keyed
crossed_source c d token secret project ct dt ce de live live' =
    rw (project, eq_refl ("gitlab:" ++ d.project), dt, ct, de, ce)
      (ap (λ p. gitlab (record d { token = p.0; token_env = p.1 }))
        (crossed_token token secret live live'))

first_gitlab :
    (c d : GitlabCfg)
    → find_keyed (source_key (gitlab c)) (gitlab c ∷ gitlab d ∷ []) ≡ some (gitlab c)
unfolding find_keyed source_key
first_gitlab c d = rw (eq_refl ("gitlab:" ++ c.project)) refl

-- Two GitLab entries for one project, whatever their hosts, each with a token written in the entry
-- that is neither blank nor a placeholder, and neither with the name of a token's variable: the
-- sources as a reader sees them, applied again, give the second entry the token of the first.
pub restore_sources-crossed :
    (c d : GitlabCfg) (token secret : String)
    → c.project ≡ d.project
    → c.token ≡ some token
    → d.token ≡ some secret
    → c.token_env ≡ none
    → d.token_env ≡ none
    → is_placeholder token ≡ false
    → is_placeholder secret ≡ false
    → (restore_sources (gitlab c ∷ gitlab d ∷ []) (redact_sources (gitlab c ∷ gitlab d ∷ []))).0
      ≡ gitlab c ∷ gitlab (record d { token = some token }) ∷ []
unfolding restore_sources redact_sources source_key
restore_sources-crossed c d token secret project ct dt ce de live live' =
    let h : IsLive c.token = rw ct live in
    rw
      (
        restored_source (gitlab c ∷ gitlab d ∷ []) (gitlab c) (first_gitlab c d, h),
        crossed_source c d token secret project ct dt ce de live live',
      )
      refl
