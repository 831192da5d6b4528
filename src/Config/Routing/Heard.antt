-- ===== src/Config/Routing/Heard.antt =====
-- A desired state without a routing error has a channel for the events of each of its sources.
use mathlib.Core.List.{◌++◌ as append}
use xrelease.Base.{
  String, ◌≡◌, refl, sym, ◌∙◌, Bool, true, false, not, ◌&&◌, ◌||◌, Option, none, some, List, [],
  ◌∷◌, All, any, is_empty, str_eq, eq_iff, eq_refl, Bool-cases, inl, inr, if◌then◌else◌,
}
use xrelease.Text.{trim}
use xrelease.Notify.Routing.{non_blank, matches_routing_tags}
use xrelease.Config.Presets.{SourcePreset, BTreeMap, effective_source_presets}
use xrelease.Config.Source.{SourceConfig, source_label}
use xrelease.Config.Organizations.{Config, NotifierConfig, TeamConfig}
use xrelease.Config.Routing.{
  Issue, ValidationReport, error, warn, has_tag, Channels, tags_of, channels_of, effective_tag,
  check_listed, check_heard, check_tag, check_source, check_sources, check_ops, check_team_tags,
  check_unused, validate_team_routing,
}

-- Whether a notifier takes the events with a tag; a source without one, or with a blank one, has
-- nothing to ask.
unfoldable pub is_heard : List NotifierConfig → Option String → Bool
is_heard notifiers none = true
is_heard notifiers (some tag) =
    str_eq (trim tag) "" || any (λ n. matches_routing_tags n.tags (some tag)) notifiers

any-append :
    (p : String → Bool) (xs ys : List String) → any p (append xs ys) ≡ (any p xs || any p ys)
any-append p [] ys = refl
any-append p (x ∷ xs) ys = elim (Bool-cases (p x)) [
  | inl e ↦ rw e refl
  | inr e ↦ rw e (any-append p xs ys)
]

trimmed :
    (tag : String) (tags : List String)
    → has_tag tags tag ≡ true
    → any (λ t. str_eq (trim t) (trim tag)) tags ≡ true
trimmed tag [] h = absurd (cc)
trimmed tag (t ∷ tags) h = elim (Bool-cases (str_eq t tag)) [
  | inl e ↦ rw ((eq_iff t tag).0 e, eq_refl (trim tag)) refl
  | inr e ↦
      let rest : has_tag tags tag ≡ true = rw e at h in
      elim (Bool-cases (str_eq (trim t) (trim tag))) [
        | inl k ↦ rw k refl
        | inr k ↦ rw k (trimmed tag tags rest)
      ]
]

-- A notifier with the tag, or with none, takes the events with the tag.
matches :
    (tags : List String) (tag : String)
    → str_eq (trim tag) "" ≡ false
    → (is_empty tags || has_tag tags tag) ≡ true
    → matches_routing_tags tags (some tag) ≡ true
unfolding matches_routing_tags non_blank
matches [] tag b h = refl
matches (t ∷ tags) tag b h = rw b (trimmed tag (t ∷ tags) h)

or_rest : (x a y b : Bool) → (x || y) ≡ false → ((x || a) || (y || b)) ≡ true → (a || b) ≡ true
or_rest false a false b e h = h
or_rest false a true b e h = absurd (cc)
or_rest true a y b e h = absurd (cc)

or_right : (a b : Bool) → b ≡ true → (a || b) ≡ true
or_right false b h = h
or_right true b h = refl

channel :
    (notifiers : List NotifierConfig) (tag : String)
    → str_eq (trim tag) "" ≡ false
    → (any (λ n. is_empty n.tags) notifiers || has_tag (tags_of notifiers) tag) ≡ true
    → any (λ n. matches_routing_tags n.tags (some tag)) notifiers ≡ true
unfolding tags_of
channel [] tag b h = absurd (cc)
channel (n ∷ notifiers) tag b h = elim (Bool-cases (is_empty n.tags || has_tag n.tags tag)) [
  | inl e ↦ rw (matches n.tags tag b e) refl
  | inr e ↦
      let h' = rw (any-append (λ t. str_eq t tag) n.tags (tags_of notifiers)) at h in
      or_right (matches_routing_tags n.tags (some tag)) _
        (channel notifiers tag b (or_rest (is_empty n.tags) _ (has_tag n.tags tag) _ e h'))
]

-- Whether a tag is blank, or a channel has it.
abbrev is_audible : Channels → Option String → Bool
is_audible ch none = true
is_audible ch (some tag) =
    str_eq (trim tag) "" || (ch.wildcard_notifier || has_tag ch.notifier_tags tag)

-- A check that leaves a report valid found it valid, and its tag audible if there are channels.
heard-valid :
    (ch : Channels) (loud quiet : Issue) (tag : String) (r : ValidationReport)
    → (check_heard ch loud quiet tag r).valid ≡ true
    → (r.valid ≡ true)
      × (ch.has_any_channel ≡ true → (ch.wildcard_notifier || has_tag ch.notifier_tags tag) ≡ true)
unfolding check_heard error warn
heard-valid ch loud quiet tag r h =
    cases ch.wildcard_notifier (has_tag ch.notifier_tags tag) ch.has_any_channel h
  where
    cases :
        (w t c : Bool)
        → (if not w && not t then (if c then error loud r else warn quiet r) else r).valid ≡ true
        → (r.valid ≡ true) × (c ≡ true → (w || t) ≡ true)
    cases true t c h = (h, λ e. refl)
    cases false true c h = (h, λ e. refl)
    cases false false true h = absurd (cc)
    cases false false false h = (h, λ e. absurd (cc))

warned-valid :
    (b : Bool) (issue : Issue) (r : ValidationReport)
    → (if b then warn issue r else r).valid ≡ r.valid
unfolding warn
warned-valid true issue r = refl
warned-valid false issue r = refl

listed-valid :
    (ch : Channels) (issue : Issue) (tag : String) (r : ValidationReport)
    → (check_listed ch issue tag r).valid ≡ r.valid
unfolding check_listed
listed-valid ch issue tag r = warned-valid _ issue r

source-valid :
    (ch : Channels) (id : String) (tag : Option String) (r : ValidationReport) (used : List String)
    → (check_source ch id tag (r, used)).0.valid ≡ true
    → (r.valid ≡ true) × (ch.has_any_channel ≡ true → is_audible ch tag ≡ true)
unfolding check_source check_tag warn
source-valid ch id none r used h =
    elim (Bool-cases (not ch.wildcard_notifier && not (is_empty ch.notifier_tags))) [
      | inl e ↦ (rw e at h, λ c. refl)
      | inr e ↦ (rw e at h, λ c. refl)
    ]
source-valid ch id (some tag) r used h = elim (Bool-cases (str_eq (trim tag) "")) [
  | inl e ↦ (rw e at h, λ c. rw e refl)
  | inr e ↦
      let g = heard-valid ch _ _ tag _ (rw e at h) in
      (sym (listed-valid ch _ tag r) ∙ g.0, λ c. rw e (g.1 c))
]

sources-valid :
    (ch : Channels) (presets : BTreeMap SourcePreset) (sources : List SourceConfig)
    (r : ValidationReport) (used : List String)
    → ch.has_any_channel ≡ true
    → (check_sources ch presets sources (r, used)).0.valid ≡ true
    → (r.valid ≡ true) × All (λ s. is_audible ch (effective_tag presets s) ≡ true) sources
unfolding check_sources
sources-valid ch presets [] r used c h = (h, tt)
sources-valid ch presets (s ∷ sources) r used c h =
    let (r', used') = check_source ch (source_label s) (effective_tag presets s) (r, used) in
    let later = sources-valid ch presets sources r' used' c h in
    let here = source-valid ch (source_label s) (effective_tag presets s) r used later.0 in
    (here.0, (here.1 c, later.1))

ops-valid :
    (ch : Channels) (tag : Option String) (r : ValidationReport) (used : List String)
    → (check_ops ch tag (r, used)).0.valid ≡ true
    → r.valid ≡ true
unfolding check_ops
ops-valid ch none r used h = h
ops-valid ch (some tag) r used h = sym (listed-valid ch _ tag r) ∙ (heard-valid ch _ _ tag _ h).0

unused-valid :
    (ch : Channels) (used : List String) (teams : List TeamConfig) (r : ValidationReport)
    → (check_unused ch used teams r).valid ≡ r.valid
unfolding check_unused
unused-valid ch used [] r = refl
unused-valid ch used (t ∷ teams) r = unused-valid ch used teams _ ∙ warned-valid _ _ r

audible-heard :
    (config : Config) (tag : Option String)
    → is_audible (channels_of config) tag ≡ true
    → is_heard config.notifiers tag ≡ true
unfolding channels_of is_heard
audible-heard config none h = refl
audible-heard config (some tag) h = elim (Bool-cases (str_eq (trim tag) "")) [
  | inl e ↦ rw e refl
  | inr e ↦ rw e (channel config.notifiers tag e (rw e at h))
]

All-heard :
    (config : Config) (presets : BTreeMap SourcePreset) (sources : List SourceConfig)
    → All (λ s. is_audible (channels_of config) (effective_tag presets s) ≡ true) sources
    → All (λ s. is_heard config.notifiers (effective_tag presets s) ≡ true) sources
All-heard config presets [] h = tt
All-heard config presets (s ∷ sources) h =
    (audible-heard config (effective_tag presets s) h.0, All-heard config presets sources h.1)

-- If a desired state has a notifier and its routing is valid, then for every source with a tag that
-- is not blank, its own or its preset's, some notifier takes the events with that tag.
pub validate_team_routing-heard :
    (config : Config) (report : ValidationReport)
    → is_empty config.notifiers ≡ false
    → (validate_team_routing config report).valid ≡ true
    → All
        (λ s.
          is_heard config.notifiers (effective_tag (effective_source_presets config.presets) s)
          ≡ true)
        config.sources
unfolding validate_team_routing channels_of
validate_team_routing-heard config report some_channel h =
    let ch = channels_of config in
    let presets = effective_source_presets config.presets in
    let (r, used) =
      check_sources ch presets config.sources (check_team_tags config.teams report, []) in
    let ops = non_blank config.defaults.ops_routing_tag in
    let (r', used') = check_ops ch ops (r, used) in
    let kept = sym (unused-valid ch used' config.teams r') ∙ h in
    let checked = ops-valid ch ops r used kept in
    let channels : ch.has_any_channel ≡ true = rw some_channel refl in
    All-heard config presets config.sources
      (sources-valid ch presets config.sources _ [] channels checked).1
