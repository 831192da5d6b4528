-- ===== src/Config/Organizations/Apart.antt =====
-- Organizations in one process do not hear each other's releases, and each hears its own.
use Prim.Native.Nat.{Ordering}
use Prim.Native.String.{compare}
use xrelease.Base.{
  String, ◌≡◌, ◌≢◌, refl, sym, ap, ◌∙◌, true, false, Option, none, some, List, [], ◌∷◌, map, any,
  All, All-map, is_empty, str_eq, if◌then◌else◌, Bool-cases, inl, inr, eq_iff,
}
use xrelease.Text.{trim, starts_with}
use xrelease.Text.Prefixes.{
  Lacks, begins_clear, glue, append-glue, glue_assoc, scope, Within, split_prefix, scope_not_blank,
  trim-Within, Within-unique,
}
use xrelease.Notify.Routing.{matches_routing_tags, non_blank}
use xrelease.Config.Presets.{SourceCommon, SourcePreset, BTreeMap, Defaults}
use xrelease.Config.Source.{SourceConfig, source_common, with_id_and_common}
use xrelease.Config.Organizations.{
  Config, NotifierConfig, prefix_of, namespace_scoped, org_tag, prepared_source, insert_tag,
  namespaced_defaults, place, prepared_common, insert_source_tag, source_tags, catch_all,
  namespace_notifier, namespace_organization_desired,
}

-- A name that stands before `::` unmistakably: it has no colon, and no space at its start.
abbrev pub IsSlug : String → Type 0
IsSlug o = Lacks b':' o × (begins_clear o ≡ true)

prefix_glue : (o x : String) → glue (prefix_of o) x ≡ scope o x
unfolding prefix_of
prefix_glue o x = ap (λ p. glue p x) (append-glue o "::") ∙ glue_assoc o "::" x

pub namespace_scoped-Within : (o v : String) → Within o (namespace_scoped o v)
unfolding namespace_scoped
namespace_scoped-Within o v = elim (Bool-cases (starts_with (prefix_of o) (trim v))) [
  | inl e ↦ let (x, r) = split_prefix (prefix_of o) (trim v) e in rw e (x, r ∙ prefix_glue o x)
  | inr e ↦ rw e (trim v, append-glue (prefix_of o) (trim v) ∙ prefix_glue o (trim v))
]

place-All :
    (P : String → Type 0) (o : Ordering) (t u : String) (tags rest : List String)
    → P t
    → All P (u ∷ tags)
    → All P rest
    → All P (place o t u tags rest)
unfolding place
place-All P Ordering.lt t u tags rest h k l = (h, k)
place-All P Ordering.eq t u tags rest h k l = k
place-All P Ordering.gt t u tags rest h k l = (k.0, l)

insert_tag-All :
    (P : String → Type 0) (t : String) (tags : List String)
    → P t
    → All P tags
    → All P (insert_tag t tags)
unfolding insert_tag
insert_tag-All P t [] h k = (h, tt)
insert_tag-All P t (u ∷ tags) h k =
    place-All P (compare t u) t u tags (insert_tag t tags) h k (insert_tag-All P t tags h k.1)

insert_source_tag-All :
    (o : String) (tag : Option String) (tags : List String)
    → All (Within o) tags
    → All (Within o) (insert_source_tag o tag tags)
unfolding insert_source_tag
insert_source_tag-All o none tags h = h
insert_source_tag-All o (some tag) tags h =
    insert_tag-All (Within o) (namespace_scoped o tag) tags (namespace_scoped-Within o tag) h

source_tags-All :
    (o : String) (sources : List SourceConfig) (tags : List String)
    → All (Within o) tags
    → All (Within o) (source_tags o sources tags)
unfolding source_tags
source_tags-All o [] tags h = h
source_tags-All o (source ∷ sources) tags h =
    source_tags-All o sources _ (insert_source_tag-All o _ tags h)

pub catch_all-All : (o : String) (config : Config) → All (Within o) (catch_all o config)
unfolding catch_all
catch_all-All o config = insert_source_tag-All o _ _ (
    source_tags-All o config.sources _
      (insert_tag-All (Within o) _ [] (namespace_scoped-Within o "__org__") tt))

-- A sink that takes some events of its organization, and only those that carry its tags.
abbrev pub TakesOwn : String → NotifierConfig → Type 0
TakesOwn o n = All (Within o) n.tags × (is_empty n.tags ≡ false)

insert_tag-not_empty : (t : String) (tags : List String) → is_empty (insert_tag t tags) ≡ false
unfolding insert_tag
insert_tag-not_empty t [] = refl
insert_tag-not_empty t (u ∷ tags) = place-not_empty (compare t u) t u tags (insert_tag t tags)
  where
    place-not_empty :
        (o : Ordering) (t u : String) (tags rest : List String)
        → is_empty (place o t u tags rest) ≡ false
    place-not_empty Ordering.lt t u tags rest = refl
    place-not_empty Ordering.eq t u tags rest = refl
    place-not_empty Ordering.gt t u tags rest = refl

insert_source_tag-not_empty :
    (o : String) (tag : Option String) (tags : List String)
    → is_empty tags ≡ false
    → is_empty (insert_source_tag o tag tags) ≡ false
unfolding insert_source_tag
insert_source_tag-not_empty o none tags h = h
insert_source_tag-not_empty o (some tag) tags h = insert_tag-not_empty _ tags

source_tags-not_empty :
    (o : String) (sources : List SourceConfig) (tags : List String)
    → is_empty tags ≡ false
    → is_empty (source_tags o sources tags) ≡ false
unfolding source_tags
source_tags-not_empty o [] tags h = h
source_tags-not_empty o (source ∷ sources) tags h =
    source_tags-not_empty o sources _ (insert_source_tag-not_empty o _ tags h)

pub catch_all-not_empty : (o : String) (config : Config) → is_empty (catch_all o config) ≡ false
unfolding catch_all
catch_all-not_empty o config = insert_source_tag-not_empty o _ _ (
    source_tags-not_empty o config.sources _
      (insert_tag-not_empty (namespace_scoped o "__org__") []))

namespaced-All : (o : String) (tags : List String) → All (Within o) (map (namespace_scoped o) tags)
namespaced-All o [] = tt
namespaced-All o (t ∷ tags) = (namespace_scoped-Within o t, namespaced-All o tags)

namespace_notifier-TakesOwn :
    (o : String) (everything : List String) (n : NotifierConfig)
    → All (Within o) everything
    → is_empty everything ≡ false
    → TakesOwn o (namespace_notifier o everything n)
unfolding namespace_notifier
namespace_notifier-TakesOwn o everything n h k = by_tags n.tags
  where
    by_tags :
        (tags : List String)
        → All (Within o) (if is_empty tags then everything else map (namespace_scoped o) tags)
          × (is_empty (if is_empty tags then everything else map (namespace_scoped o) tags) ≡ false)
    by_tags [] = (h, k)
    by_tags (t ∷ tags) = (namespaced-All o (t ∷ tags), refl)

notifiers-TakesOwn :
    (o : String) (everything : List String) (ns : List NotifierConfig)
    → All (Within o) everything
    → is_empty everything ≡ false
    → All (TakesOwn o) (map (namespace_notifier o everything) ns)
notifiers-TakesOwn o everything [] h k = tt
notifiers-TakesOwn o everything (n ∷ ns) h k =
    (namespace_notifier-TakesOwn o everything n h k, notifiers-TakesOwn o everything ns h k)

-- The tag of each release event of the organization is the organization's.
abbrev pub Emits : String → SourceConfig → Type 0
Emits o s = (t : String) × ((source_common s).routing_tag ≡ some t) × Within o t

pub org_tag-Within : (o : String) (tag : Option String) → Within o (org_tag o tag)
unfolding org_tag
org_tag-Within o none = namespace_scoped-Within o "__org__"
org_tag-Within o (some tag) = elim (Bool-cases (str_eq (trim tag) "")) [
  | inl e ↦ rw e (namespace_scoped-Within o "__org__")
  | inr e ↦ rw e (namespace_scoped-Within o tag)
]

pub source_common-with :
    (id : Option String) (c : SourceCommon) (s : SourceConfig)
    → source_common (with_id_and_common id c s) ≡ c
unfolding source_common with_id_and_common
source_common-with id c (SourceConfig.github cfg) = refl
source_common-with id c (SourceConfig.codeberg cfg) = refl
source_common-with id c (SourceConfig.gitea cfg) = refl
source_common-with id c (SourceConfig.gitlab cfg) = refl
source_common-with id c (SourceConfig.bitbucket cfg) = refl
source_common-with id c (SourceConfig.docker cfg) = refl
source_common-with id c (SourceConfig.ghcr cfg) = refl
source_common-with id c (SourceConfig.quay cfg) = refl
source_common-with id c (SourceConfig.ecr cfg) = refl
source_common-with id c (SourceConfig.feed cfg) = refl
source_common-with id c (SourceConfig.pypi cfg) = refl
source_common-with id c (SourceConfig.npm cfg) = refl
source_common-with id c (SourceConfig.cargo cfg) = refl
source_common-with id c (SourceConfig.maven cfg) = refl
source_common-with id c (SourceConfig.nuget cfg) = refl
source_common-with id c (SourceConfig.hex cfg) = refl
source_common-with id c (SourceConfig.rubygems cfg) = refl
source_common-with id c (SourceConfig.packagist cfg) = refl
source_common-with id c (SourceConfig.yarn cfg) = refl
source_common-with id c (SourceConfig.cpan cfg) = refl
source_common-with id c (SourceConfig.artifacthub cfg) = refl

pub prepared_source-tag :
    (o : String) (presets : BTreeMap SourcePreset) (defaults : Defaults) (s : SourceConfig)
    → (source_common (prepared_source o presets defaults s)).routing_tag
      ≡ some (org_tag o (source_common s).routing_tag)
unfolding prepared_source prepared_common
prepared_source-tag o presets defaults s =
    ap (λ (c : SourceCommon). c.routing_tag) (source_common-with _ _ s)

prepared-Emits :
    (o : String) (presets : BTreeMap SourcePreset) (defaults : Defaults) (ss : List SourceConfig)
    → All (Emits o) (map (prepared_source o presets defaults) ss)
prepared-Emits o presets defaults [] = tt
prepared-Emits o presets defaults (s ∷ ss) = (
  (
    org_tag o (source_common s).routing_tag,
    prepared_source-tag o presets defaults s,
    org_tag-Within o (source_common s).routing_tag,
  ),
  prepared-Emits o presets defaults ss,
)

none_listed :
    (a b t : String) (tags : List String)
    → IsSlug a
    → IsSlug b
    → a ≢ b
    → Within b t
    → All (Within a) tags
    → any (λ u. str_eq (trim u) (trim t)) tags ≡ false
none_listed a b t [] ha hb apart w k = refl
none_listed a b t (u ∷ tags) ha hb apart w k = elim (Bool-cases (str_eq (trim u) (trim t))) [
  | inl e ↦
      let (x, p) = trim-Within a u ha.1 k.0 in
      let (y, q) = trim-Within b t hb.1 w in
      absurd (apart (Within-unique a b x y ha.0 hb.0 (sym p ∙ (eq_iff (trim u) (trim t)).0 e ∙ q)))
  | inr e ↦ rw e (none_listed a b t tags ha hb apart w k.1)
]

Within-not_blank : (o t : String) → IsSlug o → Within o t → str_eq (trim t) "" ≡ false
Within-not_blank o t h w =
    let (x, e) = trim-Within o t h.1 w in ap (λ s. str_eq s "") e ∙ scope_not_blank o x

pub matches_listed :
    (o t : String) (tags : List String)
    → IsSlug o
    → Within o t
    → is_empty tags ≡ false
    → matches_routing_tags tags (some t) ≡ any (λ u. str_eq (trim u) (trim t)) tags
unfolding matches_routing_tags non_blank
matches_listed o t tags h w k = rw (k, Within-not_blank o t h w) refl

-- No sink of the organization takes a release event of the other.
abbrev pub Deaf : List SourceConfig → NotifierConfig → Type 0
Deaf sources n =
    All (λ s. matches_routing_tags n.tags (source_common s).routing_tag ≡ false) sources

TakesOwn-Deaf :
    (a b : String) (n : NotifierConfig) (sources : List SourceConfig)
    → IsSlug a
    → IsSlug b
    → a ≢ b
    → TakesOwn a n
    → All (Emits b) sources
    → Deaf sources n
TakesOwn-Deaf a b n [] ha hb apart own k = tt
TakesOwn-Deaf a b n (s ∷ sources) ha hb apart own k =
    let (t, e, w) = k.0 in
    (
      ap (matches_routing_tags n.tags) e
          ∙ matches_listed b t n.tags hb w own.1
          ∙ none_listed a b t n.tags ha hb apart w own.0,
      TakesOwn-Deaf a b n sources ha hb apart own k.1,
    )

-- When two organizations with different names, in which no colon and no leading space stands, are
-- brought into one process, no sink of the first is routed a release event of a source of the
-- second, whatever their documents say.
pub namespace-Deaf :
    (a b : String) (first second : Config)
    → IsSlug a
    → IsSlug b
    → a ≢ b
    → All
        (Deaf (namespace_organization_desired b second).sources)
        (namespace_organization_desired a first).notifiers
unfolding namespace_organization_desired
namespace-Deaf a b first second ha hb apart =
    All-map
      (λ n own.
        TakesOwn-Deaf a b n _ ha hb apart own
          (prepared-Emits b second.presets (namespaced_defaults b second.defaults) second.sources))
      _
      (notifiers-TakesOwn a (catch_all a first) first.notifiers (catch_all-All a first)
        (catch_all-not_empty a first))
