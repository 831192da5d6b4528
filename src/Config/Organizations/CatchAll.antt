-- ===== src/Config/Organizations/CatchAll.antt =====
-- A sink without tags hears all of its own organization.
use Prim.Native.Nat.{Ordering}
use Prim.Native.String.{compare}
use text.Mathlib.Text.{is_eq}
use xrelease.Base.{
  String, ◌≡◌, refl, sym, ap, subst, ◌∙◌, true, Option, none, some, List, [], ◌∷◌, map, any, All,
  All-map, All-of_map, str_eq, Bool-cases, inl, inr, arith, eq_iff, eq_refl,
}
use xrelease.Text.{trim}
use xrelease.Text.Prefixes.{trim-trim}
use xrelease.Notify.Routing.{matches_routing_tags, non_blank}
use xrelease.Config.Source.{SourceConfig, source_common}
use xrelease.Config.Organizations.{
  Config, NotifierConfig, namespace_scoped, org_tag, prepared_source, place, insert_tag,
  insert_source_tag, source_tags, catch_all, namespaced_defaults, namespace_notifier,
  namespace_organization_desired,
}
use xrelease.Config.Organizations.Apart.{
  IsSlug, org_tag-Within, catch_all-not_empty, matches_listed, prepared_source-tag,
}

-- Routing finds the tag among those of a sink.
abbrev Listed : String → List String → Type 0
Listed t tags = any (λ u. str_eq (trim u) (trim t)) tags ≡ true

place-Listed :
    (v : String) (o : Ordering) (t u : String) (tags rest : List String)
    → Listed v (u ∷ tags)
    → Listed v (u ∷ rest)
    → Listed v (place o t u tags rest)
unfolding place
place-Listed v Ordering.lt t u tags rest h k = ground (arith, h)
place-Listed v Ordering.eq t u tags rest h k = h
place-Listed v Ordering.gt t u tags rest h k = k

insert_tag-keeps :
    (v t : String) (tags : List String) → Listed v tags → Listed v (insert_tag t tags)
unfolding insert_tag
insert_tag-keeps v t [] h = absurd (cc)
insert_tag-keeps v t (u ∷ tags) h =
    place-Listed v (compare t u) t u tags (insert_tag t tags) h
      (elim (Bool-cases (str_eq (trim u) (trim v))) [
        | inl e ↦ rw e refl
        | inr e ↦ rw e (insert_tag-keeps v t tags (rw e at h))
      ])

place_self :
    (o : Ordering) (t u : String) (tags rest : List String)
    → compare t u ≡ o
    → Listed t rest
    → Listed t (place o t u tags rest)
unfolding place
place_self Ordering.lt t u tags rest e h = rw (eq_refl (trim t)) refl
place_self Ordering.eq t u tags rest e h =
    let same : t ≡ u = (eq_iff t u).0 (ap is_eq e) in rw (← same) (rw (eq_refl (trim t)) refl)
place_self Ordering.gt t u tags rest e h = ground (arith, h)

insert_tag_self : (t : String) (tags : List String) → Listed t (insert_tag t tags)
unfolding insert_tag
insert_tag_self t [] = rw (eq_refl (trim t)) refl
insert_tag_self t (u ∷ tags) =
    place_self (compare t u) t u tags (insert_tag t tags) refl (insert_tag_self t tags)

insert_source_tag-keeps :
    (v o : String) (tag : Option String) (tags : List String)
    → Listed v tags
    → Listed v (insert_source_tag o tag tags)
unfolding insert_source_tag
insert_source_tag-keeps v o none tags h = h
insert_source_tag-keeps v o (some tag) tags h = insert_tag-keeps v _ tags h

source_tags-keeps :
    (v o : String) (sources : List SourceConfig) (tags : List String)
    → Listed v tags
    → Listed v (source_tags o sources tags)
unfolding source_tags
source_tags-keeps v o [] tags h = h
source_tags-keeps v o (s ∷ sources) tags h =
    source_tags-keeps v o sources _ (insert_source_tag-keeps v o _ tags h)

namespace_scoped-trim : (o tag : String) → namespace_scoped o (trim tag) ≡ namespace_scoped o tag
unfolding namespace_scoped
namespace_scoped-trim o tag = rw trim-trim refl

-- The tag that a source's events will carry is put among the tags, if the broadcast tag is there.
insert_source_tag-own :
    (o : String) (tag : Option String) (tags : List String)
    → Listed (namespace_scoped o "__org__") tags
    → Listed (org_tag o tag) (insert_source_tag o (non_blank tag) tags)
unfolding insert_source_tag org_tag non_blank
insert_source_tag-own o none tags h = h
insert_source_tag-own o (some tag) tags h = elim (Bool-cases (str_eq (trim tag) "")) [
  | inl e ↦ rw e h
  | inr e ↦ rw e (
      subst (λ t. Listed t (insert_tag (namespace_scoped o (trim tag)) tags))
        (namespace_scoped-trim o tag) (insert_tag_self (namespace_scoped o (trim tag)) tags))
]

source_tags-own :
    (o : String) (sources : List SourceConfig) (tags : List String)
    → Listed (namespace_scoped o "__org__") tags
    → All
        (λ s. Listed (org_tag o (source_common s).routing_tag) (source_tags o sources tags))
        sources
unfolding source_tags
source_tags-own o [] tags h = tt
source_tags-own o (s ∷ sources) tags h = (
  source_tags-keeps _ o sources _ (insert_source_tag-own o (source_common s).routing_tag tags h),
  source_tags-own o sources _ (insert_source_tag-keeps _ o _ tags h),
)

catch_all-own :
    (o : String) (config : Config)
    → All
        (λ s. Listed (org_tag o (source_common s).routing_tag) (catch_all o config))
        config.sources
unfolding catch_all
catch_all-own o config =
    All-map (λ s h. insert_source_tag-keeps _ o _ _ h) config.sources
      (source_tags-own o config.sources (insert_tag (namespace_scoped o "__org__") [])
        (insert_tag_self (namespace_scoped o "__org__") []))

-- A sink takes the release events of the source.
abbrev pub Hears : List String → SourceConfig → Type 0
Hears tags s = matches_routing_tags tags (source_common s).routing_tag ≡ true

prepared-Hears :
    (o : String) (config : Config) (s : SourceConfig)
    → IsSlug o
    → Listed (org_tag o (source_common s).routing_tag) (catch_all o config)
    → Hears
        (catch_all o config)
        (prepared_source o config.presets (namespaced_defaults o config.defaults) s)
prepared-Hears o config s slug h =
    ap (matches_routing_tags (catch_all o config))
      (prepared_source-tag o config.presets (namespaced_defaults o config.defaults) s)
    ∙ matches_listed o (org_tag o (source_common s).routing_tag) (catch_all o config) slug
        (org_tag-Within o (source_common s).routing_tag) (catch_all-not_empty o config)
    ∙ h

untagged-tags :
    (o : String) (everything : List String) (n : NotifierConfig)
    → n.tags ≡ []
    → (namespace_notifier o everything n).tags ≡ everything
unfolding namespace_notifier
untagged-tags o everything n h = rw h refl

-- A sink that had no tags takes, in the shared process, the release events of every source of its
-- own organization, if no colon and no leading space stands in the organization's name.
pub catch_all-Hears :
    (o : String) (config : Config) (n : NotifierConfig)
    → IsSlug o
    → n.tags ≡ []
    → All
        (Hears (namespace_notifier o (catch_all o config) n).tags)
        (namespace_organization_desired o config).sources
unfolding namespace_organization_desired
catch_all-Hears o config n slug h =
    subst
      (λ tags. All (Hears tags) (
        map (prepared_source o config.presets (namespaced_defaults o config.defaults))
          config.sources))
      (sym (untagged-tags o (catch_all o config) n h))
      (All-of_map (Hears (catch_all o config))
        (prepared_source o config.presets (namespaced_defaults o config.defaults)) config.sources
        (All-map (λ s k. prepared-Hears o config s slug k) config.sources (catch_all-own o config)))
