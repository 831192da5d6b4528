-- ===== src/Config/Organizations/SourceIds.antt =====
-- The ids that organizations give to their sources.
use xrelease.Base.{
  String, ◌≡◌, ◌≢◌, refl, sym, ap, ◌∙◌, false, Option, none, List, [], ◌∷◌, map, All, str_eq,
  Bool-cases, inl, inr, eq_iff,
}
use xrelease.Text.Prefixes.{Within, Within-unique}
use xrelease.Config.Presets.{SourceCommon, SourcePreset, BTreeMap, Defaults}
use xrelease.Config.Source.{
  GiteaRepoCfg, SourceConfig, source_explicit_id, with_id_and_common, source_label,
  default_source_id,
}
use xrelease.Config.Organizations.{
  Config, namespace_scoped, base_id, prepared_source, namespaced_defaults,
  namespace_organization_desired,
}
use xrelease.Config.Organizations.Apart.{IsSlug, namespace_scoped-Within}

pub source_explicit_id-with :
    (id : Option String) (c : SourceCommon) (s : SourceConfig)
    → source_explicit_id (with_id_and_common id c s) ≡ id
unfolding source_explicit_id with_id_and_common
source_explicit_id-with id c (SourceConfig.github cfg) = refl
source_explicit_id-with id c (SourceConfig.codeberg cfg) = refl
source_explicit_id-with id c (SourceConfig.gitea cfg) = refl
source_explicit_id-with id c (SourceConfig.gitlab cfg) = refl
source_explicit_id-with id c (SourceConfig.bitbucket cfg) = refl
source_explicit_id-with id c (SourceConfig.docker cfg) = refl
source_explicit_id-with id c (SourceConfig.ghcr cfg) = refl
source_explicit_id-with id c (SourceConfig.quay cfg) = refl
source_explicit_id-with id c (SourceConfig.ecr cfg) = refl
source_explicit_id-with id c (SourceConfig.feed cfg) = refl
source_explicit_id-with id c (SourceConfig.pypi cfg) = refl
source_explicit_id-with id c (SourceConfig.npm cfg) = refl
source_explicit_id-with id c (SourceConfig.cargo cfg) = refl
source_explicit_id-with id c (SourceConfig.maven cfg) = refl
source_explicit_id-with id c (SourceConfig.nuget cfg) = refl
source_explicit_id-with id c (SourceConfig.hex cfg) = refl
source_explicit_id-with id c (SourceConfig.rubygems cfg) = refl
source_explicit_id-with id c (SourceConfig.packagist cfg) = refl
source_explicit_id-with id c (SourceConfig.yarn cfg) = refl
source_explicit_id-with id c (SourceConfig.cpan cfg) = refl
source_explicit_id-with id c (SourceConfig.artifacthub cfg) = refl

module _ (o : String) (presets : BTreeMap SourcePreset) (defaults : Defaults) where
  pub prepared-label :
      (s : SourceConfig)
      → source_label (prepared_source o presets defaults s) ≡ namespace_scoped o (base_id s)
  unfolding source_label prepared_source
  prepared-label s = rw source_explicit_id-with refl

  -- In an organization, an entry of Codeberg and one of GitHub with the same repository and no ids
  -- of their own get one id.
  pub codeberg-eq-github :
      (c d : GiteaRepoCfg)
      → c.id ≡ none
      → d.id ≡ none
      → c.repo ≡ d.repo
      → source_label (prepared_source o presets defaults (SourceConfig.codeberg c))
        ≡ source_label (prepared_source o presets defaults (SourceConfig.github d))
  unfolding base_id default_source_id source_explicit_id
  codeberg-eq-github c d no_id no_id' same =
      prepared-label (SourceConfig.codeberg c)
      ∙ ap (namespace_scoped o) (rw (no_id, no_id', same) refl)
      ∙ sym (prepared-label (SourceConfig.github d))

  prepared-Within :
      (ss : List SourceConfig)
      → All (λ s. Within o (source_label s)) (map (prepared_source o presets defaults) ss)
  prepared-Within [] = tt
  prepared-Within (s ∷ ss) =
      (rw (prepared-label s) (namespace_scoped-Within o (base_id s)), prepared-Within ss)

-- The id is none of the other sources'.
abbrev pub Fresh : List SourceConfig → SourceConfig → Type 0
Fresh others s = All (λ r. str_eq (source_label s) (source_label r) ≡ false) others

module _ (a b : String) (slug_a : IsSlug a) (slug_b : IsSlug b) (apart : a ≢ b) where
  Within-Fresh :
      (s : SourceConfig) (others : List SourceConfig)
      → Within a (source_label s)
      → All (λ r. Within b (source_label r)) others
      → Fresh others s
  Within-Fresh s [] w k = tt
  Within-Fresh s (r ∷ others) w k = (
    elim (Bool-cases (str_eq (source_label s) (source_label r))) [
      | inl e ↦
          let same : source_label s ≡ source_label r =
            (eq_iff (source_label s) (source_label r)).0 e in
          absurd (apart (Within-unique a b w.0 k.0.0 slug_a.0 slug_b.0 (sym w.1 ∙ same ∙ k.0.1)))
      | inr e ↦ e
    ],
    Within-Fresh s others w k.1,
  )

  sources-Fresh :
      (ss others : List SourceConfig)
      → All (λ s. Within a (source_label s)) ss
      → All (λ r. Within b (source_label r)) others
      → All (Fresh others) ss
  sources-Fresh [] others w k = tt
  sources-Fresh (s ∷ ss) others w k = (Within-Fresh s others w.0 k, sources-Fresh ss others w.1 k)

  -- When two organizations with different names, in which no colon and no leading space stands, are
  -- brought into one process, no source of the first has the id of a source of the second.
  pub namespace-Fresh :
      (first second : Config)
      → All
          (Fresh (namespace_organization_desired b second).sources)
          (namespace_organization_desired a first).sources
  unfolding namespace_organization_desired
  namespace-Fresh first second =
      sources-Fresh _ _
        (prepared-Within a first.presets (namespaced_defaults a first.defaults) first.sources)
        (prepared-Within b second.presets (namespaced_defaults b second.defaults) second.sources)
