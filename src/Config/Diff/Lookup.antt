-- ===== src/Config/Diff/Lookup.antt =====
-- The diff of two configurations, read by one source id at a time.
use xrelease.Base.{
  String, ◌≡◌, refl, sym, ap, ◌∙◌, Bool, true, false, not, ◌&&◌, Option, none, some, List, [], ◌∷◌,
  any, str_eq, Bool-cases, Option-cases, inl, inr, arith, eq_iff,
}
use xrelease.Config.Diff.{find_value, has_id, added_ids, changed_ids, removed_ids, diff_contents}

abbrev pub listed : String → List String → Bool
listed id ids = any (λ k. str_eq k id) ids

abbrev pub present : {V : Type 0} → Option V → Bool
present none = false
present (some v) = true

-- Both are there, and are not the same.
abbrev pub differ : {V : Type 0} → (V → V → Bool) → Option V → Option V → Bool
differ same none new = false
differ same (some old) none = false
differ same (some old) (some new) = not (same old new)

-- No id stands twice.
abbrev pub DistinctIds : {V : Type 0} → List (String × V) → Type 0
DistinctIds [] = Unit
DistinctIds ((k, v) ∷ content) = (has_id k content ≡ false) × DistinctIds content

module _ {V : Type 0} (id : String) where
  has_id-present :
      (content : List (String × V)) → has_id id content ≡ present (find_value id content)
  unfolding has_id find_value
  has_id-present [] = refl
  has_id-present ((k, v) ∷ content) = elim (Option-cases (find_value id content)) [
    | inl e ↦ rw (e, find_value) (rw (has_id-present content) (rw e (ground arith)))
    | inr (w, e) ↦ rw (e, find_value) (rw (has_id-present content) (rw e (ground arith)))
  ]

  same_key :
      (k : String) (content : List (String × V))
      → str_eq k id ≡ true
      → find_value k content ≡ find_value id content
  same_key k content e = ap (λ t. find_value t content) ((eq_iff k id).0 e)

  has_same_key :
      (k : String) (content : List (String × V))
      → str_eq k id ≡ true
      → has_id k content ≡ has_id id content
  has_same_key k content e = ap (λ t. has_id t content) ((eq_iff k id).0 e)

  listed-added :
      (current next : List (String × V))
      → listed id (added_ids current next)
        ≡ (not (present (find_value id current)) && has_id id next)
  unfolding added_ids has_id
  listed-added current [] = ground arith
  listed-added current ((k, v) ∷ next) =
      ground (arith, same_key k current, listed-added current next)

  listed-removed :
      (current next : List (String × V))
      → listed id (removed_ids current next) ≡ (has_id id current && not (has_id id next))
  unfolding removed_ids has_id
  listed-removed [] next = refl
  listed-removed ((k, v) ∷ current) next =
      ground (arith, has_same_key k next, listed-removed current next)

  -- An id that is not in the pairs has no value.
  absent :
      (k : String) (content : List (String × V))
      → str_eq k id ≡ true
      → has_id k content ≡ false
      → find_value id content ≡ none
  absent k content e h = elim (Option-cases (find_value id content)) [
    | inl f ↦ f
    | inr (w, f) ↦
        absurd (cc (sym (has_same_key k content e) ∙ h, rw f at (has_id-present content)))
  ]

  here :
      (same : V → V → Bool) (current : List (String × V)) (k : String) (v : V)
      (next : List (String × V))
      → str_eq k id ≡ true
      → find_value id next ≡ none
      → listed id (changed_ids same current next)
        ≡ differ same (find_value id current) (find_value id next)
      → listed id (changed_ids same current ((k, v) ∷ next))
        ≡ differ same (find_value id current) (find_value id ((k, v) ∷ next))
  unfolding changed_ids find_value
  here same current k v next e n later = elim (Option-cases (find_value id current)) [
    | inl f ↦ rw (n, find_value, e, same_key k current e, f) (rw (n, f) at later)
    | inr (old, f) ↦ elim (Bool-cases (same old v)) [
      | inl g ↦ rw (n, find_value, e, same_key k current e, f, g) (rw (n, f) at later)
      | inr g ↦ rw (n, find_value, e, same_key k current e, f, g) (ground arith)
    ]
  ]

  -- A pair of another id adds nothing to the list, and hides nothing.
  skipped :
      (same : V → V → Bool) (current : List (String × V)) (k : String) (v : V)
      (next : List (String × V))
      → str_eq k id ≡ false
      → listed id (changed_ids same current ((k, v) ∷ next))
        ≡ listed id (changed_ids same current next)
  unfolding changed_ids
  skipped same current k v next e = ground arith

  passed :
      (k : String) (v : V) (next : List (String × V))
      → str_eq k id ≡ false
      → find_value id ((k, v) ∷ next) ≡ find_value id next
  unfolding find_value
  passed k v next e = elim (Option-cases (find_value id next)) [
    | inl n ↦ rw (n, find_value, e) refl
    | inr (w, n) ↦ rw (n, find_value) refl
  ]

  elsewhere :
      (same : V → V → Bool) (current : List (String × V)) (k : String) (v : V)
      (next : List (String × V))
      → str_eq k id ≡ false
      → listed id (changed_ids same current next)
        ≡ differ same (find_value id current) (find_value id next)
      → listed id (changed_ids same current ((k, v) ∷ next))
        ≡ differ same (find_value id current) (find_value id ((k, v) ∷ next))
  unfolding changed_ids find_value
  elsewhere same current k v next e later =
      skipped same current k v next e
      ∙ later
      ∙ ap (differ same (find_value id current)) (sym (passed k v next e))

  listed-changed :
      (same : V → V → Bool) (current next : List (String × V))
      → DistinctIds next
      → listed id (changed_ids same current next)
        ≡ differ same (find_value id current) (find_value id next)
  unfolding changed_ids find_value
  listed-changed same current [] d = elim (Option-cases (find_value id current)) [
    | inl e ↦ rw e refl
    | inr (w, e) ↦ rw e refl
  ]
  listed-changed same current ((k, v) ∷ next) d =
      let later : listed id (changed_ids same current next)
          ≡ differ same (find_value id current) (find_value id next) =
        listed-changed same current next d.1 in
      elim (Bool-cases (str_eq k id)) [
        | inl e ↦ here same current k v next e (absent k next e d.0) later
        | inr e ↦ elsewhere same current k v next e later
      ]

-- For each id, read by lookup in the two contents, the last entry of an id in the current one
-- counting: `added` lists it exactly when only the next content has it, `removed` exactly when only
-- the current one has it, and `changed` exactly when both have it and the two entries are not the
-- same, if no id stands twice in the next content.
pub diff_contents-lookup :
    {V : Type 0} (same : V → V → Bool) (id : String) (current next : List (String × V))
    → DistinctIds next
    → let old = find_value id current in
      let new = find_value id next in
      (listed id (diff_contents same current next).added ≡ (not (present old) && present new))
      × (listed id (diff_contents same current next).removed ≡ (present old && not (present new)))
      × (listed id (diff_contents same current next).changed ≡ differ same old new)
unfolding diff_contents
diff_contents-lookup same id current next d = (
  listed-added id current next
      ∙ ap (λ t. not (present (find_value id current)) && t) (has_id-present id next),
  listed-removed id current next
      ∙ ap (λ t. t && not (has_id id next)) (has_id-present id current)
      ∙ ap (λ t. present (find_value id current) && not t) (has_id-present id next),
  listed-changed id same current next d,
)
