-- ===== src/Poll/Index.antt =====
-- What the catalogue has of the releases that `record_seen_batch` records.
use xrelease.Base.{
  ℕ, ◌≡◌, ◌≢◌, refl, sym, ap, ◌∙◌, String, Bool, true, false, some, List, [], ◌∷◌, select, any, All,
  str_eq, arith, eq_iff, eq_refl, Bool-cases, inl, inr,
}
use xrelease.Store.Tables.{SeenUpsert, SeenRow, SourceState}
use xrelease.Store.Parent.{upsert_seen}
use xrelease.Store.Catalogue.{
  upsert_source, find_source, initialized_of, initialize, seen_index, distinct_items, upsert_all,
}
use xrelease.Poll.{find_digest}

pub str_ne : (a b : String) → a ≢ b → str_eq a b ≡ false
str_ne a b h = elim (Bool-cases (str_eq a b)) [ inl e ↦ absurd (h ((eq_iff a b).0 e)) | inr e ↦ e ]

pub find-upsert_seen :
    (s : String) (item : SeenUpsert) (now : ℕ) (rows : List SeenRow)
    → find_digest item.identity (seen_index s (upsert_seen s item now rows))
      ≡ some item.content_digest
unfolding find_digest seen_index upsert_seen
find-upsert_seen s item now [] = simp eq_refl
find-upsert_seen s item now (row ∷ rows) = ground (arith, find-upsert_seen s item now rows)

pub find-upsert_other :
    (s id : String) (item : SeenUpsert) (now : ℕ) (rows : List SeenRow)
    → str_eq item.identity id ≡ false
    → find_digest id (seen_index s (upsert_seen s item now rows))
      ≡ find_digest id (seen_index s rows)
unfolding find_digest seen_index upsert_seen
find-upsert_other s id item now [] h = rw (eq_refl s, h) refl
find-upsert_other s id item now (row ∷ rows) h =
    elim (Bool-cases (str_eq row.identity item.identity)) [
      | inl e ↦
          let same : str_eq row.identity id ≡ false =
            ap (λ i. str_eq i id) ((eq_iff row.identity item.identity).0 e) ∙ h in
          ground (arith, find-upsert_other s id item now rows h)
      | inr e ↦ ground (arith, find-upsert_other s id item now rows h)
    ]

-- No two items, and no two releases, have one identity.
abbrev pub Unlike : String → List SeenUpsert → Type 0
Unlike id items = All (λ (i : SeenUpsert). i.identity ≢ id) items

abbrev pub Distinct : List SeenUpsert → Type 0
Distinct [] = Unit
Distinct (item ∷ items) = Unlike item.identity items × Distinct items

pub find-upsert-Unlike :
    (s id : String) (now : ℕ) (items : List SeenUpsert) (rows : List SeenRow)
    → Unlike id items
    → find_digest id (seen_index s (upsert_all s now items rows))
      ≡ find_digest id (seen_index s rows)
unfolding upsert_all
find-upsert-Unlike s id now [] rows h = refl
find-upsert-Unlike s id now (item ∷ items) rows h =
    find-upsert-Unlike s id now items (upsert_seen s item now rows) h.1
    ∙ find-upsert_other s id item now rows (str_ne item.identity id h.0)

-- Every item is in the index with its digest.
abbrev pub Indexed : String → List SeenRow → List SeenUpsert → Type 0
Indexed s rows items =
    All (λ (i : SeenUpsert). find_digest i.identity (seen_index s rows) ≡ some i.content_digest)
      items

pub upsert_all-Indexed :
    (s : String) (now : ℕ) (items : List SeenUpsert) (rows : List SeenRow)
    → Distinct items
    → Indexed s (upsert_all s now items rows) items
unfolding upsert_all
upsert_all-Indexed s now [] rows h = tt
upsert_all-Indexed s now (item ∷ items) rows h = (
  find-upsert-Unlike s item.identity now items (upsert_seen s item now rows) h.0
      ∙ find-upsert_seen s item now rows,
  upsert_all-Indexed s now items (upsert_seen s item now rows) h.1,
)

abbrev pub Untaken : List String → SeenUpsert → Type 0
Untaken taken item = any (λ i. str_eq i item.identity) taken ≡ false

pub Untaken-more :
    (id : String) (taken : List String) (items : List SeenUpsert)
    → Unlike id items
    → All (Untaken taken) items
    → All (Untaken (id ∷ taken)) items
Untaken-more id taken [] h k = tt
Untaken-more id taken (item ∷ items) h k =
    let differs : str_eq id item.identity ≡ false = str_ne id item.identity (λ e. h.0 (sym e)) in
    (rw (differs, k.0) refl, Untaken-more id taken items h.1 k.1)

pub distinct_items_lem :
    (taken : List String) (items : List SeenUpsert)
    → Distinct items
    → All (Untaken taken) items
    → distinct_items taken items ≡ items
unfolding distinct_items
distinct_items_lem taken [] h k = refl
distinct_items_lem taken (item ∷ items) h k = rw k.0 (
    ap (λ l. item ∷ l)
      (distinct_items_lem (item.identity ∷ taken) items h.1
        (Untaken-more item.identity taken items h.0 k.1)))

pub none_taken : (items : List SeenUpsert) → All (Untaken []) items
none_taken [] = tt
none_taken (item ∷ items) = (refl, none_taken items)

pub Indexed-baseline :
    (s : String) (now : ℕ) (items : List SeenUpsert) (rows : List SeenRow)
    → Distinct items
    → Indexed s (upsert_all s now (distinct_items [] items) rows) items
Indexed-baseline s now items rows d =
    rw (distinct_items_lem [] items d (none_taken items)) (upsert_all-Indexed s now items rows d)

pub select_none {ℓ} :
    {A : Type ℓ} (p : A → Bool) (xs : List A) → All (λ x. p x ≡ false) xs → select p xs ≡ []
select_none p [] h = refl
select_none p (x ∷ xs) h = rw h.0 (select_none p xs h.1)

pub baseline_found :
    (s : String) (now : ℕ) (sources : List SourceState)
    → initialized_of (find_source s (upsert_source s now initialize sources)) ≡ true
unfolding initialized_of find_source upsert_source
baseline_found s now [] = rw (eq_refl s) refl
baseline_found s now (x ∷ sources) = elim (Bool-cases (str_eq x.source_id s)) [
  | inl e ↦ rw (e, e) refl
  | inr e ↦ rw (e, e) (baseline_found s now sources)
]

pub baseline_kept :
    (s tag : String) (now : ℕ) (sources : List SourceState)
    → initialized_of (find_source s sources) ≡ true
    → initialized_of (
        find_source s
          (upsert_source s now (λ x. record x { latest_release_tag = some tag }) sources))
      ≡ true
unfolding initialized_of find_source upsert_source
baseline_kept s tag now [] h = absurd (cc)
baseline_kept s tag now (x ∷ sources) h = elim (Bool-cases (str_eq x.source_id s)) [
  | inl e ↦ rw (e, e) (rw e at h)
  | inr e ↦ rw (e, e) (baseline_kept s tag now sources (rw e at h))
]
