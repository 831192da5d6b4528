-- ===== src/Poll/Wanted.antt =====
-- What a team is to hear of, said of the catalogue's rows and without the index that the program
-- builds of them: releases that are not there, and releases that are there with other content.
use Prim.Native.Nat.{Ordering}
use xrelease.Base.{
  ◌≡◌, ◌≤◌, refl, String, Bool, true, false, not, ◌&&◌, ◌||◌, some, List, [], ◌∷◌, any, count_if,
  str_eq, Bool-cases, inl, inr, arith, if◌then◌else◌,
}
use xrelease.Store.Tables.{SeenRow, option_eq}
use xrelease.Store.Catalogue.{seen_index}
use xrelease.Model.{Release, content_fingerprint}
use xrelease.Poll.{find_digest, should_deliver_cached, is_changed}

abbrev pub is_row_of : String → String → SeenRow → Bool
is_row_of source_id identity row = str_eq row.source_id source_id && str_eq row.identity identity

-- At most one row of the catalogue for a release of the source: the table's primary key.
abbrev pub IsUnique : String → List SeenRow → Type 0
IsUnique source_id rows = (identity : String) → count_if (is_row_of source_id identity) rows ≤ 1

-- Whether a row of the release has the digest.
abbrev has_content : String → SeenRow → Bool
has_content digest row = option_eq row.content_digest (some digest)

-- A release is wanted if the catalogue has no row of it, or, with edits not excluded, no row of it
-- with its content.
unfoldable pub is_wanted :
    {V : Type 0} → (String → String → String) → String → Bool → List SeenRow → Release V → Bool
is_wanted hash source_id exclude_updated rows r =
    not (any (is_row_of source_id r.id) rows)
    || (not exclude_updated
        && not (
            any
              (λ row. is_row_of source_id r.id row && has_content (content_fingerprint hash r) row)
              rows))

count-none :
    (p : SeenRow → Bool) (q : SeenRow → Bool) (rows : List SeenRow)
    → count_if p rows ≤ 0
    → any (λ row. p row && q row) rows ≡ false
count-none p q [] h = refl
count-none p q (row ∷ rows) h = ground (arith, count-none p q rows)

decided :
    (exclude_updated same other : Bool)
    → other ≡ false
    → (if exclude_updated then false else not same)
      ≡ (not true || (not exclude_updated && not (same || other)))
decided true same other e = refl
decided false true other e = refl
decided false false other e = rw e refl

index_lem :
    (source_id id digest : String) (exclude_updated : Bool) (rows : List SeenRow)
    → count_if (is_row_of source_id id) rows ≤ 1
    → is_changed digest exclude_updated (find_digest id (seen_index source_id rows)) ≡ (
        not (any (is_row_of source_id id) rows)
        || (not exclude_updated
            && not (any (λ row. is_row_of source_id id row && has_content digest row) rows)))
unfolding find_digest seen_index
index_lem source_id id digest excl [] h = refl
index_lem source_id id digest excl (row ∷ rows) h =
    let mine = Bool-cases (str_eq row.identity id) in
    elim (Bool-cases (str_eq row.source_id source_id)) [
      | inr e ↦
          let fewer : count_if (is_row_of source_id id) rows ≤ 1 = rw e at h in
          rw e (index_lem source_id id digest excl rows fewer)
      | inl e ↦ elim mine [
        | inl k ↦
            let alone : count_if (is_row_of source_id id) rows ≤ 0 = ground (arith, h, e, k) in
            rw (e, k)
              (decided excl (has_content digest row) _
                (count-none (is_row_of source_id id) (has_content digest) rows alone))
        | inr k ↦
            let fewer : count_if (is_row_of source_id id) rows ≤ 1 = rw (e, k) at h in
            rw (e, k) (index_lem source_id id digest excl rows fewer)
      ]
    ]

-- The program's test, on its index, decides whether a release is wanted.
pub should_deliver_cached-is_wanted :
    {V : Type 0} (hash : String → String → String) (version_cmp : V → V → Ordering)
    (source_id : String) (exclude_updated : Bool) (rows : List SeenRow) (r : Release V)
    → IsUnique source_id rows
    → should_deliver_cached hash version_cmp r exclude_updated (seen_index source_id rows)
      ≡ is_wanted hash source_id exclude_updated rows r
unfolding should_deliver_cached is_wanted
should_deliver_cached-is_wanted hash version_cmp source_id exclude_updated rows r unique =
    index_lem source_id r.id (content_fingerprint hash r) exclude_updated rows (unique r.id)
