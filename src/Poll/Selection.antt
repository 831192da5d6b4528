-- ===== src/Poll/Selection.antt =====
-- What a poll of a source with a baseline selects.
use Prim.Native.Nat.{compare, Ordering}
use mathlib.Core.List.{Perm}
use mathlib.Core.List.Perm
use xrelease.Base.{
  ℕ, ◌+◌, ◌≡◌, refl, subst, String, Bool, true, false, Option, none, some, List, [], ◌∷◌, select,
  leb, All, arith, Bool-cases, inl, inr,
}
use xrelease.World.{World, ok, query, statement, ◌>>=◌, pass_time, pure}
use xrelease.Store.Catalogue.{has_baseline, is_initialized, load_seen_index, seen_index}
use xrelease.Model.{Release, then_cmp, cmp_option}
use xrelease.Poll.{
  should_deliver_cached, is_gt, by_age, insert_by_age, sort_by_age, select_unseen, select_by,
  select_for_delivery,
}
use xrelease.Poll.Wanted.{IsUnique, is_wanted, should_deliver_cached-is_wanted}

module _ {V : Type 0} (hash : String → String → String) (version_cmp : V → V → Ordering) where
  insert-Perm :
      (r : Release V) (xs : List (Release V)) → Perm (insert_by_age hash version_cmp r xs) (r ∷ xs)
  unfolding insert_by_age
  insert-Perm r [] = Perm.rfl
  insert-Perm r (x ∷ xs) = elim (Bool-cases (is_gt (by_age hash version_cmp r x))) [
    | inl e ↦ rw (e, insert_by_age) (Perm.trans (Perm.cons x (insert-Perm r xs)) (Perm.swap r x xs))
    | inr e ↦ rw (e, insert_by_age) Perm.rfl
  ]

  sort-Perm : (xs : List (Release V)) → Perm (sort_by_age hash version_cmp xs) xs
  unfolding sort_by_age
  sort-Perm [] = Perm.rfl
  sort-Perm (x ∷ xs) =
      Perm.trans (insert-Perm x (sort_by_age hash version_cmp xs)) (Perm.cons x (sort-Perm xs))

  -- `None` is below every date.
  abbrev pub date_le : Option ℕ → Option ℕ → Bool
  date_le none b = true
  date_le (some m) none = false
  date_le (some m) (some n) = leb m n

  -- Undated releases first, then by the date of publication.
  abbrev pub IsByDate : List (Release V) → Type 0
  IsByDate [] = Unit
  IsByDate (r ∷ releases) =
      All (λ x. date_le r.published_at x.published_at ≡ true) releases × IsByDate releases

  date_le_trans : (a b c : Option ℕ) → date_le a b ≡ true → date_le b c ≡ true → date_le a c ≡ true
  date_le_trans none b c h k = refl
  date_le_trans (some m) none c h k = absurd (cc)
  date_le_trans (some m) (some n) none h k = absurd (cc)
  date_le_trans (some m) (some n) (some o) h k = ground (arith, h, k)

  then-after :
      (a b : Option ℕ) (o : Ordering)
      → is_gt (then_cmp (cmp_option compare a b) o) ≡ true
      → date_le b a ≡ true
  then-after a none o h = refl
  then-after none (some n) o h = absurd (cc)
  then-after (some m) (some n) o h = ground (arith, h)

  then-before :
      (a b : Option ℕ) (o : Ordering)
      → is_gt (then_cmp (cmp_option compare a b) o) ≡ false
      → date_le a b ≡ true
  then-before none b o h = refl
  then-before (some m) none o h = absurd (cc)
  then-before (some m) (some n) o h = ground (arith, h)

  insert-All :
      (P : Release V → Type 0) (r : Release V) (xs : List (Release V))
      → P r
      → All P xs
      → All P (insert_by_age hash version_cmp r xs)
  unfolding insert_by_age
  insert-All P r [] p h = (p, tt)
  insert-All P r (x ∷ xs) p h = elim (Bool-cases (is_gt (by_age hash version_cmp r x))) [
    | inl e ↦ rw (e, insert_by_age) (h.0, insert-All P r xs p h.1)
    | inr e ↦ rw (e, insert_by_age) (p, h)
  ]

  later-All :
      (a b : Option ℕ) (xs : List (Release V))
      → date_le a b ≡ true
      → All (λ x. date_le b x.published_at ≡ true) xs
      → All (λ x. date_le a x.published_at ≡ true) xs
  later-All a b [] k h = tt
  later-All a b (x ∷ xs) k h = (date_le_trans a b x.published_at k h.0, later-All a b xs k h.1)

  insert-IsByDate :
      (r : Release V) (xs : List (Release V))
      → IsByDate xs
      → IsByDate (insert_by_age hash version_cmp r xs)
  unfolding insert_by_age
  insert-IsByDate r [] h = (tt, tt)
  insert-IsByDate r (x ∷ xs) h = elim (Bool-cases (is_gt (by_age hash version_cmp r x))) [
    | inl e ↦
        let after = then-after r.published_at x.published_at _ e in
        rw (e, insert_by_age) (insert-All _ r xs after h.0, insert-IsByDate r xs h.1)
    | inr e ↦
        let before = then-before r.published_at x.published_at _ e in
        rw (e, insert_by_age) ((before, later-All r.published_at x.published_at xs before h.0), h)
  ]

  sort-IsByDate : (xs : List (Release V)) → IsByDate (sort_by_age hash version_cmp xs)
  unfolding sort_by_age
  sort-IsByDate [] = tt
  sort-IsByDate (x ∷ xs) = insert-IsByDate x _ (sort-IsByDate xs)

select_eq {ℓ} :
    {A : Type ℓ} (p q : A → Bool) (xs : List A) → ((x : A) → p x ≡ q x) → select p xs ≡ select q xs
select_eq p q [] h = refl
select_eq p q (x ∷ xs) h = rw (h x, select_eq p q xs h) refl

-- If the database answers, the source has a baseline and the catalogue has at most one row for a
-- release of the source, then a poll selects, each as often as the poll finds it, exactly the
-- releases that the catalogue has no row of and, unless edits are excluded, those that it has a row
-- of with other content or none noted; undated ones first, then by the date of publication.
pub select_for_delivery-Perm :
    {V : Type 0} (hash : String → String → String) (version_cmp : V → V → Ordering)
    (source_id : String) (releases : List (Release V)) (exclude_updated : Bool) (w : World)
    → ((n : ℕ) → w.env.db_fails n ≡ false)
    → has_baseline source_id w.tables ≡ true
    → IsUnique source_id w.tables.seen
    → (selected : List (Release V)) × (((select_for_delivery hash version_cmp source_id releases
            exclude_updated w).0
          ≡ ok selected)
        × Perm selected (select (is_wanted hash source_id exclude_updated w.tables.seen) releases)
        × IsByDate hash version_cmp selected)
unfolding select_for_delivery select_by select_unseen is_initialized load_seen_index query statement
    ◌>>=◌ pass_time pure
select_for_delivery-Perm {V} hash version_cmp source_id releases exclude_updated w live known
      unique =
    let rows = w.tables.seen in
    let cached = λ (r : Release V).
      should_deliver_cached hash version_cmp r exclude_updated (seen_index source_id rows) in
    let same : select cached releases
        ≡ select (is_wanted hash source_id exclude_updated rows) releases =
      select_eq cached _ releases (λ r.
        should_deliver_cached-is_wanted hash version_cmp source_id exclude_updated rows r unique) in
    (
      sort_by_age hash version_cmp (select cached releases),
      (
        rw (live w.interactions, known, live (w.interactions + 1)) refl,
        subst (λ l. Perm (sort_by_age hash version_cmp (select cached releases)) l) same
            (sort-Perm hash version_cmp _),
        sort-IsByDate hash version_cmp _,
      ),
    )
