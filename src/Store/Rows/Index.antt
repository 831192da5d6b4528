-- ===== src/Store/Rows/Index.antt =====
-- The primary key of the outbox: ids ascend in the order of insertion and stay below the sequence.
use xrelease.Base.{
  ℕ, suc, ◌≤◌, ◌<◌, ◌≡◌, refl, Bool, false, none, some, List, [], ◌∷◌, arith, if◌then◌else◌,
  Bool-cases, inl, inr,
}
use xrelease.Store.Tables.{OutboxRow, Tables}
use xrelease.Store.Rows.{update_where, find_where, has_id}

-- Ids ascend from `lo` on and stay below `hi`.
abbrev pub Ascending : ℕ → List OutboxRow → ℕ → Type 0
Ascending lo [] hi = lo ≤ hi
Ascending lo (r ∷ rows) hi = (lo ≤ r.id) × Ascending (suc r.id) rows hi

abbrev pub IsIndexed : Tables → Type 0
IsIndexed t = Ascending 0 t.outbox t.next_id

pub Ascending-le : (lo : ℕ) (rows : List OutboxRow) (hi : ℕ) → Ascending lo rows hi → lo ≤ hi
Ascending-le lo [] hi h = h
Ascending-le lo (r ∷ rows) hi h = omega (arith, Ascending-le (suc r.id) rows hi h.1)

pub Ascending-update_where :
    (p : OutboxRow → Bool) (f : OutboxRow → OutboxRow) (lo : ℕ) (rows : List OutboxRow) (hi : ℕ)
    → ((r : OutboxRow) → (f r).id ≡ r.id)
    → Ascending lo rows hi
    → Ascending lo (update_where p f rows) hi
unfolding update_where
Ascending-update_where p f lo [] hi e h = h
Ascending-update_where p f lo (r ∷ rows) hi e h = elim (Bool-cases (p r)) [
  | inl t ↦ rw (t, e r) (h.0, Ascending-update_where p f (suc r.id) rows hi e h.1)
  | inr t ↦ rw t (h.0, Ascending-update_where p f (suc r.id) rows hi e h.1)
]

-- An id below the range is not found.
pub find_where-below :
    (id lo : ℕ) (rows : List OutboxRow) (hi : ℕ)
    → id < lo
    → Ascending lo rows hi
    → find_where (has_id id) rows ≡ none
unfolding find_where
find_where-below id lo [] hi b h = refl
find_where-below id lo (r ∷ rows) hi b h =
    ground (arith, find_where-below id (suc r.id) rows hi (omega arith) h.1)

-- Updates of rows with other ids leave the row of an id as it is.
pub find_where-update_other :
    (p : OutboxRow → Bool) (f : OutboxRow → OutboxRow) (id : ℕ) (rows : List OutboxRow)
    → ((r : OutboxRow) → r.id ≡ id → p r ≡ false)
    → ((r : OutboxRow) → (f r).id ≡ r.id)
    → find_where (has_id id) (update_where p f rows) ≡ find_where (has_id id) rows
unfolding find_where update_where
find_where-update_other p f id [] other e = refl
find_where-update_other p f id (r ∷ rows) other e =
    ground (arith, other r, e r, find_where-update_other p f id rows other e)

-- What an update does to the row of an id.
pub find_where-update :
    (p : OutboxRow → Bool) (f : OutboxRow → OutboxRow) (id : ℕ) (rows : List OutboxRow)
    → ((r : OutboxRow) → (f r).id ≡ r.id)
    → find_where (has_id id) (update_where p f rows)
      ≡ elim (find_where (has_id id) rows) [ none ↦ none | some r ↦ some (if p r then f r else r) ]
unfolding find_where update_where
find_where-update p f id [] e = refl
find_where-update p f id (r ∷ rows) e = ground (arith, e r, find_where-update p f id rows e)

-- The row that is found has the id.
pub find_where-id :
    (id : ℕ) (rows : List OutboxRow) {r : OutboxRow}
    → find_where (has_id id) rows ≡ some r
    → r.id ≡ id
unfolding find_where
find_where-id id [] e = ground arith
find_where-id id (x ∷ rows) {r} e = ground (arith, find_where-id id rows {r = r})
