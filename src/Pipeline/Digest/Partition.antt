-- ===== src/Pipeline/Digest/Partition.antt =====
-- The units of a wave hold its rows, and a digest is a group of at least two rows of one moment.
use mathlib.Core.List.{Perm, perm_middle}
use mathlib.Core.List.Perm
use xrelease.Base.{
  ℕ, ◌≤◌, ◌≡◌, refl, sym, ap, subst, ◌∙◌, String, true, Option, none, some, List, [], ◌∷◌, ◌++◌,
  map, All, length, All-append, All-of_map, All-map, length-append, Bool-cases, inl, inr, ◌==◌,
  ◌&&◌, arith, eq_iff,
}
use xrelease.Store.Tables.{OutboxRecord, option_eq}
use xrelease.Pipeline.Digest.{
  DeliveryUnit, single, digest, Group, push_row, place, group_wave, unit_of, partition_for_digest,
}

abbrev rows_of : DeliveryUnit → List OutboxRecord
rows_of (single row) = row ∷ []
rows_of (digest rows) = rows

abbrev pub all_rows : List DeliveryUnit → List OutboxRecord
all_rows [] = []
all_rows (u ∷ units) = rows_of u ++ all_rows units

abbrev group_rows : List Group → List OutboxRecord
group_rows [] = []
group_rows (g ∷ groups) = g.rows ++ group_rows groups

append_assoc {ℓ} : {A : Type ℓ} (xs ys zs : List A) → (xs ++ ys) ++ zs ≡ xs ++ (ys ++ zs)
append_assoc [] ys zs = refl
append_assoc (x ∷ xs) ys zs = ap (λ l. x ∷ l) (append_assoc xs ys zs)

append_nil {ℓ} : {A : Type ℓ} (xs : List A) → xs ++ [] ≡ xs
append_nil [] = refl
append_nil (x ∷ xs) = ap (λ l. x ∷ l) (append_nil xs)

all_rows-append : (us vs : List DeliveryUnit) → all_rows (us ++ vs) ≡ all_rows us ++ all_rows vs
all_rows-append [] vs = refl
all_rows-append (u ∷ us) vs =
    ap (λ l. rows_of u ++ l) (all_rows-append us vs) ∙ sym (append_assoc (rows_of u) _ _)

rows_of-unit_of : (rows : List OutboxRecord) → rows_of (unit_of rows) ≡ rows
rows_of-unit_of [] = refl
rows_of-unit_of (row ∷ []) = refl
rows_of-unit_of (row ∷ row' ∷ rows) = refl

all_rows-groups :
    (groups : List Group) → all_rows (map (λ g. unit_of g.rows) groups) ≡ group_rows groups
all_rows-groups [] = refl
all_rows-groups (g ∷ groups) = rw (rows_of-unit_of g.rows, all_rows-groups groups) refl

-- A row that is pushed is one row more.
push_row-Perm :
    (moment : ℕ) (row : OutboxRecord) (groups : List Group)
    → Perm (group_rows (push_row moment row groups)) (row ∷ group_rows groups)
unfolding push_row
push_row-Perm moment row [] = Perm.rfl
push_row-Perm moment row (g ∷ groups) =
    elim (Bool-cases (g.moment == moment && option_eq g.tag row.routing_tag)) [
      | inl e ↦ rw e (
          subst (λ l. Perm l (row ∷ g.rows ++ group_rows groups))
            (sym (append_assoc g.rows (row ∷ []) (group_rows groups))) (perm_middle g.rows _))
      | inr e ↦ rw e (
          Perm.trans (Perm.append_left g.rows (push_row-Perm moment row groups))
            (perm_middle g.rows _))
    ]

abbrev state_rows : List Group × List DeliveryUnit → List OutboxRecord
state_rows (groups, units) = all_rows units ++ group_rows groups

place-Perm :
    (at : Option ℕ) (row : OutboxRecord) (state : List Group × List DeliveryUnit)
    → Perm (state_rows (place at row state)) (row ∷ state_rows state)
place-Perm (some moment) row (groups, units) =
    Perm.trans (Perm.append_left (all_rows units) (push_row-Perm moment row groups))
      (perm_middle (all_rows units) _)
place-Perm none row (groups, units) =
    rw
      (
        all_rows-append units (single row ∷ []),
        append_assoc (all_rows units) (row ∷ []) (group_rows groups),
      )
      (perm_middle (all_rows units) _)

group_wave-Perm :
    (state : List Group × List DeliveryUnit) (wave : List OutboxRecord)
    → Perm (state_rows (group_wave state wave)) (state_rows state ++ wave)
unfolding group_wave
group_wave-Perm state [] = rw (append_nil (state_rows state)) Perm.rfl
group_wave-Perm state (row ∷ wave) =
    Perm.trans (group_wave-Perm (place row.deliver_after row state) wave) (
      Perm.trans (Perm.append_right wave (place-Perm row.deliver_after row state))
        (Perm.symm (perm_middle (state_rows state) wave)))

-- The units of a wave hold exactly the rows of the wave, each as often as the wave has it: no
-- claimed row is lost or doubled.
pub partition_for_digest-Perm :
    (wave : List OutboxRecord) → Perm (all_rows (partition_for_digest wave)) wave
unfolding partition_for_digest
partition_for_digest-Perm wave =
    let (groups, units) = group_wave ([], []) wave in
    rw (all_rows-append units (map (λ g. unit_of g.rows) groups), all_rows-groups groups)
      (group_wave-Perm ([], []) wave)

option_eq→eq : (a b : Option String) → option_eq a b ≡ true → a ≡ b
option_eq→eq none none e = refl
option_eq→eq (some a) (some b) e = ap some ((eq_iff a b).0 e)
option_eq→eq none (some b) e = absurd (cc)
option_eq→eq (some a) none e = absurd (cc)

abbrev pub IsDueWith : ℕ → Option String → OutboxRecord → Type 0
IsDueWith moment tag row = (row.deliver_after ≡ some moment) × (row.routing_tag ≡ tag)

abbrev IsGroup : Group → Type 0
IsGroup g = (1 ≤ length g.rows) × All (IsDueWith g.moment g.tag) g.rows

-- A digest has at least two rows, all due at one moment and with one routing tag.
abbrev pub IsUniform : DeliveryUnit → Type 0
IsUniform (single row) = Unit
IsUniform (digest rows) =
    (2 ≤ length rows) × ((moment : ℕ) × ((tag : Option String) × All (IsDueWith moment tag) rows))

push_row-IsGroup :
    (moment : ℕ) (row : OutboxRecord) (groups : List Group)
    → row.deliver_after ≡ some moment
    → All IsGroup groups
    → All IsGroup (push_row moment row groups)
unfolding push_row
push_row-IsGroup moment row [] e h = ((omega arith, ((e, refl), tt)), tt)
push_row-IsGroup moment row (g ∷ groups) e h =
    elim (Bool-cases (g.moment == moment && option_eq g.tag row.routing_tag)) [
      | inl b ↦
          let same_moment : g.moment ≡ moment = ground arith in
          let same_tag : option_eq g.tag row.routing_tag ≡ true = ground arith in
          let own : IsDueWith g.moment g.tag row =
            (e ∙ ap some (sym same_moment), sym (option_eq→eq g.tag row.routing_tag same_tag)) in
          rw b (
            (
              omega (arith, length-append g.rows (row ∷ []), h.0.0),
              All-append (IsDueWith g.moment g.tag) g.rows (row ∷ []) h.0.1 (own, tt),
            ),
            h.1,
          )
      | inr b ↦ rw b (h.0, push_row-IsGroup moment row groups e h.1)
    ]

place-IsGroup :
    (at : Option ℕ) (row : OutboxRecord) (state : List Group × List DeliveryUnit)
    → row.deliver_after ≡ at
    → All IsGroup state.0
    → All IsUniform state.1
    → All IsGroup (place at row state).0 × All IsUniform (place at row state).1
place-IsGroup (some moment) row (groups, units) e h k = (push_row-IsGroup moment row groups e h, k)
place-IsGroup none row (groups, units) e h k =
    (h, All-append IsUniform units (single row ∷ []) k (tt, tt))

group_wave-IsGroup :
    (state : List Group × List DeliveryUnit) (wave : List OutboxRecord)
    → All IsGroup state.0
    → All IsUniform state.1
    → All IsGroup (group_wave state wave).0 × All IsUniform (group_wave state wave).1
unfolding group_wave
group_wave-IsGroup state [] h k = (h, k)
group_wave-IsGroup state (row ∷ wave) h k =
    let placed = place-IsGroup row.deliver_after row state refl h k in
    group_wave-IsGroup (place row.deliver_after row state) wave placed.0 placed.1

unit_of-IsUniform :
    (moment : ℕ) (tag : Option String) (rows : List OutboxRecord)
    → 1 ≤ length rows
    → All (IsDueWith moment tag) rows
    → IsUniform (unit_of rows)
unit_of-IsUniform moment tag [] n h = absurd (omega (arith, n))
unit_of-IsUniform moment tag (row ∷ []) n h = tt
unit_of-IsUniform moment tag (row ∷ row' ∷ rows) n h = (omega arith, (moment, (tag, h)))

-- Every digest of a wave has at least two rows, and all its rows are deferred to the same moment and
-- have the same routing tag: rows delivered at once, and teams with other tags, are never mixed in.
pub partition_for_digest-IsUniform :
    (wave : List OutboxRecord) → All IsUniform (partition_for_digest wave)
unfolding partition_for_digest
partition_for_digest-IsUniform wave =
    let grouped = group_wave-IsGroup ([], []) wave tt tt in
    let (groups, units) = group_wave ([], []) wave in
    All-append IsUniform units (map (λ g. unit_of g.rows) groups) grouped.1 (
      All-of_map IsUniform (λ g. unit_of g.rows) groups
        (All-map (λ g h. unit_of-IsUniform g.moment g.tag g.rows h.0 h.1) groups grouped.0))
