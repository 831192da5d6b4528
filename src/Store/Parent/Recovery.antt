-- ===== src/Store/Parent/Recovery.antt =====
-- The sweep of exhausted rows and the requeue of dead ones: no notification is lost in between.
use xrelease.Base.{
  ℕ, ◌≡◌, refl, true, false, not, List, [], ◌∷◌, arith, if◌then◌else◌, All, ◌⊎◌, inl, inr,
  Bool-cases,
}
use xrelease.Store.Tables.{is_retryable, is_sent, is_dead, SinkRow, OutboxRow, Tables}
use xrelease.Store.Rows.{
  update_where, update_sinks, lease_free, due, claimable, needs_delivery, reset_sink, requeue_row,
}
use xrelease.Store.Parent.{finalize_tables, requeue_tables, is_exhausted}

-- Nothing but its lease and its schedule keeps the row from a claim, if it still wants delivery.
abbrev pub IsReachable : OutboxRow → Type 0
IsReachable r =
    (later : ℕ)
    → is_retryable r.status ≡ true
    → lease_free r.locked_until later ≡ true
    → due r.deliver_after later ≡ true
    → claimable r later ≡ true

swept-IsReachable :
    (rows : List OutboxRow)
    → (f : OutboxRow → OutboxRow) → ((r : OutboxRow) → is_dead (f r).status ≡ true)
    → All IsReachable (update_where is_exhausted f rows)
unfolding update_where
swept-IsReachable [] f d = tt
swept-IsReachable (r ∷ rows) f d = (λ later p q s. ground (arith, d r), swept-IsReachable rows f d)

-- After the sweep no row is stranded: every row that still wants delivery is claimable as soon as
-- its lease has run out and its moment has come.
pub finalize-IsReachable : (t : Tables) (now : ℕ) → All IsReachable (finalize_tables now t).0.outbox
unfolding finalize_tables
finalize-IsReachable t now = swept-IsReachable t.outbox _ (λ r. refl)

sinks_requeued :
    (sinks : List SinkRow)
    → All
        (λ (s : SinkRow). (is_sent s.status ≡ true) ⊎ (needs_delivery s ≡ true))
        (update_sinks (λ s. not (is_sent s.status)) reset_sink sinks)
unfolding update_sinks
sinks_requeued [] = tt
sinks_requeued (s ∷ sinks) = (ground arith, sinks_requeued sinks)

-- What a requeue owes a row: it is not dead, and where it was, it can be claimed once its moment has
-- come, and each of its sinks has the event or is to get it.
abbrev pub IsRevived : OutboxRow → OutboxRow → Type 0
IsRevived before after =
    (is_dead after.status ≡ false)
    × (is_dead before.status ≡ false → after ≡ before)
    × (is_dead before.status ≡ true
        → ((later : ℕ) → due after.deliver_after later ≡ true → claimable after later ≡ true)
          × All (λ (s : SinkRow). (is_sent s.status ≡ true) ⊎ (needs_delivery s ≡ true))
              after.sinks)

-- Two lists of rows, one by one.
abbrev pub Pairs : (OutboxRow → OutboxRow → Type 0) → List OutboxRow → List OutboxRow → Type 0
Pairs R [] [] = Unit
Pairs R (r ∷ rs) (s ∷ ss) = R r s × Pairs R rs ss
Pairs R _ _ = ⊥

requeue_row-IsRevived :
    (r : OutboxRow) → IsRevived r (if is_dead r.status then requeue_row r else r)
requeue_row-IsRevived r = elim (Bool-cases (is_dead r.status)) [
  | inl d ↦ rw d (refl, λ p. cc, λ p. (λ later q. ground arith, sinks_requeued r.sinks))
  | inr d ↦ rw d (d, λ p. refl, λ p. cc)
]

rows-IsRevived :
    (rows : List OutboxRow)
    → Pairs IsRevived rows (update_where (λ r. is_dead r.status) requeue_row rows)
unfolding update_where
rows-IsRevived [] = tt
rows-IsRevived (r ∷ rows) = (requeue_row-IsRevived r, rows-IsRevived rows)

-- After a requeue no row is dead. A row that was not dead is as it was. A row that was dead can be
-- claimed once its moment has come, and each of its sinks has the event or is to get it.
pub requeue-IsRevived :
    (t : Tables) (now : ℕ) → Pairs IsRevived t.outbox (requeue_tables now t).0.outbox
unfolding requeue_tables
requeue-IsRevived t now = rows-IsRevived t.outbox
