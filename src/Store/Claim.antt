-- ===== src/Store/Claim.antt =====
-- Leases of src/store/postgres/outbox.rs: claims, releases and deferrals.
pub mod Lease
use xrelease.Base.{
  ℕ, ◌+◌, ◌-◌, Bool, true, false, none, some, List, [], ◌∷◌, ltb, min, ◌&&◌, if◌then◌else◌,
}
use xrelease.World.{Action, statement}
use xrelease.Store.Tables.{OutboxRow, OutboxRecord, Tables}
use xrelease.Store.Rows.{
  i64_max, update_where, find_where, has_id, open_for_claim, claimable, lock, record_of,
}

-- The first `limit` claimable rows, locked, and what `RETURNING` gives of them.
unfoldable pub claim_rows : ℕ → ℕ → ℕ → List OutboxRow → List OutboxRow × List OutboxRecord
claim_rows now until limit [] = ([], [])
claim_rows now until limit (r ∷ rows) =
    let take = claimable r now && ltb 0 limit in
    let (rest, claimed) = claim_rows now until (if take then limit - 1 else limit) rows in
    if take then (lock until r ∷ rest, record_of r ∷ claimed) else (r ∷ rest, claimed)

unfoldable pub claim_batch : ℕ → ℕ → ℕ → Tables → Tables × List OutboxRecord
claim_batch limit lease_secs now t =
    let (rows, claimed) = claim_rows now (now + lease_secs) (min limit i64_max) t.outbox in
    (record t { outbox = rows }, claimed)

unfoldable pub claim_outbox_batch : ℕ → ℕ → Action (List OutboxRecord)
claim_outbox_batch limit lease_secs = statement (claim_batch limit lease_secs)

-- The condition of `claim_outbox_row`; it does not look at the attempts.
abbrev pub claims : ℕ → ℕ → OutboxRow → Bool
claims id now r = has_id id r && open_for_claim r now

unfoldable pub claim_row : ℕ → ℕ → ℕ → Tables → Tables × Bool
claim_row id lease_secs now t = elim (find_where (claims id now) t.outbox) [
  | none ↦ (t, false)
  | some _ ↦
      (record t { outbox = update_where (claims id now) (lock (now + lease_secs)) t.outbox }, true)
]

unfoldable pub claim_outbox_row : ℕ → ℕ → Action Bool
claim_outbox_row id lease_secs = statement (claim_row id lease_secs)

abbrev unlock : OutboxRow → OutboxRow
unlock r = record r { locked_until = none }

unfoldable pub release_outbox_lease : ℕ → Action (Unit {0})
release_outbox_lease id =
    statement (λ now t. (record t { outbox = update_where (has_id id) unlock t.outbox }, tt))

-- The lease moves out and the attempt is counted.
abbrev pub back_off : ℕ → OutboxRow → OutboxRow
back_off until r = record r { attempts = r.attempts + 1; locked_until = some until }

unfoldable pub apply_delivery_backoff : ℕ → ℕ → Action (Unit {0})
apply_delivery_backoff id backoff_secs = statement (λ now t.
    (record t { outbox = update_where (has_id id) (back_off (now + backoff_secs)) t.outbox }, tt))

-- The lease moves out, and no attempt is counted.
unfoldable pub defer_delivery : ℕ → ℕ → Action (Unit {0})
defer_delivery id backoff_secs = statement (λ now t.
    (record t { outbox = update_where (has_id id) (lock (now + backoff_secs)) t.outbox }, tt))
