-- ===== src/Scenarios/Outbox.antt =====
-- The outbox of the installation, by src/store/postgres/outbox.rs and src/scheduler.rs.
use mathlib.Core.List.{Perm}
use xrelease.Base.{
  ℕ, ◌≡◌, refl, true, false, List, [], ◌∷◌, arith, All, contains, take, select, map,
}
use xrelease.Scheduler.{reconcile_exhausted_outbox}
use xrelease.Scheduler.Sweep.{reconcile_exhausted_outbox-IsReachable}
use xrelease.Store.Tables.{OutboxRecord}
use xrelease.Store.Rows.{find_where, has_id, record_of, claimable}
use xrelease.Store.Rows.Index.{IsIndexed}
use xrelease.Store.Claim.{claim_rows, claim_batch}
use xrelease.Store.Claim.Lease.{claimed_ids, claim_batch-exclusive, claim_batch_lem}
use xrelease.Store.Enqueue.{try_enqueue_notification}
use xrelease.Store.Enqueue.Keys.{IsKeyed, try_enqueue_notification-IsKeyed}
use xrelease.Store.Parent.{requeue_tables}
use xrelease.Store.Parent.Recovery.{IsReachable, Pairs, IsRevived, requeue-IsRevived}
use xrelease.Pipeline.Digest.{partition_for_digest}
use xrelease.Pipeline.Digest.Partition.{
  all_rows, IsUniform, partition_for_digest-Perm, partition_for_digest-IsUniform,
}
use xrelease.Scenarios.Installation.{
  event, at_noon, row, late_row, tables, world, lost, one_row, one_row-IsKeyed,
}

tables-IsIndexed : IsIndexed tables
tables-IsIndexed = (omega arith, (omega arith, omega arith))

first_claimed : contains (claimed_ids (claim_batch 2 300 20 tables).1) 0 ≡ true
unfolding claim_batch claim_rows record_of
first_claimed = refl

exclusive_example :
    contains (claimed_ids (claim_batch 5 300 100 (claim_batch 2 300 20 tables).0).1) 0 ≡ false
exclusive_example =
    claim_batch-exclusive tables 20 100 300 300 2 5 0 tables-IsIndexed (omega arith) first_claimed

claim_example :
    let (t', claimed) = claim_batch 1 300 20 tables in
    (claimed ≡ map record_of (take 1 (select (λ r. claimable r 20) tables.outbox)))
    × ((id : ℕ)
        → contains (claimed_ids claimed) id ≡ false
        → find_where (has_id id) t'.outbox ≡ find_where (has_id id) tables.outbox)
claim_example = claim_batch_lem tables 20 300 1 tables-IsIndexed (omega arith)

IsKeyed-example :
    IsKeyed (try_enqueue_notification event "v1.53.0" at_noon (world one_row)).1.tables
IsKeyed-example =
    try_enqueue_notification-IsKeyed event "v1.53.0" at_noon (world one_row) one_row-IsKeyed

abbrev wave : List OutboxRecord
wave = record_of row ∷ record_of late_row ∷ record_of (record late_row { id = 2 }) ∷ []

Perm-example : Perm (all_rows (partition_for_digest wave)) wave
Perm-example = partition_for_digest-Perm wave

IsUniform-example : All IsUniform (partition_for_digest wave)
IsUniform-example = partition_for_digest-IsUniform wave

IsRevived-example : Pairs IsRevived lost.outbox (requeue_tables 20 lost).0.outbox
IsRevived-example = requeue-IsRevived lost 20

swept-example : All IsReachable (reconcile_exhausted_outbox (world lost)).1.tables.outbox
swept-example = reconcile_exhausted_outbox-IsReachable (world lost) refl
