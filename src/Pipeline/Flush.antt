-- ===== src/Pipeline/Flush.antt =====
-- `flush_notification_outbox` of src/pipeline/outbox.rs. The units of one wave are delivered
-- concurrently in the program; here they are delivered in their order, one of the interleavings.
pub mod Loop
use xrelease.Base.{
  ℕ, zero, suc, ◌+◌, ◌-◌, String, Bool, true, false, ◌&&◌, Option, none, some, List, [], ◌∷◌,
  length, is_empty, ltb, min, max, if◌then◌else◌,
}
use xrelease.World.{
  PipelineError, Result, ok, err, Action, pure, raise, ask, attempt, note, collect, when, ◌>>=◌,
  ◌>>◌,
}
use xrelease.Store.Tables.{OutboxRecord, to_event}
use xrelease.Store.Rows.{outbox_lease_secs}
use xrelease.Store.Claim.{claim_outbox_batch}
use xrelease.Pipeline.Delivery.{attempt_notification_delivery}
use xrelease.Pipeline.Digest.{DeliveryUnit, single, digest, partition_for_digest, seen_upsert_for}
use xrelease.Pipeline.Group.{deliver_claimed_outbox_digest}

-- `record_notifications(source_id, n)`
unfoldable pub record_notifications : String → ℕ → Action (Unit {0})
record_notifications source_id n =
    note (λ m. record m { notifications = List.◌∷◌ (source_id, n) m.notifications })

unfoldable pub deliver_claimed_outbox_row : OutboxRecord → Action Bool
deliver_claimed_outbox_row row =
    attempt_notification_delivery row.id row.attempts (to_event row) row.source_id
      (seen_upsert_for row)

unfoldable pub deliver_unit : DeliveryUnit → Action (List (String × Bool))
deliver_unit (single row) = do
  delivered ← deliver_claimed_outbox_row row
  pure ((row.source_id, delivered) ∷ [])
deliver_unit (digest group) = deliver_claimed_outbox_digest group

-- `sent` and `first_err`.
pub record Tally : Type 0 where
  pub sent : ℕ
  pub first_err : Option PipelineError

unfoldable pub count_delivered : Tally → List (String × Bool) → Action Tally
count_delivered tally [] = pure tally
count_delivered tally ((source_id, false) ∷ rows) = count_delivered tally rows
count_delivered tally ((source_id, true) ∷ rows) = do
  record_notifications source_id 1
  count_delivered (record tally { sent = tally.sent + 1 }) rows

abbrev keep_first : Option PipelineError → PipelineError → Option PipelineError
keep_first none e = some e
keep_first (some first) e = some first

unfoldable pub count_results : Tally → List (Result (List (String × Bool))) → Action Tally
count_results tally [] = pure tally
count_results tally (ok rows ∷ results) = do
  tally' ← count_delivered tally rows
  count_results tally' results
count_results tally (err e ∷ results) =
    count_results (record tally { first_err = keep_first tally.first_err e }) results

-- The loop's variables; `more` is false when a `break` ends it.
pub record Progress : Type 0 where
  pub claimed_total : ℕ
  pub tally : Tally
  pub more : Bool

-- The rest of one iteration, when a wave of at most `wave_limit` rows is claimed.
unfoldable pub deliver_wave : ℕ → Progress → List OutboxRecord → Action Progress
deliver_wave wave_limit p [] = pure (record p { more = false })
deliver_wave wave_limit p (row ∷ wave) = do
  results ← collect (partition_for_digest (row ∷ wave)) (λ u. attempt (deliver_unit u))
  tally ← count_results p.tally results
  pure (record {
    claimed_total = p.claimed_total + length (row ∷ wave);
    tally = tally;
    more = if ltb (length (row ∷ wave)) wave_limit then false else true;
  })

unfoldable pub flush_wave : ℕ → ℕ → Progress → Action Progress
flush_wave concurrency limit p = do
  let wave_limit = min concurrency (limit - p.claimed_total)
  wave ← claim_outbox_batch wave_limit outbox_lease_secs
  deliver_wave wave_limit p wave

-- The condition of the `while`, and no `break` so far.
abbrev pub goes_on : ℕ → Progress → Bool
goes_on limit p = p.more && ltb p.claimed_total limit

-- The `while` by fuel: one unit for each wave.
unfoldable pub flush_waves : ℕ → ℕ → ℕ → Progress → Action Progress
flush_waves zero concurrency limit p = pure p
flush_waves (suc fuel) concurrency limit p =
    if goes_on limit p
    then (do p' ← flush_wave concurrency limit p; flush_waves fuel concurrency limit p')
    else pure p

abbrev pub start : Progress
start = record { claimed_total = 0; tally = record { sent = 0; first_err = none }; more = true }

abbrev conclude_flush : Tally → Action ℕ
conclude_flush tally = elim tally.first_err [ none ↦ pure tally.sent | some e ↦ raise e ]

-- Each wave but the last claims a row, so `limit` waves are enough.
unfoldable pub flush_notification_outbox : ℕ → Action ℕ
flush_notification_outbox limit = do
  concurrency ← ask (λ w. max w.settings.outbox_flush_concurrency 1)
  p ← flush_waves limit concurrency limit start
  conclude_flush p.tally
