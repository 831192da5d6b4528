-- ===== src/Pipeline/Flush/Loop.antt =====
-- The loop of `flush_notification_outbox` claims no more rows than it is asked for, and ends.
use xrelease.Base.{
  ℕ, zero, suc, ◌+◌, ◌-◌, ◌≤◌, ◌<◌, ◌≡◌, true, false, List, [], ◌∷◌, length, min, arith,
}
use xrelease.World.{World, ok, Action, pass_time}
use xrelease.World.Ensures.{
  Ensures, Ensures-pure, Ensures-if, Ensures-statement, Ensures-any, Ensures-bind,
}
use xrelease.Store.Tables.{OutboxRow, OutboxRecord}
use xrelease.Store.Rows.{outbox_lease_secs, i64_max}
use xrelease.Store.Claim.{claim_rows, claim_batch, claim_outbox_batch}
use xrelease.Pipeline.Flush.{Progress, deliver_wave, flush_wave, goes_on, flush_waves, start}

length-claim_rows :
    (now until limit : ℕ) (rows : List OutboxRow)
    → length (claim_rows now until limit rows).1 ≤ limit
unfolding claim_rows
length-claim_rows now until limit [] = omega arith
length-claim_rows now until limit (r ∷ rows) =
    ground
      (arith, length-claim_rows now until (limit - 1) rows, length-claim_rows now until limit rows)

claimed-le :
    {P : World → Type 0} (limit lease : ℕ)
    → Ensures P (claim_outbox_batch limit lease) (λ wave _. length wave ≤ limit)
unfolding claim_outbox_batch claim_batch
claimed-le limit lease = Ensures-statement _ (λ w p.
    let v = pass_time w in
    omega (arith, length-claim_rows v.now (v.now + lease) (min limit i64_max) v.tables.outbox))

-- A precondition that is not about the world.
Ensures-fact :
    {A : Type 0} {F : Type 0} {m : Action A} {Q : A → World → Type 0}
    → (F → Ensures (λ _. Unit {0}) m Q)
    → Ensures (λ _. F) m Q
Ensures-fact h = record { at = λ w a f e. (h f).at w a tt e }

-- One iteration: within the limit, and a row further if the loop goes on.
abbrev Advances : ℕ → Progress → Progress → World → Type 0
Advances limit p p' w =
    (p'.claimed_total ≤ limit) × (goes_on limit p' ≡ true → p.claimed_total < p'.claimed_total)

module _ (concurrency limit : ℕ) where
  wave-Advances :
      (wave_limit : ℕ) (p : Progress) (wave : List OutboxRecord)
      → p.claimed_total + wave_limit ≤ limit
      → Ensures (λ _. length wave ≤ wave_limit) (deliver_wave wave_limit p wave) (Advances limit p)
  unfolding deliver_wave
  wave-Advances wave_limit p [] h = Ensures-pure _ (λ w l. (omega (arith, h), λ e. absurd (cc)))
  wave-Advances wave_limit p (row ∷ wave) h = Ensures-fact (λ l.
      Ensures-bind _ _ (Ensures-any _) (λ results.
        Ensures-bind _ _ (Ensures-any _)
          (λ tally. Ensures-pure _ (λ w t. (omega (arith, h, l), λ e. omega arith)))))

  flush_wave-Advances :
      {P : World → Type 0} (p : Progress)
      → p.claimed_total ≤ limit
      → Ensures P (flush_wave concurrency limit p) (Advances limit p)
  unfolding flush_wave
  flush_wave-Advances p h =
      let wave_limit = min concurrency (limit - p.claimed_total) in
      Ensures-bind _ _ (claimed-le wave_limit outbox_lease_secs)
        (λ wave. wave-Advances wave_limit p wave (omega (arith, h)))

  abbrev Ended : Progress → World → Type 0
  Ended p w = (p.claimed_total ≤ limit) × (goes_on limit p ≡ false)

  flush_waves-Ended :
      {P : World → Type 0} (fuel : ℕ) (p : Progress)
      → p.claimed_total ≤ limit
      → (goes_on limit p ≡ true → limit ≤ p.claimed_total + fuel)
      → Ensures P (flush_waves fuel concurrency limit p) Ended
  unfolding flush_waves
  flush_waves-Ended zero p h enough = Ensures-pure p (λ w t. (h, ground (arith, enough)))
  flush_waves-Ended (suc fuel) p h enough =
      Ensures-if (goes_on limit p) _ _
        (λ e. Ensures-bind _ _ (flush_wave-Advances p h) (λ p'.
          Ensures-fact (λ a. flush_waves-Ended fuel p' a.0 (λ g. omega (arith, a.1 g, enough e)))))
        (λ e. Ensures-pure p (λ w t. (h, e)))

-- When the loop of a flush that is asked for `limit` rows returns without an error, it has claimed
-- at most `limit` rows in all its waves, and a `break` or its condition has ended it: the fuel, one
-- wave for each row of the limit, is never what ends it.
pub flush_waves-Ended_lem :
    (concurrency limit : ℕ) (w : World) (p : Progress)
    → (flush_waves limit concurrency limit start w).0 ≡ ok p
    → (p.claimed_total ≤ limit) × (goes_on limit p ≡ false)
flush_waves-Ended_lem concurrency limit w p e =
    (flush_waves-Ended concurrency limit {P = λ _. Unit} limit start (omega arith)
        (λ g. omega arith)).at
      w p tt e
