-- ===== src/Pipeline/Attempt.antt =====
-- `DeliveryAttempt` and the retry backoff of src/pipeline/outbox.rs.
use xrelease.Base.{ℕ, ◌+◌, ◌-◌, ◌*◌, ◌^◌, Bool, true, false, min, if◌then◌else◌}
use xrelease.World.{Action, ask, best_effort, ◌>>=◌}
use xrelease.Store.Claim.{apply_delivery_backoff, defer_delivery}

pub record DeliveryAttempt : Type 0 where
  pub delivered : Bool
  pub deferred_only : Bool

abbrev pub delivered_attempt : DeliveryAttempt
delivered_attempt = record { delivered = true; deferred_only = false }

abbrev pub failed_attempt : DeliveryAttempt
failed_attempt = record { delivered = false; deferred_only = false }

abbrev pub deferred_attempt : DeliveryAttempt
deferred_attempt = record { delivered = false; deferred_only = true }

-- Seconds until the next claim, for the attempt count after the failure. The doubles of the source
-- are exact here, and a count below 1 is as good as 1.
unfoldable pub backoff_secs : ℕ → ℕ → ℕ
backoff_secs attempts max_secs = min (60 * 2 ^ min (attempts - 1) 16) max_secs

unfoldable pub apply_attempt_backoff : ℕ → ℕ → DeliveryAttempt → Action (Unit {0})
apply_attempt_backoff id attempts_before attempt = do
  max_secs ← ask (λ w. w.settings.outbox_retry_backoff_max_secs)
  let backoff = backoff_secs (attempts_before + 1) max_secs
  best_effort (
      if attempt.deferred_only
      then defer_delivery id backoff
      else apply_delivery_backoff id backoff)
