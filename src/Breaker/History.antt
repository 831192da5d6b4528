-- ===== src/Breaker/History.antt =====
-- What a breaker says of the calls that it was told of, whatever their number and times.
use xrelease.Base.{
  ℕ, ◌+◌, ◌≤◌, ◌<◌, ◌≡◌, refl, Bool, true, false, none, some, List, [], ◌∷◌, arith, leb, min,
  if◌then◌else◌,
}
use xrelease.Breaker.{Breaker, u32_max, new, allows, record_outcome}

-- A call that was made: when it ended, and whether it succeeded.
pub record Outcome : Type 0 where
  pub at : ℕ
  pub success : Bool

-- The breaker after a history, the latest outcome first.
unfoldable pub after : ℕ → ℕ → List Outcome → Breaker
after threshold cooldown [] = new
after threshold cooldown (o ∷ earlier) =
    (record_outcome (after threshold cooldown earlier) o.at o.success threshold cooldown).0

-- How many failures there are since the last success.
unfoldable pub failures : List Outcome → ℕ
failures [] = 0
failures (o ∷ earlier) = let n = failures earlier in if o.success then 0 else n + 1

-- When the latest call ended.
abbrev pub latest : List Outcome → ℕ
latest [] = 0
latest (o ∷ earlier) = o.at

consecutive-after :
    (t c : ℕ) (h : List Outcome) → (after t c h).consecutive_failures ≡ min (failures h) u32_max
unfolding after failures new record_outcome
consecutive-after t c [] = refl
consecutive-after t c (o ∷ earlier) = ground (arith, consecutive-after t c earlier)

-- For a threshold that is a positive `u32`, whatever the cooldown: after any history the breaker is
-- closed exactly while fewer failures than the threshold stand since the last success; from then on
-- it is open until one cooldown after the latest failure.
pub open_until-after :
    (t c : ℕ) (h : List Outcome)
    → 0 < t
    → t ≤ u32_max
    → (after t c h).open_until ≡ (if leb t (failures h) then some (latest h + c) else none)
unfolding after failures new record_outcome
open_until-after t c [] p q = ground arith
open_until-after t c (o ∷ earlier) p q =
    ground (arith, consecutive-after t c earlier, open_until-after t c earlier)

-- With a positive cooldown, an outcome is reported as an opening exactly when the breaker let calls
-- through before it and lets none through after it, at the time of the outcome.
pub reports_opening :
    (b : Breaker) (now t c : ℕ) (success : Bool)
    → 0 < c
    → let (b', reported) = record_outcome b now success t c in
      (reported ≡ true → (allows b now ≡ true) × (allows b' now ≡ false))
      × (allows b now ≡ true → allows b' now ≡ false → reported ≡ true)
unfolding record_outcome allows
reports_opening b now t c success p = (λ r. ground arith, λ r s. ground arith)
