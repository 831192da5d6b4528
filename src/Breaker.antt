-- ===== src/Breaker.antt =====
-- src/breaker.rs: the circuit breaker that the notification sinks and the advisory lookup share.
-- An `Instant` and a `Duration` are numbers on one clock; the streak is a `u32` that saturates.
pub mod History
use xrelease.Base.{
  ℕ, suc, ◌+◌, ◌-◌, ◌^◌, Bool, true, false, not, Option, none, some, ltb, leb, min, if◌then◌else◌,
}

abbrev pub u32_max : ℕ
u32_max = 2 ^ 32 - 1

pub record Breaker : Type 0 where
  pub consecutive_failures : ℕ
  pub open_until : Option ℕ

unfoldable pub new : Breaker
new = record { consecutive_failures = 0; open_until = none }

-- Whether a call should be attempted at `now`.
unfoldable pub allows : Breaker → ℕ → Bool
allows b now = elim b.open_until [ none ↦ true | some until ↦ leb until now ]

unfoldable pub reset : Breaker → Breaker
reset b = record { consecutive_failures = 0; open_until = none }

-- `saturating_add(1)`
abbrev pub saturating_suc : ℕ → ℕ
saturating_suc n = min (n + 1) u32_max

-- `self.open_until.is_some_and(|until| now < until)`
abbrev pub already_open : Breaker → ℕ → Bool
already_open b now = elim b.open_until [ none ↦ false | some until ↦ ltb now until ]

-- Record an outcome; the flag says that this call opens the breaker, or opens it again.
unfoldable pub record_outcome : Breaker → ℕ → Bool → ℕ → ℕ → Breaker × Bool
unfolding reset
record_outcome b now success threshold cooldown =
    let streak = saturating_suc b.consecutive_failures in
    if success
    then (reset b, false)
    else if leb threshold streak
    then (
      record { consecutive_failures = streak; open_until = some (now + cooldown) },
      not (already_open b now),
    )
    else (record b { consecutive_failures = streak }, false)
