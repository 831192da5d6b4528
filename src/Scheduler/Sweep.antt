-- ===== src/Scheduler/Sweep.antt =====
-- What the dead-letter sweep of src/scheduler.rs establishes, and the pauses of a watch.
use xrelease.Base.{
  ℕ, suc, ◌*◌, ◌^◌, ◌≡◌, refl, Bool, true, false, List, [], ◌∷◌, All, arith, min, ltb,
}
use xrelease.World.{World, Result, ok, err, ◌>>=◌, statement, attempt, pass_time}
use xrelease.World.Relates.{Relates, Relates-pure, Relates-if, Relates-bind}
use xrelease.World.Over.{IsOrder, Over, Over-span, Over-modify}
use xrelease.Engine.Quiet.{emit_ops_alert-Over}
use xrelease.Store.Tables.{Tables}
use xrelease.Store.Parent.{finalize_tables, finalize_exhausted_outbox}
use xrelease.Store.Parent.Recovery.{IsReachable, finalize-IsReachable}
use xrelease.Pipeline.Alerts.{note_dead_lettered}
use xrelease.Scheduler.{
  report_sweep, reconcile_exhausted_outbox, initial_backoff, max_backoff, next_backoff,
}

abbrev Keeps : Tables → Tables → Type 0
Keeps t u = All IsReachable t.outbox → All IsReachable u.outbox

order : IsOrder Keeps
order = record { same = λ t h. h; then_ = λ t u v f g h. g (f h) }

report_sweep-Over : (result : Result ℕ) → Relates (Over Keeps) (report_sweep result)
unfolding report_sweep note_dead_lettered
report_sweep-Over (ok marked) =
    Relates-if (Over-span order) (ltb 0 marked) _ _
      (Relates-bind (Over-span order) _ _ (Over-modify order _ (λ w. refl))
        (λ _. emit_ops_alert-Over order _ _))
      (Relates-pure (Over-span order) tt)
report_sweep-Over (err e) = Relates-pure (Over-span order) tt

-- If the statement of the sweep does not fail, then after the sweep, its alert included, no row of
-- the outbox is stranded: every row that still wants delivery can be claimed as soon as its lease
-- has run out and its moment has come.
pub reconcile_exhausted_outbox-IsReachable :
    (w : World)
    → w.env.db_fails w.interactions ≡ false
    → All IsReachable (reconcile_exhausted_outbox w).1.tables.outbox
unfolding reconcile_exhausted_outbox finalize_exhausted_outbox ◌>>=◌ attempt statement pass_time
reconcile_exhausted_outbox-IsReachable w live =
    let v = pass_time w in
    rw live (
      (report_sweep-Over (ok (finalize_tables v.now v.tables).1)).at
        (record v { tables = (finalize_tables v.now v.tables).0 })
        (finalize-IsReachable v.tables v.now))

-- The pause after the polls so far, the latest first.
abbrev pub pause_after : List Bool → ℕ
pause_after [] = initial_backoff
pause_after (succeeds ∷ polls) = next_backoff succeeds (pause_after polls)

-- How many polls have failed since the last that succeeded.
abbrev pub failures : List Bool → ℕ
failures [] = 0
failures (true ∷ polls) = 0
failures (false ∷ polls) = suc (failures polls)

pow_suc : (n : ℕ) → 2 ^ suc n ≡ 2 ^ n * 2
pow_suc n = omega arith

-- The pause that a failed poll of a watch would be followed by doubles from 5 seconds with each
-- failure since the last success, and never exceeds 300 seconds.
pub next_backoff-failures :
    (polls : List Bool) → pause_after polls ≡ min (5 * 2 ^ failures polls) max_backoff
unfolding next_backoff
next_backoff-failures [] = omega arith
next_backoff-failures (true ∷ polls) = omega arith
next_backoff-failures (false ∷ polls) =
    omega (arith, next_backoff-failures polls, pow_suc (failures polls))
