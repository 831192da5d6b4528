-- ===== src/Scheduler.antt =====
-- src/scheduler.rs: the background work on the outbox, and the pause after a failed poll.
pub mod Sweep
use Prim.Native.String.{◌++◌}
use xrelease.Base.{ℕ, zero, suc, ◌*◌, String, Bool, ltb, min, if◌then◌else◌}
use xrelease.Text.{decimal}
use xrelease.World.{Result, ok, err, Action, pure, attempt, best_effort, ◌>>=◌, ◌>>◌}
use xrelease.Store.Rows.{outbox_max_attempts}
use xrelease.Store.Parent.{finalize_exhausted_outbox}
use xrelease.Engine.{emit_ops_alert}
use xrelease.Pipeline.Alerts.{note_dead_lettered}
use xrelease.Pipeline.Flush.{flush_notification_outbox}

sweep_body : ℕ → String
sweep_body marked =
    decimal marked
    ++ " notification outbox row(s) were marked dead after exhausting delivery retries (max_attempts="
    ++ decimal outbox_max_attempts
    ++ ")."

-- The sweep's error is logged and dropped.
unfoldable pub report_sweep : Result ℕ → Action (Unit {0})
unfolding sweep_body
report_sweep (ok marked) =
    if ltb 0 marked
    then (do
      note_dead_lettered marked
      emit_ops_alert "Outbox dead-letter sweep" (sweep_body marked))
    else pure tt
report_sweep (err e) = pure tt

unfoldable pub reconcile_exhausted_outbox : Action (Unit {0})
reconcile_exhausted_outbox = do result ← attempt finalize_exhausted_outbox; report_sweep result

-- Once, before the loops start.
unfoldable pub startup_outbox_recovery : Action (Unit {0})
startup_outbox_recovery = do reconcile_exhausted_outbox; best_effort (flush_notification_outbox 50)

-- One turn of `spawn_outbox_flush`, without the sleep.
unfoldable pub flush_cycle : Action (Unit {0})
flush_cycle = do best_effort (flush_notification_outbox 50); reconcile_exhausted_outbox

-- `INITIAL_BACKOFF` and `MAX_BACKOFF` of `watch_loop`, in seconds.
abbrev pub initial_backoff : ℕ
initial_backoff = 5

abbrev pub max_backoff : ℕ
max_backoff = 300

-- The pause of the next failed poll, by whether this poll succeeds.
unfoldable pub next_backoff : Bool → ℕ → ℕ
next_backoff succeeds backoff = if succeeds then initial_backoff else min (backoff * 2) max_backoff
