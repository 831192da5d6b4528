-- ===== src/World.antt =====
-- What a task of the program reads and writes: the tables, the notifier, the settings and counters
-- of `Engine` (src/engine.rs), and the environment that answers. A function that may fail is an
-- action: what it wrote before an error stays written.
pub mod Relates
pub mod Over
pub mod Ensures
use xrelease.Base.{ℕ, ◌+◌, String, Bool, not, ◌||◌, Option, List, [], ◌∷◌, ◌++◌, if◌then◌else◌}
use xrelease.Notify.Event.{Event, SinkError}
use xrelease.Notify.Composite.{CompositeNotifier}
use xrelease.Store.Tables.{Tables}

-- The environment, by the number of the interaction: whether a statement on the database fails, how
-- much time passes, what a backend answers to a call (`none`: delivered), and the event with the
-- advisories appended, if the lookup has any.
pub record Env : Type 0 where
  pub db_fails : ℕ → Bool
  pub elapsed : ℕ → ℕ
  pub reply : ℕ → ℕ → Event → Option SinkError
  pub enrich : ℕ → Event → Option Event

-- The fields of `EngineRuntime` besides the notifier.
pub record Settings : Type 0 where
  pub outbox_flush_concurrency : ℕ
  pub outbox_retry_backoff_max_secs : ℕ
  pub ops_routing_tag : Option String

pub data SinkDeliveryResult : Type 0 where
  delivered_ok delivery_error breaker_skip : SinkDeliveryResult

pub data PollOutcome : Type 0 where
  delivered no_op not_modified poll_error : PollOutcome

-- The counters of src/metrics.rs that these paths move; the labelled ones as a log.
pub record Metrics : Type 0 where
  pub outbox_enqueued : ℕ
  pub outbox_delivery_failures : ℕ
  pub outbox_dead_lettered : ℕ
  pub sink_deliveries : List (String × String × SinkDeliveryResult)
  pub notifications : List (String × ℕ)
  pub polls : List (String × PollOutcome)
  pub poll_errors : List String

-- A call of a backend: the index of its sink, and the event.
pub record Call : Type 0 where
  pub index : ℕ
  pub event : Event

-- `interactions` numbers what was asked of the environment; `calls` logs the calls of backends.
pub record World : Type 0 where
  pub env : Env
  pub interactions : ℕ
  pub now : ℕ
  pub tables : Tables
  pub notifier : CompositeNotifier
  pub settings : Settings
  pub metrics : Metrics
  pub calls : List Call

-- `PipelineError`, by where it comes from.
pub data PipelineError : Type 0 where
  source_error store_error notify_error other_error : PipelineError

pub data Result {ℓ} (A : Type ℓ) : Type ℓ where
  ok : A → Result A
  err : PipelineError → Result A

abbrev pub Action : Type 0 → Type 0
Action A = World → Result A × World

module _ {A : Type 0} where
  unfoldable pub pure : A → Action A
  pure a w = (ok a, w)

  unfoldable pub raise : PipelineError → Action A
  raise e w = (err e, w)

  -- Read the world.
  unfoldable pub ask : (World → A) → Action A
  ask f w = (ok (f w), w)

module _ {A B : Type 0} where
  abbrev pub proceed : Result A × World → (A → Action B) → Result B × World
  proceed (ok a, w) f = f a w
  proceed (err e, w) f = (err e, w)

  infixl 10 ◌>>=◌ ◌>>◌
  unfoldable pub ◌>>=◌ : Action A → (A → Action B) → Action B
  ◌>>=◌ m f w = proceed (m w) f

  abbrev pub ◌>>◌ : Action A → Action B → Action B
  m >> n = m >>= λ _. n

-- One more interaction, after which the clock has gone on.
unfoldable pub pass_time : World → World
pass_time w = record w {
  interactions = w.interactions + 1;
  now = w.now + w.env.elapsed w.interactions;
}

module _ {A : Type 0} where
  abbrev pub settle : Bool → World → Tables × A → Result A × World
  settle fails w (t, a) = if fails then (err store_error, w) else (ok a, record w { tables = t })

  -- A statement or a transaction: it takes effect whole, at the database's clock, or it fails.
  unfoldable pub statement : (ℕ → Tables → Tables × A) → Action A
  statement f w = let v = pass_time w in settle (w.env.db_fails w.interactions) v (f v.now v.tables)

  -- A statement that a constraint of the tables may refuse as well.
  unfoldable pub constrained : (Tables → Bool) → (ℕ → Tables → Tables × A) → Action A
  constrained holds f w =
      let v = pass_time w in
      settle (w.env.db_fails w.interactions || not (holds v.tables)) v (f v.now v.tables)

  -- A read.
  unfoldable pub query : (ℕ → Tables → A) → Action A
  unfolding statement
  query f = statement (λ now t. (t, f now t))

  -- `if let Err(err) = … { warn!(…) }`: the error is logged and dropped.
  unfoldable pub best_effort : Action A → Action (Unit {0})
  best_effort m w = let (r, w') = m w in (ok tt, w')

-- A task whose error is kept as its value, as `join_all` keeps it.
unfoldable pub attempt : {A : Type 0} → Action A → Action (Result A)
attempt m w = let (r, w') = m w in (ok r, w')

unfoldable pub modify : (World → World) → Action (Unit {0})
modify f w = (ok tt, f w)

abbrev pub note : (Metrics → Metrics) → Action (Unit {0})
note f = modify (λ w. record w { metrics = f w.metrics })

-- `for x in xs { body }`
unfoldable pub for_each {ℓ} : {A : Type ℓ} → List A → (A → Action (Unit {0})) → Action (Unit {0})
for_each [] body = pure tt
for_each (x ∷ xs) body = body x >> for_each xs body

-- A loop that collects what its body returns.
unfoldable pub collect {ℓ} : {A : Type ℓ} {B : Type 0} → List A → (A → Action B) → Action (List B)
collect [] body = pure []
collect (x ∷ xs) body = do y ← body x; ys ← collect xs body; pure (y ∷ ys)

unfoldable pub when : Bool → Action (Unit {0}) → Action (Unit {0})
when b m = if b then m else pure tt
