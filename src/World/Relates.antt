-- ===== src/World/Relates.antt =====
-- What holds between the worlds before and after an action, whether it returns or fails: one rule
-- for each way to build an action, for a relation that is reflexive and transitive.
use xrelease.Base.{ℕ, Bool, true, false, List, [], ◌∷◌, if◌then◌else◌}
use xrelease.Store.Tables.{Tables}
use xrelease.World.{
  World, Result, ok, err, PipelineError, Action, pure, raise, ask, proceed, ◌>>=◌, pass_time,
  settle, statement, constrained, query, best_effort, attempt, modify, for_each, collect, when,
}

-- A relation between the worlds before and after that does not see the clock.
pub record IsSpan (R : World → World → Type 0) : Type 0 where
  pub same : (w : World) → R w w
  pub then_ : (u v w : World) → R u v → R v w → R u w
  pub time : (w : World) → R w (pass_time w)

pub record Relates (R : World → World → Type 0) {A : Type 0} (m : Action A) : Type 0 where
  pub at : (w : World) → R w (m w).1

pub Relates-weaken :
    {R S : World → World → Type 0} {A : Type 0} (m : Action A)
    → ((w v : World) → R w v → S w v)
    → Relates R m
    → Relates S m
Relates-weaken m f h = record { at = λ w. f w (m w).1 (h.at w) }

module _ {R : World → World → Type 0} (span : IsSpan R) where
  module _ {A : Type 0} where
    pub Relates-pure : (a : A) → Relates R (pure a)
    unfolding pure
    Relates-pure a = record { at = λ w. span.same w }

    pub Relates-raise : (e : PipelineError) → Relates R (raise {A = A} e)
    unfolding raise
    Relates-raise e = record { at = λ w. span.same w }

    pub Relates-ask : (f : World → A) → Relates R (ask f)
    unfolding ask
    Relates-ask f = record { at = λ w. span.same w }

    pub Relates-if :
        (b : Bool) (m n : Action A) → Relates R m → Relates R n → Relates R (if b then m else n)
    Relates-if true m n hm hn = hm
    Relates-if false m n hm hn = hn

    pub Relates-best_effort : (m : Action A) → Relates R m → Relates R (best_effort m)
    unfolding best_effort
    Relates-best_effort m h = record { at = λ w. h.at w }

    settled :
        (w : World) (fails : Bool) (x : Tables × A)
        → R (pass_time w) (record (pass_time w) { tables = x.0 })
        → R w (settle fails (pass_time w) x).1
    settled w true (t, a) h = span.time w
    settled w false (t, a) h =
        span.then_ w (pass_time w) (record (pass_time w) { tables = t }) (span.time w) h

    -- A statement that may fail is related if its effect is.
    pub Relates-statement :
        (f : ℕ → Tables → Tables × A)
        → ((w : World) → R w (record w { tables = (f w.now w.tables).0 }))
        → Relates R (statement f)
    unfolding statement
    Relates-statement f h = record {
      at = λ w.
          settled w (w.env.db_fails w.interactions) (f (pass_time w).now (pass_time w).tables)
            (h (pass_time w));
    }

    pub Relates-constrained :
        (holds : Tables → Bool) (f : ℕ → Tables → Tables × A)
        → ((w : World) → R w (record w { tables = (f w.now w.tables).0 }))
        → Relates R (constrained holds f)
    unfolding constrained
    Relates-constrained holds f h = record {
      at = λ w. settled w _ (f (pass_time w).now (pass_time w).tables) (h (pass_time w));
    }

    pub Relates-query : (f : ℕ → Tables → A) → Relates R (query f)
    unfolding query
    Relates-query f = Relates-statement (λ now t. (t, f now t)) (λ w. span.same w)

  module _ {A B : Type 0} where
    pub Relates-bind :
        (m : Action A) (f : A → Action B)
        → Relates R m
        → ((a : A) → Relates R (f a))
        → Relates R (m >>= f)
    unfolding ◌>>=◌
    Relates-bind m f hm hf = record { at = λ w. go w (m w) (hm.at w) }
      where
        go : (w : World) (x : Result A × World) → R w x.1 → R w (proceed x f).1
        go w (ok a, v) h = span.then_ w v _ h ((hf a).at v)
        go w (err e, v) h = h

  -- A fallible action whose error is kept.
  pub Relates-attempt : {A : Type 0} (m : Action A) → Relates R m → Relates R (attempt m)
  unfolding attempt
  Relates-attempt m h = record { at = λ w. h.at w }

  pub Relates-modify : (f : World → World) → ((w : World) → R w (f w)) → Relates R (modify f)
  unfolding modify
  Relates-modify f h = record { at = h }

  pub Relates-when : (b : Bool) (m : Action (Unit {0})) → Relates R m → Relates R (when b m)
  unfolding when
  Relates-when true m h = h
  Relates-when false m h = Relates-pure tt

  pub Relates-for_each {ℓ} :
      {A : Type ℓ} (xs : List A) (body : A → Action (Unit {0}))
      → ((x : A) → Relates R (body x))
      → Relates R (for_each xs body)
  unfolding for_each
  Relates-for_each [] body h = Relates-pure tt
  Relates-for_each (x ∷ xs) body h =
      Relates-bind (body x) (λ _. for_each xs body) (h x) (λ _. Relates-for_each xs body h)

  pub Relates-collect {ℓ} :
      {A : Type ℓ} {B : Type 0} (xs : List A) (body : A → Action B)
      → ((x : A) → Relates R (body x))
      → Relates R (collect xs body)
  unfolding collect
  Relates-collect [] body h = Relates-pure []
  Relates-collect (x ∷ xs) body h = Relates-bind (body x) _ (h x) (λ y.
      Relates-bind (collect xs body) _ (Relates-collect xs body h) (λ ys. Relates-pure (y ∷ ys)))
