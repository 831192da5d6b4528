-- ===== src/World/Ensures.antt =====
-- What an action ensures when it returns: a precondition, and a postcondition of the value and the
-- world, with a rule for each way to build an action.
use xrelease.Base.{ℕ, Bool, true, false, ◌≡◌, refl, if◌then◌else◌}
use xrelease.Store.Tables.{Tables}
use xrelease.World.Relates.{Relates}
use xrelease.World.Over.{IsOrder, Over}
use xrelease.World.{
  World, Result, ok, err, Action, pure, ask, proceed, ◌>>=◌, pass_time, settle, statement,
}

pub record Ensures {A : Type 0} (P : World → Type 0) (m : Action A) (Q : A → World → Type 0)
    : Type 0 where
  pub at : (w : World) (a : A) → P w → (m w).0 ≡ ok a → Q a (m w).1

settled :
    {A : Type 0} (Q : A → World → Type 0) (fails : Bool) (w : World) (x : Tables × A) (b : A)
    → Q x.1 (record w { tables = x.0 })
    → (settle fails w x).0 ≡ ok b
    → Q b (settle fails w x).1
settled Q true w (t, a) b q e = absurd (cc)
settled Q false w (t, a) b q e = let g : a ≡ b = cc in rw g at q

module _ {A : Type 0} {P : World → Type 0} {Q : A → World → Type 0} where
  pub Ensures-pure : (a : A) → ((w : World) → P w → Q a w) → Ensures P (pure a) Q
  unfolding pure
  Ensures-pure a h = record { at = λ w b p e. subst_ok b e (h w p) }
    where
      subst_ok : {w : World} (b : A) → ok a ≡ ok b → Q a w → Q b w
      subst_ok {w} b e q = let f : a ≡ b = cc in rw f at q

  pub Ensures-if :
      (b : Bool) (m n : Action A)
      → (b ≡ true → Ensures P m Q)
      → (b ≡ false → Ensures P n Q)
      → Ensures P (if b then m else n) Q
  Ensures-if true m n hm hn = hm refl
  Ensures-if false m n hm hn = hn refl

  pub Ensures-ask : (f : World → A) → ((w : World) → P w → Q (f w) w) → Ensures P (ask f) Q
  unfolding ask
  Ensures-ask f h = record { at = λ w b p e. moved w b (h w p) e }
    where
      moved : (w : World) (b : A) → Q (f w) w → ok (f w) ≡ ok b → Q b w
      moved w b q e = let g : f w ≡ b = cc in rw g at q

  -- A statement that returns has had its effect, on the tables and at the clock of that moment.
  pub Ensures-statement :
      (f : ℕ → Tables → Tables × A)
      → ((w : World)
          → P w
          → let v = pass_time w in
            Q (f v.now v.tables).1 (record v { tables = (f v.now v.tables).0 }))
      → Ensures P (statement f) Q
  unfolding statement
  Ensures-statement f h = record {
    at = λ w b p e.
        settled Q (w.env.db_fails w.interactions) (pass_time w)
          (f (pass_time w).now (pass_time w).tables) b (h w p) e;
  }

-- An action whose value alone matters.
pub Ensures-const :
    {A : Type 0} {P : World → Type 0} {Q : A → World → Type 0} (m : Action A)
    → ((a : A) (w : World) → Q a w)
    → Ensures P m Q
Ensures-const m h = record { at = λ w a p e. h a (m w).1 }

-- A relation that an action keeps is one that it ensures.
pub Ensures-relates :
    {T : Tables → Tables → Type 0} (order : IsOrder T) {A : Type 0} (m : Action A) (t : Tables)
    → Relates (Over T) m
    → Ensures (λ w. T t w.tables) m (λ _ w. T t w.tables)
Ensures-relates order m t h = record {
  at = λ w a p e. order.then_ t w.tables (m w).1.tables p (h.at w);
}

-- Nothing is asked of an action.
pub Ensures-any : {A : Type 0} {P : World → Type 0} (m : Action A) → Ensures P m (λ _ _. Unit {0})
Ensures-any m = record { at = λ w a p e. tt }

bound :
    {A B : Type 0} (S : A → World → Type 0) (Q : B → World → Type 0) (f : A → Action B)
    (r : Result A) (v : World) (b : B)
    → ((a : A) → r ≡ ok a → S a v)
    → ((a : A) → Ensures (S a) (f a) Q)
    → (proceed (r, v) f).0 ≡ ok b
    → Q b (proceed (r, v) f).1
bound S Q f (ok a) v b s h e = (h a).at v b (s a refl) e
bound S Q f (err x) v b s h e = absurd (cc)

module _ {A B : Type 0} {P : World → Type 0} {S : A → World → Type 0} {Q : B → World → Type 0} where
  pub Ensures-bind :
      (m : Action A) (f : A → Action B)
      → Ensures P m S
      → ((a : A) → Ensures (S a) (f a) Q)
      → Ensures P (m >>= f) Q
  unfolding ◌>>=◌
  Ensures-bind m f hm hf = record {
    at = λ w b p e. bound S Q f (m w).0 (m w).1 b (λ a q. hm.at w a p q) hf e;
  }
