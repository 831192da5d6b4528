-- ===== src/World/Over.antt =====
-- Relations between the tables before and after an action.
use xrelease.Base.{ℕ, ◌≡◌, Bool}
use xrelease.Store.Tables.{Tables}
use xrelease.World.{World, statement, constrained, modify, pass_time}
use xrelease.World.Relates.{IsSpan, Relates, Relates-statement, Relates-constrained, Relates-modify}

pub record IsOrder (T : Tables → Tables → Type 0) : Type 0 where
  pub same : (t : Tables) → T t t
  pub then_ : (t u v : Tables) → T t u → T u v → T t v

-- The relation of worlds that looks at the tables only.
abbrev pub Over : (Tables → Tables → Type 0) → World → World → Type 0
Over T w v = T w.tables v.tables

module _ {T : Tables → Tables → Type 0} (order : IsOrder T) where
  pub Over-span : IsSpan (Over T)
  unfolding pass_time
  Over-span = record {
    same = λ w. order.same w.tables;
    then_ = λ u v w. order.then_ u.tables v.tables w.tables;
    time = λ w. order.same w.tables;
  }

  pub Over-statement :
      {A : Type 0} (f : ℕ → Tables → Tables × A)
      → ((now : ℕ) (t : Tables) → T t (f now t).0)
      → Relates (Over T) (statement f)
  Over-statement f h = Relates-statement Over-span f (λ w. h w.now w.tables)

  pub Over-constrained :
      {A : Type 0} (holds : Tables → Bool) (f : ℕ → Tables → Tables × A)
      → ((now : ℕ) (t : Tables) → T t (f now t).0)
      → Relates (Over T) (constrained holds f)
  Over-constrained holds f h = Relates-constrained Over-span holds f (λ w. h w.now w.tables)

  -- What changes no table is related.
  pub Over-modify :
      (f : World → World) → ((w : World) → (f w).tables ≡ w.tables) → Relates (Over T) (modify f)
  Over-modify f e = Relates-modify Over-span f (λ w. rw (e w) (order.same w.tables))
