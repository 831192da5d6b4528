-- ===== src/Poll/Once/Failure.antt =====
-- What a poll loses on an upstream that fails: nothing that the next poll reads.
use Prim.Native.Nat.{Ordering}
use xrelease.Base.{
  ℕ, ◌≡◌, refl, ◌∙◌, String, Bool, true, false, Option, none, some, List, [], ◌∷◌, str_eq,
  Bool-cases, inl, inr,
}
use xrelease.World.{
  World, Result, ok, err, PipelineError, pure, proceed, ◌>>=◌, pass_time, statement, query, raise,
  best_effort, attempt, modify,
}
use xrelease.World.Relates.{IsSpan, Relates, Relates-raise, Relates-bind, Relates-best_effort}
use xrelease.World.Over.{IsOrder, Over, Over-span, Over-statement, Over-modify}
use xrelease.Store.Tables.{SourceState, Tables}
use xrelease.Store.Catalogue.{
  upsert_source, find_source, initialized_of, etag_of, get_etag, touch_polled,
}
use xrelease.Poll.Deliver.{Watch}
use xrelease.Poll.Once.{
  FetchOutcome, record_poll, note_poll_error, acquire_upstream, stored_etag, tag_of, answer,
  fetch_upstream, poll_fetched, poll_with, poll_once_inner,
}
use xrelease.Poll.Once.Answers.{etag_to_send}

-- What polls read of a source: its ETag, its latest tag, and whether it has a baseline.
abbrev pub standing : String → List SourceState → Option String × Option String × Bool
standing source_id sources =
    let s = find_source source_id sources in (etag_of s, tag_of s, initialized_of s)

-- The same outbox, catalogue and standing of every source; the times of polls may differ.
pub record SameStanding (t u : Tables) : Type 0 where
  pub outbox : u.outbox ≡ t.outbox
  pub next_id : u.next_id ≡ t.next_id
  pub seen : u.seen ≡ t.seen
  pub sources : (source_id : String) → standing source_id u.sources ≡ standing source_id t.sources

order : IsOrder SameStanding
order = record {
  same = λ t. record { outbox = refl; next_id = refl; seen = refl; sources = λ s. refl };
  then_ = λ t u v f g. record {
    outbox = g.outbox ∙ f.outbox;
    next_id = g.next_id ∙ f.next_id;
    seen = g.seen ∙ f.seen;
    sources = λ s. g.sources s ∙ f.sources s;
  };
}

abbrev R : World → World → Type 0
R = Over SameStanding

span : IsSpan R
span = Over-span order

abbrev touched : ℕ → SourceState → SourceState
touched now s = record s { last_polled_at = some now }

standing-touched :
    (s source_id : String) (now : ℕ) (sources : List SourceState)
    → standing s (upsert_source source_id now (touched now) sources) ≡ standing s sources
unfolding find_source upsert_source etag_of initialized_of
standing-touched s source_id now [] = elim (Bool-cases (str_eq source_id s)) [
  | inl e ↦ rw e refl
  | inr e ↦ rw e refl
]
standing-touched s source_id now (x ∷ sources) =
    let here = Bool-cases (str_eq x.source_id s) in
    elim (Bool-cases (str_eq x.source_id source_id)) [
      | inl e ↦ elim here [ inl k ↦ rw (e, k) refl | inr k ↦ rw (e, k) refl ]
      | inr e ↦ elim here [
        | inl k ↦ rw (e, k) refl
        | inr k ↦ rw (e, k) (standing-touched s source_id now sources)
      ]
    ]

touch-Same : (s : String) → Relates R (touch_polled s)
unfolding touch_polled
touch-Same s = Over-statement order _ (λ now t. record {
  outbox = refl;
  next_id = refl;
  seen = refl;
  sources = λ other. standing-touched other s now t.sources;
})

abbrev pub is_err : {A : Type 0} → Result A → Bool
is_err (ok a) = false
is_err (err e) = true

module _ {V : Type 0} (hash : String → String → String) (version_cmp : V → V → Ordering)
    (version_text : V → String) (date_text : ℕ → String) (parse : String → Option V)
    (has_pre : V → Bool) (fetch : ℕ → Option String → Option (FetchOutcome V)) (watch : Watch)
    (force_fetch : Bool) where
  -- An error that loses nothing.
  abbrev Harmless : World → Result ℕ × World → Type 0
  Harmless w (r, v) = (is_err r ≡ true) × R w v

  failed-Same :
      (e : PipelineError)
      → Relates R (
          poll_fetched hash version_cmp version_text date_text parse has_pre fetch watch force_fetch
            (err e))
  unfolding poll_fetched record_poll note_poll_error
  failed-Same e =
      Relates-bind span _ _ (Relates-best_effort span _ (touch-Same watch.source_id)) (λ _.
        Relates-bind span _ _ (Over-modify order _ (λ w. refl)) (λ _.
          Relates-bind span _ _ (Over-modify order _ (λ w. refl)) (λ _. Relates-raise span e)))

  failed-Harmless :
      (e : PipelineError) (w : World)
      → Harmless w (
          poll_fetched hash version_cmp version_text date_text parse has_pre fetch watch force_fetch
            (err e)
            w)
  unfolding poll_fetched best_effort record_poll note_poll_error modify raise ◌>>=◌
  failed-Harmless e w = (refl, (failed-Same e).at w)

  unanswered :
      (a : Option (FetchOutcome V)) (v : World)
      → a ≡ none
      → Harmless v (
          proceed (attempt (answer fetch a) v) (
            poll_fetched hash version_cmp version_text date_text parse has_pre fetch watch
              force_fetch))
  unfolding attempt answer raise
  unanswered (some outcome) v h = absurd (cc)
  unanswered none v h = failed-Harmless _ v

  with_etag-Harmless :
      (etag : Option String) (w : World)
      → ((i : ℕ) → fetch i etag ≡ none)
      → Harmless w (
          poll_with hash version_cmp version_text date_text parse has_pre fetch watch force_fetch
            etag w)
  unfolding poll_with acquire_upstream modify pass_time ◌>>=◌ fetch_upstream attempt
  with_etag-Harmless etag w h =
      unanswered (fetch (pass_time w).interactions etag) (pass_time (pass_time w)) (h _)

-- A poll whose fetch fails, forced or not, returns an error and loses nothing that a poll reads: the
-- outbox, its sequence of ids and the seen releases are as they were, and every source, this one
-- included, has the ETag, the latest tag and the baseline that it had, or still has none. This is so
-- whichever statement fails, and also where the attempt adds the source's row.
pub poll_once_inner-SameStanding :
    {V : Type 0} (hash : String → String → String) (version_cmp : V → V → Ordering)
    (version_text : V → String) (date_text : ℕ → String) (parse : String → Option V)
    (has_pre : V → Bool) (fetch : ℕ → Option String → Option (FetchOutcome V)) (watch : Watch)
    (force_fetch : Bool) (w : World)
    → ((i : ℕ) → fetch i (etag_to_send force_fetch watch.source_id w.tables) ≡ none)
    → let (result, v) =
        poll_once_inner hash version_cmp version_text date_text parse has_pre fetch watch
          force_fetch w in
      (is_err result ≡ true) × SameStanding w.tables v.tables
unfolding poll_once_inner stored_etag ◌>>=◌ pure get_etag query statement pass_time
poll_once_inner-SameStanding hash version_cmp version_text date_text parse has_pre fetch watch true
      w h =
    with_etag-Harmless hash version_cmp version_text date_text parse has_pre fetch watch true none w
      h
poll_once_inner-SameStanding hash version_cmp version_text date_text parse has_pre fetch watch false
      w h =
    elim (Bool-cases (w.env.db_fails w.interactions)) [
      | inl e ↦ rw e (refl, order.same w.tables)
      | inr e ↦ rw e (
          with_etag-Harmless hash version_cmp version_text date_text parse has_pre fetch watch false
            (etag_of (find_source watch.source_id w.tables.sources)) (pass_time w) h)
    ]
