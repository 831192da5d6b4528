-- ===== src/Advisory/Replay.antt =====
-- What the cache of `AdvisoryLookup` of src/advisory/mod.rs gives again.
use xrelease.Base.{
  ℕ, ◌-◌, ◌<◌, ◌≡◌, refl, true, false, ◌==◌, Option, none, some, List, [], ◌∷◌, arith, ltb,
  Bool-cases, inl, inr,
}
use xrelease.Breaker.{allows}
use xrelease.Advisory.{Advisory}
use xrelease.Advisory.Lookup.{
  AdvisoryConfig, CacheKey, CacheEntry, key_eq, LookupState, find_entry, cached, insert_entry,
  make_room, record_success, after_query, lookup_found, lookup_key, from_verified_answer,
}
use xrelease.Advisory.Cache.{key_eq_refl}

found_inserted :
    (entry : CacheEntry) (cache : List CacheEntry)
    → find_entry entry.key (insert_entry entry cache) ≡ some entry
unfolding find_entry insert_entry
found_inserted entry [] = rw (key_eq_refl entry.key) refl
found_inserted entry (e ∷ cache) = elim (Bool-cases (key_eq e.key entry.key)) [
  | inl m ↦ rw (m, key_eq_refl entry.key) refl
  | inr m ↦ rw (m, m) (found_inserted entry cache)
]

stored_answer :
    (c : AdvisoryConfig) (key : CacheKey) (done now' : ℕ) (answer : List Advisory) (s : LookupState)
    → now' - done < c.cache_ttl_secs
    → cached c key now' (record_success c key answer done s) ≡ some answer
unfolding cached record_success
stored_answer c key done now' answer s fresh =
    let lasts : (c.cache_ttl_secs == 0) ≡ false = ground (arith, fresh) in
    let young : ltb (now' - done) c.cache_ttl_secs ≡ true = ground (arith, fresh) in
    let entry : CacheEntry = record { key = key; advisories = answer; stored_at = done } in
    rw (lasts, found_inserted entry (make_room c.cache_ttl_secs done s.cache), young) refl

first_answer :
    (c : AdvisoryConfig) (key : CacheKey) (now done : ℕ) (query : CacheKey → Option (List Advisory))
    (answer : List Advisory) (s : LookupState)
    → cached c key now s ≡ none
    → allows s.breaker now ≡ true
    → query key ≡ some answer
    → lookup_key c key now done query s
      ≡ (from_verified_answer answer, record_success c key answer done s)
unfolding lookup_key lookup_found after_query
first_answer c key now done query answer s miss allowed answers = rw (miss, allowed, answers) refl

replayed_answer :
    (c : AdvisoryConfig) (key : CacheKey) (now done : ℕ) (query : CacheKey → Option (List Advisory))
    (answer : List Advisory) (s : LookupState)
    → cached c key now s ≡ some answer
    → lookup_key c key now done query s ≡ (from_verified_answer answer, s)
unfolding lookup_key lookup_found
replayed_answer c key now done query answer s hit = rw hit refl

-- If the cache has no fresh answer for a key, the breaker allows a call and the advisory database
-- answers, then the answer is returned as verified; and until it is as old as the lifetime of
-- answers, a lookup of the key returns it again as verified and changes nothing, whatever the
-- database would answer by then.
pub lookup_key-replays :
    (c : AdvisoryConfig) (key : CacheKey) (now done now' done' : ℕ)
    (query query' : CacheKey → Option (List Advisory)) (answer : List Advisory) (s : LookupState)
    → cached c key now s ≡ none
    → allows s.breaker now ≡ true
    → query key ≡ some answer
    → now' - done < c.cache_ttl_secs
    → let (first, s') = lookup_key c key now done query s in
      (first ≡ from_verified_answer answer)
      × (lookup_key c key now' done' query' s' ≡ (from_verified_answer answer, s'))
lookup_key-replays c key now done now' done' query query' answer s miss allowed answers fresh =
    rw (first_answer c key now done query answer s miss allowed answers) (
      refl,
      replayed_answer c key now' done' query' answer _
          (stored_answer c key done now' answer s fresh),
    )
