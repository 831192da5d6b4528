-- ===== src/Advisory/Cache.antt =====
-- The cache of `AdvisoryLookup` of src/advisory/mod.rs: its size and its keys.
use xrelease.Base.{
  ℕ, suc, ◌≤◌, ◌<◌, ◌≡◌, refl, sym, String, Bool, true, false, ◌&&◌, ◌||◌, ◌==◌, Option, none, some,
  List, [], ◌∷◌, arith, count_if, length, select, leb, max, str_eq, eq_iff, eq_refl, Bool-cases,
  inl, inr, length-select-le,
}
use xrelease.Text.{trim}
use xrelease.Breaker.{allows}
use xrelease.Sources.Registry.{PackageRegistry}
use xrelease.Advisory.{Advisory, for_registry}
use xrelease.Advisory.Lookup.{
  AdvisoryConfig, active, CacheKey, CacheEntry, key_eq, LookupState, is_fresh, insert_entry,
  drop_all_at_cap, make_room, record_success, record_failure, after_query, lookup_found, lookup_key,
  lookup_in, lookup, cache_max_entries,
}

abbrev pub entries_of : CacheKey → List CacheEntry → ℕ
entries_of key cache = count_if (λ e. key_eq e.key key) cache

-- A cache within its bound, with at most one entry for a key.
pub record IsCache (cache : List CacheEntry) : Type 0 where
  pub bounded : length cache ≤ cache_max_entries
  pub unique : (key : CacheKey) → entries_of key cache ≤ 1

both : (p q : Bool) → p && q ≡ true → (p ≡ true) × (q ≡ true)
both true q e = (refl, e)
both false q e = absurd (cc)

key_eq-same : (a b : CacheKey) → key_eq a b ≡ true → a ≡ b
key_eq-same a b e =
    let h = both (str_eq a.ecosystem b.ecosystem && str_eq a.name b.name) _ e in
    let k = both (str_eq a.ecosystem b.ecosystem) _ h.0 in
    let x = (eq_iff a.ecosystem b.ecosystem).0 k.0 in
    let y = (eq_iff a.name b.name).0 k.1 in
    let z = (eq_iff a.version b.version).0 h.1 in
    λ i. record { ecosystem = x i; name = y i; version = z i }

pub key_eq_refl : (a : CacheKey) → key_eq a a ≡ true
key_eq_refl a = rw (eq_refl a.ecosystem, eq_refl a.name, eq_refl a.version) refl

length-insert :
    (entry : CacheEntry) (cache : List CacheEntry)
    → length (insert_entry entry cache) ≤ suc (length cache)
unfolding insert_entry
length-insert entry [] = omega arith
length-insert entry (e ∷ cache) = ground (arith, length-insert entry cache)

count-insert_apart :
    (entry : CacheEntry) (key : CacheKey) (cache : List CacheEntry)
    → key_eq entry.key key ≡ false
    → entries_of key (insert_entry entry cache) ≡ entries_of key cache
unfolding insert_entry
count-insert_apart entry key [] h = rw h refl
count-insert_apart entry key (e ∷ cache) h = elim (Bool-cases (key_eq e.key entry.key)) [
  | inl m ↦
      let apart : key_eq e.key key ≡ false = rw (key_eq-same e.key entry.key m) h in
      rw (m, h, apart) refl
  | inr m ↦ rw (m, count-insert_apart entry key cache h) refl
]

count-insert_same :
    (entry : CacheEntry) (cache : List CacheEntry)
    → entries_of entry.key (insert_entry entry cache) ≤ max 1 (entries_of entry.key cache)
unfolding insert_entry
count-insert_same entry [] = rw (key_eq_refl entry.key) (omega arith)
count-insert_same entry (e ∷ cache) = elim (Bool-cases (key_eq e.key entry.key)) [
  | inl m ↦ rw (m, key_eq_refl entry.key) (omega arith)
  | inr m ↦ rw (m, m) (count-insert_same entry cache)
]

count-select :
    (key : CacheKey) (p : CacheEntry → Bool) (cache : List CacheEntry)
    → entries_of key (select p cache) ≤ entries_of key cache
count-select key p [] = omega arith
count-select key p (e ∷ cache) = ground (arith, count-select key p cache)

count-insert :
    (entry : CacheEntry) (key : CacheKey) (cache : List CacheEntry)
    → entries_of key cache ≤ 1
    → entries_of entry.key cache ≤ 1
    → entries_of key (insert_entry entry cache) ≤ 1
count-insert entry key cache h own = elim (Bool-cases (key_eq entry.key key)) [
  | inl m ↦
      rw (sym (key_eq-same entry.key key m))
        (let c = count-insert_same entry cache in omega (arith, c, own))
  | inr m ↦ rw (count-insert_apart entry key cache m) h
]

select-IsCache :
    (p : CacheEntry → Bool) (cache : List CacheEntry) → IsCache cache → IsCache (select p cache)
select-IsCache p cache h = record {
  bounded = let l = length-select-le p cache in let b = h.bounded in omega (arith, l, b);
  unique = λ key. let l = count-select key p cache in let u = h.unique key in omega (arith, l, u);
}

-- A cache with room for one more entry.
abbrev HasRoom : List CacheEntry → Type 0
HasRoom cache = (length cache < cache_max_entries) × IsCache cache

leb-false : (m n : ℕ) → leb m n ≡ false → n < m
leb-false m n e = ground (arith, e)

drop_all-HasRoom : (cache : List CacheEntry) → IsCache cache → HasRoom (drop_all_at_cap cache)
unfolding drop_all_at_cap
drop_all-HasRoom cache h = elim (Bool-cases (leb cache_max_entries (length cache))) [
  | inl e ↦ rw e (omega arith, record { bounded = omega arith; unique = λ key. omega arith })
  | inr e ↦ rw e (leb-false _ _ e, h)
]

make_room-HasRoom :
    (ttl now : ℕ) (cache : List CacheEntry) → IsCache cache → HasRoom (make_room ttl now cache)
unfolding make_room
make_room-HasRoom ttl now cache h = elim (Bool-cases (leb cache_max_entries (length cache))) [
  | inl e ↦ rw e (drop_all-HasRoom _ (select-IsCache (is_fresh ttl now) cache h))
  | inr e ↦ rw e (leb-false _ _ e, h)
]

insert-IsCache :
    (entry : CacheEntry) (cache : List CacheEntry)
    → HasRoom cache
    → IsCache (insert_entry entry cache)
insert-IsCache entry cache h = record {
  bounded = let l = length-insert entry cache in let r = h.0 in omega (arith, l, r);
  unique = λ key. count-insert entry key cache (h.1.unique key) (h.1.unique entry.key);
}

record_success-IsCache :
    (c : AdvisoryConfig) (key : CacheKey) (advisories : List Advisory) (now : ℕ) (s : LookupState)
    → IsCache s.cache
    → IsCache (record_success c key advisories now s).cache
unfolding record_success
record_success-IsCache c key advisories now s h = elim (Bool-cases (c.cache_ttl_secs == 0)) [
  | inl e ↦ rw e h
  | inr e ↦ rw e (insert-IsCache _ _ (make_room-HasRoom c.cache_ttl_secs now s.cache h))
]

after_query-IsCache :
    (c : AdvisoryConfig) (key : CacheKey) (done : ℕ) (a : Option (List Advisory)) (s : LookupState)
    → IsCache s.cache
    → IsCache (after_query c key done a s).1.cache
unfolding after_query record_failure
after_query-IsCache c key done none s h = h
after_query-IsCache c key done (some advisories) s h =
    record_success-IsCache c key advisories done s h

found-IsCache :
    (c : AdvisoryConfig) (key : CacheKey) (now done : ℕ) (query : CacheKey → Option (List Advisory))
    (hit : Option (List Advisory)) (s : LookupState)
    → IsCache s.cache
    → IsCache (lookup_found c key now done query hit s).1.cache
unfolding lookup_found
found-IsCache c key now done query (some hit) s h = h
found-IsCache c key now done query none s h = elim (Bool-cases (allows s.breaker now)) [
  | inl e ↦ rw e (after_query-IsCache c key done (query key) s h)
  | inr e ↦ rw e h
]

in-IsCache :
    (c : AdvisoryConfig) (ecosystem : Option String) (name version : String) (now done : ℕ)
    (query : CacheKey → Option (List Advisory)) (s : LookupState)
    → IsCache s.cache
    → IsCache (lookup_in c ecosystem name version now done query s).1.cache
unfolding lookup_in lookup_key
in-IsCache c none name version now done query s h = h
in-IsCache c (some ecosystem) name version now done query s h =
    elim (Bool-cases (str_eq (trim name) "" || str_eq (trim version) "")) [
      | inl e ↦ rw e h
      | inr e ↦ rw e (found-IsCache c _ now done query _ s h)
    ]

-- A cache of at most 4,096 entries, no two of which have the same ecosystem, name and version, is
-- such a cache after any lookup, whatever the advisory database answers and whenever.
pub lookup-IsCache :
    (c : AdvisoryConfig) (registry : PackageRegistry) (name version : String) (now done : ℕ)
    (query : CacheKey → Option (List Advisory)) (s : LookupState)
    → IsCache s.cache
    → IsCache (lookup c registry name version now done query s).1.cache
unfolding lookup
lookup-IsCache c registry name version now done query s h = elim (Bool-cases (active c)) [
  | inl e ↦ rw e (in-IsCache c (for_registry registry) name version now done query s h)
  | inr e ↦ rw e h
]
