-- ===== src/Advisory/Lookup.antt =====
-- `AdvisoryLookup` of src/advisory/mod.rs and `AdvisoryConfig` of src/config/advisories.rs: the
-- cache of answers and the breaker. A `HashMap` is the list of its entries. The advisory database's
-- answer is an argument, and so are the moments at which a lookup begins and at which it has it.
use xrelease.Base.{
  ℕ, ◌-◌, String, Bool, true, false, not, ◌&&◌, ◌||◌, ◌==◌, Option, none, some, List, [], ◌∷◌,
  length, select, ltb, leb, max, str_eq, if◌then◌else◌,
}
use xrelease.Text.{trim}
use xrelease.Text.Pieces.{trim_end_slashes}
use xrelease.Breaker.{Breaker, new, allows, record_outcome}
use xrelease.Sources.Registry.{PackageRegistry}
use xrelease.Advisory.{Advisory, for_registry}

pub record AdvisoryConfig : Type 0 where
  pub enabled : Bool
  pub endpoint : String
  pub timeout_secs : ℕ
  pub cache_ttl_secs : ℕ
  pub breaker_threshold : ℕ
  pub breaker_cooldown_secs : ℕ
  pub sweep_interval_secs : ℕ
  pub sweep_batch : ℕ

-- `AdvisoryConfig::default`
abbrev pub default_config : AdvisoryConfig
default_config = record {
  enabled = false;
  endpoint = "https://api.osv.dev";
  timeout_secs = 5;
  cache_ttl_secs = 3600;
  breaker_threshold = 5;
  breaker_cooldown_secs = 300;
  sweep_interval_secs = 3600;
  sweep_batch = 10;
}

unfoldable pub active : AdvisoryConfig → Bool
active c = c.enabled && not (str_eq (trim c.endpoint) "")

unfoldable pub endpoint_base : AdvisoryConfig → String
endpoint_base c = trim_end_slashes (trim c.endpoint)

unfoldable pub sweep_active : AdvisoryConfig → Bool
sweep_active c = active c && ltb 0 c.sweep_interval_secs && ltb 0 c.sweep_batch

unfoldable pub sweep_interval : AdvisoryConfig → Option ℕ
sweep_interval c = if sweep_active c then some c.sweep_interval_secs else none

unfoldable pub timeout : AdvisoryConfig → ℕ
timeout c = max c.timeout_secs 1

unfoldable pub floored_threshold : AdvisoryConfig → ℕ
floored_threshold c = max c.breaker_threshold 1

pub record LookupOutcome : Type 0 where
  pub advisories : List Advisory
  pub verified : Bool

-- `LookupOutcome::default`
abbrev pub unverified : LookupOutcome
unverified = record { advisories = []; verified = false }

abbrev pub from_verified_answer : List Advisory → LookupOutcome
from_verified_answer advisories = record { advisories = advisories; verified = true }

pub record CacheKey : Type 0 where
  pub ecosystem : String
  pub name : String
  pub version : String

pub record CacheEntry : Type 0 where
  pub key : CacheKey
  pub advisories : List Advisory
  pub stored_at : ℕ

abbrev pub key_eq : CacheKey → CacheKey → Bool
key_eq a b = str_eq a.ecosystem b.ecosystem && str_eq a.name b.name && str_eq a.version b.version

pub record LookupState : Type 0 where
  pub cache : List CacheEntry
  pub breaker : Breaker

unfoldable pub initial : LookupState
initial = record { cache = []; breaker = new }

abbrev pub cache_max_entries : ℕ
cache_max_entries = 4096

unfoldable pub find_entry : CacheKey → List CacheEntry → Option CacheEntry
find_entry key [] = none
find_entry key (e ∷ cache) = if key_eq e.key key then some e else find_entry key cache

abbrev pub is_fresh : ℕ → ℕ → CacheEntry → Bool
is_fresh ttl now e = ltb (now - e.stored_at) ttl

abbrev pub fresh_answer : ℕ → ℕ → Option CacheEntry → Option (List Advisory)
fresh_answer ttl now none = none
fresh_answer ttl now (some e) = if is_fresh ttl now e then some e.advisories else none

unfoldable pub cached : AdvisoryConfig → CacheKey → ℕ → LookupState → Option (List Advisory)
cached c key now s =
    if c.cache_ttl_secs == 0
    then none
    else fresh_answer c.cache_ttl_secs now (find_entry key s.cache)

unfoldable pub insert_entry : CacheEntry → List CacheEntry → List CacheEntry
insert_entry entry [] = entry ∷ []
insert_entry entry (e ∷ cache) =
    let rest = insert_entry entry cache in
    if key_eq e.key entry.key then entry ∷ cache else e ∷ rest

unfoldable pub drop_all_at_cap : List CacheEntry → List CacheEntry
drop_all_at_cap cache = if leb cache_max_entries (length cache) then [] else cache

-- At the cap the stale entries are dropped, and then all, if that does not help.
unfoldable pub make_room : ℕ → ℕ → List CacheEntry → List CacheEntry
make_room ttl now cache =
    if leb cache_max_entries (length cache)
    then drop_all_at_cap (select (is_fresh ttl now) cache)
    else cache

unfoldable pub record_success :
    AdvisoryConfig → CacheKey → List Advisory → ℕ → LookupState → LookupState
record_success c key advisories now s = record {
  cache =
      if c.cache_ttl_secs == 0
      then s.cache
      else insert_entry (record { key = key; advisories = advisories; stored_at = now })
          (make_room c.cache_ttl_secs now s.cache);
  breaker = (record_outcome s.breaker now true 0 0).0;
}

unfoldable pub record_failure : AdvisoryConfig → ℕ → LookupState → LookupState
record_failure c now s = record s {
  breaker = (record_outcome s.breaker now false (floored_threshold c) c.breaker_cooldown_secs).0;
}

-- What `osv::query` returns: advisories, or an error (`none`), and the moment of it.
unfoldable pub after_query :
    AdvisoryConfig
    → CacheKey
    → ℕ
    → Option (List Advisory)
    → LookupState
    → LookupOutcome × LookupState
after_query c key done none s = (unverified, record_failure c done s)
after_query c key done (some advisories) s =
    (from_verified_answer advisories, record_success c key advisories done s)

-- What `lookup` does once it has a key.
unfoldable pub lookup_found :
    AdvisoryConfig
    → CacheKey
    → ℕ
    → ℕ
    → (CacheKey → Option (List Advisory))
    → Option (List Advisory)
    → LookupState
    → LookupOutcome × LookupState
lookup_found c key now done query (some hit) s = (from_verified_answer hit, s)
lookup_found c key now done query none s =
    if allows s.breaker now then after_query c key done (query key) s else (unverified, s)

unfoldable pub lookup_key :
    AdvisoryConfig
    → CacheKey
    → ℕ
    → ℕ
    → (CacheKey → Option (List Advisory))
    → LookupState
    → LookupOutcome × LookupState
lookup_key c key now done query s = lookup_found c key now done query (cached c key now s) s

unfoldable pub lookup_in :
    AdvisoryConfig
    → Option String
    → String
    → String
    → ℕ
    → ℕ
    → (CacheKey → Option (List Advisory))
    → LookupState
    → LookupOutcome × LookupState
lookup_in c none name version now done query s = (unverified, s)
lookup_in c (some ecosystem) name version now done query s =
    if str_eq (trim name) "" || str_eq (trim version) ""
    then (unverified, s)
    else lookup_key c (record { ecosystem = ecosystem; name = trim name; version = trim version })
        now done query s

unfoldable pub lookup :
    AdvisoryConfig
    → PackageRegistry
    → String
    → String
    → ℕ
    → ℕ
    → (CacheKey → Option (List Advisory))
    → LookupState
    → LookupOutcome × LookupState
lookup c registry name version now done query s =
    if active c
    then lookup_in c (for_registry registry) name version now done query s
    else (unverified, s)
