-- ===== src/Scenarios/Polling.antt =====
-- A poll of a source of the installation, by src/pipeline/poll.rs.
use mathlib.Core.List.{Perm}
use xrelease.Base.{
  arith, eq_iff, ℕ, ◌≡◌, refl, String, true, false, none, some, List, [], ◌∷◌, select,
}
use Prim.Native.Nat.{compare}
use xrelease.Model.{Release, content_fingerprint}
use xrelease.Store.Catalogue.{has_baseline, find_source, initialized_of}
use xrelease.Poll.{select_for_delivery}
use xrelease.Poll.Baseline.{DistinctIds, select_for_delivery-silent}
use xrelease.Poll.Selection.{IsByDate, select_for_delivery-Perm}
use xrelease.Poll.Wanted.{IsUnique, is_wanted}
use xrelease.Poll.Deliver.{Watch, deliver_new_releases}
use xrelease.Poll.Deliver.Keys.{deliver_new_releases-IsKeyed}
use xrelease.Text.{decimal}
use xrelease.Store.Tables.{Tables}
use xrelease.Store.Enqueue.Keys.{IsKeyed}
use xrelease.World.{ok}
use xrelease.Scenarios.Installation.{tables, world, one_row, one_row-IsKeyed}

abbrev release : String → Release ℕ
release tag = record {
  id = tag;
  raw_tag = tag;
  version = some 1;
  url = none;
  published_at = none;
  prerelease = false;
  body = none;
}

abbrev pub releases : List (Release ℕ)
releases = release "v1.52.0" ∷ release "v1.53.0" ∷ []

abbrev pub body_hash : String → String → String
body_hash body url = body

distinct_releases : DistinctIds body_hash compare releases
distinct_releases =
    ((λ e. let t : false ≡ true = (eq_iff "v1.53.0" "v1.52.0").1 e in absurd (cc), tt), (tt, tt))

no_baseline : has_baseline "github:tokio-rs/tokio" tables ≡ false
unfolding has_baseline find_source
no_baseline = refl

silent_example :
    let poll = select_for_delivery body_hash compare "github:tokio-rs/tokio" releases false in
    ((poll (world tables)).0 ≡ ok []) × ((poll (poll (world tables)).1).0 ≡ ok [])
silent_example =
    select_for_delivery-silent body_hash compare "github:tokio-rs/tokio" releases false
      (world tables) (λ n. refl) no_baseline distinct_releases

-- The catalogue has the first release as the poll finds it, and not the second.
abbrev known : Tables
known = record tables {
  seen =
      record {
        source_id = "github:tokio-rs/tokio";
        identity = "v1.52.0";
        display_tag = none;
        first_seen_at = 5;
        content_digest = some "";
        published_at = none;
        url = none;
      }
      ∷ [];
  sources =
      record {
        source_id = "github:tokio-rs/tokio";
        initialized = true;
        last_polled_at = none;
        etag = none;
        latest_release_tag = none;
      }
      ∷ [];
}

known_baseline : has_baseline "github:tokio-rs/tokio" known ≡ true
unfolding has_baseline find_source initialized_of
known_baseline = refl

known-IsUnique : IsUnique "github:tokio-rs/tokio" known.seen
known-IsUnique identity = ground arith

wanted_runs :
    select (is_wanted body_hash "github:tokio-rs/tokio" false known.seen) releases
    ≡ release "v1.53.0" ∷ []
unfolding is_wanted content_fingerprint
wanted_runs = refl

selection_example :
    (selected : List (Release ℕ)) × (((select_for_delivery body_hash compare "github:tokio-rs/tokio"
          releases false
          (world known)).0
        ≡ ok selected)
      × Perm selected
          (select (is_wanted body_hash "github:tokio-rs/tokio" false known.seen) releases)
      × IsByDate body_hash compare selected)
selection_example =
    select_for_delivery-Perm body_hash compare "github:tokio-rs/tokio" releases false (world known)
      (λ n. refl) known_baseline known-IsUnique

abbrev pub watch : Watch
watch = record {
  source_id = "github:tokio-rs/tokio";
  display_name = "tokio";
  kind_label = "GitHub";
  filter = record {
    include_prerelease = false;
    prerelease_tags = none;
    pattern = none;
    exclude_pattern = none;
    exclude_updated = false;
  };
  routing_tag = some "ops";
  next_after = λ now. none;
}

abbrev pub watched : Tables
watched = record one_row { sources = known.sources }

pub watched-IsKeyed : IsKeyed watched
watched-IsKeyed = record { ids = one_row-IsKeyed.ids; unique = one_row-IsKeyed.unique }

IsKeyed-poll_example :
    IsKeyed
      (deliver_new_releases body_hash compare decimal decimal watch releases
        (world watched)).1.tables
IsKeyed-poll_example =
    deliver_new_releases-IsKeyed body_hash compare decimal decimal watch releases (world watched)
      watched-IsKeyed
