-- ===== src/WatchLookup.antt =====
-- src/watch_lookup.rs: the watches by id, by repository and by container image. A `HashMap` is a
-- list of its entries, of which the first of a key counts.
pub mod Select
use xrelease.Base.{
  ℕ, zero, suc, String, Bool, true, false, ◌&&◌, Option, none, some, List, [], ◌∷◌, ◌++◌, any,
  str_eq, if◌then◌else◌, get_elem?,
}
use xrelease.Text.{trim, to_ascii_lowercase}
use xrelease.Sources.Provider.{identity}
use xrelease.Config.Watches.{Watch}

abbrev pub container_kinds : List String
container_kinds = "docker" ∷ "ghcr" ∷ "quay" ∷ "ecr" ∷ []

-- `normalise_repo` and `normalise_image` are this same function.
unfoldable pub normalise : String → String
normalise name = to_ascii_lowercase (trim name)

-- A map from a pair of texts to a list of positions. `by_image` nests its two keys.
abbrev pub Positions : Type 0
Positions = List (String × String × List ℕ)

unfoldable pub positions_at : String → String → Positions → List ℕ
positions_at kind name [] = []
positions_at kind name ((k, n, is) ∷ m) =
    if str_eq k kind && str_eq n name then is else positions_at kind name m

-- `entry(…).or_default().push(…)`
unfoldable pub push_at : String → String → ℕ → Positions → Positions
push_at kind name i [] = (kind, name, i ∷ []) ∷ []
push_at kind name i ((k, n, is) ∷ m) =
    let rest = push_at kind name i m in
    if str_eq k kind && str_eq n name then (k, n, is ++ i ∷ []) ∷ m else (k, n, is) ∷ rest

pub record WatchIndex : Type 0 where
  pub watches : List Watch
  pub by_id : List (String × ℕ)
  pub by_repo : Positions
  pub by_image : Positions

unfoldable pub kind_of : Watch → String
unfolding identity
kind_of w = (identity w.provider).kind

unfoldable pub name_of : Watch → String
unfolding identity normalise
name_of w = normalise (identity w.provider).display_name

unfoldable pub is_container : Watch → Bool
unfolding kind_of
is_container w = any (λ k. str_eq k (kind_of w)) container_kinds

-- One turn of the loop of `new`.
unfoldable pub index_watch : ℕ → Watch → WatchIndex → WatchIndex
unfolding kind_of name_of is_container push_at identity
index_watch i w index = record index {
  by_id = ((identity w.provider).id, i) ∷ index.by_id;
  by_repo = push_at (kind_of w) (name_of w) i index.by_repo;
  by_image =
      if is_container w then push_at (kind_of w) (name_of w) i index.by_image else index.by_image;
}

unfoldable pub index_from : ℕ → List Watch → WatchIndex → WatchIndex
unfolding index_watch
index_from i [] index = index
index_from i (w ∷ ws) index = index_from (suc i) ws (index_watch i w index)

unfoldable pub new : List Watch → WatchIndex
unfolding index_from
new watches =
    index_from zero watches (record { watches = watches; by_id = []; by_repo = []; by_image = [] })

-- `self.watches[i]`
pub at : Option Watch → List Watch → List Watch
at none ws = ws
at (some w) ws = w ∷ ws

unfoldable pub watches_at : List Watch → List ℕ → List Watch
unfolding at
watches_at watches [] = []
watches_at watches (i ∷ is) = at (get_elem? watches i) (watches_at watches is)

position_of : String → List (String × ℕ) → Option ℕ
position_of id [] = none
position_of id ((k, i) ∷ m) = if str_eq k id then some i else position_of id m

unfoldable pub find_by_id : WatchIndex → String → Option Watch
unfolding position_of
find_by_id index id = elim (position_of id index.by_id) [
  | none ↦ none
  | some i ↦ get_elem? index.watches i
]

unfoldable pub find_repos : WatchIndex → String → String → List Watch
unfolding watches_at positions_at normalise
find_repos index kind repo =
    watches_at index.watches (positions_at kind (normalise repo) index.by_repo)

unfoldable pub find_repos_any : WatchIndex → List String → String → List Watch
unfolding watches_at positions_at normalise
find_repos_any index [] repo = []
find_repos_any index (kind ∷ kinds) repo =
    watches_at index.watches (positions_at kind (normalise repo) index.by_repo)
    ++ find_repos_any index kinds repo

unfoldable pub find_images_any : WatchIndex → List String → String → List Watch
unfolding watches_at positions_at normalise
find_images_any index [] image = []
find_images_any index (kind ∷ kinds) image =
    watches_at index.watches (positions_at kind (normalise image) index.by_image)
    ++ find_images_any index kinds image
