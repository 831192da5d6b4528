-- ===== src/WatchLookup/Select.antt =====
-- What the index finds is what a search through all watches finds.
use mathlib.Core.List.{append_assoc, append-nil}
use xrelease.Base.{
  ℕ, zero, suc, String, ◌≡◌, refl, sym, ap, ◌∙◌, Bool, true, false, ◌&&◌, some, List, [], ◌∷◌, ◌++◌,
  str_eq, if◌then◌else◌, get_elem?, length, select, arith, eq_iff, Bool-cases, inl, inr,
}
use xrelease.Config.Watches.{Watch}
use xrelease.WatchLookup.{
  Positions, WatchIndex, normalise, positions_at, push_at, kind_of, name_of, is_container,
  index_watch, index_from, new, at, watches_at, find_repos, find_images_any,
}

-- The positions, counted from `i`, of the elements that pass the test.
abbrev where_from : ℕ → (Watch → Bool) → List Watch → List ℕ
where_from i p [] = []
where_from i p (w ∷ ws) = let rest = where_from (suc i) p ws in if p w then i ∷ rest else rest

both_true : (a b : Bool) → (a && b) ≡ true → (a ≡ true) × (b ≡ true)
both_true a b h = ground arith

same_test :
    (k n k' n' kind name : String)
    → (str_eq k' k && str_eq n' n) ≡ true
    → (str_eq k' kind && str_eq n' name) ≡ (str_eq k kind && str_eq n name)
same_test k n k' n' kind name e =
    let (p, q) = both_true _ _ e in
    let k'-k : k' ≡ k = (eq_iff k' k).0 p in
    let n'-n : n' ≡ n = (eq_iff n' n).0 q in
    cc (ap (λ t. str_eq t kind) k'-k, ap (λ t. str_eq t name) n'-n)

other_test :
    (k n k' n' kind name : String)
    → (str_eq k' k && str_eq n' n) ≡ false
    → (str_eq k' kind && str_eq n' name) ≡ true
    → (str_eq k kind && str_eq n name) ≡ false
other_test k n k' n' kind name e f =
    let (p, q) = both_true _ _ f in
    let k'-kind : k' ≡ kind = (eq_iff k' kind).0 p in
    let n'-name : n' ≡ name = (eq_iff n' name).0 q in
    ground (arith, eq_iff k kind, eq_iff n name, eq_iff k' k, eq_iff n' n)

positions_at-push_at :
    (kind name k n : String) (i : ℕ) (m : Positions)
    → positions_at kind name (push_at k n i m)
      ≡ positions_at kind name m ++ (if str_eq k kind && str_eq n name then i ∷ [] else [])
unfolding positions_at push_at
positions_at-push_at kind name k n i [] = ground arith
positions_at-push_at kind name k n i ((k', n', is) ∷ m) =
    elim (Bool-cases (str_eq k' k && str_eq n' n)) [
      | inl e ↦ rw e (elim (Bool-cases (str_eq k' kind && str_eq n' name)) [
        | inl f ↦ rw (f, sym (same_test k n k' n' kind name e) ∙ f) refl
        | inr f ↦ rw (f, sym (same_test k n k' n' kind name e) ∙ f) (sym (append-nil _))
      ])
      | inr e ↦ rw e (elim (Bool-cases (str_eq k' kind && str_eq n' name)) [
        | inl f ↦ rw (f, other_test k n k' n' kind name e f) (sym (append-nil _))
        | inr f ↦ rw f (positions_at-push_at kind name k n i m)
      ])
    ]

first_of :
    (b : Bool) (i : ℕ) (is : List ℕ) → (if b then i ∷ [] else []) ++ is ≡ (if b then i ∷ is else is)
first_of true i is = refl
first_of false i is = refl

get-length :
    (front : List Watch) (w : Watch) (ws : List Watch)
    → get_elem? (front ++ w ∷ ws) (length front) ≡ some w
get-length [] w ws = refl
get-length (v ∷ front) w ws = get-length front w ws

length-snoc : (front : List Watch) (w : Watch) → length (front ++ w ∷ []) ≡ suc (length front)
length-snoc [] w = refl
length-snoc (v ∷ front) w = ap suc (length-snoc front w)

-- The watches at the positions that pass a test are those that pass it.
watches_at-where_from :
    (p : Watch → Bool) (ws front all : List Watch) (i : ℕ)
    → all ≡ front ++ ws
    → i ≡ length front
    → watches_at all (where_from i p ws) ≡ select p ws
unfolding watches_at at
watches_at-where_from p [] front all i h k = refl
watches_at-where_from p (w ∷ ws) front all i h k =
    let rest : watches_at all (where_from (suc i) p ws) ≡ select p ws =
      watches_at-where_from p ws (front ++ w ∷ []) all (suc i)
        (h ∙ sym (append_assoc front (w ∷ []) ws)) (ap suc k ∙ sym (length-snoc front w)) in
    let here : get_elem? all i ≡ some w =
      ap (λ l. get_elem? l i) h ∙ ap (get_elem? (front ++ w ∷ ws)) k ∙ get-length front w ws in
    elim (Bool-cases (p w)) [ inl e ↦ rw e (rw here (ap (λ l. w ∷ l) rest)) | inr e ↦ rw e rest ]

module _ (kind name : String) where
  -- The watch goes by this kind and name.
  abbrev pub goes_by : Watch → Bool
  goes_by w = str_eq (kind_of w) kind && str_eq (name_of w) name

  abbrev pub contains_image : Watch → Bool
  contains_image w = is_container w && goes_by w

  image_step :
      (i : ℕ) (w : Watch) (index : WatchIndex)
      → positions_at kind name (index_watch i w index).by_image
        ≡ positions_at kind name index.by_image ++ (if contains_image w then i ∷ [] else [])
  unfolding index_watch
  image_step i w index = elim (Bool-cases (is_container w)) [
    | inl e ↦ rw e (positions_at-push_at kind name (kind_of w) (name_of w) i index.by_image)
    | inr e ↦ rw e (sym (append-nil _))
  ]

  by_repo-from :
      (i : ℕ) (ws : List Watch) (index : WatchIndex)
      → positions_at kind name (index_from i ws index).by_repo
        ≡ positions_at kind name index.by_repo ++ where_from i goes_by ws
  unfolding index_from index_watch
  by_repo-from i [] index = sym (append-nil _)
  by_repo-from i (w ∷ ws) index =
      by_repo-from (suc i) ws (index_watch i w index)
      ∙ ap (λ l. l ++ where_from (suc i) goes_by ws)
          (positions_at-push_at kind name (kind_of w) (name_of w) i index.by_repo)
      ∙ append_assoc (positions_at kind name index.by_repo) _ _
      ∙ ap (λ l. positions_at kind name index.by_repo ++ l) (first_of (goes_by w) i _)

  by_image-from :
      (i : ℕ) (ws : List Watch) (index : WatchIndex)
      → positions_at kind name (index_from i ws index).by_image
        ≡ positions_at kind name index.by_image ++ where_from i contains_image ws
  unfolding index_from
  by_image-from i [] index = sym (append-nil _)
  by_image-from i (w ∷ ws) index =
      by_image-from (suc i) ws (index_watch i w index)
      ∙ ap (λ l. l ++ where_from (suc i) contains_image ws) (image_step i w index)
      ∙ append_assoc (positions_at kind name index.by_image) _ _
      ∙ ap (λ l. positions_at kind name index.by_image ++ l) (first_of (contains_image w) i _)

  watches-from :
      (i : ℕ) (ws : List Watch) (index : WatchIndex)
      → (index_from i ws index).watches ≡ index.watches
  unfolding index_from index_watch
  watches-from i [] index = refl
  watches-from i (w ∷ ws) index = watches-from (suc i) ws (index_watch i w index)

abbrev blank : List Watch → WatchIndex
blank ws = record { watches = ws; by_id = []; by_repo = []; by_image = [] }

-- The index finds for a kind and a repository all watches of that kind and of that repository, in
-- their order and each as often as it is configured: spaces around the names and the case of ASCII
-- letters do not count.
pub find_repos-new :
    (ws : List Watch) (kind repo : String)
    → find_repos (new ws) kind repo ≡ select (goes_by kind (normalise repo)) ws
unfolding find_repos new
find_repos-new ws kind repo =
    let name : String = normalise repo in
    rw (watches-from kind name zero ws (blank ws), by_repo-from kind name zero ws (blank ws))
      (watches_at-where_from (goes_by kind name) ws [] ws zero refl refl)

-- The watches of container registries that go by one of the kinds and by the image, kind by kind.
abbrev pub images_of : List Watch → String → List String → List Watch
images_of ws name [] = []
images_of ws name (kind ∷ kinds) = select (contains_image kind name) ws ++ images_of ws name kinds

-- For each kind in turn, the index finds for an image all watches of that kind, if it is a
-- container registry, and of that image, in their order.
pub find_images_any-new :
    (ws : List Watch) (kinds : List String) (image : String)
    → find_images_any (new ws) kinds image ≡ images_of ws (normalise image) kinds
unfolding find_images_any new
find_images_any-new ws [] image = refl
find_images_any-new ws (kind ∷ kinds) image =
    let name : String = normalise image in
    let rest : find_images_any (new ws) kinds image ≡ images_of ws name kinds =
      find_images_any-new ws kinds image in
    let found : watches_at (new ws).watches (positions_at kind name (new ws).by_image)
        ≡ select (contains_image kind name) ws =
      rw (watches-from kind name zero ws (blank ws), by_image-from kind name zero ws (blank ws))
        (watches_at-where_from (contains_image kind name) ws [] ws zero refl refl) in
    cc
