-- ===== src/Model.antt =====
-- src/model.rs: releases and the order between them. The type of semantic versions and its order
-- are the `semver` crate's, the hash of texts is the standard library's: all three are arbitrary
-- here.
pub mod Parse
use Prim.Native.Char.{code}
use Prim.Native.Nat.{compare, Ordering, lt, eq, gt}
use xrelease.Base.{
  ℕ, ◌+◌, ◌-◌, ◌*◌, ◌^◌, String, Bool, Option, none, some, List, [], ◌∷◌, ◌==◌, ◌||◌, ◌&&◌, ltb,
  leb, str_eq, if◌then◌else◌,
}
use xrelease.Text.{trim}

pub record Release (V : Type 0) : Type 0 where
  pub id : String
  pub raw_tag : String
  pub version : Option V
  pub url : Option String
  pub published_at : Option ℕ
  pub prerelease : Bool
  pub body : Option String

or_empty : Option String → String
or_empty none = ""
or_empty (some s) = s

-- The hash of the body and the URL.
unfoldable pub content_fingerprint : {V : Type 0} → (String → String → String) → Release V → String
unfolding or_empty
content_fingerprint hash r = hash (or_empty r.body) (or_empty r.url)

-- `trim_start_matches(['v', 'V'])`
pub trim_start_v : String → String
trim_start_v String.[] = String.[]
trim_start_v (String.◌∷◌ c s) =
    let rest = trim_start_v s in if code c == b'v' || code c == b'V' then rest else String.◌∷◌ c s

-- Up to the first `-` or `+`.
core_of : String → String
core_of String.[] = String.[]
core_of (String.◌∷◌ c s) =
    let rest = core_of s in
    if code c == b'-' || code c == b'+' then String.[] else String.◌∷◌ c rest

-- `split('.')`: the first piece, and the others.
split_dots : String → String × List String
split_dots String.[] = ("", [])
split_dots (String.◌∷◌ c s) =
    let (first, others) = split_dots s in
    if code c == b'.' then ("", first ∷ others) else (String.◌∷◌ c first, others)

-- The number of a text of decimal digits, after a prefix with the value `n`.
digits_from : ℕ → String → Option ℕ
digits_from n String.[] = some n
digits_from n (String.◌∷◌ c s) =
    let rest = digits_from (n * 10 + (code c - b'0')) s in
    if leb b'0' (code c) && leb (code c) b'9' then rest else none

fits_u64 : Option ℕ → Option ℕ
fits_u64 none = none
fits_u64 (some n) = if ltb n (2 ^ 64) then some n else none

-- A component: not empty, decimal digits, and in the range of `u64`.
component : String → Option ℕ
component s = if str_eq s "" then none else fits_u64 (digits_from 0 s)

cons_part : Option ℕ → Option (List ℕ) → Option (List ℕ)
cons_part (some n) (some ns) = some (n ∷ ns)
cons_part _ _ = none

components : List String → Option (List ℕ)
components [] = some []
components (p ∷ parts) = cons_part (component p) (components parts)

unfoldable pub numeric_parts : String → Option (List ℕ)
unfolding trim_start_v core_of split_dots digits_from fits_u64 component cons_part components
numeric_parts tag =
    let (first, others) = split_dots (core_of (trim_start_v (trim tag))) in
    components (first ∷ others)

abbrev pub then_cmp : Ordering → Ordering → Ordering
then_cmp eq o = o
then_cmp lt o = lt
then_cmp gt o = gt

unfoldable pub cmp_list : List ℕ → List ℕ → Ordering
cmp_list [] [] = eq
cmp_list [] (y ∷ ys) = lt
cmp_list (x ∷ xs) [] = gt
cmp_list (x ∷ xs) (y ∷ ys) = then_cmp (compare x y) (cmp_list xs ys)

-- Texts compare by their bytes, which is by their code points.
unfoldable pub cmp_text : String → String → Ordering
cmp_text String.[] String.[] = eq
cmp_text String.[] (String.◌∷◌ d t) = lt
cmp_text (String.◌∷◌ c s) String.[] = gt
cmp_text (String.◌∷◌ c s) (String.◌∷◌ d t) = then_cmp (compare (code c) (code d)) (cmp_text s t)

-- `None` is below every `Some`.
abbrev pub cmp_option : {A : Type 0} → (A → A → Ordering) → Option A → Option A → Ordering
cmp_option cmp none none = eq
cmp_option cmp none (some b) = lt
cmp_option cmp (some a) none = gt
cmp_option cmp (some a) (some b) = cmp a b

cmp_numeric : Option (List ℕ) → Option (List ℕ) → Ordering
cmp_numeric (some a) (some b) = cmp_list a b
cmp_numeric _ _ = eq

cmp_published : Option ℕ → Option ℕ → Ordering → Ordering
cmp_published none none by_tag = by_tag
cmp_published a b by_tag = cmp_option compare a b

module _ {V : Type 0} (version_cmp : V → V → Ordering) where
  cmp_versions : Option V → Option V → Ordering → Ordering
  cmp_versions (some a) (some b) by_numeric = then_cmp (version_cmp a b) by_numeric
  cmp_versions a b by_numeric = cmp_option version_cmp a b

  unfoldable pub compare_releases : Release V → Release V → Ordering
  unfolding cmp_numeric cmp_published cmp_versions
  compare_releases a b =
      then_cmp
        (cmp_versions a.version b.version
          (cmp_numeric (numeric_parts a.raw_tag) (numeric_parts b.raw_tag)))
        (cmp_published a.published_at b.published_at (cmp_text a.raw_tag b.raw_tag))

  -- `max_by`: the last of the greatest.
  latest_from : Release V → List (Release V) → Release V
  latest_from best [] = best
  latest_from best (r ∷ releases) =
      latest_from (elim (compare_releases best r) [ gt ↦ best | _ ↦ r ]) releases

  unfoldable pub pick_latest : List (Release V) → Option (Release V)
  unfolding latest_from
  pick_latest [] = none
  pick_latest (r ∷ releases) = some (latest_from r releases)
