-- ===== src/Text/Pieces.antt =====
-- What the configuration uses of Rust's `str`: prefixes, separators and replacement.
use Prim.Native.String.{◌++◌, count}
use Prim.Native.Char.{Char, code}
use xrelease.Base.{
  ℕ, zero, suc, ◌-◌, String, ◌≡◌, refl, ◌&&◌, Option, none, some, ◌==◌, str_eq, if◌then◌else◌, leb,
}
use xrelease.Text.{starts_with}
use Prim.Native.String.{char_at}

unfoldable pub strip_prefix : String → String → Option String
strip_prefix String.[] s = some s
strip_prefix (String.◌∷◌ p ps) String.[] = none
strip_prefix (String.◌∷◌ p ps) (String.◌∷◌ c s) =
    let rest = strip_prefix ps s in if code p == code c then rest else none

-- `split_once` at the first occurrence of a separator that is not empty.
pub onto : Char → Option (String × String) → Option (String × String)
onto c none = none
onto c (some (a, b)) = some (String.◌∷◌ c a, b)

unfoldable pub split_at_first : String → String → Option (String × String)
unfolding strip_prefix onto
split_at_first sep String.[] = none
split_at_first sep (String.◌∷◌ c s) = elim (strip_prefix sep (String.◌∷◌ c s)) [
  | some rest ↦ some ("", rest)
  | none ↦ onto c (split_at_first sep s)
]

-- `trim_end_matches('/')`
unfoldable pub trim_end_slashes : String → String
trim_end_slashes String.[] = String.[]
trim_end_slashes (String.◌∷◌ c s) =
    let rest = trim_end_slashes s in
    if str_eq rest "" && code c == b'/' then String.[] else String.◌∷◌ c rest

-- `replace`: the number says how many characters of a replaced part are still to be skipped.
replace_from : String → String → ℕ → String → String
replace_from old new skip String.[] = String.[]
replace_from old new (suc skip) (String.◌∷◌ c s) = replace_from old new skip s
replace_from old new zero (String.◌∷◌ c s) =
    let replaced = new ++ replace_from old new (count old - 1) s in
    let kept = String.◌∷◌ c (replace_from old new zero s) in
    if starts_with old (String.◌∷◌ c s) then replaced else kept

unfoldable pub replace : String → String → String → String
unfolding replace_from starts_with
replace old new s = replace_from old new zero s

upper_char : Char → Char
upper_char c =
    if leb b'a' (code c) && leb (code c) b'z'
    then char_at "ABCDEFGHIJKLMNOPQRSTUVWXYZ" (code c - b'a')
    else c

unfoldable pub to_ascii_uppercase : String → String
unfolding upper_char
to_ascii_uppercase String.[] = String.[]
to_ascii_uppercase (String.◌∷◌ c s) = String.◌∷◌ (upper_char c) (to_ascii_uppercase s)

replace_runs : replace "aa" "b" "aaaxaa" ≡ "baxb"
unfolding replace
replace_runs = refl

split_runs : split_at_first "::" "a:b::c::d" ≡ some ("a:b", "c::d")
unfolding split_at_first
split_runs = refl
