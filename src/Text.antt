-- ===== src/Text.antt =====
-- What the program uses of Rust's `str`.
pub mod Pieces
pub mod Prefixes
use Prim.Native.Char.{Char, code}
use Prim.Native.String.{char_at}
use xrelease.Base.{
  ℕ, zero, suc, true, false, List, [], ◌∷◌, Option, none, some, ◌/◌, ◌%◌, ltb, ◌-◌, String, ◌≡◌,
  refl, Bool, ◌&&◌, ◌||◌, ◌==◌, leb, str_eq, if◌then◌else◌,
}

-- `char::is_whitespace`: the code points with the property White_Space.
unfoldable pub is_whitespace : ℕ → Bool
is_whitespace c =
    (leb 9 c && leb c 13)
    || c == 32
    || c == 133
    || c == 160
    || c == 5760
    || (leb 8192 c && leb c 8202)
    || c == 8232
    || c == 8233
    || c == 8239
    || c == 8287
    || c == 12288

pub trim_start : String → String
trim_start String.[] = String.[]
trim_start (String.◌∷◌ c s) =
    let rest = trim_start s in if is_whitespace (code c) then rest else String.◌∷◌ c s

pub trim_end : String → String
trim_end String.[] = String.[]
trim_end (String.◌∷◌ c s) =
    let rest = trim_end s in
    if str_eq rest "" && is_whitespace (code c) then String.[] else String.◌∷◌ c rest

unfoldable pub trim : String → String
unfolding trim_start trim_end is_whitespace
trim s = trim_end (trim_start s)

lower_char : Char → Char
lower_char c =
    if leb b'A' (code c) && leb (code c) b'Z'
    then char_at "abcdefghijklmnopqrstuvwxyz" (code c - b'A')
    else c

unfoldable pub to_ascii_lowercase : String → String
unfolding lower_char
to_ascii_lowercase String.[] = String.[]
to_ascii_lowercase (String.◌∷◌ c s) = String.◌∷◌ (lower_char c) (to_ascii_lowercase s)

-- `{}` of a number, by fuel: a number has fewer digits than it is plus one.
decimal_digits : ℕ → ℕ → String → String
decimal_digits zero n rest = rest
decimal_digits (suc fuel) n rest =
    let text = String.◌∷◌ (char_at "0123456789" (n % 10)) rest in
    let more = decimal_digits fuel (n / 10) text in if ltb n 10 then text else more

unfoldable pub decimal : ℕ → String
unfolding decimal_digits
decimal n = decimal_digits (suc n) n ""

unfoldable pub starts_with : String → String → Bool
starts_with String.[] s = true
starts_with (String.◌∷◌ p ps) String.[] = false
starts_with (String.◌∷◌ p ps) (String.◌∷◌ c s) = code p == code c && starts_with ps s

-- `contains` of a text.
unfoldable pub has_substring : String → String → Bool
has_substring String.[] part = starts_with part String.[]
has_substring (String.◌∷◌ c s) part = starts_with part (String.◌∷◌ c s) || has_substring s part

is_alphanumeric : ℕ → Bool
is_alphanumeric c =
    (leb b'0' c && leb c b'9') || (leb b'A' c && leb c b'Z') || (leb b'a' c && leb c b'z')

-- `split` at the characters that are not ASCII alphanumeric: the first piece, and the others.
unfoldable pub split_words : String → String × List String
unfolding is_alphanumeric
split_words String.[] = ("", [])
split_words (String.◌∷◌ c s) =
    let (first, others) = split_words s in
    if is_alphanumeric (code c) then (String.◌∷◌ c first, others) else ("", first ∷ others)

-- The first `n` characters, if there are more.
unfoldable pub cut_after : ℕ → String → Option String
cut_after n String.[] = none
cut_after zero (String.◌∷◌ c s) = some ""
cut_after (suc n) (String.◌∷◌ c s) = prefixed c (cut_after n s)
  where
    prefixed : Char → Option String → Option String
    prefixed c none = none
    prefixed c (some s) = some (String.◌∷◌ c s)

decimal_runs : decimal 1070 ≡ "1070"
unfolding decimal
decimal_runs = refl

trim_runs : trim "  a b " ≡ "a b"
unfolding trim
trim_runs = refl

lower_runs : to_ascii_lowercase "Tokio-RS/é" ≡ "tokio-rs/é"
unfolding to_ascii_lowercase
lower_runs = refl

-- `split_once` at the first occurrence of a character, by its code.
unfoldable pub split_once : ℕ → String → Option (String × String)
split_once sep String.[] = none
split_once sep (String.◌∷◌ c s) =
    let rest = split_once sep s in if code c == sep then some ("", s) else onto c rest
  where
    onto : Char → Option (String × String) → Option (String × String)
    onto c none = none
    onto c (some (a, b)) = some (String.◌∷◌ c a, b)
