-- ===== src/ReleaseUrls.antt =====
-- src/sources/release_urls.rs: the percent encoding of a release tag, and the addresses of release
-- pages. A text is the list of its UTF-8 bytes.
use Prim.Native.Char.{code}
use xrelease.Base.{
  ℕ, zero, suc, ◌+◌, ◌-◌, ◌*◌, ◌/◌, ◌%◌, String, ◌≡◌, refl, Bool, true, false, ◌&&◌, ◌||◌, Option,
  none, some, List, [], ◌∷◌, ◌++◌, ltb, leb, ◌==◌, if◌then◌else◌, is_empty, length,
}
use mathlib.Core.Option
pub mod RoundTrip

abbrev pub Bytes : Type 0
Bytes = List ℕ

-- The bytes of an ASCII text.
abbrev pub codes : String → Bytes
codes String.[] = []
codes (String.◌∷◌ c s) = code c ∷ codes s

abbrev pub percent : ℕ
percent = b'%'

pub is_unreserved : ℕ → Bool
is_unreserved b =
    (leb b'a' b && leb b b'z')
    || (leb b'A' b && leb b b'Z')
    || (leb b'0' b && leb b b'9')
    || b == b'-'
    || b == b'_'
    || b == b'.'
    || b == b'~'

-- A digit of `{:02X}`.
pub hex_digit : ℕ → ℕ
hex_digit d = if ltb d 10 then b'0' + d else b'A' + (d - 10)

pub encode_byte : ℕ → Bytes
encode_byte b =
    if is_unreserved b then b ∷ [] else percent ∷ hex_digit (b / 16) ∷ hex_digit (b % 16) ∷ []

unfoldable pub encode_path_segment : Bytes → Bytes
unfolding encode_byte is_unreserved hex_digit
encode_path_segment [] = []
encode_path_segment (b ∷ segment) = encode_byte b ++ encode_path_segment segment

pub from_hex : ℕ → Option ℕ
from_hex b =
    if leb b'0' b && leb b b'9'
    then some (b - b'0')
    else if leb b'a' b && leb b b'f'
    then some (b - b'a' + 10)
    else if leb b'A' b && leb b b'F'
    then some (b - b'A' + 10)
    else none

-- `(hi << 4) | lo` of two hexadecimal digits.
pub hex_pair : ℕ → ℕ → Option ℕ
hex_pair a b = pair_up (from_hex a) (from_hex b)
  where
    pair_up : Option ℕ → Option ℕ → Option ℕ
    pair_up none lo = none
    pair_up (some hi) none = none
    pair_up (some hi) (some lo) = some (hi * 16 + lo)

-- The loop of `decode_path_segment`: the bytes that it pushes.
pub unescape : Bytes → Bytes
unescape [] = []
unescape (b ∷ []) = b ∷ []
unescape (b ∷ c ∷ []) = b ∷ unescape (c ∷ [])
unescape (b ∷ c ∷ d ∷ rest) =
    let after = unescape rest in
    let next = unescape (c ∷ d ∷ rest) in
    if b == percent then elim (hex_pair c d) [ some v ↦ v ∷ after | none ↦ b ∷ next ] else b ∷ next

-- `String::from_utf8_lossy`: each maximal ill-formed part becomes U+FFFD.
abbrev replacement : Bytes
replacement = 239 ∷ 191 ∷ 189 ∷ []

is_continuation : ℕ → Bool
is_continuation b = leb 128 b && leb b 191

-- Whether a byte may follow the lead byte of a sequence of three, or of four.
second_of_three : ℕ → ℕ → Bool
second_of_three b c =
    if b == 224
    then leb 160 c && leb c 191
    else if b == 237
    then leb 128 c && leb c 159
    else is_continuation c

second_of_four : ℕ → ℕ → Bool
second_of_four b c =
    if b == 240
    then leb 144 c && leb c 191
    else if b == 244
    then leb 128 c && leb c 143
    else is_continuation c

-- The bytes that a sequence still needs after its lead byte, and the test of the first of them.
more_of : ℕ → ℕ
more_of b =
    if leb 194 b && leb b 223
    then 1
    else if leb 224 b && leb b 239
    then 2
    else if leb 240 b && leb b 244
    then 3
    else 0

follows : ℕ → ℕ → Bool
unfolding is_continuation second_of_three second_of_four
follows b c =
    if leb 240 b
    then second_of_four b c
    else if leb 224 b
    then second_of_three b c
    else is_continuation c

-- A sequence is being read: `held` are its bytes so far, `need` says how many are missing, and
-- `fits` is the test of the next one.
lossy : Bytes → ℕ → (ℕ → Bool) → Bytes → Bytes
unfolding more_of follows is_continuation
lossy held need fits [] = if need == 0 then [] else replacement
lossy held need fits (b ∷ rest) =
    let more = lossy (held ++ b ∷ []) (need - 1) is_continuation rest in
    let last = held ++ b ∷ lossy [] 0 is_continuation rest in
    let plain = b ∷ lossy [] 0 is_continuation rest in
    let lead = lossy (b ∷ []) (more_of b) (follows b) rest in
    let bad = replacement ++ lossy [] 0 is_continuation rest in
    let begin = if ltb b 128 then plain else if more_of b == 0 then bad else lead in
    if need == 0
    then begin
    else if fits b
    then if need == 1 then last else more
    else replacement ++ begin

unfoldable pub from_utf8_lossy : Bytes → Bytes
unfolding lossy is_continuation
from_utf8_lossy s = lossy [] 0 is_continuation s

unfoldable pub decode_path_segment : Bytes → Bytes
unfolding unescape hex_pair from_hex from_utf8_lossy
decode_path_segment segment = from_utf8_lossy (unescape segment)

unfoldable pub starts_with_bytes : Bytes → Bytes → Bool
starts_with_bytes [] s = true
starts_with_bytes (p ∷ ps) [] = false
starts_with_bytes (p ∷ ps) (b ∷ s) = p == b && starts_with_bytes ps s

-- The text after a prefix of a given length.
pub drop : ℕ → Bytes → Bytes
drop zero s = s
drop (suc n) [] = []
drop (suc n) (b ∷ s) = drop n s

-- The text behind the first occurrence of a separator.
unfoldable pub after_first : Bytes → Bytes → Option Bytes
unfolding starts_with_bytes drop
after_first sep [] = none
after_first sep (b ∷ s) =
    let rest = after_first sep s in
    if starts_with_bytes sep (b ∷ s) then some (drop (length sep) (b ∷ s)) else rest

-- The text before the first occurrence of a separator, all of it if there is none.
unfoldable pub before_first : Bytes → Bytes → Bytes
unfolding starts_with_bytes
before_first sep [] = []
before_first sep (b ∷ s) =
    let rest = before_first sep s in if starts_with_bytes sep (b ∷ s) then [] else b ∷ rest

-- `rest.split(['/', '?', '#']).next()`
unfoldable pub first_segment : Bytes → Bytes
first_segment [] = []
first_segment (b ∷ s) =
    let rest = first_segment s in if b == b'/' || b == b'?' || b == b'#' then [] else b ∷ rest

abbrev pub tag_marker : Bytes
tag_marker = codes "/releases/tag/"

-- `split(…).nth(1)` is the text between the first two occurrences of the marker.
unfoldable pub tag_from_release_url : Bytes → Option Bytes
unfolding after_first before_first first_segment decode_path_segment
tag_from_release_url url =
    Option.map (λ rest. decode_path_segment (first_segment (before_first tag_marker rest)))
      (after_first tag_marker url)

unfoldable pub trim_slashes : Bytes → Bytes
trim_slashes [] = []
trim_slashes (b ∷ s) =
    let rest = trim_slashes s in if is_empty rest && b == b'/' then [] else b ∷ rest

unfoldable pub gitea_release_url : Bytes → Bytes → Bytes → Bytes
unfolding trim_slashes encode_path_segment
gitea_release_url web_base repo tag =
    (trim_slashes web_base ++ b'/' ∷ repo) ++ (tag_marker ++ encode_path_segment tag)

unfoldable pub gitlab_release_url : Bytes → Bytes → Bytes → Bytes
unfolding trim_slashes encode_path_segment
gitlab_release_url host project tag =
    (trim_slashes host ++ b'/' ∷ project) ++ (codes "/-/releases/" ++ encode_path_segment tag)

decode_runs : decode_path_segment (codes "backup%2F38320%ZZ%") ≡ codes "backup/38320%ZZ%"
unfolding decode_path_segment
decode_runs = refl

lossy_runs :
    from_utf8_lossy (65 ∷ 195 ∷ 169 ∷ 226 ∷ 130 ∷ 65 ∷ 255 ∷ [])
    ≡ 65 ∷ 195 ∷ 169 ∷ (replacement ++ 65 ∷ replacement)
unfolding from_utf8_lossy
lossy_runs = refl

tag_runs :
    tag_from_release_url (codes "https://github.com/w/w/releases/tag/a%2Fb?x=1")
    ≡ some (codes "a/b")
unfolding tag_from_release_url
tag_runs = refl
