-- ===== src/ReleaseUrls/RoundTrip.antt =====
-- Tags survive the way into an address and back.
use xrelease.Base.{
  ℕ, ◌/◌, ◌%◌, ◌<◌, ◌≤◌, ◌≡◌, ◌≢◌, refl, sym, ap, ◌∙◌, true, false, ◌&&◌, ◌||◌, none, some, [], ◌∷◌,
  ◌++◌, ◌==◌, All, length, arith, Bool-cases, inl, inr, length-append, All-append, ==-refl,
}
use mathlib.Core.List.{append_assoc}
use xrelease.ReleaseUrls.{
  Bytes, codes, percent, is_unreserved, hex_digit, encode_byte, encode_path_segment, from_hex,
  hex_pair, unescape, from_utf8_lossy, decode_path_segment, starts_with_bytes, drop, after_first,
  before_first, first_segment, tag_marker, tag_from_release_url, trim_slashes, gitea_release_url,
}

abbrev pub IsByte : ℕ → Type 0
IsByte b = b < 256

unescape-plain : (b : ℕ) (s : Bytes) → b ≢ percent → unescape (b ∷ s) ≡ b ∷ unescape s
unfolding unescape
unescape-plain b [] h = refl
unescape-plain b (c ∷ []) h = refl
unescape-plain b (c ∷ d ∷ s) h = ground arith

from_hex-hex_digit : (d : ℕ) → d < 16 → from_hex (hex_digit d) ≡ some d
unfolding from_hex hex_digit
from_hex-hex_digit d h = ground arith

hex_pair-hex_digit : (b : ℕ) → b < 256 → hex_pair (hex_digit (b / 16)) (hex_digit (b % 16)) ≡ some b
unfolding hex_pair
hex_pair-hex_digit b h =
    rw (from_hex-hex_digit (b / 16) (omega arith), from_hex-hex_digit (b % 16) (omega arith))
      (ap some (omega arith))

unreserved-ne-percent : (b : ℕ) → is_unreserved b ≡ true → b ≢ percent
unfolding is_unreserved
unreserved-ne-percent b h = ground arith

unescape-encode_byte :
    (b : ℕ) (s : Bytes) → b < 256 → unescape (encode_byte b ++ s) ≡ b ∷ unescape s
unfolding encode_byte
unescape-encode_byte b s h = elim (Bool-cases (is_unreserved b)) [
  | inl e ↦ rw e (unescape-plain b s (unreserved-ne-percent b e))
  | inr e ↦ rw e (unfold unescape in rw (hex_pair-hex_digit b h) refl)
]

pub unescape-encode : (s : Bytes) → All IsByte s → unescape (encode_path_segment s) ≡ s
unfolding encode_path_segment unescape
unescape-encode [] h = refl
unescape-encode (b ∷ s) h =
    unescape-encode_byte b (encode_path_segment s) h.0 ∙ ap (λ t. b ∷ t) (unescape-encode s h.1)

-- Decoding undoes encoding on every segment of bytes that is well-formed UTF-8, as every `&str` is.
pub decode-encode :
    (s : Bytes)
    → All IsByte s
    → from_utf8_lossy s ≡ s
    → decode_path_segment (encode_path_segment s) ≡ s
unfolding decode_path_segment
decode-encode s h u = ap from_utf8_lossy (unescape-encode s h) ∙ u

-- No byte ends a segment of an address.
abbrev Inside : ℕ → Type 0
Inside b = (b == b'/' || b == b'?' || b == b'#') ≡ false

hex_digit-Inside : (d : ℕ) → d < 16 → Inside (hex_digit d)
unfolding hex_digit
hex_digit-Inside d h = ground arith

unreserved-Inside : (b : ℕ) → is_unreserved b ≡ true → Inside b
unfolding is_unreserved
unreserved-Inside b h = ground arith

encode_byte-Inside : (b : ℕ) → b < 256 → All Inside (encode_byte b)
unfolding encode_byte
encode_byte-Inside b h = elim (Bool-cases (is_unreserved b)) [
  | inl e ↦ rw e (unreserved-Inside b e, tt)
  | inr e ↦ rw e (
    refl,
    (hex_digit-Inside (b / 16) (omega arith), (hex_digit-Inside (b % 16) (omega arith), tt)),
  )
]

encode-Inside : (s : Bytes) → All IsByte s → All Inside (encode_path_segment s)
unfolding encode_path_segment
encode-Inside [] h = tt
encode-Inside (b ∷ s) h =
    All-append Inside (encode_byte b) (encode_path_segment s) (encode_byte-Inside b h.0)
      (encode-Inside s h.1)

first_segment-Inside : (s : Bytes) → All Inside s → first_segment s ≡ s
unfolding first_segment
first_segment-Inside [] h = refl
first_segment-Inside (b ∷ s) h = rw h.0 (ap (λ t. b ∷ t) (first_segment-Inside s h.1))

before_first-Inside : (s : Bytes) → All Inside s → before_first tag_marker s ≡ s
unfolding before_first starts_with_bytes
before_first-Inside [] h = refl
before_first-Inside (b ∷ s) h =
    let rest : before_first tag_marker s ≡ s = before_first-Inside s h.1 in
    let other : (b'/' == b) ≡ false = ground (arith, h.0) in rw other (ap (λ t. b ∷ t) rest)

-- A test of the start looks no further than the prefix that it tests.
starts_with-append :
    (p s more : Bytes)
    → length p ≤ length s
    → starts_with_bytes p (s ++ more) ≡ starts_with_bytes p s
unfolding starts_with_bytes
starts_with-append [] s more h = refl
starts_with-append (c ∷ p) [] more h = absurd (omega arith)
starts_with-append (c ∷ p) (b ∷ s) more h =
    ap (λ t. c == b && t) (starts_with-append p s more (omega arith))

starts_with_self : (p more : Bytes) → starts_with_bytes p (p ++ more) ≡ true
unfolding starts_with_bytes
starts_with_self [] more = refl
starts_with_self (c ∷ p) more = rw (==-refl c) (starts_with_self p more)

drop-append : (p more : Bytes) → drop (length p) (p ++ more) ≡ more
unfolding drop
drop-append [] more = refl
drop-append (c ∷ p) more = drop-append p more

-- All of the marker but its last byte.
abbrev pub marker_front : Bytes
marker_front = codes "/releases/tag"

rest_of_marker :
    (front more : Bytes) → front ++ (tag_marker ++ more) ≡ (front ++ marker_front) ++ (b'/' ∷ more)
rest_of_marker front more = sym (append_assoc front marker_front (b'/' ∷ more))

misses :
    (b : ℕ) (s : Bytes)
    → after_first tag_marker (b ∷ s) ≡ none
    → (starts_with_bytes tag_marker (b ∷ s) ≡ false) × (after_first tag_marker s ≡ none)
unfolding after_first
misses b s h = elim (Bool-cases (starts_with_bytes tag_marker (b ∷ s))) [
  | inl e ↦ absurd (cc (rw e at h))
  | inr e ↦ (e, rw e at h)
]

passes :
    (b : ℕ) (s : Bytes)
    → starts_with_bytes tag_marker (b ∷ s) ≡ false
    → after_first tag_marker (b ∷ s) ≡ after_first tag_marker s
unfolding after_first
passes b s h = rw h refl

-- Where the marker does not start in `front`, the text behind its first occurrence is `more`.
after_first-marker :
    (front more : Bytes)
    → after_first tag_marker (front ++ marker_front) ≡ none
    → after_first tag_marker (front ++ (tag_marker ++ more)) ≡ some more
after_first-marker [] more h = unfold after_first starts_with_bytes drop in refl
after_first-marker (b ∷ front) more h =
    let (missed, later) = misses b (front ++ marker_front) h in
    let long : length tag_marker ≤ length (b ∷ (front ++ marker_front)) =
      omega (arith, length-append front marker_front) in
    let missed' : starts_with_bytes tag_marker (b ∷ (front ++ (tag_marker ++ more))) ≡ false =
      ap (λ t. starts_with_bytes tag_marker (b ∷ t)) (rest_of_marker front more)
      ∙ starts_with-append tag_marker (b ∷ (front ++ marker_front)) (b'/' ∷ more) long
      ∙ missed in
    passes b (front ++ (tag_marker ++ more)) missed' ∙ after_first-marker front more later

-- The tag that `tag_from_release_url` finds in the address that `gitea_release_url` writes is the
-- tag itself, whatever its bytes, if the tag is well-formed UTF-8 and the marker `/releases/tag/`
-- does not start in the part of the address before it.
pub tag_from-gitea :
    (base repo tag : Bytes)
    → All IsByte tag
    → from_utf8_lossy tag ≡ tag
    → after_first tag_marker ((trim_slashes base ++ b'/' ∷ repo) ++ marker_front) ≡ none
    → tag_from_release_url (gitea_release_url base repo tag) ≡ some tag
unfolding tag_from_release_url gitea_release_url
tag_from-gitea base repo tag h u clear =
    let inside : All Inside (encode_path_segment tag) = encode-Inside tag h in
    rw
      (
        after_first-marker (trim_slashes base ++ b'/' ∷ repo) (encode_path_segment tag) clear,
        before_first-Inside (encode_path_segment tag) inside,
        first_segment-Inside (encode_path_segment tag) inside,
        decode-encode tag h u,
      )
      refl
