-- ===== src/Text/Prefixes.antt =====
-- Texts with a prefix, and what trimming does to them.
use Prim.Native.Char.{Char, code}
use Prim.Native.String.{◌++◌}
use text.Mathlib.TextEquality.{Char-path}
use text.Mathlib.TextLemmas.{nil-append, cons-append, cons-ne-nil}
use xrelease.Base.{
  ℕ, String, ◌≡◌, refl, sym, ap, ◌∙◌, Bool, true, false, not, ◌&&◌, ◌==◌, str_eq, Bool-cases, inl,
  inr, arith, ==→eq, eq_iff,
}
use xrelease.Text.{trim, trim_start, trim_end, is_whitespace, starts_with}

-- No character of the text is `sep`.
abbrev pub Lacks : ℕ → String → Type 0
Lacks sep String.[] = Unit
Lacks sep (String.◌∷◌ c s) = ((code c == sep) ≡ false) × Lacks sep s

-- The text does not begin with a space.
abbrev pub begins_clear : String → Bool
begins_clear String.[] = true
begins_clear (String.◌∷◌ c s) = not (is_whitespace (code c))

-- `++` by its clauses, which the native one does not compute by.
abbrev pub glue : String → String → String
glue String.[] t = t
glue (String.◌∷◌ c s) t = String.◌∷◌ c (glue s t)

pub append-glue : (s t : String) → s ++ t ≡ glue s t
append-glue String.[] t = nil-append t
append-glue (String.◌∷◌ c s) t = cons-append c s t ∙ ap (String.◌∷◌ c) (append-glue s t)

pub glue_assoc : (s t u : String) → glue (glue s t) u ≡ glue s (glue t u)
glue_assoc String.[] t u = refl
glue_assoc (String.◌∷◌ c s) t u = ap (String.◌∷◌ c) (glue_assoc s t u)

begins_clear-trim_start : (s : String) → begins_clear (trim_start s) ≡ true
unfolding trim_start
begins_clear-trim_start String.[] = refl
begins_clear-trim_start (String.◌∷◌ c s) = elim (Bool-cases (is_whitespace (code c))) [
  | inl e ↦ rw e (begins_clear-trim_start s)
  | inr e ↦ rw e (rw e refl)
]

trim_start_clear : (s : String) → begins_clear s ≡ true → trim_start s ≡ s
unfolding trim_start
trim_start_clear String.[] h = refl
trim_start_clear (String.◌∷◌ c s) h = ground arith

begins_clear-trim_end : (s : String) → begins_clear s ≡ true → begins_clear (trim_end s) ≡ true
unfolding trim_end
begins_clear-trim_end String.[] h = refl
begins_clear-trim_end (String.◌∷◌ c s) h = ground arith

trim_end-trim_end : (s : String) → trim_end (trim_end s) ≡ trim_end s
unfolding trim_end
trim_end-trim_end String.[] = refl
trim_end-trim_end (String.◌∷◌ c s) =
    elim (Bool-cases (str_eq (trim_end s) "" && is_whitespace (code c))) [
      | inl e ↦ rw e refl
      | inr e ↦ rw e (rw (trim_end-trim_end s) (rw e refl))
    ]

pub trim-trim : (s : String) → trim (trim s) ≡ trim s
unfolding trim
trim-trim s =
    ap trim_end (
      trim_start_clear (trim_end (trim_start s))
        (begins_clear-trim_end (trim_start s) (begins_clear-trim_start s)))
    ∙ trim_end-trim_end (trim_start s)

-- `o::x`
abbrev pub scope : String → String → String
scope o x = glue o (glue "::" x)

-- `t` is a text of the organization `o`.
abbrev pub Within : String → String → Type 0
Within o t = (x : String) × (t ≡ scope o x)

pub split_prefix : (p s : String) → starts_with p s ≡ true → (x : String) × (s ≡ glue p x)
unfolding starts_with
split_prefix String.[] s h = (s, refl)
split_prefix (String.◌∷◌ c p) String.[] h = absurd (cc)
split_prefix (String.◌∷◌ c p) (String.◌∷◌ d s) h = elim (Bool-cases (code c == code d)) [
  | inl e ↦
      let (x, r) = split_prefix p s (rw e at h) in
      let same : c ≡ d = Char-path c d (==→eq (code c) (code d) e) in (x, cc)
  | inr e ↦ absurd (cc (rw e at h))
]

cons_not_blank : (c : Char) (s : String) → str_eq (String.◌∷◌ c s) "" ≡ false
cons_not_blank c s = elim (Bool-cases (str_eq (String.◌∷◌ c s) "")) [
  | inl e ↦ absurd (cons-ne-nil c s ((eq_iff (String.◌∷◌ c s) "").0 e))
  | inr e ↦ e
]

pub scope_not_blank : (o x : String) → str_eq (scope o x) "" ≡ false
scope_not_blank String.[] x = cons_not_blank _ _
scope_not_blank (String.◌∷◌ c o) x = cons_not_blank _ _

trim_end-scope : (o x : String) → trim_end (scope o x) ≡ scope o (trim_end x)
unfolding trim_end is_whitespace
trim_end-scope String.[] x = ground arith
trim_end-scope (String.◌∷◌ c o) x = rw (trim_end-scope o x, scope_not_blank o (trim_end x)) refl

begins_clear-scope : (o x : String) → begins_clear o ≡ true → begins_clear (scope o x) ≡ true
unfolding is_whitespace
begins_clear-scope String.[] x h = refl
begins_clear-scope (String.◌∷◌ c o) x h = h

-- Trimming keeps a text in its organization.
pub trim-Within : (o t : String) → begins_clear o ≡ true → Within o t → Within o (trim t)
unfolding trim
trim-Within o t clear (x, e) = (
  trim_end x,
  ap trim e
      ∙ ap trim_end (trim_start_clear (scope o x) (begins_clear-scope o x clear))
      ∙ trim_end-scope o x,
)

abbrev head_code : String → ℕ
head_code String.[] = 0
head_code (String.◌∷◌ c s) = code c

abbrev tail : String → String
tail String.[] = String.[]
tail (String.◌∷◌ c s) = s

no_colon_first :
    (c : Char) (s x : String) → scope "" x ≡ String.◌∷◌ c s → (code c == b':') ≡ false → ⊥
no_colon_first c s x e h = let colon : b':' ≡ code c = ap head_code e in ground (arith, colon, h)

-- A text belongs to one organization only, if no colon stands in their names.
pub Within-unique : (a b x y : String) → Lacks b':' a → Lacks b':' b → scope a x ≡ scope b y → a ≡ b
Within-unique String.[] String.[] x y ha hb e = refl
Within-unique String.[] (String.◌∷◌ d b) x y ha hb e =
    absurd (no_colon_first d (scope b y) x e hb.0)
Within-unique (String.◌∷◌ c a) String.[] x y ha hb e =
    absurd (no_colon_first c (scope a x) y (sym e) ha.0)
Within-unique (String.◌∷◌ c a) (String.◌∷◌ d b) x y ha hb e =
    let rest : a ≡ b = Within-unique a b x y ha.1 hb.1 (ap tail e) in
    let first : c ≡ d = Char-path c d (ap head_code e) in cc
