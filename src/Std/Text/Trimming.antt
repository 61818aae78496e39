-- ===== src/Std/Text/Trimming.antt =====
-- When trimming and case folding change nothing.
use mathlib.Core.List.{reverse-reverse, reverse-cons}
use bound_seal.Common.{
  ℕ, ◌≡◌, refl, ◌∙◌, Bool, true, ◌&&◌, ◌||◌, List, [], ◌∷◌, map, reverse, arith, ◌==◌, is_empty,
  all, all-append, Bool-cases, inl, inr,
}
use bound_seal.Std.Text.{
  Text, between, lower, upper, strip, front_space, back_space, trim, trim_end_matches, split,
  cons_first,
}

-- No white space, and no part of the encoding of one.
abbrev pub is_graphic : ℕ → Bool
is_graphic = between 33 126

front_space-graphic : (c : ℕ) (r : Text) → is_graphic c ≡ true → front_space c r ≡ 0
unfolding front_space
front_space-graphic c [] h = ground arith
front_space-graphic c (b ∷ []) h = ground arith
front_space-graphic c (b ∷ a ∷ r) h = ground arith

back_space-graphic : (c : ℕ) (r : Text) → is_graphic c ≡ true → back_space c r ≡ 0
unfolding back_space
back_space-graphic c [] h = ground arith
back_space-graphic c (b ∷ []) h = ground arith
back_space-graphic c (b ∷ a ∷ r) h = ground arith

all-reverse : (p : ℕ → Bool) (s : Text) → all p (reverse s) ≡ all p s
all-reverse p [] = refl
all-reverse p (c ∷ s) =
    rw (reverse-cons c s, all-append p (reverse s) (c ∷ []), all-reverse p s) (ground arith)

strip_front : (s : Text) → all is_graphic s ≡ true → strip front_space 0 s ≡ s
unfolding strip
strip_front [] h = refl
strip_front (c ∷ s) h = ground (arith, front_space-graphic c s)

strip_back : (s : Text) → all is_graphic s ≡ true → strip back_space 0 s ≡ s
unfolding strip
strip_back [] h = refl
strip_back (c ∷ s) h = ground (arith, back_space-graphic c s)

pub trim-graphic : (s : Text) → all is_graphic s ≡ true → trim s ≡ s
unfolding trim
trim-graphic s h =
    rw (strip_front s h, strip_back (reverse s) (all-reverse is_graphic s ∙ h)) (reverse-reverse s)

pub lower-lower : (s : Text) → map lower (map lower s) ≡ map lower s
lower-lower [] = refl
lower-lower (c ∷ s) = ground (arith, lower-lower s)

pub upper-upper : (s : Text) → map upper (map upper s) ≡ map upper s
upper-upper [] = refl
upper-upper (c ∷ s) = ground (arith, upper-upper s)

pub trim_end-trim_end :
    (b : ℕ) (s : Text) → trim_end_matches b (trim_end_matches b s) ≡ trim_end_matches b s
unfolding trim_end_matches
trim_end-trim_end b [] = refl
trim_end-trim_end b (c ∷ s) = elim (Bool-cases (is_empty (trim_end_matches b s) && c == b)) [
  | inl gone ↦ rw gone refl
  | inr kept ↦ rw (kept, trim_end-trim_end b s, kept) refl
]

is_empty-lower : (s : Text) → is_empty (map lower s) ≡ is_empty s
is_empty-lower [] = refl
is_empty-lower (c ∷ s) = refl

pub trim_end-lower :
    (s : Text) → trim_end_matches b'.' (map lower s) ≡ map lower (trim_end_matches b'.' s)
unfolding trim_end_matches
trim_end-lower [] = refl
trim_end-lower (c ∷ s) =
    rw (trim_end-lower s, is_empty-lower (trim_end_matches b'.' s)) (ground arith)

-- A text whose labels satisfy `p` consists of bytes that satisfy `p` and separators.
all-cons_first :
    (p : ℕ → Bool) (c : ℕ) (ws : List Text)
    → all (all p) (cons_first c ws) ≡ (p c && all (all p) ws)
all-cons_first p c [] = ground arith
all-cons_first p c (w ∷ ws) = ground arith

pub all-split :
    (p : ℕ → Bool) (b : ℕ) (s : Text)
    → all (all p) (split b s) ≡ true
    → all (λ c. p c || c == b) s ≡ true
unfolding split
all-split p b [] h = refl
all-split p b (c ∷ s) h = ground (arith, all-split p b s, all-cons_first p c (split b s))
