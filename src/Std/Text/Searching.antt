-- ===== src/Std/Text/Searching.antt =====
-- What the search for a window finds, in a text and in a longer one.
use mathlib.Core.Bool.{false≢true}
use bound_seal.Common.{
  ℕ, suc, ◌+◌, ◌≤◌, ◌≡◌, refl, sym, ap, true, false, ◌&&◌, some, [], ◌∷◌, ◌++◌, length, arith,
  Bool-cases, Option-cases, &&-true, inl, inr, ◌==◌,
}
use bound_seal.Std.Text.{Text, is_prefix, contains_byte}
use bound_seal.Std.Text.Bytes.{find_window}

is_prefix-length : (p s : Text) → is_prefix p s ≡ true → length p ≤ length s
is_prefix-length [] s h = omega arith
is_prefix-length (x ∷ p) [] h = absurd (false≢true h)
is_prefix-length (x ∷ p) (y ∷ s) h =
    omega (arith, is_prefix-length p s (&&-true (x == y) (is_prefix p s) h).1)

is_prefix-append : (p s more : Text) → length p ≤ length s → is_prefix p (s ++ more) ≡ is_prefix p s
is_prefix-append [] s more h = refl
is_prefix-append (x ∷ p) [] more h = absurd (omega arith)
is_prefix-append (x ∷ p) (y ∷ s) more h =
    ap (λ b. x == y && b) (is_prefix-append p s more (omega arith))

-- What a search that succeeds past the first byte found behind it.
find_window-behind :
    (p : Text) (c : ℕ) (r : Text) {n : ℕ}
    → is_prefix p (c ∷ r) ≡ false
    → find_window p (c ∷ r) ≡ some n
    → (m : ℕ) × (find_window p r ≡ some m) × (n ≡ suc m)
unfolding find_window
find_window-behind p c r miss e = elim (Option-cases (find_window p r)) [
  | inl h ↦ absurd (cc)
  | inr (m, h) ↦ (m, h, cc)
]

find_window-here :
    (p : Text) (c : ℕ) (r : Text) {n : ℕ}
    → is_prefix p (c ∷ r) ≡ true
    → find_window p (c ∷ r) ≡ some n
    → n ≡ 0
unfolding find_window
find_window-here p c r hit e = cc

-- A window that is found lies inside the text.
pub find_window-bound : (p s : Text) {n : ℕ} → find_window p s ≡ some n → n + length p ≤ length s
unfolding find_window
find_window-bound p [] e = absurd (cc)
find_window-bound p (c ∷ r) e = elim (Bool-cases (is_prefix p (c ∷ r))) [
  | inl h ↦ omega (arith, find_window-here p c r h e, is_prefix-length p (c ∷ r) h)
  | inr h ↦
      let (m, found, shift) = find_window-behind p c r h e in
      omega (arith, find_window-bound p r found)
]

-- A window that a text holds is found at the same place when the text goes on.
pub find_window-append :
    (p s more : Text) {n : ℕ} → find_window p s ≡ some n → find_window p (s ++ more) ≡ some n
unfolding find_window
find_window-append p [] more e = absurd (cc)
find_window-append p (c ∷ r) more e =
    let same_test =
      is_prefix-append p (c ∷ r) more (omega (arith, find_window-bound p (c ∷ r) e)) in
    elim (Bool-cases (is_prefix p (c ∷ r))) [
      | inl h ↦ rw (same_test, h) (ap some (sym (find_window-here p c r h e)))
      | inr h ↦
          let (m, found, shift) = find_window-behind p c r h e in
          rw (same_test, h, find_window-append p r more found) (ap some (sym shift))
    ]

-- The first CRLF stands behind a line without CR.
pub find_window-line :
    (line rest : Text)
    → contains_byte 13 line ≡ false
    → find_window (13 ∷ 10 ∷ []) (line ++ 13 ∷ 10 ∷ rest) ≡ some (length line)
unfolding find_window
find_window-line [] rest h = refl
find_window-line (c ∷ line) rest h =
    let other : (13 == c) ≡ false = ground arith in
    let clean : contains_byte 13 line ≡ false = ground arith in
    rw (other, find_window-line line rest clean) refl
