-- ===== src/Http1/Blocks.antt =====
-- crates/nxb-http1/src/parser.rs: what `find_double_crlf` finds, in a text and in a longer one.
use bound_seal.Std.Text.{Text}
use bound_seal.Std.Text.Bytes.{find_window}
use bound_seal.Std.Text.Searching.{find_window-bound, find_window-append}
use bound_seal.Http1.Fields.{find_double_crlf}
use bound_seal.Common.{
  ◌∷◌, inl, ◌≤◌, Option-cases, [], length, ◌+◌, inr, ◌++◌, some, arith, ℕ, ◌≡◌, refl,
}

find_double_crlf-window :
    (s : Text) {n : ℕ}
    → find_double_crlf s ≡ some n
    → (m : ℕ) × (find_window (13 ∷ 10 ∷ 13 ∷ 10 ∷ []) s ≡ some m) × (n ≡ m + 4)
unfolding find_double_crlf
find_double_crlf-window s e = elim (Option-cases (find_window (13 ∷ 10 ∷ 13 ∷ 10 ∷ []) s)) [
  | inl h ↦ absurd (let e = rw (find_double_crlf, h) at e in cc)
  | inr (m, h) ↦ (m, h, let e = rw (find_double_crlf, h) at e in cc)
]

pub find_double_crlf-bound :
    (s : Text) {n : ℕ} → find_double_crlf s ≡ some n → (4 ≤ n) × (n ≤ length s)
find_double_crlf-bound s e =
    let (m, h, form) = find_double_crlf-window s e in
    let line = find_window-bound _ s h in (omega arith, omega arith)

pub find_double_crlf-append :
    (s more : Text) {n : ℕ} → find_double_crlf s ≡ some n → find_double_crlf (s ++ more) ≡ some n
unfolding find_double_crlf
find_double_crlf-append s more e =
    let (m, h, form) = find_double_crlf-window s e in rw (find_window-append _ s more h, form) refl
