-- ===== src/Std/Text/Excluding.antt =====
-- Bytes that a text does not contain.
use bound_seal.Std.Text.{digits_fuel, to_ascii_lowercase, Text, decimal, contains_byte}
use mathlib.Core.Bool.{false≢true}
use bound_seal.Common.{
  ◌∷◌, inr, Bool-cases, any, arith, ◌++◌, all, ◌%◌, ◌∙◌, ◌+◌, zero, sym, &&-true, ◌==◌, [], true,
  ◌/◌, ltb, Bool, false, subst, inl, suc, ℕ, ◌≡◌, refl,
}

pub all-excludes :
    (p : ℕ → Bool) (b : ℕ) (s : Text) → p b ≡ false → all p s ≡ true → contains_byte b s ≡ false
all-excludes p b [] other h = refl
all-excludes p b (c ∷ s) other h =
    let (first, rest) = &&-true (p c) (all p s) h in
    elim (Bool-cases (c == b)) [
      | inl e ↦
          let same_byte : c ≡ b = ground arith in
          absurd (false≢true (sym other ∙ subst (λ x. p x ≡ true) same_byte first))
      | inr e ↦ rw (e, all-excludes p b s other rest) refl
    ]

pub any-excludes :
    (p : ℕ → Bool) (b : ℕ) (s : Text) → p b ≡ true → any p s ≡ false → contains_byte b s ≡ false
any-excludes p b [] holds h = refl
any-excludes p b (c ∷ s) holds h = elim (Bool-cases (c == b)) [
  | inl e ↦
      let same_byte : c ≡ b = ground arith in
      let here : p c ≡ true = subst (λ x. p x ≡ true) (sym same_byte) holds in
      absurd (false≢true (sym h ∙ rw here refl))
  | inr e ↦ let rest : any p s ≡ false = ground arith in rw (e, any-excludes p b s holds rest) refl
]

pub contains_byte-append :
    (b : ℕ) (s t : Text)
    → contains_byte b s ≡ false
    → contains_byte b t ≡ false
    → contains_byte b (s ++ t) ≡ false
contains_byte-append b [] t h k = k
contains_byte-append b (c ∷ s) t h k =
    let rest : contains_byte b s ≡ false = ground arith in
    let onward = contains_byte-append b s t rest k in ground arith

-- Lower case changes no byte that is no letter.
pub contains_byte-lowercase :
    (s : Text) → contains_byte 13 s ≡ false → contains_byte 13 (to_ascii_lowercase s) ≡ false
contains_byte-lowercase [] h = refl
contains_byte-lowercase (c ∷ s) h =
    let rest : contains_byte 13 s ≡ false = ground arith in
    let onward = contains_byte-lowercase s rest in ground arith

digits_fuel-excludes : (fuel n : ℕ) → contains_byte 13 (digits_fuel fuel n) ≡ false
unfolding digits_fuel
digits_fuel-excludes zero n = ground arith
digits_fuel-excludes (suc fuel) n = elim (Bool-cases (ltb n 10)) [
  | inl h ↦ rw (digits_fuel, h) (ground arith)
  | inr h ↦
      rw (digits_fuel, h)
        (contains_byte-append 13 (digits_fuel fuel (n / 10)) ((b'0' + n % 10) ∷ [])
          (digits_fuel-excludes fuel (n / 10)) (ground arith))
]

pub decimal-excludes : (n : ℕ) → contains_byte 13 (decimal n) ≡ false
unfolding decimal
decimal-excludes n = digits_fuel-excludes 19 n
