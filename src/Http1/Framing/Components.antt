-- ===== src/Http1/Framing/Components.antt =====
-- crates/nxb-http1/src/parser.rs: the comma-separated components of the framing headers.
use bound_seal.Http1.Model.{Http1Error}
use bound_seal.Std.Text.Bytes.{is_utf8}
use bound_seal.Http1.Framing.{components, collected}
use bound_seal.Std.Text.{Text, split}
use bound_seal.Common.{
  ok, ap, inr, ◌∷◌, ◌==◌, not, Bool-cases, [], fail_if-then, inl, List, sym, >>=-eq-ok, ◌++◌,
  Result, ℕ, ◌≡◌, refl,
}

-- `split` gives a label at least.
pub split-cases : (b : ℕ) (s : Text) → (w : Text) × (ws : List Text) × (split b s ≡ w ∷ ws)
unfolding split
split-cases b [] = ([], [], refl)
split-cases b (c ∷ s) = elim (Bool-cases (c == b)) [
  | inl h ↦ ([], split b s, rw h refl)
  | inr h ↦ let (w, ws, e) = split-cases b s in (c ∷ w, ws, rw (h, e) refl)
]

-- A text with one label is that label.
split-one : (b : ℕ) (s w : Text) → split b s ≡ w ∷ [] → w ≡ s
unfolding split
split-one b [] w e = cc
split-one b (c ∷ s) w e = elim (Bool-cases (c == b)) [
  | inl h ↦ let (v, vs, f) = split-cases b s in absurd (let e = rw (split, h, f) at e in cc)
  | inr h ↦
      let (v, vs, f) = split-cases b s in
      let e = rw (split, h, f) at e in
      let one : vs ≡ [] = cc in
      let same : v ≡ s = split-one b s v (rw one at f) in
      let whole : c ∷ v ≡ w = cc in rw (← whole, same) refl
]

module _ {ℓ} {A : Type ℓ} (component : Text → Result Http1Error A) where
  pub components-cons :
      (part : Text) (parts : List Text) (values : List A)
      → components component (part ∷ parts) ≡ ok values
      → (first : A) × (rest : List A) × (component part ≡ ok first)
        × (components component parts ≡ ok rest)
        × (values ≡ first ∷ rest)
  unfolding components
  components-cons part parts values e =
      let (first, f, e) = >>=-eq-ok (component part) _ e in
      let (rest, g, e) = >>=-eq-ok (components component parts) _ e in (first, rest, f, g, cc)

  components-nil : (parts : List Text) → components component parts ≡ ok [] → parts ≡ []
  components-nil [] e = refl
  components-nil (part ∷ parts) e =
      let (_, _, _, _, form) = components-cons part parts [] e in absurd (cc)

  pub collected-cons :
      (message value : Text) (values : List Text) (tokens : List A)
      → collected component message (value ∷ values) ≡ ok tokens
      → (first rest : List A) × (components component (split b',' value) ≡ ok first)
        × (collected component message values ≡ ok rest)
        × (tokens ≡ first ++ rest)
  unfolding collected
  collected-cons message value values tokens e =
      let (_, e) = fail_if-then (not (is_utf8 value)) _ _ e in
      let (first, f, e) = >>=-eq-ok (components component (split b',' value)) _ e in
      let (rest, g, e) = >>=-eq-ok (collected component message values) _ e in
      (first, rest, f, g, cc)

  -- Each value gives a component at least, so no components come from no values.
  pub collected-nil :
      (message : Text) (values : List Text)
      → collected component message values ≡ ok []
      → values ≡ []
  collected-nil message [] e = refl
  collected-nil message (value ∷ values) e =
      let (first, rest, f, g, form) = collected-cons message value values [] e in
      let (w, ws, s) = split-cases b',' value in
      let (_, _, _, _, shape) = components-cons w ws first (rw s at f) in
      absurd (let form = rw shape at form in cc)

  -- One component comes from one value that is this component.
  pub collected-one :
      (message : Text) (values : List Text) (token : A)
      → collected component message values ≡ ok (token ∷ [])
      → (value : Text) × (values ≡ value ∷ []) × (component value ≡ ok token)
  unfolding collected
  collected-one message [] token e = absurd (cc)
  collected-one message (value ∷ values) token e =
      let (first, rest, f, g, form) = collected-cons message value values (token ∷ []) e in
      let (w, ws, s) = split-cases b',' value in
      let (v, vs, one, more, shape) = components-cons w ws first (rw s at f) in
      let form = rw shape at form in
      let (vs_none, rest_none) = both_nil vs rest (let t : [] ≡ vs ++ rest = cc in sym t) in
      let no_values : values ≡ [] = collected-nil message values (rw rest_none at g) in
      let no_parts : ws ≡ [] = components-nil ws (rw vs_none at more) in
      let whole : w ≡ value = split-one b',' value w (rw no_parts at s) in
      (value, rw no_values refl, rw (← whole) (let t : v ≡ token = cc in rw one (ap ok t)))
    where
      both_nil : (xs ys : List A) → xs ++ ys ≡ [] → (xs ≡ []) × (ys ≡ [])
      both_nil [] ys e = (refl, e)
      both_nil (x ∷ xs) ys e = absurd (cc)
