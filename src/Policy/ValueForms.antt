-- ===== src/Policy/ValueForms.antt =====
-- Normalised schemes and methods are their own normal forms.
use bound_seal.Common.{
  ◌≡◌, refl, sym, ◌∙◌, ap, subst, map, Bool, true, false, not, ◌&&◌, List, [], ◌∷◌, arith, any, all,
  Result, ok, ◌>>◌, fail_if, fail_if-then, is_empty, inl, inr,
}
use bound_seal.Std.Text.{Text, text, eq_text, trim, lower, upper}
use bound_seal.Std.Text.Trimming.{is_graphic, trim-graphic, lower-lower, upper-upper}
use bound_seal.Std.Order.{list_ord, nat_ord, same_iff}
use bound_seal.Policy.Types.{PolicyError, invalid, no_schemes, no_methods}
use bound_seal.Policy.Hosts.{
  collect_set, normalize_scheme, normalize_schemes, allowed_method_names, normalize_method,
  normalize_methods,
}
use bound_seal.Policy.HostSets.{In, collect_set-from}
use bound_seal.Policy.Within.{ValuesWithin}

-- What all of the names satisfy, a text among them satisfies.
any_name :
    (p : Text → Bool) (n : Text) (names : List Text)
    → all p names ≡ true
    → any (λ name. eq_text name n) names ≡ true
    → p n ≡ true
any_name p n [] a h = cc
any_name p n (name ∷ names) a h = ground (arith, same_iff name n, any_name p n names)

names-graphic : all (all is_graphic) allowed_method_names ≡ true
unfolding allowed_method_names text
names-graphic = refl

schemes-graphic : all (all is_graphic) (text "http" ∷ text "https" ∷ []) ≡ true
unfolding text
schemes-graphic = refl

-- A known name in the normal form of some text is its own normal form.
upper_again :
    (m n : Text) → map upper (trim m) ≡ n → all is_graphic n ≡ true → map upper (trim n) ≡ n
upper_again m n form graphic =
    ap (map upper) (trim-graphic n graphic ∙ sym form) ∙ upper-upper (trim m) ∙ form

lower_again :
    (m n : Text) → map lower (trim m) ≡ n → all is_graphic n ≡ true → map lower (trim n) ≡ n
lower_again m n form graphic =
    ap (map lower) (trim-graphic n graphic ∙ sym form) ∙ lower-lower (trim m) ∙ form

abbrev is_method : Text → Bool
is_method n = any (λ name. eq_text name n) allowed_method_names

method_again : (m n : Text) → normalize_method m ≡ ok n → normalize_method n ≡ ok n
unfolding normalize_method
method_again m n h =
    let (known, e) = fail_if-then (not (is_method (map upper (trim m)))) _ _ h in
    let form : map upper (trim m) ≡ n = cc in
    let known : is_method n ≡ true = subst (λ k. is_method k ≡ true) form (ground arith) in
    let again : map upper (trim n) ≡ n =
      upper_again m n form (any_name (all is_graphic) n _ names-graphic known) in
    rw (again, known) refl

abbrev is_scheme : Text → Bool
is_scheme n = any (λ name. eq_text name n) (text "http" ∷ text "https" ∷ [])

scheme_again : (m n : Text) → normalize_scheme m ≡ ok n → normalize_scheme n ≡ ok n
unfolding normalize_scheme
scheme_again m n h =
    let (known, e) =
      fail_if-then
        (not (eq_text (map lower (trim m)) (text "http"))
          && not (eq_text (map lower (trim m)) (text "https")))
        _ _ h in
    let form : map lower (trim m) ≡ n = cc in
    let known : (not (eq_text n (text "http")) && not (eq_text n (text "https"))) ≡ false =
      subst (λ k. (not (eq_text k (text "http")) && not (eq_text k (text "https"))) ≡ false) form
        known in
    let named : is_scheme n ≡ true = ground (
      arith,
      same_iff n (text "http"),
      same_iff n (text "https"),
      same_iff (text "http") n,
      same_iff (text "https") n,
    ) in
    let again : map lower (trim n) ≡ n =
      lower_again m n form
        (any_name (all is_graphic) n (text "http" ∷ text "https" ∷ []) schemes-graphic named) in
    rw (again, known) refl

-- `normalize_schemes` and `normalize_methods` at once.
abbrev normalize_values :
    (Text → Result PolicyError Text) → PolicyError → List Text → Result PolicyError (List Text)
normalize_values f e c = fail_if (is_empty c) e >> collect_set f c

module _ (f : Text → Result PolicyError Text) (e : PolicyError)
    (again : (m n : Text) → f m ≡ ok n → f n ≡ ok n) where
  values-In :
      (c s t : List Text) (x : Text)
      → collect_set f c ≡ ok s
      → collect_set f s ≡ ok t
      → In x t
      → In x s
  values-In c s t x made remade i =
      let (y, j, fy) = collect_set-from f s x remade i in
      let (m, _, fm) = collect_set-from f c y made j in
      let same_value : y ≡ x = cc (again m y fm) in subst (λ z. In z s) same_value j

  -- A value that the narrowed policy compiles to is one of the parent's.
  narrowed-In :
      (written compiled s t : List Text) (x : Text)
      → normalize_values f e written ≡ ok compiled
      → ValuesWithin (normalize_values f e) written compiled s
      → normalize_values f e s ≡ ok t
      → In x t
      → In x compiled
  narrowed-In written compiled s t x made (inl same_values) remade i =
      let same_set : t ≡ compiled = cc in subst (In x) same_set i
  narrowed-In written compiled s t x made (inr (c, chosen, subset)) remade i =
      let (_, chosen) = fail_if-then (is_empty c) e _ chosen in
      let (_, remade) = fail_if-then (is_empty s) e _ remade in
      subset x (values-In c s t x chosen remade i)

pub schemes-In :
    (written compiled s t : List Text) (x : Text)
    → normalize_schemes written ≡ ok compiled
    → ValuesWithin normalize_schemes written compiled s
    → normalize_schemes s ≡ ok t
    → In x t
    → In x compiled
unfolding normalize_schemes
schemes-In = narrowed-In normalize_scheme (invalid no_schemes) scheme_again

pub methods-In :
    (written compiled s t : List Text) (x : Text)
    → normalize_methods written ≡ ok compiled
    → ValuesWithin normalize_methods written compiled s
    → normalize_methods s ≡ ok t
    → In x t
    → In x compiled
unfolding normalize_methods
methods-In = narrowed-In normalize_method (invalid no_methods) method_again
