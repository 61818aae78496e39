-- ===== src/Policy/HostForms.antt =====
-- A normalised host is its own normal form.
use bound_seal.Common.{
  ◌≡◌, refl, sym, true, false, ◌||◌, List, [], ◌∷◌, arith, ◌==◌, all, ok, fail_if-then, >>=-eq-ok,
  subst,
}
use bound_seal.Std.Text.{Text, split, trim, trim_end_matches}
use bound_seal.Std.Text.Trimming.{
  is_graphic, trim-graphic, all-split, lower-lower, trim_end-trim_end, trim_end-lower,
}
use bound_seal.Policy.Types.{PolicyError, invalid, expired}
use bound_seal.Policy.Hosts.{
  host_form, unusable_host, is_label_byte, check_labels, normalize_dns_host,
}

check_labels-all :
    (e : PolicyError) (labels : List Text) {u : Unit {0}}
    → check_labels e labels ≡ ok u
    → all (all is_label_byte) labels ≡ true
unfolding check_labels
check_labels-all e [] h = refl
check_labels-all e (label ∷ labels) h = ground (arith, check_labels-all e labels)

check_labels-error :
    (e d : PolicyError) (labels : List Text) {u : Unit {0}}
    → check_labels e labels ≡ ok u
    → check_labels d labels ≡ ok tt
unfolding check_labels
check_labels-error e d [] h = refl
check_labels-error e d (label ∷ labels) h = ground (arith, check_labels-error e d labels)

all-graphic :
    (s : Text) → all (λ c. is_label_byte c || c == b'.') s ≡ true → all is_graphic s ≡ true
all-graphic [] h = refl
all-graphic (c ∷ s) h = ground (arith, all-graphic s)

host_form-graphic :
    (host : Text)
    → all is_graphic (host_form host) ≡ true
    → host_form (host_form host) ≡ host_form host
host_form-graphic host h =
    rw (trim-graphic (host_form host) h, trim_end-lower, trim_end-trim_end b'.' (trim host))
      (lower-lower (trim_end_matches b'.' (trim host)))

-- What `normalize_dns_host` answers, and what it has checked.
pub record IsNormalized (host normalized : Text) : Type 0 where
  pub form : normalized ≡ host_form host
  pub usable : unusable_host normalized ≡ false
  pub labels : (e : PolicyError) → check_labels e (split b'.' normalized) ≡ ok tt

pub normalize-IsNormalized :
    (field host : Text) {normalized : Text}
    → normalize_dns_host field host ≡ ok normalized
    → IsNormalized host normalized
unfolding normalize_dns_host
normalize-IsNormalized field host {normalized} h =
    let (usable, rest) = fail_if-then (unusable_host (host_form host)) _ _ h in
    let (_, checked, e) = >>=-eq-ok (check_labels _ (split b'.' (host_form host))) _ rest in
    let ok_form : host_form host ≡ normalized = cc in
    record {
      form = sym ok_form;
      usable = rw ok_form at usable;
      labels = λ d. rw ok_form at (check_labels-error _ d _ checked);
    }

pub host_form-normalized : (host n : Text) → IsNormalized host n → host_form n ≡ n
host_form-normalized host n v =
    let graphic : all is_graphic n ≡ true =
      all-graphic n
        (all-split is_label_byte b'.' n (check_labels-all _ _ (v.labels (invalid expired)))) in
    subst (λ m. host_form m ≡ m) (sym v.form)
      (host_form-graphic host (subst (λ m. all is_graphic m ≡ true) v.form graphic))

pub normalize-normalized :
    (field host n : Text) → IsNormalized host n → normalize_dns_host field n ≡ ok n
unfolding normalize_dns_host
normalize-normalized field host n v = rw (host_form-normalized host n v, v.usable, v.labels _) refl
