-- ===== src/Policy/Subdomains.antt =====
-- The suffix test of `matches_host_set`: what it accepts, and that it is transitive.
use bound_seal.Common.{
  ℕ, zero, suc, ◌+◌, ◌-◌, ◌<◌, ◌≡◌, refl, sym, ap, ◌∙◌, Bool, true, ◌⊎◌, [], ◌∷◌, arith, length,
  get_or, drop,
}
use bound_seal.Std.Text.{Text}
use bound_seal.Std.Order.{list_ord, nat_ord, same_iff}
use bound_seal.Policy.Hosts.{matches_host}

-- `c` is some labels and a dot before `h`.
abbrev pub IsSubdomain : Text → Text → Type 0
IsSubdomain c h = (n : ℕ) × (drop n c ≡ b'.' ∷ h)

drop-get : (n : ℕ) (c : Text) → n < length c → drop n c ≡ get_or c n 0 ∷ drop (suc n) c
drop-get n [] h = elim h [ ]
drop-get zero (x ∷ c) h = refl
drop-get (suc n) (x ∷ c) h = drop-get n c (omega arith)

length-drop : (n : ℕ) (c : Text) → length (drop n c) ≡ length c - n
length-drop zero c = omega arith
length-drop (suc n) [] = omega arith
length-drop (suc n) (x ∷ c) = omega (arith, length-drop n c)

drop-nil : (n : ℕ) → drop {A = ℕ} n [] ≡ []
drop-nil zero = refl
drop-nil (suc n) = refl

drop-drop : (m n : ℕ) (c : Text) → drop m (drop n c) ≡ drop (n + m) c
drop-drop m zero c = ap (λ k. drop k c) (omega arith)
drop-drop m (suc n) [] = drop-nil m ∙ sym (drop-nil (suc n + m))
drop-drop m (suc n) (x ∷ c) =
    drop-drop m n c ∙ ap (λ k. drop k (x ∷ c)) (let e : suc (n + m) ≡ suc n + m = omega arith in e)

suffix_cases :
    (c h : Text)
    → length h < length c
    → drop (length c - length h) c ≡ h
    → get_or c (length c - length h - 1) 0 ≡ b'.'
    → IsSubdomain c h
suffix_cases c h lt tail dot =
    let n = length c - length h - 1 in
    let e : suc n ≡ length c - length h = omega arith in
    (n, drop-get n c (omega arith) ∙ cc (dot, tail, ap (λ k. drop k c) e))

pub matches_host_cases :
    (c h : Text) (allow : Bool)
    → matches_host c allow h ≡ true
    → (c ≡ h) ⊎ ((allow ≡ true) × IsSubdomain c h)
matches_host_cases c h allow m =
    ground (arith, same_iff c h, same_iff (drop (length c - length h) c) h, suffix_cases c h)

pub matches_host-subdomain : (c h : Text) → IsSubdomain c h → matches_host c true h ≡ true
matches_host-subdomain c h (n, e) =
    let l : length c - n ≡ suc (length h) = sym (length-drop n c) ∙ ap length e in
    let k : n ≡ length c - length h - 1 = omega arith in
    let k' : n + 1 ≡ length c - length h = omega arith in
    let g : get_or c n 0 ∷ drop (suc n) c ≡ b'.' ∷ h = sym (drop-get n c (omega arith)) ∙ e in
    let d : drop (n + 1) c ≡ h = sym (drop-drop 1 n c) ∙ ap (drop 1) e in
    rw (← k, ← k') (ground (arith, same_iff (drop (n + 1) c) h))

pub IsSubdomain-trans : (a b c : Text) → IsSubdomain a b → IsSubdomain b c → IsSubdomain a c
IsSubdomain-trans a b c (m, p) (n, q) =
    (m + suc n, sym (drop-drop (suc n) m a) ∙ (ap (drop (suc n)) p ∙ q))
