-- ===== src/Dns/Pinning.antt =====
-- What a pin guarantees until its context is released.
use bound_seal.Common.{
  ℕ, ◌≡◌, ◌≢◌, ◌≤◌, refl, sym, ◌∙◌, ap, subst, inl, inr, false, not, Option, none, some, List, [],
  ◌∷◌, ltb, ok, fail_if-then, >>=-eq-ok, arith, Bool-cases, Result-cases,
}
use bound_seal.Std.Text.{Text, eq_text}
use bound_seal.Std.Ip.{IpAddr, ip_ord}
use bound_seal.Std.Order.{list_ord, nat_ord, pair_ord, same, same_iff, same_refl}
use bound_seal.Std.Collections.{same_set, same_set_iff, map_get, map_insert, get-insert, get-retain}
use bound_seal.Dns.{
  DnsObservation, DnsPinStatus, pinned, matched, DnsPin, DnsPinSet, normalize_identifier,
  validate_observation, pin_key, validate_pin, fresh_pin, place_pin, pin_or_validate,
  release_context, Call, observes, releases, step, run,
}

accepted_pin :
    (o : DnsObservation) (pin : DnsPin) {updated : DnsPin}
    → validate_pin o pin ≡ ok updated
    → (updated.resolver_id ≡ pin.resolver_id)
      × (updated.addresses ≡ pin.addresses)
      × (updated.last_observed_at_milliseconds ≡ o.observed_at_milliseconds)
      × (pin.resolver_id ≡ normalize_identifier o.resolver_id)
      × (pin.addresses ≡ o.addresses)
      × (pin.last_observed_at_milliseconds ≤ o.observed_at_milliseconds)
unfolding validate_pin
accepted_pin o pin e =
    let (clock, e) =
      fail_if-then (ltb o.observed_at_milliseconds pin.last_observed_at_milliseconds) _ _ e in
    let (resolver, e) =
      fail_if-then (not (eq_text (normalize_identifier o.resolver_id) pin.resolver_id)) _ _ e in
    let (addresses, e) = fail_if-then (not (same_set o.addresses pin.addresses)) _ _ e in
    let same_resolver : normalize_identifier o.resolver_id ≡ pin.resolver_id =
      ground (arith, same_iff (normalize_identifier o.resolver_id) pin.resolver_id) in
    let same_addresses : o.addresses ≡ pin.addresses =
      (same_set_iff o.addresses pin.addresses).0 (ground arith) in
    (cc, cc, cc, sym same_resolver, sym same_addresses, ground arith)

-- How an accepted observation changes the pins: its key gets a fresh pin, or an update of its own.
pub data Accepted (pins after : DnsPinSet) (o : DnsObservation) : DnsPinStatus → Type 0 where
  first :
      map_get (pin_key o) pins ≡ none
      → after ≡ map_insert (pin_key o) (fresh_pin o) pins
      → Accepted pins after o pinned
  again :
      (pin updated : DnsPin)
      → map_get (pin_key o) pins ≡ some pin
      → validate_pin o pin ≡ ok updated
      → after ≡ map_insert (pin_key o) updated pins
      → Accepted pins after o matched

place_pin-Accepted :
    (pins after : DnsPinSet) (o : DnsObservation) (found : Option DnsPin) (status : DnsPinStatus)
    → map_get (pin_key o) pins ≡ found
    → place_pin pins o found ≡ ok (status, after)
    → Accepted pins after o status
unfolding place_pin
place_pin-Accepted pins after o none status m e =
    let same_status : pinned ≡ status = cc in
    subst (Accepted pins after o) same_status (first m (cc))
place_pin-Accepted pins after o (some pin) status m e =
    let (updated, valid, e) = >>=-eq-ok (validate_pin o pin) _ e in
    let same_status : matched ≡ status = cc in
    subst (Accepted pins after o) same_status (again pin updated m valid (cc))

pub pin_or_validate-Accepted :
    (pins after : DnsPinSet) (o : DnsObservation) (status : DnsPinStatus)
    → pin_or_validate pins o ≡ ok (status, after)
    → Accepted pins after o status
unfolding pin_or_validate
pin_or_validate-Accepted pins after o status e =
    let (_, _, e) = >>=-eq-ok (validate_observation o) _ e in
    place_pin-Accepted pins after o _ status refl e

-- There is a pin under the key with this resolver and these addresses, last seen at or after a time.
abbrev pub Pinned : DnsPinSet → Text × Text → Text → List IpAddr → ℕ → Type 0
Pinned pins key resolver addresses since =
    (pin : DnsPin) × (map_get key pins ≡ some pin)
    × (pin.resolver_id ≡ resolver)
    × (pin.addresses ≡ addresses)
    × (since ≤ pin.last_observed_at_milliseconds)

get-insert_self :
    (key : Text × Text) (pin : DnsPin) (pins : DnsPinSet)
    → map_get key (map_insert key pin pins) ≡ some pin
get-insert_self key pin pins = rw (get-insert key key pin pins, same_refl key) refl

Accepted-Pinned :
    (pins after : DnsPinSet) (o : DnsObservation) (status : DnsPinStatus)
    → Accepted pins after o status
    → Pinned after
        (pin_key o)
        (normalize_identifier o.resolver_id)
        o.addresses
        o.observed_at_milliseconds
unfolding fresh_pin
Accepted-Pinned pins after o _ (first m e) =
    (fresh_pin o, rw e (get-insert_self (pin_key o) (fresh_pin o) pins), refl, refl, omega arith)
Accepted-Pinned pins after o _ (again pin updated m valid e) =
    let (r, a, t, r', a', _) = accepted_pin o pin valid in
    (updated, rw e (get-insert_self (pin_key o) updated pins), r ∙ r', a ∙ a', omega arith)

-- An accepted observation agrees with the pin that it meets, and keeps every pin's promise.
Accepted-agrees :
    (pins after : DnsPinSet) (o : DnsObservation) (status : DnsPinStatus) (resolver : Text)
    (addresses : List IpAddr) (since : ℕ)
    → Accepted pins after o status
    → Pinned pins (pin_key o) resolver addresses since
    → (normalize_identifier o.resolver_id ≡ resolver)
      × (o.addresses ≡ addresses)
      × (since ≤ o.observed_at_milliseconds)
Accepted-agrees pins after o _ resolver addresses since (first m e) (pin, found, r, a, t) = cc
Accepted-agrees pins after o _ resolver addresses since (again met updated m valid e)
      (pin, found, r, a, t) =
    let same_pin : met ≡ pin = cc in
    let (_, _, _, r', a', t') = accepted_pin o met valid in
    (cc, cc, omega (arith, ap (λ (x : DnsPin). x.last_observed_at_milliseconds) same_pin))

Accepted-others :
    (pins after : DnsPinSet) (o : DnsObservation) (status : DnsPinStatus) (key : Text × Text)
    → Accepted pins after o status
    → same key (pin_key o) ≡ false
    → map_get key after ≡ map_get key pins
Accepted-others pins after o _ key (first m e) other =
    rw (e, get-insert key (pin_key o) (fresh_pin o) pins, other) refl
Accepted-others pins after o _ key (again pin updated m valid e) other =
    rw (e, get-insert key (pin_key o) updated pins, other) refl

Accepted-keeps :
    (pins after : DnsPinSet) (o : DnsObservation) (status : DnsPinStatus) (key : Text × Text)
    (resolver : Text) (addresses : List IpAddr) (since : ℕ)
    → Accepted pins after o status
    → Pinned pins key resolver addresses since
    → Pinned after key resolver addresses since
Accepted-keeps pins after o status key resolver addresses since a held =
    elim (Bool-cases (same key (pin_key o))) [
      | inl here ↦
          let e : key ≡ pin_key o = (same_iff key (pin_key o)).0 here in
          let (r, d, t) =
            Accepted-agrees pins after o status resolver addresses since a
              (subst (λ k. Pinned pins k resolver addresses since) e held) in
          let (pin, found, r', d', t') = Accepted-Pinned pins after o status a in
          (pin, ap (λ k. map_get k after) e ∙ found, r' ∙ r, d' ∙ d, omega arith)
      | inr other ↦
          let (pin, found, _, _, _) = held in
          (pin, Accepted-others pins after o status key a other ∙ found, held.2, held.3, held.4)
    ]

release-keeps :
    (pins : DnsPinSet) (context : Text) (key : Text × Text)
    → normalize_identifier context ≢ key.0
    → map_get key (release_context pins context).1 ≡ map_get key pins
unfolding release_context
release-keeps pins context key other =
    rw (get-retain key (λ k. not (eq_text k.0 (normalize_identifier context))) pins)
      (ground (arith, same_iff key.0 (normalize_identifier context)))

step-Pinned :
    (pins : DnsPinSet) (c : Call) (key : Text × Text) (resolver : Text) (addresses : List IpAddr)
    (since : ℕ)
    → ((context : Text) → c ≡ releases context → normalize_identifier context ≢ key.0)
    → Pinned pins key resolver addresses since
    → Pinned (step pins c) key resolver addresses since
unfolding step
step-Pinned pins (observes o) key resolver addresses since keep held =
    elim (Result-cases (pin_or_validate pins o)) [
      | inl ((status, after), e) ↦ rw e (
          Accepted-keeps pins after o status key resolver addresses since
            (pin_or_validate-Accepted pins after o status e) held)
      | inr (_, e) ↦ rw e held
    ]
step-Pinned pins (releases context) key resolver addresses since keep held =
    let (pin, found, _, _, _) = held in
    (pin, release-keeps pins context key (keep context refl) ∙ found, held.2, held.3, held.4)

-- The calls release no such context.
abbrev pub NoRelease : Text → List Call → Type 0
NoRelease context [] = Unit {0}
NoRelease context (observes o ∷ cs) = NoRelease context cs
NoRelease context (releases other ∷ cs) =
    (normalize_identifier other ≢ context) × NoRelease context cs

run-Pinned :
    (pins : DnsPinSet) (cs : List Call) (key : Text × Text) (resolver : Text)
    (addresses : List IpAddr) (since : ℕ)
    → NoRelease key.0 cs
    → Pinned pins key resolver addresses since
    → Pinned (run pins cs) key resolver addresses since
unfolding run
run-Pinned pins [] key resolver addresses since keep held = held
run-Pinned pins (observes o ∷ cs) key resolver addresses since keep held =
    run-Pinned (step pins (observes o)) cs key resolver addresses since keep
      (step-Pinned pins (observes o) key resolver addresses since (λ context e. cc) held)
run-Pinned pins (releases other ∷ cs) key resolver addresses since keep held =
    run-Pinned (step pins (releases other)) cs key resolver addresses since keep.1 (
      step-Pinned pins (releases other) key resolver addresses since
        (λ context e.
          let same_context : other ≡ context = cc in
          subst (λ c. normalize_identifier c ≢ key.0) same_context keep.0)
        held)

-- No rebinding: when an observation has been accepted, then whatever calls follow, as long as none
-- releases its context, an observation of the same context and host that is accepted has the same
-- addresses, the same resolver, and a time no earlier.
pub no_rebinding :
    (pins one two : DnsPinSet) (o p : DnsObservation) (s t : DnsPinStatus) (cs : List Call)
    → pin_or_validate pins o ≡ ok (s, one)
    → NoRelease (normalize_identifier o.context_id) cs
    → pin_or_validate (run one cs) p ≡ ok (t, two)
    → pin_key p ≡ pin_key o
    → (p.addresses ≡ o.addresses)
      × (normalize_identifier p.resolver_id ≡ normalize_identifier o.resolver_id)
      × (o.observed_at_milliseconds ≤ p.observed_at_milliseconds)
no_rebinding pins one two o p s t cs first_seen keep then_seen same_key =
    let held =
      run-Pinned one cs (pin_key o) (normalize_identifier o.resolver_id) o.addresses
        o.observed_at_milliseconds keep
        (Accepted-Pinned pins one o s (pin_or_validate-Accepted pins one o s first_seen)) in
    let (r, a, l) =
      Accepted-agrees (run one cs) two p t (normalize_identifier o.resolver_id) o.addresses
        o.observed_at_milliseconds (pin_or_validate-Accepted (run one cs) two p t then_seen)
        (subst
          (λ k.
            Pinned (run one cs) k (normalize_identifier o.resolver_id) o.addresses
              o.observed_at_milliseconds)
          (sym same_key) held) in
    (a, r, l)
