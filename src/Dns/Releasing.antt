-- ===== src/Dns/Releasing.antt =====
-- crates/nxb-dns/src/lib.rs: what releasing a context changes for the observations after it.
use bound_seal.Common.{
  Result-cases, ℕ, ◌+◌, ◌≡◌, refl, ◌∙◌, ap, inl, inr, Bool, true, false, not, Option, none, some,
  [], ◌∷◌, length, if◌then◌else◌, Result, ok, err, arith,
}
use bound_seal.Std.Text.{Text, eq_text}
use bound_seal.Std.Ip.{ip_ord}
use bound_seal.Std.Order.{list_ord, nat_ord, pair_ord}
use bound_seal.Std.Collections.{map_get, map_retain, get-retain}
use bound_seal.Dns.{
  validate_pin, DnsObservation, DnsPinStatus, pinned, DnsPin, DnsPinSet, DnsPinError,
  normalize_identifier, validate_observation, pin_key, place_pin, pin_or_validate, release_context,
}

-- An answer, without the pins after it.
abbrev pub outcome : Result DnsPinError (DnsPinStatus × DnsPinSet) → Result DnsPinError DnsPinStatus
outcome (ok (status, _)) = ok status
outcome (err e) = err e

-- The pins of a context, one by one.
unfoldable pub pins_of : Text → DnsPinSet → ℕ
pins_of context [] = 0
pins_of context ((key, pin) ∷ pins) =
    (if eq_text key.0 context then 1 else 0) + pins_of context pins

length-retain :
    (context : Text) (pins : DnsPinSet)
    → pins_of context pins + length (map_retain (λ key. not (eq_text key.0 context)) pins)
      ≡ length pins
unfolding pins_of map_retain
length-retain context [] = refl
length-retain context ((key, pin) ∷ pins) = ground (arith, length-retain context pins)

place_pin-outcome :
    (pins kept : DnsPinSet) (o : DnsObservation) (found : Option DnsPin)
    → outcome (place_pin pins o found) ≡ outcome (place_pin kept o found)
unfolding place_pin
place_pin-outcome pins kept o none = refl
place_pin-outcome pins kept o (some pin) = elim (Result-cases (validate_pin o pin)) [
  | inl (_, e) ↦ rw e refl
  | inr (_, e) ↦ rw e refl
]

found-outcome :
    (pins kept : DnsPinSet) (o : DnsObservation) (released : Bool)
    → map_get (pin_key o) kept ≡ (if not released then map_get (pin_key o) pins else none)
    → outcome (place_pin kept o (map_get (pin_key o) kept))
      ≡ (if released then ok pinned else outcome (place_pin pins o (map_get (pin_key o) pins)))
unfolding place_pin
found-outcome pins kept o true e = rw e refl
found-outcome pins kept o false e =
    ap (λ x. outcome (place_pin kept o x)) e
    ∙ place_pin-outcome kept pins o (map_get (pin_key o) pins)

-- After a context is released, an observation that is well formed starts a new pin when it is of
-- that context, whatever its addresses and resolver and whatever the pins before, and is answered
-- as it would have been without the release when it is of any other. The number that is answered
-- is that of the pins of the context, and as many are gone.
pub release_context-outcome :
    (pins : DnsPinSet) (context : Text) (o : DnsObservation)
    → validate_observation o ≡ ok tt
    → let (released, kept) = release_context pins context in
      (outcome (pin_or_validate kept o) ≡ (
        if eq_text (normalize_identifier o.context_id) (normalize_identifier context)
        then ok pinned
        else outcome (pin_or_validate pins o)))
      × (released ≡ pins_of (normalize_identifier context) pins)
      × (length kept + released ≡ length pins)
unfolding release_context pin_or_validate
release_context-outcome pins context o valid =
    let test = λ (key : Text × Text). not (eq_text key.0 (normalize_identifier context)) in
    let counted = length-retain (normalize_identifier context) pins in
    (
      rw valid (
          found-outcome pins (map_retain test pins) o
            (eq_text (normalize_identifier o.context_id) (normalize_identifier context))
            (get-retain (pin_key o) test pins)),
      omega (arith, counted),
      omega (arith, counted),
    )
