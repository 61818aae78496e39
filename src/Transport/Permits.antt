-- ===== src/Transport/Permits.antt =====
-- crates/nxb-transport/src/lib.rs: what a permit and an issued ticket stand for.
use bound_seal.Common.{
  ℕ, ◌≤◌, ◌≡◌, ◌↔◌, refl, sym, ◌∙◌, ap, subst, Bool, true, false, ◌&&◌, ltb, ltb→lt, ==_iff, all,
  &&-true, Option, none, some, List, [], ◌∷◌, arith, Option-cases, Bool-cases, inl, inr,
}
use mathlib.Core.Bool.{false≢true}
use mathlib.Core.Option
use bound_seal.Std.Text.{Text}
use bound_seal.Std.Ip.{ip_ord}
use bound_seal.Std.Order.{list_ord, nat_ord, same_iff}
use bound_seal.Std.Collections.{map_get}
use bound_seal.Transport.Types.{
  TransportScheme, http, https, same_scheme, ConnectionTicket, ConnectionAttempt, TransportPermit,
  StoredTicketState, issued, used, withdrawn, StoredTicket, BindingField, TicketAuthority,
}
use bound_seal.Transport.Binding.{normalize_identifier, normalize_host, normalize_authority}
use bound_seal.Transport.Authority.{
  consume, consume_stored, use_ticket, permit_of, comparisons, first_mismatch, same_sni,
}
use bound_seal.Transport.Spending.{consume-known, consume-unknown}

-- The attempt is the connection that the ticket was issued for.
abbrev pub Matches : ConnectionAttempt → ConnectionTicket → Type 0
Matches attempt t =
    (normalize_identifier attempt.dns_context_id ≡ t.dns_context_id)
    × (attempt.scheme ≡ t.scheme)
    × (attempt.remote_ip ≡ t.selected_ip)
    × (attempt.port ≡ t.port)
    × (Option.map normalize_host attempt.sni ≡ t.sni)
    × (normalize_authority attempt.http_host ≡ t.http_host)
    × (attempt.redirect_depth ≡ t.redirect_depth)

same_scheme_iff : (s t : TransportScheme) → (same_scheme s t ≡ true) ↔ (s ≡ t)
same_scheme_iff http http = (λ _. refl, λ _. refl)
same_scheme_iff http https = (λ h. cc, λ h. cc)
same_scheme_iff https http = (λ h. cc, λ h. cc)
same_scheme_iff https https = (λ _. refl, λ _. refl)

same_sni_iff : (s t : Option Text) → (same_sni s t ≡ true) ↔ (s ≡ t)
same_sni_iff none none = (λ _. refl, λ _. refl)
same_sni_iff none (some t) = (λ h. cc, λ h. cc)
same_sni_iff (some s) none = (λ h. cc, λ h. cc)
same_sni_iff (some s) (some t) =
    (λ h. ap some ((same_iff s t).0 h), λ h. ground (arith, same_iff s t))

agree_iff :
    (checks : List (Bool × BindingField))
    → (first_mismatch checks ≡ none) ↔ (all (λ c. c.0) checks ≡ true)
agree_iff [] = (λ _. refl, λ _. refl)
agree_iff ((true, field) ∷ rest) = agree_iff rest
agree_iff ((false, field) ∷ rest) = (λ h. cc, λ h. absurd (false≢true h))

and : {a b : Bool} → a ≡ true → b ≡ true → (a && b) ≡ true
and h k = ground arith

Matches-iff :
    (attempt : ConnectionAttempt) (t : ConnectionTicket)
    → (first_mismatch (comparisons attempt t) ≡ none) ↔ Matches attempt t
unfolding comparisons
Matches-iff attempt t = (
  λ h0.
      let (b1, h1) = &&-true _ _ ((agree_iff (comparisons attempt t)).0 h0) in
      let (b2, h2) = &&-true _ _ h1 in
      let (b3, h3) = &&-true _ _ h2 in
      let (b4, h4) = &&-true _ _ h3 in
      let (b5, h5) = &&-true _ _ h4 in
      let (b6, h6) = &&-true _ _ h5 in
      let (b7, _) = &&-true _ true h6 in
      (
        (same_iff _ _).0 b1,
        (same_scheme_iff _ _).0 b2,
        (same_iff _ _).0 b3,
        (==_iff _ _).0 b4,
        (same_sni_iff _ _).0 b5,
        (same_iff _ _).0 b6,
        (==_iff _ _).0 b7,
      ),
  λ (e1, e2, e3, e4, e5, e6, e7). (agree_iff (comparisons attempt t)).1 (
      and ((same_iff _ _).1 e1) (
        and ((same_scheme_iff _ _).1 e2) (
          and ((same_iff _ _).1 e3) (
            and ((==_iff _ _).1 e4) (
              and ((same_sni_iff _ _).1 e5)
                (and ((same_iff _ _).1 e6) (and ((==_iff _ _).1 e7) refl))))))),
)

-- The use of a ticket that was issued: the clock is within its life and the attempt is its own.
abbrev pub Usable : ConnectionAttempt → ℕ → ConnectionTicket → Type 0
Usable attempt now t =
    (t.issued_at_milliseconds ≤ now) × (now ≤ t.expires_at_milliseconds) × Matches attempt t

use_permit_iff :
    (attempt : ConnectionAttempt) (now : ℕ) (t : ConnectionTicket) (p : TransportPermit)
    → ((use_ticket t attempt now).permit ≡ some p) ↔ (Usable attempt now t × (p ≡ permit_of t))
unfolding use_ticket
use_permit_iff attempt now t p = elim (Bool-cases (ltb now t.issued_at_milliseconds)) [
  | inl early ↦
      rw early
        (λ h. cc, λ ((after_issue, _, _), _). absurd (omega (arith, after_issue, ltb→lt _ _ early)))
  | inr begun ↦ elim (Bool-cases (ltb t.expires_at_milliseconds now)) [
    | inl late ↦
        rw (begun, late)
          (λ h. cc, λ ((_, in_time, _), _). absurd (omega (arith, in_time, ltb→lt _ _ late)))
    | inr alive ↦ elim (Option-cases (first_mismatch (comparisons attempt t))) [
      | inl e ↦
          rw (begun, alive, e)
            (
              λ h. ((ground arith, ground arith, (Matches-iff attempt t).0 e), ground arith),
              λ h. ap some (sym h.1),
            )
      | inr (field, e) ↦
          rw (begun, alive, e) (λ h. cc, λ ((_, _, m), _). cc ((Matches-iff attempt t).1 m))
    ]
  ]
]

stored_permit_iff :
    (a : TicketAuthority) (attempt : ConnectionAttempt) (now : ℕ) (st : StoredTicketState)
    (t : ConnectionTicket) (p : TransportPermit)
    → ((consume_stored a attempt now st t).0.permit ≡ some p)
      ↔ ((st ≡ issued) × Usable attempt now t × (p ≡ permit_of t))
unfolding consume_stored
stored_permit_iff a attempt now issued t p = (
  λ h. let (usable, made) = (use_permit_iff attempt now t p).0 h in (refl, usable, made),
  λ (_, usable, made). (use_permit_iff attempt now t p).1 (usable, made),
)
stored_permit_iff a attempt now used t p = (λ h. cc, λ (e, _, _). cc)
stored_permit_iff a attempt now withdrawn t p = (λ h. cc, λ (e, _, _). cc)

-- A permit is given for an attempt exactly if the ticket that it names is stored, neither used nor
-- revoked, the time is within the ticket's life and each checked field agrees with the ticket, and
-- the permit is made of the ticket.
pub permit_iff :
    (a : TicketAuthority) (attempt : ConnectionAttempt) (now : ℕ) (p : TransportPermit)
    → ((consume a attempt now).0.permit ≡ some p) ↔ (
        (s : StoredTicket) × (map_get attempt.ticket_id a.tickets ≡ some s)
        × (s.state ≡ issued)
        × Usable attempt now s.ticket
        × (p ≡ permit_of s.ticket))
unfolding consume_stored
permit_iff a attempt now p = elim (Option-cases (map_get attempt.ticket_id a.tickets)) [
  | inl e ↦ rw (consume-unknown a attempt now e) (λ h. cc, λ (s, found, _, _, _). cc)
  | inr (s, e) ↦ rw (consume-known a attempt now s e) (
    λ h.
        let (free, usable, made) = (stored_permit_iff a attempt now s.state s.ticket p).0 h in
        (s, e, free, usable, made),
    λ (t, found, free, usable, made).
        let here : s ≡ t = cc in
        (stored_permit_iff a attempt now s.state s.ticket p).1 (
          ap (λ x. x.state) here ∙ free,
          subst (λ x. Usable attempt now x.ticket) (sym here) usable,
          made ∙ ap (λ x. permit_of x.ticket) (sym here),
        ),
  )
]
