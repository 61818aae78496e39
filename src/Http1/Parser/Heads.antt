-- ===== src/Http1/Parser/Heads.antt =====
-- crates/nxb-http1/src/parser.rs: one round of the loop of `parse_response`, over a header block.
use bound_seal.Http1.Model.{Http1Limits}
use bound_seal.Http1.Fields.{find_double_crlf}
use bound_seal.Http1.Parser.{
  by_status, after_interim, behind_head, head_round, starved_head, final_head, ResponseState,
  parse_head, Head, waiting, next_head, head_at, HeadRound,
}
use bound_seal.Std.Text.{Text, text, between}
use bound_seal.Common.{
  >>=-eq-ok, Option-cases, u64_max, inr, is_empty, drop, saturating_succ, ◌+◌, some, inl, Bool,
  length, ◌==◌, fail_if-then, ◌∷◌, ◌⊎◌, ok, Bool-cases, false, ltb, take, [], true, ℕ, ◌≡◌, refl,
}

starved_head-waiting :
    (eof : Bool) (message : Text) {r : HeadRound} → starved_head eof message ≡ ok r → r ≡ waiting
unfolding starved_head
starved_head-waiting true message e = absurd (cc)
starved_head-waiting false message e = cc

module _ (limits : Http1Limits) where
  -- A header block of `n` bytes that was read.
  pub record IsHead (s : ResponseState) (n : ℕ) (head : Head) : Type 0 where
    pub found : find_double_crlf s.rest ≡ some n
    pub offset : ltb u64_max (s.offset + n) ≡ false
    pub parsed : parse_head limits (take n s.rest) ≡ ok head

  -- How a round ends that is no error.
  pub data HeadOutcome (s : ResponseState) (r : HeadRound) : Type 0 where
    waits : r ≡ waiting → HeadOutcome s r
    passes :
        (n : ℕ) (head : Head)
        → IsHead s n head
        → between 100 199 head.status_code ≡ true
        → (head.status_code == 101) ≡ false
        → ltb limits.maximum_interim_responses (saturating_succ u64_max s.interim_responses) ≡ false
        → is_empty (drop n s.rest) ≡ false
        → r ≡ next_head (behind_head s n (saturating_succ u64_max s.interim_responses))
        → HeadOutcome s r
    ends :
        (n : ℕ) (head : Head)
        → IsHead s n head
        → between 100 199 head.status_code ≡ false
        → r ≡ final_head head (behind_head s n s.interim_responses)
        → HeadOutcome s r

module _ (eof : Bool) (limits : Http1Limits) where
  after_interim-ok :
      (t : ResponseState) {r : HeadRound}
      → after_interim eof limits t ≡ ok r
      → (r ≡ waiting) ⊎ ((is_empty t.rest ≡ false) × (r ≡ next_head t))
  unfolding after_interim
  after_interim-ok t e = by_rest t.rest e
    where
      by_rest :
          (rest : Text) {r : HeadRound}
          → (elim rest [
            | [] ↦ starved_head eof (text "stream ended after interim response")
            | _ ∷ _ ↦ ok (next_head t)
          ])
            ≡ ok r
          → (r ≡ waiting) ⊎ ((is_empty rest ≡ false) × (r ≡ next_head t))
      by_rest [] e = inl (starved_head-waiting eof _ e)
      by_rest (c ∷ rest) e = inr (refl, cc)

  pub head_round-HeadOutcome :
      (s : ResponseState) (r : HeadRound) → head_round eof limits s ≡ ok r → HeadOutcome limits s r
  unfolding head_round head_at by_status
  head_round-HeadOutcome s r e = elim (Option-cases (find_double_crlf s.rest)) [
    | inl h ↦
        let (_, e) =
          fail_if-then (ltb limits.maximum_response_header_bytes (length s.rest)) _ _
            (rw (head_round, h) at e) in
        waits (starved_head-waiting eof _ e)
    | inr (n, h) ↦
        let (offset, e) = fail_if-then (ltb u64_max (s.offset + n)) _ _ (rw (head_round, h) at e) in
        let (head, parsed, e) = >>=-eq-ok (parse_head limits (take n s.rest)) _ e in
        let is_head : IsHead limits s n head = record {
          found = h;
          offset = offset;
          parsed = parsed;
        } in
        elim (Bool-cases (between 100 199 head.status_code)) [
          | inl k ↦
              let (no_upgrade, e) =
                fail_if-then (head.status_code == 101) _ _ (rw (by_status, k) at e) in
              let (few, e) =
                fail_if-then
                  (ltb limits.maximum_interim_responses
                    (saturating_succ u64_max s.interim_responses))
                  _ _ e in
              elim (after_interim-ok (behind_head s n (saturating_succ u64_max s.interim_responses))
                e) [
                  | inl w ↦ waits w
                  | inr (more, form) ↦ passes n head is_head k no_upgrade few more form
                ]
          | inr k ↦ ends n head is_head k (let e = rw (by_status, k) at e in cc)
        ]
  ]
