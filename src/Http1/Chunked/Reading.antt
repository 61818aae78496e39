-- ===== src/Http1/Chunked/Reading.antt =====
-- crates/nxb-http1/src/parser.rs: what the loop of `parse_chunked` keeps, and that it ends.
use bound_seal.Common.{
  ◌↔◌, ◌⊎◌, ℕ, zero, suc, ◌+◌, ◌≤◌, ◌≡◌, refl, ap, Bool, true, false, not, Option, none, some, ◌++◌,
  ltb, length, take, drop, Result, ok, err, fail_if-then, >>=-eq-ok, saturating_succ,
  saturating_add, u64_max, arith, Bool-cases, Option-cases, inl, inr,
}
use bound_seal.Std.Text.{Text, eq_text}
use bound_seal.Std.Order.{list_ord, nat_ord}
use bound_seal.Http1.Model.{Http1Limits, Http1Error}
use bound_seal.Http1.Fields.{crlf, find_crlf}
use bound_seal.Http1.Chunked.{
  ParsedBody, ChunkState, Round, finished, again, starved, size_of_line, chunk_data, behind_line,
  sized_chunk, chunk_at, chunk_round, finish,
}

-- The state behind a chunk of `n` bytes.
abbrev pub behind_chunk : ChunkState → ℕ → ChunkState
behind_chunk s n = record {
  rest = drop (n + 2) s.rest;
  cursor = s.cursor + n + 2;
  decoded = s.decoded ++ take n s.rest;
  chunks = saturating_succ u64_max s.chunks;
}

-- The guards of a chunk of `n` bytes that let it through.
pub record IsReadable (limits : Http1Limits) (s : ChunkState) (n : ℕ) : Type 0 where
  pub count : ltb limits.maximum_chunk_count (saturating_succ u64_max s.chunks) ≡ false
  pub size : ltb limits.maximum_chunk_bytes n ≡ false
  pub total :
      ltb limits.maximum_response_body_bytes (saturating_add u64_max (length s.decoded) n) ≡ false
  pub offset : ltb u64_max (s.cursor + n) ≡ false
  pub suffix : ltb u64_max (s.cursor + n + 2) ≡ false
  pub enough : ltb (length s.rest) (n + 2) ≡ false
  pub closed : not (eq_text (take 2 (drop n s.rest)) crlf) ≡ false

pub starved-none {ℓ} :
    {A : Type ℓ} (eof : Bool) (message : Text) {answer : Option A}
    → starved eof message ≡ ok answer
    → answer ≡ none
unfolding starved
starved-none true message e = absurd (cc)
starved-none false message e = cc

pub starved-some {ℓ} :
    {A : Type ℓ} (eof : Bool) (message : Text) {a : A} → starved eof message ≡ ok (some a) → 1 ≤ 0
starved-some eof message e = let no : some _ ≡ none = starved-none eof message e in absurd (cc)

pub finish-finished :
    (outcome : Result Http1Error (Option ParsedBody)) {r : Round}
    → finish outcome ≡ ok r
    → (answer : Option ParsedBody) × (outcome ≡ ok answer) × (r ≡ finished answer)
finish-finished (err e) h = absurd (cc)
finish-finished (ok a) h = (a, refl, cc)

finish-again :
    (outcome : Result Http1Error (Option ParsedBody)) {t : ChunkState}
    → finish outcome ≡ ok (again t)
    → 1 ≤ 0
finish-again outcome h = let (a, _, e) = finish-finished outcome h in absurd (cc)

module _ (limits : Http1Limits) (eof : Bool) where
  chunk_data-ok :
      (s : ChunkState) (n : ℕ) {r : Round}
      → chunk_data limits eof s n ≡ ok r
      → (r ≡ finished none) ⊎ (IsReadable limits s n × (r ≡ again (behind_chunk s n)))
  unfolding chunk_data
  chunk_data-ok s n e =
      let (count, e) =
        fail_if-then (ltb limits.maximum_chunk_count (saturating_succ u64_max s.chunks)) _ _ e in
      let (size, e) = fail_if-then (ltb limits.maximum_chunk_bytes n) _ _ e in
      let (total, e) =
        fail_if-then
          (ltb limits.maximum_response_body_bytes (saturating_add u64_max (length s.decoded) n)) _ _
          e in
      let (offset, e) = fail_if-then (ltb u64_max (s.cursor + n)) _ _ e in
      let (suffix, e) = fail_if-then (ltb u64_max (s.cursor + n + 2)) _ _ e in
      elim (Bool-cases (ltb (length s.rest) (n + 2))) [
        | inl h ↦
            let (answer, h, form) = finish-finished _ (rw h at e) in
            inl (rw form (ap finished (starved-none eof _ h)))
        | inr enough ↦
            let (closed, e) =
              fail_if-then (not (eq_text (take 2 (drop n s.rest)) crlf)) _ _ (rw enough at e) in
            inr (
              record {
                count = count;
                size = size;
                total = total;
                offset = offset;
                suffix = suffix;
                enough = enough;
                closed = closed;
              },
              cc,
            )
      ]

  -- A chunk is read exactly when its guards let it through.
  pub chunk_data-again :
      (s t : ChunkState) (n : ℕ)
      → (chunk_data limits eof s n ≡ ok (again t))
        ↔ (IsReadable limits s n × (t ≡ behind_chunk s n))
  unfolding chunk_data
  chunk_data-again s t n = (
    λ e. elim (chunk_data-ok s n e) [ inl h ↦ absurd (cc) | inr (k, form) ↦ (k, cc) ],
    λ (k, form). rw (form, k.count, k.size, k.total, k.offset, k.suffix, k.enough, k.closed) refl,
  )

  pub chunk_data-finished :
      (s : ChunkState) (n : ℕ) {p : ParsedBody}
      → chunk_data limits eof s n ≡ ok (finished (some p))
      → 1 ≤ 0
  chunk_data-finished s n e = elim (chunk_data-ok s n e) [
    | inl h ↦ absurd (cc)
    | inr (k, form) ↦ absurd (cc)
  ]

  -- A round that goes on read a size line and a chunk.
  pub chunk_round-again :
      (s t : ChunkState)
      → chunk_round limits eof s ≡ ok (again t)
      → (m : ℕ) × (n : ℕ) × (find_crlf s.rest ≡ some m)
        × (size_of_line (take m s.rest) ≡ ok (suc n))
        × (chunk_data limits eof (behind_line s m) (suc n) ≡ ok (again t))
  unfolding chunk_round chunk_at sized_chunk
  chunk_round-again s t e = elim (Option-cases (find_crlf s.rest)) [
    | inl h ↦
        let (_, e) = fail_if-then (ltb 128 (length s.rest)) _ _ (rw h at e) in
        absurd (omega (arith, finish-again _ e))
    | inr (m, h) ↦
        let (size, sized, e) = >>=-eq-ok (size_of_line (take m s.rest)) _ (rw h at e) in
        by_size size m h sized e
  ]
    where
      by_size :
          (size m : ℕ)
          → find_crlf s.rest ≡ some m
          → size_of_line (take m s.rest) ≡ ok size
          → sized_chunk limits eof (behind_line s m) size ≡ ok (again t)
          → (m : ℕ) × (n : ℕ) × (find_crlf s.rest ≡ some m)
            × (size_of_line (take m s.rest) ≡ ok (suc n))
            × (chunk_data limits eof (behind_line s m) (suc n) ≡ ok (again t))
      by_size zero m h sized e = absurd (omega (arith, finish-again _ e))
      by_size (suc n) m h sized e = (m, n, h, sized, e)
