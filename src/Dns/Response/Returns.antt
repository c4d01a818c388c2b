-- ===== src/Dns/Response/Returns.antt =====
-- When parse_dns_response returns: where the chains of labels and pointers of the message end.
use violet.Base.{
  ℕ, zero, suc, ◌+◌, ◌*◌, ◌%◌, ◌≤◌, ◌<◌, ◌≡◌, ◌≢◌, refl, inl, inr, ◌⊎◌, Bool, true, false, ◌&&◌,
  Option, none, some, arith, Memory, read_be16, u16, ltb, leb, leb→le, ◌==◌, ==→ne, Bool-cases,
  Option-cases, length, All,
}
use violet.Dns.{
  Cursor, jump, copy_label, fits, qname_loop, Qname, invalid, qname, finish_loop, start, get_qname,
}
use violet.Dns.Response.{
  Answer, Answers, with_answer, next_answer, answers_loop, after_question, is_response,
  parse_dns_response,
}
use violet.Dns.Response.Within.{AnswerFits, parse_dns_response-Decoded}

-- A rank that falls with each step of get_qname: over a label that ends within the message, and by a
-- compression pointer. There is one when no chain of labels and pointers comes back to itself.
abbrev pub Falls : Memory → ℕ → (ℕ → ℕ) → Type 0
Falls p datalen rank =
    (i : ℕ)
    → (0 < p i → p i < 64 → i + 1 + p i ≤ datalen → rank (i + 1 + p i) < rank i)
      × (64 ≤ p i → rank (p i % 64 * 256 + p (i + 1)) < rank i)

below : (n : ℕ) → leb 64 n ≡ false → n < 64
below n h = ground arith

within_first : (a b : Bool) → (a && b) ≡ true → a ≡ true
within_first true b h = refl
within_first false b h = cc

inside : (datalen : ℕ) (s : Cursor) → fits datalen s ≡ true → s.ptr + 1 + s.len ≤ datalen
inside datalen s h = leb→le (s.ptr + 1 + s.len) datalen (within_first _ _ h)

module _ (p : Memory) (datalen : ℕ) (rank : ℕ → ℕ) (falls : Falls p datalen rank)
    (small : datalen < 65536) where
  copy-ranks :
      (s : Cursor)
      → s.len ≡ p s.ptr
      → 0 < s.len
      → s.len < 64
      → s.ptr + 1 + s.len ≤ datalen
      → rank (copy_label p s).ptr < rank s.ptr
  unfolding copy_label
  copy-ranks s l some_ short within =
      let falls_ = (falls s.ptr).0 (rw (← l) some_) (rw (← l) short) (rw (← l) within) in
      let same : (s.ptr + (s.len + 1)) % 65536 ≡ s.ptr + 1 + s.len = omega arith in
      rw (same, l) falls_

  loop-returns :
      (rounds : ℕ) (s : Cursor)
      → s.len ≡ p s.ptr
      → rank s.ptr < rounds
      → qname_loop rounds p datalen s ≢ none
  unfolding qname_loop
  loop-returns zero s l h = absurd (omega arith)
  loop-returns (suc rounds) s l h = elim (Bool-cases (s.len == 0)) [
    | inl z ↦ rw z (λ e. cc)
    | inr z ↦ elim (Bool-cases (leb 64 s.len)) [
      | inl j ↦
          let falls_ = (falls s.ptr).1 (rw (← l) (leb→le 64 s.len j)) in
          rw (z, j)
            (loop-returns rounds (jump p s) (unfold jump in refl)
              (unfold jump in (rw l (omega (arith, falls_)))))
      | inr j ↦ elim (Bool-cases (fits datalen s)) [
        | inr f ↦ rw (z, j, f) (λ e. cc)
        | inl f ↦
            rw (z, j, f)
              (loop-returns rounds (copy_label p s) (unfold copy_label in refl) (
                omega (
                  arith,
                  copy-ranks s l (omega (arith, ==→ne s.len 0 z)) (below s.len j)
                      (inside datalen s f),
                )))
      ]
    ]
  ]

  finish_returns : (r : Option Cursor) → r ≢ none → finish_loop r ≢ none
  finish_returns none h = absurd (h refl)
  finish_returns (some s) h = λ e. cc

  get_qname-returns : (rounds off : ℕ) → rank off < rounds → get_qname rounds p datalen off ≢ none
  unfolding get_qname
  get_qname-returns rounds off h =
      finish_returns (qname_loop rounds p datalen (start p off))
        (loop-returns rounds (start p off) refl h)

  with_answer-returns : (a : Answer) (r : Option Answers) → r ≢ none → with_answer a r ≢ none
  with_answer-returns a none h = absurd (h refl)
  with_answer-returns a (some r) h = λ e. cc

  next_answer-returns :
      (rest : ℕ → Option Answers) (q : Option Qname)
      → q ≢ none
      → ((off : ℕ) → rest off ≢ none)
      → next_answer p datalen rest q ≢ none
  next_answer-returns rest none h k = absurd (h refl)
  next_answer-returns rest (some invalid) h k = λ e. cc
  next_answer-returns rest (some (qname off name)) h k =
      let size = read_be16 p (off + 8) in
      elim (Bool-cases (ltb 0 off && leb (off + 10) datalen)) [
        | inr e ↦ rw e (λ e'. cc)
        | inl e ↦ elim (Bool-cases (leb (off + 10 + size) datalen)) [
          | inr f ↦ rw (e, f) (λ e'. cc)
          | inl f ↦ rw (e, f) (with_answer-returns _ (rest (off + 10 + size)) (k (off + 10 + size)))
        ]
      ]

  module _ (rounds : ℕ) (enough : (i : ℕ) → rank i < rounds) where
    answers_loop-returns : (acount off : ℕ) → answers_loop rounds acount p datalen off ≢ none
    unfolding answers_loop
    answers_loop-returns zero off = λ e. cc
    answers_loop-returns (suc acount) off =
        next_answer-returns (answers_loop rounds acount p datalen)
          (get_qname rounds p datalen (u16 off))
          (get_qname-returns rounds (u16 off) (enough (u16 off))) (answers_loop-returns acount)

    after_question-returns :
        (acount : ℕ) (q : Option Qname) → q ≢ none → after_question rounds acount p datalen q ≢ none
    after_question-returns acount none h = absurd (h refl)
    after_question-returns acount (some invalid) h = λ e. cc
    after_question-returns acount (some (qname off name)) h =
        elim (Bool-cases (ltb 0 off && leb (off + 4) datalen)) [
          | inr e ↦ rw e (λ e'. cc)
          | inl e ↦ rw e (answers_loop-returns acount (off + 4))
        ]

    parse_returns : parse_dns_response rounds p datalen ≢ none
    unfolding parse_dns_response
    parse_returns = elim (Bool-cases (is_response p datalen)) [
      | inr e ↦ rw e (λ e'. cc)
      | inl e ↦ rw e (
          after_question-returns (read_be16 p 6) (get_qname rounds p datalen 12)
            (get_qname-returns rounds 12 (enough 12)))
    ]

-- A message of less than 65536 bytes in which no chain of labels and compression pointers comes back
-- to itself, as a rank that falls along them shows, is parsed to the end when there are more rounds
-- than the rank's values. The `rdlength` bytes of every answer that is decoded lie within the message. For
-- an address, and only then, inet_ntop reads at them, 4 or 16 bytes whatever `rdlength` is, which end
-- behind the message at most by as much as they are more than `rdlength`. There are no more answers than the header counts; as many, when no answer was rejected.
pub parse_dns_response-returns :
    (p : Memory) (datalen : ℕ) (rank : ℕ → ℕ) (rounds : ℕ)
    → Falls p datalen rank
    → datalen < 65536
    → ((i : ℕ) → rank i < rounds)
    → (r : Answers) × (parse_dns_response rounds p datalen ≡ some r)
      × All (AnswerFits datalen) r.answers
      × (length r.answers ≤ read_be16 p 6)
      × ((r.whole ≡ false) ⊎ (length r.answers ≡ read_be16 p 6))
parse_dns_response-returns p datalen rank rounds falls small enough =
    elim (Option-cases (parse_dns_response rounds p datalen)) [
      | inl e ↦ absurd (parse_returns p datalen rank falls small rounds enough e)
      | inr (r, e) ↦
          let decoded = rw e at (parse_dns_response-Decoded rounds p datalen) in
          (r, e, decoded.0, decoded.1, decoded.2)
    ]
