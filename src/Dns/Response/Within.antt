-- ===== src/Dns/Response/Within.antt =====
-- Where the answers lie that parse_dns_response decodes.
use violet.Base.{
  ℕ, zero, suc, ◌+◌, ◌-◌, ◌≤◌, ◌≡◌, ◌≢◌, refl, ◌⊎◌, inl, inr, true, false, ◌&&◌, Option, none, some,
  List, arith, length, All, Memory, read_be16, u16, ltb, leb, leb→le, Bool-cases,
}
use violet.Dns.{Qname, invalid, qname, get_qname}
use violet.Dns.Response.{
  Answer, Answers, answer_at, with_answer, no_answers, next_answer, answers_loop, after_question,
  is_response, parse_dns_response,
}

-- The `rdlength` bytes of an answer end within the message. Of an address, 4 or 16 bytes are read,
-- whatever `rdlength` is: they end within the message if they are no more than that, and otherwise as far
-- behind it as they are more.
pub record AnswerFits (datalen : ℕ) (a : Answer) : Type 0 where
  pub within : a.data_ + a.rdlength ≤ datalen
  pub address4 : a.qclass ≡ 1 → a.qtype ≡ 1 → a.reads ≡ 4
  pub address6 : a.qclass ≡ 1 → a.qtype ≡ 28 → a.reads ≡ 16
  pub no_address : (a.qclass ≢ 1) ⊎ ((a.qtype ≢ 1) × (a.qtype ≢ 28)) → a.reads ≡ 0
  pub read_to : a.data_ + a.reads ≤ datalen + (a.reads - a.rdlength)

answer_at-AnswerFits :
    (p : Memory) (datalen off : ℕ) (name : List ℕ)
    → leb (off + 10 + read_be16 p (off + 8)) datalen ≡ true
    → AnswerFits datalen (answer_at p off name)
answer_at-AnswerFits p datalen off name h =
    let le = leb→le (off + 10 + read_be16 p (off + 8)) datalen h in
    record {
      within = le;
      address4 = λ c t. rw (c, t) refl;
      address6 = λ c t. rw (c, t) refl;
      no_address = λ n. ground (arith, n);
      read_to = omega (arith, le);
    }

-- At most `acount` answers, all of them if none was invalid.
abbrev pub Decoded : ℕ → ℕ → Option Answers → Type 0
Decoded datalen acount none = Unit
Decoded datalen acount (some r) =
    All (AnswerFits datalen) r.answers
    × (length r.answers ≤ acount)
    × ((r.whole ≡ false) ⊎ (length r.answers ≡ acount))

with_answer-Decoded :
    (datalen acount : ℕ) (a : Answer) (r : Option Answers)
    → AnswerFits datalen a
    → Decoded datalen acount r
    → Decoded datalen (suc acount) (with_answer a r)
with_answer-Decoded datalen acount a none h d = tt
with_answer-Decoded datalen acount a (some r) h (fits, count, inl w) =
    ((h, fits), omega arith, inl w)
with_answer-Decoded datalen acount a (some r) h (fits, count, inr w) =
    ((h, fits), omega arith, inr (omega arith))

rejected : (datalen acount : ℕ) → Decoded datalen acount (some (no_answers false))
rejected datalen acount = (tt, omega arith, inl refl)

next_answer-Decoded :
    (p : Memory) (datalen acount : ℕ) (rest : ℕ → Option Answers) (q : Option Qname)
    → ((off : ℕ) → Decoded datalen acount (rest off))
    → Decoded datalen (suc acount) (next_answer p datalen rest q)
next_answer-Decoded p datalen acount rest none h = tt
next_answer-Decoded p datalen acount rest (some invalid) h = rejected datalen (suc acount)
next_answer-Decoded p datalen acount rest (some (qname off name)) h =
    let size = read_be16 p (off + 8) in
    elim (Bool-cases (ltb 0 off && leb (off + 10) datalen)) [
      | inr e ↦ rw e (rejected datalen (suc acount))
      | inl e ↦ (elim (Bool-cases (leb (off + 10 + size) datalen)) [
        | inr f ↦ rw (e, f) (rejected datalen (suc acount))
        | inl f ↦
            rw (e, f)
              (with_answer-Decoded datalen acount _ (rest (off + 10 + size))
                (answer_at-AnswerFits p datalen off name f) (h _))
      ])
    ]

answers_loop-Decoded :
    (rounds acount : ℕ) (p : Memory) (datalen off : ℕ)
    → Decoded datalen acount (answers_loop rounds acount p datalen off)
unfolding answers_loop
answers_loop-Decoded rounds zero p datalen off = (tt, omega arith, inr refl)
answers_loop-Decoded rounds (suc acount) p datalen off =
    next_answer-Decoded p datalen acount (answers_loop rounds acount p datalen)
      (get_qname rounds p datalen (u16 off)) (answers_loop-Decoded rounds acount p datalen)

after_question-Decoded :
    (rounds acount : ℕ) (p : Memory) (datalen : ℕ) (q : Option Qname)
    → Decoded datalen acount (after_question rounds acount p datalen q)
after_question-Decoded rounds acount p datalen none = tt
after_question-Decoded rounds acount p datalen (some invalid) = rejected datalen acount
after_question-Decoded rounds acount p datalen (some (qname off name)) =
    elim (Bool-cases (ltb 0 off && leb (off + 4) datalen)) [
      | inr e ↦ rw e (rejected datalen acount)
      | inl e ↦ rw e (answers_loop-Decoded rounds acount p datalen (off + 4))
    ]

-- Whatever the bytes of a response are, if parse_dns_response returns, the `rdlength` bytes of every
-- answer that it decodes lie within the message, an address of 4 or 16 bytes is read at most as far
-- behind it as it is longer than `rdlength`, and there are no more answers than the header counts; as many,
-- when no answer was rejected.
pub parse_dns_response-Decoded :
    (rounds : ℕ) (p : Memory) (datalen : ℕ)
    → Decoded datalen (read_be16 p 6) (parse_dns_response rounds p datalen)
unfolding parse_dns_response
parse_dns_response-Decoded rounds p datalen = elim (Bool-cases (is_response p datalen)) [
  | inl e ↦
      rw e (after_question-Decoded rounds (read_be16 p 6) p datalen (get_qname rounds p datalen 12))
  | inr e ↦ rw e (rejected datalen (read_be16 p 6))
]
