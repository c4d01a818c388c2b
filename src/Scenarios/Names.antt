-- ===== src/Scenarios/Names.antt =====
-- A response whose chains of labels and pointers end.
use violet.Base.{
  ℕ, zero, suc, ◌+◌, ◌-◌, ◌*◌, ◌%◌, ◌≤◌, ◌<◌, ◌≡◌, ◌⊎◌, refl, inl, inr, Bool, true, false, ◌&&◌,
  ◌||◌, not, some, arith, ltb, leb, ◌==◌, if◌then◌else◌, Bool-cases, ltb→lt, ltb→ge, ==→eq, ==→ne,
  All, length, read_be16, List, [], ◌∷◌, get_or,
}
use violet.Dns.Response.{Answers, parse_dns_response}
use violet.Dns.Response.Within.{AnswerFits}
use violet.Dns.Response.Returns.{Falls, parse_dns_response-returns}
use violet.Scenarios.Engine.{dns_bytes, dns_answer}

-- Labels lead forward; the pointers at 2 and 19 lead back.
abbrev rank : ℕ → ℕ
rank i = if i == 2 || i == 19 then 50 else 40 - i

-- Whether the rank falls at a position.
abbrev falls_at : ℕ → Bool
falls_at i =
    (not (ltb 0 (dns_answer i))
      || (leb 64 (dns_answer i)
          || (not (leb (i + 1 + dns_answer i) 35) || ltb (rank (i + 1 + dns_answer i)) (rank i))))
    && (not (leb 64 (dns_answer i))
        || ltb (rank (dns_answer i % 64 * 256 + dns_answer (i + 1))) (rank i))

-- Both halves of the test, as `Falls` has them.
from_tests :
    (b next target here : ℕ) (size : ℕ)
    → ((not (ltb 0 b) || (leb 64 b || (not (leb size 35) || ltb next here)))
        && (not (leb 64 b) || ltb target here))
      ≡ true
    → (0 < b → b < 64 → size ≤ 35 → next < here) × (64 ≤ b → target < here)
from_tests b next target here size h = (λ x y z. ground arith, λ x. ground arith)

-- The test at every position in front of one.
falls_before : ℕ → Bool
falls_before zero = true
falls_before (suc n) = let rest = falls_before n in if falls_at n then rest else false

falls_before-at : (n i : ℕ) → falls_before n ≡ true → i < n → falls_at i ≡ true
unfolding falls_before
falls_before-at zero i h l = absurd (omega arith)
falls_before-at (suc n) i h l = elim (Bool-cases (falls_at n)) [
  | inr e ↦ absurd (let h' = rw e at h in cc)
  | inl e ↦
      (let h' : falls_before n ≡ true = rw e at h in
        elim (Bool-cases (n == i)) [
          | inl same ↦ rw (← ==→eq n i same) e
          | inr other ↦ falls_before-at n i h' (omega (arith, ==→ne n i other))
        ])
]

falls_inside : falls_before 35 ≡ true
unfolding falls_before
falls_inside = refl

get_or_behind : (xs : List ℕ) (i : ℕ) → length xs ≤ i → get_or xs i 0 ≡ 0
get_or_behind [] i h = refl
get_or_behind (x ∷ xs) zero h = absurd (omega arith)
get_or_behind (x ∷ xs) (suc i) h = get_or_behind xs i (omega arith)

dns_answer-Falls : Falls dns_answer 35 rank
dns_answer-Falls i = elim (Bool-cases (ltb i 35)) [
  | inl e ↦
      from_tests (dns_answer i) (rank (i + 1 + dns_answer i))
        (rank (dns_answer i % 64 * 256 + dns_answer (i + 1))) (rank i) (i + 1 + dns_answer i)
        (falls_before-at 35 i falls_inside (ltb→lt i 35 e))
  | inr e ↦
      (let zero_ : dns_answer i ≡ 0 = get_or_behind dns_bytes i (ltb→ge i 35 e) in
        rw zero_ (λ x y z. absurd (omega arith), λ x. absurd (omega arith)))
]

rank_bound : (i : ℕ) → rank i < 51
rank_bound i = ground arith

parse_dns_response-returns_example :
    (r : Answers) × (parse_dns_response 51 dns_answer 35 ≡ some r)
    × All (AnswerFits 35) r.answers
    × (length r.answers ≤ read_be16 dns_answer 6)
    × ((r.whole ≡ false) ⊎ (length r.answers ≡ read_be16 dns_answer 6))
parse_dns_response-returns_example =
    parse_dns_response-returns dns_answer 35 rank 51 dns_answer-Falls (omega arith) rank_bound
