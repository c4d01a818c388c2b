-- ===== src/Dns/Response.antt =====
-- parse_dns_response of dns.c. What it decodes goes to the log only; here it is the result.
pub mod Within
pub mod Returns
use violet.Base.{
  ℕ, zero, suc, ◌+◌, ◌/◌, ◌%◌, Bool, true, false, ◌&&◌, Option, none, some, List, [], ◌∷◌, Memory,
  read_be16, read_be32, u16, ltb, leb, ◌==◌, if◌then◌else◌,
}
use violet.Dns.{Qname, invalid, qname, get_qname}

-- A record of the answer section; `data` is the offset of its `rdlength` bytes, and `reads` how many
-- bytes inet_ntop reads there for the log.
pub record Answer : Type 0 where
  pub name : List ℕ
  pub qtype : ℕ
  pub qclass : ℕ
  pub ttl : ℕ
  pub rdlength : ℕ
  pub data_ : ℕ
  pub reads : ℕ

-- The answers up to the first that is invalid, and whether there was none of these.
pub record Answers : Type 0 where
  pub answers : List Answer
  pub whole : Bool

abbrev pub no_answers : Bool → Answers
no_answers whole = record { answers = []; whole = whole }

abbrev pub with_answer : Answer → Option Answers → Option Answers
with_answer a none = none
with_answer a (some r) = some (record r { answers = a ∷ r.answers })

-- DNS_QCLASS_IN, DNS_QTYPE_A and DNS_QTYPE_AAAA: inet_ntop reads a whole address, whatever rdlength is.
abbrev pub ntop_reads : (qtype qclass : ℕ) → ℕ
ntop_reads qtype qclass =
    if qclass == 1 then (if qtype == 1 then 4 else (if qtype == 28 then 16 else 0)) else 0

-- struct dns_rr, behind the name.
abbrev pub answer_at : Memory → ℕ → List ℕ → Answer
answer_at p off name = record {
  name = name;
  qtype = read_be16 p off;
  qclass = read_be16 p (off + 2);
  ttl = read_be32 p (off + 4);
  rdlength = read_be16 p (off + 8);
  data_ = off + 10;
  reads = ntop_reads (read_be16 p off) (read_be16 p (off + 2));
}

-- One answer, whose name is read, and then the rest of them.
abbrev pub next_answer : Memory → ℕ → (ℕ → Option Answers) → Option Qname → Option Answers
next_answer p datalen rest none = none
next_answer p datalen rest (some invalid) = some (no_answers false)
next_answer p datalen rest (some (qname off name)) =
    let a = answer_at p off name in
    if ltb 0 off && leb (off + 10) datalen
    then (if leb (off + 10 + a.rdlength) datalen
        then with_answer a (rest (off + 10 + a.rdlength))
        else some (no_answers false))
    else some (no_answers false)

-- The loop over the answers. The outer `none` is a get_qname that does not return.
unfoldable pub answers_loop : ℕ → ℕ → Memory → ℕ → ℕ → Option Answers
answers_loop rounds zero p datalen off = some (no_answers true)
answers_loop rounds (suc acount) p datalen off =
    next_answer p datalen (answers_loop rounds acount p datalen)
      (get_qname rounds p datalen (u16 off))

-- The one question that is read, and then the answers.
abbrev pub after_question : ℕ → ℕ → Memory → ℕ → Option Qname → Option Answers
after_question rounds acount p datalen none = none
after_question rounds acount p datalen (some invalid) = some (no_answers false)
after_question rounds acount p datalen (some (qname off name)) =
    if ltb 0 off && leb (off + 4) datalen
    then answers_loop rounds acount p datalen (off + 4)
    else some (no_answers false)

-- struct dns_header: `qr` and `opcode` are bits of the third byte.
abbrev pub is_response : Memory → ℕ → Bool
is_response p datalen =
    leb 13 datalen
    && (p 2 / 128 == 1 && (p 2 / 8 % 16 == 0 && (ltb 0 (read_be16 p 4) && ltb 0 (read_be16 p 6))))

unfoldable pub parse_dns_response : ℕ → Memory → ℕ → Option Answers
parse_dns_response rounds p datalen =
    if is_response p datalen
    then after_question rounds (read_be16 p 6) p datalen (get_qname rounds p datalen 12)
    else some (no_answers false)
