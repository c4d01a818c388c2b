-- ===== src/Icmp/Message/Verify.antt =====
-- The message that fill_icmp makes: its checksum, its id and the rest of it.
use violet.Base.{
  ℕ, ◌+◌, ◌*◌, ◌≤◌, ◌<◌, ◌≡◌, refl, List, [], ◌∷◌, ◌++◌, arith, length, drop, take, get_or, All,
  IsByte, be16, set_bytes,
}
use violet.Util.Checksum.{calc_checksum}
use violet.Util.Checksum.Laws.{words_bound, checksum_field}
use violet.Icmp.Message.{fill_icmp}

-- The first six bytes of a message: the type, the code, the checksum and the id.
six :
    (xs : List ℕ)
    → 8 ≤ length xs
    → (a b c d e f : ℕ) × (rest : List ℕ) × (xs ≡ a ∷ b ∷ c ∷ d ∷ e ∷ f ∷ rest)
six [] h = absurd (omega arith)
six (a ∷ []) h = absurd (omega arith)
six (a ∷ b ∷ []) h = absurd (omega arith)
six (a ∷ b ∷ c ∷ []) h = absurd (omega arith)
six (a ∷ b ∷ c ∷ d ∷ []) h = absurd (omega arith)
six (a ∷ b ∷ c ∷ d ∷ e ∷ []) h = absurd (omega arith)
six (a ∷ b ∷ c ∷ d ∷ e ∷ f ∷ rest) h = (a, b, c, d, e, f, rest, refl)

-- RFC 792: the words of an ICMP message sum to 0xFFFF.
abbrev pub MessageVerifies : List ℕ → Type 0
MessageVerifies msg = calc_checksum 0 msg ≡ 65535

-- The id, which stands at offset 4 in network order.
abbrev pub id_of : List ℕ → ℕ
id_of msg = get_or msg 4 0 * 256 + get_or msg 5 0

-- Two messages that are the same but for the checksum and the id.
pub record SameEcho (msg msg' : List ℕ) : Type 0 where
  pub head : take 2 msg' ≡ take 2 msg
  pub body : drop 6 msg' ≡ drop 6 msg

pub record Filled (csum id : ℕ) (msg : List ℕ) : Type 0 where
  pub sum : calc_checksum csum (fill_icmp csum id msg) ≡ 65535
  pub id_ : id_of (fill_icmp csum id msg) ≡ id
  pub same : SameEcho msg (fill_icmp csum id msg)
  pub size : length (fill_icmp csum id msg) ≡ length msg

fill_six :
    (csum id a b c d e f : ℕ) (rest : List ℕ)
    → csum < 65536
    → id < 65536
    → All IsByte (a ∷ b ∷ c ∷ d ∷ e ∷ f ∷ rest)
    → length (a ∷ b ∷ c ∷ d ∷ e ∷ f ∷ rest) ≤ 65000
    → Filled csum id (a ∷ b ∷ c ∷ d ∷ e ∷ f ∷ rest)
unfolding fill_icmp set_bytes
fill_six csum id a b c d e f rest hc hi hb l = record {
  sum =
      checksum_field csum (a ∷ b ∷ []) (be16 id ++ rest)
        (omega (arith, words_bound rest hb.1.1.1.1.1.1)) refl;
  id_ = omega arith;
  same = record { head = refl; body = refl };
  size = omega arith;
}

-- A message of 8 bytes or more that fits a packet.
pub fill_icmp-Filled :
    (csum id : ℕ) (msg : List ℕ)
    → csum < 65536
    → id < 65536
    → All IsByte msg
    → 8 ≤ length msg
    → length msg ≤ 65000
    → Filled csum id msg
fill_icmp-Filled csum id msg hc hi hb l u =
    let (a, b, c, d, e, f, rest, eq) = six msg l in
    rw eq (fill_six csum id a b c d e f rest hc hi (rw eq at hb) (rw eq at u))
