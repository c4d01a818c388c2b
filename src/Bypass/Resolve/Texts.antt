-- ===== src/Bypass/Resolve/Texts.antt =====
-- What resolve_host makes of the text that inet_ntop writes.
use violet.Base.{
  ℕ, zero, suc, ◌+◌, ◌-◌, ◌<◌, ◌≡◌, ◌≢◌, refl, ap, sym, false, true, some, List, [], ◌∷◌, ◌++◌,
  arith, ne→==, length, take, drop, All, All-append, Bool,
}
use mathlib.Core.List.{append_assoc}
use violet.Bypass.Packet.{find}
use violet.Bypass.Resolve.{
  Settings, Resolver, spaces, cut_at_space, write_text, resolve_host_over_dns, uses_doh,
  resolve_host,
}

abbrev pub IsSolid : List ℕ → Type 0
IsSolid text = All (λ c. c ≢ 32) text

find-append :
    (text rest : List ℕ) → IsSolid text → find (32 ∷ []) (text ++ (32 ∷ rest)) ≡ some (length text)
unfolding find
find-append [] rest h = refl
find-append (c ∷ text) rest h = rw (ne→== 32 c (λ e. h.0 (sym e)), find-append text rest h.1) refl

take-length : (xs ys : List ℕ) → take (length xs) (xs ++ ys) ≡ xs
take-length [] ys = refl
take-length (x ∷ xs) ys = ap (λ r. x ∷ r) (take-length xs ys)

cut_at_space-append :
    (text rest : List ℕ) → IsSolid text → cut_at_space (text ++ (32 ∷ rest)) ≡ text
cut_at_space-append text rest h =
    rw (find-append text rest h, cut_at_space) (take-length text (32 ∷ rest))

drop-spaces : (k n : ℕ) → k < n → drop k (spaces n) ≡ 32 ∷ spaces (n - k - 1)
drop-spaces k zero h = absurd (omega arith)
drop-spaces zero (suc n) h = let e : suc n - 0 - 1 ≡ n = omega arith in rw e refl
drop-spaces (suc k) (suc n) h =
    let e : suc n - suc k - 1 ≡ n - k - 1 = omega arith in rw e (drop-spaces k n (omega arith))

write_text_lem :
    (text : List ℕ) (n : ℕ)
    → IsSolid text
    → length text + 1 < n
    → write_text text (spaces n) ≡ text ++ (0 ∷ [])
write_text_lem text n h l =
    let room = drop-spaces (suc (length text)) n (omega arith) in
    let solid : IsSolid (text ++ (0 ∷ [])) =
      All-append (λ c. c ≢ 32) text (0 ∷ []) h (omega arith) in
    rw (room, sym (append_assoc text (0 ∷ []) (32 ∷ spaces (n - suc (length text) - 1))))
      (cut_at_space-append (text ++ (0 ∷ [])) (spaces (n - suc (length text) - 1)) solid)

-- A host that is resolved over DNS gets the text of its first address with the NUL behind it, as a
-- part of the string, where the caller's string has fifty spaces and the text has none.
pub resolve_host-terminated :
    (s : Settings) (r : Resolver) (host text : List ℕ) (rest : List (Bool × List ℕ))
    → r.is_ip host ≡ false
    → uses_doh s r host ≡ false
    → r.getaddrinfo host ≡ some ((true, text) ∷ rest)
    → IsSolid text
    → length text < 49
    → resolve_host s r host (spaces 50) ≡ some (text ++ (0 ∷ []))
unfolding resolve_host resolve_host_over_dns
resolve_host-terminated s r host text rest name plain found h l =
    rw (name, plain, found, resolve_host_over_dns)
      (ap (λ t. some t) (write_text_lem text 50 h (omega arith)))
