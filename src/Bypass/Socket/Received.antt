-- ===== src/Bypass/Socket/Received.antt =====
-- What recv_string makes of the calls of recv.
use mathlib.Core.List.{append_assoc, append-nil}
use violet.Base.{
  ℕ, zero, suc, ◌+◌, ◌-◌, ◌≤◌, ◌≡◌, refl, ap, sym, ◌∙◌, inl, inr, true, List, [], ◌∷◌, ◌++◌, arith,
  length, length-append, leb, leb→le, take, drop, length-take, Bool-cases,
}
use violet.Bypass.Socket.{
  finished, RecvAnswer, gives, would_block, recv_interrupted, recv_broken, insert, with_room,
  resize, zeros, recv_loop, recv_string,
}

-- What a sequence of calls of recv gives before the first that would block.
abbrev pub given : List RecvAnswer → List ℕ
given [] = []
given (gives bytes ∷ answers) = bytes ++ given answers
given (recv_interrupted ∷ answers) = given answers
given (would_block ∷ answers) = []
given (recv_broken ∷ answers) = []

take-length : (xs ys : List ℕ) → take (length xs) (xs ++ ys) ≡ xs
take-length [] ys = refl
take-length (x ∷ xs) ys = ap (λ r. x ∷ r) (take-length xs ys)

take_all : (n : ℕ) (xs : List ℕ) → length xs ≤ n → take n xs ≡ xs
take_all zero [] h = refl
take_all (suc n) [] h = refl
take_all zero (x ∷ xs) h = absurd (omega arith)
take_all (suc n) (x ∷ xs) h = ap (λ r. x ∷ r) (take_all n xs (omega arith))

take-append : (n : ℕ) (xs ys : List ℕ) → n ≤ length xs → take n (xs ++ ys) ≡ take n xs
take-append zero xs ys h = refl
take-append (suc n) [] ys h = absurd (omega arith)
take-append (suc n) (x ∷ xs) ys h = ap (λ r. x ∷ r) (take-append n xs ys (omega arith))

take-insert :
    (message bytes : List ℕ) (at : ℕ)
    → at ≤ length message
    → take (at + length bytes) (insert message at bytes) ≡ take at message ++ bytes
take-insert message bytes at h =
    let front = take at message ++ bytes in
    let size : at + length bytes ≡ length front =
      omega (arith, length-append (take at message) bytes, length-take at message) in
    let split : insert message at bytes ≡ front ++ drop at message =
      sym (append_assoc (take at message) bytes (drop at message)) in
    rw (size, split) (take-length front (drop at message))

take-with_room :
    (message : List ℕ) (at size : ℕ)
    → at ≤ length message
    → take at (with_room message size) ≡ take at message
take-with_room message at size h = elim (Bool-cases (leb (length message) size)) [
  | inr e ↦ rw e refl
  | inl e ↦
      (let small = leb→le (length message) size e in
        rw (e, take_all (size + 1024) message (omega (arith, small)))
          (take-append at message (zeros (size + 1024 - length message)) h))
]

length-with_room : (message : List ℕ) (size : ℕ) → length message ≤ length (with_room message size)
length-with_room message size = elim (Bool-cases (leb (length message) size)) [
  | inr e ↦ rw e (omega arith)
  | inl e ↦
      (let small = leb→le (length message) size e in
        rw (e, take_all (size + 1024) message (omega (arith, small)))
          (omega (arith, length-append message (zeros (size + 1024 - length message)))))
]

length-insert :
    (message bytes : List ℕ) (at : ℕ)
    → at ≤ length message
    → at + length bytes ≤ length (insert message at bytes)
length-insert message bytes at h = omega (
  arith,
  length-append (take at message) (bytes ++ drop at message),
  length-append bytes (drop at message),
  length-take at message,
)

resize_within :
    (message : List ℕ) (at : ℕ) → at ≤ length message → resize message at ≡ take at message
resize_within message at h =
    let none_ : at - length message ≡ 0 = omega arith in rw none_ (append-nil (take at message))

recv_loop-given :
    (answers : List RecvAnswer) (message : List ℕ) (at : ℕ)
    → at ≤ length message
    → (recv_loop answers message at).0 ≡ finished
    → (recv_loop answers message at).1 ≡ take at message ++ given answers
unfolding recv_loop
recv_loop-given [] message at h e = cc
recv_loop-given (would_block ∷ answers) message at h e =
    resize_within message at h ∙ sym (append-nil (take at message))
recv_loop-given (recv_interrupted ∷ answers) message at h e = recv_loop-given answers message at h e
recv_loop-given (recv_broken ∷ answers) message at h e = cc
recv_loop-given (gives [] ∷ answers) message at h e = cc
recv_loop-given (gives (b ∷ bytes) ∷ answers) message at h e =
    let room = with_room message (at + length (b ∷ bytes)) in
    let fits : at ≤ length room =
      omega (arith, length-with_room message (at + length (b ∷ bytes))) in
    recv_loop-given answers (insert room at (b ∷ bytes)) (at + length (b ∷ bytes))
      (length-insert room (b ∷ bytes) at fits) e
    ∙ rw
        (
          take-insert room (b ∷ bytes) at fits,
          take-with_room message at (at + length (b ∷ bytes)) h,
        )
        (append_assoc (take at message) (b ∷ bytes) (given answers))

-- When recv_string finishes, its message is what the calls of recv gave, in order and up to the first
-- that would block; nothing of what the message held before is left.
pub recv_string-given :
    (answers : List RecvAnswer) (message : List ℕ)
    → (recv_string true answers message).0 ≡ finished
    → (recv_string true answers message).1 ≡ given answers
unfolding recv_string
recv_string-given answers message e = recv_loop-given answers message 0 (omega arith) e
