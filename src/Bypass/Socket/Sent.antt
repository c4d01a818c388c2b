-- ===== src/Bypass/Socket/Sent.antt =====
-- What send_string sends.
use mathlib.Core.List.{append_assoc}
use violet.Base.{
  ℕ, suc, ◌≤◌, ◌<◌, ◌≡◌, refl, ap, sym, ◌∙◌, inl, inr, Bool, true, false, false, List, [], ◌∷◌,
  ◌++◌, arith, ne→==, ◌==◌, length, take, drop, min, length-drop, take-append-drop, All, Bool-cases,
}
use violet.Bypass.Socket.{
  SendAnswer, takes, send_interrupted, send_broken, finished, split_rest, send_loop, send_string,
}

-- The pieces joined.
abbrev pub joined : List (List ℕ) → List ℕ
joined [] = []
joined (piece ∷ pieces) = piece ++ joined pieces

-- Calls that take at least a byte each.
abbrev pub IsProgress : SendAnswer → Type 0
IsProgress (takes n) = 0 < n
IsProgress send_interrupted = Unit {0}
IsProgress send_broken = ⊥

send_loop-joined :
    (size : ℕ → ℕ) (answers : List SendAnswer) (bytes : List ℕ)
    → (send_loop size answers bytes).0 ≡ finished
    → joined (send_loop size answers bytes).1 ≡ bytes
unfolding send_loop
send_loop-joined size answers [] e = refl
send_loop-joined size [] (b ∷ bytes) e = cc
send_loop-joined size (send_broken ∷ answers) (b ∷ bytes) e = cc
send_loop-joined size (send_interrupted ∷ answers) (b ∷ bytes) e =
    send_loop-joined size answers (b ∷ bytes) e
send_loop-joined size (takes n ∷ answers) (b ∷ bytes) e =
    let taken = min n (size (length (b ∷ bytes))) in
    elim (Bool-cases (taken == 0)) [
      | inl z ↦ absurd (let e' = rw z at e in cc)
      | inr z ↦ rw z (
          ap (λ xs. take taken (b ∷ bytes) ++ xs)
            (send_loop-joined size answers (drop taken (b ∷ bytes)) (rw z at e))
          ∙ take-append-drop taken (b ∷ bytes))
    ]

-- Whatever the size of the pieces, a string that send_string has finished with has gone out whole.
pub send_string-whole :
    (timeout_set : Bool) (size : ℕ → ℕ) (answers : List SendAnswer) (bytes : List ℕ)
    → (send_string timeout_set size answers bytes).0 ≡ finished
    → joined (send_string timeout_set size answers bytes).1 ≡ bytes
unfolding send_string
send_string-whole timeout_set size answers [] e = refl
send_string-whole true size answers (b ∷ bytes) e = send_loop-joined size answers (b ∷ bytes) e
send_string-whole false size answers (b ∷ bytes) e = cc

send_loop_part :
    (size : ℕ → ℕ) (answers : List SendAnswer) (bytes : List ℕ)
    → (rest : List ℕ) × (bytes ≡ joined (send_loop size answers bytes).1 ++ rest)
unfolding send_loop
send_loop_part size answers [] = ([], refl)
send_loop_part size [] (b ∷ bytes) = (b ∷ bytes, refl)
send_loop_part size (send_broken ∷ answers) (b ∷ bytes) = (b ∷ bytes, refl)
send_loop_part size (send_interrupted ∷ answers) (b ∷ bytes) =
    send_loop_part size answers (b ∷ bytes)
send_loop_part size (takes n ∷ answers) (b ∷ bytes) =
    let taken = min n (size (length (b ∷ bytes))) in
    elim (Bool-cases (taken == 0)) [
      | inl z ↦ (b ∷ bytes, rw z refl)
      | inr z ↦
          let (rest, same) = send_loop_part size answers (drop taken (b ∷ bytes)) in
          let pieces = joined (send_loop size answers (drop taken (b ∷ bytes))).1 in
          (
            rest,
            rw z (
                sym (take-append-drop taken (b ∷ bytes))
                ∙ ap (λ xs. take taken (b ∷ bytes) ++ xs) same
                ∙ sym (append_assoc (take taken (b ∷ bytes)) pieces rest)),
          )
    ]

-- Whatever the calls do, what has gone out is a first part of the string.
pub send_string_part :
    (timeout_set : Bool) (size : ℕ → ℕ) (answers : List SendAnswer) (bytes : List ℕ)
    → (rest : List ℕ) × (bytes ≡ joined (send_string timeout_set size answers bytes).1 ++ rest)
unfolding send_string
send_string_part timeout_set size answers [] = ([], refl)
send_string_part true size answers (b ∷ bytes) = send_loop_part size answers (b ∷ bytes)
send_string_part false size answers (b ∷ bytes) = (b ∷ bytes, refl)

-- How many of the calls take bytes.
abbrev pub takings : List SendAnswer → ℕ
takings [] = 0
takings (takes n ∷ answers) = suc (takings answers)
takings (send_interrupted ∷ answers) = takings answers
takings (send_broken ∷ answers) = takings answers

send_loop-finished :
    (size : ℕ → ℕ) (answers : List SendAnswer) (bytes : List ℕ)
    → ((left : ℕ) → 0 < left → 0 < size left)
    → All IsProgress answers
    → length bytes ≤ takings answers
    → (send_loop size answers bytes).0 ≡ finished
unfolding send_loop
send_loop-finished size answers [] pos_ ok h = refl
send_loop-finished size [] (b ∷ bytes) pos_ ok h = absurd (omega arith)
send_loop-finished size (send_broken ∷ answers) (b ∷ bytes) pos_ ok h = absurd ok.0
send_loop-finished size (send_interrupted ∷ answers) (b ∷ bytes) pos_ ok h =
    send_loop-finished size answers (b ∷ bytes) pos_ ok.1 h
send_loop-finished size (takes n ∷ answers) (b ∷ bytes) pos_ ok h =
    let taken = min n (size (length (b ∷ bytes))) in
    let some_ = pos_ (length (b ∷ bytes)) (omega arith) in
    let nonzero : (taken == 0) ≡ false = ne→== taken 0 (omega (arith, some_, ok.0)) in
    rw nonzero (
      send_loop-finished size answers (drop taken (b ∷ bytes)) pos_ ok.1
        (omega (arith, length-drop taken (b ∷ bytes), some_, ok.0)))

split_rest_positive :
    (split_position left : ℕ) → 0 < split_position → 0 < left → 0 < split_rest split_position left
split_rest_positive split_position left h k = ground arith

-- With a split position above 0 send_string sends the whole string: on calls that each take a byte or
-- more or are interrupted, at least as many of the first kind as there are bytes, it finishes, and the
-- pieces that went out are the string, in order.
pub send_string-joined :
    (split_position : ℕ) (answers : List SendAnswer) (bytes : List ℕ)
    → 0 < split_position
    → All IsProgress answers
    → length bytes ≤ takings answers
    → let r = send_string true (split_rest split_position) answers bytes in
      (r.0 ≡ finished) × (joined r.1 ≡ bytes)
unfolding send_string
send_string-joined split_position answers [] h ok l = (refl, refl)
send_string-joined split_position answers (b ∷ bytes) h ok l =
    let done =
      send_loop-finished (split_rest split_position) answers (b ∷ bytes)
        (λ left k. split_rest_positive split_position left h k) ok l in
    (done, send_loop-joined (split_rest split_position) answers (b ∷ bytes) done)
