-- ===== src/Bypass/Packet/Newlines.antt =====
-- What modify_http_request makes of the newlines.
use violet.Base.{
  ℕ, zero, suc, ◌≤◌, ◌≡◌, refl, ap, ◌∙◌, inl, inr, Bool, true, false, ◌&&◌, List, [], ◌∷◌, ◌==◌,
  if◌then◌else◌, arith, length, Bool-cases,
}
use violet.Bypass.Packet.{erase_newlines}

-- The bytes without each \n that follows a \r, or another \n that is left out.
abbrev pub without_lf : (after_cr : Bool) → List ℕ → List ℕ
without_lf after_cr [] = []
without_lf after_cr (x ∷ xs) =
    let skipped = without_lf true xs in
    let kept = without_lf (x == 13) xs in if after_cr && x == 10 then skipped else x ∷ kept

and_left : (a b : Bool) → (a && b) ≡ true → a ≡ true
and_left true b e = refl
and_left false b e = cc

skip :
    (x y : ℕ) (xs : List ℕ)
    → (x == 13 && y == 10) ≡ true
    → without_lf (x == 13) xs ≡ without_lf true xs
skip x y xs e = rw (and_left (x == 13) (y == 10) e) refl

erase-from :
    (rounds x : ℕ) (xs : List ℕ)
    → suc (length xs) ≤ rounds
    → erase_newlines rounds (x ∷ xs) ≡ x ∷ without_lf (x == 13) xs
unfolding erase_newlines
erase-from zero x xs h = absurd (omega arith)
erase-from (suc rounds) x [] h = refl
erase-from (suc rounds) x (y ∷ xs) h = elim (Bool-cases (x == 13 && y == 10)) [
  | inl e ↦ rw e (erase-from rounds x xs (omega arith) ∙ ap (λ r. x ∷ r) (skip x y xs e))
  | inr e ↦ rw e (ap (λ r. x ∷ r) (erase-from rounds y xs (omega arith)))
]

-- The loop that is to turn \r\n into \n ends, with as many rounds as the request has bytes, and takes
-- the \n away instead: what is left is the request without the \n behind each \r.
pub erase_newlines_lem :
    (request : List ℕ) → erase_newlines (length request) request ≡ without_lf false request
unfolding erase_newlines
erase_newlines_lem [] = refl
erase_newlines_lem (x ∷ xs) = erase-from (suc (length xs)) x xs (omega arith)
