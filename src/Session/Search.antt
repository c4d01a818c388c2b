-- ===== src/Session/Search.antt =====
-- What the search through the list of sessions finds.
use violet.Base.{
  ℕ, ◌≡◌, refl, ap, subst, eq_of_some, inl, inr, Bool, true, false, Option, none, some, List, [],
  ◌∷◌, arith, length, length-append, All, Bool-cases,
}
use violet.Session.Types.{NgSession, Found, put_back, push_before, search_session, same_bytes}

pub same_bytes_refl : (xs : List ℕ) → same_bytes xs xs ≡ true
unfolding same_bytes
same_bytes_refl [] = refl
same_bytes_refl (x ∷ xs) = ground (arith, same_bytes_refl xs)

-- What a successful search says: the list is the part before, the session and the part behind, the
-- session passes the test, and none before it does.
abbrev pub IsFirst : (NgSession → Bool) → List NgSession → Found → Type 0
IsFirst test sessions f =
    (sessions ≡ put_back f f.session) × (test f.session ≡ true) × All (λ s. test s ≡ false) f.before

push-IsFirst :
    (test : NgSession → Bool) (s : NgSession) (rest : List NgSession) (r : Option Found) (f : Found)
    → test s ≡ false
    → ((g : Found) → r ≡ some g → IsFirst test rest g)
    → push_before s r ≡ some f
    → IsFirst test (s ∷ rest) f
push-IsFirst test s rest none f miss ih e = cc
push-IsFirst test s rest (some g) f miss ih e =
    let (split, hit, all) = ih g refl in
    subst (IsFirst test (s ∷ rest)) (eq_of_some e) (ap (λ l. s ∷ l) split, hit, (miss, all))

pub search_session-IsFirst :
    (test : NgSession → Bool) (sessions : List NgSession) (f : Found)
    → search_session test sessions ≡ some f
    → IsFirst test sessions f
unfolding search_session
search_session-IsFirst test [] f e = cc
search_session-IsFirst test (s ∷ rest) f e = elim (Bool-cases (test s)) [
  | inl hit ↦ subst (IsFirst test (s ∷ rest)) (eq_of_some (rw hit at e)) (refl, hit, tt)
  | inr miss ↦
      push-IsFirst test s rest (search_session test rest) f miss
        (λ g. search_session-IsFirst test rest g) (rw miss at e)
]

pub same_bytes-eq : (xs ys : List ℕ) → same_bytes xs ys ≡ true → xs ≡ ys
unfolding same_bytes
same_bytes-eq [] [] h = refl
same_bytes-eq [] (y ∷ ys) h = cc
same_bytes-eq (x ∷ xs) [] h = cc
same_bytes-eq (x ∷ xs) (y ∷ ys) h = ground (arith, same_bytes-eq xs ys)

-- Putting a session back in its place keeps the number of sessions.
pub length-put_back :
    (test : NgSession → Bool) (sessions : List NgSession) (f : Found) (s : NgSession)
    → search_session test sessions ≡ some f
    → length (put_back f s) ≡ length sessions
length-put_back test sessions f s e =
    let (split, hit, miss) = search_session-IsFirst test sessions f e in
    omega (
      arith,
      ap length split,
      length-append f.before (s ∷ f.behind),
      length-append f.before (f.session ∷ f.behind),
    )
