-- ===== src/Util/Text/Trimmed.antt =====
-- What trim leaves.
use violet.Base.{ℕ, ◌≡◌, refl, ap, ◌∙◌, inl, inr, true, false, List, [], ◌∷◌, ◌++◌, Bool-cases, All}
use violet.Util.Text.{is_space, skip_spaces, kept, cut_spaces, cut_end, trim}

abbrev pub IsSpace : ℕ → Type 0
IsSpace c = is_space c ≡ true

abbrev pub IsSolid : ℕ → Type 0
IsSolid c = is_space c ≡ false

-- A text that is empty or ends with no space.
abbrev pub EndsSolid : List ℕ → Type 0
EndsSolid [] = Unit {0}
EndsSolid (c ∷ []) = IsSolid c
EndsSolid (c ∷ d ∷ rest) = EndsSolid (d ∷ rest)

abbrev pub StartsSolid : List ℕ → Type 0
StartsSolid [] = Unit {0}
StartsSolid (c ∷ rest) = IsSolid c

skip_spaces_split :
    (str : List ℕ)
    → (front : List ℕ) × (str ≡ front ++ skip_spaces str)
      × All IsSpace front
      × StartsSolid (skip_spaces str)
unfolding skip_spaces
skip_spaces_split [] = ([], refl, tt, tt)
skip_spaces_split (c ∷ str) = elim (Bool-cases (is_space c)) [
  | inr e ↦ ([], rw e refl, tt, rw e e)
  | inl e ↦
      let (front, same, spaces, solid) = skip_spaces_split str in
      (c ∷ front, rw e (ap (λ s. c ∷ s) same), (e, spaces), rw e solid)
]

-- What a character in front of a text that is cut becomes.
record Cut (str cut : List ℕ) : Type 0 where
  behind : List ℕ
  same : str ≡ cut ++ behind
  spaces : All IsSpace behind
  solid : EndsSolid cut

kept-Cut : (c : ℕ) (str cut : List ℕ) → Cut str cut → Cut (c ∷ str) (kept c cut)
kept-Cut c str (d ∷ rest) k = record {
  behind = k.behind;
  same = ap (λ s. c ∷ s) k.same;
  spaces = k.spaces;
  solid = k.solid;
}
kept-Cut c str [] k = elim (Bool-cases (is_space c)) [
  | inl e ↦ rw e record {
    behind = c ∷ k.behind;
    same = ap (λ s. c ∷ s) k.same;
    spaces = (e, k.spaces);
    solid = tt;
  }
  | inr e ↦
      rw e record { behind = k.behind; same = ap (λ s. c ∷ s) k.same; spaces = k.spaces; solid = e }
]

cut_spaces-Cut : (str : List ℕ) → Cut str (cut_spaces str)
unfolding cut_spaces
cut_spaces-Cut [] = record { behind = []; same = refl; spaces = tt; solid = tt }
cut_spaces-Cut (c ∷ str) = kept-Cut c str (cut_spaces str) (cut_spaces-Cut str)

in_front : (c : ℕ) (cut : List ℕ) → IsSolid c → EndsSolid cut → EndsSolid (c ∷ cut)
in_front c [] h k = h
in_front c (d ∷ rest) h k = k

cut_end-Cut : (str : List ℕ) → StartsSolid str → Cut str (cut_end str) × StartsSolid (cut_end str)
cut_end-Cut [] h = (record { behind = []; same = refl; spaces = tt; solid = tt }, tt)
cut_end-Cut (c ∷ str) h =
    let k = cut_spaces-Cut str in
    (
      record {
        behind = k.behind;
        same = ap (λ s. c ∷ s) k.same;
        spaces = k.spaces;
        solid = in_front c (cut_spaces str) h k.solid;
      },
      h,
    )

-- trim takes away spaces in front and behind and nothing else, and what it leaves neither starts nor
-- ends with one.
pub trim_lem :
    (str : List ℕ)
    → (front behind : List ℕ) × (str ≡ front ++ (trim str ++ behind))
      × All IsSpace front
      × All IsSpace behind
      × StartsSolid (trim str)
      × EndsSolid (trim str)
unfolding trim
trim_lem str =
    let (front, same, spaces, solid) = skip_spaces_split str in
    let (k, starts) = cut_end-Cut (skip_spaces str) solid in
    (front, k.behind, same ∙ ap (λ s. front ++ s) k.same, spaces, k.spaces, starts, k.solid)
