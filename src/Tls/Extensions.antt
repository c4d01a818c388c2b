-- ===== src/Tls/Extensions.antt =====
-- The extension loops on the extensions of a client hello.
use mathlib.Core.List.{append_assoc}
use violet.Base.{
  ℕ, zero, suc, ◌+◌, ◌≤◌, ◌<◌, ◌≡◌, refl, ◌∙◌, subst, List, [], ◌∷◌, ◌++◌, arith, Memory, offset,
  read_be16, length, length-append, All, min,
}
use violet.Tls.{named, copy_string, server_name_loop, parse_server_name_extension, extensions_loop}
use violet.Tls.Encode.{
  Extension, extension, extensions, server_name_body, server_name, Holds, Holds-append,
  Holds-offset, IsOther, IsName,
}

copy_string_lem :
    (p : Memory) (i : ℕ) (name : List ℕ)
    → Holds p i name
    → All (λ b. 0 < b) name
    → copy_string (length name) p i ≡ name
unfolding copy_string
copy_string_lem p i [] h a = refl
copy_string_lem p i (b ∷ name) h a = ground (arith, copy_string_lem p (i + 1) name h.1 a.1)

server_name_lem :
    (p : Memory) (name : List ℕ)
    → Holds p 0 (server_name_body name)
    → 0 < length name
    → length name ≤ 255
    → All (λ b. 0 < b) name
    → parse_server_name_extension p (length name + 5) ≡ named name
unfolding parse_server_name_extension server_name_loop
server_name_lem p name h pos fit a =
    let len : read_be16 p 3 ≡ length name = omega arith in
    let kept : min (read_be16 p 3) 255 ≡ length name = omega arith in
    ground (arith, kept, copy_string_lem p 5 name h.1.1.1.1.1 a)

-- One extension that is no server name is passed over.
extension-skip :
    (p : Memory) (rounds n pos : ℕ) (e : Extension)
    → Holds p pos (extension e)
    → 0 < e.hi + e.lo
    → length e.body < 65536
    → pos + 4 ≤ n
    → extensions_loop (suc rounds) p n pos ≡ extensions_loop rounds p n (pos + (4 + length e.body))
unfolding extensions_loop
extension-skip p rounds n pos e h ne fit room =
    let len : read_be16 p (pos + 2) ≡ length e.body = ground arith in ground (arith, len)

module _ (p : Memory) (name behind : List ℕ) (ok : IsName name) where
  found_at :
      (rounds n pos : ℕ)
      → Holds p pos (server_name name ++ behind)
      → pos + 4 + (length name + 5) ≤ n
      → extensions_loop (suc rounds) p n pos ≡ named name
  unfolding extensions_loop
  found_at rounds n pos h room =
      let (here, rest) = Holds-append p pos (server_name name) behind h in
      let len : read_be16 p (pos + 2) ≡ length name + 5 = ground arith in
      let at : pos + 1 + 1 + 1 + 1 ≡ pos + 4 + 0 = omega arith in
      let body : Holds (offset p (pos + 4)) 0 (server_name_body name) =
        Holds-offset p (pos + 4) 0 (server_name_body name) (rw at at here.1.1.1.1) in
      ground (arith, len, server_name_lem (offset p (pos + 4)) name body ok.0 ok.1 ok.2)

  pub extensions_lem :
      (before : List Extension) (rounds n pos : ℕ)
      → Holds p pos (extensions before ++ (server_name name ++ behind))
      → All IsOther before
      → pos + length (extensions before ++ (server_name name ++ behind)) ≤ n
      → length (extensions before) ≤ rounds
      → extensions_loop (suc rounds) p n pos ≡ named name
  extensions_lem [] rounds n pos h all room fuel =
      found_at rounds n pos h (omega (arith, length-append (server_name name) behind))
  extensions_lem (e ∷ es) zero n pos h all room fuel = absurd (omega arith)
  extensions_lem (e ∷ es) (suc rounds) n pos h all room fuel =
      let rest = extensions es ++ (server_name name ++ behind) in
      let split = append_assoc (extension e) (extensions es) (server_name name ++ behind) in
      let (here, there) = Holds-append p pos (extension e) rest (subst (Holds p pos) split h) in
      let room' : pos + length (extension e ++ rest) ≤ n =
        subst (λ l. pos + length l ≤ n) split room in
      let l = length-append (extension e) rest in
      let l' = length-append (extension e) (extensions es) in
      let at : pos + length (extension e) ≡ pos + (4 + length e.body) = omega arith in
      extension-skip p (suc rounds) n pos e here all.0.0 all.0.1 (omega arith)
      ∙ extensions_lem es rounds n (pos + (4 + length e.body)) (rw at at there) all.1 (omega arith)
          (omega arith)
