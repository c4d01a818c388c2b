-- ===== src/Tls/Encode.antt =====
-- A client hello as bytes (RFC 8446 and RFC 6066), and what it means that memory holds bytes.
use violet.Base.{
  ℕ, suc, ◌+◌, ◌≤◌, ◌<◌, ◌≡◌, List, [], ◌∷◌, ◌++◌, arith, Memory, offset, be16, length, All,
}

pub record Extension : Type 0 where
  pub hi : ℕ
  pub lo : ℕ
  pub body : List ℕ

abbrev pub extension : Extension → List ℕ
extension e = e.hi ∷ e.lo ∷ be16 (length e.body) ++ e.body

abbrev pub extensions : List Extension → List ℕ
extensions [] = []
extensions (e ∷ es) = extension e ++ extensions es

-- The server name extension, with one host name.
abbrev pub server_name_body : List ℕ → List ℕ
server_name_body name = be16 (length name + 3) ++ (0 ∷ be16 (length name) ++ name)

abbrev pub server_name : List ℕ → List ℕ
server_name name = 0 ∷ 0 ∷ be16 (length name + 5) ++ server_name_body name

-- `fixed` is the length, the version and the random, 37 bytes; `behind` is what follows the server
-- name.
pub record Hello : Type 0 where
  pub minor : ℕ
  pub fixed : List ℕ
  pub session : List ℕ
  pub ciphers : List ℕ
  pub compression : List ℕ
  pub before : List Extension
  pub name : List ℕ
  pub behind : List ℕ

abbrev pub all_extensions : Hello → List ℕ
all_extensions h = extensions h.before ++ (server_name h.name ++ h.behind)

-- The bytes `p` holds from `i` on.
abbrev pub Holds : Memory → ℕ → List ℕ → Type 0
Holds p i [] = Unit {0}
Holds p i (b ∷ bs) = (p i ≡ b) × Holds p (i + 1) bs

pub Holds-append :
    (p : Memory) (i : ℕ) (xs ys : List ℕ)
    → Holds p i (xs ++ ys)
    → Holds p i xs × Holds p (i + length xs) ys
Holds-append p i [] ys h = let e : i + 0 ≡ i = omega arith in (tt, rw e h)
Holds-append p i (x ∷ xs) ys h =
    let e : i + suc (length xs) ≡ i + 1 + length xs = omega arith in
    let (a, b) = Holds-append p (i + 1) xs ys h.1 in ((h.0, a), rw e b)

pub Holds-offset :
    (p : Memory) (k i : ℕ) (xs : List ℕ) → Holds p (k + i) xs → Holds (offset p k) i xs
Holds-offset p k i [] h = tt
Holds-offset p k i (x ∷ xs) h =
    let e : k + (i + 1) ≡ k + i + 1 = omega arith in (h.0, Holds-offset p k (i + 1) xs (rw e h.1))

abbrev pub IsOther : Extension → Type 0
IsOther e = (0 < e.hi + e.lo) × (length e.body < 65536)

abbrev pub IsName : List ℕ → Type 0
IsName name = (0 < length name) × (length name ≤ 255) × All (λ b. 0 < b) name

abbrev pub compression_part : Hello → List ℕ
compression_part h =
    length h.compression ∷ h.compression ++ (be16 (length (all_extensions h)) ++ all_extensions h)

abbrev pub ciphers_part : Hello → List ℕ
ciphers_part h = be16 (length h.ciphers) ++ (h.ciphers ++ compression_part h)

abbrev pub session_part : Hello → List ℕ
session_part h = length h.session ∷ h.session ++ ciphers_part h

abbrev pub handshake : Hello → List ℕ
handshake h = 1 ∷ h.fixed ++ session_part h

-- The record with the handshake message.
abbrev pub client_hello : Hello → List ℕ
client_hello h = 0x16 ∷ 3 ∷ h.minor ∷ be16 (length (handshake h)) ++ handshake h

pub record IsHello (h : Hello) : Type 0 where
  pub fixed : length h.fixed ≡ 37
  pub session : length h.session < 256
  pub ciphers : length h.ciphers < 65536
  pub compression : length h.compression < 256
  pub before : All IsOther h.before
  pub name : IsName h.name
  pub size : length (handshake h) < 65536
