-- ===== src/Http/Inserts.antt =====
-- What patch_http_url puts into a request.
use mathlib.Core.List.{Mem, mem-cons_self, mem-cons_of_mem}
use violet.Base.{
  ℕ, zero, suc, ◌+◌, ◌≤◌, ◌≡◌, ◌≢◌, refl, ap, sym, Bool, true, false, Option, none, some, List,
  ◌++◌, ◌∷◌, [], arith, ◌⊎◌, ◌==◌, Option-cases, Memory, bytes_at, codes, length, All, sub64,
  Bool-cases, inl, inr, eq_of_some,
}
use violet.Http.{
  starts_with, find_loop, host_name, find_word, find_data, methods, already_patched, patch_at,
  patch_host, patch_http_url,
}

-- `host` is what follows a "Host: " header, up to the carriage return or 511 bytes.
pub record IsHost (p : Memory) (host : List ℕ) : Type 0 where
  pub header : ℕ
  pub found : starts_with (codes "Host: ") p header ≡ true
  pub bytes : host ≡ bytes_at (length host) p (header + 6)
  pub one_line : All (λ b. b ≢ 13) host
  pub end : ((length host ≤ 511) × (p (header + 6 + length host) ≡ 13)) ⊎ (length host ≡ 511)

-- `at` is just behind one of the words, which matches there without regard to case.
pub record BehindWord (words : List (List ℕ)) (p : Memory) (at : ℕ) : Type 0 where
  pub pos : ℕ
  pub word : List ℕ
  pub is_listed : Mem word words
  pub found : starts_with word p pos ≡ true
  pub behind : at ≡ pos + length word

-- `new` is the data with the scheme and the host name put in at `at`.
pub record Inserted (p : Memory) (data_len : ℕ) (new : List ℕ) : Type 0 where
  pub at : ℕ
  pub host : List ℕ
  pub behind_method : BehindWord methods p at
  pub is_host : IsHost p host
  pub fresh : already_patched p at ≡ false
  pub data_ :
      new ≡ bytes_at at p 0 ++ (codes "http://" ++ (host ++ bytes_at (sub64 data_len at) p at))

host_name_lem :
    (n : ℕ) (p : Memory) (i : ℕ)
    → let host = host_name n p i in
      (host ≡ bytes_at (length host) p i)
      × All (λ b. b ≢ 13) host
      × (((length host ≤ n) × (p (i + length host) ≡ 13)) ⊎ (length host ≡ n))
unfolding host_name bytes_at
host_name_lem zero p i = (refl, tt, inr refl)
host_name_lem (suc n) p i =
    let (bytes, line, end) = host_name_lem n p (i + 1) in
    elim (Bool-cases (p i == 13)) [
      | inl e ↦ rw e (refl, tt, inl (omega arith, ground arith))
      | inr e ↦ rw e (
        ap (λ r. p i ∷ r) bytes,
        (ground arith, line),
        elim end [
          | inl (short, stop) ↦ inl (omega (arith, short), ground (arith, stop))
          | inr full ↦ inr (omega (arith, full))
        ],
      )
    ]

find_loop-starts_with :
    (value : List ℕ) (p : Memory) (n pos : ℕ) (inside : Bool) (r : ℕ)
    → find_loop value p n pos inside ≡ some r
    → starts_with value p r ≡ true
unfolding find_loop
find_loop-starts_with value p zero pos inside r e = ground arith
find_loop-starts_with value p (suc n) pos inside r e = ground (
  arith,
  find_loop-starts_with value p n (pos + 1) true r,
  find_loop-starts_with value p n (pos + 1) false r,
)

find_word-BehindWord :
    (p : Memory) (data_len at : ℕ) (words : List (List ℕ))
    → find_word p data_len words ≡ some at
    → BehindWord words p at
unfolding find_word find_data
find_word-BehindWord p data_len at [] e = cc
find_word-BehindWord p data_len at (word ∷ words) e =
    elim (Option-cases (find_data p data_len word)) [
      | inl miss ↦
          let rest = find_word-BehindWord p data_len at words (rw miss at e) in
          record {
            pos = rest.pos;
            word = rest.word;
            is_listed = mem-cons_of_mem word rest.is_listed;
            found = rest.found;
            behind = rest.behind;
          }
      | inr (pos, hit) ↦ record {
        pos = pos;
        word = word;
        is_listed = mem-cons_self;
        found = find_loop-starts_with word p data_len 0 false pos hit;
        behind = sym (eq_of_some (rw hit at e));
      }
    ]

patch_at-Inserted :
    (p : Memory) (data_len : ℕ) (host : List ℕ) (word : Option ℕ) (new : List ℕ)
    → IsHost p host
    → ((at : ℕ) → word ≡ some at → BehindWord methods p at)
    → patch_at p data_len host word ≡ some new
    → Inserted p data_len new
patch_at-Inserted p data_len host none new h behind e = cc
patch_at-Inserted p data_len host (some at) new h behind e =
    elim (Bool-cases (already_patched p at)) [
      | inl old ↦ let e' = rw old at e in cc
      | inr fresh ↦ record {
        at = at;
        host = host;
        behind_method = behind at refl;
        is_host = h;
        fresh = fresh;
        data_ = sym (eq_of_some (rw fresh at e));
      }
    ]

name-IsHost :
    (p : Memory) (header : ℕ)
    → starts_with (codes "Host: ") p header ≡ true
    → IsHost p (host_name 511 p (header + 6))
name-IsHost p header found =
    let (bytes, line, end) = host_name_lem 511 p (header + 6) in
    record { header = header; found = found; bytes = bytes; one_line = line; end = end }

patch_host-Inserted :
    (p : Memory) (data_len : ℕ) (header : Option ℕ) (new : List ℕ)
    → ((pos : ℕ) → header ≡ some pos → starts_with (codes "Host: ") p pos ≡ true)
    → patch_host p data_len header ≡ some new
    → Inserted p data_len new
patch_host-Inserted p data_len none new found e = cc
patch_host-Inserted p data_len (some pos) new found e =
    patch_at-Inserted p data_len (host_name 511 p (pos + 6)) (find_word p data_len methods) new
      (name-IsHost p pos (found pos refl)) (λ at. find_word-BehindWord p data_len at methods) e

-- Whatever the bytes are, a patched request is the request with "http://" and a host name put in at
-- one place, just behind a request method of the list, where no "http:" stands yet. The name is what
-- follows a "Host: " in the data or behind it, up to the carriage return or 511 bytes.
pub patch_http_url-Inserted :
    (p : Memory) (data_len : ℕ) (new : List ℕ)
    → patch_http_url p data_len ≡ some new
    → Inserted p data_len new
unfolding patch_http_url find_data
patch_http_url-Inserted p data_len new e =
    patch_host-Inserted p data_len (find_data p data_len (codes "Host: ")) new
      (find_loop-starts_with (codes "Host: ") p data_len 0 false) e
