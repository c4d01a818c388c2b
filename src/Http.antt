-- ===== src/Http.antt =====
-- patch_http_url of http.c: the request line of a plain HTTP request gets the absolute URL that a
-- proxy wants. `p` is the memory that `data` points at; the search may look past its end.
pub mod Inserts
pub mod Header
use violet.Base.{
  ℕ, zero, suc, ◌+◌, ◌-◌, Bool, true, false, ◌&&◌, Option, none, some, List, [], ◌∷◌, ◌++◌, Memory,
  bytes_at, codes, ltb, leb, ◌==◌, if◌then◌else◌, length, sub64,
}

abbrev lower : ℕ → ℕ
lower c = if leb 65 c && leb c 90 then c + 32 else c

-- strncasecmp(value, p + i, strlen(value)) == 0, for a value without a NUL.
unfoldable pub starts_with : List ℕ → Memory → ℕ → Bool
starts_with [] p i = true
starts_with (v ∷ value) p i = lower v == lower (p i) && starts_with value p (i + 1)

-- The first character of a value; that of "" is its NUL.
abbrev first : List ℕ → ℕ
first [] = 0
first (v ∷ value) = v

-- The two loops of find_data, by the bytes that are left. `inside` is whether the inner one runs,
-- which ends at two bytes with a last comparison. A position is an offset from `p`.
unfoldable pub find_loop : List ℕ → Memory → ℕ → ℕ → Bool → Option ℕ
find_loop value p zero pos inside = if inside && starts_with value p pos then some pos else none
find_loop value p (suc n) pos inside =
    let next = find_loop value p n (pos + 1) in
    if leb 2 n
    then (if p pos == first value
        then (if starts_with value p pos then some pos else next false)
        else next true)
    else (if inside && starts_with value p pos then some pos else none)

unfoldable pub find_data : Memory → ℕ → List ℕ → Option ℕ
unfolding find_loop
find_data p data_len value = find_loop value p data_len 0 false

-- `while (*host != '\r' && length < 511)`, by the characters that there is room for.
unfoldable pub host_name : ℕ → Memory → ℕ → List ℕ
host_name zero p i = []
host_name (suc n) p i = let rest = host_name n p (i + 1) in if p i == 13 then [] else p i ∷ rest

-- The request methods, in the order of the code.
abbrev pub methods : List (List ℕ)
methods =
    codes "GET "
    ∷ codes "POST "
    ∷ codes "PUT "
    ∷ codes "DELETE "
    ∷ codes "HEAD "
    ∷ codes "OPTIONS "
    ∷ codes "PATCH "
    ∷ codes "HEAD "
    ∷ codes "TRACE "
    ∷ codes "PROPFIND "
    ∷ codes "PROPPATCH "
    ∷ codes "MKCOL "
    ∷ codes "COPY "
    ∷ codes "MOVE "
    ∷ codes "LOCK "
    ∷ codes "UNLOCK "
    ∷ codes "LINK "
    ∷ codes "UNLINK "
    ∷ []

abbrev first_of : Option ℕ → ℕ → Option ℕ → Option ℕ
first_of none n rest = rest
first_of (some pos) n rest = some (pos + n)

-- `pos1`: the offset behind the first method in the list that is found anywhere.
unfoldable pub find_word : Memory → ℕ → List (List ℕ) → Option ℕ
unfolding find_data
find_word p data_len [] = none
find_word p data_len (word ∷ words) =
    first_of (find_data p data_len word) (length word) (find_word p data_len words)

abbrev pub already_patched : Memory → ℕ → Bool
already_patched p at =
    p at == 104
    && (p (at + 1) == 116 && (p (at + 2) == 116 && (p (at + 3) == 112 && p (at + 4) == 58)))

abbrev pub patch_at : Memory → ℕ → List ℕ → Option ℕ → Option (List ℕ)
patch_at p data_len host none = none
patch_at p data_len host (some at) =
    if already_patched p at
    then none
    else some (bytes_at at p 0 ++ (codes "http://" ++ (host ++ bytes_at (sub64 data_len at) p at)))

abbrev pub patch_host : Memory → ℕ → Option ℕ → Option (List ℕ)
patch_host p data_len none = none
patch_host p data_len (some host) =
    patch_at p data_len (host_name 511 p (host + 6)) (find_word p data_len methods)

-- `none` is the null pointer: nothing is patched.
unfoldable pub patch_http_url : Memory → ℕ → Option (List ℕ)
unfolding find_word host_name find_data
patch_http_url p data_len = patch_host p data_len (find_data p data_len (codes "Host: "))
