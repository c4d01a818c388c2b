-- ===== src/Dns/Name.antt =====
-- Bounds on what get_qname writes, and when its loop ends.
use violet.Base.{
  ℕ, zero, suc, ◌+◌, ◌-◌, ◌*◌, ◌%◌, ◌≤◌, ◌<◌, ◌≡◌, ◌≢◌, refl, Option, none, some, [], ◌∷◌, ◌++◌,
  arith, Memory, IsByte, length, length-take, bytes_at,
}
use violet.Dns.{
  Cursor, jump, copy_label, qname_loop, Qname, invalid, qname, finish, finish_loop, start,
  get_qname,
}

-- The cursor's name fills `noff` bytes of the buffer at most, and `noff` and `len` are bytes.
pub record IsCursor (s : Cursor) : Type 0 where
  pub name : length s.name ≤ s.noff
  pub noff : s.noff < 256
  pub len : s.len < 256

start-IsCursor : (p : Memory) (off : ℕ) → ((i : ℕ) → IsByte (p i)) → IsCursor (start p off)
start-IsCursor p off b = ground (arith, b off)

jump-IsCursor :
    (p : Memory) (s : Cursor) → ((i : ℕ) → IsByte (p i)) → IsCursor s → IsCursor (jump p s)
unfolding jump
jump-IsCursor p s b h = ground (arith, b (s.len % 64 * 256 + p (s.ptr + 1)))

copy_label-IsCursor :
    (p : Memory) (s : Cursor) → ((i : ℕ) → IsByte (p i)) → IsCursor s → IsCursor (copy_label p s)
unfolding copy_label
copy_label-IsCursor p s b h = record {
  name = omega (
    arith,
    length-take ((s.noff + (s.len + 1)) % 256)
        (s.name ++ (bytes_at s.len p (s.ptr + 1) ++ 46 ∷ [])),
  );
  noff = omega arith;
  len = b _;
}

loop-IsCursor :
    (rounds : ℕ) (p : Memory) (datalen : ℕ) (s s' : Cursor)
    → ((i : ℕ) → IsByte (p i))
    → IsCursor s
    → qname_loop rounds p datalen s ≡ some s'
    → IsCursor s'
unfolding qname_loop
loop-IsCursor zero p datalen s s' b h e = absurd (cc)
loop-IsCursor (suc rounds) p datalen s s' b h e = ground (
  arith,
  loop-IsCursor rounds p datalen (jump p s) s' b (jump-IsCursor p s b h),
  loop-IsCursor rounds p datalen (copy_label p s) s' b (copy_label-IsCursor p s b h),
)

-- A result that is a name fits the 256 bytes of the caller's buffer with its NUL.
abbrev pub Fits : Option Qname → Type 0
Fits none = Unit
Fits (some invalid) = Unit
Fits (some (qname off name)) = length name ≤ 254

finish-Fits : (s : Cursor) → IsCursor s → Fits (some (finish s))
finish-Fits s h = ground (arith, length-take (s.noff - 1) s.name)

finish_loop-Fits :
    (r : Option Cursor) → ((s : Cursor) → r ≡ some s → IsCursor s) → Fits (finish_loop r)
finish_loop-Fits none h = tt
finish_loop-Fits (some s) h = finish-Fits s (h s refl)

-- Whatever the bytes are, a name that get_qname returns has at most 254 bytes, so that the buffer of
-- DNS_QNAME_MAX + 1 bytes holds it with its NUL.
pub get_qname-Fits :
    (rounds : ℕ) (p : Memory) (datalen off : ℕ)
    → ((i : ℕ) → IsByte (p i))
    → Fits (get_qname rounds p datalen off)
unfolding get_qname
get_qname-Fits rounds p datalen off b =
    finish_loop-Fits (qname_loop rounds p datalen (start p off))
      (λ s e. loop-IsCursor rounds p datalen (start p off) s b (start-IsCursor p off b) e)

-- A compression pointer at `ptr` that points at itself.
abbrev pub SelfPointer : Memory → ℕ → Type 0
SelfPointer p at = (64 ≤ p at) × (p at % 64 * 256 + p (at + 1) ≡ at)

loop-stuck :
    (rounds : ℕ) (p : Memory) (datalen : ℕ) (s : Cursor)
    → SelfPointer p s.ptr
    → s.len ≡ p s.ptr
    → qname_loop rounds p datalen s ≡ none
unfolding qname_loop jump
loop-stuck zero p datalen s h l = refl
loop-stuck (suc rounds) p datalen s h l =
    let self : s.len % 64 * 256 + p (s.ptr + 1) ≡ s.ptr = ground arith in
    ground (arith, self, loop-stuck rounds p datalen (jump p s) (rw self h) refl)

-- get_qname follows compression pointers without a bound: on a name that begins with a pointer to
-- itself it does not return, whatever number of rounds it is given.
pub get_qname-stuck :
    (rounds : ℕ) (p : Memory) (datalen off : ℕ)
    → SelfPointer p off
    → get_qname rounds p datalen off ≡ none
unfolding get_qname
get_qname-stuck rounds p datalen off h = rw (loop-stuck rounds p datalen (start p off) h refl)

-- Without compression pointers the loop ends within as many rounds as there are bytes.
loop-ends :
    (rounds : ℕ) (p : Memory) (datalen : ℕ) (s : Cursor)
    → ((i : ℕ) → p i < 64)
    → datalen < 65536
    → s.len ≡ p s.ptr
    → datalen ≤ rounds + s.ptr
    → qname_loop (suc rounds) p datalen s ≢ none
unfolding qname_loop copy_label
loop-ends zero p datalen s b small l h = ground (arith, b s.ptr)
loop-ends (suc rounds) p datalen s b small l h =
    ground (arith, b s.ptr, loop-ends rounds p datalen (copy_label p s) b small refl)

finish_loop-some : (r : Option Cursor) → r ≢ none → finish_loop r ≢ none
finish_loop-some none h = absurd (h refl)
finish_loop-some (some s) h = ground arith

-- On a packet of less than 65536 bytes none of which is a compression pointer, get_qname returns, with
-- as many rounds as the packet has bytes and one more, and a name that it returns has at most 254
-- bytes.
pub get_qname-ends :
    (p : Memory) (datalen off : ℕ)
    → ((i : ℕ) → p i < 64)
    → datalen < 65536
    → (get_qname (suc datalen) p datalen off ≢ none) × Fits (get_qname (suc datalen) p datalen off)
unfolding get_qname
get_qname-ends p datalen off b small = (
  finish_loop-some (qname_loop (suc datalen) p datalen (start p off))
      (loop-ends datalen p datalen (start p off) b small refl (omega arith)),
  get_qname-Fits (suc datalen) p datalen off (λ i. omega (arith, b i)),
)
