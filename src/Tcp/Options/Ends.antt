-- ===== src/Tcp/Options/Ends.antt =====
-- When the option loop ends, and when it does not.
use native.Mathlib.Nat.{add-zero, sub-zero}
use violet.Base.{
  ℕ, zero, suc, ◌+◌, ◌-◌, ◌≤◌, ◌<◌, ◌≡◌, refl, arith, none, some, Memory, ◌==◌, Bool-cases, inl,
  inr, false,
}
use violet.Tcp.Options.{Decoded, decode_options, option_size, read_option}

-- While bytes of the options are left, one of length 0 other than padding and the end mark keeps the
-- loop where it is: it does not end, whatever number of rounds it is given.
pub decode_options-stuck :
    (p : Memory) (pos optlen rounds : ℕ) (d : Decoded)
    → 0 < optlen
    → 1 < p pos
    → p (pos + 1) ≡ 0
    → decode_options rounds p pos optlen d ≡ none
unfolding decode_options
decode_options-stuck p pos zero rounds d h kind len = absurd (omega arith)
decode_options-stuck p pos (suc optlen) zero d h kind len = refl
decode_options-stuck p pos (suc optlen) (suc rounds) d h kind len =
    let nonzero : (p pos == 0) ≡ false = ground arith in
    let still : option_size p pos ≡ 0 = ground arith in
    rw (nonzero, still, add-zero, sub-zero)
      (decode_options-stuck p pos (suc optlen) rounds (read_option p pos d) h kind len)

-- With no option of length 0 in reach the loop ends within as many rounds as there are bytes.
pub decode_options-ends :
    (p : Memory) (pos optlen rounds : ℕ) (d : Decoded)
    → ((i : ℕ) → 1 < p i → 0 < p (i + 1))
    → optlen ≤ rounds
    → (r : Decoded) × (decode_options rounds p pos optlen d ≡ some r)
unfolding decode_options
decode_options-ends p pos zero rounds d ok h = (d, refl)
decode_options-ends p pos (suc optlen) zero d ok h = absurd (omega arith)
decode_options-ends p pos (suc optlen) (suc rounds) d ok h = elim (Bool-cases (p pos == 0)) [
  | inl e ↦ rw e (d, refl)
  | inr e ↦
      let forward : 0 < option_size p pos = ground (arith, ok pos) in
      rw e (
        decode_options-ends p (pos + option_size p pos) (suc optlen - option_size p pos) rounds
          (read_option p pos d) ok (omega arith))
]
