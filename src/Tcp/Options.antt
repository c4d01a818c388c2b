-- ===== src/Tcp/Options.antt =====
-- The loop of handle_tcp that decodes the options of a SYN.
pub mod Ends
pub mod Written
use violet.Base.{
  ℕ, zero, suc, ◌+◌, ◌-◌, Bool, ◌&&◌, Option, none, some, Memory, read_be16, ◌==◌, if◌then◌else◌,
}

pub record Decoded : Type 0 where
  pub mss : ℕ
  pub ws : ℕ

-- What one round makes of the option at `pos`.
abbrev pub read_option : Memory → ℕ → Decoded → Decoded
read_option p pos d =
    if p pos == 2 && p (pos + 1) == 4
    then record d { mss = read_be16 p (pos + 2) }
    else (if p pos == 3 && p (pos + 1) == 3 then record d { ws = p (pos + 2) } else d)

abbrev pub option_size : Memory → ℕ → ℕ
option_size p pos = if p pos == 1 then 1 else p (pos + 1)

-- `optlen` is an int that the loop compares with 0, so a difference below 0 counts as 0. `none`
-- means that the rounds ran out.
unfoldable pub decode_options : ℕ → Memory → ℕ → ℕ → Decoded → Option Decoded
decode_options rounds p pos zero d = some d
decode_options zero p pos (suc optlen) d = none
decode_options (suc rounds) p pos (suc optlen) d =
    let rest =
      decode_options rounds p (pos + option_size p pos) (suc optlen - option_size p pos)
        (read_option p pos d) in
    if p pos == 0 then some d else rest
