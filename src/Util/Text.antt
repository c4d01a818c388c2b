-- ===== src/Util/Text.antt =====
-- trim, strstate and hex of util.c. A text is the list of its characters without the NUL.
pub mod Trimmed
pub mod Hex
use violet.Base.{
  ℕ, ◌/◌, ◌%◌, Bool, ◌&&◌, ◌||◌, List, [], ◌∷◌, leb, ◌==◌, if◌then◌else◌, get_or, codes,
}

-- isspace in the locale "C".
abbrev pub is_space : ℕ → Bool
is_space c = c == 32 || leb 9 c && leb c 13

unfoldable pub skip_spaces : List ℕ → List ℕ
skip_spaces [] = []
skip_spaces (c ∷ str) = let rest = skip_spaces str in if is_space c then rest else c ∷ str

-- The loop from the end, which stops at the text's first character at the latest.
abbrev pub kept : ℕ → List ℕ → List ℕ
kept c [] = if is_space c then [] else c ∷ []
kept c (d ∷ rest) = c ∷ d ∷ rest

unfoldable pub cut_spaces : List ℕ → List ℕ
cut_spaces [] = []
cut_spaces (c ∷ str) = kept c (cut_spaces str)

abbrev pub cut_end : List ℕ → List ℕ
cut_end [] = []
cut_end (c ∷ str) = c ∷ cut_spaces str

unfoldable pub trim : List ℕ → List ℕ
unfolding skip_spaces cut_spaces
trim str = cut_end (skip_spaces str)

-- The states by their numbers in netinet/tcp.h.
unfoldable pub strstate : ℕ → List ℕ
strstate state =
    if state == 1
    then codes "ESTABLISHED"
    else if state == 2
    then codes "SYN_SENT"
    else if state == 3
    then codes "SYN_RECV"
    else if state == 4
    then codes "FIN_WAIT1"
    else if state == 5
    then codes "FIN_WAIT2"
    else if state == 6
    then codes "TIME_WAIT"
    else if state == 7
    then codes "CLOSE"
    else if state == 8
    then codes "CLOSE_WAIT"
    else if state == 9
    then codes "LAST_ACK"
    else if state == 10
    then codes "LISTEN"
    else if state == 11
    then codes "CLOSING"
    else codes "UNKNOWN"

abbrev pub hex_str : List ℕ
hex_str = codes "0123456789ABCDEF"

unfoldable pub hex : List ℕ → List ℕ
hex [] = []
hex (b ∷ bytes) = get_or hex_str (b / 16 % 16) 0 ∷ get_or hex_str (b % 16) 0 ∷ 32 ∷ hex bytes
