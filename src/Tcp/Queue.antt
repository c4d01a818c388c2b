-- ===== src/Tcp/Queue.antt =====
-- queue_tcp of tcp.c: a received segment goes into the forward queue, at its place by sequence
-- number. The copies that malloc and memcpy make are values here.
pub mod Map
use violet.Base.{
  ℕ, ◌+◌, ◌-◌, ◌<◌, Bool, true, false, List, [], ◌∷◌, u32, sub32, ltb, leb, ◌==◌, if◌then◌else◌,
}
use violet.Util.Serial.{Cmp, less, same, greater, compare_u32}
use violet.Tcp.Types.{Segment, TcpSession}

abbrev pub segment : ℕ → ℕ → Bool → List ℕ → Segment
segment seq len psh bytes = record { seq = seq; len = len; sent = 0; psh = psh; bytes = bytes }

-- `segment already queued`, `segment smaller` and `segment larger`.
abbrev pub merge : Segment → ℕ → List ℕ → Segment
merge s datalen bytes = if ltb s.len datalen then record s { len = datalen; bytes = bytes } else s

abbrev pub is_less : Cmp → Bool
is_less less = true
is_less _ = false

-- What is done at a segment of the queue, by the order of its number and the new one; `walk` is
-- what the walk over the rest makes of it.
abbrev pub place :
    Cmp → ℕ → ℕ → Bool → List ℕ → Segment → List Segment → List Segment → List Segment
place less seq datalen psh bytes s rest walk = s ∷ walk
place same seq datalen psh bytes s rest walk = merge s datalen bytes ∷ rest
place greater seq datalen psh bytes s rest walk = segment seq datalen psh bytes ∷ s ∷ rest

unfoldable pub insert : ℕ → ℕ → Bool → List ℕ → List Segment → List Segment
insert seq datalen psh bytes [] = segment seq datalen psh bytes ∷ []
insert seq datalen psh bytes (s ∷ rest) =
    place (compare_u32 s.seq seq) seq datalen psh bytes s rest (insert seq datalen psh bytes rest)

unfoldable pub queue_tcp : ℕ → ℕ → Bool → List ℕ → TcpSession → TcpSession
unfolding insert
queue_tcp seq datalen psh bytes cur =
    if is_less (compare_u32 seq cur.remote_seq)
    then cur
    else record cur { forward = insert seq datalen psh bytes cur.forward }
