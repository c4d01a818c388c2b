-- ===== src/Tcp/Socket/Forward.antt =====
-- What the forwarding loop takes off the queue, and what it does when send fails.
use violet.Base.{
  ℕ, ◌+◌, ◌-◌, ◌≤◌, ◌<◌, ◌≡◌, refl, inl, inr, Bool, true, false, not, List, [], ◌∷◌, arith, All,
  sub64, u32, u64, ltb, Bool-cases,
}
use violet.Tcp.Types.{TcpSession, Segment}
use violet.Tcp.Check.{can_forward}
use violet.Tcp.Socket.{
  SocketIo, SendResult, accepted, send_failed, clip, Forwarding, after_send, goes_on, advance,
  is_done, take_off, forward_loop, outgoing, Wire,
}

-- A segment has at most 65535 bytes, and no more has been sent than it has.
abbrev pub IsSegment : Segment → Type 0
IsSegment s = (s.sent ≤ s.len) × (s.len < 65536)

-- The bytes of the queue that have not been sent.
unfoldable pub remaining : List Segment → ℕ
remaining [] = 0
remaining (s ∷ rest) = s.len - s.sent + remaining rest

-- `n` bytes have been taken off the front of a queue: whole segments, and then a part of the next, of
-- which more is marked as sent. All segments behind are in their places.
pub data Skipped : ℕ → List Segment → List Segment → Type 0 where
  nothing : {queue : List Segment} → Skipped 0 queue queue
  part :
      {s : Segment} {rest : List Segment} {n : ℕ} (sent : ℕ)
      → sent ≡ s.sent + n
      → sent ≤ s.len
      → Skipped n (s ∷ rest) (record s { sent = sent } ∷ rest)
  whole :
      {s : Segment} {rest queue : List Segment} {n m : ℕ}
      → n ≡ s.len - s.sent
      → Skipped m rest queue
      → Skipped (n + m) (s ∷ rest) queue

-- The session after `n` bytes of its queue were taken.
pub record Took (n : ℕ) (cur cur' : TcpSession) : Type 0 where
  pub remaining : remaining cur.forward ≡ n + remaining cur'.forward
  pub remote_seq : cur'.remote_seq ≡ u32 (cur.remote_seq + n)
  pub sent : cur'.sent ≡ u64 (cur.sent + n)
  pub local_seq : cur'.local_seq ≡ cur.local_seq
  pub state : cur'.state ≡ cur.state
  pub queue : All IsSegment cur'.forward

-- Whatever send answers, what the code goes on with is a count that the segment has left.
clip_lem :
    (len : ℕ) (r : SendResult) → len < 65536 → (n : ℕ) × (clip len r ≡ accepted n) × (n ≤ len)
unfolding clip
clip_lem len (accepted n) h = elim (Bool-cases (ltb len n)) [
  | inl e ↦ (len, ground arith, omega arith)
  | inr e ↦ (n, ground arith, ground arith)
]
clip_lem len (send_failed retry) h = (len, ground arith, omega arith)

Took-zero :
    (cur : TcpSession)
    → All IsSegment cur.forward
    → cur.remote_seq < 4294967296
    → cur.sent < 18446744073709551616
    → Took 0 cur cur
Took-zero cur h r t = record {
  remaining = omega arith;
  remote_seq = omega arith;
  sent = omega arith;
  local_seq = refl;
  state = refl;
  queue = h;
}

Took-add : (n m : ℕ) (a b c : TcpSession) → Took n a b → Took m b c → Took (n + m) a c
Took-add n m a b c h k = record {
  remaining = omega (arith, h.remaining, k.remaining);
  remote_seq = omega (arith, h.remote_seq, k.remote_seq);
  sent = omega (arith, h.sent, k.sent);
  local_seq = cc (h.local_seq, k.local_seq);
  state = cc (h.state, k.state);
  queue = k.queue;
}

-- One send that takes `n` bytes of the first segment.
send-Took :
    (io : SocketIo) (s : Segment) (rest : List Segment) (f : Forwarding) (wire : Wire) (n : ℕ)
    → f.cur.forward ≡ s ∷ rest
    → All IsSegment (s ∷ rest)
    → can_forward f.cur.remote_seq f.room (s ∷ rest) ≡ true
    → n ≤ s.len - s.sent
    → Took n f.cur (after_send io s rest f wire (accepted n)).cur
unfolding remaining
send-Took io s rest f wire n q (h, hs) can le = rw q (record {
  remaining = ground arith;
  remote_seq = ground arith;
  sent = refl;
  local_seq = refl;
  state = refl;
  queue = ground arith;
})

part-Skipped :
    (s : Segment) (rest : List Segment) (n : ℕ)
    → IsSegment s
    → n ≤ s.len - s.sent
    → is_done (advance s n) ≡ false
    → Skipped n (s ∷ rest) (take_off (advance s n) rest)
part-Skipped s rest n h le partial =
    rw partial (part (advance s n).sent (omega (arith, h.0, h.1)) (omega (arith, h.0, h.1)))

-- The chunk, the wire and the result of the send for the head of a queue.
abbrev chunk : SocketIo → Segment → Forwarding → List ℕ
chunk io s f = outgoing io.behind f.cur.dest s

abbrev answer : SocketIo → Segment → Forwarding → SendResult
answer io s f = clip (sub64 s.len s.sent) (io.send f.wire (chunk io s f) (not s.psh))

abbrev sent_on : SocketIo → Segment → List Segment → Forwarding → SendResult → Forwarding
sent_on io s rest f r = after_send io s rest f ((chunk io s f, not s.psh) ∷ f.wire) r

-- The three ways through a round.
loop-empty : (io : SocketIo) (f : Forwarding) → forward_loop io [] f ≡ f
unfolding forward_loop
loop-empty io f = refl

loop_stops :
    (io : SocketIo) (s : Segment) (rest : List Segment) (f : Forwarding)
    → can_forward f.cur.remote_seq f.room (s ∷ rest) ≡ false
    → forward_loop io (s ∷ rest) f ≡ f
unfolding forward_loop
loop_stops io s rest f stop = rw stop refl

loop_partial :
    (io : SocketIo) (s : Segment) (rest : List Segment) (f : Forwarding) (r : SendResult)
    → can_forward f.cur.remote_seq f.room (s ∷ rest) ≡ true
    → answer io s f ≡ r
    → goes_on s r ≡ false
    → forward_loop io (s ∷ rest) f ≡ sent_on io s rest f r
unfolding forward_loop
loop_partial io s rest f r can e partial = rw (can, e, partial) refl

loop_goes_on :
    (io : SocketIo) (s : Segment) (rest : List Segment) (f : Forwarding) (r : SendResult)
    → can_forward f.cur.remote_seq f.room (s ∷ rest) ≡ true
    → answer io s f ≡ r
    → goes_on s r ≡ true
    → forward_loop io (s ∷ rest) f ≡ forward_loop io rest (sent_on io s rest f r)
unfolding forward_loop
loop_goes_on io s rest f r can e done = rw (can, e, done) refl

-- For a queue of segments with at most 65535 bytes each, none sent further than its end, and counters
-- of 32 and 64 bits: whatever send answers, the forwarding loop takes some number of bytes off the
-- front of the queue, whole segments and then a part of the next, and leaves the segments behind as they
-- are. It moves the next number to acknowledge and the count of bytes sent by just as many, and changes
-- neither the state nor the number of the next byte to the device. The segments that are left are
-- well-formed.
pub forward_loop-Took :
    (io : SocketIo) (queue : List Segment) (f : Forwarding)
    → f.cur.forward ≡ queue
    → All IsSegment queue
    → f.cur.remote_seq < 4294967296
    → f.cur.sent < 18446744073709551616
    → (n : ℕ) × Took n f.cur (forward_loop io queue f).cur
      × Skipped n queue (forward_loop io queue f).cur.forward
forward_loop-Took io [] f q h r t =
    rw (loop-empty io f) (0, Took-zero f.cur (rw q h) r t, rw q nothing)
forward_loop-Took io (s ∷ rest) f q h r t =
    let left : sub64 s.len s.sent ≡ s.len - s.sent = omega (arith, h.0) in
    let (n, e, le) =
      clip_lem (sub64 s.len s.sent) (io.send f.wire (chunk io s f) (not s.psh))
        (omega (arith, h.0)) in
    let f' = sent_on io s rest f (accepted n) in
    elim (Bool-cases (can_forward f.cur.remote_seq f.room (s ∷ rest))) [
      | inr stop ↦ rw (loop_stops io s rest f stop) (0, Took-zero f.cur (rw q h) r t, rw q nothing)
      | inl can ↦
          let one =
            send-Took io s rest f ((chunk io s f, not s.psh) ∷ f.wire) n q h can (omega arith) in
          elim (Bool-cases (goes_on s (accepted n))) [
            | inr partial ↦
                rw (loop_partial io s rest f (accepted n) can e partial)
                  (n, one, part-Skipped s rest n h.0 (omega (arith, left)) partial)
            | inl done ↦
                let (m, more_taken, skipped) =
                  forward_loop-Took io rest f' (ground arith) h.1 (omega arith) (omega arith) in
                rw (loop_goes_on io s rest f (accepted n) can e done)
                  (n + m, Took-add n m f.cur f'.cur _ one more_taken, whole (ground arith) skipped)
          ]
    ]

-- When every send fails, with any errno, the loop takes the head of the queue off all the same: a
-- queue of one segment that can be forwarded is emptied, its bytes count as sent, and the next number
-- to acknowledge moves behind them, although the socket has taken none of them.
pub forward_loop-failed :
    (io : SocketIo) (s : Segment) (f : Forwarding) (retry : Bool)
    → ((wire : Wire) (data_ : List ℕ) (more : Bool) → io.send wire data_ more ≡ send_failed retry)
    → IsSegment s
    → can_forward f.cur.remote_seq f.room (s ∷ []) ≡ true
    → let f' = forward_loop io (s ∷ []) f in
      (f'.cur.forward ≡ [])
      × (f'.fwd ≡ true)
      × (f'.cur.remote_seq ≡ u32 (s.seq + s.len))
      × (f'.cur.sent ≡ u64 (f.cur.sent + (s.len - s.sent)))
unfolding forward_loop clip
forward_loop-failed io s f retry fails h can =
    rw (can, fails f.wire (outgoing io.behind f.cur.dest s) (not s.psh)) (ground arith)
