-- ===== src/Bypass/Socket.antt =====
-- send_string and recv_string of socket.cpp.
pub mod Sent
pub mod Received
use violet.Base.{
  ℕ, zero, suc, ◌+◌, ◌-◌, Bool, true, false, List, [], ◌∷◌, ◌++◌, ◌==◌, ltb, leb, if◌then◌else◌,
  length, take, drop, min,
}

-- What one call of send does: it takes `n` of the bytes that it is given, or all if these are fewer;
-- or it fails with EINTR, or with another error.
pub data SendAnswer : Type 0 where
  takes : ℕ → SendAnswer
  send_interrupted send_broken : SendAnswer

-- What the function comes to; `waiting` when the answers that are given have run out.
pub data Status : Type 0 where
  finished broken waiting : Status

-- How many bytes a call asks for, of those that are left.
abbrev pub whole_rest : ℕ → ℕ
whole_rest left = left

-- The comparison stands where the number was meant: its value is 1.
abbrev pub split_rest : ℕ → ℕ → ℕ
split_rest split_position left =
    if ltb left split_position then (if ltb left split_position then 1 else 0) else split_position

abbrev pub after_piece : List ℕ → Status × List (List ℕ) → Status × List (List ℕ)
after_piece piece (status, pieces) = (status, piece ∷ pieces)

-- The loop, on what is left of the string: its status and the pieces that went out, in order.
unfoldable pub send_loop : (ℕ → ℕ) → List SendAnswer → List ℕ → Status × List (List ℕ)
send_loop size answers [] = (finished, [])
send_loop size [] (b ∷ bytes) = (waiting, [])
send_loop size (send_broken ∷ answers) (b ∷ bytes) = (broken, [])
send_loop size (send_interrupted ∷ answers) (b ∷ bytes) = send_loop size answers (b ∷ bytes)
send_loop size (takes n ∷ answers) (b ∷ bytes) =
    let taken = min n (size (length (b ∷ bytes))) in
    let rest = send_loop size answers (drop taken (b ∷ bytes)) in
    if taken == 0 then (broken, []) else after_piece (take taken (b ∷ bytes)) rest

-- `timeout_set` is whether setsockopt succeeds. An empty string is a success without any call.
unfoldable pub send_string :
    (timeout_set : Bool) → (ℕ → ℕ) → List SendAnswer → List ℕ → Status × List (List ℕ)
send_string timeout_set size answers [] = (finished, [])
send_string timeout_set size answers (b ∷ bytes) =
    if timeout_set then send_loop size answers (b ∷ bytes) else (broken, [])

-- What one call of recv does; no bytes are the end of the stream.
pub data RecvAnswer : Type 0 where
  gives : List ℕ → RecvAnswer
  would_block recv_interrupted recv_broken : RecvAnswer

-- std::string::resize and insert.
abbrev pub zeros : ℕ → List ℕ
zeros zero = []
zeros (suc n) = 0 ∷ zeros n

abbrev pub resize : List ℕ → ℕ → List ℕ
resize message n = take n message ++ zeros (n - length message)

abbrev pub insert : List ℕ → ℕ → List ℕ → List ℕ
insert message at bytes = take at message ++ (bytes ++ drop at message)

abbrev pub with_room : List ℕ → ℕ → List ℕ
with_room message size = if leb (length message) size then resize message (size + 1024) else message

-- The loop: the status and the message.
unfoldable pub recv_loop : List RecvAnswer → List ℕ → ℕ → Status × List ℕ
recv_loop [] message message_offset = (waiting, message)
recv_loop (would_block ∷ answers) message message_offset = (finished, resize message message_offset)
recv_loop (recv_interrupted ∷ answers) message message_offset =
    recv_loop answers message message_offset
recv_loop (recv_broken ∷ answers) message message_offset = (broken, message)
recv_loop (gives [] ∷ answers) message message_offset = (broken, message)
recv_loop (gives (b ∷ bytes) ∷ answers) message message_offset =
    let read_size = length (b ∷ bytes) in
    recv_loop answers
      (insert (with_room message (message_offset + read_size)) message_offset (b ∷ bytes))
      (message_offset + read_size)

unfoldable pub recv_string : (timeout_set : Bool) → List RecvAnswer → List ℕ → Status × List ℕ
recv_string timeout_set answers message =
    if timeout_set then recv_loop answers message 0 else (broken, message)
