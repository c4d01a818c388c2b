-- ===== src/Util/Poll.antt =====
-- is_event, is_readable, is_writable and get_local_port of util.c, on what the system answers.
use violet.Base.{ℕ, ◌*◌, ◌/◌, ◌%◌, Bool, not, Option, none, some, ◌==◌}
use violet.Base.Int.{ℤ, pos, negsuc}

-- What poll does at once: it fails, it has nothing, or it gives the events of the descriptor as a bit
-- field, in which POLLERR and POLLHUP may stand unasked.
pub data PollAnswer : Type 0 where
  poll_failed : PollAnswer
  quiet : PollAnswer
  ready : (revents : ℕ) → PollAnswer

abbrev pub pollin : ℕ
pollin = 1

abbrev pub pollout : ℕ
pollout = 4

-- `revents & event` for an event of one bit.
unfoldable pub is_event : (event : ℕ) → PollAnswer → ℕ
is_event event poll_failed = 0
is_event event quiet = 0
is_event event (ready revents) = revents / event % 2 * event

unfoldable pub is_readable : PollAnswer → Bool
unfolding is_event
is_readable answer = not (is_event pollin answer == 0)

unfoldable pub is_writable : PollAnswer → Bool
unfolding is_event
is_writable answer = not (is_event pollout answer == 0)

-- `none` is a getsockname that fails.
unfoldable pub get_local_port : Option ℕ → ℤ
get_local_port none = negsuc 0
get_local_port (some port) = pos port
