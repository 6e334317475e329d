-- ===== src/Channel/Setters.antt =====
-- The fields of a channel of mtnet/Channel.h that others write: the owner its callbacks, the poller
-- the events that happened and the index.
use mtnet.Prelude.{ℕ, not, some, Result, guard, assertion}
use mtnet.Prelude.Int.{ℤ}
use mtnet.Channel.{Channel}

unfoldable pub set_read_callback : ℕ → Channel → Channel
set_read_callback cb c = record c { read_callback = some cb }

unfoldable pub set_write_callback : ℕ → Channel → Channel
set_write_callback cb c = record c { write_callback = some cb }

unfoldable pub set_error_callback : ℕ → Channel → Channel
set_error_callback cb c = record c { error_callback = some cb }

unfoldable pub set_close_callback : ℕ → Channel → Channel
set_close_callback cb c = record c { close_callback = some cb }

unfoldable pub set_revents : ℕ → Channel → Channel
set_revents revents c = record c { revents = revents }

unfoldable pub set_index : ℤ → Channel → Channel
set_index index c = record c { index = index }

-- The destructor's assertion.
unfoldable pub destroy : Channel → Result (Unit {0})
destroy c = guard (not c.event_handling) assertion
