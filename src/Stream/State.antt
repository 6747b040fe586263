-- ===== src/Stream/State.antt =====
-- `StreamState` of src/stream.rs: which sides of a stream are closed.
use async_udx.Prelude.{Bool, true, false, ◌||◌}

pub data StreamState : Type 0 where
  opened local_only remote_only both_closed : StreamState

unfoldable pub close_local : StreamState → StreamState
close_local remote_only = both_closed
close_local both_closed = both_closed
close_local _ = local_only

unfoldable pub close_remote : StreamState → StreamState
close_remote local_only = both_closed
close_remote both_closed = both_closed
close_remote _ = remote_only

unfoldable pub local_closed : StreamState → Bool
local_closed local_only = true
local_closed both_closed = true
local_closed _ = false

unfoldable pub remote_closed : StreamState → Bool
remote_closed remote_only = true
remote_closed both_closed = true
remote_closed _ = false

unfoldable pub closed : StreamState → Bool
unfolding local_closed remote_closed
closed s = local_closed s || remote_closed s
