-- ===== src/Stream/Sides.antt =====
-- `StreamState` of src/stream.rs against a pair of flags, one for each side.
use async_udx.Prelude.{Bool, true, false, ◌≡◌, refl, sym, ◌∙◌, ◌||◌}
use async_udx.Stream.State.{
  StreamState, opened, local_only, remote_only, both_closed, close_local, close_remote,
  local_closed, remote_closed, closed,
}

of_flags : Bool → Bool → StreamState
of_flags false false = opened
of_flags true false = local_only
of_flags false true = remote_only
of_flags true true = both_closed

of_flags_lem : (s : StreamState) → of_flags (local_closed s) (remote_closed s) ≡ s
unfolding of_flags local_closed remote_closed
of_flags_lem opened = refl
of_flags_lem local_only = refl
of_flags_lem remote_only = refl
of_flags_lem both_closed = refl

closing :
    (s : StreamState)
    → (local_closed (close_local s) ≡ true)
      × (remote_closed (close_local s) ≡ remote_closed s)
      × (remote_closed (close_remote s) ≡ true)
      × (local_closed (close_remote s) ≡ local_closed s)
      × (close_local (close_remote s) ≡ close_remote (close_local s))
unfolding close_local close_remote local_closed remote_closed
closing opened = (refl, refl, refl, refl, refl)
closing local_only = (refl, refl, refl, refl, refl)
closing remote_only = (refl, refl, refl, refl, refl)
closing both_closed = (refl, refl, refl, refl, refl)

-- Every state is known by its two flags. Closing a side sets its flag and keeps the other, whatever the
-- state was, and the order of two closes does not matter. `closed` tells whether either flag is set.
pub state_flags :
    (s t : StreamState)
    → ((local_closed s ≡ local_closed t) → (remote_closed s ≡ remote_closed t) → s ≡ t)
      × (local_closed (close_local s) ≡ true)
      × (remote_closed (close_local s) ≡ remote_closed s)
      × (remote_closed (close_remote s) ≡ true)
      × (local_closed (close_remote s) ≡ local_closed s)
      × (close_local (close_remote s) ≡ close_remote (close_local s))
      × (closed s ≡ (local_closed s || remote_closed s))
unfolding closed
state_flags s t = let c = closing s in (known, c.0, c.1, c.2, c.3, c.4, refl)
  where
    known : local_closed s ≡ local_closed t → remote_closed s ≡ remote_closed t → s ≡ t
    known e f = sym (of_flags_lem s) ∙ ((λ i. of_flags (e i) (f i)) ∙ of_flags_lem t)
