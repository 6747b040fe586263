-- ===== src/Stream/Kept.antt =====
-- The rule for invariants of a stream of src/stream.rs, for what its driver and its writer keep.
use async_udx.Prelude.{ℕ, List, Bool, if-both}
use async_udx.Socket.Events.{EventIncoming}
use async_udx.Stream.Defs.{Stream, wake_driver}
use async_udx.Stream.Timeouts.{poll_check_timeouts, flush_waiting_packets}
use async_udx.Stream.Write.{queue_packet, send_data_packet, poll_write}
use async_udx.Stream.Drive.{Env, driver_poll}
use async_udx.Stream.Arriving.{View, Keeps, Rule, Keeps-Invariant}
use async_udx.Stream.Invariant.Calls.{poll_write_keeps}
use async_udx.Stream.Invariant.Driver.{
  poll_check_timeouts_keeps, flush_waiting_packets_keeps, driver_poll_keeps,
}

module _ (Q : View) (P : EventIncoming → Type 0) (rule : Rule Q P) where
  abbrev R : Stream → Type 0
  R = Keeps Q P

  pub poll_check_timeouts-Keeps :
      (fired : Bool) (now : ℕ) (s : Stream)
      → Keeps Q P s
      → Keeps Q P (poll_check_timeouts fired now s).0
  poll_check_timeouts-Keeps fired now s v =
      poll_check_timeouts_keeps R P (λ _. Unit) Unit (Keeps-Invariant Q P rule) fired now s
        (λ _. tt) v

  pub flush_waiting_packets-Keeps : (s : Stream) → Keeps Q P s → Keeps Q P (flush_waiting_packets s)
  flush_waiting_packets-Keeps s v =
      flush_waiting_packets_keeps R P (λ _. Unit) Unit (Keeps-Invariant Q P rule) s v

  pub driver_poll-Keeps : (env : Env) (s : Stream) → Keeps Q P s → Keeps Q P (driver_poll env s).0
  driver_poll-Keeps env s v =
      driver_poll_keeps R P (λ _. Unit) Unit (Keeps-Invariant Q P rule) env s (λ _. tt) v.1 v

  send_data_packet-R : (buf : List ℕ) (s : Stream) → R s → R (send_data_packet buf s).0
  unfolding send_data_packet queue_packet wake_driver
  send_data_packet-R buf s v = if-both (λ (r : Stream × ℕ). R r.0) _ v v

  pub poll_write-Keeps :
      (waker : ℕ) (buf : List ℕ) (s : Stream) → Keeps Q P s → Keeps Q P (poll_write waker buf s).0
  poll_write-Keeps waker buf s v = poll_write_keeps R waker buf s send_data_packet-R (λ t w. w) v
