-- ===== src/Stream/Polls.antt =====
-- What the polls of src/stream.rs answer, and who is woken then.
use async_udx.Prelude.{
  ℕ, arith, ◌≡◌, ◌⊎◌, inl, inr, refl, ap, List, [], ◌∷◌, ◌++◌, Option, none, some, Bool, true,
  false, if-cases, if-both, if◌then◌else◌, bit_and,
}
use async_udx.Constants.{udx_header_end}
use async_udx.Error.{UdxError, Outcome, ok, err, panic}
use async_udx.Map.{is_some}
use async_udx.Socket.Events.{stream_dropped}
use async_udx.Packet.Types.{is_empty, Packet, owned, new_packet}
use async_udx.Stream.State.{StreamState, close_local, local_closed}
use async_udx.Stream.Defs.{
  Stream, closed_and_drained, terminate, send_state_packet, wake_driver, wake, create_packet,
  create_header,
}
use async_udx.Stream.Receive.{Poll, ready, pending}
use async_udx.Stream.Drive.{Env, driver_poll, schedule, poll_drive, finish}

abbrev Answer : Type 0
Answer = Stream × Outcome (Poll (Unit {0}))

-- The driver's waker is kept for the next event, or it was used just now.
abbrev pub Awake : ℕ → Stream → Type 0
Awake waker s = (s.drive_waker ≡ some waker) ⊎ ((others : List ℕ) × (s.woken ≡ waker ∷ others))

abbrev Scheduled : ℕ → Answer → Type 0
Scheduled waker (s, ok pending) = Awake waker s
Scheduled waker (s, ok (ready _)) = ⊥
Scheduled waker (s, err e) = ⊥
Scheduled waker (s, panic) = Unit

schedule_lem : (env : Env) (r : Stream × Outcome Bool) → Scheduled env.waker (schedule env r)
unfolding schedule
schedule_lem env (s, ok true) = inr (s.woken, refl)
schedule_lem env (s, ok false) = inl refl
schedule_lem env (s, err e) = inr (_, refl)
schedule_lem env (s, panic) = tt

Scheduled-Awake :
    (waker : ℕ) (r : Answer)
    → Scheduled waker r
    → ((r.1 ≡ ok pending) × Awake waker r.0) ⊎ (r.1 ≡ panic)
Scheduled-Awake waker (s, ok pending) h = inl (refl, h)
Scheduled-Awake waker (s, ok (ready _)) h = absurd h
Scheduled-Awake waker (s, err e) h = absurd h
Scheduled-Awake waker (s, panic) h = inr refl

-- Nothing is left to do for the driver: the stream has an error, and no packet to send or to have
-- acknowledged.
abbrev pub Over : Stream → Type 0
Over s = ((e : UdxError) × (s.error ≡ some e)) × (s.send_queue ≡ []) × (s.outgoing ≡ [])

closed_and_drained-Over : (s : Stream) → closed_and_drained s ≡ true → Over s
unfolding closed_and_drained
closed_and_drained-Over s e = (
  failed s.error (ground arith),
  empty s.send_queue (ground arith),
  empty s.outgoing (ground arith),
)
  where
    failed : (o : Option UdxError) → is_some o ≡ true → (e : UdxError) × (o ≡ some e)
    failed none h = cc
    failed (some e) h = (e, refl)

    empty : {A : Type 0} (xs : List A) → is_empty xs ≡ true → xs ≡ []
    empty [] h = refl
    empty (x ∷ xs) h = cc

Over-closed_and_drained : (s : Stream) → closed_and_drained s ≡ false → ¬ Over s
unfolding closed_and_drained
Over-closed_and_drained s h ((e, failed), queue, out) =
    let over : closed_and_drained s ≡ true = rw (failed, queue, out) refl in cc

-- The driver of a stream is done just where the stream has an error, and no packet to send or to have
-- acknowledged. Then just this changes: the driver's old waker is forgotten; the socket, if it is still
-- there, is told behind all other messages that the stream of this id is dropped; and whoever waits for
-- the close is told and forgotten. Else, unless the poll panics, the driver goes to sleep with its waker
-- kept or used.
pub driver_poll_answer :
    (env : Env) (s : Stream)
    → let r = driver_poll env s in
      (Over s
        × (r.1 ≡ ok (ready tt))
        × (r.0 ≡ record s {
          drive_waker = none;
          send_tx = if s.send_open then s.send_tx ++ stream_dropped s.local_id ∷ [] else s.send_tx;
          signalled = wake s.on_close s.signalled;
          on_close = none;
        }))
      ⊎ ((¬ Over s) × (((r.1 ≡ ok pending) × Awake env.waker r.0) ⊎ (r.1 ≡ panic)))
unfolding driver_poll closed_and_drained finish
driver_poll_answer env s =
    let polled = schedule env (poll_drive env (record s { drive_waker = none })) in
    if-cases
      (λ (r : Answer).
        (Over s
          × (r.1 ≡ ok (ready tt))
          × (r.0 ≡ record s {
            drive_waker = none;
            send_tx =
                if s.send_open then s.send_tx ++ stream_dropped s.local_id ∷ [] else s.send_tx;
            signalled = wake s.on_close s.signalled;
            on_close = none;
          }))
        ⊎ ((¬ Over s) × (((r.1 ≡ ok pending) × Awake env.waker r.0) ⊎ (r.1 ≡ panic))))
      (closed_and_drained (record s { drive_waker = none }))
      (λ e. inl (closed_and_drained-Over s e, refl, refl))
      (λ e.
        inr (Over-closed_and_drained s e, Scheduled-Awake env.waker polled (schedule_lem env _)))

-- The waker was used.
abbrev pub Woken : ℕ → List ℕ → Type 0
Woken waker woken = (later : List ℕ) × (before : List ℕ) × (woken ≡ later ++ (waker ∷ before))

wake-Woken :
    (waker : ℕ) (o : Option ℕ) (woken : List ℕ) → Woken waker woken → Woken waker (wake o woken)
wake-Woken waker none woken w = w
wake-Woken waker (some v) woken (later, before, e) = (v ∷ later, before, ap (◌∷◌ v) e)

Woken-now :
    (waker : ℕ) (o : Option ℕ) (woken : List ℕ) → o ≡ some waker → Woken waker (wake o woken)
Woken-now waker o woken e = rw e ([], woken, refl)

-- A stream that ends leaves nobody asleep: whoever waits to read, to write, or to drive it is woken, and
-- no waker is kept. The other side is sent a packet of the type `END` behind all that is queued.
pub terminate-Woken :
    (x : UdxError) (waker : ℕ) (s : Stream)
    → (s.read_waker ≡ some waker) ⊎ ((s.write_waker ≡ some waker) ⊎ (s.drive_waker ≡ some waker))
    → let t = terminate x s in
      Woken waker t.woken
      × (t.read_waker ≡ none)
      × (t.write_waker ≡ none)
      × (t.drive_waker ≡ none)
      × ((p : Packet) × (t.send_queue ≡ s.send_queue ++ owned p ∷ [])
          × (p.header.typ ≡ udx_header_end))
unfolding terminate send_state_packet wake_driver create_packet create_header new_packet
terminate-Woken x waker s asleep = (used asleep, refl, refl, refl, (_, refl, ended s.state))
  where
    used :
        (s.read_waker ≡ some waker) ⊎ ((s.write_waker ≡ some waker) ⊎ (s.drive_waker ≡ some waker))
        → Woken waker (wake s.write_waker (wake s.read_waker (wake s.drive_waker s.woken)))
    used (inl e) = wake-Woken waker s.write_waker _ (Woken-now waker s.read_waker _ e)
    used (inr (inl e)) = Woken-now waker s.write_waker _ e
    used (inr (inr e)) =
        wake-Woken waker s.write_waker _
          (wake-Woken waker s.read_waker _ (Woken-now waker s.drive_waker s.woken e))

    ended :
        (st : StreamState)
        → (if local_closed (close_local st) then bit_and 2 2 else 2) ≡ udx_header_end
    ended st = if-both (λ (n : ℕ). n ≡ udx_header_end) (local_closed (close_local st)) refl refl
