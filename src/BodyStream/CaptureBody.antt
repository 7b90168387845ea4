-- ===== src/BodyStream/CaptureBody.antt =====
-- `CaptureBody`: the callback that records a capture on the body workers. The callback is given by
-- the arguments of its calls, in order; a queued job is one that was spawned and has not run yet.
pub mod Once
use hamsy_proxy.Shared.{
  ◌≡◌, refl, Bool, true, false, not, List, [], ◌∷◌, ◌++◌, ◌&&◌, arith, if◌then◌else◌, ◌⊎◌, inl, inr,
  Bool-cases,
}
use hamsy_proxy.BodyStream.{Frame, Poll, pending, end, ready, failed}

pub record CaptureBody : Type 0 where
  -- `finalize` holds the callback
  pub armed : Bool
  -- `task` holds a handle
  pub task : Bool
  pub done : Bool
  -- the job that was spawned and has not run
  pub queued : Bool
  pub calls : List Bool

-- `CaptureBody::new`
abbrev pub new : CaptureBody
new = record { armed = true; task = false; done = false; queued = false; calls = [] }

-- `start`; whether the queue has a permit left is the first argument.
unfoldable pub start : Bool → CaptureBody → CaptureBody
start permit b =
    if b.armed
    then if permit
      then record b { armed = false; task = true; queued = true }
      else record b { armed = false; calls = b.calls ++ false ∷ [] }
    else b

-- A worker runs the job, if there is one.
unfoldable pub work : CaptureBody → CaptureBody
work b = if b.queued then record b { queued = false; calls = b.calls ++ true ∷ [] } else b

-- The end of `poll_frame`: the handle is awaited.
unfoldable pub await_task : CaptureBody → CaptureBody × Poll
await_task b =
    if b.task && b.queued
    then (b, pending)
    else if b.task
    then (record b { task = false }, end)
    else (b, end)

-- `poll_frame` before the body is done, at an answer of the inner body.
unfoldable pub poll_open : Bool → Poll → CaptureBody → CaptureBody × Poll
unfolding start await_task
poll_open permit end b = await_task (start permit (record b { done = true }))
poll_open permit pending b = (b, pending)
poll_open permit (ready f) b = (b, ready f)
poll_open permit (failed e) b = (b, failed e)

-- `poll_frame`; the inner body is not polled once the body is done.
unfoldable pub capture_poll : Bool → Poll → CaptureBody → CaptureBody × Poll
unfolding poll_open await_task
capture_poll permit p b = if b.done then await_task b else poll_open permit p b

-- `Drop::drop`
unfoldable pub capture_drop : Bool → CaptureBody → CaptureBody
unfolding start
capture_drop permit b = start permit b

-- What may happen to a body: it is polled, or a worker runs.
pub data Event : Type 0 where
  polled : (permit : Bool) (p : Poll) → Event
  worked : Event

unfoldable pub happen : Event → CaptureBody → CaptureBody
unfolding capture_poll work
happen (polled permit p) b = (capture_poll permit p b).0
happen worked b = work b

unfoldable pub history : List Event → CaptureBody → CaptureBody
unfolding happen
history [] b = b
history (e ∷ es) b = history es (happen e b)
