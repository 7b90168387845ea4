-- ===== src/BodyStream/CaptureBody/Once.antt =====
-- When and how often the callback of a `CaptureBody` is called.
use hamsy_proxy.Shared.{
  ◌≡◌, refl, Bool, true, false, List, [], ◌∷◌, ◌&&◌, arith, if◌then◌else◌, ◌⊎◌, inl, inr,
}
use hamsy_proxy.BodyStream.{Poll, pending, end, ready, failed}
use hamsy_proxy.BodyStream.CaptureBody.{
  CaptureBody, new, start, work, await_task, poll_open, capture_poll, capture_drop, Event, polled,
  worked, happen, history,
}

-- The callback is held, or its job is queued and awaited, or it has been called once.
abbrev IsOnce : CaptureBody → Type 0
IsOnce b =
    ((b.armed ≡ true) × (b.task ≡ false) × (b.queued ≡ false) × (b.calls ≡ []))
    ⊎ ((b.armed ≡ false) × (b.task ≡ true) × (b.queued ≡ true) × (b.calls ≡ []))
    ⊎ ((b.armed ≡ false) × (b.queued ≡ false) × ((full : Bool) × (b.calls ≡ full ∷ [])))

start-IsOnce : (permit : Bool) (b : CaptureBody) → IsOnce b → IsOnce (start permit b)
unfolding start
start-IsOnce true b (inl (a, t, q, c)) =
    inr (inl (ground arith, ground arith, ground arith, ground arith))
start-IsOnce false b (inl (a, t, q, c)) =
    inr (inr (ground arith, ground arith, (false, ground arith)))
start-IsOnce permit b (inr (inl (a, t, q, c))) =
    inr (inl (ground arith, ground arith, ground arith, ground arith))
start-IsOnce permit b (inr (inr (a, q, (full, c)))) =
    inr (inr (ground arith, ground arith, (full, ground arith)))

work-IsOnce : (b : CaptureBody) → IsOnce b → IsOnce (work b)
unfolding work
work-IsOnce b (inl (a, t, q, c)) = inl (ground arith, ground arith, ground arith, ground arith)
work-IsOnce b (inr (inl (a, t, q, c))) =
    inr (inr (ground arith, ground arith, (true, ground arith)))
work-IsOnce b (inr (inr (a, q, (full, c)))) =
    inr (inr (ground arith, ground arith, (full, ground arith)))

await_task-IsOnce : (b : CaptureBody) → IsOnce b → IsOnce ((await_task b).0)
unfolding await_task
await_task-IsOnce b (inl (a, t, q, c)) =
    inl (ground arith, ground arith, ground arith, ground arith)
await_task-IsOnce b (inr (inl (a, t, q, c))) =
    inr (inl (ground arith, ground arith, ground arith, ground arith))
await_task-IsOnce b (inr (inr (a, q, (full, c)))) =
    inr (inr (ground arith, ground arith, (full, ground arith)))

poll_open-IsOnce :
    (permit : Bool) (p : Poll) (b : CaptureBody) → IsOnce b → IsOnce ((poll_open permit p b).0)
unfolding poll_open
poll_open-IsOnce permit end b h =
    await_task-IsOnce (start permit (record b { done = true }))
      (start-IsOnce permit (record b { done = true }) h)
poll_open-IsOnce permit pending b h = h
poll_open-IsOnce permit (ready f) b h = h
poll_open-IsOnce permit (failed e) b h = h

IsOnce-either :
    (closed : Bool) (x y : CaptureBody × Poll)
    → IsOnce (x.0)
    → IsOnce (y.0)
    → IsOnce ((if closed then x else y).0)
IsOnce-either true x y h k = h
IsOnce-either false x y h k = k

capture_poll-IsOnce :
    (permit : Bool) (p : Poll) (b : CaptureBody) → IsOnce b → IsOnce ((capture_poll permit p b).0)
unfolding capture_poll
capture_poll-IsOnce permit p b h =
    IsOnce-either (b.done) (await_task b) (poll_open permit p b) (await_task-IsOnce b h)
      (poll_open-IsOnce permit p b h)

history-IsOnce : (es : List Event) (b : CaptureBody) → IsOnce b → IsOnce (history es b)
unfolding history happen
history-IsOnce [] b h = h
history-IsOnce (polled permit p ∷ es) b h = history-IsOnce es _ (capture_poll-IsOnce permit p b h)
history-IsOnce (worked ∷ es) b h = history-IsOnce es _ (work-IsOnce b h)

calls_of_work :
    (b : CaptureBody) → b.armed ≡ false → IsOnce b → (full : Bool) × ((work b).calls ≡ full ∷ [])
unfolding work
calls_of_work b h (inl (a, t, q, c)) = absurd (ground arith)
calls_of_work b h (inr (inl (a, t, q, c))) = (true, ground arith)
calls_of_work b h (inr (inr (a, q, (full, c)))) = (full, ground arith)

start-armed : (permit : Bool) (b : CaptureBody) → (start permit b).armed ≡ false
unfolding start
start-armed permit b = ground arith

-- Whatever polls and jobs there were, and whether the queue of jobs had room or not: once the body is
-- dropped and a worker has run what is queued, the callback has been called exactly once.
pub history-calls_once :
    (es : List Event) (permit : Bool)
    → (full : Bool) × ((work (capture_drop permit (history es new))).calls ≡ full ∷ [])
unfolding capture_drop
history-calls_once es permit =
    let b = history es new in
    calls_of_work (start permit b) (start-armed permit b)
      (start-IsOnce permit b (history-IsOnce es new (inl (refl, refl, refl, refl))))

-- A body that is done does not hold its callback.
abbrev IsSealed : CaptureBody → Type 0
IsSealed b = (b.done && b.armed) ≡ false

happen-IsSealed : (e : Event) (b : CaptureBody) → IsSealed b → IsSealed (happen e b)
unfolding happen capture_poll poll_open await_task start work
happen-IsSealed (polled permit end) b h = ground arith
happen-IsSealed (polled permit pending) b h = ground arith
happen-IsSealed (polled permit (ready f)) b h = ground arith
happen-IsSealed (polled permit (failed e)) b h = ground arith
happen-IsSealed worked b h = ground arith

history-IsSealed : (es : List Event) (b : CaptureBody) → IsSealed b → IsSealed (history es b)
unfolding history
history-IsSealed [] b h = h
history-IsSealed (e ∷ es) b h = history-IsSealed es (happen e b) (happen-IsSealed e b h)

abbrev IsCalled : CaptureBody → Type 0
IsCalled b = (full : Bool) × (b.calls ≡ full ∷ [])

await_task-IsCalled :
    (b : CaptureBody)
    → IsOnce b
    → b.armed ≡ false
    → (await_task b).1 ≡ end
    → IsCalled ((await_task b).0)
unfolding await_task
await_task-IsCalled b (inl (a, t, q, c)) h e = absurd (ground arith)
await_task-IsCalled b (inr (inl (a, t, q, c))) h e = absurd (ground arith)
await_task-IsCalled b (inr (inr (a, q, (full, c)))) h e = (full, ground arith)

poll_open-IsCalled :
    (permit : Bool) (p : Poll) (b : CaptureBody)
    → IsOnce b
    → (poll_open permit p b).1 ≡ end
    → IsCalled ((poll_open permit p b).0)
unfolding poll_open
poll_open-IsCalled permit end b h e =
    let b' = record b { done = true } in
    await_task-IsCalled (start permit b') (start-IsOnce permit b' h) (start-armed permit b') e
poll_open-IsCalled permit pending b h e = absurd (ground arith)
poll_open-IsCalled permit (ready f) b h e = absurd (ground arith)
poll_open-IsCalled permit (failed x) b h e = absurd (ground arith)

IsCalled-either :
    (closed armed : Bool) (x y : CaptureBody × Poll)
    → (closed && armed) ≡ false
    → (armed ≡ false → x.1 ≡ end → IsCalled (x.0))
    → (y.1 ≡ end → IsCalled (y.0))
    → (if closed then x else y).1 ≡ end
    → IsCalled ((if closed then x else y).0)
IsCalled-either true armed x y sealed h k e = h sealed e
IsCalled-either false armed x y sealed h k e = k e

-- Whatever polls and jobs there were: where a poll answers the end of the body, the callback has
-- been called, exactly once.
pub end-called :
    (es : List Event) (permit : Bool) (p : Poll)
    → (capture_poll permit p (history es new)).1 ≡ end
    → (full : Bool) × ((capture_poll permit p (history es new)).0.calls ≡ full ∷ [])
unfolding capture_poll
end-called es permit p e =
    let b = history es new in
    let once = history-IsOnce es new (inl (refl, refl, refl, refl)) in
    IsCalled-either (b.done) (b.armed) (await_task b) (poll_open permit p b)
      (history-IsSealed es new refl) (await_task-IsCalled b once)
      (poll_open-IsCalled permit p b once) e
