-- ===== src/BodyStream/Tests.antt =====
-- Bodies of two frames, and what the wrappers do with them.
use hamsy_proxy.Shared.{
  Bool, ℕ, ◌+◌, ◌%◌, ◌^◌, ◌≤◌, ◌≡◌, ◌⊎◌, refl, true, false, none, List, [], ◌∷◌, ◌++◌, length, take,
  ok,
}
use hamsy_proxy.BodyStream.{
  data_frame, Poll, pending, end, ready, fresh, record_data, tee_run, Source, collect_for_rules,
}
use hamsy_proxy.BodyStream.Capture.{all_data, frames_of, tee_run-captures}
use hamsy_proxy.BodyStream.Whole.{whole_or_error, collect_for_rules-whole}
use hamsy_proxy.BodyStream.CaptureBody as Capturing
use hamsy_proxy.BodyStream.CaptureBody.{
  Event, polled, worked, capture_poll, capture_drop, work, history,
}
use hamsy_proxy.BodyStream.CaptureBody.Once.{history-calls_once, end-called}
use hamsy_proxy.BodyStream.Finalize.{new, life, life-once}
use hamsy_proxy.BodyStream.Throttle.{
  Float, Tick, throttle, throttle_run, held_frames, throttle_run-kept,
}
use Prim.Native.Nat.{◌-◌, ◌*◌, ◌/◌, min}
use hamsy_proxy.Shared.{leb}

abbrev two_frames : List Poll
two_frames = ready (data_frame (1 ∷ 2 ∷ [])) ∷ pending ∷ ready (data_frame (3 ∷ 4 ∷ [])) ∷ end ∷ []

tee_run-captures_example :
    let s = (tee_run 3 two_frames fresh).0 in
    let seen = all_data (frames_of two_frames) in
    (s.captured ≡ take 3 seen)
    × (s.total ≡ length seen % 2 ^ 64)
    × (((s.truncated ≡ false) × (s.captured ≡ seen))
        ⊎ ((s.truncated ≡ true) × (3 ≤ length (s.captured))))
tee_run-captures_example = tee_run-captures 3 two_frames

abbrev body : Source
body = record { frames = data_frame (1 ∷ 2 ∷ []) ∷ data_frame (3 ∷ 4 ∷ []) ∷ []; failure = ok tt }

collect_for_rules-whole_example : collect_for_rules 3 body ≡ whole_or_error 3 body
collect_for_rules-whole_example = collect_for_rules-whole 3 body

abbrev count : ℕ → ℕ
count n = n + 1

life-once_example : life two_frames (new count 0) ≡ record { on_done = none; world = count 0 }
life-once_example = life-once count 0 two_frames

-- An empty frame that comes when the capture is exactly full marks it as truncated.
truncated_by_nothing :
    record_data 2 [] (record { captured = 1 ∷ 2 ∷ []; total = 2; truncated = false })
    ≡ record { captured = 1 ∷ 2 ∷ []; total = 2; truncated = true }
unfolding record_data
truncated_by_nothing = refl

abbrev whole_seconds : Float ℕ
whole_seconds = record {
  of_u64 = λ n. n;
  add = λ a b. a + b;
  sub = λ a b. a - b;
  mul = λ a b. a * b;
  div = λ a b. a / b;
  min_of = λ a b. min a b;
  at_least = λ a b. leb b a;
}

abbrev ticks : List (Tick ℕ)
ticks =
    record { elapsed_secs = 0; sleep_over = false }
    ∷ record { elapsed_secs = 0; sleep_over = false }
    ∷ record { elapsed_secs = 1; sleep_over = true }
    ∷ []

throttle_run-kept_example :
    let t = throttle whole_seconds 1 in
    frames_of ((throttle_run whole_seconds ticks two_frames t).1)
      ++ held_frames ((throttle_run whole_seconds ticks two_frames t).0)
      ++ frames_of ((throttle_run whole_seconds ticks two_frames t).2)
    ≡ held_frames t ++ frames_of two_frames
throttle_run-kept_example =
    throttle_run-kept whole_seconds ticks two_frames (throttle whole_seconds 1)

abbrev ended_once : List Event
ended_once = polled true (ready (data_frame [])) ∷ polled true end ∷ worked ∷ []

history-calls_once_example :
    (full : Bool) × ((work (capture_drop false (history ended_once Capturing.new))).calls
      ≡ full ∷ [])
history-calls_once_example = history-calls_once ended_once false

answers_end : (capture_poll true pending (history ended_once Capturing.new)).1 ≡ end
unfolding capture_poll history
answers_end = refl

end-called_example :
    (full : Bool) × ((capture_poll true pending (history ended_once Capturing.new)).0.calls
      ≡ full ∷ [])
end-called_example = end-called ended_once true pending answers_end
