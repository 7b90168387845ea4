-- ===== src/BodyStream.antt =====
-- crates/hamsy-proxy/src/tee.rs: the body wrappers. A body is polled; what the inner body answers is
-- an argument of each step, so that a run of a wrapper is a list of answers.
pub mod Capture
pub mod Whole
pub mod Throttle
pub mod Finalize
pub mod CaptureBody
pub mod Tests
use hamsy_proxy.Shared.{
  ℕ, ◌+◌, ◌-◌, ◌%◌, ◌^◌, ◌==◌, leb, ltb, Bool, true, false, List, [], ◌∷◌, ◌++◌, length, take,
  Result, ok, err, if◌then◌else◌,
}
use hamsy_proxy.Shared.Text.{Text, text}

-- `Frame<Bytes>`: data, or trailers.
pub data Frame : Type 0 where
  data_frame : List ℕ → Frame
  trailers : List (Text × Text) → Frame

-- `Poll<Option<Result<Frame<Bytes>, E>>>`; here an error is its text.
pub data Poll : Type 0 where
  pending end : Poll
  ready : Frame → Poll
  failed : Text → Poll

pub record TeeState : Type 0 where
  pub captured : List ℕ
  pub total : ℕ
  pub truncated : Bool

-- `TeeState::default()`
abbrev pub fresh : TeeState
fresh = record { captured = []; total = 0; truncated = false }

-- The capture of one piece of data, once the remaining room is known; `-` on ℕ saturates.
unfoldable pub capture_into : ℕ → List ℕ → TeeState → TeeState
capture_into remaining bytes s =
    if s.truncated
    then s
    else if remaining == 0
    then record s { truncated = true }
    else if leb (length bytes) remaining
    then record s { captured = s.captured ++ bytes }
    else record s { captured = s.captured ++ take remaining bytes; truncated = true }

-- The accounting of one data frame, in `TeeBody::poll_frame` and in `collect_capped`.
unfoldable pub record_data : ℕ → List ℕ → TeeState → TeeState
unfolding capture_into
record_data hard_cap bytes s =
    capture_into (hard_cap - length (s.captured)) bytes
      (record s { total = (s.total + length bytes) % 2 ^ 64 })

-- `TeeBody::poll_frame`: the state, and the answer passed on.
unfoldable pub tee_poll : ℕ → Poll → TeeState → TeeState × Poll
unfolding record_data
tee_poll hard_cap (ready (data_frame bytes)) s =
    (record_data hard_cap bytes s, ready (data_frame bytes))
tee_poll hard_cap (ready (trailers fields)) s = (s, ready (trailers fields))
tee_poll hard_cap pending s = (s, pending)
tee_poll hard_cap end s = (s, end)
tee_poll hard_cap (failed e) s = (s, failed e)

-- A run of `poll_frame`: the last state, and the answers in order.
unfoldable pub tee_run : ℕ → List Poll → TeeState → TeeState × List Poll
unfolding tee_poll
tee_run hard_cap [] s = (s, [])
tee_run hard_cap (p ∷ ps) s =
    let (s', q) = tee_poll hard_cap p s in let (s'', qs) = tee_run hard_cap ps s' in (s'', q ∷ qs)

-- What a body that is awaited to its end yields: its frames, then the end, or an error.
pub record Source : Type 0 where
  pub frames : List Frame
  pub failure : Result (Unit {0}) Text

abbrev pub body_read_error : Text → Text
body_read_error e = text "body read error: " ++ e

-- The loop of `collect_capped`.
unfoldable pub collect_capped_from :
    ℕ → Result (Unit {0}) Text → List Frame → TeeState → Result TeeState Text
unfolding record_data
collect_capped_from hard_cap (ok _) [] s = ok s
collect_capped_from hard_cap (err e) [] s = err (body_read_error e)
collect_capped_from hard_cap last (data_frame bytes ∷ fs) s =
    collect_capped_from hard_cap last fs (record_data hard_cap bytes s)
collect_capped_from hard_cap last (trailers fields ∷ fs) s = collect_capped_from hard_cap last fs s

unfoldable pub collect_capped : ℕ → Source → Result TeeState Text
unfolding collect_capped_from
collect_capped hard_cap body = collect_capped_from hard_cap (body.failure) (body.frames) fresh

pub data RulesBodyError : Type 0 where
  read_error : Text → RulesBodyError
  exceeds : ℕ → RulesBodyError

-- The loop of `collect_for_rules`.
unfoldable pub collect_for_rules_from :
    ℕ → Result (Unit {0}) Text → List Frame → List ℕ → Result (List ℕ) RulesBodyError
collect_for_rules_from hard_cap (ok _) [] buf = ok buf
collect_for_rules_from hard_cap (err e) [] buf = err (read_error (body_read_error e))
collect_for_rules_from hard_cap last (data_frame bytes ∷ fs) buf =
    let rest = collect_for_rules_from hard_cap last fs (buf ++ bytes) in
    if ltb (hard_cap - length buf) (length bytes) then err (exceeds hard_cap) else rest
collect_for_rules_from hard_cap last (trailers fields ∷ fs) buf =
    collect_for_rules_from hard_cap last fs buf

unfoldable pub collect_for_rules : ℕ → Source → Result (List ℕ) RulesBodyError
unfolding collect_for_rules_from
collect_for_rules hard_cap body = collect_for_rules_from hard_cap (body.failure) (body.frames) []
