-- ===== src/Proxy/Streams.antt =====
-- crates/hamsy-proxy/src/http.rs and tee.rs: what the wrapped bodies of an exchange yield. The answers that
-- the innermost body will give are a list (and `end` after them); the frames that have not been asked for
-- are kept beside the ones that were given.
use hamsy_proxy.Shared.{◌≡◌, refl, ap, Bool, true, false, none, some, List, [], ◌∷◌, ◌++◌}
use hamsy_proxy.Shared.Text.{Text}
use hamsy_proxy.BodyStream.{Frame, data_frame, Poll, pending, end, ready, failed, fresh, tee_run}
use hamsy_proxy.BodyStream.Capture.{frames_of}
use hamsy_proxy.BodyStream.CaptureBody.{CaptureBody, new, work, await_task, poll_open}
use hamsy_proxy.BodyStream.Throttle.{Float, Tick, throttle, throttle_run, held_frames}
use hamsy_proxy.Rules.Externals.{Externals}
use hamsy_proxy.Proxy.Net.{Net}
use hamsy_proxy.Proxy.Dispatch.{Content, full_body, passed, teed, captured, BoxBody}
use hamsy_proxy.Proxy.Exchange.{Exchange}

-- A `CaptureBody` is polled, with or without a permit left on the queue, or a worker runs.
pub data Turn : Type 0 where
  asks : Bool → Turn
  works : Turn

-- `CaptureBody::poll_frame` on the answers that are left: they are not asked for once it is done.
unfoldable pub ask : Bool → List Poll → CaptureBody → CaptureBody × Poll × List Poll
unfolding poll_open await_task
ask permit inner b = elim (b.done) [
  | true ↦ let (b', answer) = await_task b in (b', answer, inner)
  | false ↦ elim inner [
    | [] ↦ let (b', answer) = poll_open permit end b in (b', answer, [])
    | p ∷ ps ↦ let (b', answer) = poll_open permit p b in (b', answer, ps)
  ]
]

-- The answers of a `CaptureBody`, and those that it has not asked for.
unfoldable pub capture_run : List Turn → List Poll → CaptureBody → List Poll × List Poll
unfolding ask work
capture_run [] inner b = ([], inner)
capture_run (works ∷ turns) inner b = capture_run turns inner (work b)
capture_run (asks permit ∷ turns) inner b =
    let (b', answer, left) = ask permit inner b in
    let (answers, rest) = capture_run turns left b' in (answer ∷ answers, rest)

-- The answers of a body, where the innermost one will give some answers.
unfoldable pub content_run : List Turn → List Poll → Content → List Poll × List Poll
unfolding capture_run tee_run
content_run turns inner (full_body bytes) = (ready (data_frame bytes) ∷ [], [])
content_run turns inner (passed body) = (inner, [])
content_run turns inner (teed hard_cap content) =
    let (answers, left) = content_run turns inner content in
    ((tee_run hard_cap answers fresh).1, left)
content_run turns inner (captured content) =
    let (answers, left) = content_run turns inner content in
    let (given, unasked) = capture_run turns answers new in (given, unasked ++ left)

module _ {F64 : Type 0} (float : Float F64) where
  -- The answers of a boxed body with the limit of its `Throttled`, and the frames that it has not given.
  unfoldable pub box_run :
      List (Tick F64) → List Turn → List Poll → BoxBody → List Poll × List Frame
  unfolding content_run throttle_run throttle
  box_run ticks turns inner body =
      let (answers, left) = content_run turns inner (body.content) in
      elim (body.throttle) [
        | none ↦ (answers, frames_of left)
        | some bps ↦
            let (t, given, unasked) = throttle_run float ticks answers (throttle float bps) in
            (given, held_frames t ++ frames_of unasked ++ frames_of left)
      ]

abbrev frame_of : Poll → List Frame
frame_of p = frames_of (p ∷ [])

frames_of-append : (ps qs : List Poll) → frames_of (ps ++ qs) ≡ frames_of ps ++ frames_of qs
frames_of-append [] qs = refl
frames_of-append (ready f ∷ ps) qs = ap (λ fs. f ∷ fs) (frames_of-append ps qs)
frames_of-append (pending ∷ ps) qs = frames_of-append ps qs
frames_of-append (end ∷ ps) qs = frames_of-append ps qs
frames_of-append (failed e ∷ ps) qs = frames_of-append ps qs
