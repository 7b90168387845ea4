-- ===== src/BodyStream/Throttle.antt =====
-- `TokenBucket` and `Throttled`. The arithmetic of `f64` is a parameter, and so are the clock and the
-- timer: each poll is given the seconds since the last refill and whether the sleep is over.
use mathlib.Core.List.{append_assoc}
use hamsy_proxy.Shared.{
  ℕ, ◌≡◌, refl, ap, Bool, true, false, List, [], ◌∷◌, ◌++◌, Option, none, some, length,
  if◌then◌else◌, ltb, ◌∙◌, sym,
}
use hamsy_proxy.BodyStream.{Frame, data_frame, trailers, Poll, pending, end, ready, failed}
use hamsy_proxy.BodyStream.Capture.{frames_of}

-- The operations of `f64` that the bucket uses.
pub record Float (F64 : Type 0) : Type 0 where
  pub of_u64 : ℕ → F64
  pub add : F64 → F64 → F64
  pub sub : F64 → F64 → F64
  pub mul : F64 → F64 → F64
  pub div : F64 → F64 → F64
  pub min_of : F64 → F64 → F64
  pub at_least : F64 → F64 → Bool

pub record TokenBucket (F64 : Type 0) : Type 0 where
  pub rate : F64
  pub capacity : F64
  pub tokens : F64

-- What the environment gives one poll.
pub record Tick (F64 : Type 0) : Type 0 where
  pub elapsed_secs : F64
  pub sleep_over : Bool

pub record Throttled (F64 : Type 0) : Type 0 where
  pub bucket : TokenBucket F64
  -- the frame that is held until its sleep is over
  pub held : Option Frame

abbrev frame_of : Poll → List Frame
frame_of p = frames_of (p ∷ [])

frames_of-cons : (p : Poll) (ps : List Poll) → frames_of (p ∷ ps) ≡ frame_of p ++ frames_of ps
frames_of-cons (ready f) ps = refl
frames_of-cons pending ps = refl
frames_of-cons end ps = refl
frames_of-cons (failed e) ps = refl

abbrev pub held_frames : {F64 : Type 0} → Throttled F64 → List Frame
held_frames t = elim (t.held) [ none ↦ [] | some f ↦ f ∷ [] ]

module _ {F64 : Type 0} (float : Float F64) where
  -- `TokenBucket::new`, with `bytes_per_sec.max(1)`
  unfoldable pub new_bucket : ℕ → TokenBucket F64
  new_bucket bytes_per_sec =
      let rate = float.of_u64 (if ltb bytes_per_sec 1 then 1 else bytes_per_sec) in
      record { rate = rate; capacity = rate; tokens = rate }

  unfoldable pub refill : F64 → TokenBucket F64 → TokenBucket F64
  refill elapsed_secs b = record b {
    tokens = float.min_of (float.add (b.tokens) (float.mul elapsed_secs (b.rate))) (b.capacity);
  }

  -- The bucket, and the seconds to wait, if the tokens do not suffice.
  unfoldable pub try_take : F64 → TokenBucket F64 → TokenBucket F64 × Option F64
  try_take amount b =
      if float.at_least (b.tokens) amount
      then (record b { tokens = float.sub (b.tokens) amount }, none)
      else (
        record b { tokens = float.of_u64 0 },
        some (float.div (float.sub amount (b.tokens)) (b.rate)),
      )

  -- `Throttled::new`
  unfoldable pub throttle : ℕ → Throttled F64
  unfolding new_bucket
  throttle bytes_per_sec = record { bucket = new_bucket bytes_per_sec; held = none }

  -- A frame whose sleep is polled: it is released, or held.
  unfoldable pub release_or_hold : Bool → Frame → Throttled F64 → Throttled F64 × Poll
  release_or_hold true frame t = (record t { held = none }, ready frame)
  release_or_hold false frame t = (record t { held = some frame }, pending)

  -- The match on what `try_take` returns, for the data frame that was asked about.
  unfoldable pub settle : Tick F64 → List ℕ → Option F64 → Throttled F64 → Throttled F64 × Poll
  unfolding release_or_hold
  settle tick bytes none t = (t, ready (data_frame bytes))
  settle tick bytes (some wait_secs) t = release_or_hold (tick.sleep_over) (data_frame bytes) t

  -- A data frame that comes from the inner body while none is held.
  unfoldable pub admit : Tick F64 → List ℕ → Throttled F64 → Throttled F64 × Poll
  unfolding refill try_take settle
  admit tick bytes t =
      let (bucket, wait) =
        try_take (float.of_u64 (length bytes)) (refill (tick.elapsed_secs) (t.bucket)) in
      settle tick bytes wait (record t { bucket = bucket })

  -- `poll_frame` at an answer of the inner body, while no frame is held.
  unfoldable pub poll_inner : Tick F64 → Poll → Throttled F64 → Throttled F64 × Poll
  unfolding admit
  poll_inner tick (ready (data_frame bytes)) t = admit tick bytes t
  poll_inner tick (ready (trailers fields)) t = (t, ready (trailers fields))
  poll_inner tick pending t = (t, pending)
  poll_inner tick end t = (t, end)
  poll_inner tick (failed e) t = (t, failed e)

  -- `poll_frame` on a list of answers that the inner body will give (and `end` after them): the
  -- state, the answer, and the answers that are left. The inner body is not polled while a frame is
  -- held.
  unfoldable pub poll_frame :
      Tick F64 → List Poll → Throttled F64 → Throttled F64 × Poll × List Poll
  unfolding poll_inner release_or_hold
  poll_frame tick inner t = elim (t.held) [
    | some frame ↦
        let (t', answer) = release_or_hold (tick.sleep_over) frame t in (t', answer, inner)
    | none ↦ elim inner [
      | [] ↦ (t, end, [])
      | p ∷ ps ↦ let (t', answer) = poll_inner tick p t in (t', answer, ps)
    ]
  ]

  -- Polls, one for each tick.
  unfoldable pub throttle_run :
      List (Tick F64) → List Poll → Throttled F64 → Throttled F64 × List Poll × List Poll
  unfolding poll_frame
  throttle_run [] inner t = (t, [], inner)
  throttle_run (tick ∷ ticks) inner t =
      let (t', answer, left) = poll_frame tick inner t in
      let (t'', answers, rest) = throttle_run ticks left t' in (t'', answer ∷ answers, rest)

  -- The frames of an answer with the one that is then held.
  abbrev frames_out : Throttled F64 × Poll → List Frame
  frames_out (t, answer) = frame_of answer ++ held_frames t

  then_frames :
      (r : Throttled F64 × Poll) (fs : List Frame) {out : List Frame}
      → frames_out r ≡ out
      → frame_of (r.1) ++ held_frames (r.0) ++ fs ≡ out ++ fs
  then_frames (t, answer) fs h = ap (λ out. out ++ fs) h

  release_or_hold-kept :
      (over : Bool) (f : Frame) (t : Throttled F64) → frames_out (release_or_hold over f t) ≡ f ∷ []
  unfolding release_or_hold
  release_or_hold-kept true f t = refl
  release_or_hold-kept false f t = refl

  settle-kept :
      (tick : Tick F64) (bytes : List ℕ) (wait : Option F64) (t : Throttled F64)
      → t.held ≡ none
      → frames_out (settle tick bytes wait t) ≡ data_frame bytes ∷ []
  unfolding settle
  settle-kept tick bytes none t h = rw h refl
  settle-kept tick bytes (some w) t h = release_or_hold-kept (tick.sleep_over) (data_frame bytes) t

  poll_inner-kept :
      (tick : Tick F64) (p : Poll) (t : Throttled F64)
      → t.held ≡ none
      → frames_out (poll_inner tick p t) ≡ frame_of p
  unfolding poll_inner admit
  poll_inner-kept tick (ready (data_frame bytes)) t h = settle-kept tick bytes _ _ h
  poll_inner-kept tick (ready (trailers fields)) t h = rw h refl
  poll_inner-kept tick pending t h = rw h refl
  poll_inner-kept tick end t h = rw h refl
  poll_inner-kept tick (failed e) t h = rw h refl

  -- One poll: what it answers, what is then held and what is then left are what was held and left.
  poll_frame-kept_fields :
      (tick : Tick F64) (inner : List Poll) (bucket : TokenBucket F64) (held : Option Frame)
      → let t : Throttled F64 = record { bucket = bucket; held = held } in
        frame_of ((poll_frame tick inner t).1)
          ++ held_frames ((poll_frame tick inner t).0)
          ++ frames_of ((poll_frame tick inner t).2)
        ≡ held_frames t ++ frames_of inner
  unfolding poll_frame
  poll_frame-kept_fields tick inner b (some f) =
      let t : Throttled F64 = record { bucket = b; held = some f } in
      then_frames (release_or_hold (tick.sleep_over) f t) (frames_of inner)
        (release_or_hold-kept (tick.sleep_over) f t)
  poll_frame-kept_fields tick [] b none = refl
  poll_frame-kept_fields tick (p ∷ ps) b none =
      let t : Throttled F64 = record { bucket = b; held = none } in
      then_frames (poll_inner tick p t) (frames_of ps) (poll_inner-kept tick p t refl)
      ∙ sym (frames_of-cons p ps)

  poll_frame-kept :
      (tick : Tick F64) (inner : List Poll) (t : Throttled F64)
      → frame_of ((poll_frame tick inner t).1)
          ++ held_frames ((poll_frame tick inner t).0)
          ++ frames_of ((poll_frame tick inner t).2)
        ≡ held_frames t ++ frames_of inner
  poll_frame-kept tick inner t = poll_frame-kept_fields tick inner (t.bucket) (t.held)

  -- Over any polls, whatever the clock and the timer do, a throttled body loses, invents and
  -- reorders no frame: the frames it answered, then the one it holds, then those the inner body still
  -- has, are the one it held before and those of the inner body.
  pub throttle_run-kept :
      (ticks : List (Tick F64)) (inner : List Poll) (t : Throttled F64)
      → frames_of ((throttle_run ticks inner t).1)
          ++ held_frames ((throttle_run ticks inner t).0)
          ++ frames_of ((throttle_run ticks inner t).2)
        ≡ held_frames t ++ frames_of inner
  unfolding throttle_run
  throttle_run-kept [] inner t = refl
  throttle_run-kept (tick ∷ ticks) inner t =
      let (t', answer, left) = poll_frame tick inner t in
      let (t'', answers, rest) = throttle_run ticks left t' in
      ap (λ fs. fs ++ held_frames t'' ++ frames_of rest) (frames_of-cons answer answers)
      ∙ ap (λ fs. fs ++ frames_of rest)
          (append_assoc (frame_of answer) (frames_of answers) (held_frames t''))
      ∙ append_assoc (frame_of answer) (frames_of answers ++ held_frames t'') (frames_of rest)
      ∙ ap (λ fs. frame_of answer ++ fs) (throttle_run-kept ticks left t')
      ∙ sym (append_assoc (frame_of answer) (held_frames t') (frames_of left))
      ∙ poll_frame-kept tick inner t
