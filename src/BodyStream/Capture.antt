-- ===== src/BodyStream/Capture.antt =====
-- What `TeeBody` and `collect_capped` have captured after any frames.
use mathlib.Core.List.{append-nil, append_assoc}
use hamsy_proxy.Shared.{
  ℕ, zero, suc, ◌-◌, ◌%◌, ◌^◌, ◌≤◌, ◌≡◌, ◌⊎◌, refl, ap, sym, ◌∙◌, true, false, List, [], ◌∷◌, ◌++◌,
  length, length-append, take_of_fits, length-take_le, length-take_of_more, take, map, Result, ok,
  err, arith, Bool-cases, inl, inr,
}
use hamsy_proxy.Shared.Text.{Text}
use hamsy_proxy.BodyStream.{
  Frame, data_frame, trailers, Poll, pending, end, ready, failed, TeeState, fresh, capture_into,
  record_data, tee_poll, tee_run, Source, body_read_error, collect_capped_from, collect_capped,
}

-- The bytes that the data frames carry.
abbrev pub all_data : List Frame → List ℕ
all_data [] = []
all_data (data_frame bytes ∷ fs) = bytes ++ all_data fs
all_data (trailers fields ∷ fs) = all_data fs

-- The frames among the answers of a body.
abbrev pub frames_of : List Poll → List Frame
frames_of [] = []
frames_of (ready f ∷ ps) = f ∷ frames_of ps
frames_of (pending ∷ ps) = frames_of ps
frames_of (end ∷ ps) = frames_of ps
frames_of (failed e ∷ ps) = frames_of ps

-- What a state says of the data seen so far: the capture is its first `hard_cap` bytes, `total` is its
-- length modulo 2^64, and a capture that is not truncated is all of it.
abbrev Describes : ℕ → List ℕ → TeeState → Type 0
Describes hard_cap seen s =
    (s.captured ≡ take hard_cap seen)
    × (s.total ≡ length seen % 2 ^ 64)
    × (s.truncated ≡ false → s.captured ≡ seen)
    × (s.truncated ≡ true → hard_cap ≤ length (s.captured))

take-append_le : (n : ℕ) (xs ys : List ℕ) → n ≤ length xs → take n (xs ++ ys) ≡ take n xs
take-append_le zero xs ys h = refl
take-append_le (suc n) [] ys h = absurd (omega (arith, h))
take-append_le (suc n) (x ∷ xs) ys h = ground (arith, take-append_le n xs ys)

take-append_ge :
    (n : ℕ) (xs ys : List ℕ) → length xs ≤ n → take n (xs ++ ys) ≡ xs ++ take (n - length xs) ys
take-append_ge n [] ys h = ground arith
take-append_ge zero (x ∷ xs) ys h = absurd (omega (arith, h))
take-append_ge (suc n) (x ∷ xs) ys h = ground (arith, take-append_ge n xs ys)

take_of_zero : (n : ℕ) (xs : List ℕ) → n ≡ 0 → take n xs ≡ []
take_of_zero zero xs h = refl
take_of_zero (suc n) xs h = absurd (omega (arith, h))

length-take_ge : (n : ℕ) (xs : List ℕ) → n ≤ length (take n xs) → n ≤ length xs
length-take_ge zero xs h = omega arith
length-take_ge (suc n) [] h = h
length-take_ge (suc n) (x ∷ xs) h = omega (arith, length-take_ge n xs)

-- A capture that is full already.
keep-Describes :
    (hard_cap : ℕ) (seen bytes : List ℕ) (s : TeeState)
    → Describes hard_cap seen s
    → s.truncated ≡ true
    → take hard_cap (seen ++ bytes) ≡ s.captured
keep-Describes hard_cap seen bytes s (prefix, counted, whole, full) shut =
    take-append_le hard_cap seen bytes
      (length-take_ge hard_cap seen (omega (arith, full shut, ap length prefix)))
    ∙ sym prefix

-- A capture with room left.
more-Describes :
    (hard_cap : ℕ) (seen bytes : List ℕ) (s : TeeState)
    → Describes hard_cap seen s
    → s.truncated ≡ false
    → take hard_cap (seen ++ bytes) ≡ s.captured ++ take (hard_cap - length (s.captured)) bytes
more-Describes hard_cap seen bytes s (prefix, counted, whole, full) room = rw (whole room) (
    take-append_ge hard_cap seen bytes
      (omega (arith, length-take_le hard_cap seen, ap length prefix, ap length (whole room))))

-- One more data frame.
record_data-Describes :
    (hard_cap : ℕ) (seen : List ℕ) (s : TeeState) (bytes : List ℕ)
    → Describes hard_cap seen s
    → Describes hard_cap (seen ++ bytes) (record_data hard_cap bytes s)
unfolding record_data capture_into
record_data-Describes hard_cap seen s bytes (prefix, counted, whole, full) =
    elim (Bool-cases (s.truncated)) [
      | inl shut ↦ (
        ground (arith, keep-Describes hard_cap seen bytes s (prefix, counted, whole, full) shut),
        ground (arith, length-append seen bytes),
        λ h. ground arith,
        λ h. ground arith,
      )
      | inr room ↦ (
        ground (
          arith,
          more-Describes hard_cap seen bytes s (prefix, counted, whole, full) room,
          take_of_fits (hard_cap - length (s.captured)) bytes,
          take_of_zero (hard_cap - length (s.captured)) bytes,
          append-nil (s.captured),
        ),
        ground (arith, length-append seen bytes),
        λ h. ground (arith, whole room),
        λ h. ground (
          arith,
          length-append (s.captured) bytes,
          length-append (s.captured) (take (hard_cap - length (s.captured)) bytes),
          length-take_of_more (hard_cap - length (s.captured)) bytes,
        ),
      )
    ]

tee_run-Describes :
    (hard_cap : ℕ) (ps : List Poll) (seen : List ℕ) (s : TeeState)
    → Describes hard_cap seen s
    → Describes hard_cap (seen ++ all_data (frames_of ps)) ((tee_run hard_cap ps s).0)
unfolding tee_run tee_poll
tee_run-Describes hard_cap [] seen s h = rw (append-nil seen) h
tee_run-Describes hard_cap (ready (data_frame bytes) ∷ ps) seen s h =
    rw (sym (append_assoc seen bytes (all_data (frames_of ps)))) (
      tee_run-Describes hard_cap ps (seen ++ bytes) (record_data hard_cap bytes s)
        (record_data-Describes hard_cap seen s bytes h))
tee_run-Describes hard_cap (ready (trailers fields) ∷ ps) seen s h =
    tee_run-Describes hard_cap ps seen s h
tee_run-Describes hard_cap (pending ∷ ps) seen s h = tee_run-Describes hard_cap ps seen s h
tee_run-Describes hard_cap (end ∷ ps) seen s h = tee_run-Describes hard_cap ps seen s h
tee_run-Describes hard_cap (failed e ∷ ps) seen s h = tee_run-Describes hard_cap ps seen s h

-- `fresh` describes the empty data.
fresh-Describes : (hard_cap : ℕ) → Describes hard_cap [] fresh
fresh-Describes zero = (refl, refl, λ h. refl, λ h. absurd (ground arith))
fresh-Describes (suc n) = (refl, refl, λ h. refl, λ h. absurd (ground arith))

-- At any point of a stream that is polled through a new `TeeBody`, in whatever way the data is cut
-- into frames: the capture is the first `hard_cap` bytes of the data so far, `total` is its length
-- modulo 2^64, and either the capture is not marked as truncated and is all of the data, or it is
-- marked and has reached the cap.
pub tee_run-captures :
    (hard_cap : ℕ) (ps : List Poll)
    → let s = (tee_run hard_cap ps fresh).0 in
      let seen = all_data (frames_of ps) in
      (s.captured ≡ take hard_cap seen)
      × (s.total ≡ length seen % 2 ^ 64)
      × (((s.truncated ≡ false) × (s.captured ≡ seen))
          ⊎ ((s.truncated ≡ true) × (hard_cap ≤ length (s.captured))))
tee_run-captures hard_cap ps =
    let s = (tee_run hard_cap ps fresh).0 in
    let (prefix, counted, whole, full) =
      tee_run-Describes hard_cap ps [] fresh (fresh-Describes hard_cap) in
    (
      prefix,
      counted,
      elim (Bool-cases (s.truncated)) [
        | inl shut ↦ inr (shut, full shut)
        | inr room ↦ inl (room, whole room)
      ],
    )

-- The state of `collect_capped` is the one of a `TeeBody` that saw the same frames; an error of the
-- body is the result, whatever was read before it.
collect_capped_from-tee_run :
    (hard_cap : ℕ) (last : Result (Unit {0}) Text) (fs : List Frame) (s : TeeState)
    → collect_capped_from hard_cap last fs s ≡ elim last [
      | ok _ ↦ ok ((tee_run hard_cap (map ready fs) s).0)
      | err e ↦ err (body_read_error e)
    ]
unfolding collect_capped_from tee_run tee_poll
collect_capped_from-tee_run hard_cap (ok _) [] s = refl
collect_capped_from-tee_run hard_cap (err e) [] s = refl
collect_capped_from-tee_run hard_cap (ok u) (data_frame bytes ∷ fs) s =
    collect_capped_from-tee_run hard_cap (ok u) fs (record_data hard_cap bytes s)
collect_capped_from-tee_run hard_cap (err e) (data_frame bytes ∷ fs) s =
    collect_capped_from-tee_run hard_cap (err e) fs (record_data hard_cap bytes s)
collect_capped_from-tee_run hard_cap (ok u) (trailers fields ∷ fs) s =
    collect_capped_from-tee_run hard_cap (ok u) fs s
collect_capped_from-tee_run hard_cap (err e) (trailers fields ∷ fs) s =
    collect_capped_from-tee_run hard_cap (err e) fs s

-- `collect_capped` ends in the state of a new `TeeBody` through which the same frames were polled; if
-- the body fails, the result is its error, whatever was read before.
pub collect_capped-tee_run :
    (hard_cap : ℕ) (body : Source)
    → collect_capped hard_cap body ≡ elim (body.failure) [
      | ok _ ↦ ok ((tee_run hard_cap (map ready (body.frames)) fresh).0)
      | err e ↦ err (body_read_error e)
    ]
unfolding collect_capped
collect_capped-tee_run hard_cap body =
    collect_capped_from-tee_run hard_cap (body.failure) (body.frames) fresh
