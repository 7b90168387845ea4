-- ===== src/BodyStream/Whole.antt =====
-- `collect_for_rules` gives the whole body or an error, never a part of it.
use mathlib.Core.List.{append-nil, append_assoc}
use hamsy_proxy.Shared.{
  ℕ, ◌≤◌, ltb, ◌≡◌, List, [], ◌∷◌, ◌++◌, length, length-append, Result, ok, err, if◌then◌else◌,
  arith,
}
use hamsy_proxy.Shared.Text.{Text}
use hamsy_proxy.BodyStream.{
  Frame, data_frame, trailers, Source, RulesBodyError, read_error, exceeds, body_read_error,
  collect_for_rules_from, collect_for_rules,
}
use hamsy_proxy.BodyStream.Capture.{all_data}

-- Independent of the loop: the data as a whole is measured against the cap.
unfoldable pub whole_or_error : ℕ → Source → Result (List ℕ) RulesBodyError
whole_or_error hard_cap body =
    if ltb hard_cap (length (all_data (body.frames)))
    then err (exceeds hard_cap)
    else elim (body.failure) [
      | ok _ ↦ ok (all_data (body.frames))
      | err e ↦ err (read_error (body_read_error e))
    ]

collect_from-whole :
    (hard_cap : ℕ) (last : Result (Unit {0}) Text) (fs : List Frame) (buf : List ℕ)
    → length buf ≤ hard_cap
    → collect_for_rules_from hard_cap last fs buf ≡ (
        if ltb hard_cap (length (buf ++ all_data fs)) then err (exceeds hard_cap) else elim last [
          | ok _ ↦ ok (buf ++ all_data fs)
          | err e ↦ err (read_error (body_read_error e))
        ])
unfolding collect_for_rules_from
collect_from-whole hard_cap (ok u) [] buf h = ground (arith, append-nil buf)
collect_from-whole hard_cap (err e) [] buf h = ground (arith, append-nil buf)
collect_from-whole hard_cap (ok u) (trailers fields ∷ fs) buf h =
    collect_from-whole hard_cap (ok u) fs buf h
collect_from-whole hard_cap (ok u) (data_frame bytes ∷ fs) buf h = ground (
  arith,
  collect_from-whole hard_cap (ok u) fs (buf ++ bytes),
  append_assoc buf bytes (all_data fs),
  length-append buf (bytes ++ all_data fs),
  length-append bytes (all_data fs),
  length-append buf bytes,
)
collect_from-whole hard_cap (err e) (trailers fields ∷ fs) buf h =
    collect_from-whole hard_cap (err e) fs buf h
collect_from-whole hard_cap (err e) (data_frame bytes ∷ fs) buf h = ground (
  arith,
  collect_from-whole hard_cap (err e) fs (buf ++ bytes),
  append_assoc buf bytes (all_data fs),
  length-append buf (bytes ++ all_data fs),
  length-append bytes (all_data fs),
  length-append buf bytes,
)

-- `collect_for_rules` is, for every way to cut a body into frames, the same as measuring the whole
-- data first: the error about the limit if the data is longer than the cap, even where the body
-- fails later; else the error of the body, if it fails; else the whole data.
pub collect_for_rules-whole :
    (hard_cap : ℕ) (body : Source) → collect_for_rules hard_cap body ≡ whole_or_error hard_cap body
unfolding collect_for_rules whole_or_error
collect_for_rules-whole hard_cap body =
    collect_from-whole hard_cap (body.failure) (body.frames) [] (omega arith)
