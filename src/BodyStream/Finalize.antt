-- ===== src/BodyStream/Finalize.antt =====
-- `FinalizeBody`: the callback of a body that ends or is dropped.
use hamsy_proxy.Shared.{
  ◌≡◌, refl, Bool, true, false, List, [], ◌∷◌, Option, none, some, arith, if◌then◌else◌,
}
use hamsy_proxy.BodyStream.{Poll, pending, end, ready, failed}

abbrev pub ends : List Poll → Bool
ends [] = false
ends (end ∷ ps) = true
ends (pending ∷ ps) = ends ps
ends (ready f ∷ ps) = ends ps
ends (failed e ∷ ps) = ends ps

-- `on_done`, on the world that the callback changes, and that world.
pub record FinalizeBody {ℓ} (W : Type ℓ) : Type ℓ where
  pub on_done : Option (W → W)
  pub world : W

module _ {ℓ} {W : Type ℓ} where
  abbrev pub new : (W → W) → W → FinalizeBody W
  new on_done world = record { on_done = some on_done; world = world }

  -- `if let Some(f) = self.on_done.take() { f(); }`
  unfoldable pub take_and_run : FinalizeBody W → FinalizeBody W
  take_and_run b = elim (b.on_done) [
    | none ↦ b
    | some f ↦ record { on_done = none; world = f (b.world) }
  ]

  -- `poll_frame`, at an answer of the inner body.
  unfoldable pub finalize_poll : Poll → FinalizeBody W → FinalizeBody W × Poll
  unfolding take_and_run
  finalize_poll end b = (take_and_run b, end)
  finalize_poll pending b = (b, pending)
  finalize_poll (ready f) b = (b, ready f)
  finalize_poll (failed e) b = (b, failed e)

  -- `Drop::drop`
  unfoldable pub finalize_drop : FinalizeBody W → FinalizeBody W
  unfolding take_and_run
  finalize_drop b = take_and_run b

  -- The life of a body: it is polled, then dropped.
  unfoldable pub polls : List Poll → FinalizeBody W → FinalizeBody W
  unfolding finalize_poll
  polls [] b = b
  polls (p ∷ ps) b = polls ps ((finalize_poll p b).0)

  unfoldable pub life : List Poll → FinalizeBody W → FinalizeBody W
  unfolding polls finalize_drop
  life ps b = finalize_drop (polls ps b)

  polls_done : (ps : List Poll) (b : FinalizeBody W) → b.on_done ≡ none → polls ps b ≡ b
  unfolding polls finalize_poll take_and_run
  polls_done [] b h = refl
  polls_done (end ∷ ps) b h = ground (arith, polls_done ps b h)
  polls_done (pending ∷ ps) b h = polls_done ps b h
  polls_done (ready f ∷ ps) b h = polls_done ps b h
  polls_done (failed e ∷ ps) b h = polls_done ps b h

  -- The callback has run exactly when the body has ended, and then once.
  polls-new :
      (f : W → W) (w : W) (ps : List Poll)
      → polls ps (new f w) ≡ (if ends ps then record { on_done = none; world = f w } else new f w)
  unfolding polls finalize_poll take_and_run
  polls-new f w [] = refl
  polls-new f w (end ∷ ps) = polls_done ps _ refl
  polls-new f w (pending ∷ ps) = polls-new f w ps
  polls-new f w (ready x ∷ ps) = polls-new f w ps
  polls-new f w (failed e ∷ ps) = polls-new f w ps

  -- Over the whole life of a new body, that is any polls and then the drop, the callback runs exactly
  -- once: whether the body ended, failed, was cut off, or was polled again after its end.
  pub life-once :
      (f : W → W) (w : W) (ps : List Poll)
      → life ps (new f w) ≡ record { on_done = none; world = f w }
  unfolding life finalize_drop take_and_run
  life-once f w ps = ground (arith, polls-new f w ps)
