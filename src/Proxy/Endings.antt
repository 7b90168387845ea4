-- ===== src/Proxy/Endings.antt =====
-- Lists of changes that settle a flow, and what a test or a result selects.
use hamsy_proxy.Shared.{
  ℕ, zero, suc, ◌≡◌, ◌⊎◌, inl, inr, Bool, true, false, Option, none, some, List, [], ◌∷◌, ◌++◌,
  Result, ok, err,
}
use hamsy_proxy.Flow.{FlowState, Flow}
use hamsy_proxy.Proxy.Run.{woven}
use hamsy_proxy.Proxy.Stored.{apply_all}

module _ {ℓ} {R : Type ℓ} where
  -- A property of what a test or a result selects.
  pub of_Bool :
      (P : R → Type 0) (b : Bool) (x y : R) → P x → P y → P (elim b [ true ↦ x | false ↦ y ])
  of_Bool P true x y h k = h
  of_Bool P false x y h k = k

  pub of_Option {κ} :
      {A : Type κ} (P : R → Type 0) (o : Option A) (x : R) (k : A → R)
      → P x
      → ((a : A) → P (k a))
      → P (elim o [ none ↦ x | some a ↦ k a ])
  of_Option P none x k h g = h
  of_Option P (some a) x k h g = g a

  pub of_Result {κ κ'} :
      {A : Type κ} {E : Type κ'} (P : R → Type 0) (r : Result A E) (k : A → R) (l : E → R)
      → ((a : A) → P (k a))
      → ((e : E) → P (l e))
      → P (elim r [ ok a ↦ k a | err e ↦ l e ])
  of_Result P (ok a) k l h g = h a
  of_Result P (err e) k l h g = g e

module _ {F64 : Type 0} where
  abbrev pub IsSettled : Flow F64 → Type 0
  IsSettled flow =
      (flow.summary.state ≡ FlowState.complete) ⊎ (flow.summary.state ≡ FlowState.error)

  abbrev pub Settles : (Flow F64 → Flow F64) → Type 0
  Settles f = (flow : Flow F64) → IsSettled (f flow)

  abbrev pub AllKeep : List (Flow F64 → Flow F64) → Type 0
  AllKeep [] = Unit
  AllKeep (f ∷ fs) = ((flow : Flow F64) → IsSettled flow → IsSettled (f flow)) × AllKeep fs

  -- Some change settles the flow, and the ones behind it keep it settled.
  abbrev pub EndSettled : List (Flow F64 → Flow F64) → Type 0
  EndSettled [] = ⊥
  EndSettled (f ∷ fs) = EndSettled fs ⊎ (Settles f × AllKeep fs)

  apply_all-kept :
      (fs : List (Flow F64 → Flow F64)) (flow : Flow F64)
      → AllKeep fs
      → IsSettled flow
      → IsSettled (apply_all fs flow)
  apply_all-kept [] flow k h = h
  apply_all-kept (f ∷ fs) flow (k, ks) h = apply_all-kept fs (f flow) ks (k flow h)

  pub apply_all-IsSettled :
      (fs : List (Flow F64 → Flow F64)) (flow : Flow F64)
      → EndSettled fs
      → IsSettled (apply_all fs flow)
  apply_all-IsSettled [] flow h = absurd h
  apply_all-IsSettled (f ∷ fs) flow (inl h) = apply_all-IsSettled fs (f flow) h
  apply_all-IsSettled (f ∷ fs) flow (inr (s, k)) = apply_all-kept fs (f flow) k (s flow)

  pub append-EndSettled :
      (fs gs : List (Flow F64 → Flow F64)) → EndSettled gs → EndSettled (fs ++ gs)
  append-EndSettled [] gs h = h
  append-EndSettled (f ∷ fs) gs h = inl (append-EndSettled fs gs h)

  append-AllKeep :
      (fs gs : List (Flow F64 → Flow F64)) → AllKeep fs → AllKeep gs → AllKeep (fs ++ gs)
  append-AllKeep [] gs h k = k
  append-AllKeep (f ∷ fs) gs (h, hs) k = (h, append-AllKeep fs gs hs k)

  woven-AllKeep :
      (n : ℕ) (extra fs : List (Flow F64 → Flow F64))
      → AllKeep extra
      → AllKeep fs
      → AllKeep (woven n extra fs)
  unfolding woven
  woven-AllKeep zero extra fs h k = append-AllKeep extra fs h k
  woven-AllKeep (suc n) extra [] h k = h
  woven-AllKeep (suc n) extra (f ∷ fs) h (k, ks) = (k, woven-AllKeep n extra fs h ks)

  pub woven-EndSettled :
      (n : ℕ) (extra fs : List (Flow F64 → Flow F64))
      → AllKeep extra
      → EndSettled fs
      → EndSettled (woven n extra fs)
  unfolding woven
  woven-EndSettled zero extra fs h s = append-EndSettled extra fs s
  woven-EndSettled (suc n) extra [] h s = absurd s
  woven-EndSettled (suc n) extra (f ∷ fs) h (inl s) = inl (woven-EndSettled n extra fs h s)
  woven-EndSettled (suc n) extra (f ∷ fs) h (inr (s, k)) = inr (s, woven-AllKeep n extra fs h k)
