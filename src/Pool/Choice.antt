-- ===== src/Pool/Choice.antt =====
-- Which connection a checkout hands out.
use hamsy_proxy.Shared.{
  ℕ, zero, suc, ◌≡◌, refl, ap, sym, ◌∙◌, Bool, true, false, Option, none, some, List, [], ◌∷◌, any,
  filter, if◌then◌else◌, arith, ◌⊎◌, inl, inr, Bool-cases,
}
use hamsy_proxy.Proxy.Outbound.{HttpVersion, http1, http2}
use hamsy_proxy.Pool.{
  PoolKey, Sender, PooledConn, Network, Pool, keep, slots_free, has_capacity, rposition, last_index,
  at_index, chosen_index, handle_of, hand_over, select, checkout,
}

abbrev holds : (PooledConn → Bool) → Option PooledConn → Bool
holds p none = true
holds p (some x) = p x

passed :
    (p : PooledConn → Bool) (y x : PooledConn) (rest : List PooledConn) (b : Bool) (i : ℕ)
    → p y ≡ b
    → ((j : ℕ) → at_index j rest ≡ some x → p x ≡ true)
    → at_index i (if b then y ∷ rest else rest) ≡ some x
    → p x ≡ true
passed p y x rest true zero e below h = sym (ap (holds p) h) ∙ e
passed p y x rest true (suc i) e below h = below i h
passed p y x rest false i e below h = below i h

-- What an index of a filtered list finds passed the filter.
at_index-filter :
    (p : PooledConn → Bool) (xs : List PooledConn) (i : ℕ) (x : PooledConn)
    → at_index i (filter p xs) ≡ some x
    → p x ≡ true
at_index-filter p [] i x h = absurd (ground arith)
at_index-filter p (y ∷ ys) i x h =
    passed p y x (filter p ys) (p y) i refl (λ j e. at_index-filter p ys j x e) h

abbrev pred_of : Option ℕ → Option ℕ
pred_of none = none
pred_of (some zero) = none
pred_of (some (suc n)) = some n

rposition_step :
    (p : PooledConn → Bool) (y x : PooledConn) (ys : List PooledConn) (o : Option ℕ) (b : Bool)
    (i : ℕ)
    → p y ≡ b
    → ((j : ℕ) → o ≡ some j → at_index j ys ≡ some x → p x ≡ true)
    → elim o [ some j ↦ some (suc j) | none ↦ if b then some zero else none ] ≡ some i
    → at_index i (y ∷ ys) ≡ some x
    → p x ≡ true
rposition_step p y x ys (some j) b zero e below h at = absurd (ground arith)
rposition_step p y x ys (some j) b (suc i) e below h at = below i (ap pred_of h) at
rposition_step p y x ys none true zero e below h at = sym (ap (holds p) at) ∙ e
rposition_step p y x ys none true (suc i) e below h at = absurd (ground arith)
rposition_step p y x ys none false i e below h at = absurd (ground arith)

-- A position that is found holds what passes the test.
at_index-rposition :
    (p : PooledConn → Bool) (xs : List PooledConn) (i : ℕ) (x : PooledConn)
    → rposition p xs ≡ some i
    → at_index i xs ≡ some x
    → p x ≡ true
unfolding rposition
at_index-rposition p [] i x h = absurd (ground arith)
at_index-rposition p (y ∷ ys) i x h =
    rposition_step p y x ys (rposition p ys) (p y) i refl
      (λ j e at. at_index-rposition p ys j x e at) h

-- Where nothing is found, nothing passes the test.
any_of-rposition :
    (p : PooledConn → Bool) (xs : List PooledConn) → rposition p xs ≡ none → any p xs ≡ false
unfolding rposition
any_of-rposition p [] h = refl
any_of-rposition p (y ∷ ys) h = ground (arith, any_of-rposition p ys)

chosen-capacity :
    (p : PooledConn → Bool) (xs : List PooledConn) (o : Option ℕ) (i : ℕ) (x : PooledConn)
    → rposition p xs ≡ o
    → any p xs ≡ true
    → elim o [ some j ↦ some j | none ↦ last_index xs ] ≡ some i
    → at_index i xs ≡ some x
    → p x ≡ true
chosen-capacity p xs (some j) i x e h c at = at_index-rposition p xs i x (e ∙ c) at
chosen-capacity p xs none i x e h c at = absurd (ground (arith, any_of-rposition p xs e))

connection-handle_of :
    (kind : HttpVersion) (sender : Sender)
    → ((handle_of kind sender).connection ≡ sender.connection)
      × ((handle_of kind sender).h2_slots ≡ sender.h2_slots)
connection-handle_of http1 sender = (refl, refl)
connection-handle_of http2 sender = (refl, refl)

abbrev sender_or : Option Sender → Sender → Sender
sender_or none sender = sender
sender_or (some s) sender = s

-- The sender of what an index holds.
abbrev SenderAt : ℕ → List PooledConn → Sender → Type 0
SenderAt i bucket sender =
    (x : PooledConn) × (at_index i bucket ≡ some x)
    × (sender.connection ≡ x.sender.connection)
    × (sender.h2_slots ≡ x.sender.h2_slots)

handed-SenderAt :
    (net : Network) (i : ℕ) (bucket : List PooledConn) (p : Option PooledConn) (sender : Sender)
    → at_index i bucket ≡ p
    → (hand_over net i bucket p).1 ≡ some sender
    → SenderAt i bucket sender
unfolding hand_over
handed-SenderAt net i bucket none sender e h = absurd (ground arith)
handed-SenderAt net i bucket (some x) sender e h =
    let (connection, slots) = connection-handle_of (x.sender.kind) (x.sender) in
    (
      x,
      e,
      sym (ap (λ o. (sender_or o (x.sender)).connection) h) ∙ connection,
      sym (ap (λ o. (sender_or o (x.sender)).h2_slots) h) ∙ slots,
    )

selected-SenderAt :
    (net : Network) (bucket : List PooledConn) (o : Option ℕ) (sender : Sender)
    → (select net bucket o).1 ≡ some sender
    → (i : ℕ) × (o ≡ some i) × SenderAt i bucket sender
unfolding select
selected-SenderAt net bucket none sender h = absurd (ground arith)
selected-SenderAt net bucket (some i) sender h =
    (i, refl, handed-SenderAt net i bucket (at_index i bucket) sender refl h)

open_of_keep :
    (net : Network) (p : PooledConn)
    → keep net p ≡ true
    → net.is_closed (p.sender.connection) ≡ false
unfolding keep
open_of_keep net p h = ground arith

-- What a checkout hands out was open when it was chosen, and has room for a stream, unless no connection
-- that stays in the bucket has room.
pub checkout_choice :
    (net : Network) (key : PoolKey) (pool : Pool) (sender : Sender)
    → (checkout net key pool).1 ≡ some sender
    → (net.is_closed (sender.connection) ≡ false)
      × ((any (has_capacity net) (filter (keep net) (pool key)) ≡ false)
          ⊎ (slots_free net (sender.h2_slots) ≡ true))
unfolding checkout chosen_index
checkout_choice net key pool sender h =
    let bucket = filter (keep net) (pool key) in
    let (i, index, found) = selected-SenderAt net bucket (chosen_index net bucket) sender h in
    let (x, at, connection, slots) = found in
    (
      ap (net.is_closed) connection
          ∙ open_of_keep net x (at_index-filter (keep net) (pool key) i x at),
      elim (Bool-cases (any (has_capacity net) bucket)) [
        | inl room ↦ inr (
            ap (slots_free net) slots
            ∙ chosen-capacity (has_capacity net) bucket (rposition (has_capacity net) bucket) i x
                refl room index at)
        | inr full ↦ inl full
      ],
    )
