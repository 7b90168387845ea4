-- ===== src/Pool/Bounded.antt =====
-- No bucket of the pool grows beyond its cap.
use hamsy_proxy.Shared.{
  ℕ, zero, suc, ◌-◌, ◌≤◌, ◌≡◌, refl, ap, Bool, true, false, Option, none, some, List, [], ◌∷◌, ◌++◌,
  length, length-filter-le, filter, drop, map, if◌then◌else◌, arith,
}
use hamsy_proxy.Proxy.Outbound.{HttpVersion, http1, http2}
use hamsy_proxy.Pool.{
  PoolKey, Sender, PooledConn, Network, Pool, new, key_eq, put_bucket, keep, max_idle_per_key,
  swap_remove, but_last, change_at, at_index, touched, chosen_index, hand_out, hand_over, select,
  checkout, capped_bucket, checkin, share_h2, refreshed, release_as, release,
}

length-but_last : (x : PooledConn) (xs : List PooledConn) → length (but_last x xs) ≡ length xs
length-but_last x [] = refl
length-but_last x (y ∷ ys) = ap suc (length-but_last y ys)

length-swap_remove-le : (i : ℕ) (xs : List PooledConn) → length (swap_remove i xs) ≤ length xs
unfolding swap_remove
length-swap_remove-le i [] = omega arith
length-swap_remove-le zero (x ∷ []) = omega arith
length-swap_remove-le zero (x ∷ y ∷ ys) = omega (arith, length-but_last y ys)
length-swap_remove-le (suc i) (x ∷ xs) = omega (arith, length-swap_remove-le i xs)

length-change_at :
    (i : ℕ) (f : PooledConn → PooledConn) (xs : List PooledConn)
    → length (change_at i f xs) ≡ length xs
length-change_at i f [] = refl
length-change_at zero f (x ∷ xs) = refl
length-change_at (suc i) f (x ∷ xs) = ap suc (length-change_at i f xs)

length-drop : (n : ℕ) (xs : List PooledConn) → length (drop n xs) ≡ length xs - n
length-drop zero xs = omega arith
length-drop (suc n) [] = omega arith
length-drop (suc n) (x ∷ xs) = omega (arith, length-drop n xs)

length-hand_out-le :
    (net : Network) (i : ℕ) (kind : HttpVersion) (xs : List PooledConn)
    → length (hand_out net i kind xs) ≤ length xs
unfolding hand_out
length-hand_out-le net i http1 xs = length-swap_remove-le i xs
length-hand_out-le net i http2 xs = omega (arith, length-change_at i (touched net) xs)

length-capped_bucket-le :
    (bucket : List PooledConn) → length (capped_bucket bucket) ≤ max_idle_per_key
unfolding capped_bucket
length-capped_bucket-le bucket =
    ground (arith, length-drop (length bucket - max_idle_per_key) bucket)

-- Every bucket is within the cap.
abbrev pub IsBounded : Pool → Type 0
IsBounded pool = (key : PoolKey) → length (pool key) ≤ max_idle_per_key

put_bucket-IsBounded :
    (key : PoolKey) (bucket : List PooledConn) (pool : Pool)
    → length bucket ≤ max_idle_per_key
    → IsBounded pool
    → IsBounded (put_bucket key bucket pool)
put_bucket-IsBounded key bucket pool h b k = either (key_eq k key) bucket (pool k) h (b k)
  where
    either :
        (c : Bool) (xs ys : List PooledConn)
        → length xs ≤ max_idle_per_key
        → length ys ≤ max_idle_per_key
        → length (if c then xs else ys) ≤ max_idle_per_key
    either true xs ys h g = h
    either false xs ys h g = g

swept-le :
    (net : Network) (pool : Pool) (key : PoolKey)
    → IsBounded pool
    → length (filter (keep net) (pool key)) ≤ max_idle_per_key
swept-le net pool key b = omega (arith, b key, length-filter-le (keep net) (pool key))

checkin-IsBounded :
    (net : Network) (key : PoolKey) (sender : Sender) (pool : Pool)
    → IsBounded pool
    → IsBounded (checkin net key sender pool)
unfolding checkin
checkin-IsBounded net key sender pool b = unless (net.is_closed (sender.connection)) pool _ b (
    put_bucket-IsBounded key _ (λ k. filter (keep net) (pool k))
      (length-capped_bucket-le (
        filter (keep net) (pool key)
        ++ record { sender = record sender { pool_key = some key }; idle_since = net.now } ∷ []))
      (λ k. swept-le net pool k b))
  where
    unless : (c : Bool) (p q : Pool) → IsBounded p → IsBounded q → IsBounded (if c then p else q)
    unless true p q h g = h
    unless false p q h g = g

length-hand_over-le :
    (net : Network) (i : ℕ) (bucket : List PooledConn) (p : Option PooledConn)
    → length ((hand_over net i bucket p).0) ≤ length bucket
unfolding hand_over
length-hand_over-le net i bucket none = omega arith
length-hand_over-le net i bucket (some p) = length-hand_out-le net i (p.sender.kind) bucket

length-select-le :
    (net : Network) (bucket : List PooledConn) (o : Option ℕ)
    → length ((select net bucket o).0) ≤ length bucket
unfolding select
length-select-le net bucket none = omega arith
length-select-le net bucket (some i) = length-hand_over-le net i bucket (at_index i bucket)

checkout-IsBounded :
    (net : Network) (key : PoolKey) (pool : Pool)
    → IsBounded pool
    → IsBounded ((checkout net key pool).0)
unfolding checkout
checkout-IsBounded net key pool b =
    let bucket = filter (keep net) (pool key) in
    put_bucket-IsBounded key _ pool
      (omega
        (arith, length-select-le net bucket (chosen_index net bucket), swept-le net pool key b))
      b

share_h2-IsBounded :
    (net : Network) (key : PoolKey) (sender : Sender) (kind : HttpVersion) (pool : Pool)
    → IsBounded pool
    → IsBounded (elim kind [
      | http1 ↦ pool
      | http2 ↦ checkin net key (record sender { stream_permit = none }) pool
    ])
share_h2-IsBounded net key sender http1 pool b = b
share_h2-IsBounded net key sender http2 pool b =
    checkin-IsBounded net key (record sender { stream_permit = none }) pool b

length-map-refreshed :
    (net : Network) (sender : Sender) (xs : List PooledConn)
    → length (map (refreshed net sender) xs) ≡ length xs
length-map-refreshed net sender [] = refl
length-map-refreshed net sender (x ∷ xs) = ap suc (length-map-refreshed net sender xs)

release_as-IsBounded :
    (net : Network) (kind : HttpVersion) (o : Option PoolKey) (sender : Sender) (pool : Pool)
    → IsBounded pool
    → IsBounded (release_as net kind o sender pool)
unfolding release_as
release_as-IsBounded net kind none sender pool b = b
release_as-IsBounded net http2 (some key) sender pool b =
    put_bucket-IsBounded key _ pool
      (omega (arith, b key, length-map-refreshed net sender (pool key))) b
release_as-IsBounded net http1 (some key) sender pool b =
    checkin-IsBounded net key (record sender { pool_key = none }) pool b

-- The steps on a pool, each at an instant.
pub data Step : Pool → Pool → Type 0 where
  checks_out : (net : Network) (key : PoolKey) (pool : Pool) → Step pool ((checkout net key pool).0)
  checks_in :
      (net : Network) (key : PoolKey) (sender : Sender) (pool : Pool)
      → Step pool (checkin net key sender pool)
  shares :
      (net : Network) (key : PoolKey) (sender : Sender) (pool : Pool)
      → Step pool (share_h2 net key sender pool)
  releases : (net : Network) (sender : Sender) (pool : Pool) → Step pool (release net sender pool)

pub data Reach : Pool → Type 0 where
  start : Reach new
  next : {p q : Pool} → Reach p → Step p q → Reach q

Step-IsBounded : {p q : Pool} → Step p q → IsBounded p → IsBounded q
unfolding share_h2 release
Step-IsBounded (checks_out net key pool) b = checkout-IsBounded net key pool b
Step-IsBounded (checks_in net key sender pool) b = checkin-IsBounded net key sender pool b
Step-IsBounded (shares net key sender pool) b =
    share_h2-IsBounded net key sender (sender.kind) pool b
Step-IsBounded (releases net sender pool) b =
    release_as-IsBounded net (sender.kind) (sender.pool_key) sender pool b

-- In every pool that is reached from a new one, whatever the network does, each bucket has at most
-- eight connections.
pub Reach-IsBounded :
    {pool : Pool} → Reach pool → (key : PoolKey) → length (pool key) ≤ max_idle_per_key
Reach-IsBounded start key = omega arith
Reach-IsBounded (next r s) key = Step-IsBounded s (Reach-IsBounded r) key
