-- ===== src/Pool.antt =====
-- crates/hamsy-proxy/src/upstream.rs, `Pool` and `Connector::release`: the idle and shared connections upstream. A connection and
-- a semaphore are numbers; what they answer at an instant is a `Network`. Instants count nanoseconds. A key
-- without a bucket and one with an empty bucket behave alike, so that the map is a function.
pub mod Bounded
pub mod Choice
pub mod Tests
use hamsy_proxy.Shared.{
  ℕ, zero, suc, ◌-◌, ◌*◌, ◌==◌, leb, ltb, Bool, true, false, not, Option, none, some, List, [], ◌∷◌,
  ◌++◌, ◌&&◌, ◌||◌, filter, length, drop, is_some, map, if◌then◌else◌,
}
use hamsy_proxy.Shared.Text.{Text, text_eq}
use hamsy_proxy.Proxy.Outbound.{HttpVersion, http1, http2}

abbrev pub idle_timeout : ℕ
idle_timeout = 90 * 1000 * 1000 * 1000

abbrev pub max_idle_per_key : ℕ
max_idle_per_key = 8

abbrev pub max_h2_streams : ℕ
max_h2_streams = 100

pub record PoolKey : Type 0 where
  pub https : Bool
  pub host : Text
  pub port : ℕ
  pub mirror_h2 : Bool
  pub upstream_proxy : Option Text

pub record Sender : Type 0 where
  pub kind : HttpVersion
  pub connection : ℕ
  pub addr : Text
  pub pool_key : Option PoolKey
  pub h2_slots : Option ℕ
  pub stream_permit : Option ℕ

pub record PooledConn : Type 0 where
  pub sender : Sender
  pub idle_since : ℕ

-- What connections and semaphores answer at an instant.
pub record Network : Type 0 where
  pub now : ℕ
  pub is_closed : ℕ → Bool
  pub available_permits : ℕ → ℕ

abbrev pub Pool : Type 0
Pool = PoolKey → List PooledConn

-- `Pool::new`
abbrev pub new : Pool
new key = []

abbrev bool_eq : Bool → Bool → Bool
bool_eq true b = b
bool_eq false b = not b

abbrev option_eq : Option Text → Option Text → Bool
option_eq none none = true
option_eq none (some b) = false
option_eq (some a) none = false
option_eq (some a) (some b) = text_eq a b

-- The derived `PartialEq`.
unfoldable pub key_eq : PoolKey → PoolKey → Bool
unfolding text_eq
key_eq a b =
    bool_eq (a.https) (b.https)
    && text_eq (a.host) (b.host)
    && (a.port == b.port)
    && bool_eq (a.mirror_h2) (b.mirror_h2)
    && option_eq (a.upstream_proxy) (b.upstream_proxy)

abbrev pub put_bucket : PoolKey → List PooledConn → Pool → Pool
put_bucket key bucket pool k = if key_eq k key then bucket else pool k

-- `is_some_and(|s| s.available_permits() < MAX_H2_STREAMS)`
abbrev in_use : Network → Option ℕ → Bool
in_use net none = false
in_use net (some slots) = ltb (net.available_permits slots) max_h2_streams

-- Whether a connection stays in its bucket.
unfoldable pub keep : Network → PooledConn → Bool
keep net p =
    not (net.is_closed (p.sender.connection))
    && (in_use net (p.sender.h2_slots) || leb (net.now - p.idle_since) idle_timeout)

-- `is_none_or(|slots| slots.available_permits() > 0)`
abbrev pub slots_free : Network → Option ℕ → Bool
slots_free net none = true
slots_free net (some slots) = ltb 0 (net.available_permits slots)

abbrev pub has_capacity : Network → PooledConn → Bool
has_capacity net p = slots_free net (p.sender.h2_slots)

module _ {ℓ} {A : Type ℓ} where
  -- `iter().rposition(p)`
  unfoldable pub rposition : (A → Bool) → List A → Option ℕ
  rposition p [] = none
  rposition p (x ∷ xs) = elim (rposition p xs) [
    | some i ↦ some (suc i)
    | none ↦ if p x then some zero else none
  ]

  -- `bucket.len().checked_sub(1)`
  abbrev pub last_index : List A → Option ℕ
  last_index [] = none
  last_index (x ∷ xs) = some (length xs)

  abbrev last_or : A → List A → A
  last_or x [] = x
  last_or x (y ∷ ys) = last_or y ys

  abbrev but_last : A → List A → List A
  but_last x [] = []
  but_last x (y ∷ ys) = x ∷ but_last y ys

  -- `Vec::swap_remove`, without what it returns
  unfoldable pub swap_remove : ℕ → List A → List A
  swap_remove n [] = []
  swap_remove zero (x ∷ []) = []
  swap_remove zero (x ∷ y ∷ ys) = last_or y ys ∷ but_last y ys
  swap_remove (suc n) (x ∷ xs) = x ∷ swap_remove n xs

  abbrev pub at_index : ℕ → List A → Option A
  at_index n [] = none
  at_index zero (x ∷ xs) = some x
  at_index (suc n) (x ∷ xs) = at_index n xs

  abbrev pub change_at : ℕ → (A → A) → List A → List A
  change_at n f [] = []
  change_at zero f (x ∷ xs) = f x ∷ xs
  change_at (suc n) f (x ∷ xs) = x ∷ change_at n f xs

-- The index that `checkout` chooses in a swept bucket.
unfoldable pub chosen_index : Network → List PooledConn → Option ℕ
unfolding rposition
chosen_index net bucket = elim (rposition (has_capacity net) bucket) [
  | some i ↦ some i
  | none ↦ last_index bucket
]

abbrev touched : Network → PooledConn → PooledConn
touched net p = record p { idle_since = net.now }

-- The bucket behind a checkout of the connection at an index, and the sender that is handed out.
unfoldable pub hand_out : Network → ℕ → HttpVersion → List PooledConn → List PooledConn
unfolding swap_remove
hand_out net i http2 bucket = change_at i (touched net) bucket
hand_out net i http1 bucket = swap_remove i bucket

abbrev pub handle_of : HttpVersion → Sender → Sender
handle_of http1 sender = sender
handle_of http2 sender = record sender { stream_permit = none }

-- The bucket and the sender behind the choice of an index.
unfoldable pub hand_over :
    Network → ℕ → List PooledConn → Option PooledConn → List PooledConn × Option Sender
unfolding hand_out
hand_over net i bucket none = (bucket, none)
hand_over net i bucket (some pooled) = (
  hand_out net i (pooled.sender.kind) bucket,
  some (handle_of (pooled.sender.kind) (pooled.sender)),
)

unfoldable pub select : Network → List PooledConn → Option ℕ → List PooledConn × Option Sender
unfolding hand_over
select net bucket none = (bucket, none)
select net bucket (some i) = hand_over net i bucket (at_index i bucket)

-- `checkout` under the lock of the pool.
unfoldable pub checkout : Network → PoolKey → Pool → Pool × Option Sender
unfolding keep chosen_index select key_eq
checkout net key pool =
    let bucket = filter (keep net) (pool key) in
    let selected = select net bucket (chosen_index net bucket) in
    (put_bucket key (selected.0) pool, selected.1)

-- The end of `checkout`: a permit is waited for; the semaphore may be closed meanwhile, or the connection.
unfoldable pub with_permit : Bool → Network → Sender → Option Sender
with_permit acquired later sender = elim (sender.h2_slots) [
  | none ↦ some sender
  | some slots ↦
      if acquired
      then if later.is_closed (sender.connection)
        then none
        else some (record sender { stream_permit = some slots })
      else none
]

-- The last connections of a bucket, as many as it may have.
unfoldable pub capped_bucket : List PooledConn → List PooledConn
capped_bucket bucket =
    if ltb max_idle_per_key (length bucket)
    then drop (length bucket - max_idle_per_key) bucket
    else bucket

unfoldable pub checkin : Network → PoolKey → Sender → Pool → Pool
unfolding keep capped_bucket key_eq
checkin net key sender pool =
    if net.is_closed (sender.connection)
    then pool
    else let swept : Pool = λ k. filter (keep net) (pool k) in
      put_bucket key
        (capped_bucket (
          swept key
          ++ record { sender = record sender { pool_key = some key }; idle_since = net.now } ∷ []))
        swept

unfoldable pub share_h2 : Network → PoolKey → Sender → Pool → Pool
unfolding checkin
share_h2 net key sender pool = elim (sender.kind) [
  | http1 ↦ pool
  | http2 ↦ checkin net key (record sender { stream_permit = none }) pool
]

abbrev same_slots : Option ℕ → Option ℕ → Bool
same_slots none b = false
same_slots (some a) none = false
same_slots (some a) (some b) = a == b

-- The shared handle of a connection that was used, marked as used now.
abbrev pub refreshed : Network → Sender → PooledConn → PooledConn
refreshed net sender p =
    if same_slots (p.sender.h2_slots) (sender.h2_slots) then touched net p else p

-- `Connector::release`, at the kind of the sender and its key.
unfoldable pub release_as : Network → HttpVersion → Option PoolKey → Sender → Pool → Pool
unfolding checkin key_eq
release_as net kind none sender pool = pool
release_as net http2 (some key) sender pool =
    put_bucket key (map (refreshed net sender) (pool key)) pool
release_as net http1 (some key) sender pool =
    checkin net key (record sender { pool_key = none }) pool

unfoldable pub release : Network → Sender → Pool → Pool
unfolding release_as
release net sender pool = release_as net (sender.kind) (sender.pool_key) sender pool
