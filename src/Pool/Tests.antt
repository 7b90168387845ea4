-- ===== src/Pool/Tests.antt =====
-- A pool of two HTTP/2 connections, the last of which has no room for a stream.
use hamsy_proxy.Shared.{
  ℕ, ◌==◌, ◌≡◌, ◌≤◌, refl, true, false, none, some, any, filter, length, ◌⊎◌, if◌then◌else◌,
}
use hamsy_proxy.Shared.Text.{text}
use hamsy_proxy.Proxy.Outbound.{http2}
use hamsy_proxy.Pool.{
  PoolKey, Sender, Network, Pool, new, keep, slots_free, has_capacity, checkin, checkout,
  max_idle_per_key,
}
use hamsy_proxy.Pool.Bounded.{start, next, checks_in, Reach-IsBounded}
use hamsy_proxy.Pool.Choice.{checkout_choice}

abbrev site : PoolKey
site = record { https = true; host = text "h"; port = 443; mirror_h2 = true; upstream_proxy = none }

abbrev sender : ℕ → Sender
sender n = record {
  kind = http2;
  connection = n;
  addr = text "a";
  pool_key = none;
  h2_slots = some n;
  stream_permit = none;
}

abbrev net : Network
net = record { now = 5; is_closed = λ c. false; available_permits = λ s. if s == 2 then 0 else 100 }

abbrev two : Pool
two = checkin net site (sender 2) (checkin net site (sender 1) new)

abbrev handed : Sender
handed = record (sender 1) { pool_key = some site }

Reach-IsBounded_example : length (two site) ≤ max_idle_per_key
Reach-IsBounded_example =
    Reach-IsBounded
      (next (next start (checks_in net site (sender 1) new))
        (checks_in net site (sender 2) (checkin net site (sender 1) new)))
      site

checkout_choice_example :
    (net.is_closed 1 ≡ false)
    × ((any (has_capacity net) (filter (keep net) (two site)) ≡ false)
        ⊎ (slots_free net (some 1) ≡ true))
unfolding checkout checkin
checkout_choice_example = checkout_choice net site two handed refl
