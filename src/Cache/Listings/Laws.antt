-- ===== src/Cache/Listings/Laws.antt =====
-- The lock protocol of listings: the laws that every interleaving rests on.
use phyllonix.Base.{ℕ, ◌-◌, ◌≤◌, ◌≡◌, ◌≢◌, refl, Bool, true, false, Option, some, arith}
use phyllonix.Base.Double.{excess, half_even, round53}
use phyllonix.Cache.{CacheEntry, Keys, Phase, rounds, set_nx, release_lock}
use phyllonix.Cache.Listings.{set_bytes, listings_step, listing_rounds}
use phyllonix.Cache.Protocol.{is_critical, polls_on, turns_left, Protocol}

abbrev pub listing_limit : ℕ
listing_limit = 181

-- The loop of polls ends after this many rounds.
pub listing_rounds_lem : listing_rounds ≡ some listing_limit
unfolding rounds round53 excess half_even
listing_rounds_lem = refl

listings-acquires :
    (i : ℕ) (db : Option CacheEntry) (up ok : Bool) (k : Keys) (p : Phase)
    → (is_critical p ≡ true → k.lock ≡ some i)
    → is_critical (listings_step i db up ok k p).0 ≡ true
    → (listings_step i db up ok k p).1.lock ≡ some i
unfolding listings_step set_nx release_lock set_bytes
listings-acquires i db up ok k p own crit = ground (arith, listing_rounds_lem)

listings-releases :
    (i : ℕ) (db : Option CacheEntry) (up : Bool) (k : Keys) (p : Phase)
    → (k.lock ≡ some i → is_critical p ≡ true)
    → (listings_step i db up true k p).1.lock ≡ some i
    → is_critical (listings_step i db up true k p).0 ≡ true
unfolding listings_step set_nx release_lock set_bytes
listings-releases i db up k p own mine = ground (arith, listing_rounds_lem)

listings-leaves :
    (i j : ℕ) (db : Option CacheEntry) (up : Bool) (k : Keys) (p : Phase)
    → i ≢ j
    → (k.lock ≡ some j → (listings_step i db up true k p).1.lock ≡ some j)
      × ((listings_step i db up true k p).1.lock ≡ some j → k.lock ≡ some j)
unfolding listings_step set_nx release_lock set_bytes
listings-leaves i j db up k p other = ground (arith, listing_rounds_lem)

pub listings-polling :
    (i : ℕ) (db : Option CacheEntry) (up ok : Bool) (k : Keys) (p : Phase)
    → polls_on p ≡ false
    → polls_on (listings_step i db up ok k p).0 ≡ false
unfolding listings_step set_nx release_lock set_bytes
listings-polling i db up ok k p h = ground (arith, listing_rounds_lem)

listings-progress :
    (i : ℕ) (db : Option CacheEntry) (up ok : Bool) (k : Keys) (p : Phase)
    → polls_on p ≡ false
    → turns_left listing_limit (listings_step i db up ok k p).0 ≤ turns_left listing_limit p - 1
unfolding listings_step set_nx release_lock set_bytes
listings-progress i db up ok k p h = ground (arith, listing_rounds_lem)

pub listings-Protocol : Protocol listing_limit listings_step
listings-Protocol = record {
  acquires = listings-acquires;
  releases = listings-releases;
  leaves = listings-leaves;
  polling = listings-polling;
  progress = listings-progress;
}
