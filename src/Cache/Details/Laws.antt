-- ===== src/Cache/Details/Laws.antt =====
-- The lock protocol of details: the laws that every interleaving rests on.
use phyllonix.Base.{ℕ, ◌-◌, ◌≤◌, ◌≡◌, ◌≢◌, refl, Bool, true, false, Option, some, arith}
use phyllonix.Base.Double.{excess, half_even, round53}
use phyllonix.Cache.{CacheEntry, Keys, Phase, rounds, set_nx, release_lock}
use phyllonix.Cache.Details.{set_if_newer, set_product_cache_if_newer, details_step, detail_rounds}
use phyllonix.Cache.Protocol.{is_critical, polls_on, turns_left, Protocol}

abbrev pub detail_limit : ℕ
detail_limit = 121

-- The loop of polls ends after this many rounds.
pub detail_rounds_lem : detail_rounds ≡ some detail_limit
unfolding rounds round53 excess half_even
detail_rounds_lem = refl

details-acquires :
    (i : ℕ) (db : Option CacheEntry) (up ok : Bool) (k : Keys) (p : Phase)
    → (is_critical p ≡ true → k.lock ≡ some i)
    → is_critical (details_step i db up ok k p).0 ≡ true
    → (details_step i db up ok k p).1.lock ≡ some i
unfolding details_step set_nx release_lock set_product_cache_if_newer set_if_newer
details-acquires i db up ok k p own crit = ground (arith, detail_rounds_lem)

details-releases :
    (i : ℕ) (db : Option CacheEntry) (up : Bool) (k : Keys) (p : Phase)
    → (k.lock ≡ some i → is_critical p ≡ true)
    → (details_step i db up true k p).1.lock ≡ some i
    → is_critical (details_step i db up true k p).0 ≡ true
unfolding details_step set_nx release_lock set_product_cache_if_newer set_if_newer
details-releases i db up k p own mine = ground (arith, detail_rounds_lem)

details-leaves :
    (i j : ℕ) (db : Option CacheEntry) (up : Bool) (k : Keys) (p : Phase)
    → i ≢ j
    → (k.lock ≡ some j → (details_step i db up true k p).1.lock ≡ some j)
      × ((details_step i db up true k p).1.lock ≡ some j → k.lock ≡ some j)
unfolding details_step set_nx release_lock set_product_cache_if_newer set_if_newer
details-leaves i j db up k p other = ground (arith, detail_rounds_lem)

pub details-polling :
    (i : ℕ) (db : Option CacheEntry) (up ok : Bool) (k : Keys) (p : Phase)
    → polls_on p ≡ false
    → polls_on (details_step i db up ok k p).0 ≡ false
unfolding details_step set_nx release_lock set_product_cache_if_newer set_if_newer
details-polling i db up ok k p h = ground (arith, detail_rounds_lem)

details-progress :
    (i : ℕ) (db : Option CacheEntry) (up ok : Bool) (k : Keys) (p : Phase)
    → polls_on p ≡ false
    → turns_left detail_limit (details_step i db up ok k p).0 ≤ turns_left detail_limit p - 1
unfolding details_step set_nx release_lock set_product_cache_if_newer set_if_newer
details-progress i db up ok k p h = ground (arith, detail_rounds_lem)

pub details-Protocol : Protocol detail_limit details_step
details-Protocol = record {
  acquires = details-acquires;
  releases = details-releases;
  leaves = details-leaves;
  polling = details-polling;
  progress = details-progress;
}
