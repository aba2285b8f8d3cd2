-- ===== src/Cache/Listings.antt =====
-- cache/cache_get_n_set.py: cache_get_or_set_product_listings in its mode "wait", the only one that
-- the routes use. A failing SET is caught, a failing GET or SET NX is not.
pub mod Laws
use phyllonix.Base.{ℕ, zero, suc, Bool, true, false, Option, none, some, if◌then◌else◌}
use phyllonix.Cache.{
  CacheEntry, Keys, CacheReply, cached, loaded, raised, redis_error, Phase, reading, trying,
  checking, loading, fallback, storing, storing_alone, releasing, replied, waiting, polling_on,
  rounds, waiting_for, set_nx, release_lock,
}

unfoldable pub set_bytes : Bool → CacheEntry → Keys → Keys
set_bytes true e k = record k { value = some e }
set_bytes false e k = k

-- lock_timeout + 1 seconds
abbrev pub listing_rounds : Option ℕ
listing_rounds = rounds 300 0 9

-- The next command of a request; `up` and `eval_ok` are as for the details.
unfoldable pub listings_step : ℕ → Option CacheEntry → Bool → Bool → Keys → Phase → Phase × Keys
unfolding set_nx release_lock set_bytes
listings_step token db up eval_ok k reading = elim up [
  | false ↦ (replied redis_error, k)
  | true ↦ elim k.value [ some e ↦ (replied (cached (some e)), k) | none ↦ (trying, k) ]
]
listings_step token db up eval_ok k trying = elim up [
  | false ↦ (replied redis_error, k)
  | true ↦
      let (locked, k') = set_nx token k in
      if locked then (checking, k') else (waiting_for listing_rounds, k')
]
listings_step token db up eval_ok k checking = elim up [
  | false ↦ (releasing redis_error, k)
  | true ↦ elim k.value [ some e ↦ (releasing (cached (some e)), k) | none ↦ (loading, k) ]
]
listings_step token db up eval_ok k loading = elim db [
  | none ↦ (releasing (raised 500), k)
  | some e ↦ (storing e, k)
]
listings_step token db up eval_ok k (storing e) = (releasing (loaded e), set_bytes up e k)
listings_step token db up eval_ok k (releasing r) = (replied r, release_lock up eval_ok token k)
listings_step token db up eval_ok k (waiting zero) = (fallback, k)
listings_step token db up eval_ok k (waiting (suc n)) = elim up [
  | false ↦ (replied redis_error, k)
  | true ↦ elim k.value [ some e ↦ (replied (cached (some e)), k) | none ↦ (waiting n, k) ]
]
listings_step token db up eval_ok k polling_on = elim up [
  | false ↦ (replied redis_error, k)
  | true ↦ elim k.value [ some e ↦ (replied (cached (some e)), k) | none ↦ (polling_on, k) ]
]
listings_step token db up eval_ok k fallback = elim db [
  | none ↦ (replied (raised 500), k)
  | some e ↦ (storing_alone e, k)
]
listings_step token db up eval_ok k (storing_alone e) = (replied (loaded e), set_bytes up e k)
listings_step token db up eval_ok k (replied r) = (replied r, k)
