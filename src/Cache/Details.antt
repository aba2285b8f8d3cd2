-- ===== src/Cache/Details.antt =====
-- cache/cache_prod_details.py: cache_get_n_set_product_details and set_product_cache_if_newer.
-- `deserialize` returns its argument, so its except branches never run.
pub mod Laws
use phyllonix.Base.{ℕ, zero, suc, Bool, true, false, ◌&&◌, Option, none, some, leb, if◌then◌else◌}
use phyllonix.Cache.{
  CacheEntry, Keys, CacheReply, cached, loaded, raised, redis_error, Phase, reading, trying,
  checking, loading, fallback, storing, storing_alone, releasing, replied, waiting, polling_on,
  rounds, waiting_for, set_nx, release_lock,
}

-- `if not cur then cur = "0"`
abbrev pub version_or_zero : Option ℕ → ℕ
version_or_zero none = 0
version_or_zero (some v) = v

-- _SET_IF_NEWER_LUA
unfoldable pub set_if_newer : CacheEntry → Keys → Keys
set_if_newer e k =
    if leb (version_or_zero k.ver) e.updated_at
    then record k { value = some e; ver = some e.updated_at }
    else k

-- What Python values a command's argument can be here.
pub data Argument : Type 0 where
  bytes dict : Argument

-- redis-py sends bytes, and raises a DataError for a dict.
abbrev pub is_encodable : Argument → Bool
is_encodable bytes = true
is_encodable dict = false

-- `success_payload = build_success(data)`
abbrev pub success_payload : Argument
success_payload = dict

-- What EVAL raises is caught.
unfoldable pub set_product_cache_if_newer : Bool → CacheEntry → Keys → Keys
unfolding set_if_newer
set_product_cache_if_newer up e k =
    if is_encodable success_payload && up then set_if_newer e k else k

abbrev pub detail_rounds : Option ℕ
detail_rounds = rounds 200 0 6

-- The next command of a request with this token, over what the database has of the product; `up`
-- says whether Redis answers it, `eval_ok` whether it answers the EVAL that gives the lock back.
unfoldable pub details_step : ℕ → Option CacheEntry → Bool → Bool → Keys → Phase → Phase × Keys
unfolding set_nx release_lock set_product_cache_if_newer
details_step token db up eval_ok k reading = elim up [
  | false ↦ (replied redis_error, k)
  | true ↦ elim k.value [ some e ↦ (replied (cached (some e)), k) | none ↦ (trying, k) ]
]
details_step token db up eval_ok k trying = elim up [
  | false ↦ (replied redis_error, k)
  | true ↦
      let (locked, k') = set_nx token k in
      if locked then (checking, k') else (waiting_for detail_rounds, k')
]
-- `return deserialize(raw)`, the None of the first GET
details_step token db up eval_ok k checking = elim up [
  | false ↦ (releasing redis_error, k)
  | true ↦ elim k.value [ some e ↦ (releasing (cached none), k) | none ↦ (loading, k) ]
]
details_step token db up eval_ok k loading = elim db [
  | none ↦ (releasing (raised 404), k)
  | some e ↦ (storing e, k)
]
details_step token db up eval_ok k (storing e) =
    (releasing (loaded e), set_product_cache_if_newer up e k)
details_step token db up eval_ok k (releasing r) = (replied r, release_lock up eval_ok token k)
details_step token db up eval_ok k (waiting zero) = (fallback, k)
details_step token db up eval_ok k (waiting (suc n)) = elim up [
  | false ↦ (replied redis_error, k)
  | true ↦ elim k.value [ some e ↦ (replied (cached (some e)), k) | none ↦ (waiting n, k) ]
]
details_step token db up eval_ok k polling_on = elim up [
  | false ↦ (replied redis_error, k)
  | true ↦ elim k.value [ some e ↦ (replied (cached (some e)), k) | none ↦ (polling_on, k) ]
]
details_step token db up eval_ok k fallback = elim db [
  | none ↦ (replied (raised 404), k)
  | some e ↦ (storing_alone e, k)
]
details_step token db up eval_ok k (storing_alone e) =
    (replied (loaded e), set_product_cache_if_newer up e k)
details_step token db up eval_ok k (replied r) = (replied r, k)
