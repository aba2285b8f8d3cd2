-- ===== src/Cache.antt =====
-- backend/cache: what the two read-through caches share. A request is a task that meets the
-- others between its Redis commands; a task's phase says which command or query it does next. A
-- command that fails has changed nothing.
pub mod Details
pub mod Listings
pub mod Protocol
pub mod Uncached
pub mod Answers
use phyllonix.Base.{
  ℕ, zero, suc, ◌+◌, ◌*◌, ◌^◌, Bool, true, false, Option, none, some, ltb, ◌==◌, if◌then◌else◌,
}
use phyllonix.Base.Double.{round53}

-- A product or a page as the loader read it: its content and the second it was last updated at.
pub record CacheEntry : Type 0 where
  pub payload : ℕ
  pub updated_at : ℕ

-- What Redis holds under a cache key, its `:ver` and its `:lock`.
pub record Keys : Type 0 where
  pub value : Option CacheEntry
  pub ver : Option ℕ
  pub lock : Option ℕ

-- What the function returns or raises: bytes of the cache (none is Python's None), the loaded entry,
-- the loader's HTTPException, or a RedisError.
pub data CacheReply : Type 0 where
  cached : Option CacheEntry → CacheReply
  loaded : CacheEntry → CacheReply
  raised : ℕ → CacheReply
  redis_error : CacheReply

pub data Phase : Type 0 where
  reading trying checking loading fallback : Phase
  storing storing_alone : CacheEntry → Phase
  releasing replied : CacheReply → Phase
  waiting : ℕ → Phase
  polling_on : Phase

-- The rounds of `while waited < timeout` with `waited += 0.05` in doubles, in units of 2 ^ -57, of
-- which 0.05 has 7205759403792794; none if the loop has not ended after `fuel` rounds.
unfoldable pub rounds : ℕ → ℕ → ℕ → Option ℕ
rounds zero waited timeout = if ltb waited (timeout * 2 ^ 57) then none else some 0
rounds (suc fuel) waited timeout = elim (ltb waited (timeout * 2 ^ 57)) [
  | true ↦ elim (rounds fuel (round53 (waited + 7205759403792794)) timeout) [
    | none ↦ none
    | some n ↦ some (suc n)
  ]
  | false ↦ some 0
]

-- The phase in which a request polls this often; a loop that does not end polls on and on.
abbrev pub waiting_for : Option ℕ → Phase
waiting_for none = polling_on
waiting_for (some n) = waiting n

-- SET lock_key token NX
unfoldable pub set_nx : ℕ → Keys → Bool × Keys
set_nx token k = elim k.lock [ none ↦ (true, record k { lock = some token }) | some t ↦ (false, k) ]

-- The script deletes the key if it holds this token; when EVAL fails, the key is deleted anyway,
-- unless that fails too.
unfoldable pub release_lock : Bool → Bool → ℕ → Keys → Keys
release_lock up true token k = elim k.lock [
  | none ↦ k
  | some t ↦ if t == token then record k { lock = none } else k
]
release_lock true false token k = record k { lock = none }
release_lock false false token k = k
