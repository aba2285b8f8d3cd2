-- ===== src/RateLimit.antt =====
-- backend/rate_limiting: the fixed window, redis_allow of rate_limit_fixed_window.py, the script
-- LUA_FIXED_WINDOW_INCR_AND_PEXPIRE of lua_scripts.py and _ensure_lua_loaded of utils.py. Redis
-- runs a script alone; a key whose expiry has passed is gone. Times are in milliseconds, and the
-- clocks of Redis and the process agree.
use phyllonix.Base.{
  ℕ, suc, ◌+◌, ◌-◌, ◌*◌, ◌/◌, ◌<◌, ◌≡◌, refl, Bool, true, false, Option, none, some, List, [], ◌∷◌,
  ltb, leb, if◌then◌else◌, min, length, All, arith,
}

-- A counter key with its time to live, if it has one.
pub record Counter : Type 0 where
  pub count : ℕ
  pub expires_at : Option ℕ

-- What Redis still has of a key.
unfoldable pub alive : ℕ → Option Counter → Option Counter
alive now none = none
alive now (some c) = elim c.expires_at [
  | none ↦ some c
  | some e ↦ if ltb now e then some c else none
]

pub record ScriptReply : Type 0 where
  pub counter : ℕ
  pub ttl : ℕ

abbrev pub bumped : ℕ → ℕ → Option Counter → Counter
bumped now pexpire_ms none = record { count = 1; expires_at = some (now + pexpire_ms) }
bumped now pexpire_ms (some c) = elim c.expires_at [
  | none ↦ record { count = c.count + 1; expires_at = some (now + pexpire_ms) }
  | some e ↦ record { count = c.count + 1; expires_at = some e }
]

abbrev ttl_of : ℕ → Counter → ℕ
ttl_of now c = elim c.expires_at [ none ↦ 0 | some e ↦ e - now ]

-- INCR; PEXPIRE for a new key or one without a time to live; PTTL
unfoldable pub incr_and_pexpire : ℕ → ℕ → Option Counter → ScriptReply × Option Counter
unfolding alive
incr_and_pexpire now pexpire_ms key =
    let c = bumped now pexpire_ms (alive now key) in
    (record { counter = c.count; ttl = ttl_of now c }, some c)

pub record Allowance : Type 0 where
  pub allowed : Bool
  pub remaining : ℕ
  pub reset_ts : ℕ

-- The answer for a reply. Where Redis fails, the fallback raises as well and the policy is to allow.
unfoldable pub allowance : ℕ → ℕ → ℕ → Option ScriptReply → Allowance
allowance now limit window none = record {
  allowed = true;
  remaining = limit - 1;
  reset_ts = now / 1000 + window;
}
allowance now limit window (some r) = record {
  allowed = leb r.counter limit;
  remaining = if leb r.counter limit then limit - r.counter else 0;
  reset_ts = if ltb 0 r.ttl then now / 1000 + r.ttl / 1000 else now / 1000 + window;
}

-- The two Lua scripts, and which of them the process's one _script_sha stands for, if it is set.
pub data Script : Type 0 where
  fixed_window sliding_window : Script

-- `loads` says whether SCRIPT LOAD is answered.
unfoldable pub ensure_lua_loaded : Bool → Script → Option Script → Option Script
ensure_lua_loaded loads style (some s) = some s
ensure_lua_loaded loads style none = if loads then some style else none

-- What EVALSHA or EVAL gives with redis_allow's arguments. The sliding window's script subtracts
-- from the third argument, which is not there, and raises.
unfoldable pub evaluate :
    ℕ → ℕ → Option Script → Option Counter → Option ScriptReply × Option Counter
unfolding incr_and_pexpire
evaluate now pexpire_ms (some sliding_window) key = (none, key)
evaluate now pexpire_ms (some fixed_window) key =
    let r = incr_and_pexpire now pexpire_ms key in (some r.0, r.1)
evaluate now pexpire_ms none key = let r = incr_and_pexpire now pexpire_ms key in (some r.0, r.1)

-- The counter of the key and the process's _script_sha.
pub record Limiter : Type 0 where
  pub key : Option Counter
  pub script_sha : Option Script

-- `up` says whether Redis answers the call of the script.
unfoldable pub redis_allow : Bool → Bool → ℕ → ℕ → ℕ → Limiter → Allowance × Limiter
unfolding ensure_lua_loaded evaluate allowance
redis_allow loads up now limit window l =
    let sha = ensure_lua_loaded loads fixed_window l.script_sha in
    elim up [
      | false ↦ (allowance now limit window none, record { key = l.key; script_sha = sha })
      | true ↦
          let r = evaluate now (window * 1000) sha l.key in
          (allowance now limit window r.0, record { key = r.1; script_sha = sha })
    ]

-- How many requests at the given times are let through, Redis answering each script; `loads` says at
-- which times it answers SCRIPT LOAD.
abbrev pub let_through : (ℕ → Bool) → ℕ → ℕ → List ℕ → Limiter → ℕ
let_through loads limit window [] l = 0
let_through loads limit window (t ∷ ts) l =
    let r = redis_allow (loads t) true t limit window l in
    let rest = let_through loads limit window ts r.1 in if r.0.allowed then suc rest else rest

-- No request of this process has loaded the sliding window's script.
abbrev pub runs_fixed : Option Script → Bool
runs_fixed (some sliding_window) = false
runs_fixed (some fixed_window) = true
runs_fixed none = true

module _ (loads : ℕ → Bool) (limit window : ℕ) where
  -- In a window that ends at `e`, requests are let through up to the limit and no further.
  within_window :
      (e c : ℕ) (ts : List ℕ) (sha : Option Script)
      → runs_fixed sha ≡ true
      → All (λ t. t < e) ts
      → let_through loads limit window ts
          (record { key = some (record { count = c; expires_at = some e }); script_sha = sha })
        ≡ min (limit - c) (length ts)
  unfolding redis_allow incr_and_pexpire alive allowance evaluate ensure_lua_loaded
  within_window e c [] sha f h = omega arith
  within_window e c (t ∷ ts) none f h = ground (
    arith,
    within_window e (c + 1) ts none refl h.1,
    within_window e (c + 1) ts (some fixed_window) refl h.1,
  )
  within_window e c (t ∷ ts) (some fixed_window) f h =
      ground (arith, within_window e (c + 1) ts (some fixed_window) refl h.1)
  within_window e c (t ∷ ts) (some sliding_window) f h = absurd (cc)

  -- While Redis answers the script and no request of the process has loaded the other one: of the
  -- requests that arrive from the first one until its window has passed, exactly as many as the
  -- limit are let through, or all of them if they are fewer.
  pub redis_allow-window :
      (t : ℕ) (ts : List ℕ) (sha : Option Script)
      → 0 < window
      → runs_fixed sha ≡ true
      → All (λ u. u < t + window * 1000) ts
      → let_through loads limit window (t ∷ ts) (record { key = none; script_sha = sha })
        ≡ min limit (suc (length ts))
  unfolding redis_allow incr_and_pexpire alive allowance evaluate ensure_lua_loaded
  redis_allow-window t ts none w f h = ground (
    arith,
    within_window (t + window * 1000) 1 ts none refl h,
    within_window (t + window * 1000) 1 ts (some fixed_window) refl h,
  )
  redis_allow-window t ts (some fixed_window) w f h =
      ground (arith, within_window (t + window * 1000) 1 ts (some fixed_window) refl h)
  redis_allow-window t ts (some sliding_window) w f h = absurd (cc)
