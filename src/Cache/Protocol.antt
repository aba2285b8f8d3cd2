-- ===== src/Cache/Protocol.antt =====
-- Requests that share one cache key, their commands interleaved in any order, with what else can
-- happen to the keys and the row between two commands. A cache enters by its step and the laws that
-- the lock protocol rests on.
pub mod Lock
pub mod Progress
use phyllonix.Base.{
  ℕ, ◌+◌, ◌-◌, ◌≤◌, ◌≡◌, ◌≢◌, Bool, true, false, Option, none, some, List, [], ◌∷◌, get_elem?, set,
}
use phyllonix.Cache.{
  CacheEntry, Keys, CacheReply, Phase, reading, trying, checking, loading, fallback, storing,
  storing_alone, releasing, replied, waiting, polling_on,
}

abbrev pub Step : Type 0
Step = ℕ → Option CacheEntry → Bool → Bool → Keys → Phase → Phase × Keys

pub record World : Type 0 where
  pub keys : Keys
  pub db : Option CacheEntry
  pub tasks : List Phase

-- `turn i up ok`: request i does its next command, which Redis answers if `up`; the EVAL that
-- gives the lock back is answered if `ok`.
pub data Event : Type 0 where
  turn : ℕ → Bool → Bool → Event
  expire lock_expires : Event
  write : Option CacheEntry → Event

abbrev pub exec : Step → World → Event → World
exec step w (turn i up ok) = elim (get_elem? w.tasks i) [
  | none ↦ w
  | some p ↦ record {
    keys = (step i w.db up ok w.keys p).1;
    db = w.db;
    tasks = set w.tasks i (step i w.db up ok w.keys p).0;
  }
]
-- the value and its version were set with the same time to live
exec step w expire = record w { keys = record w.keys { value = none; ver = none } }
exec step w lock_expires = record w { keys = record w.keys { lock = none } }
exec step w (write row) = record w { db = row }

abbrev pub run : Step → World → List Event → World
run step w [] = w
run step w (e ∷ es) = run step (exec step w e) es

-- Between taking the lock and giving it back.
abbrev pub is_critical : Phase → Bool
is_critical checking = true
is_critical loading = true
is_critical (storing e) = true
is_critical (releasing r) = true
is_critical _ = false

-- In a loop of polls that does not end.
abbrev pub polls_on : Phase → Bool
polls_on polling_on = true
polls_on _ = false

-- The turns that a request needs at most, where it waits for `limit` rounds.
abbrev pub turns_left : ℕ → Phase → ℕ
turns_left limit reading = limit + 6
turns_left limit trying = limit + 5
turns_left limit checking = 4
turns_left limit loading = 3
turns_left limit (storing e) = 2
turns_left limit (releasing r) = 1
turns_left limit (replied r) = 0
turns_left limit (waiting n) = n + 3
turns_left limit fallback = 2
turns_left limit polling_on = limit + 7
turns_left limit (storing_alone e) = 1

pub record Protocol (limit : ℕ) (step : Step) : Type 0 where
  -- who enters or stays in the critical part holds the lock
  pub acquires :
      (i : ℕ) (db : Option CacheEntry) (up ok : Bool) (k : Keys) (p : Phase)
      → (is_critical p ≡ true → k.lock ≡ some i)
      → is_critical (step i db up ok k p).0 ≡ true
      → (step i db up ok k p).1.lock ≡ some i
  -- who leaves it does not hold the lock any more
  pub releases :
      (i : ℕ) (db : Option CacheEntry) (up : Bool) (k : Keys) (p : Phase)
      → (k.lock ≡ some i → is_critical p ≡ true)
      → (step i db up true k p).1.lock ≡ some i
      → is_critical (step i db up true k p).0 ≡ true
  -- the lock of another request is neither taken away nor set
  pub leaves :
      (i j : ℕ) (db : Option CacheEntry) (up : Bool) (k : Keys) (p : Phase)
      → i ≢ j
      → (k.lock ≡ some j → (step i db up true k p).1.lock ≡ some j)
        × ((step i db up true k p).1.lock ≡ some j → k.lock ≡ some j)
  -- the loop of polls ends
  pub polling :
      (i : ℕ) (db : Option CacheEntry) (up ok : Bool) (k : Keys) (p : Phase)
      → polls_on p ≡ false
      → polls_on (step i db up ok k p).0 ≡ false
  pub progress :
      (i : ℕ) (db : Option CacheEntry) (up ok : Bool) (k : Keys) (p : Phase)
      → polls_on p ≡ false
      → turns_left limit (step i db up ok k p).0 ≤ turns_left limit p - 1
