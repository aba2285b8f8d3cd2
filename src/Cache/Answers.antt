-- ===== src/Cache/Answers.antt =====
-- What the requests of both caches are answered, and the lock between them, in every interleaving.
use phyllonix.Base.{
  ℕ, zero, suc, ◌+◌, ◌≤◌, ◌<◌, ◌≡◌, ◌≢◌, refl, sym, ◌∙◌, Bool, true, false, Option, none, some,
  List, [], ◌∷◌, get_elem?, set, All, arith, Option-cases, inl, inr,
}
use mathlib.Core.Option.{some-injective}
use mathlib.Core.Path.{subst}
use phyllonix.Cache.{
  CacheEntry, Keys, CacheReply, cached, Phase, reading, releasing, replied, set_nx, release_lock,
}
use phyllonix.Cache.Details.{details_step}
use phyllonix.Cache.Details.Laws.{details-Protocol}
use phyllonix.Cache.Listings.{set_bytes, listings_step}
use phyllonix.Cache.Listings.Laws.{listing_limit, listing_rounds_lem, listings-Protocol}
use phyllonix.Cache.Protocol.{
  Step, World, Event, turn, expire, lock_expires, write, exec, run, is_critical, Protocol,
}
use phyllonix.Cache.Protocol.Lock.{lock_kept, InCritical, IsExclusive, run-IsExclusive}
use phyllonix.Cache.Protocol.Progress.{turns_of, run-replied}

-- n requests that begin, and no lock.
abbrev pub requests : ℕ → List Phase
requests zero = []
requests (suc n) = reading ∷ requests n

abbrev pub opened : Option CacheEntry → Option ℕ → Option CacheEntry → ℕ → World
opened value ver db n = record {
  keys = record { value = value; ver = ver; lock = none };
  db = db;
  tasks = requests n;
}

requests-reading : (n i : ℕ) (p : Phase) → get_elem? (requests n) i ≡ some p → p ≡ reading
requests-reading zero i p h = absurd (cc)
requests-reading (suc n) zero p h = sym (some-injective _ _ h)
requests-reading (suc n) (suc i) p h = requests-reading n i p h

opened-IsExclusive :
    (value : Option CacheEntry) (ver : Option ℕ) (db : Option CacheEntry) (n : ℕ)
    → IsExclusive (opened value ver db n)
opened-IsExclusive value ver db n = record {
  locks = λ i (p, at, crit).
      absurd (cc (subst (λ q. is_critical q ≡ true) (requests-reading n i p at) crit));
  held = λ i h. absurd (cc h);
}

-- At most one request is between the lock and its release; without any, the lock is free.
abbrev pub HasOneLoader : World → Type 0
HasOneLoader w =
    ((i j : ℕ) → InCritical w i → InCritical w j → i ≡ j)
    × ((i : ℕ) → w.keys.lock ≡ some i → InCritical w i)

module _ {limit : ℕ} {step : Step} (c : Protocol limit step) where
  one_loader :
      (es : List Event) (value : Option CacheEntry) (ver : Option ℕ) (db : Option CacheEntry)
      (n : ℕ)
      → All (λ e. lock_kept e ≡ true) es
      → HasOneLoader (run step (opened value ver db n) es)
  one_loader es value ver db n kept =
      let x =
        run-IsExclusive c es (opened value ver db n) kept (opened-IsExclusive value ver db n) in
      (λ i j h k. some-injective _ _ (sym (x.locks i h) ∙ x.locks j k), x.held)

-- Where any number of requests for one product, or for one page of the listing, begin with a free
-- lock, in every interleaving in which the lock key does not run out and the release script is
-- answered, whatever other commands fail: at no time are two of them between taking the lock and
-- giving it back, and the lock is held only while one of them is, so that none leaves it behind,
-- not even when its loader raises.
pub one_loader_lem :
    (es : List Event) (value : Option CacheEntry) (ver : Option ℕ) (db : Option CacheEntry) (n : ℕ)
    → All (λ e. lock_kept e ≡ true) es
    → HasOneLoader (run details_step (opened value ver db n) es)
      × HasOneLoader (run listings_step (opened value ver db n) es)
one_loader_lem es value ver db n kept = (
  one_loader details-Protocol es value ver db n kept,
  one_loader listings-Protocol es value ver db n kept,
)

-- A reply with content: not Python's None.
abbrev pub has_content : Phase → Bool
has_content (releasing (cached none)) = false
has_content (replied (cached none)) = false
has_content _ = true

listings-has_content :
    (i : ℕ) (db : Option CacheEntry) (up ok : Bool) (k : Keys) (p : Phase)
    → has_content p ≡ true
    → has_content (listings_step i db up ok k p).0 ≡ true
unfolding listings_step set_nx release_lock set_bytes
listings-has_content i db up ok k p h = ground (arith, listing_rounds_lem)

module _ (P : Phase → Type 0) where
  pub All-set : (ps : List Phase) (i : ℕ) (p : Phase) → P p → All P ps → All P (set ps i p)
  All-set [] i p h k = tt
  All-set (x ∷ xs) zero p h k = (h, k.1)
  All-set (x ∷ xs) (suc i) p h k = (k.0, All-set xs i p h k.1)

  pub All-get_elem? :
      (ps : List Phase) (i : ℕ) (p : Phase) → All P ps → get_elem? ps i ≡ some p → P p
  All-get_elem? [] i p h e = absurd (cc)
  All-get_elem? (x ∷ xs) zero p h e = subst P (some-injective _ _ e) h.0
  All-get_elem? (x ∷ xs) (suc i) p h e = All-get_elem? xs i p h.1 e

  -- What every command keeps of a request's phase holds of all of them throughout.
  module _ (step : Step)
      (keeps : (i : ℕ) (db : Option CacheEntry) (up ok : Bool) (k : Keys) (p : Phase)
        → P p
        → P (step i db up ok k p).0) where
    exec-All : (w : World) (e : Event) → All P w.tasks → All P (exec step w e).tasks
    exec-All w (turn i up ok) h = elim (Option-cases (get_elem? w.tasks i)) [
      | inl missing ↦ rw (exec, missing) h
      | inr (p, here) ↦
          rw (exec, here)
            (All-set w.tasks i _ (keeps i w.db up ok w.keys p (All-get_elem? w.tasks i p h here)) h)
    ]
    exec-All w expire h = h
    exec-All w lock_expires h = h
    exec-All w (write row) h = h

    run-All : (es : List Event) (w : World) → All P w.tasks → All P (run step w es).tasks
    run-All [] w h = h
    run-All (e ∷ es) w h = run-All es (exec step w e) (exec-All w e h)

requests-has_content : (n : ℕ) → All (λ p. has_content p ≡ true) (requests n)
requests-has_content zero = tt
requests-has_content (suc n) = (refl, requests-has_content n)

requests-at : (n i : ℕ) → i < n → get_elem? (requests n) i ≡ some reading
requests-at zero i h = absurd (omega arith)
requests-at (suc n) zero h = refl
requests-at (suc n) (suc i) h = requests-at n i (omega arith)

-- In every interleaving, with any number of requests for one page of the listing, whatever fails
-- or runs out at or between two commands: a request that gets 187 turns, six more than it polls
-- at most, has replied, and its reply is a page, the loader's exception or an error of Redis,
-- never an empty body.
pub listings-replies :
    (es : List Event) (value : Option CacheEntry) (ver : Option ℕ) (db : Option CacheEntry)
    (n i : ℕ)
    → i < n
    → listing_limit + 6 ≤ turns_of i es
    → (r : CacheReply) × (get_elem? ((run listings_step (opened value ver db n) es).tasks) i
        ≡ some (replied r))
      × (r ≢ cached none)
listings-replies es value ver db n i h enough =
    let w = opened value ver db n in
    let (r, at) = run-replied listings-Protocol i es w (requests-at n i h) enough in
    let good =
      All-get_elem? (λ p. has_content p ≡ true) _ i (replied r)
        (run-All (λ p. has_content p ≡ true) listings_step listings-has_content es w
          (requests-has_content n))
        at in
    (r, at, λ none_is. absurd (cc (good, none_is)))
