-- ===== src/Cache/Uncached.antt =====
-- cache/cache_prod_details.py: what the cache of products is worth while its payload is a dict.
use phyllonix.Base.{
  ℕ, zero, suc, ◌≡◌, refl, Bool, true, false, Option, none, List, [], ◌∷◌, get_elem?, All, arith,
  Option-cases, inl, inr,
}
use phyllonix.Cache.{CacheEntry, Keys, cached, Phase, releasing, replied, set_nx, release_lock}
use phyllonix.Cache.Details.{set_product_cache_if_newer, details_step}
use phyllonix.Cache.Protocol.{World, Event, turn, expire, lock_expires, write, exec, run}
use phyllonix.Cache.Answers.{requests, opened, All-set, All-get_elem?}

-- Not an answer from the cache.
abbrev pub is_uncached : Phase → Bool
is_uncached (releasing (cached e)) = false
is_uncached (replied (cached e)) = false
is_uncached _ = true

abbrev pub IsUncached : World → Type 0
IsUncached w = (w.keys.value ≡ none) × All (λ p. is_uncached p ≡ true) w.tasks

step-uncached :
    (i : ℕ) (db : Option CacheEntry) (up ok : Bool) (k : Keys) (p : Phase)
    → k.value ≡ none
    → is_uncached p ≡ true
    → ((details_step i db up ok k p).1.value ≡ none)
      × (is_uncached (details_step i db up ok k p).0 ≡ true)
unfolding details_step set_nx release_lock set_product_cache_if_newer
step-uncached i db up ok k p h u = ground arith

exec-IsUncached : (w : World) (e : Event) → IsUncached w → IsUncached (exec details_step w e)
exec-IsUncached w (turn i up ok) h = elim (Option-cases (get_elem? w.tasks i)) [
  | inl missing ↦ rw (exec, missing) h
  | inr (p, here) ↦
      let (empty, kept) =
        step-uncached i w.db up ok w.keys p h.0
          (All-get_elem? (λ q. is_uncached q ≡ true) w.tasks i p h.1 here) in
      rw (exec, here) (empty, All-set (λ q. is_uncached q ≡ true) w.tasks i _ kept h.1)
]
exec-IsUncached w expire h = (refl, h.1)
exec-IsUncached w lock_expires h = h
exec-IsUncached w (write row) h = h

run-kept : (es : List Event) (w : World) → IsUncached w → IsUncached (run details_step w es)
run-kept [] w h = h
run-kept (e ∷ es) w h = run-kept es (exec details_step w e) (exec-IsUncached w e h)

requests-IsUncached : (n : ℕ) → All (λ p. is_uncached p ≡ true) (requests n)
requests-IsUncached zero = tt
requests-IsUncached (suc n) = (refl, requests-IsUncached n)

-- From an empty cache, in every interleaving of any number of requests for a product with one
-- another, with updates and deletions of its row, with keys that run out and with failures of
-- Redis: the product is never cached, and no request is answered from the cache.
pub run-IsUncached :
    (es : List Event) (ver : Option ℕ) (db : Option CacheEntry) (n : ℕ)
    → IsUncached (run details_step (opened none ver db n) es)
run-IsUncached es ver db n = run-kept es (opened none ver db n) (refl, requests-IsUncached n)
