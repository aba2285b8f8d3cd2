-- ===== src/Tests/Catalogue.antt =====
-- The theorems on the listing's pages and on the caches at concrete inputs.
use phyllonix.Base.{
  ℕ, zero, suc, ◌+◌, ◌*◌, ◌≤◌, ◌≡◌, ◌≢◌, refl, true, false, some, none, [], ◌∷◌, List, arith,
  get_elem?,
}
use phyllonix.Base.Double.{excess, half_even, round53}
use phyllonix.Products.Pages.{ProductRow, keyset_filter, fetch_prods, load_page, loader, browse}
use phyllonix.Cache.{CacheEntry, CacheReply, cached, loaded, redis_error, reading, replied, rounds}
use phyllonix.Cache.Details.{details_step}
use phyllonix.Cache.Listings.{listings_step}
use phyllonix.Cache.Listings.Laws.{listing_limit}
use phyllonix.Cache.Protocol.{World, Event, turn, run}
use phyllonix.Cache.Protocol.Progress.{turns_of}
use phyllonix.Cache.Uncached.{IsUncached, run-IsUncached}
use phyllonix.Cache.Answers.{opened, HasOneLoader, one_loader_lem, listings-replies}

abbrev row : ℕ → ℕ → ProductRow
row id created_at = record {
  id = id;
  public_id = id;
  name = "tea";
  base_price = 100;
  created_at = created_at;
}

-- Two products of the same second, and a newer one.
abbrev table : List ProductRow
table = row 1 50 ∷ row 2 50 ∷ row 3 70 ∷ []

browse_run : browse 4 table 2 none ≡ some (row 3 70 ∷ row 1 50 ∷ row 2 50 ∷ [])
unfolding browse loader load_page fetch_prods keyset_filter
browse_run = refl

-- A loop of one second polls 20 times.
one_second_run : rounds 50 0 1 ≡ some 20
unfolding rounds round53 excess half_even
one_second_run = refl

abbrev entry : ℕ → CacheEntry
entry t = record { payload = 10 * t; updated_at = t }

-- Request 0 misses; request 1 loads, stores and gives the lock back; then request 0 takes it.
abbrev late : List Event
late =
    turn 0 true true
    ∷ turn 1 true true
    ∷ turn 1 true true
    ∷ turn 1 true true
    ∷ turn 1 true true
    ∷ turn 1 true true
    ∷ turn 1 true true
    ∷ turn 0 true true
    ∷ turn 0 true true
    ∷ turn 0 true true
    ∷ turn 0 true true
    ∷ turn 0 true true
    ∷ []

abbrev shop_world : World
shop_world = opened none none (some (entry 5)) 2

-- Request 0 loads the product again: nothing was cached.
late_details :
    (run details_step shop_world late).tasks
    ≡ replied (loaded (entry 5)) ∷ replied (loaded (entry 5)) ∷ []
unfolding details_step
late_details = refl

late_listings :
    (run listings_step shop_world late).tasks
    ≡ replied (cached (some (entry 5))) ∷ replied (loaded (entry 5)) ∷ []
unfolding listings_step
late_listings = refl

run-IsUncached_example : IsUncached (run details_step shop_world late)
run-IsUncached_example = run-IsUncached late none (some (entry 5)) 2

-- Redis fails at the first GET.
failing_run :
    (run listings_step shop_world (turn 0 false true ∷ [])).tasks
    ≡ replied redis_error ∷ reading ∷ []
unfolding listings_step
failing_run = refl

-- Turns of request 0, with every EVAL failing.
abbrev patient : ℕ → List Event
patient zero = []
patient (suc n) = turn 0 true false ∷ patient n

one_loader_lem_example :
    HasOneLoader (run details_step shop_world late)
    × HasOneLoader (run listings_step shop_world late)
one_loader_lem_example = one_loader_lem late none none (some (entry 5)) 2 (
  refl,
  (refl, (refl, (refl, (refl, (refl, (refl, (refl, (refl, (refl, (refl, (refl, tt))))))))))),
)

-- Request 1 takes the lock and stops; request 0 polls to the end and loads the page itself.
abbrev waiting_schedule : List Event
waiting_schedule = turn 1 true true ∷ turn 1 true true ∷ patient 187

enough_turns : listing_limit + 6 ≤ turns_of 0 waiting_schedule
enough_turns = omega arith

listings-replies_example :
    (r : CacheReply) × (get_elem?
        ((run listings_step (opened none none (some (entry 5)) 2) waiting_schedule).tasks)
        0
      ≡ some (replied r))
    × (r ≢ cached none)
listings-replies_example =
    listings-replies waiting_schedule none none (some (entry 5)) 2 0 (omega arith) enough_turns
