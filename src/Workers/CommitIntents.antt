-- ===== src/Workers/CommitIntents.antt =====
-- order_confirm_commitintent_handler of backend/background_workers/order_confirm_inv_handler.py: two
-- transactions and, when the second raises, a third. A row that another worker has locked is
-- skipped, as if it were not pending. sim_emit_outbox_event does nothing.
pub mod Stock
pub mod Retry
use phyllonix.Base.{
  ℕ, ◌+◌, ◌-◌, ◌*◌, ◌^◌, Bool, true, false, ◌&&◌, Option, none, some, List, [], ◌∷◌, ltb, leb, ◌==◌,
  if◌then◌else◌, min, find_where, update_where,
}
use phyllonix.Schema.{Product, Line, CommitIntent, CommitIntentStatus, intent_value}
use phyllonix.Orders.Shop.{Shop}

abbrev pub intent_is : ℕ → CommitIntent → Bool
intent_is ci_id c = c.id == ci_id

abbrev pub is_pending : ℕ → CommitIntent → Bool
is_pending ci_id c = c.id == ci_id && intent_value c.status == 0

abbrev pub started : CommitIntent → CommitIntent
started c = record c { status = CommitIntentStatus.processing; attempts = c.attempts + 1 }

-- The first transaction.
unfoldable pub mark_processing : ℕ → List CommitIntent → List CommitIntent
mark_processing ci_id cs = update_where (intent_is ci_id) started cs

-- A pass over the items: the stock so far and whether an item was short. A missing product raises.
pub record Pass : Type 0 where
  pub products : List Product
  pub errors : Bool

abbrev pub product_is : ℕ → Product → Bool
product_is pid p = p.id == pid

unfoldable pub take_item : Line → List Product → Bool → Product → Pass
take_item it ps errors prod =
    if ltb prod.stock_qty it.quantity then record { products = ps; errors = true } else record {
      products =
          update_where (product_is it.product_id)
            (λ p. record p { stock_qty = prod.stock_qty - it.quantity }) ps;
      errors = errors;
    }

unfoldable pub take_found : Line → List Product → Bool → Option Product → Option Pass
unfolding take_item
take_found it ps errors none = none
take_found it ps errors (some prod) = some (take_item it ps errors prod)

unfoldable pub take_items : List Line → List Product → Bool → Option Pass
unfolding take_found
take_items [] ps errors = some (record { products = ps; errors = errors })
take_items (it ∷ items) ps errors =
    elim (take_found it ps errors (find_where (product_is it.product_id) ps)) [
      | none ↦ none
      | some r ↦ take_items items r.products r.errors
    ]

-- The stock after the second transaction; none when it raised and was rolled back.
abbrev pub without_errors : Option Pass → Option (List Product)
without_errors none = none
without_errors (some r) = if r.errors then none else some r.products

abbrev pub done : CommitIntent → CommitIntent
done c = record c { status = CommitIntentStatus.done }

-- DEFAULT_MAX_ATTEMPTS
abbrev pub max_attempts : ℕ
max_attempts = 5

-- The third transaction, for an intent with its attempts already bumped by the first.
unfoldable pub after_failure : ℕ → CommitIntent → CommitIntent
after_failure now c =
    if leb max_attempts (c.attempts + 1)
    then record c { status = CommitIntentStatus.failed }
    else record c {
      status = CommitIntentStatus.pending;
      next_retry_at = some (now + min (60 * 2 ^ c.attempts) 3600);
      attempts = c.attempts + 1;
    }

unfoldable pub finish : ℕ → ℕ → Shop → List CommitIntent → Option (List Product) → Shop
unfolding after_failure
finish now ci_id d cs (some products) = record d {
  products = products;
  intents = update_where (intent_is ci_id) done cs;
}
finish now ci_id d cs none = record d {
  intents = update_where (intent_is ci_id) (after_failure now) cs;
}

unfoldable pub run_intent : ℕ → ℕ → Shop → Option CommitIntent → Shop
unfolding finish take_items mark_processing
run_intent now ci_id d none = d
run_intent now ci_id d (some c) =
    finish now ci_id d (mark_processing ci_id d.intents)
      (without_errors (take_items c.payload d.products false))

unfoldable pub order_confirm_commitintent_handler : ℕ → Option ℕ → Shop → Shop
unfolding run_intent
order_confirm_commitintent_handler now none d = d
order_confirm_commitintent_handler now (some ci_id) d =
    run_intent now ci_id d (find_where (is_pending ci_id) d.intents)
