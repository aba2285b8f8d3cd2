-- ===== src/Orders/Checkout.antt =====
-- The checkout session: the functions on it in backend/orders/repository.py and the first two
-- handlers of backend/orders/routes.py, initiate_buy_now and get_order_summary. A handler reads
-- the clock once. Sessions are found by the unique public id or by the partial unique index on
-- the user's active session.
pub mod Reserve
pub mod Session
use Prim.Native.String.{String}
use text.Mathlib.Text.{◌==◌ as str_eq}
use phyllonix.Base.{
  ℕ, ◌+◌, Bool, true, false, ◌&&◌, Option, none, some, List, [], ◌∷◌, ◌++◌, ltb, ◌==◌,
  if◌then◌else◌, find_where, update_where, sum_where, Action, http, gets, modify, commit, raise,
  pure, raise_if, or_raise, ◌>>=◌, ◌>>◌,
}
use phyllonix.Schema.{Item, Cart, CartItem, CheckoutSession, PayMethod, upi, cod}
use phyllonix.Orders.Shop.{Shop, fresh}
use phyllonix.Orders.Totals.{Totals, compute_order_totals}
use phyllonix.Orders.Stock.{capture_cart_snapshot, validate_items_avblty, reserve_inventory, opt_is}

-- RESERVATION_TTL_MINUTES, in seconds
abbrev pub reservation_ttl : ℕ
reservation_ttl = 3600

-- A row of the join of the user's cart with its items.
abbrev in_cart_of : ℕ → List Cart → CartItem → Bool
in_cart_of user carts ci =
    ltb 0 (sum_where (λ (c : Cart). c.id == ci.cart_id && opt_is c.user_id user) (λ _. 1) carts)

unfoldable pub if_cart_exists : ℕ → Action Shop (Unit {0})
if_cart_exists user = do
  n ← gets (λ d. sum_where (in_cart_of user d.carts) (λ _. 1) d.cart_items)
  raise_if (n == 0) (http 404)

abbrev pub is_active_of : ℕ → CheckoutSession → Bool
is_active_of user cs = cs.user_id == user && cs.is_active

unfoldable pub update_checkout_activeness : ℕ → Bool → Action Shop (Unit {0})
update_checkout_activeness cs_id is_active = do
  modify (λ d. record d {
    checkouts =
        update_where (λ cs. cs.id == cs_id) (λ cs. record cs { is_active = is_active }) d.checkouts;
  })
  commit

-- A session that has expired is closed and committed before the error is raised.
unfoldable pub or_gone : ℕ → CheckoutSession → Action Shop (Unit {0})
unfolding update_checkout_activeness
or_gone now cs =
    if ltb cs.expires_at now
    then (do update_checkout_activeness cs.id false; raise (http 410))
    else pure tt

abbrev live_pid : ℕ → Option CheckoutSession → Action Shop (Option ℕ)
live_pid now none = pure none
live_pid now (some cs) = do or_gone now cs; pure (some cs.public_id)

unfoldable pub get_checkout_session : ℕ → ℕ → Action Shop (Option ℕ)
unfolding or_gone
get_checkout_session now user = do
  cs ← gets (λ d. find_where (is_active_of user) d.checkouts)
  live_pid now cs

abbrev pub new_session : ℕ → ℕ → ℕ → ℕ → CheckoutSession
new_session id pid user expires_at = record {
  id = id;
  public_id = pid;
  user_id = user;
  cart_snapshot = none;
  selected_payment_method = none;
  is_active = true;
  expires_at = expires_at;
}

-- INSERT … ON CONFLICT DO NOTHING on the partial unique index, RETURNING the public id
abbrev insert_unless : ℕ → ℕ → ℕ → ℕ → Option CheckoutSession → Action Shop (Option ℕ)
insert_unless id pid user expires_at (some _) = pure none
insert_unless id pid user expires_at none = do
  modify (λ d. record d { checkouts = d.checkouts ++ new_session id pid user expires_at ∷ [] })
  pure (some pid)

abbrev or_existing : ℕ → ℕ → Option ℕ → Action Shop ℕ
or_existing now user (some pid) = pure pid
or_existing now user none = do or_raise (← get_checkout_session now user) (http 409)

unfoldable pub get_or_create_checkout_session : ℕ → ℕ → ℕ → Action Shop ℕ
unfolding get_checkout_session
get_or_create_checkout_session now user reserved_until = do
  id ← fresh
  pid ← fresh
  existing ← gets (λ d. find_where (is_active_of user) d.checkouts)
  inserted ← insert_unless id pid user reserved_until existing
  or_existing now user inserted

unfoldable pub initiate_buy_now : ℕ → ℕ → Action Shop ℕ
unfolding if_cart_exists get_or_create_checkout_session
initiate_buy_now now user = do
  if_cart_exists user
  pid ← get_or_create_checkout_session now user (now + reservation_ttl)
  commit
  pure pid

abbrev pub is_checkout : ℕ → ℕ → CheckoutSession → Bool
is_checkout checkout_id user cs =
    cs.user_id == user && (cs.is_active && cs.public_id == checkout_id)

unfoldable pub get_checkout_details : ℕ → ℕ → ℕ → Action Shop CheckoutSession
unfolding or_gone
get_checkout_details now checkout_id user = do
  found ← gets (λ d. find_where (is_checkout checkout_id user) d.checkouts)
  cs ← or_raise found (http 403)
  or_gone now cs
  pure cs

unfoldable pub update_checkout_cart_n_paymethod : ℕ → PayMethod → List Item → Action Shop (Unit {0})
update_checkout_cart_n_paymethod cs_id payment_method items = modify (λ d. record d {
  checkouts =
      update_where (λ cs. cs.id == cs_id)
        (λ cs. record cs {
          selected_payment_method = some payment_method;
          cart_snapshot = some items;
        })
        d.checkouts;
})

-- `payment_method not in ("UPI", "COD")`
unfoldable pub parse_method : Option String → Option PayMethod
parse_method none = none
parse_method (some m) =
    if str_eq m "UPI" then some upi else if str_eq m "COD" then some cod else none

-- The work of the first summary of a session.
unfoldable pub reserve_summary : ℕ → ℕ → PayMethod → CheckoutSession → Action Shop Totals
unfolding capture_cart_snapshot validate_items_avblty reserve_inventory
    update_checkout_cart_n_paymethod
reserve_summary now user payment_method cs = do
  cart_items ← capture_cart_snapshot user
  validate_items_avblty now cart_items
  reserve_inventory cart_items cs.id cs.expires_at
  update_checkout_cart_n_paymethod cs.id payment_method cart_items
  commit
  pure (compute_order_totals cart_items payment_method)

-- `if items and pay_method:` answers from the session; an empty list is false.
unfoldable pub summary_by :
    ℕ → ℕ → PayMethod → CheckoutSession → Option (List Item) → Option PayMethod → Action Shop Totals
unfolding reserve_summary
summary_by now user m cs (some (it ∷ items)) (some chosen) =
    pure (compute_order_totals (it ∷ items) chosen)
summary_by now user m cs _ _ = reserve_summary now user m cs

unfoldable pub get_order_summary : ℕ → ℕ → ℕ → Option String → Action Shop Totals
unfolding parse_method get_checkout_details summary_by
get_order_summary now user checkout_id payment_method = do
  m ← or_raise (parse_method payment_method) (http 400)
  cs ← get_checkout_details now checkout_id user
  summary_by now user m cs cs.cart_snapshot cs.selected_payment_method
