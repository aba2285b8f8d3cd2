-- ===== src/Orders/Place/Tables.antt =====
-- What place_order reads and writes: spc_by_ikey, validate_checkout_get_items_paymethod,
-- record_order_idempotency, place_order_with_items, update_order_idempotency_record,
-- record_payment_init_pending, update_payment_status_nprovider and update_idempotent_response of
-- backend/orders/repository.py. Times are in seconds.
use phyllonix.Base.{
  ◌||◌, ℕ, ◌+◌, ◌*◌, Bool, false, ◌&&◌, not, Option, none, some, List, [], ◌∷◌, ◌++◌, ltb, ◌==◌,
  if◌then◌else◌, find_where, update_where, sum_where, length, Action, http, crash, gets, modify,
  pure, raise, raise_if, or_raise, ◌>>=◌, ◌>>◌,
}
use phyllonix.Base.Double.{two_percent}
use phyllonix.Schema.{
  Item, PayMethod, upi, cod, IdempotencyKey, OwnerType, OrderIdempotencyStatus, OrderResponse,
  Orders, OrderItem, OrderStatus, Payment, PaymentStatus,
}
use phyllonix.Orders.Shop.{Shop, fresh}
use phyllonix.Orders.Totals.{Totals}
use phyllonix.Orders.Checkout.{is_checkout, update_checkout_activeness}

-- The dict that spc_by_ikey returns.
pub record KeyData : Type 0 where
  pub response_body : Option OrderResponse
  pub response_code : Option ℕ
  pub ik_id : ℕ
  pub cs_id : ℕ

abbrev pub key_of : ℕ → ℕ → IdempotencyKey → Bool
key_of i_key user k = k.key == i_key && k.created_by == user

-- A record within 40 seconds of its end counts as expired.
unfoldable pub key_data : ℕ → Option IdempotencyKey → Action Shop (Option KeyData)
key_data now none = pure none
key_data now (some k) =
    if ltb k.expires_at (now + 40)
    then raise (http 410)
    else pure (
        some (record {
          response_body = k.response_body;
          response_code = k.response_code;
          ik_id = k.id;
          cs_id = k.cs_id;
        }))

unfoldable pub spc_by_ikey : ℕ → ℕ → ℕ → Action Shop (Option KeyData)
unfolding key_data
spc_by_ikey now i_key user = do
  res ← gets (λ d. find_where (key_of i_key user) d.idempotency_keys)
  key_data now res

-- What validate_checkout_get_items_paymethod returns.
pub record Confirmed : Type 0 where
  pub cs_id : ℕ
  pub items : List Item
  pub payment_method : PayMethod

-- `if not items`: no snapshot and an empty one are refused.
abbrev some_items : Option (List Item) → Option (List Item)
some_items none = none
some_items (some []) = none
some_items (some (it ∷ items)) = some (it ∷ items)

unfoldable pub validate_checkout_get_items_paymethod : ℕ → ℕ → ℕ → Action Shop Confirmed
unfolding update_checkout_activeness
validate_checkout_get_items_paymethod now checkout_id user = do
  found ← gets (λ d. find_where (is_checkout checkout_id user) d.checkouts)
  cs ← or_raise found (http 403)
  (if ltb cs.expires_at (now + 40)
      then (do update_checkout_activeness cs.id false; raise (http 410))
      else pure tt)
  m ← or_raise cs.selected_payment_method (http 409)
  items ← or_raise (some_items cs.cart_snapshot) (http 409)
  pure (record { cs_id = cs.id; items = items; payment_method = m })

abbrev pub new_key : ℕ → ℕ → ℕ → ℕ → ℕ → IdempotencyKey
new_key now id i_key user cs_id = record {
  id = id;
  key = i_key;
  cs_id = cs_id;
  created_by = user;
  owner_type = none;
  owner_id = none;
  response_code = none;
  response_body = none;
  status = OrderIdempotencyStatus.pending;
  expires_at = now + 86400;
}

-- INSERT … ON CONFLICT DO NOTHING RETURNING id; the key is unique over all users
abbrev insert_key : ℕ → ℕ → ℕ → ℕ → ℕ → Option IdempotencyKey → Action Shop (Option ℕ)
insert_key now id i_key user cs_id (some _) = pure none
insert_key now id i_key user cs_id none = do
  modify (λ d. record d {
    idempotency_keys = d.idempotency_keys ++ new_key now id i_key user cs_id ∷ [];
  })
  pure (some id)

unfoldable pub record_order_idempotency : ℕ → ℕ → ℕ → ℕ → Action Shop (Option ℕ)
record_order_idempotency now i_key user cs_id = do
  id ← fresh
  existing ← gets (λ d. find_where (λ (k : IdempotencyKey). k.key == i_key) d.idempotency_keys)
  insert_key now id i_key user cs_id existing

-- The loop that adds an OrderItem per item.
unfoldable pub order_rows : ℕ → ℕ → List Item → List OrderItem
order_rows id order_id [] = []
order_rows id order_id (it ∷ items) =
    record {
      id = id;
      order_id = order_id;
      product_id = it.product_id;
      quantity = it.quantity;
      unit_price_snapshot = it.prod_base_price;
      tax_snapshot = two_percent (it.prod_base_price * it.quantity);
      discount_snapshot = 0;
    }
    ∷ order_rows (id + 1) order_id items

abbrev pub new_payment : ℕ → ℕ → ℕ → ℕ → Payment
new_payment id pid order_id order_total = record {
  id = id;
  public_id = pid;
  order_id = order_id;
  provider_payment_id = none;
  provider_order_id = none;
  status = PaymentStatus.pending;
  amount = order_total;
  paid_at = none;
}

-- A new order has no payment, so the unique key order_id is free.
unfoldable pub record_payment_init_pending : ℕ → ℕ → Action Shop ℕ
record_payment_init_pending order_id order_total = do
  id ← fresh
  pid ← fresh
  modify (λ d. record d { payments = d.payments ++ new_payment id pid order_id order_total ∷ [] })
  pure pid

-- json.dumps raises a TypeError on a body with a UUID in it, as the one of a COD order has.
unfoldable pub update_order_idempotency_record :
    ℕ → ℕ → ℕ → Option ℕ → Option OrderResponse → OwnerType → Action Shop (Unit {0})
update_order_idempotency_record user ik_id owner_id code (some body) owner_type = raise crash
update_order_idempotency_record user ik_id owner_id code none owner_type = modify (λ d. record d {
  idempotency_keys =
      update_where (λ (k : IdempotencyKey). k.id == ik_id && k.created_by == user)
        (λ k. record k {
          owner_id = some owner_id;
          owner_type = some owner_type;
          response_body = none;
          response_code = code;
        })
        d.idempotency_keys;
})

abbrev pub new_order : ℕ → ℕ → ℕ → ℕ → PayMethod → Totals → Orders
new_order id pid ik_id user m t = record {
  id = id;
  public_id = pid;
  ik_id = ik_id;
  user_id = user;
  status = elim m [ upi ↦ OrderStatus.pending_payment | cod ↦ OrderStatus.confirmed ];
  subtotal = t.subtotal;
  tax = t.tax;
  shipping = t.shipping;
  discount = t.discount;
  total = t.total;
}

abbrev pub response_of : ℕ → ℕ → Option ℕ → OrderResponse
response_of order_id public_id pay_pid = record {
  order_public_id = public_id;
  order_id = order_id;
  pay_public_id = pay_pid;
  provider_order_id = none;
}

unfoldable pub finish_order : ℕ → ℕ → ℕ → ℕ → PayMethod → Totals → Action Shop OrderResponse
unfolding record_payment_init_pending update_order_idempotency_record
finish_order user ik_id id public_id upi t = do
  pay_pid ← record_payment_init_pending id t.total
  update_order_idempotency_record user ik_id id none none OwnerType.pay_now
  pure (response_of id public_id (some pay_pid))
finish_order user ik_id id public_id cod t = do
  update_order_idempotency_record user ik_id id (some 200) (some (response_of id public_id none))
      OwnerType.order_confirm
  pure (response_of id public_id none)

abbrev pub has_product : ℕ → List Item → Bool
has_product id [] = false
has_product id (it ∷ items) = it.product_id == id || has_product id items

-- The unique key (order_id, product_id) of the items.
abbrev pub repeats_product : List Item → Bool
repeats_product [] = false
repeats_product (it ∷ items) = has_product it.product_id items || repeats_product items

-- The flush of the order violates the unique key ik_id if the record has an order already, and
-- that of its items their unique key if a product is listed twice.
unfoldable pub place_order_with_items : ℕ → PayMethod → Totals → ℕ → Action Shop OrderResponse
unfolding order_rows finish_order
place_order_with_items user m t ik_id = do
  id ← fresh
  public_id ← fresh
  taken ← gets (λ d. sum_where (λ (o : Orders). o.ik_id == ik_id) (λ _. 1) d.orders)
  raise_if (ltb 0 taken) crash
  raise_if (repeats_product t.items) crash
  modify (λ d. record d {
    next_id = d.next_id + length t.items;
    orders = d.orders ++ new_order id public_id ik_id user m t ∷ [];
    order_items = d.order_items ++ order_rows d.next_id id t.items;
  })
  finish_order user ik_id id public_id m t

-- The provider's order id is unique; one that another payment has makes the statement raise.
unfoldable pub update_payment_status_nprovider : ℕ → ℕ → Action Shop (Unit {0})
update_payment_status_nprovider pay_id provider_order_id = do
  taken ← gets (λ d.
      sum_where
        (λ (p : Payment).
          not (p.id == pay_id)
          && elim p.provider_order_id [ none ↦ false | some o ↦ o == provider_order_id ])
        (λ _. 1) d.payments)
  raise_if (ltb 0 taken) crash
  modify (λ d. record d {
    payments =
        update_where (λ (p : Payment). p.id == pay_id)
          (λ p. record p {
            provider_order_id = some provider_order_id;
            status = PaymentStatus.accepted;
          })
          d.payments;
  })

unfoldable pub update_idempotent_response : ℕ → ℕ → OrderResponse → Action Shop (Unit {0})
update_idempotent_response key code body = modify (λ d. record d {
  idempotency_keys =
      update_where (λ (k : IdempotencyKey). k.key == key)
        (λ k. record k { response_code = some code; response_body = some body }) d.idempotency_keys;
})
