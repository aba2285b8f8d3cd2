-- ===== src/Orders/Place/Handler.antt =====
-- place_order of backend/orders/routes.py. The advisory lock only delays a request, and what it
-- returns is not read. `others` is what other requests commit while this one sleeps for 5 seconds.
use phyllonix.Base.{
  ℕ, ◌+◌, false, not, Option, none, some, ◌==◌, Action, http, crash, pure, raise, raise_if, commit,
  ok, ◌>>=◌, ◌>>◌,
}
use phyllonix.Schema.{OrderResponse}
use phyllonix.Orders.Shop.{Shop}
use phyllonix.Orders.Totals.{compute_final_total}
use phyllonix.Orders.Checkout.{update_checkout_activeness}
use phyllonix.Orders.Place.Tables.{
  KeyData, Confirmed, spc_by_ikey, validate_checkout_get_items_paymethod, record_order_idempotency,
  place_order_with_items,
}
use phyllonix.Orders.Place.Attempts.{PspOutcome, create_payment_intent}

pub data Placed : Type 0 where
  replayed : OrderResponse → Placed
  created : OrderResponse → Placed

-- The statements of the transaction that committed work becomes visible to.
unfoldable pub sleep : (Shop → Shop) → Action Shop (Unit {0})
sleep others s = (ok tt, record { work = others s.work; committed = others s.committed })

-- The checkout is closed once the provider's order is stored.
unfoldable pub close_checkout : ℕ → OrderResponse → Action Shop Placed
unfolding update_checkout_activeness
close_checkout cs_id r = do update_checkout_activeness cs_id false; pure (created r)

unfoldable pub pay_or_reply :
    (ℕ → PspOutcome) → ℕ → ℕ → OrderResponse → Option ℕ → Action Shop Placed
unfolding create_payment_intent close_checkout
pay_or_reply psp i_key cs_id resp none = pure (created resp)
pay_or_reply psp i_key cs_id resp (some pay_pid) =
    create_payment_intent psp i_key pay_pid resp >>= close_checkout cs_id

-- The commit and what follows it.
unfoldable pub settle_order : (ℕ → PspOutcome) → ℕ → ℕ → OrderResponse → Action Shop Placed
unfolding pay_or_reply
settle_order psp i_key cs_id resp = do commit; pay_or_reply psp i_key cs_id resp resp.pay_public_id

-- From the totals to the end, with the id of the idempotency record.
unfoldable pub confirm_order : (ℕ → PspOutcome) → ℕ → ℕ → Confirmed → ℕ → Action Shop Placed
unfolding place_order_with_items settle_order
confirm_order psp i_key user c ik_id =
    place_order_with_items user c.payment_method (compute_final_total c.items c.payment_method)
      ik_id
    >>= settle_order psp i_key c.cs_id

-- A stored response answers; a record without one goes on with its id.
unfoldable pub reply_or_confirm :
    (ℕ → PspOutcome) → ℕ → ℕ → Confirmed → ℕ → Option OrderResponse → Action Shop Placed
unfolding confirm_order
reply_or_confirm psp i_key user c ik_id (some body) = pure (replayed body)
reply_or_confirm psp i_key user c ik_id none = confirm_order psp i_key user c ik_id

-- After the sleep; no record at all makes `[...]` of None raise.
unfoldable pub after_sleep :
    (ℕ → PspOutcome) → ℕ → ℕ → Confirmed → Option KeyData → Action Shop Placed
unfolding reply_or_confirm
after_sleep psp i_key user c none = raise crash
after_sleep psp i_key user c (some k) = reply_or_confirm psp i_key user c k.ik_id k.response_body

unfoldable pub with_record :
    (ℕ → PspOutcome) → (Shop → Shop) → ℕ → ℕ → ℕ → Confirmed → Option ℕ → Action Shop Placed
unfolding sleep spc_by_ikey after_sleep
with_record psp others now i_key user c (some ik_id) = confirm_order psp i_key user c ik_id
with_record psp others now i_key user c none =
    sleep others >> spc_by_ikey (now + 5) i_key user >>= after_sleep psp i_key user c

unfoldable pub record_and_confirm :
    (ℕ → PspOutcome) → (Shop → Shop) → ℕ → ℕ → ℕ → Confirmed → Action Shop Placed
unfolding record_order_idempotency with_record
record_and_confirm psp others now i_key user c =
    record_order_idempotency now i_key user c.cs_id >>= with_record psp others now i_key user c

unfoldable pub reply_or_record :
    (ℕ → PspOutcome)
    → (Shop → Shop)
    → ℕ
    → ℕ
    → ℕ
    → Confirmed
    → Option OrderResponse
    → Action Shop Placed
unfolding record_and_confirm
reply_or_record psp others now i_key user c (some body) = pure (replayed body)
reply_or_record psp others now i_key user c none = record_and_confirm psp others now i_key user c

unfoldable pub with_key :
    (ℕ → PspOutcome) → (Shop → Shop) → ℕ → ℕ → ℕ → Confirmed → Option KeyData → Action Shop Placed
unfolding reply_or_record
with_key psp others now i_key user c none = record_and_confirm psp others now i_key user c
with_key psp others now i_key user c (some k) = do
  raise_if (not (k.cs_id == c.cs_id)) (http 400)
  reply_or_record psp others now i_key user c k.response_body

unfoldable pub confirm_checkout :
    (ℕ → PspOutcome) → (Shop → Shop) → ℕ → ℕ → ℕ → Confirmed → Action Shop Placed
unfolding with_key
confirm_checkout psp others now i_key user c =
    spc_by_ikey now i_key user >>= with_key psp others now i_key user c

unfoldable pub place_order :
    (ℕ → PspOutcome) → (Shop → Shop) → ℕ → ℕ → ℕ → Option ℕ → Action Shop Placed
unfolding validate_checkout_get_items_paymethod confirm_checkout
place_order psp others now user checkout_id none = raise (http 400)
place_order psp others now user checkout_id (some i_key) =
    validate_checkout_get_items_paymethod now checkout_id user
    >>= confirm_checkout psp others now i_key user
