-- ===== src/Orders/Place/Created.antt =====
-- What a first confirmation by UPI creates when the provider answers at once.
use phyllonix.Base.{
  ap, run->>=, ℕ, ◌+◌, ◌≤◌, ◌≡◌, refl, Bool, false, not, ◌&&◌, none, some, List, [], ◌∷◌, ◌++◌,
  arith, Session, ok, length, update_where, find_where, sum_where, in_session, ◌==◌,
  sum_where-append, find_where-append, ==_refl, ◌∙◌,
}
use phyllonix.Schema.{
  Item, upi, CheckoutSession, IdempotencyKey, Orders, OrderResponse, Payment, accepted,
}
use phyllonix.Orders.Shop.{Shop}
use phyllonix.Orders.Checkout.{is_checkout, update_checkout_activeness}
use phyllonix.Orders.Totals.{Totals, compute_final_total}
use phyllonix.Orders.Place.Tables.{
  new_key, key_of, key_data, spc_by_ikey, validate_checkout_get_items_paymethod,
  record_order_idempotency, repeats_product, place_order_with_items, finish_order,
  record_payment_init_pending, update_order_idempotency_record, order_rows,
  update_payment_status_nprovider, update_idempotent_response, new_order, new_payment, response_of,
}
use phyllonix.Orders.Place.Attempts.{
  PspOutcome, responded, step_of, attempt, retry_from, retry_payments, record_payment_attempt,
  update_payment_attempt_resp, answer, judge, pay_for, create_payment_intent, paid_response,
}
use phyllonix.Orders.Place.Handler.{
  created, place_order, with_key, record_and_confirm, with_record, confirm_order, settle_order,
  pay_or_reply, close_checkout, confirm_checkout,
}

-- Another payment that has the provider's order id.
abbrev pub holds_order : ℕ → ℕ → Payment → Bool
holds_order pay_id poid p =
    not (p.id == pay_id) && elim p.provider_order_id [ none ↦ false | some o ↦ o == poid ]

abbrev pub accept : ℕ → Payment → Payment
accept poid p = record p { provider_order_id = some poid; status = accepted }

module _ (psp : ℕ → PspOutcome) (poid i_key cs_id : ℕ)
    (answers : psp 1 ≡ responded (some poid)) where
  settle-created :
      (resp : OrderResponse) (pp : ℕ) (pay : Payment) (s : Session Shop)
      → resp.pay_public_id ≡ some pp
      → find_where (λ (p : Payment). p.public_id == pp) s.work.payments ≡ some pay
      → sum_where (holds_order pay.id poid) (λ _. 1) s.work.payments ≡ 0
      → ((settle_order psp i_key cs_id resp s).0 ≡ ok (created (paid_response resp poid)))
        × ((settle_order psp i_key cs_id resp s).1.committed.orders ≡ s.work.orders)
        × ((settle_order psp i_key cs_id resp s).1.committed.order_items ≡ s.work.order_items)
        × ((settle_order psp i_key cs_id resp s).1.committed.payments
            ≡ update_where (λ (p : Payment). p.id == pay.id) (accept poid) s.work.payments)
        × ((settle_order psp i_key cs_id resp s).1.committed.checkouts
            ≡ update_where
                (λ cs. cs.id == cs_id)
                (λ cs. record cs { is_active = false })
                s.work.checkouts)
  unfolding settle_order pay_or_reply create_payment_intent pay_for retry_payments retry_from
      attempt step_of record_payment_attempt update_payment_attempt_resp judge answer
      update_payment_status_nprovider update_idempotent_response close_checkout
      update_checkout_activeness
  settle-created resp pp pay s hp hf ht = ground arith

place-created :
    (user ik_id : ℕ) (t : Totals) (s : Session Shop)
    → sum_where (λ (o : Orders). o.ik_id == ik_id) (λ _. 1) s.work.orders ≡ 0
    → repeats_product t.items ≡ false
    → ((place_order_with_items user upi t ik_id s).0
        ≡ ok (
            response_of s.work.next_id
              (s.work.next_id + 1)
              (some (s.work.next_id + 1 + 1 + length t.items + 1))))
      × ((place_order_with_items user upi t ik_id s).1.work.orders
          ≡ s.work.orders ++ new_order s.work.next_id (s.work.next_id + 1) ik_id user upi t ∷ [])
      × ((place_order_with_items user upi t ik_id s).1.work.order_items
          ≡ s.work.order_items ++ order_rows (s.work.next_id + 1 + 1) s.work.next_id t.items)
      × ((place_order_with_items user upi t ik_id s).1.work.payments
          ≡ s.work.payments
            ++ new_payment
                (s.work.next_id + 1 + 1 + length t.items)
                (s.work.next_id + 1 + 1 + length t.items + 1)
                s.work.next_id
                t.total
              ∷ [])
      × ((place_order_with_items user upi t ik_id s).1.work.checkouts ≡ s.work.checkouts)
unfolding place_order_with_items finish_order record_payment_init_pending
    update_order_idempotency_record
place-created user ik_id t s h u = ground arith

-- The tables in which a new idempotency record was stored.
abbrev recorded : ℕ → ℕ → ℕ → ℕ → Shop → Shop
recorded now i_key user cs_id d = record d {
  next_id = d.next_id + 1;
  idempotency_keys = d.idempotency_keys ++ new_key now d.next_id i_key user cs_id ∷ [];
}

-- A first confirmation runs up to the creation of the order.
place_order-enters :
    (psp : ℕ → PspOutcome) (others : Shop → Shop) (now user checkout_id i_key : ℕ) (d : Shop)
    (cs : CheckoutSession) (it : Item) (items : List Item)
    → find_where (is_checkout checkout_id user) d.checkouts ≡ some cs
    → now + 40 ≤ cs.expires_at
    → cs.selected_payment_method ≡ some upi
    → cs.cart_snapshot ≡ some (it ∷ items)
    → find_where (key_of i_key user) d.idempotency_keys ≡ none
    → find_where (λ (k : IdempotencyKey). k.key == i_key) d.idempotency_keys ≡ none
    → place_order psp others now user checkout_id (some i_key) (record { work = d; committed = d })
      ≡ confirm_order psp i_key user
          (record { cs_id = cs.id; items = it ∷ items; payment_method = upi })
          d.next_id
          (record { work = recorded now i_key user cs.id d; committed = d })
unfolding place_order validate_checkout_get_items_paymethod confirm_checkout spc_by_ikey key_data
    with_key record_and_confirm record_order_idempotency with_record
place_order-enters psp others now user checkout_id i_key d cs it items h1 h2 h3 h4 h5 h6 =
    ground arith

-- The first payment with an id that no other has.
new_payment_found :
    (id pid order_id total : ℕ) (ps : List Payment)
    → find_where (λ (p : Payment). p.public_id == pid) ps ≡ none
    → find_where
        (λ (p : Payment). p.public_id == pid)
        (ps ++ new_payment id pid order_id total ∷ [])
      ≡ some (new_payment id pid order_id total)
new_payment_found id pid order_id total ps h =
    find_where-append (λ (p : Payment). p.public_id == pid) ps
      (new_payment id pid order_id total ∷ []) h
    ∙ rw (==_refl pid)

none_holds :
    (id pid order_id total poid : ℕ) (ps : List Payment)
    → sum_where (holds_order id poid) (λ _. 1) ps ≡ 0
    → sum_where (holds_order id poid) (λ _. 1) (ps ++ new_payment id pid order_id total ∷ []) ≡ 0
none_holds id pid order_id total poid ps h = ground (
  arith,
  sum_where-append (holds_order id poid) (λ _. 1) ps (new_payment id pid order_id total ∷ []),
)

abbrev pub order_id_of : Shop → ℕ
order_id_of d = d.next_id + 1

abbrev pub payment_id_of : Shop → List Item → ℕ
payment_id_of d items = d.next_id + 1 + 1 + 1 + length items

-- A first confirmation of a live checkout by UPI whose snapshot lists no product twice, with a
-- key that no record has and a provider that answers the first call with an id that no other
-- payment has, succeeds: the order with the totals of the snapshot and an item for each of its
-- items are stored, with a payment of the order's total that has the provider's id, and the
-- checkout is closed.
pub place_order-creates :
    (psp : ℕ → PspOutcome) (others : Shop → Shop) (now user checkout_id i_key poid : ℕ) (d : Shop)
    (cs : CheckoutSession) (it : Item) (items : List Item)
    → find_where (is_checkout checkout_id user) d.checkouts ≡ some cs
    → now + 40 ≤ cs.expires_at
    → cs.selected_payment_method ≡ some upi
    → cs.cart_snapshot ≡ some (it ∷ items)
    → repeats_product (it ∷ items) ≡ false
    → find_where (key_of i_key user) d.idempotency_keys ≡ none
    → find_where (λ (k : IdempotencyKey). k.key == i_key) d.idempotency_keys ≡ none
    → sum_where (λ (o : Orders). o.ik_id == d.next_id) (λ _. 1) d.orders ≡ 0
    → find_where (λ (p : Payment). p.public_id == payment_id_of d (it ∷ items) + 1) d.payments
      ≡ none
    → sum_where (holds_order (payment_id_of d (it ∷ items)) poid) (λ _. 1) d.payments ≡ 0
    → psp 1 ≡ responded (some poid)
    → ((in_session (place_order psp others now user checkout_id (some i_key)) d).0
        ≡ ok (
            created (
              paid_response
                (response_of
                  (order_id_of d)
                  (order_id_of d + 1)
                  (some (payment_id_of d (it ∷ items) + 1)))
                poid)))
      × ((in_session (place_order psp others now user checkout_id (some i_key)) d).1.orders
          ≡ d.orders
            ++ new_order
                (order_id_of d)
                (order_id_of d + 1)
                d.next_id
                user
                upi
                (compute_final_total (it ∷ items) upi)
              ∷ [])
      × ((in_session (place_order psp others now user checkout_id (some i_key)) d).1.order_items
          ≡ d.order_items ++ order_rows (order_id_of d + 1 + 1) (order_id_of d) (it ∷ items))
      × ((in_session (place_order psp others now user checkout_id (some i_key)) d).1.payments
          ≡ update_where
              (λ (p : Payment). p.id == payment_id_of d (it ∷ items))
              (accept poid)
              (d.payments
                ++ new_payment
                    (payment_id_of d (it ∷ items))
                    (payment_id_of d (it ∷ items) + 1)
                    (order_id_of d)
                    (compute_final_total (it ∷ items) upi).total
                  ∷ []))
      × ((in_session (place_order psp others now user checkout_id (some i_key)) d).1.checkouts
          ≡ update_where (λ c. c.id == cs.id) (λ c. record c { is_active = false }) d.checkouts)
unfolding confirm_order compute_final_total
place_order-creates psp others now user checkout_id i_key poid d cs it items h1 h2 h3 h4 distinct h5
      h6 h7 h8 h9 answers =
    let t = compute_final_total (it ∷ items) upi in
    let s : Session Shop = record { work = recorded now i_key user cs.id d; committed = d } in
    let m = place_order_with_items user upi t d.next_id in
    let resp =
      response_of (order_id_of d) (order_id_of d + 1) (some (payment_id_of d (it ∷ items) + 1)) in
    let (r, os, is, ps, cks) = place-created user d.next_id t s h7 distinct in
    let pay =
      new_payment (payment_id_of d (it ∷ items)) (payment_id_of d (it ∷ items) + 1) (order_id_of d)
        t.total in
    let found =
      new_payment_found (payment_id_of d (it ∷ items)) (payment_id_of d (it ∷ items) + 1)
        (order_id_of d) t.total d.payments h8 in
    let free =
      none_holds (payment_id_of d (it ∷ items)) (payment_id_of d (it ∷ items) + 1) (order_id_of d)
        t.total poid d.payments h9 in
    let (r', os', is', ps', cks') =
      settle-created psp poid i_key cs.id answers resp (payment_id_of d (it ∷ items) + 1) pay
        (m s).1 refl (rw ps found) (rw ps free) in
    let run =
      place_order-enters psp others now user checkout_id i_key d cs it items h1 h2 h3 h4 h5 h6
      ∙ run->>= m (settle_order psp i_key cs.id) s resp r in
    (
      ap (λ z. z.0) run ∙ r',
      ap (λ z. z.1.committed.orders) run ∙ os' ∙ os,
      ap (λ z. z.1.committed.order_items) run ∙ is' ∙ is,
      ap (λ z. z.1.committed.payments) run ∙ ps' ∙ rw ps,
      ap (λ z. z.1.committed.checkouts) run ∙ cks' ∙ rw cks,
    )
