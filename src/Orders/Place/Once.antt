-- ===== src/Orders/Place/Once.antt =====
-- One order per idempotency record and per checkout.
use phyllonix.Base.{
  ◌>>◌, ==_iff, Keeps, Keeps->>=, ℕ, zero, suc, ◌+◌, ◌≤◌, ◌≡◌, inl, inr, Bool, true, false, Option,
  none, some, List, [], ◌∷◌, arith, Session, ok, err, http, find_where, sum_where, in_session, ◌==◌,
  sum_where-append, Option-cases, Bool-cases,
}
use phyllonix.Schema.{
  Item, PayMethod, CheckoutSession, IdempotencyKey, Orders, OrderResponse, Payment,
}
use phyllonix.Orders.Shop.{Shop}
use phyllonix.Orders.Checkout.{is_checkout, update_checkout_activeness}
use phyllonix.Orders.Totals.{Totals, compute_final_total}
use phyllonix.Orders.Place.Tables.{
  new_order, key_of, KeyData, key_data, spc_by_ikey, validate_checkout_get_items_paymethod,
  Confirmed, record_order_idempotency, place_order_with_items, finish_order,
  record_payment_init_pending, update_order_idempotency_record, update_payment_status_nprovider,
  update_idempotent_response,
}
use phyllonix.Orders.Place.Attempts.{
  Tried, judge, answer, pay_for, PspOutcome, create_payment_intent, retry_payments, retry_from,
  attempt, record_payment_attempt, update_payment_attempt_resp,
}
use phyllonix.Orders.Place.Handler.{
  close_checkout, settle_order, reply_or_confirm, reply_or_record, confirm_checkout, replayed,
  place_order, with_key, record_and_confirm, with_record, confirm_order, after_sleep, pay_or_reply,
  sleep,
}

-- A confirmation with a key whose record holds a response answers with it and changes no table,
-- provided that the checkout is live, has its items and method, and is the one of the record.
pub place_order-replays :
    (psp : ℕ → PspOutcome) (others : Shop → Shop) (now user checkout_id i_key : ℕ) (d : Shop)
    (cs : CheckoutSession) (m : PayMethod) (it : Item) (items : List Item) (k : IdempotencyKey)
    (body : OrderResponse)
    → find_where (is_checkout checkout_id user) d.checkouts ≡ some cs
    → now + 40 ≤ cs.expires_at
    → cs.selected_payment_method ≡ some m
    → cs.cart_snapshot ≡ some (it ∷ items)
    → find_where (key_of i_key user) d.idempotency_keys ≡ some k
    → now + 40 ≤ k.expires_at
    → k.cs_id ≡ cs.id
    → k.response_body ≡ some body
    → in_session (place_order psp others now user checkout_id (some i_key)) d
      ≡ (ok (replayed body), d)
unfolding place_order validate_checkout_get_items_paymethod spc_by_ikey key_data with_key
    confirm_checkout reply_or_record
place_order-replays psp others now user checkout_id i_key d cs m it items k body h1 h2 h3 h4 h5 h6
      h7 h8 =
    ground arith

-- A confirmation of a checkout that is not active, or not the user's, answers 403 and changes
-- nothing.
closed-refused :
    (psp : ℕ → PspOutcome) (others : Shop → Shop) (now user checkout_id i_key : ℕ) (d : Shop)
    → find_where (is_checkout checkout_id user) d.checkouts ≡ none
    → in_session (place_order psp others now user checkout_id (some i_key)) d ≡ (err (http 403), d)
unfolding place_order validate_checkout_get_items_paymethod
closed-refused psp others now user checkout_id i_key d h = ground arith

-- The number of orders of an idempotency record.
abbrev pub orders_of : ℕ → List Orders → ℕ
orders_of ik_id = sum_where (λ (o : Orders). o.ik_id == ik_id) (λ _. 1)

-- The record has at most one order, in the open transaction and in what is committed.
abbrev pub AtMostOne : ℕ → Session Shop → Type 0
AtMostOne k s = (orders_of k s.work.orders ≤ 1) × (orders_of k s.committed.orders ≤ 1)

validate-AtMostOne :
    (k now checkout_id user : ℕ)
    → Keeps (AtMostOne k) (validate_checkout_get_items_paymethod now checkout_id user)
unfolding validate_checkout_get_items_paymethod update_checkout_activeness
validate-AtMostOne k now checkout_id user s h = ground arith

spc-AtMostOne : (k now i_key user : ℕ) → Keeps (AtMostOne k) (spc_by_ikey now i_key user)
unfolding spc_by_ikey key_data
spc-AtMostOne k now i_key user s h = ground arith

record-AtMostOne :
    (k now i_key user cs_id : ℕ)
    → Keeps (AtMostOne k) (record_order_idempotency now i_key user cs_id)
unfolding record_order_idempotency
record-AtMostOne k now i_key user cs_id s h = ground arith

place-AtMostOne :
    (k user ik_id : ℕ) (m : PayMethod) (t : Totals)
    → Keeps (AtMostOne k) (place_order_with_items user m t ik_id)
unfolding place_order_with_items finish_order record_payment_init_pending
    update_order_idempotency_record
place-AtMostOne k user ik_id m t s h = elim (Bool-cases (ik_id == k)) [
  | inl same ↦
      let e = (==_iff ik_id k).0 same in
      ground (
        arith,
        e,
        sum_where-append (λ (o : Orders). o.ik_id == k) (λ _. 1) s.work.orders
            (new_order s.work.next_id (s.work.next_id + 1) ik_id user m t ∷ []),
      )
  | inr other ↦ ground (
    arith,
    other,
    sum_where-append (λ (o : Orders). o.ik_id == k) (λ _. 1) s.work.orders
        (new_order s.work.next_id (s.work.next_id + 1) ik_id user m t ∷ []),
  )
]

attempt-AtMostOne :
    (k payment_id idx : ℕ) (o : PspOutcome) → Keeps (AtMostOne k) (attempt payment_id o idx)
unfolding attempt record_payment_attempt update_payment_attempt_resp
attempt-AtMostOne k payment_id idx o s h = h

retry_from-AtMostOne :
    (k : ℕ) (psp : ℕ → PspOutcome) (payment_id left idx : ℕ) (failed : Bool)
    → Keeps (AtMostOne k) (retry_from psp payment_id left idx failed)
unfolding retry_from
retry_from-AtMostOne k psp payment_id zero idx failed s h = h
retry_from-AtMostOne k psp payment_id (suc left) idx failed s h =
    let s' = (attempt payment_id (psp (suc idx)) (suc idx) s).1 in
    let h' = attempt-AtMostOne k payment_id (suc idx) (psp (suc idx)) s h in
    ground (arith, retry_from-AtMostOne k psp payment_id left (suc idx) true s' h')

judge-AtMostOne :
    (k i_key : ℕ) (pay : Payment) (order_data : OrderResponse) (t : Tried)
    → Keeps (AtMostOne k) (judge i_key pay order_data t)
unfolding judge answer record_payment_attempt update_payment_status_nprovider
    update_idempotent_response
judge-AtMostOne k i_key pay order_data t s h = ground arith

pay_for-AtMostOne :
    (k : ℕ) (psp : ℕ → PspOutcome) (i_key : ℕ) (order_data : OrderResponse) (pay : Option Payment)
    → Keeps (AtMostOne k) (pay_for psp i_key order_data pay)
unfolding pay_for retry_payments
pay_for-AtMostOne k psp i_key order_data none s h = h
pay_for-AtMostOne k psp i_key order_data (some pay) s h =
    Keeps->>= (AtMostOne k) (retry_from psp pay.id 3 0 false) (judge i_key pay order_data)
      (retry_from-AtMostOne k psp pay.id 3 0 false) (judge-AtMostOne k i_key pay order_data) s h

close_checkout-AtMostOne :
    (k cs_id : ℕ) (r : OrderResponse) → Keeps (AtMostOne k) (close_checkout cs_id r)
unfolding close_checkout update_checkout_activeness
close_checkout-AtMostOne k cs_id r s h = (h.0, h.0)

pay_or_reply-AtMostOne :
    (k : ℕ) (psp : ℕ → PspOutcome) (i_key cs_id : ℕ) (resp : OrderResponse) (o : Option ℕ)
    → Keeps (AtMostOne k) (pay_or_reply psp i_key cs_id resp o)
unfolding pay_or_reply create_payment_intent
pay_or_reply-AtMostOne k psp i_key cs_id resp none s h = h
pay_or_reply-AtMostOne k psp i_key cs_id resp (some pay_pid) s h =
    Keeps->>= (AtMostOne k) (create_payment_intent psp i_key pay_pid resp) (close_checkout cs_id)
      (λ s' h'.
        pay_for-AtMostOne k psp i_key resp
          (find_where (λ (p : Payment). p.public_id == pay_pid) s'.work.payments) s' h')
      (close_checkout-AtMostOne k cs_id) s h

settle_order-AtMostOne :
    (k : ℕ) (psp : ℕ → PspOutcome) (i_key cs_id : ℕ) (resp : OrderResponse)
    → Keeps (AtMostOne k) (settle_order psp i_key cs_id resp)
unfolding settle_order
settle_order-AtMostOne k psp i_key cs_id resp s h =
    pay_or_reply-AtMostOne k psp i_key cs_id resp resp.pay_public_id
      (record { work = s.work; committed = s.work }) (h.0, h.0)

confirm_order-AtMostOne :
    (k : ℕ) (psp : ℕ → PspOutcome) (i_key user : ℕ) (c : Confirmed) (ik_id : ℕ)
    → Keeps (AtMostOne k) (confirm_order psp i_key user c ik_id)
unfolding confirm_order
confirm_order-AtMostOne k psp i_key user c ik_id =
    let t = compute_final_total c.items c.payment_method in
    Keeps->>= (AtMostOne k) (place_order_with_items user c.payment_method t ik_id)
      (settle_order psp i_key c.cs_id) (place-AtMostOne k user ik_id c.payment_method t)
      (settle_order-AtMostOne k psp i_key c.cs_id)

module _ (k : ℕ) (psp : ℕ → PspOutcome) (others : Shop → Shop)
    (fair : (d : Shop) → orders_of k d.orders ≤ 1 → orders_of k (others d).orders ≤ 1)
    (now i_key user : ℕ) where
  after_sleep-AtMostOne :
      (c : Confirmed) (o : Option KeyData) → Keeps (AtMostOne k) (after_sleep psp i_key user c o)
  unfolding after_sleep reply_or_confirm
  after_sleep-AtMostOne c none s h = h
  after_sleep-AtMostOne c (some found) s h = elim (Option-cases found.response_body) [
    | inl none_stored ↦ rw none_stored (confirm_order-AtMostOne k psp i_key user c found.ik_id s h)
    | inr (body, stored) ↦ rw stored h
  ]

  sleep-AtMostOne : Keeps (AtMostOne k) (sleep others)
  unfolding sleep
  sleep-AtMostOne s h = (fair s.work h.0, fair s.committed h.1)

  with_record-AtMostOne :
      (c : Confirmed) (o : Option ℕ)
      → Keeps (AtMostOne k) (with_record psp others now i_key user c o)
  unfolding with_record
  with_record-AtMostOne c (some ik_id) s h = confirm_order-AtMostOne k psp i_key user c ik_id s h
  with_record-AtMostOne c none s h =
      Keeps->>= (AtMostOne k) (sleep others >> spc_by_ikey (now + 5) i_key user)
        (after_sleep psp i_key user c)
        (Keeps->>= (AtMostOne k) (sleep others) (λ _. spc_by_ikey (now + 5) i_key user)
          sleep-AtMostOne (λ _. spc-AtMostOne k (now + 5) i_key user))
        (after_sleep-AtMostOne c) s h

  record-confirm-AtMostOne :
      (c : Confirmed) → Keeps (AtMostOne k) (record_and_confirm psp others now i_key user c)
  unfolding record_and_confirm
  record-confirm-AtMostOne c =
      Keeps->>= (AtMostOne k) (record_order_idempotency now i_key user c.cs_id)
        (with_record psp others now i_key user c) (record-AtMostOne k now i_key user c.cs_id)
        (with_record-AtMostOne c)

  with_key-AtMostOne :
      (c : Confirmed) (o : Option KeyData)
      → Keeps (AtMostOne k) (with_key psp others now i_key user c o)
  unfolding with_key reply_or_record
  with_key-AtMostOne c none s h = record-confirm-AtMostOne c s h
  with_key-AtMostOne c (some found) s h = ground (arith, record-confirm-AtMostOne c s h)

  confirm_checkout-AtMostOne :
      (c : Confirmed) → Keeps (AtMostOne k) (confirm_checkout psp others now i_key user c)
  unfolding confirm_checkout
  confirm_checkout-AtMostOne c =
      Keeps->>= (AtMostOne k) (spc_by_ikey now i_key user) (with_key psp others now i_key user c)
        (spc-AtMostOne k now i_key user) (with_key-AtMostOne c)

  -- However a confirmation ends, and whatever the provider answers, an idempotency record that
  -- had at most one order has at most one after it, if the requests that run while it sleeps
  -- ensure the same.
  pub place_order-AtMostOne :
      (checkout_id : ℕ) (d : Shop)
      → orders_of k d.orders ≤ 1
      → orders_of k
          (in_session (place_order psp others now user checkout_id (some i_key)) d).1.orders
        ≤ 1
  unfolding place_order
  place_order-AtMostOne checkout_id d h =
      (Keeps->>= (AtMostOne k) (validate_checkout_get_items_paymethod now checkout_id user)
        (confirm_checkout psp others now i_key user) (validate-AtMostOne k now checkout_id user)
        confirm_checkout-AtMostOne (record { work = d; committed = d }) (h, h)).1
