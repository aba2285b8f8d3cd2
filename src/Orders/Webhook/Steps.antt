-- ===== src/Orders/Webhook/Steps.antt =====
-- What one handled webhook may do to the payments and the orders.
use Prim.Native.String.{String}
use phyllonix.Base.{
  Result-cases, raise, ◌∙◌, ap, ℕ, ◌≡◌, refl, inl, inr, ◌⊎◌, Bool-cases, Option, none, some, arith,
  ◌==◌, find_where, update_where, Option-cases, ok, err, Error, Session,
}
use phyllonix.Schema.{Payment, payment_value, Orders, PaymentWebhookEvent}
use phyllonix.Orders.Shop.{Shop}
use phyllonix.Orders.PayStatus.{StatusUpdate, pay_order_status_util}
use phyllonix.Orders.Webhook.Tables.{
  has_event, advances, completed, complete_payment, update_pay_completion_get_orderid,
  mark_webhook_received, insert_event, update_order_status, create_commit_intent, emit_outbox_event,
  mark_webhook_processed, webhook_error_recorded,
}
use phyllonix.Orders.Webhook.Handler.{
  or_else, Payload, critical, settle, emit_for, process_event, handle_payment, handle_record,
  or_record_error,
}

-- What a request that was applied did to the payments and the orders.
pub record Applied (now : ℕ) (d d' : Shop) : Type 0 where
  pub pay_id : ℕ
  pub provider_payment_id : ℕ
  pub entity_status : Option String
  pub event : Option String
  pub update : StatusUpdate
  pub from_util : pay_order_status_util entity_status event ≡ ok update
  pub payment : Payment
  pub found : find_where (advances pay_id update.payment_status) d.payments ≡ some payment
  pub payments_eq :
      d'.payments
      ≡ update_where
          (advances pay_id update.payment_status)
          (completed now provider_payment_id update.payment_status)
          d.payments
  pub orders_eq :
      d'.orders
      ≡ update_where
          (λ (o : Orders). o.id == payment.order_id)
          (λ o. record o { status = update.order_status })
          d.orders

-- Neither table changed.
pub record Untouched (d d' : Shop) : Type 0 where
  pub payments_eq : d'.payments ≡ d.payments
  pub orders_eq : d'.orders ≡ d.orders

abbrev Kept : Session Shop → Shop → Type 0
Kept s d = (s.committed.payments ≡ d.payments) × (s.committed.orders ≡ d.orders)

-- The critical section commits nothing, or both updates.
critical-none :
    (now pay_id pid ev_id : ℕ) (u : StatusUpdate) (s : Session Shop)
    → find_where (advances pay_id u.payment_status) s.work.payments ≡ none
    → (critical now pay_id pid ev_id u s).1.committed ≡ s.committed
unfolding critical settle update_pay_completion_get_orderid complete_payment
critical-none now pay_id pid ev_id u s h = ground arith

critical-some :
    (now pay_id pid ev_id : ℕ) (u : StatusUpdate) (s : Session Shop) (p : Payment)
    → find_where (advances pay_id u.payment_status) s.work.payments ≡ some p
    → ((critical now pay_id pid ev_id u s).1.committed ≡ s.committed)
      ⊎ (((critical now pay_id pid ev_id u s).1.committed.payments
            ≡ update_where
                (advances pay_id u.payment_status)
                (completed now pid u.payment_status)
                s.work.payments)
          × ((critical now pay_id pid ev_id u s).1.committed.orders
              ≡ update_where
                  (λ (o : Orders). o.id == p.order_id)
                  (λ o. record o { status = u.order_status })
                  s.work.orders))
unfolding critical settle update_pay_completion_get_orderid complete_payment emit_for
    update_order_status create_commit_intent emit_outbox_event mark_webhook_processed
critical-some now pay_id pid ev_id u s p h = ground arith

critical-err :
    (now pay_id pid ev_id : ℕ) (u : StatusUpdate) (s : Session Shop) (x : Error)
    → (critical now pay_id pid ev_id u s).0 ≡ err x
    → (critical now pay_id pid ev_id u s).1.committed ≡ s.committed
unfolding critical settle update_pay_completion_get_orderid complete_payment emit_for
    update_order_status create_commit_intent emit_outbox_event mark_webhook_processed
critical-err now pay_id pid ev_id u s x h = ground arith

-- A processed event leaves what the critical section committed, or an error mark.
process_event-none :
    (now pay_id pid : ℕ) (u : StatusUpdate) (s : Session Shop)
    → (process_event now pay_id pid u none s).1.committed ≡ s.committed
unfolding process_event
process_event-none now pay_id pid u s = ground arith

process_event-some :
    (now pay_id pid : ℕ) (u : StatusUpdate) (e : PaymentWebhookEvent) (s : Session Shop)
    → Kept (process_event now pay_id pid u (some e) s).1 s.committed
      ⊎ ((process_event now pay_id pid u (some e) s).1.committed
          ≡ (critical now pay_id pid e.id u s).1.committed)
unfolding process_event or_record_error webhook_error_recorded
process_event-some now pay_id pid u e s = ground (arith, critical-err now pay_id pid e.id u s)

-- What a handled payment may have done, for the update that was derived from the payload.
abbrev Outcome : ℕ → ℕ → ℕ → StatusUpdate → Session Shop → Session Shop → Type 0
Outcome now pay_id pid u s s' =
    (Kept s' s.committed)
    ⊎ ((p : Payment) × (find_where (advances pay_id u.payment_status) s.work.payments ≡ some p)
        × (s'.committed.payments
            ≡ update_where (advances pay_id u.payment_status) (completed now pid u.payment_status)
                s.work.payments)
        × (s'.committed.orders
            ≡ update_where (λ (o : Orders). o.id == p.order_id)
                (λ o. record o { status = u.order_status }) s.work.orders))

critical-Outcome :
    (now pay_id pid ev_id : ℕ) (u : StatusUpdate) (s : Session Shop)
    → Outcome now pay_id pid u s (critical now pay_id pid ev_id u s).1
critical-Outcome now pay_id pid ev_id u s =
    elim (Option-cases (find_where (advances pay_id u.payment_status) s.work.payments)) [
      | inl h ↦ inl (rw (critical-none now pay_id pid ev_id u s h) (refl, refl))
      | inr (p, h) ↦ elim (critical-some now pay_id pid ev_id u s p h) [
        | inl same ↦ inl (rw same (refl, refl))
        | inr (a, b) ↦ inr (p, h, a, b)
      ]
    ]

process_event-Outcome :
    (now pay_id pid : ℕ) (u : StatusUpdate) (ev : Option PaymentWebhookEvent) (s : Session Shop)
    → Outcome now pay_id pid u s (process_event now pay_id pid u ev s).1
process_event-Outcome now pay_id pid u none s =
    inl (rw (process_event-none now pay_id pid u s) (refl, refl))
process_event-Outcome now pay_id pid u (some e) s = elim (process_event-some now pay_id pid u e s) [
  | inl kept ↦ inl kept
  | inr same ↦ rw same (critical-Outcome now pay_id pid e.id u s)
]

-- A request leaves both tables, or applies one update to them.
abbrev pub Step : ℕ → Shop → Shop → Type 0
Step now d d' = Untouched d d' ⊎ Applied now d d'

-- Storing the event never fails and leaves the payments and the orders.
mark-ok :
    (event_id : ℕ) (order_id : Option ℕ) (status : ℕ) (s : Session Shop)
    → (ev : Option PaymentWebhookEvent) × (mark_webhook_received event_id order_id status s
        ≡ (ok ev, (mark_webhook_received event_id order_id status s).1))
unfolding mark_webhook_received insert_event
mark-ok event_id order_id status s =
    elim (Option-cases (find_where (has_event event_id) s.work.webhook_events)) [
      | inl h ↦ rw h (_, refl)
      | inr (e, h) ↦ rw h (_, refl)
    ]

mark-keeps :
    (event_id : ℕ) (order_id : Option ℕ) (status : ℕ) (s : Session Shop)
    → ((mark_webhook_received event_id order_id status s).1.committed ≡ s.committed)
      × ((mark_webhook_received event_id order_id status s).1.work.payments ≡ s.work.payments)
      × ((mark_webhook_received event_id order_id status s).1.work.orders ≡ s.work.orders)
unfolding mark_webhook_received insert_event
mark-keeps event_id order_id status s = ground arith

abbrev pub opened : Shop → Session Shop
opened d = record { work = d; committed = d }

handle_payment-refused :
    (now event_id : ℕ) (payload : Payload) (pay : Payment) (s : Session Shop)
    → (or_else payload.entity_id payload.entity_payment_id ≡ none)
      ⊎ ((x : Error) × (pay_order_status_util payload.entity_status payload.event ≡ err x))
    → (handle_payment now event_id payload pay s).1 ≡ s
unfolding handle_payment
handle_payment-refused now event_id payload pay s h = ground arith

handle_payment-run :
    (now event_id pid : ℕ) (payload : Payload) (pay : Payment) (u : StatusUpdate)
    (s s' : Session Shop) (ev : Option PaymentWebhookEvent)
    → or_else payload.entity_id payload.entity_payment_id ≡ some pid
    → pay_order_status_util payload.entity_status payload.event ≡ ok u
    → mark_webhook_received event_id (some pay.order_id) (payment_value u.payment_status) s
      ≡ (ok ev, s')
    → handle_payment now event_id payload pay s ≡ process_event now pay.id pid u ev s'
unfolding handle_payment
handle_payment-run now event_id pid payload pay u s s' ev hp hu hm =
    rw (hp, hu)
      (ap (λ m. elim m.0 [ ok a ↦ process_event now pay.id pid u a m.1 | err e ↦ raise e m.1 ]) hm)

Outcome-Step :
    (now pid : ℕ) (st ev : Option String) (pay : Payment) (u : StatusUpdate) (d : Shop)
    (s s' : Session Shop)
    → pay_order_status_util st ev ≡ ok u
    → s.committed ≡ d
    → s.work.payments ≡ d.payments
    → s.work.orders ≡ d.orders
    → Outcome now pay.id pid u s s'
    → Step now d s'.committed
Outcome-Step now pid st ev pay u d s s' hu hd hp ho (inl (a, b)) =
    inl
      (record { payments_eq = a ∙ ap (λ c. c.payments) hd; orders_eq = b ∙ ap (λ c. c.orders) hd })
Outcome-Step now pid st ev pay u d s s' hu hd hp ho (inr (p, h, a, b)) = inr (record {
  pay_id = pay.id;
  provider_payment_id = pid;
  entity_status = st;
  event = ev;
  update = u;
  from_util = hu;
  payment = p;
  found = rw (← hp) h;
  payments_eq = rw (← hp) a;
  orders_eq = rw (← ho) b;
})

pub kept-Step : (now : ℕ) (d d' : Shop) → d' ≡ d → Step now d d'
kept-Step now d d' h =
    inl (record { payments_eq = ap (λ c. c.payments) h; orders_eq = ap (λ c. c.orders) h })

pub handle_payment-Step :
    (now event_id : ℕ) (payload : Payload) (pay : Payment) (d : Shop)
    → Step now d (handle_payment now event_id payload pay (opened d)).1.committed
handle_payment-Step now event_id payload pay d =
    elim (Option-cases (or_else payload.entity_id payload.entity_payment_id)) [
      | inl h ↦ kept-Step now d _ (
          ap (λ s. s.committed)
            (handle_payment-refused now event_id payload pay (opened d) (inl h)))
      | inr (pid, hp) ↦
          elim (Result-cases (pay_order_status_util payload.entity_status payload.event)) [
            | inr x ↦ kept-Step now d _ (
                ap (λ s. s.committed)
                  (handle_payment-refused now event_id payload pay (opened d) (inr x)))
            | inl (u, hu) ↦
                let status = payment_value u.payment_status in
                let s' = (mark_webhook_received event_id (some pay.order_id) status (opened d)).1 in
                let (ev, hm) = mark-ok event_id (some pay.order_id) status (opened d) in
                let (hc, hp', ho) = mark-keeps event_id (some pay.order_id) status (opened d) in
                rw (handle_payment-run now event_id pid payload pay u (opened d) s' ev hp hu hm) (
                  Outcome-Step now pid payload.entity_status payload.event pay u d s'
                    (process_event now pay.id pid u ev s').1 hu hc hp' ho
                    (process_event-Outcome now pay.id pid u ev s'))
          ]
    ]

pub handle_record-cases :
    (now event_id : ℕ) (payload : Payload) (pay : Option Payment) (d : Shop)
    → ((handle_record now event_id payload pay (opened d)).1.committed ≡ d)
      ⊎ ((p : Payment) × (pay ≡ some p)
          × (handle_record now event_id payload pay (opened d)
              ≡ handle_payment now event_id payload p (opened d)))
unfolding handle_record
handle_record-cases now event_id payload none d =
    inl
      (ground (arith, mark-keeps event_id none 10 (opened d), mark-ok event_id none 10 (opened d)))
handle_record-cases now event_id payload (some p) d = elim (Bool-cases (p.order_id == 0)) [
  | inl z ↦ inl (
      rw z (
        ground
          (arith, mark-keeps event_id none 10 (opened d), mark-ok event_id none 10 (opened d))))
  | inr nz ↦ inr (p, refl, rw nz)
]
