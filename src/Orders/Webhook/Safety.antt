-- ===== src/Orders/Webhook/Safety.antt =====
-- What no webhook request can do: forge, or move a payment backwards.
use phyllonix.Base.{
  ◌∙◌, ap, select_where, Result-cases, ℕ, ◌≤◌, ◌≡◌, ◌≢◌, refl, inl, inr, ◌⊎◌, Bool-cases, Bool,
  Option, none, some, List, [], ◌∷◌, arith, ◌==◌, find_where, update_where, in_session,
  Option-cases, ok, err, Error, crash, Session, find_where-update_where,
}
use phyllonix.Schema.{Payment, PaymentStatus, payment_value}
use phyllonix.Orders.Shop.{Shop}
use phyllonix.Orders.Webhook.Tables.{
  one_or_none, opt_eq, advances, completed, get_pay_record_by_provider_orderid,
}
use phyllonix.Orders.Webhook.Handler.{
  Payload, Request, handle_record, process_request, razorpay_webhook, verify_razorpay_signature,
}
use phyllonix.Orders.Webhook.Publish.{pair_eq, razorpay_webhook-tables, razorpay_webhook-err}
use phyllonix.Orders.Webhook.Steps.{
  opened, Step, kept-Step, handle_payment-Step, handle_record-cases,
}

process_request-unsigned :
    (hmac : ℕ → ℕ) (loads : ℕ → Option Payload) (now : ℕ) (req : Request) (d : Shop)
    → req.signature ≢ some (hmac req.body)
    → in_session (process_request hmac loads now req) d ≡ (err crash, d)
unfolding process_request verify_razorpay_signature
process_request-unsigned hmac loads now req d h = ground arith

-- A request whose signature is missing, or is not the HMAC of its body, ends in a server error and
-- changes no table, whatever its body.
pub unsigned-changes_nothing :
    (hmac : ℕ → ℕ) (loads : ℕ → Option Payload) (room now : ℕ) (req : Request) (d : Shop)
    → req.signature ≢ some (hmac req.body)
    → in_session (razorpay_webhook hmac loads room now req) d ≡ (err crash, d)
unsigned-changes_nothing hmac loads room now req d h =
    let refused = process_request-unsigned hmac loads now req d h in
    pair_eq (in_session (razorpay_webhook hmac loads room now req) d) _ _
      (razorpay_webhook-err hmac loads room now req d crash (ap (λ q. q.0) refused))
      (razorpay_webhook-tables hmac loads room now req d ∙ ap (λ q. q.1) refused)

quiet-verify :
    (hmac : ℕ → ℕ) (req : Request) (s : Session Shop) → (verify_razorpay_signature hmac req s).1 ≡ s
unfolding verify_razorpay_signature
quiet-verify hmac req s = ground arith

quiet-one : (rows : List Payment) (s : Session Shop) → (one_or_none rows s).1 ≡ s
quiet-one [] s = refl
quiet-one (p ∷ []) s = refl
quiet-one (p ∷ q ∷ ps) s = refl

quiet-lookup :
    (oid : Option ℕ) (s : Session Shop) → (get_pay_record_by_provider_orderid oid s).1 ≡ s
unfolding get_pay_record_by_provider_orderid
quiet-lookup oid s =
    quiet-one (select_where (λ (p : Payment). opt_eq p.provider_order_id oid) s.work.payments) s

module _ (hmac : ℕ → ℕ) (loads : ℕ → Option Payload) (now : ℕ) (req : Request) (d : Shop) where
  abbrev after : Shop
  after = (in_session (process_request hmac loads now req) d).1

  webhook-refused :
      ((x : Error) × ((verify_razorpay_signature hmac req (opened d)).0 ≡ err x))
        ⊎ ((loads req.body ≡ none) ⊎ (req.event_id ≡ none))
      → after ≡ d
  unfolding process_request
  webhook-refused h = ground (arith, quiet-verify hmac req (opened d))

  webhook-unmatched :
      (payload : Payload) (x : Error)
      → loads req.body ≡ some payload
      → (get_pay_record_by_provider_orderid payload.entity_order_id (opened d)).0 ≡ err x
      → after ≡ d
  unfolding process_request
  webhook-unmatched payload x hl h =
      ground
        (arith, quiet-verify hmac req (opened d), quiet-lookup payload.entity_order_id (opened d))

  webhook-run :
      (payload : Payload) (event_id : ℕ) (pay : Option Payment)
      → (verify_razorpay_signature hmac req (opened d)).0 ≡ ok tt
      → loads req.body ≡ some payload
      → req.event_id ≡ some event_id
      → (get_pay_record_by_provider_orderid payload.entity_order_id (opened d)).0 ≡ ok pay
      → after ≡ (handle_record now event_id payload pay (opened d)).1.committed
  unfolding process_request
  webhook-run payload event_id pay hv hl he hg =
      ground
        (arith, quiet-verify hmac req (opened d), quiet-lookup payload.entity_order_id (opened d))

  process_request-Step : Step now d after
  process_request-Step = elim (Result-cases (verify_razorpay_signature hmac req (opened d)).0) [
    | inr h ↦ kept-Step now d _ (webhook-refused (inl h))
    | inl (t, hv) ↦ elim (Option-cases (loads req.body)) [
      | inl h ↦ kept-Step now d _ (webhook-refused (inr (inl h)))
      | inr (payload, hl) ↦ elim (Option-cases req.event_id) [
        | inl h ↦ kept-Step now d _ (webhook-refused (inr (inr h)))
        | inr (event_id, he) ↦
            elim (Result-cases
              (get_pay_record_by_provider_orderid payload.entity_order_id (opened d)).0) [
                | inr (x, h) ↦ kept-Step now d _ (webhook-unmatched payload x hl h)
                | inl (pay, hg) ↦
                    rw (webhook-run payload event_id pay hv hl he hg)
                      (elim (handle_record-cases now event_id payload pay d) [
                        | inl same ↦ kept-Step now d _ same
                        | inr (p, e, run) ↦ rw run (handle_payment-Step now event_id payload p d)
                      ])
              ]
      ]
    ]
  ]

-- Every request leaves the payments and the orders, or applies one update to them.
pub webhook-Step :
    (hmac : ℕ → ℕ) (loads : ℕ → Option Payload) (room now : ℕ) (req : Request) (d : Shop)
    → Step now d (in_session (razorpay_webhook hmac loads room now req) d).1
webhook-Step hmac loads room now req d =
    rw (razorpay_webhook-tables hmac loads room now req d)
      (process_request-Step hmac loads now req d)

abbrev pub with_id : ℕ → Payment → Bool
with_id id p = p.id == id

advance-monotone :
    (now pay_id pid : ℕ) (st : PaymentStatus) (id : ℕ) (ps : List Payment) (p : Payment)
    → find_where (with_id id) ps ≡ some p
    → (q : Payment) × (find_where
          (with_id id)
          (update_where (advances pay_id st) (completed now pid st) ps)
        ≡ some q)
      × (payment_value p.status ≤ payment_value q.status)
advance-monotone now pay_id pid st id ps p h = (
  _,
  find_where-update_where (with_id id) (advances pay_id st) (completed now pid st) ps p (λ _. refl)
      h,
  elim (Bool-cases (advances pay_id st p)) [
    | inl up ↦ rw up (ground arith)
    | inr kept ↦ rw kept (omega arith)
  ],
)

Step-monotone :
    (now : ℕ) (d d' : Shop) (id : ℕ) (p : Payment)
    → Step now d d'
    → find_where (with_id id) d.payments ≡ some p
    → (q : Payment) × (find_where (with_id id) d'.payments ≡ some q)
      × (payment_value p.status ≤ payment_value q.status)
Step-monotone now d d' id p (inl same) h = (p, rw same.payments_eq h, omega arith)
Step-monotone now d d' id p (inr a) h =
    rw a.payments_eq (
      advance-monotone now a.pay_id a.provider_payment_id a.update.payment_status id d.payments p h)

-- No request, whatever its content and order of arrival, removes a payment or lowers its status in
-- the order pending, accepted, authorized, failed, captured, refunded.
pub razorpay_webhook-monotone :
    (hmac : ℕ → ℕ) (loads : ℕ → Option Payload) (room now : ℕ) (req : Request) (d : Shop) (id : ℕ)
    (p : Payment)
    → find_where (with_id id) d.payments ≡ some p
    → (q : Payment) × (find_where
          (with_id id)
          (in_session (razorpay_webhook hmac loads room now req) d).1.payments
        ≡ some q)
      × (payment_value p.status ≤ payment_value q.status)
razorpay_webhook-monotone hmac loads room now req d id p h =
    Step-monotone now d _ id p (webhook-Step hmac loads room now req d) h
