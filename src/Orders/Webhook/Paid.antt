-- ===== src/Orders/Webhook/Paid.antt =====
-- A captured payment belongs to a confirmed order, through any sequence of webhook requests.
use mathlib.Core.Path.{subst}
use mathlib.Core.Option.{some-injective}
use phyllonix.Base.{
  if◌then◌else◌, ℕ, ◌≡◌, ◌≢◌, refl, sym, ◌∙◌, ap, inl, inr, Bool-cases, Bool, true, false, Option,
  some, List, [], ◌∷◌, arith, ◌==◌, ==_iff, find_where, update_where, find_where-holds,
  find_where-narrow, find_where-updated, All, All-find_where, All-update_where, in_session,
}
use phyllonix.Schema.{Payment, PaymentStatus, OrderStatus, Orders}
use phyllonix.Orders.Shop.{Shop}
use phyllonix.Orders.PayStatus.{confirmed-iff-captured}
use phyllonix.Orders.Webhook.Tables.{advances, completed}
use phyllonix.Orders.Webhook.Handler.{Payload, Request, razorpay_webhook}
use phyllonix.Orders.Webhook.Steps.{Step, Applied}
use phyllonix.Orders.Webhook.Safety.{with_id, webhook-Step}

abbrev order_is : ℕ → Orders → Bool
order_is id o = o.id == id

-- The unique key order_id of the payments.
abbrev pub UniqueOrders : List Payment → Type 0
UniqueOrders [] = Unit
UniqueOrders (p ∷ ps) = All (λ (q : Payment). q.order_id ≢ p.order_id) ps × UniqueOrders ps

-- One payment per order, and the order of a captured payment is confirmed.
pub record Paid (d : Shop) : Type 0 where
  pub unique : UniqueOrders d.payments
  pub confirmed :
      (id : ℕ) (p : Payment)
      → find_where (with_id id) d.payments ≡ some p
      → p.status ≡ PaymentStatus.captured
      → (o : Orders) → find_where (order_is p.order_id) d.orders ≡ some o
      → o.status ≡ OrderStatus.confirmed

-- Two rows found by any tests that share the order are one row.
UniqueOrders-find_where :
    (ps : List Payment) (f g : Payment → Bool) (p q : Payment)
    → UniqueOrders ps
    → find_where f ps ≡ some p
    → find_where g ps ≡ some q
    → p.order_id ≡ q.order_id
    → p ≡ q
UniqueOrders-find_where [] f g p q u hf hg e = cc
UniqueOrders-find_where (x ∷ ps) f g p q u hf hg e = elim (Bool-cases (f x)) [
  | inl a ↦ elim (Bool-cases (g x)) [
    | inl b ↦ cc (rw a at hf, rw b at hg)
    | inr b ↦ absurd (
        All-find_where (λ (r : Payment). r.order_id ≢ x.order_id) g ps q u.0 (rw b at hg)
          (sym e ∙ ap (λ (r : Payment). r.order_id) (sym (some-injective _ _ (rw a at hf)))))
  ]
  | inr a ↦ elim (Bool-cases (g x)) [
    | inl b ↦ absurd (
        All-find_where (λ (r : Payment). r.order_id ≢ x.order_id) f ps p u.0 (rw a at hf)
          (e ∙ ap (λ (r : Payment). r.order_id) (sym (some-injective _ _ (rw b at hg)))))
    | inr b ↦ UniqueOrders-find_where ps f g p q u.1 (rw a at hf) (rw b at hg) e
  ]
]

UniqueOrders-update_where :
    (q : Payment → Bool) (now pid : ℕ) (st : PaymentStatus) (ps : List Payment)
    → UniqueOrders ps
    → UniqueOrders (update_where q (completed now pid st) ps)
UniqueOrders-update_where q now pid st [] u = tt
UniqueOrders-update_where q now pid st (p ∷ ps) u = (
  elim (q p)
      as (λ b.
        All (λ (r : Payment). r.order_id ≢ (if◌then◌else◌ b (completed now pid st p) p).order_id)
          (update_where q (completed now pid st) ps)) [
            | true ↦
                All-update_where (λ (r : Payment). r.order_id ≢ p.order_id) q (completed now pid st)
                  ps (λ _ h. h) u.0
            | false ↦
                All-update_where (λ (r : Payment). r.order_id ≢ p.order_id) q (completed now pid st)
                  ps (λ _ h. h) u.0
          ],
  UniqueOrders-update_where q now pid st ps u.1,
)

-- The row that the update found is the one with the payment's id.
found-advances :
    (pay_id id : ℕ) (st : PaymentStatus) (ps : List Payment) (c p : Payment)
    → find_where (with_id id) ps ≡ some c
    → advances pay_id st c ≡ true
    → find_where (advances pay_id st) ps ≡ some p
    → c ≡ p
found-advances pay_id id st ps c p hc up hp =
    let same_id = find_where-holds (with_id id) ps c hc in
    some-injective _ _ (
      sym (find_where-narrow (advances pay_id st) (with_id id) ps c (λ x t. ground arith) hc up)
      ∙ hp)

-- The payment that was updated: its order was set to the status that goes with its own.
confirmed-updated :
    (now : ℕ) (d d' : Shop) (a : Applied now d d') (id : ℕ) (c : Payment) (b o : Orders)
    → find_where (with_id id) d.payments ≡ some c
    → advances a.pay_id a.update.payment_status c ≡ true
    → a.update.payment_status ≡ PaymentStatus.captured
    → find_where (order_is c.order_id) d.orders ≡ some b
    → o ≡ (if order_is a.payment.order_id b then record b { status = a.update.order_status } else b)
    → o.status ≡ OrderStatus.confirmed
confirmed-updated now d d' a id c b o hc up e hb ob =
    let same =
      found-advances a.pay_id id a.update.payment_status d.payments c a.payment hc up a.found in
    let t : order_is a.payment.order_id b ≡ true =
      subst (λ (r : Payment). order_is r.order_id b ≡ true) same
        (find_where-holds (order_is c.order_id) d.orders b hb) in
    ap (λ (r : Orders). r.status) (rw t at ob)
    ∙ (confirmed-iff-captured a.entity_status a.event a.update a.from_util).1 e

-- Another captured payment: its order was not touched.
confirmed-other :
    (now : ℕ) (d d' : Shop) (a : Applied now d d') (id : ℕ) (c : Payment) (b o : Orders)
    → Paid d
    → find_where (with_id id) d.payments ≡ some c
    → advances a.pay_id a.update.payment_status c ≡ false
    → c.status ≡ PaymentStatus.captured
    → find_where (order_is c.order_id) d.orders ≡ some b
    → o ≡ (if order_is a.payment.order_id b then record b { status = a.update.order_status } else b)
    → o.status ≡ OrderStatus.confirmed
confirmed-other now d d' a id c b o paid hc kept e hb ob =
    elim (Bool-cases (order_is a.payment.order_id b)) [
      | inl t ↦
          let to_c =
            (==_iff b.id c.order_id).0 (find_where-holds (order_is c.order_id) d.orders b hb) in
          let to_p = (==_iff b.id a.payment.order_id).0 t in
          let same =
            UniqueOrders-find_where d.payments (with_id id)
              (advances a.pay_id a.update.payment_status) c a.payment paid.unique hc a.found
              (sym to_c ∙ to_p) in
          let up =
            find_where-holds (advances a.pay_id a.update.payment_status) d.payments a.payment
              a.found in
          absurd (cc (up, kept, same))
      | inr f ↦ ap (λ (r : Orders). r.status) (rw f at ob) ∙ paid.confirmed id c hc e b hb
    ]

Applied-confirmed :
    (now : ℕ) (d d' : Shop) (a : Applied now d d') (id : ℕ) (p c : Payment) (b o : Orders)
    → Paid d
    → find_where (with_id id) d.payments ≡ some c
    → p ≡ (
        if advances a.pay_id a.update.payment_status c
        then completed now a.provider_payment_id a.update.payment_status c
        else c)
    → p.status ≡ PaymentStatus.captured
    → find_where (order_is p.order_id) d.orders ≡ some b
    → o ≡ (if order_is a.payment.order_id b then record b { status = a.update.order_status } else b)
    → o.status ≡ OrderStatus.confirmed
Applied-confirmed now d d' a id p c b o paid hc pc e hb ob =
    elim (Bool-cases (advances a.pay_id a.update.payment_status c)) [
      | inl up ↦
          let q = rw up at pc in
          confirmed-updated now d d' a id c b o hc up (ap (λ (r : Payment). r.status) (sym q) ∙ e)
            (subst (λ (r : Payment). find_where (order_is r.order_id) d.orders ≡ some b) q hb) ob
      | inr kept ↦
          let q = rw kept at pc in
          confirmed-other now d d' a id c b o paid hc kept
            (ap (λ (r : Payment). r.status) (sym q) ∙ e)
            (subst (λ (r : Payment). find_where (order_is r.order_id) d.orders ≡ some b) q hb) ob
    ]

Step-Paid : (now : ℕ) (d d' : Shop) → Step now d d' → Paid d → Paid d'
Step-Paid now d d' (inl same) paid = record {
  unique = rw same.payments_eq paid.unique;
  confirmed = rw (same.payments_eq, same.orders_eq) paid.confirmed;
}
Step-Paid now d d' (inr a) paid = record {
  unique = rw a.payments_eq (
      UniqueOrders-update_where (advances a.pay_id a.update.payment_status) now
        a.provider_payment_id a.update.payment_status d.payments paid.unique);
  confirmed = λ id p h e o ho.
      let (c, hc, pc) =
        find_where-updated (with_id id) (advances a.pay_id a.update.payment_status)
          (completed now a.provider_payment_id a.update.payment_status) d.payments p (λ _. refl)
          (rw a.payments_eq at h) in
      let (b, hb, ob) =
        find_where-updated (order_is p.order_id) (order_is a.payment.order_id)
          (λ r. record r { status = a.update.order_status }) d.orders o (λ _. refl)
          (rw a.orders_eq at ho) in
      Applied-confirmed now d d' a id p c b o paid hc pc e hb ob;
}

-- A delivery: when the request arrives, the room then in the queue, and what it is.
pub record Delivery : Type 0 where
  pub at : ℕ
  pub room : ℕ
  pub req : Request

-- The requests handled one after the other, each in its own session.
abbrev pub deliver : (ℕ → ℕ) → (ℕ → Option Payload) → List Delivery → Shop → Shop
deliver hmac loads [] d = d
deliver hmac loads (x ∷ xs) d =
    deliver hmac loads xs (in_session (razorpay_webhook hmac loads x.room x.at x.req) d).1

-- If every captured payment's order is confirmed and no order has two payments, this still holds
-- after any sequence of webhook requests, in whatever order and however often they are delivered.
pub deliver-Paid :
    (hmac : ℕ → ℕ) (loads : ℕ → Option Payload) (xs : List Delivery) (d : Shop)
    → Paid d
    → Paid (deliver hmac loads xs d)
deliver-Paid hmac loads [] d paid = paid
deliver-Paid hmac loads (x ∷ xs) d paid =
    deliver-Paid hmac loads xs _
      (Step-Paid x.at d _ (webhook-Step hmac loads x.room x.at x.req d) paid)
