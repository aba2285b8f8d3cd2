-- ===== src/Orders/Webhook/Publish.antt =====
-- What publishing adds to a request that was handled: the tables stay, and a queue that is full
-- turns the answer into an error.
use phyllonix.Base.{
  ℕ, ◌≤◌, ◌≡◌, refl, ap, ◌∙◌, Option, arith, Bool-cases, inl, inr, Result, ok, err, Error, raise,
  Session, in_session, leb, length,
}
use phyllonix.Orders.Shop.{Shop}
use phyllonix.Orders.Webhook.Handler.{
  Payload, Request, Reply, process_request, publish_all, razorpay_webhook,
}
use phyllonix.Orders.Webhook.Steps.{opened}

pub pair_eq : {A B : Type 0} (p : A × B) (a : A) (b : B) → p.0 ≡ a → p.1 ≡ b → p ≡ (a, b)
pair_eq p a b h k = ap (λ x. (x, p.1)) h ∙ ap (λ x. (a, x)) k

abbrev after_request : ℕ → Result Reply → Session Shop → Result Reply × Session Shop
after_request room r s = elim r [ ok a ↦ publish_all room a s | err e ↦ raise e s ]

after_request-tables :
    (room : ℕ) (r : Result Reply) (s : Session Shop)
    → (after_request room r s).1.committed ≡ s.committed
unfolding publish_all
after_request-tables room (ok a) s = elim (Bool-cases (leb (length a.published) room)) [
  | inl fits ↦ rw fits refl
  | inr full ↦ rw full refl
]
after_request-tables room (err e) s = refl

module _ (hmac : ℕ → ℕ) (loads : ℕ → Option Payload) (room now : ℕ) (req : Request) (d : Shop) where
  pub razorpay_webhook-tables :
      (in_session (razorpay_webhook hmac loads room now req) d).1
      ≡ (in_session (process_request hmac loads now req) d).1
  unfolding razorpay_webhook
  razorpay_webhook-tables =
      let q = process_request hmac loads now req (opened d) in after_request-tables room q.0 q.1

  pub razorpay_webhook-err :
      (e : Error)
      → (in_session (process_request hmac loads now req) d).0 ≡ err e
      → (in_session (razorpay_webhook hmac loads room now req) d).0 ≡ err e
  unfolding razorpay_webhook
  razorpay_webhook-err e h = ground (arith, h)

  pub razorpay_webhook-ok :
      (r : Reply)
      → (in_session (process_request hmac loads now req) d).0 ≡ ok r
      → length r.published ≤ room
      → (in_session (razorpay_webhook hmac loads room now req) d).0 ≡ ok r
  unfolding razorpay_webhook publish_all
  razorpay_webhook-ok r h fits = ground (arith, h)
