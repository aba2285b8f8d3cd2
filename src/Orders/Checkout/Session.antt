-- ===== src/Orders/Checkout/Session.antt =====
-- A user has at most one active checkout session, and opening it again gives the same one.
use phyllonix.Base.{
  ℕ, ◌+◌, ◌≤◌, ◌≡◌, refl, inl, inr, Bool-cases, false, none, List, [], ◌∷◌, ◌++◌, arith, ◌==◌,
  ==_iff, find_where, update_where, sum_where, sum_where-append, sum_where-update_where,
  Option-cases, in_session,
}
use phyllonix.Schema.{CheckoutSession}
use phyllonix.Orders.Shop.{Shop}
use phyllonix.Orders.Checkout.{
  reservation_ttl, if_cart_exists, is_active_of, update_checkout_activeness, or_gone,
  get_checkout_session, get_or_create_checkout_session, initiate_buy_now, new_session,
}

-- How many active sessions a user has.
abbrev pub active_of : ℕ → List CheckoutSession → ℕ
active_of user = sum_where (is_active_of user) (λ _. 1)

none_active :
    (user : ℕ) (css : List CheckoutSession)
    → find_where (is_active_of user) css ≡ none
    → active_of user css ≡ 0
none_active user [] h = refl
none_active user (cs ∷ css) h = ground (arith, none_active user css)

closing :
    (user id : ℕ) (css : List CheckoutSession)
    → active_of user (update_where (λ cs. cs.id == id) (λ cs. record cs { is_active = false }) css)
      ≤ active_of user css
closing user id css =
    sum_where-update_where (is_active_of user) (λ cs. cs.id == id)
      (λ cs. record cs { is_active = false }) (λ _. 1) css (λ cs. ground arith)

opening :
    (user other id pid expires_at : ℕ) (css : List CheckoutSession)
    → find_where (is_active_of user) css ≡ none
    → active_of other css ≤ 1
    → active_of other (css ++ new_session id pid user expires_at ∷ []) ≤ 1
opening user other id pid expires_at css h le = elim (Bool-cases (user == other)) [
  | inl same ↦
      let e = (==_iff user other).0 same in
      let z : active_of other css ≡ 0 = rw (← e) (none_active user css h) in
      rw
        (
          sum_where-append (is_active_of other) (λ _. 1) css
              (new_session id pid user expires_at ∷ []),
          same,
        )
        (omega (arith, z))
  | inr differ ↦
      rw
        (
          sum_where-append (is_active_of other) (λ _. 1) css
              (new_session id pid user expires_at ∷ []),
          differ,
        )
        (omega arith)
]

-- However initiate_buy_now ends, no user has two active checkout sessions after it if none had
-- before.
pub initiate_buy_now-one_active :
    (now user other : ℕ) (d : Shop)
    → active_of other d.checkouts ≤ 1
    → active_of other (in_session (initiate_buy_now now user) d).1.checkouts ≤ 1
unfolding initiate_buy_now if_cart_exists get_or_create_checkout_session get_checkout_session
    or_gone update_checkout_activeness
initiate_buy_now-one_active now user other d le =
    elim (Option-cases (find_where (is_active_of user) d.checkouts)) [
      | inl h ↦ ground (
        arith,
        h,
        opening user other d.next_id (d.next_id + 1) (now + reservation_ttl) d.checkouts h le,
      )
      | inr (cs, h) ↦ ground (arith, h, closing other cs.id d.checkouts)
    ]
