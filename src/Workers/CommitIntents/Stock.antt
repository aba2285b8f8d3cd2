-- ===== src/Workers/CommitIntents/Stock.antt =====
-- The handler of commit intents takes an order's items out of the stock exactly once or not at all.
use mathlib.Core.Option.{some-injective}
use phyllonix.Base.{
  ◌≢◌, ◌-◌, ℕ, ◌+◌, ◌≡◌, refl, sym, ◌∙◌, ap, inl, inr, ◌⊎◌, true, false, none, some, List, [], ◌∷◌,
  ltb, ◌==◌, find_where, update_where, arith, sum_where, Bool-cases, Option-cases,
  find_where-update_where, find_where-holds, ==_iff,
}
use phyllonix.Schema.{Product, Line, CommitIntent}
use phyllonix.Orders.Shop.{Shop}
use phyllonix.Workers.CommitIntents.{
  intent_is, is_pending, mark_processing, product_is, take_item, take_found, take_items,
  without_errors, done, finish, run_intent, order_confirm_commitintent_handler,
}

-- The quantity of a product over the lines.
abbrev pub ordered : ℕ → List Line → ℕ
ordered pid = sum_where (λ (l : Line). l.product_id == pid) (λ l. l.quantity)

-- Taking one item that is not short lowers its product and no other.
take_item-same :
    (it : Line) (ps : List Product) (prod : Product)
    → find_where (product_is it.product_id) ps ≡ some prod
    → ltb prod.stock_qty it.quantity ≡ false
    → (q : Product) × (find_where (product_is it.product_id) (take_item it ps false prod).products
        ≡ some q)
      × (q.stock_qty + it.quantity ≡ prod.stock_qty)
unfolding take_item
take_item-same it ps prod h enough = rw enough (
  record prod { stock_qty = prod.stock_qty - it.quantity },
  find_where-update_where (product_is it.product_id) (product_is it.product_id)
        (λ p. record p { stock_qty = prod.stock_qty - it.quantity }) ps prod (λ _. refl) h
      ∙ rw (find_where-holds (product_is it.product_id) ps prod h),
  ground arith,
)

take_item-other :
    (it : Line) (ps : List Product) (prod p : Product) (pid : ℕ)
    → ltb prod.stock_qty it.quantity ≡ false
    → (it.product_id == pid) ≡ false
    → find_where (product_is pid) ps ≡ some p
    → find_where (product_is pid) (take_item it ps false prod).products ≡ some p
unfolding take_item
take_item-other it ps prod p pid enough ne hp =
    let e = (==_iff p.id pid).0 (find_where-holds (product_is pid) ps p hp) in
    let no : product_is it.product_id p ≡ false = rw e (ground arith) in
    rw enough (
      find_where-update_where (product_is pid) (product_is it.product_id)
        (λ p. record p { stock_qty = prod.stock_qty - it.quantity }) ps p (λ _. refl) hp
      ∙ rw no)

-- The stock of a product at the end and what was taken of it add up to what it was.
abbrev Taken : List Line → List Product → List Product → ℕ → ℕ → Type 0
Taken items ps ps' pid n =
    (p : Product)
    → find_where (product_is pid) ps ≡ some p
    → p.stock_qty ≡ n
    → (q : Product) × (find_where (product_is pid) ps' ≡ some q)
      × (q.stock_qty + ordered pid items ≡ n)

errors-stay :
    (items : List Line) (ps : List Product) → without_errors (take_items items ps true) ≡ none
unfolding take_items take_found take_item
errors-stay [] ps = refl
errors-stay (it ∷ items) ps = elim (Option-cases (find_where (product_is it.product_id) ps)) [
  | inl missing ↦ rw (missing, without_errors)
  | inr (prod, found) ↦ elim (Bool-cases (ltb prod.stock_qty it.quantity)) [
    | inl short ↦ ground (arith, errors-stay items ps)
    | inr enough ↦ ground (arith, errors-stay items (take_item it ps true prod).products)
  ]
]

-- A pass that succeeds took every item.
take_items-head :
    (it : Line) (items : List Line) (ps ps' : List Product)
    → without_errors (take_items (it ∷ items) ps false) ≡ some ps'
    → (prod : Product) × (find_where (product_is it.product_id) ps ≡ some prod)
      × (ltb prod.stock_qty it.quantity ≡ false)
      × (without_errors (take_items items (take_item it ps false prod).products false) ≡ some ps')
unfolding take_items take_found take_item
take_items-head it items ps ps' h = elim (Option-cases (find_where (product_is it.product_id) ps)) [
  | inl missing ↦ ground arith
  | inr (prod, found) ↦ elim (Bool-cases (ltb prod.stock_qty it.quantity)) [
    | inl short ↦ absurd (ground (arith, errors-stay items ps))
    | inr enough ↦ (prod, found, enough, ground arith)
  ]
]

take_items-Taken :
    (items : List Line) (ps ps' : List Product) (pid n : ℕ)
    → without_errors (take_items items ps false) ≡ some ps'
    → Taken items ps ps' pid n
unfolding take_items
take_items-Taken [] ps ps' pid n h p hp e = (p, rw (← some-injective _ _ h) hp, omega (arith, e))
take_items-Taken (it ∷ items) ps ps' pid n h p hp e =
    let (prod, found, enough, rest) = take_items-head it items ps ps' h in
    elim (Bool-cases (it.product_id == pid)) [
      | inl same ↦
          let i = (==_iff it.product_id pid).0 same in
          let same_row : prod ≡ p = some-injective _ _ (sym found ∙ rw i hp) in
          let (q, hq, eq) = take_item-same it ps prod found enough in
          let (r, hr, er) =
            take_items-Taken items (take_item it ps false prod).products ps' pid q.stock_qty rest q
              (rw (← i) hq) refl in
          (r, hr, rw same (omega (arith, er, eq, e, ap (λ (x : Product). x.stock_qty) same_row)))
      | inr other ↦
          let (r, hr, er) =
            take_items-Taken items (take_item it ps false prod).products ps' pid n rest p
              (take_item-other it ps prod p pid enough other hp) e in
          (r, hr, rw other (omega (arith, er)))
    ]

-- What a run of the handler on a pending intent did to the stock and the intent.
abbrev after : ℕ → ℕ → Shop → Shop
after now ci_id d = order_confirm_commitintent_handler now (some ci_id) d

handler-cases :
    (now ci_id : ℕ) (c : CommitIntent) (d : Shop)
    → find_where (is_pending ci_id) d.intents ≡ some c
    → ((without_errors (take_items c.payload d.products false) ≡ none)
        × ((after now ci_id d).products ≡ d.products))
      ⊎ ((without_errors (take_items c.payload d.products false)
            ≡ some (after now ci_id d).products)
          × ((after now ci_id d).intents
              ≡ update_where (intent_is ci_id) done (mark_processing ci_id d.intents)))
unfolding order_confirm_commitintent_handler run_intent finish
handler-cases now ci_id c d h =
    elim (Option-cases (without_errors (take_items c.payload d.products false))) [
      | inl none_left ↦ inl (none_left, rw (h, none_left))
      | inr (ps, some_left) ↦ inr (rw (h, some_left), rw (h, some_left))
    ]

-- A run on a pending intent either leaves every stock as it was, or takes out of the stock of every
-- product exactly what the intent's items list of it, and never more than there is.
pub handler-stock :
    (now ci_id : ℕ) (c : CommitIntent) (d : Shop)
    → find_where (is_pending ci_id) d.intents ≡ some c
    → ((order_confirm_commitintent_handler now (some ci_id) d).products ≡ d.products)
      ⊎ ((pid : ℕ) (p : Product)
          → find_where (product_is pid) d.products ≡ some p
          → (q : Product) × (find_where
                (product_is pid)
                (order_confirm_commitintent_handler now (some ci_id) d).products
              ≡ some q)
            × (q.stock_qty + ordered pid c.payload ≡ p.stock_qty))
handler-stock now ci_id c d h = elim (handler-cases now ci_id c d h) [
  | inl (failed, same) ↦ inl same
  | inr (taken, intents) ↦
      inr (λ pid p hp. take_items-Taken c.payload d.products _ pid p.stock_qty taken p hp refl)
]

-- A run on an intent that is not pending, such as one that is done or failed, changes nothing.
not_pending-unchanged :
    (now ci_id : ℕ) (d : Shop)
    → find_where (is_pending ci_id) d.intents ≡ none
    → order_confirm_commitintent_handler now (some ci_id) d ≡ d
unfolding order_confirm_commitintent_handler run_intent
not_pending-unchanged now ci_id d h = rw h

none_pending :
    (ci_id : ℕ) (cs : List CommitIntent)
    → find_where (is_pending ci_id) (update_where (intent_is ci_id) done (mark_processing ci_id cs))
      ≡ none
unfolding mark_processing
none_pending ci_id [] = refl
none_pending ci_id (c ∷ cs) = ground (arith, none_pending ci_id cs)

-- Once a run took the items of an intent, a further run with its id, at any time, changes nothing.
pub handler-once :
    (now later ci_id : ℕ) (c : CommitIntent) (d : Shop)
    → find_where (is_pending ci_id) d.intents ≡ some c
    → (without_errors (take_items c.payload d.products false)) ≢ none
    → order_confirm_commitintent_handler later
        (some ci_id)
        (order_confirm_commitintent_handler now (some ci_id) d)
      ≡ order_confirm_commitintent_handler now (some ci_id) d
handler-once now later ci_id c d h ok = elim (handler-cases now ci_id c d h) [
  | inl (failed, same) ↦ absurd (ok failed)
  | inr (taken, intents) ↦
      not_pending-unchanged later ci_id _ (rw intents (none_pending ci_id d.intents))
]
