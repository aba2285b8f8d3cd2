-- ===== src/Orders/PayStatus.antt =====
-- pay_order_status_util of backend/orders/utils.py. The status comes from the payment entity of the
-- webhook's payload and may be missing; `None in "failed"` raises a TypeError.
use Prim.Native.String.{String}
use text.Mathlib.Text.{◌==◌ as str_eq}
use text.Mathlib.TextEquality.{eq_iff}
use phyllonix.Base.{
  ◌≡◌, ◌≢◌, ◌↔◌, Bool, true, false, not, ◌||◌, Option, none, some, arith, if◌then◌else◌, crash,
  Result, ok, err,
}
use phyllonix.Base.Text.{is_substring}
use phyllonix.Schema.{OrderStatus, PaymentStatus}

pub data Note : Type 0 where
  pay_failure status_failed authorized captured paid unknown_status : Note

pub record StatusUpdate : Type 0 where
  pub payment_status : PaymentStatus
  pub order_status : OrderStatus
  pub is_valid_event : Bool
  pub note : Note

abbrev initial : StatusUpdate
initial = record {
  payment_status = PaymentStatus.pending;
  order_status = OrderStatus.pending_payment;
  is_valid_event = true;
  note = pay_failure;
}

-- `psp_pay_status in ("failed")`: the parentheses make no tuple, so this is a substring test.
unfoldable pub after_failed : String → StatusUpdate → StatusUpdate
after_failed s u =
    if is_substring s "failed"
    then record u { payment_status = PaymentStatus.failed; note = status_failed }
    else u

abbrev is_event : Option String → String → Bool
is_event none t = false
is_event (some e) t = str_eq e t

abbrev pub is_success : String → Bool
is_success s = str_eq s "captured" || str_eq s "authorized" || str_eq s "success"

abbrev pub is_known : String → Bool
is_known s = str_eq s "captured" || str_eq s "authorized" || str_eq s "failed" || str_eq s "success"

unfoldable pub after_success : String → Option String → StatusUpdate → StatusUpdate
after_success s event u =
    if is_success s
    then (if is_event event "payment.authorized"
        then record u { payment_status = PaymentStatus.authorized; note = authorized }
        else if is_event event "payment.captured"
        then record u {
          payment_status = PaymentStatus.captured;
          order_status = OrderStatus.confirmed;
          note = captured;
        }
        else if is_event event "order.paid"
        then record u {
          payment_status = PaymentStatus.captured;
          order_status = OrderStatus.confirmed;
          is_valid_event = false;
          note = paid;
        }
        else u)
    else u

unfoldable pub after_unknown : String → StatusUpdate → StatusUpdate
after_unknown s u =
    if not (is_known s)
    then record u {
      payment_status = PaymentStatus.failed;
      is_valid_event = false;
      note = unknown_status;
    }
    else u

unfoldable pub pay_order_status_util : Option String → Option String → Result StatusUpdate
unfolding after_failed after_success after_unknown
pay_order_status_util none event = err crash
pay_order_status_util (some s) event =
    ok (after_unknown s (after_success s event (after_failed s initial)))

-- Whenever the function returns, it asks for the order to be confirmed exactly when it asks for the
-- payment to be captured.
pub confirmed-iff-captured :
    (s event : Option String) (u : StatusUpdate)
    → pay_order_status_util s event ≡ ok u
    → (u.order_status ≡ OrderStatus.confirmed) ↔ (u.payment_status ≡ PaymentStatus.captured)
unfolding pay_order_status_util
confirmed-iff-captured none event u h = cc
confirmed-iff-captured (some s) event u h = ground arith

authorized≢captured : (e : String) → str_eq e "payment.authorized" ≡ true → e ≢ "payment.captured"
authorized≢captured e h p = cc (rw p at ((eq_iff e "payment.authorized").0 h))

-- A result marked valid captures the payment exactly when the status is one of the three successful
-- ones and the event is "payment.captured".
pub captured-iff-event :
    (s e : String) (u : StatusUpdate)
    → pay_order_status_util (some s) (some e) ≡ ok u
    → u.is_valid_event ≡ true
    → (u.payment_status ≡ PaymentStatus.captured)
      ↔ ((is_success s ≡ true) × (e ≡ "payment.captured"))
unfolding pay_order_status_util
captured-iff-event s e u h valid =
    ground
      (arith, eq_iff e "payment.captured", eq_iff e "payment.authorized", authorized≢captured e)
