-- ===== src/Dlq/Models.antt =====
-- dlq_pattern/models.py: a payment and its flat text form.
use message_broker_patterns.Base.{String, ◌≡◌, Option, none, some, [], ◌∷◌}
use message_broker_patterns.Base.Int.{ℤ}
use message_broker_patterns.Base.Decimal.{str_int, parse_int}
use message_broker_patterns.Base.Decimal.RoundTrip.{parse_int-str_int}
use message_broker_patterns.Base.Dict.{lookup}
use message_broker_patterns.Base.Exec.{Result, ok, err, value_error, key_error}
use message_broker_patterns.Base.Results.{◌>>=◌}
use message_broker_patterns.Redis.View.{Fields}

pub record Payment : Type 0 where
  pub payment_id : String
  pub amount_cents : ℤ
  pub customer_id : String
  pub currency : String

unfoldable pub to_fields : Payment → Fields
to_fields p =
    ("payment_id", p.payment_id)
    ∷ ("amount_cents", str_int p.amount_cents)
    ∷ ("customer_id", p.customer_id)
    ∷ ("currency", p.currency)
    ∷ []

field : String → Fields → Result String
field key fields = elim (lookup key fields) [ none ↦ err key_error | some v ↦ ok v ]

-- int(...)
as_int : Option ℤ → Result ℤ
as_int none = err value_error
as_int (some n) = ok n

unfoldable pub from_fields : Fields → Result Payment
unfolding field as_int
from_fields fields = do
  payment_id ← field "payment_id" fields
  amount_text ← field "amount_cents" fields
  amount_cents ← as_int (parse_int amount_text)
  customer_id ← field "customer_id" fields
  currency ← field "currency" fields
  ok (record {
    payment_id = payment_id;
    amount_cents = amount_cents;
    customer_id = customer_id;
    currency = currency;
  })

-- A payment read back from its own fields is the same payment.
pub from_fields-to_fields : (p : Payment) → from_fields (to_fields p) ≡ ok p
unfolding from_fields to_fields
from_fields-to_fields p = rw (parse_int-str_int p.amount_cents)
