-- ===== src/PriorityQueue/Models.antt =====
-- priority_queue_pattern/models.py: a ticket and its flat text form.
use message_broker_patterns.Base.{String, ◌≡◌, refl, none, some, [], ◌∷◌, str_eq, if◌then◌else◌}
use message_broker_patterns.Base.Dict.{lookup}
use message_broker_patterns.Base.Exec.{Result, ok, err, value_error, key_error}
use message_broker_patterns.Base.Results.{◌>>=◌}
use message_broker_patterns.Redis.View.{Fields}

pub data Priority : Type 0 where
  high normal low : Priority

abbrev pub value : Priority → String
value high = "high"
value normal = "normal"
value low = "low"

-- Priority(text)
unfoldable pub priority_of : String → Result Priority
priority_of text =
    if str_eq text "high"
    then ok high
    else if str_eq text "normal"
    then ok normal
    else if str_eq text "low"
    then ok low
    else err value_error

pub record SupportTicket : Type 0 where
  pub ticket_id : String
  pub subject : String
  pub priority : Priority
  pub customer_id : String

unfoldable pub to_fields : SupportTicket → Fields
to_fields t =
    ("ticket_id", t.ticket_id)
    ∷ ("subject", t.subject)
    ∷ ("priority", value t.priority)
    ∷ ("customer_id", t.customer_id)
    ∷ []

field : String → Fields → Result String
field key fields = elim (lookup key fields) [ none ↦ err key_error | some v ↦ ok v ]

unfoldable pub from_fields : Fields → Result SupportTicket
unfolding field priority_of
from_fields fields = do
  ticket_id ← field "ticket_id" fields
  subject ← field "subject" fields
  priority_text ← field "priority" fields
  priority ← priority_of priority_text
  customer_id ← field "customer_id" fields
  ok (record {
    ticket_id = ticket_id;
    subject = subject;
    priority = priority;
    customer_id = customer_id;
  })

-- A ticket read back from its own fields is the same ticket.
pub from_fields-to_fields : (t : SupportTicket) → from_fields (to_fields t) ≡ ok t
unfolding from_fields to_fields field priority_of
from_fields-to_fields t = go t.priority
  where
    go :
        (p : Priority)
        → from_fields (to_fields (record t { priority = p })) ≡ ok (record t { priority = p })
    go high = refl
    go normal = refl
    go low = refl
