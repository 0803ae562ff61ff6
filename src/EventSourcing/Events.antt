-- ===== src/EventSourcing/Events.antt =====
-- event_sourcing_pattern/events.py: the three events, their flat text form, and the decoder. Redis
-- gives fields as bytes; `decode` of UTF-8 is taken as the identity on texts.
pub mod Codec
use message_broker_patterns.Base.{
  String, Option, none, some, List, [], ◌∷◌, if◌then◌else◌, str_eq, str_append,
}
use message_broker_patterns.Base.Dict.{Dict, lookup}
use message_broker_patterns.Base.Exec.{Result, ok, err, value_error, key_error}

-- A dict of texts, as Redis Streams store it.
abbrev pub Fields : Type 0
Fields = Dict String

pub data AccountEvent : Type 0 where
  account_created : (account_id owner_id : String) → AccountEvent
  money_deposited : (account_id amount : String) → AccountEvent
  money_withdrawn : (account_id amount : String) → AccountEvent

-- The class attribute `event_type`.
unfoldable pub event_type : AccountEvent → String
event_type (account_created a o) = "AccountCreated"
event_type (money_deposited a x) = "MoneyDeposited"
event_type (money_withdrawn a x) = "MoneyWithdrawn"

unfoldable pub to_dict : AccountEvent → Fields
unfolding event_type
to_dict (account_created account_id owner_id) =
    ("event_type", "AccountCreated") ∷ ("account_id", account_id) ∷ ("owner_id", owner_id) ∷ []
to_dict (money_deposited account_id amount) =
    ("event_type", "MoneyDeposited") ∷ ("account_id", account_id) ∷ ("amount", amount) ∷ []
to_dict (money_withdrawn account_id amount) =
    ("event_type", "MoneyWithdrawn") ∷ ("account_id", account_id) ∷ ("amount", amount) ∷ []

-- data[key] for two keys, read in this order.
two_fields : (String → String → AccountEvent) → Option String → Option String → Result AccountEvent
two_fields make (some a) (some b) = ok (make a b)
two_fields make _ _ = err key_error

text_or_empty : Option String → String
text_or_empty none = ""
text_or_empty (some t) = t

dispatch : String → Fields → Result AccountEvent
unfolding two_fields
dispatch kind raw =
    if str_eq kind "AccountCreated"
    then two_fields account_created (lookup "account_id" raw) (lookup "owner_id" raw)
    else if str_eq kind "MoneyDeposited"
    then two_fields money_deposited (lookup "account_id" raw) (lookup "amount" raw)
    else if str_eq kind "MoneyWithdrawn"
    then two_fields money_withdrawn (lookup "account_id" raw) (lookup "amount" raw)
    else err value_error

-- decode_event: an unknown or missing `event_type` is a ValueError, a missing field a KeyError.
unfoldable pub decode_event : Fields → Result AccountEvent
unfolding dispatch text_or_empty
decode_event raw = dispatch (text_or_empty (lookup "event_type" raw)) raw

-- account_stream: one stream for each account.
unfoldable pub account_stream : String → String
account_stream account_id = str_append "account:" (str_append account_id ":events")
