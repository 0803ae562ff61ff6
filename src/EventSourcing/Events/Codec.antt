-- ===== src/EventSourcing/Events/Codec.antt =====
-- The text form of an event, and back.
use message_broker_patterns.Base.{◌≡◌, refl}
use message_broker_patterns.Base.Exec.{ok}
use message_broker_patterns.EventSourcing.Events.{
  AccountEvent, account_created, money_deposited, money_withdrawn, to_dict, decode_event,
}

-- Decoding the text form of any event gives that event back.
pub decode_event-to_dict : (event : AccountEvent) → decode_event (to_dict event) ≡ ok event
unfolding decode_event to_dict
decode_event-to_dict (account_created a o) = refl
decode_event-to_dict (money_deposited a x) = refl
decode_event-to_dict (money_withdrawn a x) = refl
