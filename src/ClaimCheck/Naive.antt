-- ===== src/ClaimCheck/Naive.antt =====
-- claim_check_pattern/naive.py: the payload itself is the message. The JSON header of a payload is a
-- parameter; bytes are numbers.
use message_broker_patterns.Base.{
  ℕ, ◌+◌, Option, none, some, List, [], ◌∷◌, ◌++◌, length, ltb, if◌then◌else◌,
}
use message_broker_patterns.Base.Exec.{Exec, ok, err, message_too_large}
use message_broker_patterns.ClaimCheck.{Payload}

-- 1 MiB
abbrev pub max_message_bytes : ℕ
max_message_bytes = 1048576

-- The newline, 10, ends the header.
unfoldable pub encode_inline : (Payload → List ℕ) → Payload → List ℕ
encode_inline header p = header p ++ 10 ∷ p.bytes

pub record InlinePayloadBroker : Type 0 where
  pub queue : List (List ℕ)
  pub max_message_bytes : ℕ
  pub bytes_transferred : ℕ

unfoldable pub publish : List ℕ → Exec InlinePayloadBroker ℕ
publish message b =
    if ltb b.max_message_bytes (length message) then (err message_too_large, b) else (
      ok (length message),
      record b {
        queue = b.queue ++ message ∷ [];
        bytes_transferred = b.bytes_transferred + length message;
      },
    )

-- get; `none` while the queue is empty and the call waits.
unfoldable pub get : InlinePayloadBroker → Option (List ℕ × InlinePayloadBroker)
get b = elim b.queue [ [] ↦ none | m ∷ ms ↦ some (m, record b { queue = ms }) ]

unfoldable pub qsize : InlinePayloadBroker → ℕ
qsize b = length b.queue

unfoldable pub publish_payload_inline : (Payload → List ℕ) → Payload → Exec InlinePayloadBroker ℕ
unfolding encode_inline
publish_payload_inline header p b = publish (encode_inline header p) b
