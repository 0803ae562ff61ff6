-- ===== src/ClaimCheck/Tests.antt =====
-- The theorem on the claim check at a concrete input.
use message_broker_patterns.Base.{ℕ, ◌+◌, String, ◌≡◌, ◌≢◌, refl, true, none, List, [], ◌∷◌}
use message_broker_patterns.Base.Int.{pos}
use message_broker_patterns.Base.Decimal.{str_int}
use message_broker_patterns.Base.Dict.{lookup}
use message_broker_patterns.Base.Exec.{ok, err, message_too_large}
use message_broker_patterns.ClaimCheck.{Payload, Handler, Desk, publish, poll_queue}
use message_broker_patterns.ClaimCheck.Naive
use message_broker_patterns.ClaimCheck.Naive.{
  InlinePayloadBroker, encode_inline, publish_payload_inline,
}
use message_broker_patterns.ClaimCheck.RoundTrip.{redeem-publish}

-- Keeps the payload.
abbrev keeping : Handler (List Payload)
keeping consumer claim p h = (ok tt, p ∷ h)

abbrev report_file : Payload
report_file = record {
  bytes = 37 ∷ 80 ∷ 68 ∷ [];
  content_type = "application/pdf";
  original_name = "r.pdf";
}

abbrev uuids : ℕ → String
uuids k = str_int (pos k)

abbrev start : Desk (List Payload)
start = record {
  store = ("kept", 1 ∷ []) ∷ [];
  queue = [];
  draws = 0;
  metrics = [];
  handler_state = [];
  total_handled = 0;
}

redeem-publish_example :
    let t = (publish uuids (λ c. 99) report_file start).1 in
    let (result, u) = poll_queue keeping "w1" true t.queue t in
    (result ≡ ok tt)
    × (u.handler_state ≡ report_file ∷ [])
    × (u.queue ≡ [])
    × (lookup (uuids 0) u.store ≡ none)
    × ((j : String) → j ≢ uuids 0 → lookup j u.store ≡ lookup j start.store)
    × (u.total_handled ≡ 0 + 1)
redeem-publish_example =
    redeem-publish uuids (λ c. 99) keeping "w1" report_file start (report_file ∷ []) refl refl

-- A broker with a limit of three bytes.
abbrev small : InlinePayloadBroker
small = record { queue = []; max_message_bytes = 3; bytes_transferred = 0 }

abbrev no_header : Payload → List ℕ
no_header p = []

inline_fits : (Naive.publish (1 ∷ 2 ∷ []) small).0 ≡ ok 2
unfolding Naive.publish
inline_fits = refl

inline_refused :
    publish_payload_inline no_header (record report_file { bytes = 1 ∷ 2 ∷ 3 ∷ [] }) small
    ≡ (err message_too_large, small)
unfolding publish_payload_inline encode_inline Naive.publish
inline_refused = refl
