-- ===== src/Envelope.antt =====
-- entities/envelope.py: the envelope of a message and its flat form on the wire. Bytes and datetimes
-- are Python's; what the envelope relies on of them is in Laws.
pub mod RoundTrip
pub mod Valid
mod Tests
use message_broker_patterns.Base.{
  String, ◌≡◌, Bool, true, false, ◌||◌, Option, none, some, ◌⊎◌, inl, inr, List, [], ◌∷◌, str_eq,
  if◌then◌else◌,
}
use message_broker_patterns.Base.Dict.{Dict, lookup, insert, update}
use message_broker_patterns.Base.Exec.{Result, ok, err, value_error, key_error}
use message_broker_patterns.Base.Results.{◌>>=◌, or_err}

pub record Python : Type 1 where
  pub Bytes : Type 0
  -- value.decode()
  pub decode : Bytes → Result String
  pub Datetime : Type 0
  -- d.tzinfo is not None
  pub is_aware : Datetime → Bool
  -- d.astimezone(UTC), an OverflowError for an instant that has no date in UTC
  pub astimezone_utc : Datetime → Result Datetime
  pub isoformat : Datetime → String
  pub fromisoformat : String → Result Datetime

-- A converted datetime is aware, is the same when converted again, and is read back from its text.
pub record Laws (py : Python) : Type 0 where
  pub utc_aware : (d utc : py.Datetime) → py.astimezone_utc d ≡ ok utc → py.is_aware utc ≡ true
  pub utc_again :
      (d utc : py.Datetime) → py.astimezone_utc d ≡ ok utc → py.astimezone_utc utc ≡ ok utc
  pub read_back :
      (d utc : py.Datetime)
      → py.astimezone_utc d ≡ ok utc
      → py.fromisoformat (py.isoformat utc) ≡ ok utc

-- k in HEADER_FIELDS
unfoldable pub is_header : String → Bool
is_header k =
    str_eq k "message_id"
    || str_eq k "correlation_id"
    || str_eq k "causation_id"
    || str_eq k "occurred_at"

-- HEADER_FIELDS.intersection(payload) is not empty
unfoldable pub collides : Dict String → Bool
unfolding is_header
collides [] = false
collides ((k, v) ∷ d) = is_header k || collides d

-- {k: v for k, v in decoded.items() if k not in HEADER_FIELDS}
unfoldable pub without_headers : Dict String → Dict String
unfolding is_header
without_headers [] = []
without_headers ((k, v) ∷ d) =
    let rest = without_headers d in if is_header k then rest else (k, v) ∷ rest

module _ (py : Python) where
  pub record Envelope : Type 0 where
    pub message_id : String
    pub correlation_id : String
    pub causation_id : String
    pub occurred_at : py.Datetime
    pub payload : Dict String

  -- self.correlation_id, or the message's id where it is empty
  unfoldable pub normalised : Envelope → py.Datetime → Envelope
  normalised e utc = record e {
    occurred_at = utc;
    correlation_id = if str_eq e.correlation_id "" then e.message_id else e.correlation_id;
  }

  -- __post_init__, on the arguments of the constructor.
  unfoldable pub post_init : Envelope → Result Envelope
  unfolding collides normalised
  post_init e =
      if py.is_aware e.occurred_at
      then if collides e.payload
        then err value_error
        else py.astimezone_utc e.occurred_at >>= (λ utc. ok (normalised e utc))
      else err value_error

  -- Envelope(...): a new id and the present instant, `minted` and `now`, are the defaults.
  unfoldable pub new_envelope :
      (minted : String) (now : py.Datetime)
      → Option String
      → (correlation_id causation_id : String) → Option py.Datetime
      → Dict String
      → Result Envelope
  unfolding post_init
  new_envelope minted now message_id correlation_id causation_id occurred_at payload =
      post_init (record {
        message_id = elim message_id [ none ↦ minted | some id ↦ id ];
        correlation_id = correlation_id;
        causation_id = causation_id;
        occurred_at = elim occurred_at [ none ↦ now | some d ↦ d ];
        payload = payload;
      })

  unfoldable pub headers : Envelope → Dict String
  headers e =
      ("message_id", e.message_id)
      ∷ ("correlation_id", e.correlation_id)
      ∷ ("causation_id", e.causation_id)
      ∷ ("occurred_at", py.isoformat e.occurred_at)
      ∷ []

  unfoldable pub to_fields : Envelope → Dict String
  unfolding headers
  to_fields e = update (headers e) e.payload

  -- Text as a client hands it over: bytes, or str.
  abbrev pub Wire : Type 0
  Wire = py.Bytes ⊎ String

  -- _decode
  unfoldable pub decode : Wire → Result String
  decode (inl b) = py.decode b
  decode (inr t) = ok t

  -- {_decode(k): _decode(v) for k, v in fields.items()}, after the pairs read so far.
  unfoldable pub decode_all : Dict String → List (Wire × Wire) → Result (Dict String)
  unfolding decode
  decode_all d [] = ok d
  decode_all d ((k, v) ∷ fields) = do
    key ← decode k
    value ← decode v
    decode_all (insert key value d) fields

  unfoldable pub from_decoded : Dict String → Result Envelope
  unfolding post_init without_headers
  from_decoded decoded = do
    occurred_at_text ← or_err key_error (lookup "occurred_at" decoded)
    occurred_at ← py.fromisoformat occurred_at_text
    message_id ← or_err key_error (lookup "message_id" decoded)
    correlation_id ← or_err key_error (lookup "correlation_id" decoded)
    causation_id ← or_err key_error (lookup "causation_id" decoded)
    post_init (record {
      message_id = message_id;
      correlation_id = correlation_id;
      causation_id = causation_id;
      occurred_at = occurred_at;
      payload = without_headers decoded;
    })

  unfoldable pub from_fields : List (Wire × Wire) → Result Envelope
  unfolding decode_all from_decoded
  from_fields fields = decode_all [] fields >>= from_decoded
