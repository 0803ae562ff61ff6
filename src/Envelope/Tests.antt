-- ===== src/Envelope/Tests.antt =====
-- The theorems on the envelope at concrete inputs, with instants that are counted in seconds.
use message_broker_patterns.Base.{
  ℕ, String, eq_iff, ◌≡◌, refl, Bool, true, false, inl, inr, Option, none, some, [], ◌∷◌, str_eq,
  ltb, if◌then◌else◌, arith,
}
use message_broker_patterns.Base.Int.{ℤ, pos, negsuc}
use message_broker_patterns.Base.Decimal.{str_int, parse_int}
use message_broker_patterns.Base.Decimal.RoundTrip.{parse_int-str_int}
use message_broker_patterns.Base.Exec.{Result, ok, err, value_error, other}
use message_broker_patterns.Envelope.{
  Python, Laws, Envelope, Wire, decode, post_init, collides, is_header, new_envelope, to_fields,
  from_fields,
}
use message_broker_patterns.Envelope.Valid.{IsValid, Outcome, post_init-Outcome}
use message_broker_patterns.Envelope.RoundTrip.{sent, from_fields-to_fields}

-- Whether the datetime is aware, and its seconds.
abbrev read_stamp : Option ℤ → Result (Bool × ℕ)
read_stamp none = err value_error
read_stamp (some (pos n)) = ok (true, n)
read_stamp (some (negsuc n)) = err value_error

-- Instants of a thousand seconds and more have no date.
abbrev to_utc : Bool × ℕ → Result (Bool × ℕ)
to_utc (aware, n) = if ltb n 1000 then ok (true, n) else err (other "OverflowError")

abbrev python : Python
python = record {
  Bytes = String;
  decode = λ b. ok b;
  Datetime = Bool × ℕ;
  is_aware = λ d. d.0;
  astimezone_utc = to_utc;
  isoformat = λ d. str_int (pos d.1);
  fromisoformat = λ t. read_stamp (parse_int t);
}

aware_of : (d utc : Bool × ℕ) → to_utc d ≡ ok utc → utc.0 ≡ true
aware_of (aware, n) (a, m) h = ground arith

again_of : (d utc : Bool × ℕ) → to_utc d ≡ ok utc → to_utc utc ≡ ok utc
again_of (aware, n) (a, m) h = ground arith

read_of :
    (d utc : Bool × ℕ) → to_utc d ≡ ok utc → read_stamp (parse_int (str_int (pos utc.1))) ≡ ok utc
read_of d (a, m) h = rw (parse_int-str_int (pos m)) (ground (arith, aware_of d (a, m) h))

python_laws : Laws python
python_laws = record { utc_aware = aware_of; utc_again = again_of; read_back = read_of }

abbrev shipped : Envelope python
shipped = record {
  message_id = "m2";
  correlation_id = "m1";
  causation_id = "m1";
  occurred_at = (true, 40);
  payload = ("order_id", "o1") ∷ ("status", "shipped") ∷ [];
}

shipped-IsValid : IsValid python shipped
unfolding collides is_header
shipped-IsValid = record {
  is_aware = refl;
  is_utc = refl;
  no_collision = refl;
  is_root = λ e. ground (arith, eq_iff "m1" "");
}

-- The keys named "order_id" go as bytes, all else as text.
abbrev mixed : String → Wire python
mixed t = if str_eq t "order_id" then inl t else inr t

mixed_decodes : (t : String) → decode python (mixed t) ≡ ok t
unfolding decode
mixed_decodes t = split (str_eq t "order_id")
  where
    split : (b : Bool) → decode python (if b then inl t else inr t) ≡ ok t
    split true = refl
    split false = refl

from_fields-to_fields_example :
    from_fields python (sent python mixed (to_fields python shipped)) ≡ ok shipped
from_fields-to_fields_example =
    from_fields-to_fields python python_laws mixed mixed_decodes shipped (refl, (refl, tt))
      shipped-IsValid

post_init-Outcome_example : Outcome python shipped (post_init python shipped)
post_init-Outcome_example = post_init-Outcome python python_laws shipped

-- A new flow is its own root.
new_root :
    new_envelope python "m7" (true, 3) none "" "" none (("k", "v") ∷ [])
    ≡ ok (record {
      message_id = "m7";
      correlation_id = "m7";
      causation_id = "";
      occurred_at = (true, 3);
      payload = ("k", "v") ∷ [];
    })
unfolding new_envelope post_init collides is_header
new_root = refl

header_key_refused :
    new_envelope python "m7" (true, 3) none "" "" none (("occurred_at", "v") ∷ []) ≡ err value_error
unfolding new_envelope post_init collides is_header
header_key_refused = refl

-- An aware datetime that UTC cannot express.
beyond_refused :
    new_envelope python "m7" (true, 3) none "" "" (some (true, 1000)) []
    ≡ err (other "OverflowError")
unfolding new_envelope post_init collides
beyond_refused = refl
