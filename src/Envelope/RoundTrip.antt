-- ===== src/Envelope/RoundTrip.antt =====
-- An envelope read back from its own fields.
use message_broker_patterns.Base.{
  String, ◌≡◌, refl, true, false, none, List, [], ◌∷◌, ◌++◌, arith, eq_iff,
}
use message_broker_patterns.Base.Dict.{insert, Dict, IsDict, lookup, update, update_append}
use message_broker_patterns.Base.Exec.{ok}
use message_broker_patterns.Envelope.{
  Python, Laws, Envelope, Wire, collides, is_header, without_headers, headers, to_fields, decode,
  decode_all, from_decoded, from_fields,
}
use message_broker_patterns.Envelope.Valid.{IsValid, post_init_valid}

pub no_header :
    (k : String) (d : Dict String) → is_header k ≡ true → collides d ≡ false → lookup k d ≡ none
unfolding collides
no_header k [] h c = refl
no_header k ((j, v) ∷ d) h c = ground (arith, no_header k d, eq_iff j k)

without_headers_id : (d : Dict String) → collides d ≡ false → without_headers d ≡ d
unfolding collides without_headers
without_headers_id [] c = refl
without_headers_id ((j, v) ∷ d) c = ground (arith, without_headers_id d)

module _ (py : Python) where
  headers-IsDict :
      (e : Envelope py)
      → collides e.payload ≡ false
      → IsDict e.payload
      → IsDict (headers py e ++ e.payload)
  unfolding headers is_header
  headers-IsDict e c d = (
    no_header "message_id" e.payload refl c,
    (
      no_header "correlation_id" e.payload refl c,
      (no_header "causation_id" e.payload refl c, (no_header "occurred_at" e.payload refl c, d)),
    ),
  )

  -- Each text of a mapping, keys and values, in the form `send` gives it.
  abbrev pub sent : (String → Wire py) → Dict String → List (Wire py × Wire py)
  sent send [] = []
  sent send ((k, v) ∷ d) = (send k, send v) ∷ sent send d

  decode_all-sent :
      (send : String → Wire py)
      → ((t : String) → decode py (send t) ≡ ok t)
      → (d fields : Dict String) → decode_all py d (sent send fields) ≡ ok (update d fields)
  unfolding decode_all
  decode_all-sent send h d [] = refl
  decode_all-sent send h d ((k, v) ∷ fields) =
      rw (h k, h v) (decode_all-sent send h (insert k v d) fields)

  module _ (laws : Laws py) where
    from_decoded-to_fields :
        (e : Envelope py) → IsValid py e → from_decoded py (headers py e ++ e.payload) ≡ ok e
    unfolding from_decoded headers without_headers is_header
    from_decoded-to_fields e v =
        rw (readable, without_headers_id e.payload v.no_collision) (post_init_valid py laws e v)
      where
        readable : py.fromisoformat (py.isoformat e.occurred_at) ≡ ok e.occurred_at
        readable = laws.read_back e.occurred_at e.occurred_at v.is_utc

    -- A valid envelope, written to a flat mapping and sent as text or as bytes that decode to it, is
    -- read back as the same envelope, when its payload is a dict.
    pub from_fields-to_fields :
        (send : String → Wire py)
        → ((t : String) → decode py (send t) ≡ ok t)
        → (e : Envelope py) → IsDict e.payload
        → IsValid py e
        → from_fields py (sent send (to_fields py e)) ≡ ok e
    unfolding from_fields to_fields
    from_fields-to_fields send h e d v =
        rw
          (
            decode_all-sent send h [] (update (headers py e) e.payload),
            update_append (headers py e) e.payload (headers-IsDict e v.no_collision d),
            update_append [] (headers py e ++ e.payload) (headers-IsDict e v.no_collision d),
          )
          (from_decoded-to_fields e v)
